-- ===== src/Activity/Windows.antt =====
-- application/src/server/activity.rs: which files a merge puts into one activity.
use ailes.Common.{
  ℕ, ◌≤◌, Bool, true, false, Option, none, some, List, [], ◌∷◌, ◌++◌, map, leb, leb→le,
  if◌then◌else◌, ◌≡◌, ◌⊎◌, inl, inr, refl, sym, ap, ◌∙◌, arith, All, All-append,
}
use mathlib.Core.Path.{subst}
use mathlib.Core.List.{Permᴰ}
use mathlib.Core.Logic.{ite}
use ailes.Activity.{
  Activity, Kind, sftp, upload, other, kind, extract_files, finalize, finalize_files,
  seconds_between, Group, begin, extend, close, collect, opt, Kind-discrete, Merging, merge_as,
  merge_loop, no_groups, values, merge_activities,
}
use ailes.Activity.Groups.{
  is_other, IsGroup, begin-IsGroup, extend-IsGroup, close-kind, close-files,
}
use ailes.Activity.Merged.{IsOrder}

abbrev pub In : {A : Type 0} → A → List A → Type 0
In a [] = ⊥
In a (x ∷ xs) = (a ≡ x) ⊎ In a xs

In-append : {A : Type 0} (a : A) (xs ys : List A) → In a (xs ++ ys) → In a xs ⊎ In a ys
In-append a [] ys m = inr m
In-append a (x ∷ xs) ys (inl p) = inl (inl p)
In-append a (x ∷ xs) ys (inr m) = elim (In-append a xs ys m) [ inl l ↦ inl (inr l) | inr r ↦ inr r ]

module _ {J : Type 0} (activities : List (Activity J)) where
  -- An activity of the batch that has the file, of the kind and at most 60 whole seconds from the time.
  abbrev pub Near : Kind → ℕ → J → Type 0
  Near k time x =
      (a : Activity J) × In a activities
      × (kind a ≡ k)
      × In x (extract_files a)
      × (seconds_between a.timestamp time ≤ 60)

  abbrev pub AllNear : Kind → ℕ → List J → Type 0
  AllNear k time files = (x : J) → In x files → Near k time x

  abbrev pub IsNear : Activity J → Type 0
  IsNear a = AllNear (kind a) a.timestamp (extract_files a)

  abbrev NearGroup : Kind → Group J → Type 0
  NearGroup k group = IsGroup k group × AllNear k group.base.timestamp group.files

  abbrev NearGroups : List (Kind × Group J) → Type 0
  NearGroups groups =
      All (λ (kg : Kind × Group J). NearGroup kg.0 kg.1 × (is_other kg.0 ≡ false)) groups

  seconds_between_self : (t : ℕ) → seconds_between t t ≤ 60
  seconds_between_self t = omega arith

  self-IsNear : (a : Activity J) → In a activities → IsNear a
  self-IsNear a m x h = (a, m, refl, h, seconds_between_self a.timestamp)

  extend-AllNear :
      (a : Activity J) (k : Kind) (time : ℕ) (files : List J)
      → kind a ≡ k
      → In a activities
      → seconds_between a.timestamp time ≤ 60
      → AllNear k time files
      → AllNear k time (files ++ extract_files a)
  extend-AllNear a k time files p m near h x i = elim (In-append x files (extract_files a) i) [
    | inl l ↦ h x l
    | inr r ↦ (a, m, p, r, near)
  ]

  finalize-timestamp :
      (files : List J) (a : Activity J) → (finalize files a).timestamp ≡ a.timestamp
  finalize-timestamp [] a = refl
  finalize-timestamp (file ∷ files) a = refl

  close-timestamp : (group : Group J) → (close group).timestamp ≡ group.base.timestamp
  unfolding close finalize_files
  close-timestamp group = finalize-timestamp group.files group.base

  close-IsNear : (k : Kind) (group : Group J) → NearGroup k group → IsNear (close group)
  close-IsNear k group (g, h) x i =
      let (a, m, same, there, near) = h x (subst (In x) (close-files k group g) i) in
      (
        a,
        m,
        same ∙ sym (close-kind k group g),
        there,
        subst (λ t. seconds_between a.timestamp t ≤ 60) (sym (close-timestamp group)) near,
      )

  -- A round at a map with an activity of the batch.
  abbrev CollectsNear : List (Kind × Group J) × Option (Activity J) → Type 0
  CollectsNear (groups, closed) = NearGroups groups × All IsNear (opt closed)

  begin-NearGroup :
      (a : Activity J) (k : Kind)
      → kind a ≡ k
      → is_other k ≡ false
      → In a activities
      → NearGroup k (begin a)
  unfolding begin
  begin-NearGroup a k p o m = (
    subst (λ k. IsGroup k (begin a)) p (begin-IsGroup a (ap is_other p ∙ o)),
    λ x i. (a, m, p, i, seconds_between_self a.timestamp),
  )

  at_key-Near :
      (a : Activity J) (k : Kind) (group : Group J) (groups : List (Kind × Group J)) (near : Bool)
      → leb (seconds_between a.timestamp group.base.timestamp) 60 ≡ near
      → kind a ≡ k
      → In a activities
      → NearGroups ((k, group) ∷ groups)
      → CollectsNear (
          if near
          then ((k, extend a group) ∷ groups, none)
          else ((k, begin a) ∷ groups, some (close group)))
  unfolding extend begin
  at_key-Near a k group groups true h p m (((g, n), o), rest) = (
    (
      (
        (
          extend-IsGroup k a group g,
          extend-AllNear a k group.base.timestamp group.files p m (leb→le _ 60 h) n,
        ),
        o,
      ),
      rest,
    ),
    tt,
  )
  at_key-Near a k group groups false h p m (((g, n), o), rest) =
      (((begin-NearGroup a k p o m, o), rest), (close-IsNear k group (g, n), tt))

  collect-Near :
      (a : Activity J) (k : Kind) (groups : List (Kind × Group J))
      → kind a ≡ k
      → is_other k ≡ false
      → In a activities
      → NearGroups groups
      → CollectsNear (collect k a groups)
  unfolding collect
  collect-Near a k [] p o m h = (((begin-NearGroup a k p o m, o), tt), tt)
  collect-Near a k ((k', group) ∷ groups) p o m (h, rest) =
      let near = leb (seconds_between a.timestamp group.base.timestamp) 60 in
      let after = collect k a groups in
      elim (Kind-discrete k' k)
        as (λ d. CollectsNear (
          ite d
            (if near
              then ((k', extend a group) ∷ groups, none)
              else ((k', begin a) ∷ groups, some (close group)))
            ((k', group) ∷ after.0, after.1))) [
              | yes same ↦ at_key-Near a k' group groups near refl (p ∙ sym same) m (h, rest)
              | no n ↦ let (all, closed) = collect-Near a k groups p o m rest in ((h, all), closed)
            ]

  abbrev MergesNear : Merging J → Type 0
  MergesNear m = NearGroups m.sftp_events × NearGroups m.file_upload_events × All IsNear m.merged

  merge_as-Near :
      (k : Kind) (a : Activity J) (m : Merging J)
      → kind a ≡ k
      → In a activities
      → MergesNear m
      → MergesNear (merge_as k a m)
  unfolding merge_as
  merge_as-Near (sftp event user) a m p i (hs, hu, hm) =
      let (all, closed) = collect-Near a (sftp event user) m.sftp_events p refl i hs in
      (all, hu, All-append IsNear m.merged _ hm closed)
  merge_as-Near (upload user directory) a m p i (hs, hu, hm) =
      let (all, closed) = collect-Near a (upload user directory) m.file_upload_events p refl i hu in
      (hs, all, All-append IsNear m.merged _ hm closed)
  merge_as-Near other a m p i (hs, hu, hm) =
      (hs, hu, All-append IsNear m.merged (a ∷ []) hm (self-IsNear a i, tt))

  merge_loop-Near :
      (rest : List (Activity J)) (m : Merging J)
      → ((a : Activity J) → In a rest → In a activities)
      → MergesNear m
      → MergesNear (merge_loop rest m)
  unfolding merge_loop
  merge_loop-Near [] m sub h = h
  merge_loop-Near (a ∷ rest) m sub h =
      merge_loop-Near rest (merge_as (kind a) a m) (λ b i. sub b (inr i))
        (merge_as-Near (kind a) a m refl (sub a (inl refl)) h)

  values-Near :
      (groups : List (Kind × Group J))
      → NearGroups groups
      → All (λ group. IsNear (close group)) (values groups)
  values-Near [] h = tt
  values-Near ((k, group) ∷ groups) ((h, o), rest) =
      (close-IsNear k group h, values-Near groups rest)

All-perm : {A : Type 0} (P : A → Type 0) {xs ys : List A} → Permᴰ xs ys → All P ys → All P xs
All-perm P Permᴰ.nil h = h
All-perm P (Permᴰ.cons p perm) (h, rest) = (subst P (sym p) h, All-perm P perm rest)
All-perm P (Permᴰ.swap p p') (h, (k, rest)) = (subst P (sym p) k, (subst P (sym p') h, rest))
All-perm P (Permᴰ.trans left right) h = All-perm P left (All-perm P right h)

All-map :
    {A B : Type 0} (f : A → B) (P : B → Type 0) (xs : List A)
    → All (λ x. P (f x)) xs
    → All P (map f xs)
All-map f P [] h = tt
All-map f P (x ∷ xs) (h, rest) = (h, All-map f P xs rest)

module _ {J : Type 0} (into_order : List (Group J) → List (Group J)) (order : IsOrder into_order)
    (activities : List (Activity J)) where
  closed-Near :
      (groups : List (Kind × Group J))
      → NearGroups activities groups
      → All (IsNear activities) (map close (into_order (values groups)))
  closed-Near groups h = All-map close (IsNear activities) (into_order (values groups)) (
      All-perm (λ group. IsNear activities (close group)) (order (values groups))
        (values-Near activities groups h))

  -- Each file of a merged activity is one of an activity of the batch with its event and user, or its user and
  -- directory, that is at most 60 whole seconds away from it.
  pub merge_activities-IsNear : All (IsNear activities) (merge_activities into_order activities)
  unfolding merge_activities
  merge_activities-IsNear =
      let m = merge_loop activities no_groups in
      let (hs, hu, hm) = merge_loop-Near activities activities no_groups (λ a i. i) (tt, tt, tt) in
      All-append (IsNear activities) m.merged _ hm (
        All-append (IsNear activities) _ _ (closed-Near m.sftp_events hs)
          (closed-Near m.file_upload_events hu))
