-- ===== src/Activity/Merged.antt =====
-- application/src/server/activity.rs: a merge as a whole, whatever the order of its maps' values.
use ailes.Common.{
  ℕ, ◌+◌, ◌≤◌, false, List, [], ◌∷◌, ◌++◌, map, length, length-append, append-nil, ◌≡◌, refl, ap,
  ap₂, ◌∙◌, arith, if◌then◌else◌,
}
use mathlib.Core.List.{Permᴰ}
use ailes.Activity.{
  Activity, Kind, kind, extract_files, Group, close, Merging, merge_loop, no_groups, values,
  closed_values, emptied, merge_activities,
}
use ailes.Activity.Groups.{is_other, close-kind}
use ailes.Activity.Kept.{
  AreGroups, passed, passed-append, total, total-append, groups_total, tally, close-tally,
}
use ailes.Activity.Merges.{AreMaps, state_total, state_size, merge_loop-Merges}

-- The documented behaviour of `into_values`: each value once, in some order.
abbrev pub IsOrder : {J : Type 0} → (List (Group J) → List (Group J)) → Type 0
IsOrder {J} into_order = (groups : List (Group J)) → Permᴰ (into_order groups) groups

module _ {J : Type 0} where
  abbrev sum_of : (Group J → ℕ) → List (Group J) → ℕ
  sum_of f [] = 0
  sum_of f (group ∷ groups) = f group + sum_of f groups

  sum_of-perm : (f : Group J → ℕ) {xs ys : List (Group J)} → Permᴰ xs ys → sum_of f xs ≡ sum_of f ys
  sum_of-perm f Permᴰ.nil = refl
  sum_of-perm f (Permᴰ.cons p perm) = ap₂ (λ m n. m + n) (ap f p) (sum_of-perm f perm)
  sum_of-perm f (Permᴰ.swap p p') = omega (arith, ap f p, ap f p')
  sum_of-perm f (Permᴰ.trans left right) = sum_of-perm f left ∙ sum_of-perm f right

  -- One for a group that passes by.
  abbrev passes : Group J → ℕ
  passes group = if is_other (kind (close group)) then 1 else 0

  passed-close :
      (groups : List (Group J)) → sum_of passes groups ≡ 0 → passed (map close groups) ≡ []
  passed-close [] h = refl
  passed-close (group ∷ groups) h = ground (arith, passed-close groups)

  passes-values :
      (groups : List (Kind × Group J)) → AreGroups groups → sum_of passes (values groups) ≡ 0
  passes-values [] h = refl
  passes-values ((k, group) ∷ groups) (g, o, rest) =
      let off : is_other (kind (close group)) ≡ false = ap is_other (close-kind k group g) ∙ o in
      rw (off, passes-values groups rest) refl

  length-close : (groups : List (Group J)) → length (map close groups) ≡ sum_of (λ _. 1) groups
  length-close [] = refl
  length-close (group ∷ groups) = omega (arith, length-close groups)

  length-values : (groups : List (Kind × Group J)) → sum_of (λ _. 1) (values groups) ≡ length groups
  length-values [] = refl
  length-values ((k, group) ∷ groups) = omega (arith, length-values groups)

module _ {J : Type 0} (into_order : List (Group J) → List (Group J))
    (order : IsOrder into_order) where
  closed_values-passed :
      (groups : List (Kind × Group J))
      → AreGroups groups
      → passed (closed_values into_order groups) ≡ []
  closed_values-passed groups h =
      passed-close (into_order (values groups))
        (sum_of-perm passes (order (values groups)) ∙ passes-values groups h)

  closed_values-length :
      (groups : List (Kind × Group J)) → length (closed_values into_order groups) ≡ length groups
  closed_values-length groups =
      length-close (into_order (values groups))
      ∙ sum_of-perm (λ _. 1) (order (values groups))
      ∙ length-values groups

  emptied-passed : (m : Merging J) → AreMaps m → passed (emptied into_order m) ≡ passed m.merged
  emptied-passed m (gs, gu) =
      passed-append m.merged _
      ∙ ap (λ xs. passed m.merged ++ xs)
          (passed-append (closed_values into_order m.sftp_events)
              (closed_values into_order m.file_upload_events)
            ∙ ap₂ (λ xs ys. xs ++ ys) (closed_values-passed m.sftp_events gs)
                (closed_values-passed m.file_upload_events gu))
      ∙ append-nil (passed m.merged)

  length-emptied : (m : Merging J) → length (emptied into_order m) ≡ state_size m
  length-emptied m = omega (
    arith,
    length-append m.merged
        (closed_values into_order m.sftp_events ++ closed_values into_order m.file_upload_events),
    length-append (closed_values into_order m.sftp_events)
        (closed_values into_order m.file_upload_events),
    closed_values-length m.sftp_events,
    closed_values-length m.file_upload_events,
  )

  -- The activities that no map takes are there as they were, in their order.
  pub merge_activities-passed :
      (activities : List (Activity J))
      → passed (merge_activities into_order activities) ≡ passed activities
  unfolding merge_activities
  merge_activities-passed activities =
      let (maps, same, sum, few) = merge_loop-Merges (λ k x. 0) activities no_groups (tt, tt) in
      emptied-passed (merge_loop activities no_groups) maps ∙ same

  -- A merge has no more activities than it is given.
  pub length-merge_activities :
      (activities : List (Activity J))
      → length (merge_activities into_order activities) ≤ length activities
  unfolding merge_activities
  length-merge_activities activities =
      let (maps, same, sum, few) = merge_loop-Merges (λ k x. 0) activities no_groups (tt, tt) in
      omega (arith, length-emptied (merge_loop activities no_groups))

  module _ (q : Kind → J → ℕ) where
    total-close :
        (groups : List (Group J))
        → total q (map close groups)
          ≡ sum_of (λ g. tally q (kind (close g)) (extract_files (close g))) groups
    total-close [] = refl
    total-close (group ∷ groups) = omega (arith, total-close groups)

    total-values :
        (groups : List (Kind × Group J))
        → AreGroups groups
        → sum_of (λ g. tally q (kind (close g)) (extract_files (close g))) (values groups)
          ≡ groups_total q groups
    total-values [] h = refl
    total-values ((k, group) ∷ groups) (g, o, rest) =
        ap₂ (λ m n. m + n) (close-tally q k group g) (total-values groups rest)

    closed_values-total :
        (groups : List (Kind × Group J))
        → AreGroups groups
        → total q (closed_values into_order groups) ≡ groups_total q groups
    closed_values-total groups h =
        total-close (into_order (values groups))
        ∙ sum_of-perm (λ g. tally q (kind (close g)) (extract_files (close g)))
            (order (values groups))
        ∙ total-values groups h

    emptied-total : (m : Merging J) → AreMaps m → total q (emptied into_order m) ≡ state_total q m
    emptied-total m (gs, gu) = omega (
      arith,
      total-append q m.merged
          (closed_values into_order m.sftp_events ++ closed_values into_order m.file_upload_events),
      total-append q (closed_values into_order m.sftp_events)
          (closed_values into_order m.file_upload_events),
      closed_values-total m.sftp_events gs,
      closed_values-total m.file_upload_events gu,
    )

    -- No file is lost, made up or moved: each is as often there, with the event and user, or the user and
    -- directory, of its activity.
    pub merge_activities-total :
        (activities : List (Activity J))
        → total q (merge_activities into_order activities) ≡ total q activities
    unfolding merge_activities
    merge_activities-total activities =
        let (maps, same, sum, few) = merge_loop-Merges q activities no_groups (tt, tt) in
        omega (arith, emptied-total (merge_loop activities no_groups) maps)
