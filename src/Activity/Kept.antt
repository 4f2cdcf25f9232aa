-- ===== src/Activity/Kept.antt =====
-- application/src/server/activity.rs: what a merge keeps of a batch.
use ailes.Common.{
  ℕ, suc, ◌+◌, ◌≤◌, Bool, true, false, Option, none, some, List, [], ◌∷◌, ◌++◌, length, leb,
  if◌then◌else◌, ◌≡◌, refl, sym, ap, ◌∙◌, arith,
}
use ailes.Activity.{
  Activity, Kind, kind, extract_files, seconds_between, Group, begin, extend, close, collect, opt,
  Kind-discrete,
}
use ailes.Activity.Groups.{
  is_other, IsGroup, begin-IsGroup, extend-IsGroup, close-kind, close-files,
}
use mathlib.Core.Path.{subst}
use mathlib.Core.Logic.{ite}

module _ {J : Type 0} where
  abbrev pub AreGroups : List (Kind × Group J) → Type 0
  AreGroups [] = Unit
  AreGroups ((k, group) ∷ groups) = IsGroup k group × (is_other k ≡ false) × AreGroups groups

  -- The activities that pass by the maps.
  abbrev pub passed : List (Activity J) → List (Activity J)
  passed [] = []
  passed (a ∷ as_) = let rest = passed as_ in if is_other (kind a) then a ∷ rest else rest

  passed-cons :
      (b : Bool) (x : Activity J) (xs ys zs : List (Activity J))
      → xs ≡ ys ++ zs
      → (if b then x ∷ xs else xs) ≡ (if b then x ∷ ys else ys) ++ zs
  passed-cons true x xs ys zs p = ap (λ xs. x ∷ xs) p
  passed-cons false x xs ys zs p = p

  pub passed-append : (xs ys : List (Activity J)) → passed (xs ++ ys) ≡ passed xs ++ passed ys
  passed-append [] ys = refl
  passed-append (x ∷ xs) ys =
      passed-cons (is_other (kind x)) x (passed (xs ++ ys)) (passed xs) (passed ys)
        (passed-append xs ys)

module _ {J : Type 0} (q : Kind → J → ℕ) where
  -- Files counted by a weight of each, which may look at the kind of activity.
  abbrev pub tally : Kind → List J → ℕ
  tally k [] = 0
  tally k (x ∷ xs) = q k x + tally k xs

  abbrev pub total : List (Activity J) → ℕ
  total [] = 0
  total (a ∷ activities) = tally (kind a) (extract_files a) + total activities

  abbrev pub groups_total : List (Kind × Group J) → ℕ
  groups_total [] = 0
  groups_total ((k, group) ∷ groups) = tally k group.files + groups_total groups

  tally-append : (k : Kind) (xs ys : List J) → tally k (xs ++ ys) ≡ tally k xs + tally k ys
  tally-append k [] ys = omega arith
  tally-append k (x ∷ xs) ys = omega (arith, tally-append k xs ys)

  pub total-append : (xs ys : List (Activity J)) → total (xs ++ ys) ≡ total xs + total ys
  total-append [] ys = omega arith
  total-append (x ∷ xs) ys = omega (arith, total-append xs ys)

  pub close-tally :
      (k : Kind) (group : Group J)
      → IsGroup k group
      → tally (kind (close group)) (extract_files (close group)) ≡ tally k group.files
  close-tally k group h =
      ap (λ k. tally k (extract_files (close group))) (close-kind k group h)
      ∙ ap (tally k) (close-files k group h)

  -- What a round at a map does: nothing is lost, and what it closes is of the map's kind.
  abbrev pub Collects :
      Kind
      → Activity J
      → List (Kind × Group J)
      → List (Kind × Group J) × Option (Activity J)
      → Type 0
  Collects k a groups (groups', closed) =
      AreGroups groups'
      × (passed (opt closed) ≡ [])
      × (groups_total groups' + total (opt closed)
          ≡ groups_total groups + tally k (extract_files a))
      × (length groups' + length (opt closed) ≤ suc (length groups))

  extend-Collects :
      (k : Kind) (a : Activity J) (group : Group J) (groups : List (Kind × Group J))
      → AreGroups ((k, group) ∷ groups)
      → Collects k a ((k, group) ∷ groups) ((k, extend a group) ∷ groups, none)
  unfolding extend
  extend-Collects k a group groups (h, o, rest) = (
    (extend-IsGroup k a group h, o, rest),
    refl,
    omega (arith, tally-append k group.files (extract_files a)),
    omega arith,
  )

  renew-Collects :
      (a : Activity J) (group : Group J) (groups : List (Kind × Group J))
      → AreGroups ((kind a, group) ∷ groups)
      → Collects
          (kind a)
          a
          ((kind a, group) ∷ groups)
          ((kind a, begin a) ∷ groups, some (close group))
  unfolding begin
  renew-Collects a group groups (h, o, rest) =
      let same = close-kind (kind a) group h in
      (
        (begin-IsGroup a o, o, rest),
        rw (same, o) refl,
        omega (arith, close-tally (kind a) group h),
        omega arith,
      )

  -- The round at the group of the key.
  abbrev at_key :
      Kind
      → Activity J
      → Group J
      → List (Kind × Group J)
      → Bool
      → List (Kind × Group J) × Option (Activity J)
  at_key k a group groups near =
      if near
      then ((k, extend a group) ∷ groups, none)
      else ((k, begin a) ∷ groups, some (close group))

  at_key-Collects :
      (a : Activity J) (group : Group J) (groups : List (Kind × Group J)) (near : Bool)
      → AreGroups ((kind a, group) ∷ groups)
      → Collects (kind a) a ((kind a, group) ∷ groups) (at_key (kind a) a group groups near)
  at_key-Collects a group groups true h = extend-Collects (kind a) a group groups h
  at_key-Collects a group groups false h = renew-Collects a group groups h

  behind-Collects :
      (k k' : Kind) (a : Activity J) (group : Group J) (groups : List (Kind × Group J))
      (after : List (Kind × Group J) × Option (Activity J))
      → IsGroup k' group
      → is_other k' ≡ false
      → Collects k a groups after
      → Collects k a ((k', group) ∷ groups) ((k', group) ∷ after.0, after.1)
  behind-Collects k k' a group groups (groups', closed) h o (all, none_passed, sum, few) =
      ((h, o, all), none_passed, omega arith, omega arith)

  pub collect-Collects :
      (a : Activity J) (groups : List (Kind × Group J))
      → is_other (kind a) ≡ false
      → AreGroups groups
      → Collects (kind a) a groups (collect (kind a) a groups)
  unfolding collect begin
  collect-Collects a [] o h = ((begin-IsGroup a o, o, tt), refl, omega arith, omega arith)
  collect-Collects a ((k', group) ∷ groups) o (h, o', rest) =
      let near = leb (seconds_between a.timestamp group.base.timestamp) 60 in
      let after = collect (kind a) a groups in
      elim (Kind-discrete k' (kind a))
        as (λ d.
          Collects (kind a) a ((k', group) ∷ groups)
            (ite d (at_key k' a group groups near) ((k', group) ∷ after.0, after.1))) [
              | yes p ↦
                  subst
                    (λ k.
                      AreGroups ((k, group) ∷ groups)
                      → Collects (kind a) a ((k, group) ∷ groups) (at_key k a group groups near))
                    (sym p) (at_key-Collects a group groups near) (h, o', rest)
              | no n ↦
                  behind-Collects (kind a) k' a group groups after h o'
                    (collect-Collects a groups o rest)
            ]
