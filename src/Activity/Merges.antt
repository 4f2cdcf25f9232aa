-- ===== src/Activity/Merges.antt =====
-- application/src/server/activity.rs: the loop of a merge, and its result.
use ailes.Common.{
  ℕ, ◌+◌, ◌≤◌, false, List, [], ◌∷◌, ◌++◌, length, length-append, append_assoc, append-nil, ◌≡◌,
  refl, sym, ap, ◌∙◌, arith, Option,
}
use mathlib.Core.Path.{subst}
use ailes.Activity.{
  Activity, Kind, sftp, upload, other, kind, Group, collect, opt, Merging, merge_as, merge_loop,
}
use ailes.Activity.Groups.{is_other}
use ailes.Activity.Kept.{
  AreGroups, passed, passed-append, total, total-append, groups_total, Collects, collect-Collects,
}

module _ {J : Type 0} where
  abbrev pub AreMaps : Merging J → Type 0
  AreMaps m = AreGroups m.sftp_events × AreGroups m.file_upload_events

  abbrev pub state_size : Merging J → ℕ
  state_size m = length m.merged + length m.sftp_events + length m.file_upload_events

module _ {J : Type 0} (q : Kind → J → ℕ) where
  abbrev pub state_total : Merging J → ℕ
  state_total m =
      total q m.merged + groups_total q m.sftp_events + groups_total q m.file_upload_events

  -- What some rounds of the loop do with some activities.
  abbrev pub Merges : Merging J → List (Activity J) → Merging J → Type 0
  Merges m seen m' =
      AreMaps m'
      × (passed m'.merged ≡ passed m.merged ++ passed seen)
      × (state_total m' ≡ state_total m + total q seen)
      × (state_size m' ≤ state_size m + length seen)

  passed-opt :
      (merged closed : List (Activity J)) (a : Activity J)
      → is_other (kind a) ≡ false
      → passed closed ≡ []
      → passed (merged ++ closed) ≡ passed merged ++ passed (a ∷ [])
  passed-opt merged closed a o h =
      passed-append merged closed ∙ ap (λ xs. passed merged ++ xs) (h ∙ rw o refl)

  sftp-Merges :
      (a : Activity J) (m : Merging J) (after : List (Kind × Group J) × Option (Activity J))
      → is_other (kind a) ≡ false
      → AreMaps m
      → Collects q (kind a) a m.sftp_events after
      → Merges m (a ∷ []) (record m { sftp_events = after.0; merged = m.merged ++ opt after.1 })
  sftp-Merges a m (groups, closed) o (gs, gu) (all, none_passed, kept, small) = (
    (all, gu),
    passed-opt m.merged (opt closed) a o none_passed,
    omega (arith, total-append q m.merged (opt closed)),
    omega (arith, length-append m.merged (opt closed)),
  )

  upload-Merges :
      (a : Activity J) (m : Merging J) (after : List (Kind × Group J) × Option (Activity J))
      → is_other (kind a) ≡ false
      → AreMaps m
      → Collects q (kind a) a m.file_upload_events after
      → Merges m
          (a ∷ [])
          (record m { file_upload_events = after.0; merged = m.merged ++ opt after.1 })
  upload-Merges a m (groups, closed) o (gs, gu) (all, none_passed, kept, small) = (
    (gs, all),
    passed-opt m.merged (opt closed) a o none_passed,
    omega (arith, total-append q m.merged (opt closed)),
    omega (arith, length-append m.merged (opt closed)),
  )

  merge_as-Merges :
      (k : Kind) (a : Activity J) (m : Merging J)
      → kind a ≡ k
      → AreMaps m
      → Merges m (a ∷ []) (merge_as k a m)
  unfolding merge_as
  merge_as-Merges (sftp event user) a m p maps =
      let o : is_other (kind a) ≡ false = ap is_other p in
      subst
        (λ k. Merges m (a ∷ []) (
          let after = collect k a m.sftp_events in
          record m { sftp_events = after.0; merged = m.merged ++ opt after.1 }))
        p
        (sftp-Merges a m (collect (kind a) a m.sftp_events) o maps
          (collect-Collects q a m.sftp_events o maps.0))
  merge_as-Merges (upload user directory) a m p maps =
      let o : is_other (kind a) ≡ false = ap is_other p in
      subst
        (λ k. Merges m (a ∷ []) (
          let after = collect k a m.file_upload_events in
          record m { file_upload_events = after.0; merged = m.merged ++ opt after.1 }))
        p
        (upload-Merges a m (collect (kind a) a m.file_upload_events) o maps
          (collect-Collects q a m.file_upload_events o maps.1))
  merge_as-Merges other a m p maps = (
    maps,
    passed-append m.merged (a ∷ []),
    omega (arith, total-append q m.merged (a ∷ [])),
    omega (arith, length-append m.merged (a ∷ [])),
  )

  then-Merges :
      (m m' m2 : Merging J) (a : Activity J) (rest : List (Activity J))
      → Merges m (a ∷ []) m'
      → Merges m' rest m2
      → Merges m (a ∷ rest) m2
  then-Merges m m' m2 a rest (maps, p, t, l) (maps2, p2, t2, l2) = (
    maps2,
    p2
        ∙ ap (λ xs. xs ++ passed rest) p
        ∙ append_assoc (passed m.merged) (passed (a ∷ [])) (passed rest)
        ∙ ap (λ xs. passed m.merged ++ xs) (sym (passed-append (a ∷ []) rest)),
    omega arith,
    omega arith,
  )

  pub merge_loop-Merges :
      (activities : List (Activity J)) (m : Merging J)
      → AreMaps m
      → Merges m activities (merge_loop activities m)
  unfolding merge_loop
  merge_loop-Merges [] m maps = (maps, sym (append-nil (passed m.merged)), omega arith, omega arith)
  merge_loop-Merges (a ∷ rest) m maps =
      let step = merge_as-Merges (kind a) a m refl maps in
      then-Merges m (merge_as (kind a) a m) (merge_loop rest (merge_as (kind a) a m)) a rest step
        (merge_loop-Merges rest (merge_as (kind a) a m) step.0)
