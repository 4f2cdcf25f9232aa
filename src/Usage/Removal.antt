-- ===== src/Usage/Removal.antt =====
-- application/src/server/filesystem/usage.rs: what `recursive_remove` takes out and what it leaves.
use ailes.Common.{
  ◌≡◌, ◌∙◌, refl, ap, inl, inr, Option, none, some, List, [], ◌∷◌, arith, if◌then◌else◌,
  Option-cases,
}
use ailes.Common.Names.{Name}
use ailes.Usage.Space.{UsedSpace}
use ailes.Usage.Tree.{
  DiskUsage, node, Entries, space, get_entry, set_entry, remove_entry, get_path_components,
  recursive_remove, release,
}
use ailes.Usage.Sorted.{
  IsSorted, Removes, remove_entry-Removes, Removes-AreSorted, get_entry_removed, get_entry_kept,
}
use ailes.Usage.SortedOps.{
  get_entry-set_entry_self, get_entry-set_entry_ne, AreSorted-set_entry, get_entry-IsSorted,
}
use ailes.Usage.Update.{
  size_at, size_at-cons, size_at-cons_none, size_at-cons_eq, is_above, same_name-cases,
  same_name_self, same_name_comm,
}
use mathlib.Core.Option

-- The trees that a removal answers, as a relation.
pub data RemovesPath : List Name → DiskUsage → DiskUsage → DiskUsage → Type 0 where
  last :
      {k : Name} {s t : UsedSpace} {es rest : Entries} {d : DiskUsage}
      → Removes k es d rest
      → t ≡ release (space d) s
      → RemovesPath (k ∷ []) (node s es) d (node t rest)
  step :
      {k k' : Name} {p : List Name} {s t : UsedSpace} {es fs : Entries} {c c' d : DiskUsage}
      → get_entry k es ≡ some c
      → RemovesPath (k' ∷ p) c d c'
      → t ≡ release (space d) s
      → fs ≡ set_entry k c' es
      → RemovesPath (k ∷ k' ∷ p) (node s es) d (node t fs)

pub recursive_remove-RemovesPath :
    (p : List Name) (u d u' : DiskUsage)
    → recursive_remove p u ≡ some (d, u')
    → RemovesPath p u d u'
unfolding recursive_remove
recursive_remove-RemovesPath [] u d u' e = cc
recursive_remove-RemovesPath (k ∷ []) (node s es) d (node t fs) e =
    elim (Option-cases (remove_entry k es)) [
      | inl missing ↦ absurd (ground arith)
      | inr ((r, rest), found) ↦
          let parts : (remove_entry k es ≡ some (d, fs)) × (t ≡ release (space d) s) =
            ground arith in
          last (remove_entry-Removes k es d fs parts.0) parts.1
    ]
recursive_remove-RemovesPath (k ∷ k' ∷ p) (node s es) d (node t fs) e =
    elim (Option-cases (get_entry k es)) [
      | inl missing ↦ absurd (ground arith)
      | inr (c, found) ↦ elim (Option-cases (recursive_remove (k' ∷ p) c)) [
        | inl none_below ↦ absurd (ground arith)
        | inr ((r, c'), below) ↦
            let parts : (recursive_remove (k' ∷ p) c ≡ some (d, c'))
                × (t ≡ release (space d) s)
                × (fs ≡ set_entry k c' es) =
              ground arith in
            step found (recursive_remove-RemovesPath (k' ∷ p) c d c' parts.0) parts.1 parts.2
      ]
    ]

pub RemovesPath-IsSorted :
    {p : List Name} {u d u' : DiskUsage}
    → RemovesPath p u d u'
    → IsSorted u
    → IsSorted u' × IsSorted d
RemovesPath-IsSorted (last r e) h = Removes-AreSorted r h
RemovesPath-IsSorted (step {k = k} {es = es} {c = c} {c' = c'} g r e f) h =
    let (left, gone) = RemovesPath-IsSorted r (get_entry-IsSorted k es c g h) in
    (rw f (AreSorted-set_entry k c' es left h), gone)

pub RemovesPath-found :
    {p : List Name} {u d u' : DiskUsage}
    → RemovesPath p u d u'
    → IsSorted u
    → (get_path_components p u ≡ some d) × (get_path_components p u' ≡ none)
unfolding get_path_components
RemovesPath-found (last r e) h =
    let (was, left) = get_entry_removed r h in (ground arith, ground arith)
RemovesPath-found (step {k = k} {es = es} {c = c} {c' = c'} g r e f) h =
    let (was, left) = RemovesPath-found r (get_entry-IsSorted k es c g h) in
    (ground arith, ground (arith, get_entry-set_entry_self k c' es c g))

-- The size of `q` once the directory `p`, of size `gone`, has been removed.
abbrev pub size_after_removal :
    List Name → List Name → UsedSpace → Option UsedSpace → Option UsedSpace
size_after_removal p q gone size =
    if is_above p q then none else if is_above q p then Option.map (release gone) size else size

pub RemovesPath-size_at :
    {p : List Name} {u d u' : DiskUsage} (q : List Name)
    → RemovesPath p u d u'
    → IsSorted u
    → size_at q u' ≡ size_after_removal p q (space d) (size_at q u)
unfolding is_above
RemovesPath-size_at [] (last {d = d} r e) h = unfold size_at get_path_components in ap some e
RemovesPath-size_at [] (step g r e f) h = unfold size_at get_path_components in ap some e
RemovesPath-size_at (j ∷ q) (last {k = k} {s = s} {t = t} {es = es} {rest = rest} {d = d} r e) h =
    elim (same_name-cases k j) [
      | inl (same, y) ↦
          rw (← same)
            (size_at-cons_none k q t rest (get_entry_removed r h).1 ∙ rw (same_name_self k) refl)
      | inr (differ, n) ↦
          size_at-cons_eq j q t s rest es (get_entry_kept j r h differ)
          ∙ rw (n, same_name_comm j k) (rw n refl)
    ]
RemovesPath-size_at (j ∷ q)
      (step {k = k} {k' = k'} {p = p} {s = s} {t = t} {es = es} {fs = fs} {c = c} {c' = c'} {d = d}
        g r e f)
      h =
    elim (same_name-cases k j) [
      | inl (same, y) ↦
          let below = RemovesPath-size_at q r (get_entry-IsSorted k es c g h) in
          rw (← same) (
            size_at-cons k q t fs c' (rw f (get_entry-set_entry_self k c' es c g))
            ∙ below
            ∙ rw (same_name_self k) (rw (size_at-cons k q s es c g) refl))
      | inr (differ, n) ↦
          size_at-cons_eq j q t s fs es (rw f (get_entry-set_entry_ne k j c' es differ))
          ∙ rw (n, same_name_comm j k) (rw n refl)
    ]
