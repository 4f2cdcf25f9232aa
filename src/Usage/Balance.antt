-- ===== src/Usage/Balance.antt =====
-- application/src/server/filesystem/usage.rs: updates and removals keep every directory's size at
-- least the sum of its subdirectories' sizes, in both counters.
use ailes.Common.{ℕ, ◌+◌, ◌-◌, ◌≤◌, ◌≡◌, refl, inl, inr, some, List, arith}
use ailes.Common.Names.{Name, name_cmp, Ordering-cases}
use ailes.Common.Int.{pos_part, neg_part}
use ailes.Usage.Space.{UsedSpace, SpaceDelta, change, u64_max}
use ailes.Usage.Tree.{
  DiskUsage, Entries, nil, entry, space, entries, get_entry, set_entry, update_size_iterator,
  recursive_remove, release,
}
use ailes.Usage.Sorted.{Removes, here, there}
use ailes.Usage.Removal.{RemovesPath, recursive_remove-RemovesPath, last, step}
use ailes.Usage.Accounts.{sum_entries, Covers, AllCover, node_at, update-Covers}

abbrev pub logical : UsedSpace → ℕ
logical s = s.logical

abbrev pub physical : UsedSpace → ℕ
physical s = s.physical

logical-change :
    (delta : SpaceDelta) (s : UsedSpace)
    → logical s + pos_part delta.logical ≤ u64_max
    → logical (change delta s) ≡ logical s + pos_part delta.logical - neg_part delta.logical
unfolding change
logical-change delta s h = ground arith

physical-change :
    (delta : SpaceDelta) (s : UsedSpace)
    → physical s + pos_part delta.physical ≤ u64_max
    → physical (change delta s) ≡ physical s + pos_part delta.physical - neg_part delta.physical
unfolding change
physical-change delta s h = ground arith

-- The precondition of an update in one counter: the root's size does not pass the largest `u64`, and
-- the updated directory's own files use at least what is taken away.
abbrev pub CanChange : (UsedSpace → ℕ) → ℕ → ℕ → List Name → DiskUsage → Type 0
CanChange amount gain loss p u =
    (amount (space u) + gain ≤ u64_max)
    × (loss + sum_entries amount (entries (node_at p u)) ≤ amount (space (node_at p u)))

-- An update that can be made in both counters keeps, in both, every directory's size at least the
-- sum of its subdirectories' sizes.
pub update_size_iterator-Covers :
    (p : List Name) (delta : SpaceDelta) (u : DiskUsage)
    → Covers logical u
    → Covers physical u
    → CanChange logical (pos_part delta.logical) (neg_part delta.logical) p u
    → CanChange physical (pos_part delta.physical) (neg_part delta.physical) p u
    → Covers logical (update_size_iterator p delta u)
      × Covers physical (update_size_iterator p delta u)
update_size_iterator-Covers p delta u cl cp (fl, ol) (fp, op) = (
  update-Covers logical refl delta (pos_part delta.logical) (neg_part delta.logical)
      (logical-change delta) p u cl fl ol,
  update-Covers physical refl delta (pos_part delta.physical) (neg_part delta.physical)
      (physical-change delta) p u cp fp op,
)

module _ (amount : UsedSpace → ℕ) where
  Removes-sum :
      {k : Name} {es rest : Entries} {d : DiskUsage}
      → Removes k es d rest
      → AllCover amount es
      → (sum_entries amount rest + amount (space d) ≡ sum_entries amount es)
        × AllCover amount rest
        × Covers amount d
  unfolding sum_entries
  Removes-sum (here e) a = (omega arith, a.1, a.0)
  Removes-sum (there l r) a =
      let (total, left, gone) = Removes-sum r a.1 in (omega arith, (a.0, left), gone)

  get_entry-Covers_found :
      (k : Name) (es : Entries) (c : DiskUsage)
      → get_entry k es ≡ some c
      → AllCover amount es
      → Covers amount c
  unfolding get_entry
  get_entry-Covers_found k nil c e a = cc
  get_entry-Covers_found k (entry n d es) c e a = elim (Ordering-cases (name_cmp n k)) [
    | inl l ↦ get_entry-Covers_found k es c (rw (l, get_entry) at e) a.1
    | inr (inl q) ↦ let same : d ≡ c = cc (rw (q, get_entry) at e) in rw (← same) a.0
    | inr (inr g) ↦ absurd (cc (rw (g, get_entry) at e))
  ]

  set_entry-sum :
      (k : Name) (c c' : DiskUsage) (es : Entries)
      → get_entry k es ≡ some c
      → AllCover amount es
      → Covers amount c'
      → (sum_entries amount (set_entry k c' es) + amount (space c)
          ≡ sum_entries amount es + amount (space c'))
        × AllCover amount (set_entry k c' es)
        × Covers amount c
        × (amount (space c) ≤ sum_entries amount es)
  unfolding sum_entries get_entry set_entry
  set_entry-sum k c c' nil e a h = cc
  set_entry-sum k c c' (entry n d es) e a h = elim (Ordering-cases (name_cmp n k)) [
    | inl l ↦
        let (total, all, was, le) = set_entry-sum k c c' es (rw (l, get_entry) at e) a.1 h in
        rw (l, set_entry) (omega arith, (a.0, all), was, omega arith)
    | inr (inl q) ↦
        let same : d ≡ c = cc (rw (q, get_entry) at e) in
        rw (q, set_entry) (rw same (omega arith), (h, a.1), rw (← same) a.0, rw same (omega arith))
    | inr (inr g) ↦ absurd (cc (rw (g, get_entry) at e))
  ]

  module _ (shrinks : (d s : UsedSpace) → amount (release d s) ≡ amount s - amount d) where
    RemovesPath-Covers :
        {p : List Name} {u d u' : DiskUsage}
        → RemovesPath p u d u'
        → Covers amount u
        → Covers amount u'
          × Covers amount d
          × (amount (space d) ≤ amount (space u))
          × (amount (space u') ≡ amount (space u) - amount (space d))
    RemovesPath-Covers (last {s = s} {d = d} r e) c =
        let (total, left, gone) = Removes-sum r c.1 in
        let own = shrinks (space d) s in rw e ((omega arith, left), gone, omega arith, own)
    RemovesPath-Covers (step {k = k} {s = s} {es = es} {c = c} {c' = c'} {d = d} g r e f) h =
        let child : Covers amount c = get_entry-Covers_found k es c g h.1 in
        let (kept, gone, le, size) = RemovesPath-Covers r child in
        let (total, all, was, below) = set_entry-sum k c c' es g h.1 kept in
        let own = shrinks (space d) s in rw (e, f) ((omega arith, all), gone, omega arith, own)

-- A removal keeps every directory's size at least the sum of its subdirectories' sizes, the removed
-- tree keeps its own sums, and the root's size falls by exactly the removed size, in both counters.
pub recursive_remove-Covers :
    (p : List Name) (u d u' : DiskUsage)
    → recursive_remove p u ≡ some (d, u')
    → Covers logical u
    → Covers physical u
    → (Covers logical u' × Covers physical u' × Covers logical d × Covers physical d)
      × (logical (space u') + logical (space d) ≡ logical (space u))
      × (physical (space u') + physical (space d) ≡ physical (space u))
recursive_remove-Covers p u d u' e cl cp =
    let r = recursive_remove-RemovesPath p u d u' e in
    let (l1, l2, l3, l4) = RemovesPath-Covers logical (λ d s. refl) r cl in
    let (p1, p2, p3, p4) = RemovesPath-Covers physical (λ d s. refl) r cp in
    ((l1, p1, l2, p2), omega arith, omega arith)
