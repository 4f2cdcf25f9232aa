-- ===== src/Usage/Accounts.antt =====
-- application/src/server/filesystem/usage.rs: a directory's size is at least the sum of the sizes of
-- its subdirectories, as the comment on `DiskUsage` says; the rest is what its own files use.
use ailes.Common.{ℕ, ◌+◌, ◌-◌, ◌≤◌, ◌≡◌, refl, sym, inl, inr, List, [], ◌∷◌, arith, Option-cases}
use ailes.Common.Names.{Name, name_cmp, Ordering-cases}
use ailes.Usage.Space.{UsedSpace, no_space, SpaceDelta, change, u64_max}
use ailes.Usage.Tree.{
  DiskUsage, node, Entries, nil, entry, empty, space, entries, upsert_entry, get_entry,
  get_path_components, update_size_iterator,
}
use mathlib.Core.Option

-- The node of the directory `p`, an empty one where there is none.
abbrev pub node_at : List Name → DiskUsage → DiskUsage
node_at p u = Option.get_or (get_path_components p u) empty

-- Everything here is about one of the two counters, `amount`.
module _ (amount : UsedSpace → ℕ) where
  unfoldable pub sum_entries : Entries → ℕ
  sum_entries nil = 0
  sum_entries (entry n d es) = amount (space d) + sum_entries es

  abbrev mutual
    pub Covers : DiskUsage → Type 0
    Covers (node s es) = (sum_entries es ≤ amount s) × AllCover es

    pub AllCover : Entries → Type 0
    AllCover nil = Unit {0}
    AllCover (entry n d es) = Covers d × AllCover es

abbrev pub entry_or_empty : Name → Entries → DiskUsage
entry_or_empty key es = Option.get_or (get_entry key es) empty

module _ (amount : UsedSpace → ℕ) (zero_amount : amount no_space ≡ 0) where
  pub sum_entries-upsert_entry :
      (key : Name) (f : DiskUsage → DiskUsage) (es : Entries)
      → sum_entries amount (upsert_entry key f es) + amount (space (entry_or_empty key es))
        ≡ sum_entries amount es + amount (space (f (entry_or_empty key es)))
  unfolding sum_entries upsert_entry get_entry
  sum_entries-upsert_entry key f nil = omega (arith, zero_amount)
  sum_entries-upsert_entry key f (entry n d es) = elim (Ordering-cases (name_cmp n key)) [
    | inl l ↦
        rw (l, upsert_entry) (rw (l, get_entry) (omega (arith, sum_entries-upsert_entry key f es)))
    | inr (inl e) ↦ rw (e, upsert_entry) (rw (e, get_entry) (omega arith))
    | inr (inr g) ↦ rw (g, upsert_entry) (rw (g, get_entry) (omega (arith, zero_amount)))
  ]

  pub AllCover-upsert_entry :
      (key : Name) (f : DiskUsage → DiskUsage) (es : Entries)
      → AllCover amount es
      → Covers amount (f (entry_or_empty key es))
      → AllCover amount (upsert_entry key f es)
  unfolding upsert_entry get_entry
  AllCover-upsert_entry key f nil a c = (c, tt)
  AllCover-upsert_entry key f (entry n d es) a c = elim (Ordering-cases (name_cmp n key)) [
    | inl l ↦
        rw (l, upsert_entry) (a.0, AllCover-upsert_entry key f es a.1 (rw (l, get_entry) at c))
    | inr (inl e) ↦ rw (e, upsert_entry) (rw (e, get_entry) at c, a.1)
    | inr (inr g) ↦ rw (g, upsert_entry) (rw (g, get_entry) at c, a)
  ]

  pub get_entry-Covers :
      (key : Name) (es : Entries)
      → AllCover amount es
      → Covers amount (entry_or_empty key es)
        × (amount (space (entry_or_empty key es)) ≤ sum_entries amount es)
  unfolding sum_entries get_entry
  get_entry-Covers key nil a = omega (arith, zero_amount)
  get_entry-Covers key (entry n d es) a = elim (Ordering-cases (name_cmp n key)) [
    | inl l ↦ rw (l, get_entry) (let (c, le) = get_entry-Covers key es a.1 in (c, omega arith))
    | inr (inl e) ↦ rw (e, get_entry) (a.0, omega arith)
    | inr (inr g) ↦ rw (g, get_entry) (omega (arith, zero_amount))
  ]

pub space-update_size_iterator :
    (p : List Name) (delta : SpaceDelta) (u : DiskUsage)
    → space (update_size_iterator p delta u) ≡ change delta (space u)
unfolding update_size_iterator
space-update_size_iterator [] delta (node s es) = refl
space-update_size_iterator (k ∷ p) delta (node s es) = refl

update_size_iterator-cons :
    (k : Name) (p : List Name) (delta : SpaceDelta) (s : UsedSpace) (es : Entries)
    → update_size_iterator (k ∷ p) delta (node s es)
      ≡ node (change delta s) (upsert_entry k (update_size_iterator p delta) es)
unfolding update_size_iterator
update_size_iterator-cons k p delta s es = refl

node_at-empty : (p : List Name) → node_at p empty ≡ empty
unfolding get_path_components get_entry
node_at-empty [] = refl
node_at-empty (k ∷ p) = refl

pub node_at-cons :
    (k : Name) (p : List Name) (s : UsedSpace) (es : Entries)
    → node_at (k ∷ p) (node s es) ≡ node_at p (entry_or_empty k es)
unfolding get_path_components
node_at-cons k p s es = elim (Option-cases (get_entry k es)) [
  | inl missing ↦ rw (missing, get_path_components) (sym (node_at-empty p))
  | inr (c, found) ↦ rw (found, get_path_components) refl
]

module _ (amount : UsedSpace → ℕ) (zero_amount : amount no_space ≡ 0) where
  pub node_at-le :
      (p : List Name) (u : DiskUsage)
      → Covers amount u
      → amount (space (node_at p u)) ≤ amount (space u)
  unfolding get_path_components
  node_at-le [] u c = omega arith
  node_at-le (k ∷ p) (node s es) c =
      let (below, le) = get_entry-Covers amount zero_amount k es c.1 in
      rw (node_at-cons k p s es) (omega (arith, node_at-le p (entry_or_empty k es) below))

  module _ (delta : SpaceDelta) (gain loss : ℕ)
      (acts : (s : UsedSpace)
        → amount s + gain ≤ u64_max
        → amount (change delta s) ≡ amount s + gain - loss) where
    pub update-Covers :
        (p : List Name) (u : DiskUsage)
        → Covers amount u
        → amount (space u) + gain ≤ u64_max
        → loss + sum_entries amount (entries (node_at p u)) ≤ amount (space (node_at p u))
        → Covers amount (update_size_iterator p delta u)
    unfolding get_path_components
    update-Covers [] (node s es) c fits own =
        unfold update_size_iterator in (rw (acts s fits) (omega arith), c.1)
    update-Covers (k ∷ p) (node s es) c fits own =
        let child = entry_or_empty k es in
        let (below, le) = get_entry-Covers amount zero_amount k es c.1 in
        let own' = rw (node_at-cons k p s es) at own in
        let fits' : amount (space child) + gain ≤ u64_max = omega arith in
        let deep = node_at-le p child below in
        let after : amount (space (update_size_iterator p delta child))
            ≡ amount (space child) + gain - loss =
          rw (space-update_size_iterator p delta child) (acts (space child) fits') in
        let total =
          sum_entries-upsert_entry amount zero_amount k (update_size_iterator p delta) es in
        rw (update_size_iterator-cons k p delta s es) (
          rw (acts s fits) (omega (arith, after, total)),
          AllCover-upsert_entry amount zero_amount k (update_size_iterator p delta) es c.1
              (update-Covers p child below fits' own'),
        )
