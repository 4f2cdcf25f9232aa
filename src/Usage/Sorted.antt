-- ===== src/Usage/Sorted.antt =====
-- application/src/server/filesystem/usage.rs: every vector of entries stays strictly sorted by name,
-- which is what `binary_search_by` relies on.
use ailes.Common.{◌≡◌, ◌≢◌, refl, inl, inr, none, some, arith, Option-cases}
use ailes.Common.Names.{
  Name, name_cmp, name_cmp-eq, name_cmp_trans, name_cmp-gt_of_lt, name_cmp-lt_of_gt, Ordering-cases,
}
use ailes.Usage.Tree.{
  DiskUsage, node, Entries, nil, entry, empty, upsert_entry, get_entry, remove_entry,
}
use Prim.Native.Nat.{lt, eq}

-- The first entry stands behind `n`.
abbrev pub Above : Name → Entries → Type 0
Above n nil = Unit {0}
Above n (entry m d es) = name_cmp n m ≡ lt

abbrev mutual
  pub IsSorted : DiskUsage → Type 0
  IsSorted (node s es) = AreSorted es

  pub AreSorted : Entries → Type 0
  AreSorted nil = Unit {0}
  AreSorted (entry n d es) = Above n es × IsSorted d × AreSorted es

Above-upsert_entry :
    (n key : Name) (f : DiskUsage → DiskUsage) (es : Entries)
    → name_cmp n key ≡ lt
    → Above n es
    → Above n (upsert_entry key f es)
unfolding upsert_entry
Above-upsert_entry n key f nil h a = h
Above-upsert_entry n key f (entry m d es) h a = elim (Ordering-cases (name_cmp m key)) [
  | inl l ↦ rw (l, upsert_entry) a
  | inr (inl e) ↦ rw (e, upsert_entry) a
  | inr (inr g) ↦ rw (g, upsert_entry) h
]

pub AreSorted-upsert_entry :
    (key : Name) (f : DiskUsage → DiskUsage) (es : Entries)
    → ((d : DiskUsage) → IsSorted d → IsSorted (f d))
    → AreSorted es
    → AreSorted (upsert_entry key f es)
unfolding upsert_entry
AreSorted-upsert_entry key f nil keep s = (tt, keep empty tt, tt)
AreSorted-upsert_entry key f (entry m d es) keep (a, sd, ses) =
    elim (Ordering-cases (name_cmp m key)) [
      | inl l ↦
          rw (l, upsert_entry)
            (Above-upsert_entry m key f es l a, sd, AreSorted-upsert_entry key f es keep ses)
      | inr (inl e) ↦ rw (e, upsert_entry) (a, keep d sd, ses)
      | inr (inr g) ↦ rw (g, upsert_entry) (name_cmp-lt_of_gt m key g, keep empty tt, (a, sd, ses))
    ]

-- A name below every entry has none.
pub get_entry_below : (n : Name) (es : Entries) → Above n es → get_entry n es ≡ none
unfolding get_entry
get_entry_below n nil a = refl
get_entry_below n (entry m d es) a = ground (arith, name_cmp-gt_of_lt n m)

Above-trans : (n m : Name) (es : Entries) → name_cmp n m ≡ lt → Above m es → Above n es
Above-trans n m nil h a = tt
Above-trans n m (entry k d es) h a = name_cmp_trans n m k h a

-- The removal of an entry, as a relation.
pub data Removes (key : Name) : Entries → DiskUsage → Entries → Type 0 where
  here :
      {n : Name} {d : DiskUsage} {es : Entries}
      → name_cmp n key ≡ eq
      → Removes key (entry n d es) d es
  there :
      {n : Name} {c d : DiskUsage} {es rest : Entries}
      → name_cmp n key ≡ lt
      → Removes key es d rest
      → Removes key (entry n c es) d (entry n c rest)

pub remove_entry-Removes :
    (key : Name) (es : Entries) (d : DiskUsage) (rest : Entries)
    → remove_entry key es ≡ some (d, rest)
    → Removes key es d rest
unfolding remove_entry
remove_entry-Removes key nil d rest e = cc
remove_entry-Removes key (entry m c es) d rest e = elim (Ordering-cases (name_cmp m key)) [
  | inr (inr g) ↦ absurd (ground arith)
  | inr (inl q) ↦
      let both : (c ≡ d) × (es ≡ rest) = ground arith in rw (← both.0, ← both.1) (here q)
  | inl l ↦ elim (Option-cases (remove_entry key es)) [
    | inl missing ↦ absurd (ground arith)
    | inr ((d', rest'), found) ↦
        let both : (d' ≡ d) × (entry m c rest' ≡ rest) = ground arith in
        rw (← both.0, ← both.1) (there l (remove_entry-Removes key es d' rest' found))
  ]
]

Removes-Above :
    {key : Name} {es rest : Entries} {d : DiskUsage} (n : Name)
    → Removes key es d rest
    → AreSorted es
    → Above n es
    → Above n rest
Removes-Above n (here {n = m} {es = es} e) s a = Above-trans n m es a s.0
Removes-Above n (there l r) s a = a

pub Removes-AreSorted :
    {key : Name} {es rest : Entries} {d : DiskUsage}
    → Removes key es d rest
    → AreSorted es
    → AreSorted rest × IsSorted d
Removes-AreSorted (here e) s = (s.2, s.1)
Removes-AreSorted (there {n = n} l r) s =
    let (left, gone) = Removes-AreSorted r s.2 in ((Removes-Above n r s.2 s.0, s.1, left), gone)

-- What is removed was there, and is gone.
pub get_entry_removed :
    {key : Name} {es rest : Entries} {d : DiskUsage}
    → Removes key es d rest
    → AreSorted es
    → (get_entry key es ≡ some d) × (get_entry key rest ≡ none)
unfolding get_entry
get_entry_removed {key} (here {n = n} {es = es} e) s =
    (ground arith, rw (← name_cmp-eq n key e) (get_entry_below n es s.0))
get_entry_removed (there l r) s = ground (arith, get_entry_removed r s.2)

pub get_entry_kept :
    {key : Name} {es rest : Entries} {d : DiskUsage} (j : Name)
    → Removes key es d rest
    → AreSorted es
    → name_cmp key j ≢ eq
    → get_entry j rest ≡ get_entry j es
unfolding get_entry
get_entry_kept {key} j (here {n = n} {es = es} e) s h = elim (Ordering-cases (name_cmp n j)) [
  | inl l ↦ ground arith
  | inr (inl q) ↦ absurd (ground (arith, name_cmp-eq n key e))
  | inr (inr g) ↦
      ground (arith, get_entry_below j es (Above-trans j n es (name_cmp-lt_of_gt n j g) s.0))
]
get_entry_kept j (there l r) s h = ground (arith, get_entry_kept j r s.2 h)
