-- ===== src/Usage/SortedOps.antt =====
-- application/src/server/filesystem/usage.rs: each operation on the tree keeps every vector sorted.
use ailes.Common.{◌≡◌, ◌≢◌, refl, inl, inr, some, List, [], ◌∷◌, arith}
use ailes.Common.Names.{Name, name_cmp, name_cmp-eq, Ordering-cases}
use ailes.Usage.Space.{UsedSpace, SpaceDelta}
use ailes.Usage.Tree.{
  DiskUsage, node, Entries, nil, entry, space, get_entry, set_entry, update_size_iterator,
  update_size, Component, truncate, add_below, add_directory,
}
use ailes.Usage.Sorted.{Above, IsSorted, AreSorted, AreSorted-upsert_entry}
use Prim.Native.Nat.{eq}

-- A write through `get_mut_entry` is read back, and touches no other entry.
pub get_entry-set_entry_self :
    (key : Name) (d : DiskUsage) (es : Entries) (c : DiskUsage)
    → get_entry key es ≡ some c
    → get_entry key (set_entry key d es) ≡ some d
unfolding get_entry set_entry
get_entry-set_entry_self key d nil c h = cc
get_entry-set_entry_self key d (entry n e es) c h =
    ground (arith, get_entry-set_entry_self key d es c)

pub get_entry-set_entry_ne :
    (key j : Name) (d : DiskUsage) (es : Entries)
    → name_cmp key j ≢ eq
    → get_entry j (set_entry key d es) ≡ get_entry j es
unfolding get_entry set_entry
get_entry-set_entry_ne key j d nil h = refl
get_entry-set_entry_ne key j d (entry n e es) h =
    ground (arith, get_entry-set_entry_ne key j d es, name_cmp-eq n key)

Above-set_entry :
    (n key : Name) (d : DiskUsage) (es : Entries) → Above n es → Above n (set_entry key d es)
unfolding set_entry
Above-set_entry n key d nil a = tt
Above-set_entry n key d (entry m c es) a = elim (Ordering-cases (name_cmp m key)) [
  | inl l ↦ rw (l, set_entry) a
  | inr (inl e) ↦ rw (e, set_entry) a
  | inr (inr g) ↦ rw (g, set_entry) a
]

pub AreSorted-set_entry :
    (key : Name) (d : DiskUsage) (es : Entries)
    → IsSorted d
    → AreSorted es
    → AreSorted (set_entry key d es)
unfolding set_entry
AreSorted-set_entry key d nil sd s = tt
AreSorted-set_entry key d (entry m c es) sd (a, sc, ses) = elim (Ordering-cases (name_cmp m key)) [
  | inl l ↦
      rw (l, set_entry) (Above-set_entry m key d es a, sc, AreSorted-set_entry key d es sd ses)
  | inr (inl e) ↦ rw (e, set_entry) (a, sd, ses)
  | inr (inr g) ↦ rw (g, set_entry) (a, sc, ses)
]

pub get_entry-IsSorted :
    (key : Name) (es : Entries) (d : DiskUsage)
    → get_entry key es ≡ some d
    → AreSorted es
    → IsSorted d
unfolding get_entry
get_entry-IsSorted key nil d h s = cc
get_entry-IsSorted key (entry n c es) d h (a, sc, ses) = elim (Ordering-cases (name_cmp n key)) [
  | inl l ↦ get_entry-IsSorted key es d (ground arith) ses
  | inr (inl e) ↦ let same : c ≡ d = ground arith in rw (← same) sc
  | inr (inr g) ↦ absurd (ground arith)
]

pub update_size_iterator-IsSorted :
    (p : List Name) (delta : SpaceDelta) (u : DiskUsage)
    → IsSorted u
    → IsSorted (update_size_iterator p delta u)
unfolding update_size_iterator
update_size_iterator-IsSorted [] delta (node s es) h = h
update_size_iterator-IsSorted (k ∷ p) delta (node s es) h =
    AreSorted-upsert_entry k (update_size_iterator p delta) es
      (λ d. update_size_iterator-IsSorted p delta d) h

pub add_below-IsSorted :
    (new old : UsedSpace) (p : List Name) (source u : DiskUsage)
    → IsSorted source
    → IsSorted u
    → IsSorted (add_below new old p source u)
unfolding add_below
add_below-IsSorted new old [] source u hs h = h
add_below-IsSorted new old (k ∷ []) source (node s es) hs h =
    AreSorted-upsert_entry k (λ _. source) es (λ d _. hs) h
add_below-IsSorted new old (k ∷ k' ∷ p) source (node s es) hs h =
    AreSorted-upsert_entry k (add_below new old (k' ∷ p) source) es
      (λ d. add_below-IsSorted new old (k' ∷ p) source d hs) h

-- Every operation that answers a tree keeps all its vectors strictly sorted, if the tree that is
-- added is sorted too.
pub ops-IsSorted :
    (path : List Component) (delta : SpaceDelta) (target : List Name) (source u : DiskUsage)
    → IsSorted source
    → IsSorted u
    → IsSorted (update_size path delta u)
      × IsSorted (add_directory target source u).0
      × IsSorted (truncate u)
unfolding update_size add_directory truncate
ops-IsSorted path delta [] source u hs h = (update_size_iterator-IsSorted _ delta u h, h, tt)
ops-IsSorted path delta (k ∷ p) source u hs h = (
  update_size_iterator-IsSorted _ delta u h,
  add_below-IsSorted (space source) _ (k ∷ p) source u hs h,
  tt,
)
