-- ===== src/Usage/Update.antt =====
-- application/src/server/filesystem/usage.rs: what `update_size` does to every size in the tree.
use ailes.Common.{
  ◌≡◌, ◌≢◌, ◌⊎◌, ◌∙◌, refl, inl, inr, Bool, true, false, ◌&&◌, Option, none, some, List, [], ◌∷◌,
  if◌then◌else◌, arith, Option-cases,
}
use ailes.Common.Names.{Name, name_cmp, name_cmp-eq, name_cmp_self, name_cmp-flip, flip}
use ailes.Usage.Space.{UsedSpace, no_space, SpaceDelta, change}
use ailes.Usage.Tree.{
  DiskUsage, node, Entries, empty, space, get_entry, get_path_components, update_size_iterator,
}
use ailes.Usage.Lookup.{get_entry-upsert_entry_self, get_entry-upsert_entry_ne}
use Prim.Native.Nat.{eq}
use mathlib.Core.Option

-- The size that the tree holds for a directory, if it has a node.
unfoldable pub size_at : List Name → DiskUsage → Option UsedSpace
size_at q u = Option.map (λ d. space d) (get_path_components q u)

abbrev pub same_name : Name → Name → Bool
same_name a b = elim (name_cmp a b) [ eq ↦ true | _ ↦ false ]

-- `q` is the directory `p` or one above it.
unfoldable pub is_above : List Name → List Name → Bool
is_above [] p = true
is_above (k ∷ q) [] = false
is_above (k ∷ q) (j ∷ p) = same_name j k && is_above q p

pub size_at-cons :
    (k : Name) (q : List Name) (s : UsedSpace) (es : Entries) (child : DiskUsage)
    → get_entry k es ≡ some child
    → size_at (k ∷ q) (node s es) ≡ size_at q child
unfolding size_at get_path_components
size_at-cons k q s es child e = ground arith

pub size_at-cons_none :
    (k : Name) (q : List Name) (s : UsedSpace) (es : Entries)
    → get_entry k es ≡ none
    → size_at (k ∷ q) (node s es) ≡ none
unfolding size_at get_path_components
size_at-cons_none k q s es e = ground arith

pub size_at-cons_eq :
    (k : Name) (q : List Name) (s t : UsedSpace) (es fs : Entries)
    → get_entry k es ≡ get_entry k fs
    → size_at (k ∷ q) (node s es) ≡ size_at (k ∷ q) (node t fs)
unfolding size_at get_path_components
size_at-cons_eq k q s t es fs e = ground arith

-- A node that is not there and an empty one have the same sizes, but for the node's own.
abbrev updated : Bool → SpaceDelta → Option UsedSpace → Option UsedSpace
updated above delta size = if above then some (change delta (Option.get_or size no_space)) else size

updated_missing :
    (q p : List Name) (delta : SpaceDelta)
    → updated (is_above q p) delta (size_at q empty) ≡ updated (is_above q p) delta none
unfolding is_above size_at get_path_components get_entry
updated_missing [] p delta = refl
updated_missing (k ∷ q) p delta = refl

pub same_name-cases :
    (a b : Name) → (a ≡ b) × (same_name a b ≡ true) ⊎ (name_cmp a b ≢ eq) × (same_name a b ≡ false)
same_name-cases a b = ground (arith, name_cmp-eq a b)

pub same_name_self : (a : Name) → same_name a a ≡ true
same_name_self a = ground (arith, name_cmp_self a)

pub same_name_comm : (a b : Name) → same_name a b ≡ same_name b a
unfolding flip
same_name_comm a b = ground (arith, name_cmp-flip a b)

-- An update by `delta` changes the size of the updated directory and of each directory above it by
-- `delta`, creating what has no node from a size of 0, and changes no other directory's size.
pub size_at-update_size_iterator :
    (q p : List Name) (delta : SpaceDelta) (u : DiskUsage)
    → size_at q (update_size_iterator p delta u) ≡ (
        if is_above q p
        then some (change delta (Option.get_or (size_at q u) no_space))
        else size_at q u)
unfolding update_size_iterator is_above
size_at-update_size_iterator [] [] delta (node s es) = unfold size_at get_path_components in refl
size_at-update_size_iterator [] (j ∷ p) delta (node s es) =
    unfold size_at get_path_components in refl
size_at-update_size_iterator (k ∷ q) [] delta (node s es) =
    size_at-cons_eq k q (change delta s) s es es refl
size_at-update_size_iterator (k ∷ q) (j ∷ p) delta (node s es) = elim (same_name-cases j k) [
  | inr (differ, e) ↦ rw e (
      size_at-cons_eq k q (change delta s) s _ es
        (get_entry-upsert_entry_ne j k (update_size_iterator p delta) es differ))
  | inl (same, e) ↦
      rw (e, same)
        (elim (Option-cases (get_entry k es)) [
          | inl missing ↦
              size_at-cons k q (change delta s) _ _
                (get_entry-upsert_entry_self k (update_size_iterator p delta) es)
              ∙ rw (missing, size_at-cons_none k q s es missing)
                  (size_at-update_size_iterator q p delta empty ∙ updated_missing q p delta)
          | inr (child, found) ↦
              size_at-cons k q (change delta s) _ _
                (get_entry-upsert_entry_self k (update_size_iterator p delta) es)
              ∙ rw (found, size_at-cons k q s es child found)
                  (size_at-update_size_iterator q p delta child)
        ])
]
