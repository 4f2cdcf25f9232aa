-- ===== src/Usage/Paths.antt =====
-- application/src/server/filesystem/usage.rs: the operations that take a `Path`, in terms of the
-- names of its components.
use ailes.Common.{
  ◌≡◌, ◌≢◌, ◌↔◌, ◌∙◌, refl, ap, inl, inr, true, false, none, some, List, [], ◌∷◌, arith,
  Option-cases, Bool-cases, map, All,
}
use ailes.Common.Names.{Name, name_cmp, Ordering-cases}
use ailes.Usage.Space.{no_space, SpaceDelta, change}
use ailes.Usage.Tree.{
  DiskUsage, node, Entries, nil, entry, space, get_entry, remove_entry, Component, to_str,
  to_str_or_default, is_root, get_path_components, walk, get_size, update_size,
  update_size_iterator, recursive_remove, remove_path, set_entry, release,
}
use ailes.Usage.Sorted.{IsSorted}
use ailes.Usage.Removal.{
  recursive_remove-RemovesPath, RemovesPath-found, RemovesPath-size_at, RemovesPath-IsSorted,
  size_after_removal,
}
use ailes.Usage.Update.{size_at, is_above, same_name_self, size_at-update_size_iterator}
use mathlib.Core.Option

-- Every component of the path is UTF-8.
abbrev pub IsUtf8 : List Component → Type 0
IsUtf8 = All (λ c. to_str c ≢ none)

abbrev pub names : List Component → List Name
names = map to_str_or_default

walk-get_path_components :
    (path : List Component) (u : DiskUsage)
    → IsUtf8 path
    → walk path u ≡ get_path_components (names path) u
unfolding walk get_path_components
walk-get_path_components [] u h = refl
walk-get_path_components (c ∷ cs) (node s es) h = elim (Option-cases (to_str c)) [
  | inl e ↦ absurd (h.0 e)
  | inr (k, e) ↦ elim (Option-cases (get_entry k es)) [
    | inl missing ↦ ground arith
    | inr (child, found) ↦ ground (arith, walk-get_path_components cs child h.1)
  ]
]

is_above_self : (p : List Name) → is_above p p ≡ true
unfolding is_above
is_above_self [] = refl
is_above_self (k ∷ p) = rw (same_name_self k) (is_above_self p)

-- Where a key is, a removal finds it.
remove_entry_complete :
    (key : Name) (es : Entries) (d : DiskUsage)
    → get_entry key es ≡ some d
    → (rest : Entries) × (remove_entry key es ≡ some (d, rest))
unfolding get_entry remove_entry
remove_entry_complete key nil d e = absurd (cc)
remove_entry_complete key (entry n c es) d e = elim (Ordering-cases (name_cmp n key)) [
  | inl l ↦
      let (rest, found) = remove_entry_complete key es d (rw (l, get_entry) at e) in
      (entry n c rest, ground arith)
  | inr (inl q) ↦ (es, ground arith)
  | inr (inr g) ↦ absurd (ground arith)
]

pub recursive_remove_complete :
    (p : List Name) (k : Name) (u d : DiskUsage)
    → get_path_components (k ∷ p) u ≡ some d
    → (u' : DiskUsage) × (recursive_remove (k ∷ p) u ≡ some (d, u'))
unfolding recursive_remove get_path_components
recursive_remove_complete [] k (node s es) d e =
    let there : get_entry k es ≡ some d = ground arith in
    let (rest, found) = remove_entry_complete k es d there in
    (node (release (space d) s) rest, ground arith)
recursive_remove_complete (k' ∷ p) k (node s es) d e = elim (Option-cases (get_entry k es)) [
  | inl missing ↦ absurd (ground arith)
  | inr (c, found) ↦
      let (c', below) = recursive_remove_complete p k' c d (rw (found, get_path_components) at e) in
      (node (release (space d) s) (set_entry k c' es), ground arith)
]

-- `get_size` on a path that is not the root answers the size that the tree holds for its names.
get_size-size_at :
    (path : List Component) (u : DiskUsage)
    → IsUtf8 path
    → is_root path ≡ false
    → get_size path u ≡ size_at (names path) u
unfolding get_size size_at
get_size-size_at path u h r =
    rw r (ap (Option.map (λ d. space d)) (walk-get_path_components path u h))

get_size_root :
    (path : List Component) (u : DiskUsage) → is_root path ≡ true → get_size path u ≡ some (space u)
unfolding get_size
get_size_root path u r = ground arith

space-update_root :
    (delta : SpaceDelta) (u : DiskUsage)
    → space (update_size_iterator [] delta u) ≡ change delta (space u)
unfolding update_size_iterator
space-update_root delta (node s es) = refl

non_root_names :
    (path : List Component)
    → is_root path ≡ false
    → (k : Name) × (p : List Name) × (names path ≡ k ∷ p)
non_root_names [] h = absurd (cc)
non_root_names (c ∷ cs) h = (to_str_or_default c, names cs, refl)

-- After `update_size`, `get_size` on the same path answers the old size changed by the delta, where
-- a missing node counts as size 0, the root path included.
pub get_size-update_size :
    (path : List Component) (delta : SpaceDelta) (u : DiskUsage)
    → IsUtf8 path
    → get_size path (update_size path delta u)
      ≡ some (change delta (Option.get_or (get_size path u) no_space))
unfolding update_size
get_size-update_size path delta u h = elim (Bool-cases (is_root path)) [
  | inl root ↦
      rw (root, update_size)
        (get_size_root path _ root
          ∙ rw (get_size_root path u root) (ap some (space-update_root delta u)))
  | inr below ↦
      rw (below, get_size-size_at path u h below)
        (get_size-size_at path _ h below
          ∙ size_at-update_size_iterator (names path) (names path) delta u
          ∙ rw (is_above_self (names path)) refl)
]

-- `remove_path` answers a tree exactly when the path is not the root and its names have a node. It
-- answers that node.
pub remove_path_iff :
    (path : List Component) (u d : DiskUsage)
    → IsSorted u
    → ((u' : DiskUsage) × (remove_path path u ≡ some (d, u')))
      ↔ ((is_root path ≡ false) × (get_path_components (names path) u ≡ some d))
unfolding remove_path
remove_path_iff path u d h = elim (Bool-cases (is_root path)) [
  | inl root ↦
      rw (root, remove_path)
        ((λ r. absurd (ground (arith, r.1))), (λ r. absurd (ground (arith, r.0))))
  | inr below ↦
      let same : remove_path path u ≡ recursive_remove (names path) u = ground arith in
      let (k, p, e) = non_root_names path below in
      rw same (
        (λ r. (
          below,
          (RemovesPath-found (recursive_remove-RemovesPath (names path) u d r.0 r.1) h).0,
        )),
        (λ r. rw e (recursive_remove_complete p k u d (rw e at r.1))),
      )
]

-- After `remove_path` on a sorted tree the tree is sorted, the path has no node, no directory at or
-- below it has a size, each directory above it loses exactly the removed size, and no other size
-- changes.
pub remove_path_sizes :
    (path : List Component) (q : List Name) (u d u' : DiskUsage)
    → IsSorted u
    → remove_path path u ≡ some (d, u')
    → IsSorted u'
      × (get_path_components (names path) u' ≡ none)
      × (size_at q u' ≡ size_after_removal (names path) q (space d) (size_at q u))
unfolding remove_path
remove_path_sizes path q u d u' h e =
    let r = recursive_remove-RemovesPath (names path) u d u' (ground arith) in
    ((RemovesPath-IsSorted r h).0, (RemovesPath-found r h).1, RemovesPath-size_at q r h)
