-- ===== src/Usage/Adding.antt =====
-- application/src/server/filesystem/usage.rs: what `add_directory` does to the tree.
use ailes.Common.{
  ◌≡◌, ◌∙◌, refl, inl, inr, true, Option, none, some, List, [], ◌∷◌, if◌then◌else◌, Option-cases,
  length, drop,
}
use ailes.Common.Names.{Name}
use ailes.Usage.Space.{UsedSpace, no_space, apply_delta}
use ailes.Usage.Tree.{
  DiskUsage, node, Entries, empty, space, upsert_entry, get_entry, get_path_components, add_below,
  add_directory,
}
use ailes.Usage.Lookup.{get_entry-upsert_entry_self, get_entry-upsert_entry_ne}
use ailes.Usage.Update.{
  size_at, size_at-cons, size_at-cons_none, size_at-cons_eq, is_above, same_name-cases,
  same_name_self, same_name_comm,
}
use mathlib.Core.Option

-- The size of `q` once `source` has replaced what stood at `p`, of size `old`.
abbrev pub size_after_adding :
    List Name → List Name → UsedSpace → DiskUsage → Option UsedSpace → Option UsedSpace
size_after_adding p q old source size =
    if is_above p q
    then size_at (drop (length p) q) source
    else if is_above q p
    then some (apply_delta (space source) old (Option.get_or size no_space))
    else size

-- A missing node and an empty one answer alike below the node itself.
size_at-missing :
    (p q : List Name) (k : Name) (old : UsedSpace) (source : DiskUsage)
    → size_after_adding (k ∷ p) q old source (size_at q empty)
      ≡ size_after_adding (k ∷ p) q old source none
unfolding is_above size_at get_path_components get_entry
size_at-missing p [] k old source = refl
size_at-missing p (j ∷ q) k old source = refl

add_below-last :
    (k : Name) (new old : UsedSpace) (source : DiskUsage) (s : UsedSpace) (es : Entries)
    → add_below new old (k ∷ []) source (node s es)
      ≡ node (apply_delta new old s) (upsert_entry k (λ _. source) es)
unfolding add_below
add_below-last k new old source s es = refl

add_below-cons :
    (k k' : Name) (p : List Name) (new old : UsedSpace) (source : DiskUsage) (s : UsedSpace)
    (es : Entries)
    → add_below new old (k ∷ k' ∷ p) source (node s es)
      ≡ node (apply_delta new old s) (upsert_entry k (add_below new old (k' ∷ p) source) es)
unfolding add_below
add_below-cons k k' p new old source s es = refl

size_at-add_below :
    (p : List Name) (k : Name) (q : List Name) (old : UsedSpace) (source u : DiskUsage)
    → size_at q (add_below (space source) old (k ∷ p) source u)
      ≡ size_after_adding (k ∷ p) q old source (size_at q u)
unfolding is_above
size_at-add_below [] k [] old source (node s es) =
    unfold size_at get_path_components add_below in refl
size_at-add_below (k' ∷ p) k [] old source (node s es) =
    unfold size_at get_path_components add_below in refl
size_at-add_below [] k (j ∷ q) old source (node s es) =
    let t = apply_delta (space source) old s in
    let f = λ (_ : DiskUsage). source in
    rw (add_below-last k (space source) old source s es) (elim (same_name-cases k j) [
      | inl (same, y) ↦ rw (← same) (
          size_at-cons k q t _ source (get_entry-upsert_entry_self k f es)
          ∙ rw (same_name_self k) refl)
      | inr (differ, n) ↦
          size_at-cons_eq j q t s _ es (get_entry-upsert_entry_ne k j f es differ)
          ∙ rw (n, same_name_comm j k) (rw n refl)
    ])
size_at-add_below (k' ∷ p) k (j ∷ q) old source (node s es) =
    let t = apply_delta (space source) old s in
    let f = add_below (space source) old (k' ∷ p) source in
    rw (add_below-cons k k' p (space source) old source s es) (elim (same_name-cases k j) [
      | inl (same, y) ↦ rw (← same) (elim (Option-cases (get_entry k es)) [
        | inl missing ↦
            size_at-cons k q t _ _ (get_entry-upsert_entry_self k f es)
            ∙ rw (missing, size_at-cons_none k q s es missing)
                (rw (same_name_self k)
                  (size_at-add_below p k' q old source empty ∙ size_at-missing p q k' old source))
        | inr (child, found) ↦
            size_at-cons k q t _ _ (get_entry-upsert_entry_self k f es)
            ∙ rw (found, size_at-cons k q s es child found)
                (rw (same_name_self k) (size_at-add_below p k' q old source child))
      ])
      | inr (differ, n) ↦
          size_at-cons_eq j q t s _ es (get_entry-upsert_entry_ne k j f es differ)
          ∙ rw (n, same_name_comm j k) (rw n refl)
    ])

get_path_components-add_below :
    (p : List Name) (k : Name) (new old : UsedSpace) (source u : DiskUsage)
    → get_path_components (k ∷ p) (add_below new old (k ∷ p) source u) ≡ some source
unfolding get_path_components
get_path_components-add_below [] k new old source (node s es) =
    rw (add_below-last k new old source s es)
      (rw (get_entry-upsert_entry_self k (λ _. source) es, get_path_components) refl)
get_path_components-add_below (k' ∷ p) k new old source (node s es) =
    rw (add_below-cons k k' p new old source s es) (
      rw (get_entry-upsert_entry_self k (add_below new old (k' ∷ p) source) es, get_path_components)
        (get_path_components-add_below p k' new old source _))

-- `add_directory` answers `true` on every target but the empty one, and then the target's node is
-- the given tree. The target and what is below it have the given tree's sizes, each directory above
-- it gains the new size and loses the old one, and no other size changes.
pub add_directory_sizes :
    (k : Name) (p q : List Name) (source u : DiskUsage)
    → ((add_directory (k ∷ p) source u).1 ≡ true)
      × (get_path_components (k ∷ p) (add_directory (k ∷ p) source u).0 ≡ some source)
      × (size_at q (add_directory (k ∷ p) source u).0
          ≡ size_after_adding
              (k ∷ p)
              q
              (Option.get_or (size_at (k ∷ p) u) no_space)
              source
              (size_at q u))
unfolding add_directory
add_directory_sizes k p q source u =
    let old = Option.get_or (size_at (k ∷ p) u) no_space in
    (
      refl,
      get_path_components-add_below p k (space source) _ source u,
      unfold size_at in size_at-add_below p k q old source u,
    )
