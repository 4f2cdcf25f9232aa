-- ===== src/Usage/Runs.antt =====
-- Runs of the tree of directory sizes, after the tests of
-- application/src/server/filesystem/usage.rs.
use ailes.Common.{◌≡◌, refl, true, Option, none, some, List, [], ◌∷◌, arith}
use ailes.Common.Names.{Name, name_cmp}
use ailes.Common.Int.{pos, negsuc}
use ailes.Usage.Space.{UsedSpace, no_space, both, change, sum, u64_max}
use ailes.Usage.Tree.{
  DiskUsage, empty, space, Component, normal, get_entry, upsert_entry, remove_entry, set_entry,
  get_path_components, walk, get_size, update_size, update_size_iterator, recursive_remove,
  remove_path, add_directory,
}
use ailes.Usage.Sorted.{IsSorted}
use ailes.Usage.Update.{size_at, is_above, size_at-update_size_iterator}
use ailes.Usage.Removal.{size_after_removal}
use ailes.Usage.Adding.{size_after_adding, add_directory_sizes}
use ailes.Usage.Accounts.{sum_entries, Covers}
use ailes.Usage.Balance.{logical, physical, update_size_iterator-Covers}
use ailes.Usage.Paths.{IsUtf8, remove_path_sizes}
use mathlib.Core.Option

abbrev a : Name
a = 97 ∷ []

abbrev b : Name
b = 98 ∷ []

abbrev c : Name
c = 99 ∷ []

abbrev path_ab : List Component
path_ab = normal (some a) ∷ normal (some b) ∷ []

abbrev path_ac : List Component
path_ac = normal (some a) ∷ normal (some c) ∷ []

abbrev used : DiskUsage → Option UsedSpace
used u = some (space u)

-- a/b with 100 bytes, then a/c with 50.
tree : DiskUsage
unfolding update_size update_size_iterator upsert_entry name_cmp change
tree = update_size path_ac (both (pos 50)) (update_size path_ab (both (pos 100)) empty)

siblings_aggregate :
    (get_size (normal (some a) ∷ []) tree ≡ some (record { logical = 150; physical = 150 }))
    × (get_size path_ab tree ≡ some (record { logical = 100; physical = 100 }))
    × (get_size path_ac tree ≡ some (record { logical = 50; physical = 50 }))
unfolding tree get_size walk get_entry
siblings_aggregate = (refl, refl, refl)

saturates :
    get_size path_ac (update_size path_ac (both (negsuc 999)) tree)
    ≡ some (record { logical = 0; physical = 0 })
unfolding tree get_size walk get_entry
saturates = refl

adds_up :
    sum (record { logical = 1; physical = 2 } ∷ record { logical = u64_max; physical = 4 } ∷ [])
    ≡ record { logical = u64_max; physical = 6 }
unfolding sum
adds_up = refl

size_at-update_size_iterator_example :
    size_at (a ∷ []) (update_size_iterator (a ∷ b ∷ []) (both (pos 5)) tree)
    ≡ some (change (both (pos 5)) (Option.get_or (size_at (a ∷ []) tree) no_space))
unfolding is_above name_cmp
size_at-update_size_iterator_example =
    size_at-update_size_iterator (a ∷ []) (a ∷ b ∷ []) (both (pos 5)) tree

path_ab-IsUtf8 : IsUtf8 path_ab
path_ab-IsUtf8 = ((λ e. cc), ((λ e. cc), tt))

tree-IsSorted : IsSorted tree
unfolding tree
tree-IsSorted = (tt, (refl, tt, (tt, tt, tt)), tt)

-- What `remove_path` leaves of `tree` without a/b.
rest : DiskUsage
unfolding tree remove_path recursive_remove get_entry set_entry
rest = elim (remove_path path_ab tree) [ none ↦ empty | some (d, u') ↦ u' ]

leaf_b : DiskUsage
unfolding tree get_path_components get_entry
leaf_b = elim (get_path_components (a ∷ b ∷ []) tree) [ none ↦ empty | some d ↦ d ]

removes : remove_path path_ab tree ≡ some (leaf_b, rest)
unfolding rest leaf_b remove_entry
removes = refl

rest_sizes :
    (get_size (normal (some a) ∷ []) rest ≡ some (record { logical = 50; physical = 50 }))
    × (get_size path_ab rest ≡ none)
unfolding rest remove_entry get_size walk
rest_sizes = (refl, refl)

remove_path_sizes_example :
    IsSorted rest
    × (get_path_components (a ∷ b ∷ []) rest ≡ none)
    × (size_at (a ∷ []) rest
        ≡ size_after_removal (a ∷ b ∷ []) (a ∷ []) (space leaf_b) (size_at (a ∷ []) tree))
remove_path_sizes_example =
    remove_path_sizes path_ab (a ∷ []) tree leaf_b rest tree-IsSorted removes

tree-Covers : Covers logical tree × Covers physical tree
unfolding tree sum_entries
tree-Covers = omega arith

update_size_iterator-Covers_example :
    Covers logical (update_size_iterator (a ∷ c ∷ []) (both (negsuc 19)) tree)
    × Covers physical (update_size_iterator (a ∷ c ∷ []) (both (negsuc 19)) tree)
unfolding tree get_path_components get_entry sum_entries
update_size_iterator-Covers_example =
    update_size_iterator-Covers (a ∷ c ∷ []) (both (negsuc 19)) tree tree-Covers.0 tree-Covers.1
      (omega arith) (omega arith)

removes_ab : recursive_remove (a ∷ b ∷ []) tree ≡ some (leaf_b, rest)
unfolding rest leaf_b remove_entry
removes_ab = refl

add_directory_sizes_example :
    ((add_directory (a ∷ b ∷ []) tree tree).1 ≡ true)
    × (get_path_components (a ∷ b ∷ []) (add_directory (a ∷ b ∷ []) tree tree).0 ≡ some tree)
    × (size_at (a ∷ []) (add_directory (a ∷ b ∷ []) tree tree).0
        ≡ size_after_adding
            (a ∷ b ∷ [])
            (a ∷ [])
            (Option.get_or (size_at (a ∷ b ∷ []) tree) no_space)
            tree
            (size_at (a ∷ []) tree))
add_directory_sizes_example = add_directory_sizes a (b ∷ []) (a ∷ []) tree tree
