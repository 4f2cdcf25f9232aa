-- ===== src/Usage/Tree.antt =====
-- application/src/server/filesystem/usage.rs: `DiskUsage` and its operations. A vector of named
-- nodes is a list of its own type; an operation on `&mut self` returns the new tree.
use ailes.Common.{Bool, true, false, Option, none, some, List, [], ◌∷◌, if◌then◌else◌, map}
use ailes.Common.Names.{Name, name_cmp}
use ailes.Usage.Space.{
  UsedSpace, no_space, SpaceDelta, change, apply_delta, sub_logical, sub_physical,
}
use Prim.Native.Nat.{lt, eq, gt}
use mathlib.Core.Option

mutual
  pub data DiskUsage : Type 0 where
    node : UsedSpace → Entries → DiskUsage

  pub data Entries : Type 0 where
    nil : Entries
    entry : Name → DiskUsage → Entries → Entries

abbrev pub space : DiskUsage → UsedSpace
space (node s es) = s

abbrev pub entries : DiskUsage → Entries
entries (node s es) = es

-- `DiskUsage::default()`
abbrev pub empty : DiskUsage
empty = node no_space nil

-- `binary_search_by` on the sorted vector: the place of a key is the first entry that is not below
-- it, and the key is found if that entry has it. Here it is met by a scan, the write included.
-- `upsert_entry`, with what the caller then does through the `&mut` that it answers.
unfoldable pub upsert_entry : Name → (DiskUsage → DiskUsage) → Entries → Entries
upsert_entry key f nil = entry key (f empty) nil
upsert_entry key f (entry n d es) =
    let below = entry n d (upsert_entry key f es) in
    elim (name_cmp n key) [
      | lt ↦ below
      | eq ↦ entry n (f d) es
      | gt ↦ entry key (f empty) (entry n d es)
    ]

-- The entry of a key, as a read.
unfoldable pub get_entry : Name → Entries → Option DiskUsage
get_entry key nil = none
get_entry key (entry n d es) =
    let later = get_entry key es in elim (name_cmp n key) [ lt ↦ later | eq ↦ some d | gt ↦ none ]

-- `get_mut_entry`, with what is written through the `&mut`; a missing key changes nothing.
unfoldable pub set_entry : Name → DiskUsage → Entries → Entries
set_entry key d' nil = nil
set_entry key d' (entry n d es) =
    let below = entry n d (set_entry key d' es) in
    elim (name_cmp n key) [ lt ↦ below | eq ↦ entry n d' es | gt ↦ entry n d es ]

-- `remove_entry`, with the vector that is left.
unfoldable pub remove_entry : Name → Entries → Option (DiskUsage × Entries)
remove_entry key nil = none
remove_entry key (entry n d es) =
    let later =
      Option.map (λ (r : DiskUsage × Entries). (r.0, entry n d r.1)) (remove_entry key es) in
    elim (name_cmp n key) [ lt ↦ later | eq ↦ some (d, es) | gt ↦ none ]

-- A component of a path by `as_os_str`; `normal none` is a name that is not UTF-8.
pub data Component : Type 0 where
  root_dir cur_dir parent_dir : Component
  normal : Option Name → Component

-- `as_os_str().to_str()`
abbrev pub to_str : Component → Option Name
to_str root_dir = some (47 ∷ [])
to_str cur_dir = some (46 ∷ [])
to_str parent_dir = some (46 ∷ 46 ∷ [])
to_str (normal name) = name

-- `to_str().unwrap_or_default()`
abbrev pub to_str_or_default : Component → Name
to_str_or_default c = Option.get_or (to_str c) []

-- `path == Path::new("") || path == Path::new("/")`
abbrev pub is_root : List Component → Bool
is_root [] = true
is_root (root_dir ∷ []) = true
is_root _ = false

-- `get_path_components`
unfoldable pub get_path_components : List Name → DiskUsage → Option DiskUsage
get_path_components [] u = some u
get_path_components (key ∷ keys) (node s es) = elim (get_entry key es) [
  | none ↦ none
  | some child ↦ get_path_components keys child
]

-- The loop of `get_path` and `get_size` over a path's components.
unfoldable pub walk : List Component → DiskUsage → Option DiskUsage
walk [] u = some u
walk (c ∷ cs) (node s es) = elim (to_str c) [
  | none ↦ none
  | some key ↦ elim (get_entry key es) [ none ↦ none | some child ↦ walk cs child ]
]

unfoldable pub get_path : List Component → DiskUsage → Option DiskUsage
unfolding walk
get_path path u = if is_root path then some u else walk path u

unfoldable pub get_size : List Component → DiskUsage → Option UsedSpace
unfolding walk
get_size path u = if is_root path then some (space u) else Option.map (λ d. space d) (walk path u)

-- `update_size_iterator`
unfoldable pub update_size_iterator : List Name → SpaceDelta → DiskUsage → DiskUsage
update_size_iterator [] delta (node s es) = node (change delta s) es
update_size_iterator (key ∷ keys) delta (node s es) =
    node (change delta s) (upsert_entry key (update_size_iterator keys delta) es)

unfoldable pub update_size : List Component → SpaceDelta → DiskUsage → DiskUsage
update_size path delta u =
    update_size_iterator (if is_root path then [] else map to_str_or_default path) delta u

-- The sizes of a removed directory leave a node above it.
abbrev pub release : UsedSpace → UsedSpace → UsedSpace
release removed s = sub_physical removed.physical (sub_logical removed.logical s)

-- What was removed, and the tree that is left.
unfoldable pub recursive_remove : List Name → DiskUsage → Option (DiskUsage × DiskUsage)
recursive_remove [] u = none
recursive_remove (key ∷ []) (node s es) = elim (remove_entry key es) [
  | none ↦ none
  | some (removed, rest) ↦ some (removed, node (release (space removed) s) rest)
]
recursive_remove (key ∷ next ∷ keys) (node s es) = elim (get_entry key es) [
  | none ↦ none
  | some child ↦ elim (recursive_remove (next ∷ keys) child) [
    | none ↦ none
    | some (removed, child') ↦
        some (removed, node (release (space removed) s) (set_entry key child' es))
  ]
]

unfoldable pub remove_path : List Component → DiskUsage → Option (DiskUsage × DiskUsage)
remove_path path u = if is_root path then none else recursive_remove (map to_str_or_default path) u

unfoldable pub truncate : DiskUsage → DiskUsage
truncate u = node no_space nil

-- The loop of `add_directory` over the parents, and the leaf.
unfoldable pub add_below : UsedSpace → UsedSpace → List Name → DiskUsage → DiskUsage → DiskUsage
add_below new old [] source u = u
add_below new old (leaf ∷ []) source (node s es) =
    node (apply_delta new old s) (upsert_entry leaf (λ _. source) es)
add_below new old (key ∷ next ∷ keys) source (node s es) =
    node (apply_delta new old s) (upsert_entry key (add_below new old (next ∷ keys) source) es)

-- The tree, and whether a directory was added.
unfoldable pub add_directory : List Name → DiskUsage → DiskUsage → DiskUsage × Bool
unfolding add_below
add_directory [] source u = (u, false)
add_directory (key ∷ keys) source u =
    let old =
      Option.get_or (Option.map (λ d. space d) (get_path_components (key ∷ keys) u)) no_space in
    (add_below (space source) old (key ∷ keys) source u, true)
