-- ===== src/Pbs/Catalog/Forest.antt =====
-- Directory trees, how a client of pbs-client/src/catalog.rs writes one with `CatalogWriter`, where
-- its tables stand in the catalogue then, and what its catalogue lists.
use ailes.Common.{ℕ, ◌+◌, ◌<◌, List, [], ◌∷◌, ◌++◌, length, max}
use ailes.Common.Int.{ℤ, pos}
use ailes.Common.Machine.{word}
use ailes.Common.Result.{Result, ok, err, ◌>>=◌}
use ailes.Pbs.Varint.Encoding.{IsI64}
use ailes.Pbs.Catalog.{Attribute, CatalogEntry, DirectoryInfo, catalog_magic, encode}
use ailes.Pbs.Catalog.Writer.{
  CatalogWriter, WriteError, After, vec_sink, le_bytes, new, start_directory, end_directory, finish,
  add_file, add_symlink, add_hardlink, add_block_device, add_char_device, add_fifo, add_socket,
}
use ailes.Pbs.Catalog.Reader.{ArchiveEntry, join, directory_at, file_at, symlink_at}

pub data Leaf : Type 0 where
  file : (size : ℕ) → (mtime : ℤ) → Leaf
  symlink hardlink block_device char_device fifo socket : Leaf

-- A directory's entries: each a leaf or a directory, and then the entries behind it.
pub data Forest : Type 0 where
  end : Forest
  leaf : (name : List ℕ) → Leaf → (rest : Forest) → Forest
  dir : (name : List ℕ) → (children rest : Forest) → Forest

-- `Ok` goes on, an error ends the writing.
abbrev pub next : {W : Type 0} → After W → (CatalogWriter W → After W) → After W
next (c, ok _) f = f c
next (c, err e) f = (c, err e)

abbrev pub add_leaf : {W : Type 0} → List ℕ → Leaf → CatalogWriter W → After W
add_leaf name (file size mtime) c = add_file name size mtime c
add_leaf name symlink c = add_symlink name c
add_leaf name hardlink c = add_hardlink name c
add_leaf name block_device c = add_block_device name c
add_leaf name char_device c = add_char_device name c
add_leaf name fifo c = add_fifo name c
add_leaf name socket c = add_socket name c

unfoldable pub write : Forest → CatalogWriter (List ℕ) → After (List ℕ)
write end c = (c, ok tt)
write (leaf name l rest) c = next (add_leaf name l c) (write rest)
write (dir name children rest) c =
    next (write children (start_directory name c))
      (λ c'. next (end_directory vec_sink c') (write rest))

abbrev pub finished : After (List ℕ) → Result (List ℕ) WriteError
finished (c, ok _) = finish vec_sink c
finished (c, err e) = err e

-- The catalogue of a forest, written into an empty `Vec<u8>`.
unfoldable pub write_catalog : Forest → Result (List ℕ) WriteError
write_catalog f = new vec_sink [] >>= λ c. finished (write f c)

abbrev pub attribute_of : Leaf → Attribute
attribute_of (file size mtime) = Attribute.file size mtime
attribute_of symlink = Attribute.symlink
attribute_of hardlink = Attribute.hardlink
attribute_of block_device = Attribute.block_device
attribute_of char_device = Attribute.char_device
attribute_of fifo = Attribute.fifo
attribute_of socket = Attribute.socket

abbrev pub listed : List ℕ → List CatalogEntry → DirectoryInfo
listed name entries = record { name = name; entries = entries }

-- The tables of a forest's directories from position `at` on, and the entries that point to them.
unfoldable mutual
  pub blocks : Forest → ℕ → List ℕ
  blocks end at = []
  blocks (leaf name l rest) at = blocks rest at
  blocks (dir name children rest) at =
      let inner = blocks children at in
      let start = at + length inner in
      let table = encode (listed name (entries children at)) start in
      inner ++ (table ++ blocks rest (start + length table))

  pub entries : Forest → ℕ → List CatalogEntry
  entries end at = []
  entries (leaf name l rest) at =
      record { name = name; attribute = attribute_of l } ∷ entries rest at
  entries (dir name children rest) at =
      let start = at + length (blocks children at) in
      let table = encode (listed name (entries children at)) start in
      record { name = name; attribute = Attribute.directory start }
      ∷ entries rest (start + length table)

-- The whole catalogue: the magic, the tables, the root's table and its position.
unfoldable pub catalog_of : Forest → List ℕ
catalog_of f =
    let start = 8 + length (blocks f 8) in
    catalog_magic ++ (blocks f 8 ++ (encode (listed [] (entries f 8)) start ++ le_bytes 8 start))

abbrev pub leaf_listing : List ℕ → Leaf → List ArchiveEntry
leaf_listing path (file size mtime) = file_at path size mtime ∷ []
leaf_listing path symlink = symlink_at path ∷ []
leaf_listing path hardlink = file_at path 0 (pos 0) ∷ []
leaf_listing path block_device = []
leaf_listing path char_device = []
leaf_listing path fifo = []
leaf_listing path socket = []

-- Every directory before what it holds; devices, pipes and sockets are left out.
unfoldable pub listing : List ℕ → Forest → List ArchiveEntry
listing base end = []
listing base (leaf name l rest) = leaf_listing (join base name) l ++ listing base rest
listing base (dir name children rest) =
    directory_at (join base name) ∷ (listing (join base name) children ++ listing base rest)

abbrev pub root_leaf : List ℕ → Leaf → List ArchiveEntry
root_leaf name (file size mtime) = file_at name size mtime ∷ []
root_leaf name symlink = []
root_leaf name hardlink = []
root_leaf name block_device = []
root_leaf name char_device = []
root_leaf name fifo = []
root_leaf name socket = []

-- At the root, what directories hold, without the directory's name, and the files.
unfoldable pub root_listing : Forest → List ArchiveEntry
root_listing end = []
root_listing (leaf name l rest) = root_leaf name l ++ root_listing rest
root_listing (dir name children rest) = listing [] children ++ root_listing rest

-- The directories inside one another, and the entries.
unfoldable pub depth : Forest → ℕ
depth end = 0
depth (leaf name l rest) = depth rest
depth (dir name children rest) = max (1 + depth children) (depth rest)

unfoldable pub size : Forest → ℕ
size end = 0
size (leaf name l rest) = 1 + size rest
size (dir name children rest) = 1 + size children + size rest

-- Sizes are `u64`s, and times are `i64`s.
abbrev pub LeafFits : Leaf → Type 0
LeafFits (file size mtime) = (size < word) × IsI64 mtime
LeafFits symlink = Unit
LeafFits hardlink = Unit
LeafFits block_device = Unit
LeafFits char_device = Unit
LeafFits fifo = Unit
LeafFits socket = Unit

abbrev pub Fits : Forest → Type 0
Fits end = Unit
Fits (leaf name l rest) = LeafFits l × Fits rest
Fits (dir name children rest) = Fits children × Fits rest
