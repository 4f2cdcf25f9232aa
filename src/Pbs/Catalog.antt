-- ===== src/Pbs/Catalog.antt =====
-- pbs-client/src/catalog.rs: the catalogue of an archive, written directory by directory from the
-- leaves up, each as a table of entries that counts back to its subdirectories' tables.
pub mod Writer
pub mod Reader
pub mod Encoded
pub mod Table
pub mod Forest
pub mod Writing
pub mod Visited
pub mod Blocks
pub mod Walking
pub mod RoundTrip
pub mod Limits
mod Runs
use ailes.Common.{ℕ, ◌+◌, ◌-◌, ◌%◌, List, [], ◌∷◌, ◌++◌, length}
use ailes.Common.Int.{ℤ}
use ailes.Common.Machine.{word}
use ailes.Pbs.Varint.{encode_u64, encode_i64}

abbrev pub catalog_magic : List ℕ
catalog_magic = 145 ∷ 253 ∷ 96 ∷ 249 ∷ 196 ∷ 103 ∷ 88 ∷ 213 ∷ []

abbrev pub entry_directory : ℕ
entry_directory = b'd'

abbrev pub entry_file : ℕ
entry_file = b'f'

abbrev pub entry_symlink : ℕ
entry_symlink = b'l'

abbrev pub entry_hardlink : ℕ
entry_hardlink = b'h'

abbrev pub entry_blockdev : ℕ
entry_blockdev = b'b'

abbrev pub entry_chardev : ℕ
entry_chardev = b'c'

abbrev pub entry_fifo : ℕ
entry_fifo = b'p'

abbrev pub entry_socket : ℕ
entry_socket = b's'

pub data Attribute : Type 0 where
  directory : (start : ℕ) → Attribute
  file : (size : ℕ) → (mtime : ℤ) → Attribute
  symlink hardlink block_device char_device fifo socket : Attribute

pub record CatalogEntry : Type 0 where
  pub name : List ℕ
  pub attribute : Attribute

pub record DirectoryInfo : Type 0 where
  pub name : List ℕ
  pub entries : List CatalogEntry

abbrev pub new_directory : List ℕ → DirectoryInfo
new_directory name = record { name = name; entries = [] }

abbrev pub type_byte : Attribute → ℕ
type_byte (directory _) = entry_directory
type_byte (file _ _) = entry_file
type_byte symlink = entry_symlink
type_byte hardlink = entry_hardlink
type_byte block_device = entry_blockdev
type_byte char_device = entry_chardev
type_byte fifo = entry_fifo
type_byte socket = entry_socket

-- The second `match` of `encode_entry`; `start - child_start` wraps in a `u64`.
unfoldable pub encode_attribute : List ℕ → Attribute → ℕ → List ℕ
encode_attribute table (directory child_start) start =
    encode_u64 table ((start + word - child_start) % word)
encode_attribute table (file size mtime) start = encode_i64 (encode_u64 table size) mtime
encode_attribute table _ start = table

unfoldable pub encode_entry : List ℕ → CatalogEntry → ℕ → List ℕ
encode_entry table entry start =
    let named = encode_u64 (table ++ type_byte entry.attribute ∷ []) (length entry.name) in
    encode_attribute (named ++ entry.name) entry.attribute start

-- The loop of `DirectoryInfo::encode`.
unfoldable pub encode_entries : List ℕ → List CatalogEntry → ℕ → List ℕ
encode_entries table [] start = table
encode_entries table (entry ∷ entries) start =
    encode_entries (encode_entry table entry start) entries start

unfoldable pub encode : DirectoryInfo → ℕ → List ℕ
encode dir start =
    let table = encode_entries (encode_u64 [] (length dir.entries)) dir.entries start in
    encode_u64 [] (length table) ++ table
