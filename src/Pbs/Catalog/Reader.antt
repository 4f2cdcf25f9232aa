-- ===== src/Pbs/Catalog/Reader.antt =====
-- pbs-client/src/catalog.rs: `read_table`, `push_walk` and `parse_catalog`. A path is its bytes, and
-- a `usize` has 64 bits.
use ailes.Common.{
  ℕ, zero, suc, ◌+◌, ◌-◌, ◌*◌, List, [], ◌∷◌, ◌++◌, length, take, drop, Bool, false, Option, none,
  ltb, leb, ◌==◌, if◌then◌else◌, not,
}
use ailes.Common.Int.{ℤ, pos}
use ailes.Common.Result.{Result, ok, err, ◌>>=◌}
use ailes.Common.Text.{any, same_text}
use ailes.Pbs.Varint.{
  DecodeError, Cursor, Reads, byte, take_bytes, read_u64, read_i64, offset_underflow, unknown_type,
  too_deep, revisited, too_many, invalid_magic, missing_trailer,
}
use ailes.Pbs.Catalog.{
  catalog_magic, entry_directory, entry_file, entry_symlink, entry_hardlink, entry_blockdev,
  entry_chardev, entry_fifo, entry_socket,
}

abbrev pub max_catalog_depth : ℕ
max_catalog_depth = 1024

abbrev pub max_catalog_entries : ℕ
max_catalog_entries = 100000000

pub data RawKind : Type 0 where
  directory : (child : ℕ) → RawKind
  file : (size : ℕ) → (mtime : ℤ) → RawKind
  symlink hardlink other : RawKind

pub record RawEntry : Type 0 where
  pub name : List ℕ
  pub kind : RawKind

-- `block_pos.checked_sub(delta)`.
abbrev pub child_at : ℕ → ℕ → Result RawKind DecodeError
child_at block_pos delta =
    if ltb block_pos delta then err offset_underflow else ok (directory (block_pos - delta))

unfoldable pub read_kind : ℕ → ℕ → Cursor → Reads RawKind
read_kind block_pos type_byte c =
    if type_byte == entry_directory
    then (do (delta, c') ← read_u64 c; kind ← child_at block_pos delta; ok (kind, c'))
    else if type_byte == entry_file
    then (do (size, c') ← read_u64 c; (mtime, c'') ← read_i64 c'; ok (file size mtime, c''))
    else if type_byte == entry_symlink
    then ok (symlink, c)
    else if type_byte == entry_hardlink
    then ok (hardlink, c)
    else if any (λ b. type_byte == b)
        (entry_blockdev ∷ entry_chardev ∷ entry_fifo ∷ entry_socket ∷ [])
    then ok (other, c)
    else err unknown_type

unfoldable pub read_entry : ℕ → Cursor → Reads RawEntry
read_entry block_pos c = do
  (type_byte, c1) ← byte c
  (name_len, c2) ← read_u64 c1
  (name, c3) ← take_bytes c2 name_len
  (kind, c4) ← read_kind block_pos type_byte c3
  ok (record { name = name; kind = kind }, c4)

-- The loop over `0..count`.
unfoldable pub read_entries : ℕ → ℕ → Cursor → Result (List RawEntry) DecodeError
read_entries zero block_pos c = ok []
read_entries (suc count) block_pos c = do
  (entry, c') ← read_entry block_pos c
  entries ← read_entries count block_pos c'
  ok (entry ∷ entries)

unfoldable pub read_table : List ℕ → ℕ → Result (List RawEntry) DecodeError
read_table bytes block_pos = do
  (table_len, block) ← read_u64 (record { bytes = bytes; position = block_pos })
  (table, _) ← take_bytes block table_len
  (count, cursor) ← read_u64 (record { bytes = table; position = 0 })
  read_entries count block_pos cursor

pub data ArchiveEntryKind : Type 0 where
  directory file symlink : ArchiveEntryKind

pub record ArchiveEntry : Type 0 where
  pub path : List ℕ
  pub kind : ArchiveEntryKind
  pub size : ℕ
  pub mode : ℕ
  pub mtime : ℤ
  pub symlink : Option (List ℕ)

abbrev pub is_absolute : List ℕ → Bool
is_absolute [] = false
is_absolute (b ∷ _) = b == b'/'

-- A path that is not empty and does not end in a separator.
abbrev pub needs_separator : List ℕ → Bool
needs_separator [] = false
needs_separator (b ∷ []) = not (b == b'/')
needs_separator (_ ∷ b ∷ bs) = needs_separator (b ∷ bs)

-- `Path::join`: an absolute path replaces the base.
unfoldable pub join : List ℕ → List ℕ → List ℕ
join base name =
    if is_absolute name
    then name
    else if needs_separator base
    then base ++ b'/' ∷ name
    else base ++ name

abbrev pub directory_at : List ℕ → ArchiveEntry
directory_at path = record {
  path = path;
  kind = directory;
  size = 0;
  mode = 0o755;
  mtime = pos 0;
  symlink = none;
}

abbrev pub file_at : List ℕ → ℕ → ℤ → ArchiveEntry
file_at path size mtime = record {
  path = path;
  kind = file;
  size = size;
  mode = 0o644;
  mtime = mtime;
  symlink = none;
}

abbrev pub symlink_at : List ℕ → ArchiveEntry
symlink_at path = record {
  path = path;
  kind = symlink;
  size = 0;
  mode = 0o777;
  mtime = pos 0;
  symlink = none;
}

-- `out`, and the blocks of `visited`.
abbrev pub Walk : Type 0
Walk = List ArchiveEntry × List ℕ

abbrev pub Walks : Type 0
Walks = Result Walk DecodeError

-- The `match` of `push_walk`; `descend` is its call for a subdirectory.
unfoldable pub walk_entry : (ℕ → List ℕ → Walk → Walks) → List ℕ → RawKind → Walk → Walks
walk_entry descend path (directory child) (out, visited) =
    descend child path (out ++ directory_at path ∷ [], visited)
walk_entry descend path (file size mtime) (out, visited) =
    ok (out ++ file_at path size mtime ∷ [], visited)
walk_entry descend path hardlink (out, visited) = ok (out ++ file_at path 0 (pos 0) ∷ [], visited)
walk_entry descend path symlink (out, visited) = ok (out ++ symlink_at path ∷ [], visited)
walk_entry descend path other (out, visited) = ok (out, visited)

unfoldable pub walk_entries : (ℕ → List ℕ → Walk → Walks) → List RawEntry → List ℕ → Walk → Walks
walk_entries descend [] base walk = ok walk
walk_entries descend (entry ∷ entries) base walk =
    if leb max_catalog_entries (length walk.0) then err too_many else (do
      walk' ← walk_entry descend (join base entry.name) entry.kind walk
      walk_entries descend entries base walk')

-- At depth `d`, `left` is the number of depths from `d` to the last one allowed.
unfoldable pub push_walk : (left : ℕ) → List ℕ → ℕ → List ℕ → Walk → Walks
push_walk zero bytes block_pos base walk = err too_deep
push_walk (suc left) bytes block_pos base (out, visited) =
    if any (λ block. block == block_pos) visited then err revisited else (do
      entries ← read_table bytes block_pos
      walk_entries (push_walk left bytes) entries base (out, block_pos ∷ visited))

-- The `match` of `parse_catalog`'s loop.
unfoldable pub root_entry : List ℕ → RawEntry → RawKind → Walk → Walks
root_entry bytes entry (directory child) walk =
    push_walk (max_catalog_depth + 1) bytes child [] walk
root_entry bytes entry (file size mtime) (out, visited) =
    if leb max_catalog_entries (length out)
    then err too_many
    else ok (out ++ file_at entry.name size mtime ∷ [], visited)
root_entry bytes entry symlink walk = ok walk
root_entry bytes entry hardlink walk = ok walk
root_entry bytes entry other walk = ok walk

unfoldable pub root_entries : List ℕ → List RawEntry → Walk → Walks
root_entries bytes [] walk = ok walk
root_entries bytes (entry ∷ entries) walk = do
  walk' ← root_entry bytes entry entry.kind walk
  root_entries bytes entries walk'

-- `u64::from_le_bytes`.
abbrev pub from_le_bytes : List ℕ → ℕ
from_le_bytes [] = 0
from_le_bytes (b ∷ bs) = b + 256 * from_le_bytes bs

unfoldable pub parse_catalog : List ℕ → Result (List ArchiveEntry) DecodeError
parse_catalog bytes =
    if not (same_text (take 8 bytes) catalog_magic)
    then err invalid_magic
    else if ltb (length bytes) 8
    then err missing_trailer
    else let root_offset = from_le_bytes (drop (length bytes - 8) bytes) in
      (do
        entries ← read_table bytes root_offset
        (out, _) ← root_entries bytes entries ([], root_offset ∷ [])
        ok out)
