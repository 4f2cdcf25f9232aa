-- ===== src/Pbs/Catalog/Encoded.antt =====
-- What `encode_entry` and `DirectoryInfo::encode` of pbs-client/src/catalog.rs append.
use ailes.Common.{
  ℕ, ◌≤◌, ◌≡◌, sym, ap, ◌∙◌, List, [], ◌∷◌, ◌++◌, length, append-nil, append_assoc, length-append,
  arith,
}
use ailes.Pbs.Varint.{encode_u64, encode_i64}
use ailes.Pbs.Varint.Encoding.{length-encode_u64, encode_u64-append, encode_i64-append}
use ailes.Pbs.Catalog.{
  Attribute, directory, file, symlink, hardlink, block_device, char_device, fifo, socket,
  CatalogEntry, DirectoryInfo, type_byte, encode_attribute, encode_entry, encode_entries, encode,
}

pub encode_attribute-append :
    (table : List ℕ) (a : Attribute) (start : ℕ)
    → encode_attribute table a start ≡ table ++ encode_attribute [] a start
unfolding encode_attribute
encode_attribute-append table (directory child) start = encode_u64-append table _
encode_attribute-append table (file size mtime) start =
    encode_i64-append (encode_u64 table size) mtime
    ∙ ap (λ (t : List ℕ). t ++ encode_i64 [] mtime) (encode_u64-append table size)
    ∙ append_assoc table (encode_u64 [] size) (encode_i64 [] mtime)
    ∙ ap (◌++◌ table) (sym (encode_i64-append (encode_u64 [] size) mtime))
encode_attribute-append table symlink start = sym (append-nil table)
encode_attribute-append table hardlink start = sym (append-nil table)
encode_attribute-append table block_device start = sym (append-nil table)
encode_attribute-append table char_device start = sym (append-nil table)
encode_attribute-append table fifo start = sym (append-nil table)
encode_attribute-append table socket start = sym (append-nil table)

-- An entry's bytes: its type, its name behind the name's length, and its attribute.
abbrev pub entry_bytes : CatalogEntry → ℕ → List ℕ
entry_bytes e start =
    type_byte e.attribute
    ∷ (encode_u64 [] (length e.name) ++ (e.name ++ encode_attribute [] e.attribute start))

pub encode_entry-bytes :
    (table : List ℕ) (e : CatalogEntry) (start : ℕ)
    → encode_entry table e start ≡ table ++ entry_bytes e start
unfolding encode_entry
encode_entry-bytes table e start =
    encode_attribute-append _ e.attribute start
    ∙ ap (λ (t : List ℕ). (t ++ e.name) ++ encode_attribute [] e.attribute start)
        (encode_u64-append (table ++ type_byte e.attribute ∷ []) (length e.name))
    ∙ simp append_assoc

abbrev pub entries_bytes : List CatalogEntry → ℕ → List ℕ
entries_bytes [] start = []
entries_bytes (e ∷ es) start = entry_bytes e start ++ entries_bytes es start

pub encode_entries-bytes :
    (table : List ℕ) (es : List CatalogEntry) (start : ℕ)
    → encode_entries table es start ≡ table ++ entries_bytes es start
unfolding encode_entries
encode_entries-bytes table [] start = sym (append-nil table)
encode_entries-bytes table (e ∷ es) start =
    encode_entries-bytes (encode_entry table e start) es start
    ∙ ap (λ (t : List ℕ). t ++ entries_bytes es start) (encode_entry-bytes table e start)
    ∙ append_assoc table (entry_bytes e start) (entries_bytes es start)

abbrev pub table_bytes : List CatalogEntry → ℕ → List ℕ
table_bytes es start = encode_u64 [] (length es) ++ entries_bytes es start

pub encode-bytes :
    (dir : DirectoryInfo) (start : ℕ)
    → encode dir start
      ≡ encode_u64 [] (length (table_bytes dir.entries start)) ++ table_bytes dir.entries start
unfolding encode
encode-bytes dir start =
    ap (λ (t : List ℕ). encode_u64 [] (length t) ++ t)
      (encode_entries-bytes (encode_u64 [] (length dir.entries)) dir.entries start)

pub length-encode : (dir : DirectoryInfo) (start : ℕ) → 1 ≤ length (encode dir start)
length-encode dir start =
    let table = table_bytes dir.entries start in
    rw (encode-bytes dir start) (
      omega (
        arith,
        length-append (encode_u64 [] (length table)) table,
        length-encode_u64 (length table),
      ))

-- Each entry takes a byte at least.
pub length-entries_bytes :
    (es : List CatalogEntry) (start : ℕ) → length es ≤ length (entries_bytes es start)
length-entries_bytes [] start = omega arith
length-entries_bytes (e ∷ es) start = omega (
  arith,
  length-append (entry_bytes e start) (entries_bytes es start),
  length-entries_bytes es start,
)
