-- ===== src/Pbs/Catalog/Table.antt =====
-- pbs-client/src/catalog.rs: `read_table` reads back what `DirectoryInfo::encode` writes.
use ailes.Common.{
  ℕ, ◌+◌, ◌-◌, ◌%◌, ◌≤◌, ◌<◌, ◌≡◌, refl, sym, ap, ◌∙◌, List, [], ◌∷◌, ◌++◌, length, drop, map, All,
  append-nil, append_assoc, length-append, arith,
}
use ailes.Common.Machine.{word}
use ailes.Common.Result.{ok, ◌>>=◌}
use ailes.Pbs.Varint.{encode_u64, encode_i64, Cursor, read_u64}
use ailes.Pbs.Varint.Encoding.{IsI64, encode_i64-append}
use ailes.Pbs.Varint.Standing.{
  At, ReadsTo, byte-At, read_u64-At, read_i64-At, take_bytes-At, At-rest, At-length,
}
use ailes.Pbs.Catalog.{
  Attribute, directory, file, symlink, hardlink, block_device, char_device, fifo, socket,
  CatalogEntry, DirectoryInfo, type_byte, encode_attribute, encode,
}
use ailes.Pbs.Catalog.Encoded.{
  entry_bytes, entries_bytes, table_bytes, encode-bytes, length-entries_bytes,
}
use ailes.Pbs.Catalog.Reader.{RawKind, RawEntry, read_kind, read_entry, read_entries, read_table}

-- Values that the writer's types allow: a table stands behind those of its subdirectories.
abbrev pub AttributeFits : ℕ → Attribute → Type 0
AttributeFits start (directory child) = (child ≤ start) × (start < word)
AttributeFits start (file size mtime) = (size < word) × IsI64 mtime
AttributeFits start symlink = Unit
AttributeFits start hardlink = Unit
AttributeFits start block_device = Unit
AttributeFits start char_device = Unit
AttributeFits start fifo = Unit
AttributeFits start socket = Unit

-- What a reader makes of an attribute.
abbrev pub raw_kind : Attribute → RawKind
raw_kind (directory child) = RawKind.directory child
raw_kind (file size mtime) = RawKind.file size mtime
raw_kind symlink = RawKind.symlink
raw_kind hardlink = RawKind.hardlink
raw_kind block_device = RawKind.other
raw_kind char_device = RawKind.other
raw_kind fifo = RawKind.other
raw_kind socket = RawKind.other

abbrev pub raw_entry : CatalogEntry → RawEntry
raw_entry e = record { name = e.name; kind = raw_kind e.attribute }

read_kind-At :
    (bytes : List ℕ) (a : Attribute) (start : ℕ) (rest : List ℕ) (c : Cursor)
    → AttributeFits start a
    → At bytes (encode_attribute [] a start ++ rest) c
    → ReadsTo (read_kind start (type_byte a) c) bytes (raw_kind a) rest
unfolding read_kind encode_attribute
read_kind-At bytes (directory child) start rest c (below, fits) at =
    let delta = (start + word - child) % word in
    let (c', e, at') = read_u64-At bytes delta rest c (omega arith) at in
    rw e (c', ground arith, at')
read_kind-At bytes (file size mtime) start rest c (fits, within) at =
    let front =
      ap (λ (t : List ℕ). t ++ rest) (encode_i64-append (encode_u64 [] size) mtime)
      ∙ append_assoc (encode_u64 [] size) (encode_i64 [] mtime) rest in
    let (c', e, at') =
      read_u64-At bytes size (encode_i64 [] mtime ++ rest) c fits (At-rest bytes c front at) in
    let (c'', e', at'') = read_i64-At bytes mtime rest c' within at' in
    rw e (rw e' (c'', refl, at''))
read_kind-At bytes symlink start rest c h at = (c, refl, at)
read_kind-At bytes hardlink start rest c h at = (c, refl, at)
read_kind-At bytes block_device start rest c h at = (c, refl, at)
read_kind-At bytes char_device start rest c h at = (c, refl, at)
read_kind-At bytes fifo start rest c h at = (c, refl, at)
read_kind-At bytes socket start rest c h at = (c, refl, at)

read_entry-At :
    (bytes : List ℕ) (e : CatalogEntry) (start : ℕ) (rest : List ℕ) (c : Cursor)
    → length bytes < word
    → AttributeFits start e.attribute
    → At bytes (entry_bytes e start ++ rest) c
    → ReadsTo (read_entry start c) bytes (raw_entry e) rest
unfolding read_entry
read_entry-At bytes e start rest c short fits at =
    let last = encode_attribute [] e.attribute start in
    let (c1, e1, at1) = byte-At bytes (type_byte e.attribute) _ c at in
    let (c2, e2, at2) =
      read_u64-At bytes (length e.name) ((e.name ++ last) ++ rest) c1 named (
        At-rest bytes c1 (append_assoc (encode_u64 [] (length e.name)) (e.name ++ last) rest)
          at1) in
    let (c3, e3, at3) =
      take_bytes-At bytes e.name (last ++ rest) c2 short
        (At-rest bytes c2 (append_assoc e.name last rest) at2) in
    let (c4, e4, at4) = read_kind-At bytes e.attribute start rest c3 fits at3 in
    rw e1 (rw e2 (rw e3 (rw e4 (c4, refl, at4))))
  where
    named : length e.name < word
    named = omega (
      arith,
      At-length bytes (entry_bytes e start ++ rest) c at,
      length-append (entry_bytes e start) rest,
      length-append (encode_u64 [] (length e.name))
          (e.name ++ encode_attribute [] e.attribute start),
      length-append e.name (encode_attribute [] e.attribute start),
    )

read_entries-At :
    (bytes : List ℕ) (es : List CatalogEntry) (start : ℕ) (rest : List ℕ) (c : Cursor)
    → length bytes < word
    → All (λ e. AttributeFits start e.attribute) es
    → At bytes (entries_bytes es start ++ rest) c
    → read_entries (length es) start c ≡ ok (map raw_entry es)
unfolding read_entries
read_entries-At bytes [] start rest c short fits at = refl
read_entries-At bytes (e ∷ es) start rest c short (fit, fits) at =
    let (c', p, at') =
      read_entry-At bytes e start (entries_bytes es start ++ rest) c short fit
        (At-rest bytes c (append_assoc (entry_bytes e start) (entries_bytes es start) rest) at) in
    rw p (rw (read_entries-At bytes es start rest c' short fits at'))

-- The part of `read_table` that reads the table itself.
read_table-table :
    (es : List CatalogEntry) (start : ℕ)
    → length (table_bytes es start) < word
    → All (λ e. AttributeFits start e.attribute) es
    → (read_u64 (record { bytes = table_bytes es start; position = 0 }) >>= λ r.
        read_entries r.0 start r.1)
      ≡ ok (map raw_entry es)
read_table-table es start short fits =
    let table = table_bytes es start in
    let c : Cursor = record { bytes = table; position = 0 } in
    let at : At table (table ++ []) c = record {
      same = refl;
      there = sym (append-nil table);
      inside = omega arith;
    } in
    let count = encode_u64 [] (length es) in
    let few : length es < word =
      omega (arith, length-append count (entries_bytes es start), length-entries_bytes es start) in
    let (c1, e1, at1) =
      read_u64-At table (length es) (entries_bytes es start ++ []) c few
        (At-rest table c (append_assoc count (entries_bytes es start) []) at) in
    rw e1 (read_entries-At table es start [] c1 short fits at1)

-- Where a directory's encoding stands at `start`, `read_table` gives its entries: their names, and
-- of each attribute what a reader keeps of it.
pub read_table-encode :
    (bytes : List ℕ) (dir : DirectoryInfo) (start : ℕ) (rest : List ℕ)
    → length bytes < word
    → start ≤ length bytes
    → drop start bytes ≡ encode dir start ++ rest
    → All (λ e. AttributeFits start e.attribute) dir.entries
    → read_table bytes start ≡ ok (map raw_entry dir.entries)
unfolding read_table
read_table-encode bytes dir start rest short inside e fits =
    let table = table_bytes dir.entries start in
    let c : Cursor = record { bytes = bytes; position = start } in
    let front = encode_u64 [] (length table) in
    let at : At bytes (front ++ (table ++ rest)) c = record {
      same = refl;
      there =
          e
          ∙ ap (λ (t : List ℕ). t ++ rest) (encode-bytes dir start)
          ∙ append_assoc front table rest;
      inside = inside;
    } in
    let whole = At-length bytes (front ++ (table ++ rest)) c at in
    let fit : length table < word =
      omega (arith, whole, length-append front (table ++ rest), length-append table rest) in
    let (c1, e1, at1) = read_u64-At bytes (length table) (table ++ rest) c fit at in
    let (c2, e2, at2) = take_bytes-At bytes table rest c1 short at1 in
    rw e1 (rw e2 (read_table-table dir.entries start fit fits))
