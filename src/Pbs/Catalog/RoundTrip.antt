-- ===== src/Pbs/Catalog/RoundTrip.antt =====
-- pbs-client/src/catalog.rs: `parse_catalog` on what `CatalogWriter` wrote.
use ailes.Common.{
  ℕ, zero, suc, ◌+◌, ◌-◌, ◌/◌, ◌^◌, ◌≤◌, ◌<◌, ◌≡◌, refl, ap, ◌∙◌, List, [], ◌∷◌, ◌++◌, length, drop,
  take, map, false, append-nil, append_assoc, length-append, ltb, arith,
}
use ailes.Common.Machine.{word}
use ailes.Common.Result.{ok}
use ailes.Common.Text.{same_text_iff}
use ailes.Pbs.Catalog.{catalog_magic, encode}
use ailes.Pbs.Catalog.Encoded.{length-encode}
use ailes.Pbs.Catalog.Writer.{le_bytes}
use ailes.Pbs.Catalog.Reader.{
  RawKind, RawEntry, ArchiveEntry, push_walk, read_table, root_entry, root_entries, parse_catalog,
  from_le_bytes, max_catalog_entries,
}
use ailes.Pbs.Catalog.Table.{raw_kind, raw_entry, read_table-encode}
use ailes.Pbs.Catalog.Visited.{Fresh, Fresh-behind}
use ailes.Pbs.Catalog.Blocks.{start_of, table_of, behind, dir_blocks, drop-front, entries-fit}
use ailes.Pbs.Catalog.Walking.{push_walk-table, length-listing, walk_entries-listing}
use ailes.Pbs.Catalog.Forest.{
  Leaf, file, Forest, end, leaf, dir, attribute_of, listed, blocks, entries, listing, root_leaf,
  root_listing, catalog_of, depth, size, Fits, write_catalog,
}
use native.Mathlib.Nat.{pow-suc}
use ailes.Pbs.Catalog.Writing.{write_catalog-catalog_of}

from_le_bytes-le_bytes : (n v : ℕ) → v < 256 ^ n → from_le_bytes (le_bytes n v) ≡ v
from_le_bytes-le_bytes zero v h = omega arith
from_le_bytes-le_bytes (suc n) v h =
    omega (arith, from_le_bytes-le_bytes n (v / 256) (omega (arith, pow-suc 256 n)))

root_leaf_step :
    (bytes name : List ℕ) (l : Leaf) (es : List RawEntry) (out : List ArchiveEntry)
    (visited : List ℕ)
    → length out < max_catalog_entries
    → root_entries bytes
        (record { name = name; kind = raw_kind (attribute_of l) } ∷ es)
        (out, visited)
      ≡ root_entries bytes es (out ++ root_leaf name l, visited)
unfolding root_entries root_entry
root_leaf_step bytes name (file size mtime) es out visited few = ground arith
root_leaf_step bytes name l es out visited few = rw (append-nil out) refl

length-root_leaf : (name : List ℕ) (l : Leaf) → length (root_leaf name l) ≤ 1
length-root_leaf name (file size mtime) = omega arith
length-root_leaf name l = omega arith

root_dir_step :
    (bytes name : List ℕ) (child : ℕ) (es : List RawEntry) (out : List ArchiveEntry)
    (visited : List ℕ) (out' : List ArchiveEntry) (visited' : List ℕ)
    → push_walk 1025 bytes child [] (out, visited) ≡ ok (out', visited')
    → root_entries bytes
        (record { name = name; kind = RawKind.directory child } ∷ es)
        (out, visited)
      ≡ root_entries bytes es (out', visited')
unfolding root_entries root_entry
root_dir_step bytes name child es out visited out' visited' e = rw e refl

root_entries-listing :
    (bytes : List ℕ)
    → length bytes < word
    → (f : Forest) (at : ℕ) (rest : List ℕ) (out : List ArchiveEntry) (visited : List ℕ)
    → drop at bytes ≡ blocks f at ++ rest
    → Fits f
    → depth f ≤ 1025
    → Fresh at (at + length (blocks f at)) visited
    → length out + size f ≤ max_catalog_entries
    → (visited' : List ℕ) × (root_entries bytes (map raw_entry (entries f at)) (out, visited)
        ≡ ok (out ++ root_listing f, visited'))
unfolding root_entries root_listing depth size blocks entries
root_entries-listing bytes short end at rest out visited e fits deep fresh few =
    (visited, rw (append-nil out) refl)
root_entries-listing bytes short (leaf name l tail) at rest out visited e (_, fits) deep fresh few =
    let (v, walked) =
      root_entries-listing bytes short tail at rest (out ++ root_leaf name l) visited e fits deep
        fresh (omega (arith, length-append out (root_leaf name l), length-root_leaf name l)) in
    (
      v,
      root_leaf_step bytes name l _ out visited (omega arith)
          ∙ walked
          ∙ ap (λ (o : List ArchiveEntry). ok (o, v)) (append_assoc out _ _),
    )
root_entries-listing bytes short (dir name children tail) at rest out visited e (fit, fits) deep
      fresh few =
    let start = start_of children at in
    let table = table_of name children at in
    let at' = behind name children at in
    let own = length-encode (listed name (entries children at)) start in
    let whole = length-append (blocks children at) (table ++ blocks tail at') in
    let back = length-append table (blocks tail at') in
    let (e_inner, read, e_tail) = dir_blocks bytes short name children tail at rest fit e in
    let (v1, inner_walked, within1) =
      walk_entries-listing bytes short children 1024 at [] (table ++ (blocks tail at' ++ rest)) out
        (start ∷ visited) e_inner fit (omega arith) (λ x lo hi. ground (arith, fresh x lo))
        (omega arith) in
    let (v2, tail_walked) =
      root_entries-listing bytes short tail at' rest (out ++ listing [] children) v1 e_tail fits
        (omega arith)
        (Fresh-behind visited v1 (omega arith) (omega arith) (omega (arith, whole, back)) fresh
          within1)
        (omega (arith, length-append out (listing [] children), length-listing [] children)) in
    (
      v2,
      root_dir_step bytes name start _ out visited _ v1 (
            push_walk-table 1024 bytes start [] out visited _
              (fresh start (omega arith) (omega arith)) read
            ∙ inner_walked)
          ∙ tail_walked
          ∙ ap (λ (o : List ArchiveEntry). ok (o, v2)) (append_assoc out _ _),
    )

-- `parse_catalog` once its checks and its reads are known to succeed.
parse_catalog-root :
    (bytes : List ℕ) (root_offset : ℕ) (es : List RawEntry) (out : List ArchiveEntry) (v : List ℕ)
    → take 8 bytes ≡ catalog_magic
    → 8 ≤ length bytes
    → from_le_bytes (drop (length bytes - 8) bytes) ≡ root_offset
    → read_table bytes root_offset ≡ ok es
    → root_entries bytes es ([], root_offset ∷ []) ≡ ok (out, v)
    → parse_catalog bytes ≡ ok out
unfolding parse_catalog
parse_catalog-root bytes root_offset es out v magic long offset table walked =
    let same = (same_text_iff (take 8 bytes) catalog_magic).1 magic in
    rw same (rw (long_enough) (rw offset (rw table (rw walked refl))))
  where
    long_enough : ltb (length bytes) 8 ≡ false
    long_enough = ground arith

parse_catalog-catalog_of :
    (f : Forest)
    → Fits f
    → depth f ≤ 1025
    → size f ≤ max_catalog_entries
    → length (catalog_of f) < word
    → parse_catalog (catalog_of f) ≡ ok (root_listing f)
unfolding catalog_of
parse_catalog-catalog_of f fits deep few short =
    let start = 8 + length (blocks f 8) in
    let root = encode (listed [] (entries f 8)) start in
    let tail = length-append (blocks f 8) (root ++ le_bytes 8 start) in
    let trailer = length-append root (le_bytes 8 start) in
    let e_root = drop-front 8 (catalog_of f) (blocks f 8) (root ++ le_bytes 8 start) refl in
    let e_trailer = drop-front start (catalog_of f) root (le_bytes 8 start) e_root in
    let last : length (catalog_of f) - 8 ≡ start + length root = omega (arith, tail, trailer) in
    let within : start < word = omega (arith, tail, trailer) in
    let table =
      read_table-encode (catalog_of f) (listed [] (entries f 8)) start (le_bytes 8 start) short
        (omega (arith, tail, trailer)) e_root (entries-fit f 8 start fits (omega arith) within) in
    let (v, walked) =
      root_entries-listing (catalog_of f) short f 8 (root ++ le_bytes 8 start) [] (start ∷ []) refl
        fits deep (λ x lo hi. ground arith) (omega arith) in
    parse_catalog-root (catalog_of f) start _ (root_listing f) v refl (omega arith)
      (ap (λ (k : ℕ). from_le_bytes (drop k (catalog_of f))) last
        ∙ ap from_le_bytes e_trailer
        ∙ from_le_bytes-le_bytes 8 start (omega (arith, within)))
      table walked

-- The catalogue that `CatalogWriter` writes for a directory tree is read back by `parse_catalog`: each
-- directory before what it holds, under its path, with every file's size and time, links as such,
-- and devices, pipes and sockets left out. The tree has at most 1025 directories inside one another and
-- at most 100,000,000 entries, its numbers fit their types, and its catalogue is shorter than 2^64.
-- At the root itself only files are listed, and what its directories hold.
pub parse_catalog-write_catalog :
    (f : Forest)
    → Fits f
    → depth f ≤ 1025
    → size f ≤ max_catalog_entries
    → length (catalog_of f) < word
    → (bytes : List ℕ) × (write_catalog f ≡ ok bytes) × (parse_catalog bytes ≡ ok (root_listing f))
parse_catalog-write_catalog f fits deep few short =
    (catalog_of f, write_catalog-catalog_of f short, parse_catalog-catalog_of f fits deep few short)
