-- ===== src/Pbs/Catalog/Runs.antt =====
-- Catalogues of pbs-client/src/catalog.rs, and the theorems at concrete inputs.
use ailes.Common.{ℕ, ◌≡◌, ◌≤◌, refl, List, [], ◌∷◌, ◌++◌, length, arith}
use ailes.Common.Int.{pos, negsuc}
use ailes.Common.Loops.{lt_wf}
use ailes.Common.Names.{name_cmp}
use ailes.Common.Result.{ok, err}
use ailes.Pbs.Varint.{
  encode_u64, encode_u64_loop, encode_i64, encode_i64_loop, read_u64, u64_loop, read_i64, i64_loop,
  byte, take_bytes,
}
use ailes.Pbs.Varint.{revisited}
use ailes.Pbs.Catalog.{
  Attribute, DirectoryInfo, encode, encode_entries, encode_entry, encode_attribute, catalog_magic,
}
use ailes.Pbs.Catalog.Reader.{
  parse_catalog, read_table, read_entries, read_entry, read_kind, root_entries, root_entry,
  walk_entries, walk_entry, push_walk, join, directory_at, file_at, symlink_at, max_catalog_entries,
}
use ailes.Pbs.Catalog.Forest.{
  Forest, end, leaf, dir, file, symlink, catalog_of, blocks, entries, root_listing, listing,
  write_catalog, depth, size,
}
use ailes.Pbs.Catalog.RoundTrip.{parse_catalog-write_catalog}
use native.Mathlib.Decide.{dec_lt}

-- root.pxar.didx / a (300 bytes), sub / l
abbrev tree : Forest
tree =
    dir (b'r' ∷ [])
      (leaf (b'a' ∷ []) (file 300 (negsuc 99)) (dir (b's' ∷ []) (leaf (b'l' ∷ []) symlink end) end))
      end

encode_300 : encode_u64 [] 300 ≡ 172 ∷ 2 ∷ []
unfolding encode_u64 encode_u64_loop lt_wf dec_lt
encode_300 = refl

encode_minus_100 : encode_i64 [] (negsuc 99) ≡ 227 ∷ 64 ∷ []
unfolding encode_i64 encode_i64_loop lt_wf dec_lt
encode_minus_100 = refl

catalog_bytes : length (catalog_of tree) ≡ 40
unfolding catalog_of blocks entries encode encode_entries encode_entry encode_attribute encode_u64
    encode_u64_loop encode_i64 encode_i64_loop lt_wf dec_lt
catalog_bytes = refl

abbrev table : DirectoryInfo
table = record {
  name = [];
  entries =
      record { name = b'a' ∷ []; attribute = Attribute.file 300 (negsuc 99) }
      ∷ record { name = b'd' ∷ []; attribute = Attribute.directory 2 }
      ∷ record { name = []; attribute = Attribute.fifo }
      ∷ [];
}

table_bytes : length (1 ∷ 2 ∷ 3 ∷ (encode table 3 ++ 5 ∷ [])) ≡ 19
unfolding encode encode_entries encode_entry encode_attribute encode_u64 encode_u64_loop encode_i64
    encode_i64_loop lt_wf dec_lt
table_bytes = refl

tree_small : (depth tree ≤ 1025) × (size tree ≤ max_catalog_entries)
unfolding depth size
tree_small = omega arith

parse_catalog-write_catalog_example :
    (bytes : List ℕ) × (write_catalog tree ≡ ok bytes)
    × (parse_catalog bytes ≡ ok (root_listing tree))
parse_catalog-write_catalog_example =
    parse_catalog-write_catalog tree (omega arith) tree_small.0 tree_small.1
      (omega (arith, catalog_bytes))

-- What that lists.
tree_listing :
    root_listing tree
    ≡ file_at (b'a' ∷ []) 300 (negsuc 99)
      ∷ directory_at (b's' ∷ [])
      ∷ symlink_at (b's' ∷ b'/' ∷ b'l' ∷ [])
      ∷ []
unfolding root_listing listing join
tree_listing = refl

-- A catalogue whose root has one file, as bytes.
abbrev one_file : List ℕ
one_file = catalog_magic ++ (6 ∷ 1 ∷ 102 ∷ 1 ∷ 97 ∷ 5 ∷ 7 ∷ 8 ∷ 0 ∷ 0 ∷ 0 ∷ 0 ∷ 0 ∷ 0 ∷ 0 ∷ [])

parse_one_file : parse_catalog one_file ≡ ok (file_at (b'a' ∷ []) 5 (pos 7) ∷ [])
unfolding parse_catalog name_cmp read_table read_u64 u64_loop take_bytes read_entries read_entry
    byte read_kind read_i64 i64_loop root_entries root_entry
parse_one_file = refl

-- A directory that points at its own table is no catalogue.
abbrev looping : List ℕ
looping = catalog_magic ++ (5 ∷ 1 ∷ 100 ∷ 1 ∷ 97 ∷ 0 ∷ 8 ∷ 0 ∷ 0 ∷ 0 ∷ 0 ∷ 0 ∷ 0 ∷ 0 ∷ [])

parse_looping : parse_catalog looping ≡ err revisited
unfolding parse_catalog name_cmp read_table read_u64 u64_loop take_bytes read_entries read_entry
    byte read_kind root_entries root_entry push_walk
parse_looping = refl

walked_one_file :
    push_walk 2 one_file 8 [] ([], 3 ∷ []) ≡ ok (file_at (b'a' ∷ []) 5 (pos 7) ∷ [], 8 ∷ 3 ∷ [])
unfolding push_walk walk_entries walk_entry join read_table read_u64 u64_loop take_bytes
    read_entries read_entry byte read_kind read_i64 i64_loop
walked_one_file = refl
