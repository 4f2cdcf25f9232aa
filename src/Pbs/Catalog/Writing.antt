-- ===== src/Pbs/Catalog/Writing.antt =====
-- pbs-client/src/catalog.rs: what the operations of `CatalogWriter` put into a `Vec<u8>`.
use ailes.Common.{
  ℕ, ◌+◌, ◌<◌, ◌≡◌, refl, sym, ap, ◌∙◌, List, [], ◌∷◌, ◌++◌, length, append-nil, append_assoc,
  length-append, arith,
}
use ailes.Common.Machine.{word}
use ailes.Common.Result.{ok}
use ailes.Pbs.Catalog.{directory, CatalogEntry, DirectoryInfo, catalog_magic, encode}
use ailes.Pbs.Catalog.Writer.{
  CatalogWriter, After, add, add_file, add_symlink, add_hardlink, add_block_device, add_char_device,
  add_fifo, add_socket, start_directory, end_directory, write_all, new, finish, vec_sink, le_bytes,
}
use ailes.Pbs.Catalog.Forest.{
  Leaf, file, symlink, hardlink, block_device, char_device, fifo, socket, Forest, end, leaf, dir,
  add_leaf, write, write_catalog, attribute_of, listed, blocks, entries, catalog_of,
}

-- A writer at position `at` that has written `w`, with the entries `es` in its innermost directory.
abbrev standing :
    List ℕ → ℕ → List ℕ → List CatalogEntry → List DirectoryInfo → CatalogWriter (List ℕ)
standing w at name es outer = record { writer = w; stack = listed name es ∷ outer; position = at }

standing-eq :
    {w w' : List ℕ} {at at' : ℕ} {es es' : List CatalogEntry} (name : List ℕ)
    (outer : List DirectoryInfo)
    → w ≡ w'
    → at ≡ at'
    → es ≡ es'
    → ◌≡◌ {A = After (List ℕ)}
        (standing w at name es outer, ok tt)
        (standing w' at' name es' outer, ok tt)
standing-eq name outer p q r = λ i. (standing (p i) (q i) name (r i) outer, ok tt)

add_leaf-standing :
    (leaf_name : List ℕ) (l : Leaf) (w : List ℕ) (at : ℕ) (name : List ℕ) (es : List CatalogEntry)
    (outer : List DirectoryInfo)
    → add_leaf leaf_name l (standing w at name es outer) ≡ (
      standing w at name (es ++ record { name = leaf_name; attribute = attribute_of l } ∷ []) outer,
      ok tt,
    )
unfolding add add_file add_symlink add_hardlink add_block_device add_char_device add_fifo add_socket
add_leaf-standing leaf_name (file size mtime) w at name es outer = refl
add_leaf-standing leaf_name symlink w at name es outer = refl
add_leaf-standing leaf_name hardlink w at name es outer = refl
add_leaf-standing leaf_name block_device w at name es outer = refl
add_leaf-standing leaf_name char_device w at name es outer = refl
add_leaf-standing leaf_name fifo w at name es outer = refl
add_leaf-standing leaf_name socket w at name es outer = refl

end_directory-standing :
    (w : List ℕ) (at : ℕ) (inner_name name : List ℕ) (inner es : List CatalogEntry)
    (outer : List DirectoryInfo)
    → at + length (encode (listed inner_name inner) at) < word
    → end_directory vec_sink (standing w at inner_name inner (listed name es ∷ outer)) ≡ (
      standing
          (w ++ encode (listed inner_name inner) at)
          (at + length (encode (listed inner_name inner) at))
          name
          (es ++ record { name = inner_name; attribute = directory at } ∷ [])
          outer,
      ok tt,
    )
unfolding end_directory write_all add
end_directory-standing w at inner_name name inner es outer h =
    standing-eq name outer refl (omega arith) refl

-- What writing a forest adds: its tables, and its entries in the directory that is open.
write-blocks :
    (f : Forest) (w : List ℕ) (at : ℕ) (name : List ℕ) (es : List CatalogEntry)
    (outer : List DirectoryInfo)
    → at + length (blocks f at) < word
    → write f (standing w at name es outer) ≡ (
      standing (w ++ blocks f at) (at + length (blocks f at)) name (es ++ entries f at) outer,
      ok tt,
    )
unfolding write blocks entries start_directory
write-blocks end w at name es outer h =
    standing-eq name outer (sym (append-nil w)) (omega arith) (sym (append-nil es))
write-blocks (leaf leaf_name l rest) w at name es outer h =
    rw (add_leaf-standing leaf_name l w at name es outer) (
      write-blocks rest w at name _ outer h
      ∙ standing-eq name outer refl refl
          (append_assoc es (record { name = leaf_name; attribute = attribute_of l } ∷ []) _))
write-blocks (dir dir_name children rest) w at name es outer h =
    let inner = blocks children at in
    let start = at + length inner in
    let table = encode (listed dir_name (entries children at)) start in
    let whole = length-append inner (table ++ blocks rest (start + length table)) in
    let behind = length-append table (blocks rest (start + length table)) in
    let own : CatalogEntry = record { name = dir_name; attribute = directory start } in
    rw (write-blocks children w at dir_name [] (listed name es ∷ outer) (omega arith)) (
      rw
        (end_directory-standing (w ++ inner) start dir_name name (entries children at) es outer
          (omega arith))
        (write-blocks rest ((w ++ inner) ++ table) (start + length table) name (es ++ own ∷ [])
            outer (omega arith)
          ∙ standing-eq name outer (append_assoc (w ++ inner) table _ ∙ append_assoc w inner _)
              (omega arith) (append_assoc es (own ∷ []) _)))

-- A forest whose catalogue is shorter than a `u64` can count is written: the magic, the tables of
-- its directories, the root's own table and the position of that.
pub write_catalog-catalog_of :
    (f : Forest) → length (catalog_of f) < word → write_catalog f ≡ ok (catalog_of f)
unfolding write_catalog catalog_of new finish write_all
write_catalog-catalog_of f h =
    let start = 8 + length (blocks f 8) in
    let root = encode (listed [] (entries f 8)) start in
    let inner = length-append catalog_magic (blocks f 8 ++ (root ++ le_bytes 8 start)) in
    let tail = length-append (blocks f 8) (root ++ le_bytes 8 start) in
    rw (write-blocks f catalog_magic 8 [] [] [] (omega (arith, inner, tail))) (
      ap ok (
        append_assoc (catalog_magic ++ blocks f 8) root (le_bytes 8 start)
        ∙ append_assoc catalog_magic (blocks f 8) (root ++ le_bytes 8 start)))
