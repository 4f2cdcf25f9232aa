-- ===== src/Pbs/Catalog/Blocks.antt =====
-- pbs-client/src/catalog.rs: where the blocks of a directory stand, and what is read there.
use ailes.Common.{
  ℕ, ◌+◌, ◌≤◌, ◌<◌, ◌≡◌, sym, ap, ◌∙◌, List, ◌++◌, length, drop, map, All, append_assoc,
  length-append, length-drop, arith,
}
use ailes.Common.Machine.{word}
use ailes.Common.Result.{ok}
use ailes.Common.Slices.{drop-drop, drop-append, drop_all}
use ailes.Pbs.Catalog.{encode}
use ailes.Pbs.Catalog.Encoded.{length-encode}
use ailes.Pbs.Catalog.Reader.{read_table}
use ailes.Pbs.Catalog.Table.{AttributeFits, raw_entry, read_table-encode}
use ailes.Pbs.Catalog.Forest.{
  Leaf, file, symlink, hardlink, block_device, char_device, fifo, socket, Forest, end, leaf, dir,
  attribute_of, listed, blocks, entries, size, LeafFits, Fits,
}

pub leaf-fits : (l : Leaf) (limit : ℕ) → LeafFits l → AttributeFits limit (attribute_of l)
leaf-fits (file size mtime) limit h = h
leaf-fits symlink limit h = tt
leaf-fits hardlink limit h = tt
leaf-fits block_device limit h = tt
leaf-fits char_device limit h = tt
leaf-fits fifo limit h = tt
leaf-fits socket limit h = tt

-- The entries of a forest suit any table behind its own tables.
pub entries-fit :
    (f : Forest) (at limit : ℕ)
    → Fits f
    → at + length (blocks f at) ≤ limit
    → limit < word
    → All (λ e. AttributeFits limit e.attribute) (entries f at)
unfolding blocks entries
entries-fit end at limit fits h short = tt
entries-fit (leaf name l rest) at limit (fit, fits) h short =
    (leaf-fits l limit fit, entries-fit rest at limit fits h short)
entries-fit (dir name children rest) at limit (_, fits) h short =
    let inner = blocks children at in
    let start = at + length inner in
    let table = encode (listed name (entries children at)) start in
    let whole = length-append inner (table ++ blocks rest (start + length table)) in
    let behind = length-append table (blocks rest (start + length table)) in
    (
      (omega (arith, whole), short),
      entries-fit rest (start + length table) limit fits (omega (arith, whole, behind)) short,
    )

-- What a block's bytes are followed by.
pub drop-front :
    (at : ℕ) (bytes front rest : List ℕ)
    → drop at bytes ≡ front ++ rest
    → drop (at + length front) bytes ≡ rest
drop-front at bytes front rest e =
    sym (drop-drop (length front) at bytes)
    ∙ ap (drop (length front)) e
    ∙ drop-append (length front) front rest (omega arith)
    ∙ ap (λ (ys : List ℕ). ys ++ rest) (drop_all (length front) front (omega arith))

abbrev pub start_of : Forest → ℕ → ℕ
start_of children at = at + length (blocks children at)

abbrev pub table_of : List ℕ → Forest → ℕ → List ℕ
table_of name children at = encode (listed name (entries children at)) (start_of children at)

abbrev pub behind : List ℕ → Forest → ℕ → ℕ
behind name children at = start_of children at + length (table_of name children at)

-- The three parts of a directory's blocks, where they stand in the catalogue.
pub dir_blocks :
    (bytes : List ℕ)
    → length bytes < word
    → (name : List ℕ) (children tail : Forest) (at : ℕ) (rest : List ℕ) → Fits children
    → drop at bytes ≡ blocks (dir name children tail) at ++ rest
    → (drop at bytes
        ≡ blocks children at
          ++ (table_of name children at ++ (blocks tail (behind name children at) ++ rest)))
      × (read_table bytes (start_of children at) ≡ ok (map raw_entry (entries children at)))
      × (drop (behind name children at) bytes ≡ blocks tail (behind name children at) ++ rest)
unfolding blocks
dir_blocks bytes short name children tail at rest fit e =
    let start = start_of children at in
    let table = table_of name children at in
    let last = blocks tail (behind name children at) in
    let e_inner =
      e
      ∙ append_assoc (blocks children at) (table ++ last) rest
      ∙ ap (◌++◌ (blocks children at)) (append_assoc table last rest) in
    let e_table = drop-front at bytes (blocks children at) (table ++ (last ++ rest)) e_inner in
    let inside : start < length bytes = omega (
      arith,
      ap length e_table,
      length-encode (listed name (entries children at)) start,
      length-append table (last ++ rest),
      length-drop start bytes,
    ) in
    (
      e_inner,
      read_table-encode bytes (listed name (entries children at)) start (last ++ rest) short
          (omega (arith, inside)) e_table
          (entries-fit children at start fit (omega arith) (omega (arith, inside))),
      drop-front start bytes table (last ++ rest) e_table,
    )
