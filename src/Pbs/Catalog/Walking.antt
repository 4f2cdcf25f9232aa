-- ===== src/Pbs/Catalog/Walking.antt =====
-- pbs-client/src/catalog.rs: `push_walk` on the catalogue that was written for a forest.
use ailes.Common.{
  ℕ, zero, suc, ◌+◌, ◌≤◌, ◌<◌, ◌≡◌, refl, ap, ◌∙◌, List, [], ◌∷◌, ◌++◌, length, drop, map, false,
  leb, append-nil, append_assoc, length-append, arith,
}
use ailes.Common.Machine.{word}
use ailes.Common.Result.{ok}
use ailes.Pbs.Catalog.Encoded.{length-encode}
use ailes.Pbs.Catalog.Reader.{
  RawKind, RawEntry, ArchiveEntry, Walk, Walks, join, walk_entry, walk_entries, push_walk,
  read_table, max_catalog_entries, directory_at,
}
use ailes.Pbs.Catalog.Table.{raw_kind, raw_entry}
use ailes.Pbs.Catalog.Forest.{
  Leaf, file, Forest, end, leaf, dir, attribute_of, listed, blocks, entries, leaf_listing, listing,
  depth, size, Fits,
}
use ailes.Pbs.Catalog.Visited.{seen, Fresh, Within, Fresh-behind, Within-behind}
use ailes.Pbs.Catalog.Blocks.{start_of, table_of, behind, dir_blocks}

-- A leaf gives at most one entry, and visits nothing.
walk_leaf :
    (descend : ℕ → List ℕ → Walk → Walks) (path : List ℕ) (l : Leaf) (out : List ArchiveEntry)
    (visited : List ℕ)
    → (walk_entry descend path (raw_kind (attribute_of l)) (out, visited)
        ≡ ok (out ++ leaf_listing path l, visited))
      × (length (out ++ leaf_listing path l) ≤ length out + 1)
unfolding walk_entry
walk_leaf descend path (file size mtime) out visited = (refl, omega (arith, length-append {0} out))
walk_leaf descend path l out visited =
    ground (arith, append-nil out, length-append out (leaf_listing path l))

pub push_walk-table :
    (left : ℕ) (bytes : List ℕ) (block_pos : ℕ) (base : List ℕ) (out : List ArchiveEntry)
    (visited : List ℕ) (es : List RawEntry)
    → seen block_pos visited ≡ false
    → read_table bytes block_pos ≡ ok es
    → push_walk (suc left) bytes block_pos base (out, visited)
      ≡ walk_entries (push_walk left bytes) es base (out, block_pos ∷ visited)
unfolding push_walk
push_walk-table left bytes block_pos base out visited es h e = rw h (rw e refl)

-- The loop's step for a directory entry.
dir_step :
    (left : ℕ) (bytes base name : List ℕ) (child : ℕ) (es : List RawEntry) (out : List ArchiveEntry)
    (visited : List ℕ) (out' : List ArchiveEntry) (visited' : List ℕ)
    → length out < max_catalog_entries
    → push_walk left bytes child
        (join base name)
        (out ++ directory_at (join base name) ∷ [], visited)
      ≡ ok (out', visited')
    → walk_entries
        (push_walk left bytes)
        (record { name = name; kind = RawKind.directory child } ∷ es)
        base
        (out, visited)
      ≡ walk_entries (push_walk left bytes) es base (out', visited')
unfolding walk_entries walk_entry
dir_step left bytes base name child es out visited out' visited' few e = ground arith

length-leaf_listing : (path : List ℕ) (l : Leaf) → length (leaf_listing path l) ≤ 1
length-leaf_listing path (file size mtime) = omega arith
length-leaf_listing path l = omega arith

-- An entry is listed once at most.
pub length-listing : (base : List ℕ) (f : Forest) → length (listing base f) ≤ size f
unfolding listing size
length-listing base end = omega arith
length-listing base (leaf name l rest) = omega (
  arith,
  length-append (leaf_listing (join base name) l) (listing base rest),
  length-leaf_listing (join base name) l,
  length-listing base rest,
)
length-listing base (dir name children rest) = omega (
  arith,
  length-append (listing (join base name) children) (listing base rest),
  length-listing (join base name) children,
  length-listing base rest,
)

pub walk_entries-listing :
    (bytes : List ℕ)
    → length bytes < word
    → (f : Forest) (left at : ℕ) (base rest : List ℕ) (out : List ArchiveEntry) (visited : List ℕ)
    → drop at bytes ≡ blocks f at ++ rest
    → Fits f
    → depth f ≤ left
    → Fresh at (at + length (blocks f at)) visited
    → length out + size f ≤ max_catalog_entries
    → (visited' : List ℕ) × (walk_entries
          (push_walk left bytes)
          (map raw_entry (entries f at))
          base
          (out, visited)
        ≡ ok (out ++ listing base f, visited'))
      × Within at (at + length (blocks f at)) visited visited'
unfolding walk_entries listing depth size blocks entries
walk_entries-listing bytes short end left at base rest out visited e fits deep fresh few =
    (visited, rw (append-nil out) refl, λ x _ h. h)
walk_entries-listing bytes short (leaf name l tail) left at base rest out visited e (_, fits) deep
      fresh few =
    let (step, more) = walk_leaf (push_walk left bytes) (join base name) l out visited in
    let (visited', walked, within) =
      walk_entries-listing bytes short tail left at base rest
        (out ++ leaf_listing (join base name) l) visited e fits deep fresh (omega (arith, more)) in
    (
      visited',
      rw (room) (
          rw step
            (walked ∙ ap (λ (o : List ArchiveEntry). ok (o, visited')) (append_assoc out _ _))),
      within,
    )
  where
    room : leb max_catalog_entries (length out) ≡ false
    room = ground arith
walk_entries-listing bytes short (dir name children tail) zero at base rest out visited e
      (fit, fits) deep fresh few =
    absurd (omega arith)
walk_entries-listing bytes short (dir name children tail) (suc left) at base rest out visited e
      (fit, fits) deep fresh few =
    let path = join base name in
    let start = start_of children at in
    let table = table_of name children at in
    let at' = behind name children at in
    let own = length-encode (listed name (entries children at)) start in
    let whole = length-append (blocks children at) (table ++ blocks tail at') in
    let back = length-append table (blocks tail at') in
    let (e_inner, read, e_tail) = dir_blocks bytes short name children tail at rest fit e in
    let (v1, inner_walked, within1) =
      walk_entries-listing bytes short children left at path (table ++ (blocks tail at' ++ rest))
        (out ++ directory_at path ∷ []) (start ∷ visited) e_inner fit (omega arith)
        (λ x lo hi. ground (arith, fresh x lo))
        (omega (arith, length-append out (directory_at path ∷ []))) in
    let out1 = (out ++ directory_at path ∷ []) ++ listing path children in
    let (v2, tail_walked, within2) =
      walk_entries-listing bytes short tail (suc left) at' base rest out1 v1 e_tail fits
        (omega arith)
        (Fresh-behind visited v1 (omega arith) (omega arith) (omega (arith, whole, back)) fresh
          within1)
        (omega (
          arith,
          length-append (out ++ directory_at path ∷ []) (listing path children),
          length-append out (directory_at path ∷ []),
          length-listing path children,
        )) in
    (
      v2,
      dir_step (suc left) bytes base name start _ out visited out1 v1 (ground arith) (
            push_walk-table left bytes start path _ visited _
              (fresh start (omega arith) (omega arith)) read
            ∙ inner_walked)
          ∙ tail_walked
          ∙ ap (λ (o : List ArchiveEntry). ok (o, v2))
              (append_assoc (out ++ directory_at path ∷ []) _ _ ∙ append_assoc out _ _),
      Within-behind visited v1 v2 (omega arith) (omega arith) (omega arith)
          (omega (arith, whole, back)) within1 within2,
    )
