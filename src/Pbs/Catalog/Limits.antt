-- ===== src/Pbs/Catalog/Limits.antt =====
-- pbs-client/src/catalog.rs: what holds of `push_walk` and `parse_catalog` on any bytes.
use ailes.Common.{
  ℕ, zero, suc, ◌≤◌, ◌≡◌, inl, inr, refl, List, [], ◌∷◌, length, drop, take, ◌-◌, false, Bool-cases,
  leb, ltb, arith, length-append,
}
use ailes.Common.Int.{pos}
use ailes.Common.Result.{ok, ◌>>=◌, >>=-eq-ok}
use ailes.Common.Text.{same_text}
use ailes.Pbs.Catalog.{catalog_magic}
use ailes.Pbs.Catalog.Reader.{
  RawKind, directory, file, symlink, hardlink, other, RawEntry, ArchiveEntry, Walk, Walks, join,
  walk_entry, file_at, symlink_at, walk_entries, push_walk, read_table, root_entry, root_entries,
  parse_catalog, max_catalog_entries, from_le_bytes,
}
use ailes.Pbs.Catalog.Visited.{seen}

-- No block stands twice.
abbrev pub Distinct : List ℕ → Type 0
Distinct [] = Unit
Distinct (x ∷ xs) = (seen x xs ≡ false) × Distinct xs

-- What a walk keeps: at most so many entries, and each block once.
pub record IsSound (w : Walk) : Type 0 where
  pub few : length w.0 ≤ max_catalog_entries
  pub once : Distinct w.1

-- A call for a subdirectory that keeps it.
abbrev Keeps : (ℕ → List ℕ → Walk → Walks) → Type 0
Keeps descend =
    (child : ℕ) (path : List ℕ) (w w' : Walk)
    → length w.0 ≤ max_catalog_entries
    → Distinct w.1
    → descend child path w ≡ ok w'
    → IsSound w'

walk_entry-IsSound :
    (descend : ℕ → List ℕ → Walk → Walks)
    → Keeps descend
    → (path : List ℕ) (kind : RawKind) (w w' : Walk) → suc (length w.0) ≤ max_catalog_entries
    → Distinct w.1
    → walk_entry descend path kind w ≡ ok w'
    → IsSound w'
unfolding walk_entry
walk_entry-IsSound descend keeps path (directory child) (out, visited) w' few once e =
    keeps child path _ w' (omega (arith, length-append {0} out)) once e
walk_entry-IsSound descend keeps path (file size mtime) (out, visited) w' few once e =
    ground (arith, length-append out (file_at path size mtime ∷ []))
walk_entry-IsSound descend keeps path symlink (out, visited) w' few once e =
    ground (arith, length-append out (symlink_at path ∷ []))
walk_entry-IsSound descend keeps path hardlink (out, visited) w' few once e =
    ground (arith, length-append out (file_at path 0 (pos 0) ∷ []))
walk_entry-IsSound descend keeps path other (out, visited) w' few once e = ground arith

-- A loop that succeeds had room for its first entry, and goes on after it.
walk_entries-ok :
    (descend : ℕ → List ℕ → Walk → Walks) (entry : RawEntry) (es : List RawEntry) (base : List ℕ)
    (w w' : Walk)
    → walk_entries descend (entry ∷ es) base w ≡ ok w'
    → (w1 : Walk) × (suc (length w.0) ≤ max_catalog_entries)
      × (walk_entry descend (join base entry.name) entry.kind w ≡ ok w1)
      × (walk_entries descend es base w1 ≡ ok w')
unfolding walk_entries
walk_entries-ok descend entry es base w w' e =
    elim (Bool-cases (leb max_catalog_entries (length w.0))) [
      | inl full ↦ absurd (ground arith)
      | inr room ↦
          let (w1, first, rest) =
            >>=-eq-ok (walk_entry descend (join base entry.name) entry.kind w)
              (walk_entries descend es base) (rw room at e) in
          (w1, ground arith, first, rest)
    ]

walk_entries-IsSound :
    (descend : ℕ → List ℕ → Walk → Walks)
    → Keeps descend
    → (es : List RawEntry) (base : List ℕ) (w w' : Walk) → length w.0 ≤ max_catalog_entries
    → Distinct w.1
    → walk_entries descend es base w ≡ ok w'
    → IsSound w'
unfolding walk_entries
walk_entries-IsSound descend keeps [] base w w' few once e = ground arith
walk_entries-IsSound descend keeps (entry ∷ es) base w w' few once e =
    let (w1, room, first, rest) = walk_entries-ok descend entry es base w w' e in
    let sound =
      walk_entry-IsSound descend keeps (join base entry.name) entry.kind w w1 room once first in
    walk_entries-IsSound descend keeps es base w1 w' sound.few sound.once rest

-- Whatever the bytes are: where `push_walk` succeeds from at most 100,000,000 entries and blocks that
-- are visited once each, no more entries are in its result, and no block was visited twice.
pub push_walk-IsSound :
    (left : ℕ) (bytes : List ℕ) (block_pos : ℕ) (base : List ℕ) (w w' : Walk)
    → length w.0 ≤ max_catalog_entries
    → Distinct w.1
    → push_walk left bytes block_pos base w ≡ ok w'
    → IsSound w'
unfolding push_walk
push_walk-IsSound zero bytes block_pos base w w' few once e = cc
push_walk-IsSound (suc left) bytes block_pos base (out, visited) w' few once e =
    elim (Bool-cases (seen block_pos visited)) [
      | inl again ↦ absurd (ground arith)
      | inr fresh ↦
          let (es, read, walked) =
            >>=-eq-ok (read_table bytes block_pos)
              (λ es. walk_entries (push_walk left bytes) es base (out, block_pos ∷ visited))
              (rw fresh at e) in
          walk_entries-IsSound (push_walk left bytes) (push_walk-IsSound left bytes) es base
            (out, block_pos ∷ visited) w' few (fresh, once) walked
    ]

root_entry-IsSound :
    (bytes : List ℕ) (entry : RawEntry) (kind : RawKind) (w w' : Walk)
    → length w.0 ≤ max_catalog_entries
    → Distinct w.1
    → root_entry bytes entry kind w ≡ ok w'
    → IsSound w'
unfolding root_entry
root_entry-IsSound bytes entry (directory child) w w' few once e =
    push_walk-IsSound 1025 bytes child [] w w' few once e
root_entry-IsSound bytes entry (file size mtime) (out, visited) w' few once e =
    ground (arith, length-append out (file_at entry.name size mtime ∷ []))
root_entry-IsSound bytes entry symlink w w' few once e = ground arith
root_entry-IsSound bytes entry hardlink w w' few once e = ground arith
root_entry-IsSound bytes entry other w w' few once e = ground arith

root_entries-IsSound :
    (bytes : List ℕ) (es : List RawEntry) (w w' : Walk)
    → length w.0 ≤ max_catalog_entries
    → Distinct w.1
    → root_entries bytes es w ≡ ok w'
    → IsSound w'
unfolding root_entries
root_entries-IsSound bytes [] w w' few once e = ground arith
root_entries-IsSound bytes (entry ∷ es) w w' few once e =
    let (w1, first, rest) =
      >>=-eq-ok (root_entry bytes entry entry.kind w) (root_entries bytes es) e in
    let sound = root_entry-IsSound bytes entry entry.kind w w1 few once first in
    root_entries-IsSound bytes es w1 w' sound.few sound.once rest

-- `parse_catalog` lists no more than 100,000,000 entries, whatever the bytes are.
pub parse_catalog-bounded :
    (bytes : List ℕ) (out : List ArchiveEntry)
    → parse_catalog bytes ≡ ok out
    → length out ≤ max_catalog_entries
unfolding parse_catalog
parse_catalog-bounded bytes out e =
    let offset = from_le_bytes (drop (length bytes - 8) bytes) in
    elim (Bool-cases (same_text (take 8 bytes) catalog_magic)) [
      | inr wrong ↦ absurd (ground arith)
      | inl magic ↦ elim (Bool-cases (ltb (length bytes) 8)) [
        | inl short ↦ absurd (ground arith)
        | inr long ↦
            let (es, read, parsed) =
              >>=-eq-ok (read_table bytes offset)
                (λ es. root_entries bytes es ([], offset ∷ []) >>= λ w. ok w.0)
                (rw (magic, long) at e) in
            let (w, walked, given) =
              >>=-eq-ok (root_entries bytes es ([], offset ∷ [])) (λ w. ok w.0) parsed in
            let sound =
              root_entries-IsSound bytes es ([], offset ∷ []) w (omega arith) (refl, tt) walked in
            ground (arith, sound.few)
      ]
    ]
