-- ===== src/Io/Range/Slice.antt =====
-- application/src/io/range_reader.rs: the readers of a range give the bytes of the range.
use ailes.Common.{
  ℕ, suc, ◌+◌, ◌-◌, ◌%◌, ◌<◌, ◌≤◌, min, false, Option, some, List, [], length, take, drop, ltb,
  ◌==◌, ◌≡◌, refl, arith, length-take, length-drop, ap, ap₂, ◌∙◌, sym, Bool-cases, Option-cases,
  inl, inr,
}
use ailes.Common.Machine.{word}
use ailes.Common.Slices.{take-take, drop-take}
use ailes.Io.Readers.{Outcome, got, Read, Yields, IsStream, read_all, positives, read_all-takes}
use ailes.Io.Range.{
  Bound, RangeReader, resolve_range, new, len, remaining, advance, read, poll_read,
}
use ailes.Io.Range.Positions.{resolve_range_bounds}

module _ {R : Type 0} (read_inner : Read R) (stream : IsStream read_inner) where
  abbrev pub IsValid : RangeReader R → Type 0
  IsValid r = (r.pos ≤ r.end + 1) × (suc r.end < word)

  -- What is left of the range.
  abbrev pub rest : RangeReader R → List ℕ
  rest r = take (r.end + 1 - r.pos) (stream.rest r.inner)

  abbrev Keeps : RangeReader R → ℕ → RangeReader R × Outcome → Type 0
  Keeps r n (r', o) = Yields (rest r) n (rest r') o × IsValid r'

  nothing :
      (r : RangeReader R) (n : ℕ)
      → IsValid r
      → min (r.end + 1 - r.pos) n ≡ 0
      → Keeps r n (r, got [])
  nothing r n v z =
      let few : length (rest r) ≤ r.end + 1 - r.pos =
        omega (arith, length-take (r.end + 1 - r.pos) (stream.rest r.inner)) in
      ((0, refl, refl, omega arith, omega arith, omega arith), v)

  advances :
      (r : RangeReader R) (n : ℕ)
      → IsValid r
      → Keeps r n (advance r (read_inner r.inner (min (r.end + 1 - r.pos) n)))
  unfolding advance
  advances r n v =
      let left = r.end + 1 - r.pos in
      let asked = min left n in
      let (k, o, after, most, there, least) = stream.yields r.inner asked in
      let whole = stream.rest r.inner in
      let count : length (take k whole) ≡ k = omega (arith, length-take k whole) in
      let size = length-take left whole in
      let moved : (r.pos + length (take k whole)) % word ≡ r.pos + k = omega (arith, count) in
      rw (o, advance)
        (
          (
            k,
            ap got (sym (take-take k left whole ∙ ap (λ i. take i whole) (omega arith))),
            ap₂ (λ p t. take (r.end + 1 - p) t) moved after
                ∙ ap (λ i. take i (drop k whole)) {x = r.end + 1 - (r.pos + k)} {y = left - k}
                    (omega arith)
                ∙ sym (drop-take k left whole),
            omega arith,
            omega (arith, size),
            omega (arith, size),
          ),
          (omega (arith, moved), v.1),
        )

  min-remaining :
      (r : RangeReader R) (n : ℕ)
      → IsValid r
      → ltb r.end r.pos ≡ false
      → min (remaining r) n ≡ min (r.end + 1 - r.pos) n
  min-remaining r n v f = ground arith

  read-Keeps : (r : RangeReader R) (n : ℕ) → IsValid r → Keeps r n (read read_inner r n)
  unfolding read
  read-Keeps r n v = elim (Bool-cases (ltb r.end r.pos)) [
    | inl t ↦ rw (t, read) (nothing r n v (ground arith))
    | inr f ↦ rw (f, min-remaining r n v f, read) (advances r n v)
  ]

  poll_read-Keeps : (r : RangeReader R) (n : ℕ) → IsValid r → Keeps r n (poll_read read_inner r n)
  unfolding poll_read
  poll_read-Keeps r n v = elim (Bool-cases (ltb r.end r.pos)) [
    | inl t ↦ rw (t, poll_read) (nothing r n v (ground arith))
    | inr f ↦ elim (Bool-cases (min (r.end + 1 - r.pos) n == 0)) [
      | inl z ↦ rw (f, min-remaining r n v f, z, poll_read) (nothing r n v (ground arith))
      | inr p ↦ rw (f, min-remaining r n v f, p, poll_read) (advances r n v)
    ]
  ]

  module _ (content : List ℕ) (seek : R → ℕ → Option R)
      (seeks : (s : R) (p : ℕ)
        → (t : R) × (seek s p ≡ some t) × (stream.rest t ≡ drop p content)) where
    abbrev pub slice : RangeReader R → List ℕ
    slice r = take (len r) (drop r.start content)

    new-start :
        (inner : R) (range : Bound × Bound) (r : RangeReader R)
        → length content < word
        → new seek inner range (length content) ≡ some r
        → (resolve_range range (length content) ≡ some (r.start, r.end))
          × (r.pos ≡ r.start)
          × (stream.rest r.inner ≡ drop r.start content)
    unfolding new
    new-start inner range r b e = elim (Option-cases (resolve_range range (length content))) [
      | inl n ↦ absurd (ground arith)
      | inr ((start, end), q) ↦ let (t, s, at) = seeks inner start in ground (arith, q, s, at)
    ]

    -- A reader of a range of a file gives the bytes of the positions of the range that are inside the
    -- file, `len` many, in order: every run of reads a beginning of them, and all after as many reads
    -- as there are bytes, with buffers that are not empty. The asynchronous reader does the same. The
    -- file is shorter than a word, and its seek and its reads do what they promise.
    pub new-read_all :
        (inner : R) (range : Bound × Bound) (r : RangeReader R) (ns : List ℕ)
        → length content < word
        → new seek inner range (length content) ≡ some r
        → (resolve_range range (length content) ≡ some (r.start, r.end))
          × (length (slice r) ≡ len r)
          × ((k : ℕ) × (read_all (read read_inner) r ns ≡ take k (slice r))
              × (min (len r) (positives ns) ≤ k))
          × ((k : ℕ) × (read_all (poll_read read_inner) r ns ≡ take k (slice r))
              × (min (len r) (positives ns) ≤ k))
    unfolding len
    new-read_all inner range r ns b e =
        let (q, at, bytes) = new-start inner range r b e in
        let (ordered, inside) = resolve_range_bounds range (length content) r.start r.end q in
        let valid : IsValid r = (omega (arith, at), omega arith) in
        let same : rest r ≡ slice r =
          ap₂ (λ i xs. take i xs) {x = r.end + 1 - r.pos} {y = len r} (omega (arith, at)) bytes in
        let size : length (slice r) ≡ len r =
          omega (arith, length-take (len r) (drop r.start content), length-drop r.start content) in
        let (k, sync, enough) =
          read_all-takes (read read_inner) IsValid rest read-Keeps ns r valid in
        let (m, async, enough') =
          read_all-takes (poll_read read_inner) IsValid rest poll_read-Keeps ns r valid in
        (
          q,
          size,
          (k, sync ∙ ap (take k) same, omega (arith, ap length same, size)),
          (m, async ∙ ap (take m) same, omega (arith, ap length same, size)),
        )
