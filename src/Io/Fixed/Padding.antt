-- ===== src/Io/Fixed/Padding.antt =====
-- application/src/io/fixed_reader.rs: the readers give the inner reader's bytes, padded with zeros.
use ailes.Common.{
  ℕ, zero, suc, ◌+◌, ◌-◌, ◌%◌, ◌<◌, ◌≤◌, min, List, [], ◌∷◌, length, take, drop, replicate, leb,
  ◌==◌, ◌≡◌, refl, arith, length-take, ap, ap₂, ◌∙◌, sym, Bool-cases, inl, inr,
}
use ailes.Common.Machine.{word}
use ailes.Common.Slices.{drop-nil}
use ailes.Io.Readers.{Outcome, got, Read, Yields, IsStream, read_all, positives, read_all-takes}
use ailes.Io.Fixed.{FixedReader, new_with_fixed_bytes, fill, read, poll_read}

-- The first `m` bytes, with zeros behind the last.
abbrev pub pad : ℕ → List ℕ → List ℕ
pad zero xs = []
pad (suc m) [] = 0 ∷ pad m []
pad (suc m) (x ∷ xs) = x ∷ pad m xs

length-pad : (m : ℕ) (xs : List ℕ) → length (pad m xs) ≡ m
length-pad zero xs = refl
length-pad (suc m) [] = ap suc (length-pad m [])
length-pad (suc m) (x ∷ xs) = ap suc (length-pad m xs)

take-pad : (k m : ℕ) (xs : List ℕ) → k ≤ length xs → k ≤ m → take k (pad m xs) ≡ take k xs
take-pad zero m xs h l = refl
take-pad (suc k) zero xs h l = absurd (omega arith)
take-pad (suc k) (suc m) [] h l = absurd (omega arith)
take-pad (suc k) (suc m) (x ∷ xs) h l =
    ap (λ ys. x ∷ ys) (take-pad k m xs (omega arith) (omega arith))

drop-pad : (k m : ℕ) (xs : List ℕ) → drop k (pad m xs) ≡ pad (m - k) (drop k xs)
drop-pad zero m xs = ap (λ i. pad i xs) (omega arith)
drop-pad (suc k) zero xs = ap (λ i. pad i (drop (suc k) xs)) {x = 0} {y = 0 - suc k} (omega arith)
drop-pad (suc k) (suc m) [] =
    drop-pad k m []
    ∙ rw (drop-nil k) (ap (λ i. pad i []) {x = m - k} {y = suc m - suc k} (omega arith))
drop-pad (suc k) (suc m) (x ∷ xs) = drop-pad k m xs ∙ ap (λ i. pad i (drop k xs)) (omega arith)

take-pad_nil : (k m : ℕ) → k ≤ m → take k (pad m []) ≡ replicate k 0
take-pad_nil zero m l = refl
take-pad_nil (suc k) zero l = absurd (omega arith)
take-pad_nil (suc k) (suc m) l = ap (λ ys. 0 ∷ ys) (take-pad_nil k m (omega arith))

nil_of_length : (xs : List ℕ) → length xs ≡ 0 → xs ≡ []
nil_of_length [] h = refl
nil_of_length (x ∷ xs) h = absurd (omega arith)

module _ {R : Type 0} (read_inner : Read R) (stream : IsStream read_inner) where
  abbrev pub IsValid : FixedReader R → Type 0
  IsValid f = (f.bytes_read ≤ f.size) × (f.size < word)

  abbrev pub rest : FixedReader R → List ℕ
  rest f = pad (f.size - f.bytes_read) (stream.rest f.inner)

  abbrev Keeps : FixedReader R → ℕ → FixedReader R × Outcome → Type 0
  Keeps f n (f', o) = Yields (rest f) n (rest f') o × IsValid f'

  idle :
      (f : FixedReader R) (n : ℕ)
      → IsValid f
      → min n (f.size - f.bytes_read) ≡ 0
      → Keeps f n (f, got [])
  idle f n v z =
      let count = length-pad (f.size - f.bytes_read) (stream.rest f.inner) in
      ((0, refl, refl, omega arith, omega arith, omega (arith, count)), v)

  -- What the zeros are when the inner reader gives nothing: it was asked for none, or it ended.
  zeros :
      (asked left : ℕ) (whole : List ℕ)
      → asked ≤ left
      → min 1 (min asked (length whole)) ≡ 0
      → (replicate asked 0 ≡ take asked (pad left whole)) × (whole ≡ drop asked whole)
  zeros zero left whole l h = (refl, refl)
  zeros (suc n) left whole l h =
      let none_left : whole ≡ [] = nil_of_length whole (omega arith) in
      (
        sym (ap (λ xs. take (suc n) (pad left xs)) none_left ∙ take-pad_nil (suc n) left l),
        none_left ∙ sym (ap (drop (suc n)) none_left),
      )

  fill-Keeps :
      (f : FixedReader R) (n : ℕ)
      → IsValid f
      → Keeps f n (
          fill f
            (min n (f.size - f.bytes_read))
            (read_inner f.inner (min n (f.size - f.bytes_read))))
  unfolding fill
  fill-Keeps f n v =
      let left = f.size - f.bytes_read in
      let asked = min n left in
      let (k, o, after, most, there, least) = stream.yields f.inner asked in
      let whole = stream.rest f.inner in
      let count : length (take k whole) ≡ k = omega (arith, length-take k whole) in
      let size = length-pad left whole in
      elim (Bool-cases (length (take k whole) == 0)) [
        | inl t ↦
            let k_zero : k ≡ 0 = ground (arith, count) in
            let (padded, gone) = zeros asked left whole (omega arith) (omega arith) in
            let at : (f.bytes_read + asked) % word ≡ f.bytes_read + asked = omega arith in
            rw (o, t, fill)
              (
                (
                  asked,
                  ap got padded,
                  ap₂ pad {x = f.size - (f.bytes_read + asked) % word} {y = left - asked}
                        (omega (arith, at)) (after ∙ ap (λ i. drop i whole) k_zero ∙ gone)
                      ∙ sym (drop-pad asked left whole),
                  omega arith,
                  omega (arith, size),
                  omega (arith, size),
                ),
                (omega (arith, at), v.1),
              )
        | inr t ↦
            let at : (f.bytes_read + length (take k whole)) % word ≡ f.bytes_read + k =
              omega (arith, count) in
            let positive : 0 < k = ground (arith, count) in
            rw (o, t, fill)
              (
                (
                  k,
                  ap got (sym (take-pad k left whole there (omega arith))),
                  ap₂ pad {x = f.size - (f.bytes_read + length (take k whole)) % word}
                        {y = left - k} (omega (arith, at)) after
                      ∙ sym (drop-pad k left whole),
                  omega arith,
                  omega (arith, size),
                  omega (arith, size),
                ),
                (omega (arith, at), v.1),
              )
      ]

  read-Keeps : (f : FixedReader R) (n : ℕ) → IsValid f → Keeps f n (read read_inner f n)
  unfolding read
  read-Keeps f n v = elim (Bool-cases (leb f.size f.bytes_read)) [
    | inl t ↦ rw (t, read) (idle f n v (ground arith))
    | inr g ↦ rw (g, read) (fill-Keeps f n v)
  ]

  poll_read-Keeps : (f : FixedReader R) (n : ℕ) → IsValid f → Keeps f n (poll_read read_inner f n)
  unfolding poll_read
  poll_read-Keeps f n v = elim (Bool-cases (leb f.size f.bytes_read)) [
    | inl t ↦ rw (t, poll_read) (idle f n v (ground arith))
    | inr g ↦ elim (Bool-cases (min n (f.size - f.bytes_read) == 0)) [
      | inl z ↦ rw (g, z, poll_read) (idle f n v (ground arith))
      | inr p ↦ rw (g, p, poll_read) (fill-Keeps f n v)
    ]
  ]

  -- A reader of `size` bytes gives the bytes of the inner reader, cut to `size` or with zeros behind
  -- them: every run of reads a beginning of them, and all after as many reads as `size`, with buffers
  -- that are not empty. The asynchronous reader does the same. `size` is a machine word and the inner
  -- reader does what it promises.
  pub fixed-read_all :
      (inner : R) (size : ℕ) (ns : List ℕ)
      → size < word
      → (length (pad size (stream.rest inner)) ≡ size)
        × ((k : ℕ) × (read_all (read read_inner) (new_with_fixed_bytes inner size) ns
              ≡ take k (pad size (stream.rest inner)))
            × (min size (positives ns) ≤ k))
        × ((k : ℕ) × (read_all (poll_read read_inner) (new_with_fixed_bytes inner size) ns
              ≡ take k (pad size (stream.rest inner)))
            × (min size (positives ns) ≤ k))
  unfolding new_with_fixed_bytes
  fixed-read_all inner size ns b =
      let f = new_with_fixed_bytes inner size in
      let valid : IsValid f = (omega arith, b) in
      let count = length-pad size (stream.rest inner) in
      let same : pad (size - 0) (stream.rest inner) ≡ pad size (stream.rest inner) =
        ap (λ i. pad i (stream.rest inner)) (omega arith) in
      let (k, sync, enough) = read_all-takes (read read_inner) IsValid rest read-Keeps ns f valid in
      let (m, async, enough') =
        read_all-takes (poll_read read_inner) IsValid rest poll_read-Keeps ns f valid in
      (
        count,
        (k, sync ∙ ap (take k) same, omega (arith, ap length same, count)),
        (m, async ∙ ap (take m) same, omega (arith, ap length same, count)),
      )
