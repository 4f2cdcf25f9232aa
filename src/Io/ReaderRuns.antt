-- ===== src/Io/ReaderRuns.antt =====
-- Concrete readers: the properties at inputs where their conditions hold. The inner reader holds the
-- bytes that are left, and gives as many as fit.
use ailes.Common.{
  ◌/◌, ◌-◌, ℕ, ◌+◌, ◌*◌, ◌≤◌, min, Bool, true, false, Option, some, List, [], ◌∷◌, length,
  length-take, take, drop, ◌≡◌, refl, arith, sym, ap, ◌∙◌, Bool-cases, leb, inl, inr,
}
use ailes.Common.Slices.{take-take, take_all, drop_all}
use ailes.Common.Machine.{second, or_default}
use ailes.Io.Readers.{got, Read, IsStream, read_all, positives, bytes_of}
use ailes.Io.Range
use ailes.Io.Range.Slice.{new-read_all, slice}
use ailes.Io.Fixed
use ailes.Io.Fixed.Padding.{fixed-read_all, pad}
use ailes.Io.Limited
use ailes.Io.Limited.Stretches.{Poll}
use ailes.Io.Limited.Polls.{polls_rate, polls}

abbrev file_read : Read (List ℕ)
file_read xs n = (drop n xs, got (take n xs))

fits : (n : ℕ) (xs : List ℕ) → take n xs ≡ take (min n (length xs)) xs
fits n xs = sym (ap (take n) (take_all (length xs) xs (omega arith))) ∙ take-take n (length xs) xs

drops : (n : ℕ) (xs : List ℕ) → drop n xs ≡ drop (min n (length xs)) xs
drops n xs = elim (Bool-cases (leb n (length xs))) [
  | inl t ↦ ap (λ i. drop i xs) (ground (arith, t))
  | inr f ↦
      drop_all n xs (ground (arith, f)) ∙ sym (drop_all (min n (length xs)) xs (ground (arith, f)))
]

abbrev file_stream : IsStream file_read
file_stream = record {
  rest = λ xs. xs;
  yields = λ xs n.
      (min n (length xs), ap got (fits n xs), drops n xs, omega arith, omega arith, omega arith);
}

abbrev five : List ℕ
five = 10 ∷ 11 ∷ 12 ∷ 13 ∷ 14 ∷ []

abbrev file_seek : List ℕ → ℕ → Option (List ℕ)
file_seek xs p = some (drop p five)

abbrev middle : Range.Bound × Range.Bound
middle = (Range.excluded 0, Range.included 3)

abbrev reader0 : Range.RangeReader (List ℕ)
reader0 = record { inner = 11 ∷ 12 ∷ 13 ∷ 14 ∷ []; start = 1; end = 3; pos = 1 }

new-reader0 : Range.new file_seek five middle 5 ≡ some reader0
unfolding Range.new Range.resolve_range Range.start_of Range.end_of Range.checked_add
    Range.checked_sub
new-reader0 = refl

reads-reader0 : read_all (Range.read file_read) reader0 (2 ∷ 2 ∷ 2 ∷ []) ≡ 11 ∷ 12 ∷ 13 ∷ []
unfolding Range.read Range.advance
reads-reader0 = refl

seeks : (s : List ℕ) (p : ℕ) → (t : List ℕ) × (file_seek s p ≡ some t) × (t ≡ drop p five)
seeks s p = (drop p five, refl, refl)

new-read_all_example :
    (Range.resolve_range middle 5 ≡ some (1, 3))
    × (length (slice file_read file_stream five file_seek seeks reader0) ≡ Range.len reader0)
    × ((k : ℕ) × (read_all (Range.read file_read) reader0 (2 ∷ 2 ∷ [])
          ≡ take k (slice file_read file_stream five file_seek seeks reader0))
        × (min (Range.len reader0) (positives (2 ∷ 2 ∷ [])) ≤ k))
    × ((k : ℕ) × (read_all (Range.poll_read file_read) reader0 (2 ∷ 2 ∷ [])
          ≡ take k (slice file_read file_stream five file_seek seeks reader0))
        × (min (Range.len reader0) (positives (2 ∷ 2 ∷ [])) ≤ k))
new-read_all_example =
    new-read_all file_read file_stream five file_seek seeks five middle reader0 (2 ∷ 2 ∷ [])
      (ground arith) new-reader0

-- Of two bytes and four zeros.
fixed-read_all_example :
    (length (pad 6 (10 ∷ 11 ∷ [])) ≡ 6)
    × ((k : ℕ) × (read_all
            (Fixed.read file_read)
            (Fixed.new_with_fixed_bytes (10 ∷ 11 ∷ []) 6)
            (4 ∷ 4 ∷ [])
          ≡ take k (pad 6 (10 ∷ 11 ∷ [])))
        × (min 6 (positives (4 ∷ 4 ∷ [])) ≤ k))
    × ((k : ℕ) × (read_all
            (Fixed.poll_read file_read)
            (Fixed.new_with_fixed_bytes (10 ∷ 11 ∷ []) 6)
            (4 ∷ 4 ∷ [])
          ≡ take k (pad 6 (10 ∷ 11 ∷ [])))
        × (min 6 (positives (4 ∷ 4 ∷ [])) ≤ k))
fixed-read_all_example =
    fixed-read_all file_read file_stream (10 ∷ 11 ∷ []) 6 (4 ∷ 4 ∷ []) (ground arith)

file_bounded : (xs : List ℕ) (n : ℕ) → length (bytes_of (file_read xs n).1) ≤ n
file_bounded xs n = omega (arith, length-take n xs)

abbrev times0 : List (ℕ × ℕ × ℕ)
times0 = (6, 6, 3) ∷ (7, 5 + second, 3) ∷ []

abbrev poll0 : ℕ → Bool → ℕ → Poll
poll0 woken fired now = record {
  woken = woken;
  fired = fired;
  now = now;
  later = now;
  fires = false;
  buffer = 3;
}

-- The second poll is pending, and the third finds its delay fired.
abbrev polls0 : List Poll
polls0 = poll0 7 false 7 ∷ poll0 (5 + second) true (6 + second) ∷ []

polls_rate_example :
    (polls file_read file_bounded
      (polls file_read file_bounded
        (Limited.new_with_bytes_per_second 5 five 2)
        (poll0 6 false 6 ∷ [])).0
      polls0).1
    ≤ 2 * ((6 + second - 7) / second + 2)
unfolding Limited.poll_read Limited.poll_window Limited.open_window Limited.expire Limited.restart
    Limited.budget Limited.charge Limited.spend Limited.new_with_bytes_per_second
polls_rate_example =
    polls_rate file_read file_bounded 5 2 five (poll0 6 false 6 ∷ []) polls0 7 (6 + second)
      (ground arith) (ground arith) refl refl refl

-- A writer that keeps what it is given.
abbrev file_write : List ℕ → List ℕ → List ℕ × Option ℕ
file_write written buf = (buf, some (length buf))

write_bounded : (written buf : List ℕ) → or_default 0 (file_write written buf).1 ≤ length buf
write_bounded written buf = omega arith

abbrev writes0 : List (ℕ × ℕ × List ℕ)
writes0 = (6, 6, five) ∷ (7, 5 + second, five) ∷ []
