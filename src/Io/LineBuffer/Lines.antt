-- ===== src/Io/LineBuffer/Lines.antt =====
-- The shape of a line of application/src/io/line_buffer.rs: its length, and no line feed inside.
use ailes.Common.{
  ℕ, zero, suc, ◌-◌, ◌≤◌, ◌≡◌, ◌≢◌, inl, inr, none, some, List, [], ◌∷◌, length, take, All, arith,
  length-take, Option-cases,
}
use ailes.Io.LineBuffer.{
  max_line_length, position_newline, trim_ascii_start, trim_ascii_end, trim_ascii, cut,
}
use ailes.Io.LineBuffer.Pending.{split_line, cut_bounds}
use ailes.Io.LineBuffer.Chunks.{Splits, stop, line}

abbrev NoNewline : ℕ → Type 0
NoNewline b = b ≢ 10

take_before_newline :
    (bytes : List ℕ) (i len : ℕ)
    → position_newline bytes ≡ some i
    → len ≤ i
    → All NoNewline (take len bytes)
take_before_newline bytes i zero e h = tt
take_before_newline [] i (suc len) e h = tt
take_before_newline (b ∷ bytes) i (suc len) e h =
    ground (arith, take_before_newline bytes (i - 1) len)

take_without_newline :
    (bytes : List ℕ) (len : ℕ) → position_newline bytes ≡ none → All NoNewline (take len bytes)
take_without_newline bytes zero e = tt
take_without_newline [] (suc len) e = tt
take_without_newline (b ∷ bytes) (suc len) e = ground (arith, take_without_newline bytes len)

module _ (P : ℕ → Type 0) where
  trim_ascii_start-All : (bytes : List ℕ) → All P bytes → All P (trim_ascii_start bytes)
  unfolding trim_ascii_start
  trim_ascii_start-All [] h = tt
  trim_ascii_start-All (b ∷ bytes) h = ground (arith, trim_ascii_start-All bytes h.1)

  trim_ascii_end-All : (bytes : List ℕ) → All P bytes → All P (trim_ascii_end bytes)
  unfolding trim_ascii_end
  trim_ascii_end-All [] h = tt
  trim_ascii_end-All (b ∷ bytes) h = ground (arith, trim_ascii_end-All bytes h.1)

length-trim_ascii_start-le : (bytes : List ℕ) → length (trim_ascii_start bytes) ≤ length bytes
unfolding trim_ascii_start
length-trim_ascii_start-le [] = omega arith
length-trim_ascii_start-le (b ∷ bytes) = ground (arith, length-trim_ascii_start-le bytes)

length-trim_ascii_end-le : (bytes : List ℕ) → length (trim_ascii_end bytes) ≤ length bytes
unfolding trim_ascii_end
length-trim_ascii_end-le [] = omega arith
length-trim_ascii_end-le (b ∷ bytes) = ground (arith, length-trim_ascii_end-le bytes)

abbrev pub IsLine : List ℕ → Type 0
IsLine l = (length l ≤ max_line_length) × All NoNewline l

trim_ascii-IsLine : (bytes : List ℕ) → IsLine bytes → IsLine (trim_ascii bytes)
unfolding trim_ascii
trim_ascii-IsLine bytes (short, clean) = (
  omega
      (arith, length-trim_ascii_end-le (trim_ascii_start bytes), length-trim_ascii_start-le bytes),
  trim_ascii_end-All NoNewline (trim_ascii_start bytes)
      (trim_ascii_start-All NoNewline bytes clean),
)

cut-NoNewline :
    (bytes : List ℕ) (len advance : ℕ)
    → cut (position_newline bytes) (length bytes) ≡ some (len, advance)
    → All NoNewline (take len bytes)
unfolding cut
cut-NoNewline bytes len advance e = elim (Option-cases (position_newline bytes)) [
  | inl n ↦ take_without_newline bytes len n
  | inr (i, p) ↦ take_before_newline bytes i len p (ground arith)
]

split_line-IsLine : (bytes l rest : List ℕ) → split_line bytes ≡ some (l, rest) → IsLine l
unfolding split_line
split_line-IsLine bytes l rest e =
    elim (Option-cases (cut (position_newline bytes) (length bytes))) [
      | inl n ↦ absurd (ground arith)
      | inr ((len, advance), c) ↦
          let (h1, h2, h3, h4) = cut_bounds bytes len advance c in
          let fine =
            trim_ascii-IsLine (take len bytes)
              (omega (arith, length-take len bytes), cut-NoNewline bytes len advance c) in
          ground (arith, fine)
    ]

-- Each line of a stream has at most `max_line_length` bytes, none of them a line feed.
pub Splits-IsLine : {bytes end : List ℕ} {ls : List (List ℕ)} → Splits bytes ls end → All IsLine ls
Splits-IsLine (stop e) = tt
Splits-IsLine (line {bytes = bytes} {l = l} {rest = rest} e s) =
    (split_line-IsLine bytes l rest e, Splits-IsLine s)
