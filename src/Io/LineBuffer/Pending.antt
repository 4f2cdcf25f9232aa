-- ===== src/Io/LineBuffer/Pending.antt =====
-- What the line buffer holds back, the bytes from its cursor on, and `next_line` as a function of
-- these bytes alone.
use ailes.Common.{
  ℕ, ◌+◌, ◌-◌, ◌≤◌, ◌<◌, ◌≡◌, refl, sym, inl, inr, Option, none, some, List, [], ◌∷◌, ◌++◌, length,
  take, drop, if◌then◌else◌, arith, length-append, length-drop, Option-cases,
}
use ailes.Common.Slices.{drop-append, take-append, drop-drop}
use ailes.Io.LineBuffer.{
  LineBuffer, is_empty, max_line_length, new, extend, get_from, get_range, position_newline,
  trim_ascii, cut, next_line, compact, flush,
}

-- The bytes that no line has taken yet.
unfoldable pub pending : LineBuffer → List ℕ
pending lb = drop lb.line_start lb.buffer

-- The cursor stays inside the buffer.
abbrev pub IsValid : LineBuffer → Type 0
IsValid lb = lb.line_start ≤ length lb.buffer

-- The first line of a run of bytes and the bytes behind it, or `none` where no line is complete.
unfoldable pub split_line : List ℕ → Option (List ℕ × List ℕ)
split_line bytes = elim (cut (position_newline bytes) (length bytes)) [
  | none ↦ none
  | some (len, advance) ↦ some (trim_ascii (take len bytes), drop advance bytes)
]

pub position_newline-lt :
    (bytes : List ℕ) (i : ℕ) → position_newline bytes ≡ some i → i < length bytes
position_newline-lt [] i e = ground arith
position_newline-lt (b ∷ bytes) i e = ground (arith, position_newline-lt bytes (i - 1))

-- A cut stays inside the bytes and takes one at least.
pub cut_bounds :
    (bytes : List ℕ) (len advance : ℕ)
    → cut (position_newline bytes) (length bytes) ≡ some (len, advance)
    → (len ≤ advance) × (advance ≤ length bytes) × (0 < advance) × (len ≤ max_line_length)
unfolding cut
cut_bounds bytes len advance e = elim (Option-cases (position_newline bytes)) [
  | inl n ↦ ground arith
  | inr (i, p) ↦ ground (arith, position_newline-lt bytes i p)
]

-- More bytes behind a complete line do not change its cut.
position_newline-append :
    (bytes more : List ℕ) (i : ℕ)
    → position_newline bytes ≡ some i
    → position_newline (bytes ++ more) ≡ some i
position_newline-append [] more i e = cc
position_newline-append (b ∷ bytes) more i e =
    ground (arith, position_newline-append bytes more (i - 1))

position_newline-append_none :
    (bytes more : List ℕ) (i : ℕ)
    → position_newline bytes ≡ none
    → position_newline (bytes ++ more) ≡ some i
    → length bytes ≤ i
position_newline-append_none [] more i e f = omega arith
position_newline-append_none (b ∷ bytes) more i e f =
    ground (arith, position_newline-append_none bytes more (i - 1))

pub cut-append :
    (bytes more : List ℕ) (p : ℕ × ℕ)
    → cut (position_newline bytes) (length bytes) ≡ some p
    → cut (position_newline (bytes ++ more)) (length (bytes ++ more)) ≡ some p
unfolding cut
cut-append bytes more p e = elim (Option-cases (position_newline bytes)) [
  | inl n ↦ elim (Option-cases (position_newline (bytes ++ more))) [
    | inl n' ↦ ground (arith, length-append bytes more)
    | inr (i, q) ↦ ground (arith, position_newline-append_none bytes more i n q)
  ]
  | inr (i, q) ↦ ground (arith, position_newline-append bytes more i q)
]

-- A complete line stays the same when more bytes arrive, which then stand behind the rest.
pub split_line-append :
    (bytes more line rest : List ℕ)
    → split_line bytes ≡ some (line, rest)
    → split_line (bytes ++ more) ≡ some (line, rest ++ more)
unfolding split_line
split_line-append bytes more line rest e =
    elim (Option-cases (cut (position_newline bytes) (length bytes))) [
      | inl n ↦ absurd (ground arith)
      | inr ((len, advance), c) ↦
          let (h1, h2, h3, h4) = cut_bounds bytes len advance c in
          ground (
            arith,
            cut-append bytes more (len, advance) c,
            take-append len bytes more (omega arith),
            drop-append advance bytes more h2,
          )
    ]

-- What a call of `next_line` answers for the pending bytes.
abbrev pub Takes : LineBuffer → LineBuffer × Option (List ℕ) → Option (List ℕ × List ℕ) → Type 0
Takes lb (lb', answer) none = (lb' ≡ lb) × (answer ≡ none)
Takes lb (lb', answer) (some (line, rest)) =
    (answer ≡ some line) × (pending lb' ≡ rest) × IsValid lb' × (length rest < length (pending lb))

module _ (lb : LineBuffer) (v : IsValid lb) where
  rest_size : length (pending lb) ≡ length lb.buffer - lb.line_start
  unfolding pending
  rest_size = length-drop lb.line_start lb.buffer

  get_from_valid : get_from lb.buffer lb.line_start ≡ some (pending lb)
  unfolding pending get_from
  get_from_valid = ground arith

  get_range_valid :
      (len : ℕ)
      → len ≤ length (pending lb)
      → get_range lb.buffer lb.line_start (lb.line_start + len) ≡ some (take len (pending lb))
  unfolding pending get_range
  get_range_valid len h =
      let e : lb.line_start + len - lb.line_start ≡ len = omega arith in
      rw e (ground (arith, rest_size))

  next_line-none :
      cut (position_newline (pending lb)) (length (pending lb)) ≡ none → next_line lb ≡ (lb, none)
  unfolding next_line
  next_line-none c =
      rw (get_from_valid, next_line) (rw (← rest_size, next_line) (rw (c, next_line) refl))

  next_line-some :
      (len advance : ℕ)
      → cut (position_newline (pending lb)) (length (pending lb)) ≡ some (len, advance)
      → len ≤ length (pending lb)
      → next_line lb ≡ (
        record lb { line_start = lb.line_start + advance },
        some (trim_ascii (take len (pending lb))),
      )
  unfolding next_line
  next_line-some len advance c h =
      rw (get_from_valid, next_line)
        (rw (← rest_size, next_line) (rw (c, next_line) (rw (get_range_valid len h) refl)))

-- `next_line` on a valid buffer takes the first line of the pending bytes.
pub next_line-Takes :
    (lb : LineBuffer) → IsValid lb → Takes lb (next_line lb) (split_line (pending lb))
unfolding split_line
next_line-Takes lb v =
    elim (Option-cases (cut (position_newline (pending lb)) (length (pending lb)))) [
      | inl n ↦ rw (next_line-none lb v n) (rw (n, split_line) (refl, refl))
      | inr ((len, advance), c) ↦
          let (h1, h2, h3, h4) = cut_bounds (pending lb) len advance c in
          rw (next_line-some lb v len advance c (omega arith)) (
            rw (c, split_line)
              (
                refl,
                unfold pending in sym (drop-drop advance lb.line_start lb.buffer),
                omega (arith, rest_size lb v),
                omega (arith, length-drop advance (pending lb)),
              ))
    ]

pub new-IsValid : IsValid new
unfolding new
new-IsValid = omega arith

pub extend-IsValid : (lb : LineBuffer) (bytes : List ℕ) → IsValid lb → IsValid (extend lb bytes)
unfolding extend
extend-IsValid lb bytes v = omega (arith, length-append lb.buffer bytes)

-- `extend` puts the bytes behind the pending ones.
pub pending-extend :
    (lb : LineBuffer) (bytes : List ℕ)
    → IsValid lb
    → pending (extend lb bytes) ≡ pending lb ++ bytes
unfolding extend pending
pending-extend lb bytes v = drop-append lb.line_start lb.buffer bytes v

-- `compact` forgets only bytes that lines have taken.
pub compact-pending :
    (lb : LineBuffer) → IsValid lb → (pending (compact lb) ≡ pending lb) × IsValid (compact lb)
unfolding compact pending
compact-pending lb v = ground arith

-- `flush` answers the trimmed rest, and nothing where no byte is left.
pub flush-pending :
    (lb : LineBuffer)
    → IsValid lb
    → flush lb ≡ (if is_empty (pending lb) then none else some (trim_ascii (pending lb)))
unfolding flush
flush-pending lb v = rw (get_from_valid lb v, flush) refl
