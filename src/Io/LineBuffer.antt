-- ===== src/Io/LineBuffer.antt =====
-- application/src/io/line_buffer.rs: the buffer that turns a byte stream into console lines.
-- A `Vec<u8>` is a list of bytes, a `usize` a number; a slice index out of range is `none`.
pub mod Pending
pub mod Chunks
pub mod Lines
mod Runs
use ailes.Common.{
  ℕ, zero, suc, ◌+◌, ◌-◌, ◌/◌, ◌≤◌, Bool, true, false, ◌&&◌, ◌||◌, Option, none, some, List, [],
  ◌∷◌, ◌++◌, length, take, drop, ltb, leb, ◌==◌, if◌then◌else◌,
}
use mathlib.Core.Option

pub record LineBuffer : Type 0 where
  pub buffer : List ℕ
  pub line_start : ℕ

abbrev pub max_line_length : ℕ
max_line_length = 5120

abbrev pub compact_threshold : ℕ
compact_threshold = 10240

unfoldable pub new : LineBuffer
new = record { buffer = []; line_start = 0 }

unfoldable pub extend : LineBuffer → List ℕ → LineBuffer
extend lb bytes = record lb { buffer = lb.buffer ++ bytes }

-- `slice.get(start..)` and `slice.get(start..end)`.
unfoldable pub get_from : List ℕ → ℕ → Option (List ℕ)
get_from bytes start = if leb start (length bytes) then some (drop start bytes) else none

unfoldable pub get_range : List ℕ → ℕ → ℕ → Option (List ℕ)
get_range bytes start end =
    if leb start end && leb end (length bytes)
    then some (take (end - start) (drop start bytes))
    else none

-- `iter().position(|&b| b == b'\n')`
abbrev pub position_newline : List ℕ → Option ℕ
position_newline [] = none
position_newline (b ∷ bytes) =
    if b == 10 then some 0 else Option.map (λ i. suc i) (position_newline bytes)

-- `u8::is_ascii_whitespace`: tab, line feed, form feed, carriage return, space.
abbrev pub is_ascii_whitespace : ℕ → Bool
is_ascii_whitespace b = b == 9 || (b == 10 || (b == 12 || (b == 13 || b == 32)))

unfoldable pub trim_ascii_start : List ℕ → List ℕ
trim_ascii_start [] = []
trim_ascii_start (b ∷ bytes) =
    let rest = trim_ascii_start bytes in if is_ascii_whitespace b then rest else b ∷ bytes

abbrev pub is_empty : List ℕ → Bool
is_empty [] = true
is_empty (b ∷ bytes) = false

unfoldable pub trim_ascii_end : List ℕ → List ℕ
trim_ascii_end [] = []
trim_ascii_end (b ∷ bytes) =
    let rest = trim_ascii_end bytes in
    if is_ascii_whitespace b && is_empty rest then [] else b ∷ rest

unfoldable pub trim_ascii : List ℕ → List ℕ
unfolding trim_ascii_start trim_ascii_end
trim_ascii bytes = trim_ascii_end (trim_ascii_start bytes)

-- The `match newline`: the line's length and how far the cursor moves.
unfoldable pub cut : Option ℕ → ℕ → Option (ℕ × ℕ)
cut (some pos) available =
    if leb pos max_line_length then some (pos, pos + 1) else some (max_line_length, max_line_length)
cut none available =
    if ltb max_line_length available then some (max_line_length, max_line_length) else none

unfoldable pub next_line : LineBuffer → LineBuffer × Option (List ℕ)
next_line lb = elim (get_from lb.buffer lb.line_start) [
  | none ↦ (lb, none)
  | some rest ↦ elim (cut (position_newline rest) (length lb.buffer - lb.line_start)) [
    | none ↦ (lb, none)
    | some (len, advance) ↦ (
      record lb { line_start = lb.line_start + advance },
      Option.map trim_ascii (get_range lb.buffer lb.line_start (lb.line_start + len)),
    )
  ]
]

unfoldable pub compact : LineBuffer → LineBuffer
compact lb =
    if ltb compact_threshold lb.line_start && ltb (length lb.buffer / 2) lb.line_start
    then record { buffer = drop lb.line_start lb.buffer; line_start = 0 }
    else lb

unfoldable pub flush : LineBuffer → Option (List ℕ)
flush lb = elim (get_from lb.buffer lb.line_start) [
  | none ↦ none
  | some rest ↦ if is_empty rest then none else some (trim_ascii rest)
]
