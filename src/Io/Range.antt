-- ===== src/Io/Range.antt =====
-- application/src/io/range_reader.rs: a range of positions made exact, and the readers of that range
-- of another reader. `none` is the error `invalid range specified`.
pub mod Positions
pub mod Slice
use ailes.Common.{
  ℕ, suc, ◌+◌, ◌-◌, ◌%◌, min, Option, none, some, List, [], length, ltb, ◌==◌, if◌then◌else◌, ◌>>=◌,
}
use ailes.Common.Machine.{word}
use ailes.Io.Readers.{Outcome, got, failed, pending, Read}

pub data Bound : Type 0 where
  included excluded : ℕ → Bound
  unbounded : Bound

unfoldable pub checked_sub : ℕ → ℕ → Option ℕ
checked_sub a b = if ltb a b then none else some (a - b)

unfoldable pub checked_add : ℕ → ℕ → Option ℕ
checked_add a b = if ltb (a + b) word then some (a + b) else none

unfoldable pub start_of : Bound → Option ℕ
start_of (included start) = some start
start_of (excluded start) = checked_add start 1
start_of unbounded = some 0

unfoldable pub end_of : Bound → ℕ → Option ℕ
end_of (included end) last = some (min end last)
end_of (excluded end) last = elim (checked_sub end 1) [ none ↦ none | some e ↦ some (min e last) ]
end_of unbounded last = some last

unfoldable pub resolve_range : Bound × Bound → ℕ → Option (ℕ × ℕ)
resolve_range range len = do
  last ← checked_sub len 1
  start ← start_of range.0
  end ← end_of range.1 last
  if ltb end start then none else some (start, end)

pub record RangeReader (R : Type 0) : Type 0 where
  pub inner : R
  pub start : ℕ
  pub end : ℕ
  pub pos : ℕ

module _ {R : Type 0} where
  -- `seek` is the inner reader's seek from the start, none on an error.
  unfoldable pub new : (R → ℕ → Option R) → R → Bound × Bound → ℕ → Option (RangeReader R)
  new seek inner range len = do
    (start, end) ← resolve_range range len
    moved ← seek inner start
    some (record { inner = moved; start = start; end = end; pos = start })

  unfoldable pub len : RangeReader R → ℕ
  len r = (r.end - r.start + 1) % word

  abbrev pub remaining : RangeReader R → ℕ
  remaining r = (r.end - r.pos + 1) % word

  -- The inner reader after its read, and the position after the bytes that it gave.
  unfoldable pub advance : RangeReader R → R × Outcome → RangeReader R × Outcome
  advance r (inner, got bytes) =
      (record r { inner = inner; pos = (r.pos + length bytes) % word }, got bytes)
  advance r (inner, failed) = (record r { inner = inner }, failed)
  advance r (inner, pending) = (record r { inner = inner }, pending)

  unfoldable pub read : Read R → RangeReader R → ℕ → RangeReader R × Outcome
  read read_inner r n =
      if ltb r.end r.pos then (r, got []) else advance r (read_inner r.inner (min (remaining r) n))

  -- As `read`, but the inner reader is not asked for no byte.
  unfoldable pub poll_read : Read R → RangeReader R → ℕ → RangeReader R × Outcome
  poll_read read_inner r n =
      if ltb r.end r.pos
      then (r, got [])
      else if min (remaining r) n == 0
      then (r, got [])
      else advance r (read_inner r.inner (min (remaining r) n))
