-- ===== src/Io/Range/Positions.antt =====
-- application/src/io/range_reader.rs: `resolve_range` against the positions of the range.
use ailes.Common.{ℕ, ◌<◌, ◌≤◌, Bool, true, false, ◌&&◌, Option, none, some, ltb, leb, ◌≡◌, arith}
use ailes.Common.Machine.{word}
use ailes.Io.Range.{
  Bound, included, excluded, unbounded, checked_sub, checked_add, start_of, end_of, resolve_range,
}

-- Rust's `RangeBounds::contains`.
abbrev pub starts_at : Bound → ℕ → Bool
starts_at (included start) i = leb start i
starts_at (excluded start) i = ltb start i
starts_at unbounded i = true

abbrev pub ends_at : Bound → ℕ → Bool
ends_at (included end) i = leb i end
ends_at (excluded end) i = ltb i end
ends_at unbounded i = true

abbrev pub has_position : Bound × Bound → ℕ → ℕ → Bool
has_position range len i = starts_at range.0 i && (ends_at range.1 i && ltb i len)

abbrev pub is_between : Option (ℕ × ℕ) → ℕ → Bool
is_between none i = false
is_between (some (start, end)) i = leb start i && leb i end

-- The resolved range has exactly the positions of the range that are inside the length, and an error
-- means that there are none.
pub resolve_range-positions :
    (range : Bound × Bound) (len i : ℕ)
    → len < word
    → is_between (resolve_range range len) i ≡ has_position range len i
unfolding resolve_range start_of end_of checked_sub checked_add
resolve_range-positions (included a, included b) len i h = ground arith
resolve_range-positions (included a, excluded b) len i h = ground arith
resolve_range-positions (included a, unbounded) len i h = ground arith
resolve_range-positions (excluded a, included b) len i h = ground arith
resolve_range-positions (excluded a, excluded b) len i h = ground arith
resolve_range-positions (excluded a, unbounded) len i h = ground arith
resolve_range-positions (unbounded, included b) len i h = ground arith
resolve_range-positions (unbounded, excluded b) len i h = ground arith
resolve_range-positions (unbounded, unbounded) len i h = ground arith

-- The positions that it gives are in order and inside the length.
pub resolve_range_bounds :
    (range : Bound × Bound) (len start end : ℕ)
    → resolve_range range len ≡ some (start, end)
    → (start ≤ end) × (end < len)
unfolding resolve_range start_of end_of checked_sub checked_add
resolve_range_bounds (included a, included b) len start end h = ground arith
resolve_range_bounds (included a, excluded b) len start end h = ground arith
resolve_range_bounds (included a, unbounded) len start end h = ground arith
resolve_range_bounds (excluded a, included b) len start end h = ground arith
resolve_range_bounds (excluded a, excluded b) len start end h = ground arith
resolve_range_bounds (excluded a, unbounded) len start end h = ground arith
resolve_range_bounds (unbounded, included b) len start end h = ground arith
resolve_range_bounds (unbounded, excluded b) len start end h = ground arith
resolve_range_bounds (unbounded, unbounded) len start end h = ground arith
