-- ===== src/Io/Fixed.antt =====
-- application/src/io/fixed_reader.rs: readers that give a fixed number of bytes of another reader,
-- with zeros once it ends.
pub mod Padding
use ailes.Common.{ℕ, ◌+◌, ◌-◌, ◌%◌, min, List, [], length, replicate, leb, ◌==◌, if◌then◌else◌}
use ailes.Common.Machine.{word}
use ailes.Io.Readers.{Outcome, got, failed, pending, Read}

pub record FixedReader (R : Type 0) : Type 0 where
  pub inner : R
  pub size : ℕ
  pub bytes_read : ℕ

module _ {R : Type 0} where
  unfoldable pub new_with_fixed_bytes : R → ℕ → FixedReader R
  new_with_fixed_bytes inner size = record { inner = inner; size = size; bytes_read = 0 }

  -- After the inner reader's read of at most `to_read` bytes: zeros if it gave none.
  unfoldable pub fill : FixedReader R → ℕ → R × Outcome → FixedReader R × Outcome
  fill f to_read (inner, got bytes) =
      if length bytes == 0
      then (
        record f { inner = inner; bytes_read = (f.bytes_read + to_read) % word },
        got (replicate to_read 0),
      )
      else (
        record f { inner = inner; bytes_read = (f.bytes_read + length bytes) % word },
        got bytes,
      )
  fill f to_read (inner, failed) = (record f { inner = inner }, failed)
  fill f to_read (inner, pending) = (record f { inner = inner }, pending)

  unfoldable pub read : Read R → FixedReader R → ℕ → FixedReader R × Outcome
  read read_inner f n =
      if leb f.size f.bytes_read
      then (f, got [])
      else let to_read = min n (f.size - f.bytes_read) in
        fill f to_read (read_inner f.inner to_read)

  -- As `read`, but the inner reader is not asked for no byte.
  unfoldable pub poll_read : Read R → FixedReader R → ℕ → FixedReader R × Outcome
  poll_read read_inner f n =
      if leb f.size f.bytes_read
      then (f, got [])
      else let to_read = min n (f.size - f.bytes_read) in
        if to_read == 0 then (f, got []) else fill f to_read (read_inner f.inner to_read)
