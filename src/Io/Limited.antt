-- ===== src/Io/Limited.antt =====
-- application/src/io/limited_reader.rs and limited_writer.rs: readers and a writer that pass at most
-- so many bytes in a window of a second. A call takes the times at which it reads the clock, and for
-- a delay whether it has fired when it is polled.
pub mod Rate
pub mod Stretches
pub mod Polls
pub mod Writes
use ailes.Common.{
  ℕ, ◌+◌, ◌-◌, ◌%◌, min, Bool, true, false, Option, none, some, List, [], length, take, ltb, leb,
  ◌==◌, if◌then◌else◌,
}
use ailes.Common.Machine.{second, word}
use ailes.Io.Readers.{Outcome, got, failed, pending, Read}

-- The window: the limit, the window's start, and the bytes that were passed in it.
pub record Window : Type 0 where
  pub bytes_per_second : ℕ
  pub window_start : ℕ
  pub bytes_in_window : ℕ

pub record LimitedReader (R : Type 0) : Type 0 where
  pub inner : R
  pub window : Window
  -- The asynchronous reader's delay, by the time at which it fires.
  pub delay_future : Option ℕ

module _ {R : Type 0} where
  unfoldable pub new_with_bytes_per_second : ℕ → R → ℕ → LimitedReader R
  new_with_bytes_per_second now inner bytes_per_second = record {
    inner = inner;
    window = record {
      bytes_per_second = bytes_per_second;
      window_start = now;
      bytes_in_window = 0;
    };
    delay_future = none;
  }

-- `-` in two's complement.
abbrev pub wrapping_sub : ℕ → ℕ → ℕ
wrapping_sub a b = if ltb a b then a + word - b else a - b

unfoldable pub restart : ℕ → Window → Window
restart now w = record w { window_start = now; bytes_in_window = 0 }

-- A window that is a second old ends.
unfoldable pub expire : ℕ → Window → Window
expire now w = if leb second (now - w.window_start) then restart now w else w

unfoldable pub budget : Window → ℕ
budget w = wrapping_sub w.bytes_per_second w.bytes_in_window

-- The window in which a call passes its bytes: if nothing is left of this one, it sleeps until
-- `woken`.
unfoldable pub open_window : ℕ → ℕ → Window → Window
open_window now woken w = let w' = expire now w in if budget w' == 0 then restart woken w' else w'

unfoldable pub spend : ℕ → Window → Window
spend bytes w = record w { bytes_in_window = (w.bytes_in_window + bytes) % word }

module _ {R : Type 0} where
  -- The inner reader after its read in the window `w`.
  unfoldable pub charge : LimitedReader R → Window → R × Outcome → LimitedReader R × Outcome
  charge r w (inner, got bytes) =
      (record r { inner = inner; window = spend (length bytes) w }, got bytes)
  charge r w (inner, failed) = (record r { inner = inner; window = w }, failed)
  charge r w (inner, pending) = (record r { inner = inner; window = w }, pending)

  unfoldable pub pass : LimitedReader R → R × Outcome → LimitedReader R × Outcome
  pass r (inner, o) = (record r { inner = inner }, o)

  unfoldable pub read : Read R → ℕ → ℕ → LimitedReader R → ℕ → LimitedReader R × Outcome
  read read_inner now woken r n =
      if n == 0
      then (r, got [])
      else if r.window.bytes_per_second == 0
      then pass r (read_inner r.inner n)
      else let w = open_window now woken r.window in
        charge r w (read_inner r.inner (min n (budget w)))

  -- From the delay on: `later` is the time at which the new delay is polled, `fires` whether it has
  -- fired then.
  unfoldable pub poll_window :
      Read R → ℕ → ℕ → Bool → LimitedReader R → ℕ → LimitedReader R × Outcome
  poll_window read_inner now later fires r n =
      let w = expire now r.window in
      if budget w == 0
      then if fires
        then (let w' = restart later w in charge r w' (read_inner r.inner (min n (budget w'))))
        else (
          record r { window = w; delay_future = some (now + (second - (now - w.window_start))) },
          pending,
        )
      else charge r w (read_inner r.inner (min n (budget w)))

  -- `woken` is the time at which a kept delay is polled, `fired` whether it has fired then.
  unfoldable pub poll_read :
      Read R → ℕ → Bool → ℕ → ℕ → Bool → LimitedReader R → ℕ → LimitedReader R × Outcome
  poll_read read_inner woken fired now later fires r n =
      if n == 0
      then (r, got [])
      else if r.window.bytes_per_second == 0
      then pass r (read_inner r.inner n)
      else elim r.delay_future [
        | none ↦ poll_window read_inner now later fires r n
        | some deadline ↦
            if fired
            then poll_window read_inner now later fires
                (record r { window = restart woken r.window; delay_future = none }) n
            else (r, pending)
      ]

pub record LimitedWriter (W : Type 0) : Type 0 where
  pub inner : W
  pub window : Window

module _ {W : Type 0} where
  unfoldable pub new_writer : ℕ → W → ℕ → LimitedWriter W
  new_writer now inner bytes_per_second = record {
    inner = inner;
    window = record {
      bytes_per_second = bytes_per_second;
      window_start = now;
      bytes_in_window = 0;
    };
  }

  -- The writer after the inner one has taken so many bytes, none on an error.
  unfoldable pub charge_write : LimitedWriter W → Window → W × Option ℕ → LimitedWriter W × Option ℕ
  charge_write l w (inner, none) = (record l { inner = inner; window = w }, none)
  charge_write l w (inner, some bytes) =
      (record l { inner = inner; window = spend bytes w }, some bytes)

  unfoldable pub write :
      (W → List ℕ → W × Option ℕ) → ℕ → ℕ → LimitedWriter W → List ℕ → LimitedWriter W × Option ℕ
  write write_inner now woken l buf =
      if length buf == 0
      then (l, some 0)
      else if l.window.bytes_per_second == 0
      then (let (inner, o) = write_inner l.inner buf in (record l { inner = inner }, o))
      else let w = open_window now woken l.window in
        charge_write l w (write_inner l.inner (take (min (length buf) (budget w)) buf))
