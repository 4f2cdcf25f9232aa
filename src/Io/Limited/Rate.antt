-- ===== src/Io/Limited/Rate.antt =====
-- application/src/io/limited_reader.rs and limited_writer.rs: how many bytes pass in how much time.
use ailes.Common.{
  ℕ, suc, ◌+◌, ◌-◌, ◌*◌, ◌%◌, ◌<◌, ◌≤◌, min, Bool, true, false, ◌&&◌, List, [], ◌∷◌, length, leb,
  ◌==◌, if◌then◌else◌, ◌≡◌, ◌≢◌, refl, arith, ◌∙◌, Bool-cases, inl, inr,
}
use ailes.Common.Machine.{second, word}
use ailes.Io.Readers.{Outcome, got, failed, pending, Read, bytes_of}
use ailes.Io.Limited.{
  Window, LimitedReader, new_with_bytes_per_second, restart, expire, budget, open_window, spend,
  charge, read,
}

-- `over` windows are over as `past` says of the start of this one, and `total` bytes were passed in them and
-- this one.
abbrev pub Accounted : (ℕ → ℕ → Type 0) → ℕ → Window → Type 0
Accounted past total w =
    (over : ℕ) × past over w.window_start
    × (total ≤ w.bytes_per_second * over + w.bytes_in_window)
    × (w.bytes_in_window ≤ w.bytes_per_second)

-- One more window may be over at a time.
abbrev pub Ends : (ℕ → ℕ → Type 0) → ℕ → ℕ → Type 0
Ends past now start = (over : ℕ) → past over start → past (suc over) now

-- So many full seconds have passed since a time.
abbrev pub Since : ℕ → ℕ → ℕ → Type 0
Since since over start = since + over * second ≤ start

pub mul-suc : (a b : ℕ) → a * suc b ≡ a * b + a
mul-suc a b = grind arith

pub restart-Accounted :
    (past : ℕ → ℕ → Type 0) (total now : ℕ) (w : Window)
    → Ends past now w.window_start
    → Accounted past total w
    → Accounted past total (restart now w)
unfolding restart
restart-Accounted past total now w h (over, ended, few, fits) =
    (suc over, h over ended, omega (arith, mul-suc w.bytes_per_second over), omega arith)

budget_lem :
    (w : Window)
    → w.bytes_in_window ≤ w.bytes_per_second
    → budget w ≡ w.bytes_per_second - w.bytes_in_window
unfolding budget
budget_lem w h = ground arith

pub spend-Accounted :
    (past : ℕ → ℕ → Type 0) (total bytes : ℕ) (w : Window)
    → w.bytes_per_second < word
    → bytes ≤ budget w
    → Accounted past total w
    → Accounted past (total + bytes) (spend bytes w)
unfolding spend
spend-Accounted past total bytes w b h (over, since_le, few, fits) =
    let room = budget_lem w fits in
    let at : (w.bytes_in_window + bytes) % word ≡ w.bytes_in_window + bytes = omega (arith, room) in
    (over, since_le, omega (arith, at), omega (arith, at, room))

pub expire-Accounted :
    (past : ℕ → ℕ → Type 0) (total now : ℕ) (w : Window)
    → (w.window_start + second ≤ now → Ends past now w.window_start)
    → Accounted past total w
    → Accounted past total (expire now w)
unfolding expire
expire-Accounted past total now w h a = elim (Bool-cases (leb second (now - w.window_start))) [
  | inl t ↦ rw (t, expire) (restart-Accounted past total now w (h (ground arith)) a)
  | inr f ↦ rw (f, expire) a
]

pub Since-Ends : (since now start : ℕ) → start + second ≤ now → Ends (Since since) now start
Since-Ends since now start h over ended = omega arith

-- The sleep lasts until the window is a second old.
abbrev pub slept : ℕ → ℕ → Window → Bool
slept now woken w =
    let w' = expire now w in if budget w' == 0 then leb (w'.window_start + second) woken else true

pub open_window-Accounted :
    (since total now woken : ℕ) (w : Window)
    → slept now woken w ≡ true
    → Accounted (Since since) total w
    → Accounted (Since since) total (open_window now woken w)
unfolding open_window
open_window-Accounted since total now woken w s a =
    let w' = expire now w in
    elim (Bool-cases (budget w' == 0)) [
      | inl t ↦
          rw (t, open_window)
            (restart-Accounted (Since since) total woken w'
              (Since-Ends since woken w'.window_start (ground (arith, t)))
              (expire-Accounted (Since since) total now w (Since-Ends since now w.window_start) a))
      | inr f ↦
          rw (f, open_window)
            (expire-Accounted (Since since) total now w (Since-Ends since now w.window_start) a)
    ]

pub limit-restart : (now : ℕ) (w : Window) → (restart now w).bytes_per_second ≡ w.bytes_per_second
unfolding restart
limit-restart now w = refl

pub limit-spend : (bytes : ℕ) (w : Window) → (spend bytes w).bytes_per_second ≡ w.bytes_per_second
unfolding spend
limit-spend bytes w = refl

pub limit-expire : (now : ℕ) (w : Window) → (expire now w).bytes_per_second ≡ w.bytes_per_second
unfolding expire restart
limit-expire now w = ground arith

pub limit-open_window :
    (now woken : ℕ) (w : Window) → (open_window now woken w).bytes_per_second ≡ w.bytes_per_second
unfolding open_window expire restart
limit-open_window now woken w = ground arith

abbrev pub Charged :
    {R : Type 0} → (ℕ → ℕ → Type 0) → ℕ → Window → LimitedReader R × Outcome → Type 0
Charged past total w (r, o) =
    Accounted past (total + length (bytes_of o)) r.window
    × (r.window.bytes_per_second ≡ w.bytes_per_second)

pub idle-Accounted :
    (past : ℕ → ℕ → Type 0) (total : ℕ) (w : Window)
    → Accounted past total w
    → Accounted past (total + 0) w
idle-Accounted past total w (over, since_le, few, fits) = (over, since_le, omega arith, fits)

pub charge-Charged :
    {R : Type 0} (past : ℕ → ℕ → Type 0) (total : ℕ) (r : LimitedReader R) (w : Window) (inner : R)
    (o : Outcome)
    → w.bytes_per_second < word
    → length (bytes_of o) ≤ budget w
    → Accounted past total w
    → Charged past total w (charge r w (inner, o))
unfolding charge
charge-Charged past total r w inner (got bytes) b h a =
    (spend-Accounted past total (length bytes) w b h a, limit-spend (length bytes) w)
charge-Charged past total r w inner failed b h a = (idle-Accounted past total w a, refl)
charge-Charged past total r w inner pending b h a = (idle-Accounted past total w a, refl)

module _ {R : Type 0} (read_inner : Read R)
    (bounded : (s : R) (n : ℕ) → length (bytes_of (read_inner s n).1) ≤ n) where
  read-Charged :
      (since total now woken n : ℕ) (r : LimitedReader R)
      → r.window.bytes_per_second ≢ 0
      → r.window.bytes_per_second < word
      → slept now woken r.window ≡ true
      → Accounted (Since since) total r.window
      → Charged (Since since) total r.window (read read_inner now woken r n)
  unfolding read
  read-Charged since total now woken n r z b s a = elim (Bool-cases (n == 0)) [
    | inl t ↦ rw (t, read) (idle-Accounted (Since since) total r.window a, refl)
    | inr f ↦
        let w = open_window now woken r.window in
        let limit = limit-open_window now woken r.window in
        let asked = min n (budget w) in
        let set : (r.window.bytes_per_second == 0) ≡ false = ground arith in
        let (counts, same) =
          charge-Charged (Since since) total r w (read_inner r.inner asked).0
            (read_inner r.inner asked).1 (omega (arith, limit))
            (omega (arith, bounded r.inner asked))
            (open_window-Accounted since total now woken r.window s a) in
        rw (f, set, read) (counts, same ∙ limit)
  ]

  abbrev pub Times : Type 0
  Times = ℕ × ℕ × ℕ

  -- The bytes of a run of reads, each with its two times and its buffer's length, and the reader.
  abbrev pub reads : LimitedReader R → List Times → LimitedReader R × ℕ
  reads r [] = (r, 0)
  reads r ((now, woken, n) ∷ ts) =
      let (r', o) = read read_inner now woken r n in
      let (r'', total) = reads r' ts in (r'', length (bytes_of o) + total)

  -- Each sleep of the run lasts until its window is a second old.
  abbrev pub all_slept : LimitedReader R → List Times → Bool
  all_slept r [] = true
  all_slept r ((now, woken, n) ∷ ts) =
      let rest = all_slept (read read_inner now woken r n).0 ts in slept now woken r.window && rest

  reads-Accounted :
      (since total : ℕ) (ts : List Times) (r : LimitedReader R)
      → r.window.bytes_per_second ≢ 0
      → r.window.bytes_per_second < word
      → all_slept r ts ≡ true
      → Accounted (Since since) total r.window
      → Accounted (Since since) (total + (reads r ts).1) (reads r ts).0.window
        × ((reads r ts).0.window.bytes_per_second ≡ r.window.bytes_per_second)
  reads-Accounted since total [] r z b s a = (idle-Accounted (Since since) total r.window a, refl)
  reads-Accounted since total ((now, woken, n) ∷ ts) r z b s a =
      let r' = (read read_inner now woken r n).0 in
      let o = (read read_inner now woken r n).1 in
      let (counts, limit) = read-Charged since total now woken n r z b (ground arith) a in
      let ((over, since_le, few, fits), same) =
        reads-Accounted since (total + length (bytes_of o)) ts r' (ground (arith, limit))
          (omega (arith, limit)) (ground arith) counts in
      ((over, since_le, omega arith, fits), same ∙ limit)

  -- When the last of a run of reads of a limited reader is over,
  -- so many full windows of a second have passed since the reader was made, and the bytes are at most
  -- the limit for each and for the window that is open. The limit is set and a machine word, a read of
  -- the inner reader gives at most what it is asked for, and a sleep is not too short.
  pub reads_rate :
      (now limit : ℕ) (inner : R) (ts : List Times)
      → limit ≢ 0
      → limit < word
      → all_slept (new_with_bytes_per_second now inner limit) ts ≡ true
      → (over : ℕ) × (now + over * second
          ≤ (reads (new_with_bytes_per_second now inner limit) ts).0.window.window_start)
        × ((reads (new_with_bytes_per_second now inner limit) ts).1 ≤ limit * suc over)
  unfolding new_with_bytes_per_second
  reads_rate now limit inner ts z b s =
      let r = new_with_bytes_per_second now inner limit in
      let ((over, since_le, few, fits), same) =
        reads-Accounted now 0 ts r z b s (0, omega arith, omega arith, omega arith) in
      let few' : 0 + (reads r ts).1 ≤ limit * over + (reads r ts).0.window.bytes_in_window =
        rw same at few in
      (over, since_le, omega (arith, same, mul-suc limit over))
