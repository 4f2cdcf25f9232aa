-- ===== src/Io/Limited/Writes.antt =====
-- application/src/io/limited_writer.rs: the rate of the writer.
use ailes.Common.{
  ℕ, suc, ◌+◌, ◌*◌, ◌<◌, ◌≤◌, min, Bool, true, false, ◌&&◌, Option, none, some, List, [], ◌∷◌,
  length, take, ◌==◌, ◌≡◌, ◌≢◌, refl, arith, length-take, ◌∙◌, Bool-cases, inl, inr,
}
use ailes.Common.Machine.{second, word, or_default}
use ailes.Io.Limited.{Window, LimitedWriter, new_writer, budget, open_window, charge_write, write}
use ailes.Io.Limited.Rate.{
  Accounted, Since, idle-Accounted, spend-Accounted, limit-spend, open_window-Accounted,
  limit-open_window, slept, mul-suc,
}

abbrev Charged : {W : Type 0} → (ℕ → ℕ → Type 0) → ℕ → Window → LimitedWriter W × Option ℕ → Type 0
Charged past total w (l, o) =
    Accounted past (total + or_default 0 o) l.window
    × (l.window.bytes_per_second ≡ w.bytes_per_second)

charge_write-Charged :
    {W : Type 0} (past : ℕ → ℕ → Type 0) (total : ℕ) (l : LimitedWriter W) (w : Window) (inner : W)
    (o : Option ℕ)
    → w.bytes_per_second < word
    → or_default 0 o ≤ budget w
    → Accounted past total w
    → Charged past total w (charge_write l w (inner, o))
unfolding charge_write
charge_write-Charged past total l w inner none b h a = (idle-Accounted past total w a, refl)
charge_write-Charged past total l w inner (some bytes) b h a =
    (spend-Accounted past total bytes w b h a, limit-spend bytes w)

module _ {W : Type 0} (write_inner : W → List ℕ → W × Option ℕ)
    (bounded : (s : W) (buf : List ℕ) → or_default 0 (write_inner s buf).1 ≤ length buf) where
  write-Charged :
      (since total now woken : ℕ) (l : LimitedWriter W) (buf : List ℕ)
      → l.window.bytes_per_second ≢ 0
      → l.window.bytes_per_second < word
      → slept now woken l.window ≡ true
      → Accounted (Since since) total l.window
      → Charged (Since since) total l.window (write write_inner now woken l buf)
  unfolding write
  write-Charged since total now woken l buf z b s a = elim (Bool-cases (length buf == 0)) [
    | inl t ↦ rw (t, write) (idle-Accounted (Since since) total l.window a, refl)
    | inr f ↦
        let w = open_window now woken l.window in
        let limit = limit-open_window now woken l.window in
        let given = take (min (length buf) (budget w)) buf in
        let set : (l.window.bytes_per_second == 0) ≡ false = ground arith in
        let (counts, same) =
          charge_write-Charged (Since since) total l w (write_inner l.inner given).0
            (write_inner l.inner given).1 (omega (arith, limit))
            (omega (arith, bounded l.inner given, length-take (min (length buf) (budget w)) buf))
            (open_window-Accounted since total now woken l.window s a) in
        rw (f, set, write) (counts, same ∙ limit)
  ]

  abbrev pub Writes : Type 0
  Writes = List (ℕ × ℕ × List ℕ)

  -- What a run of writes, each with its two times and its buffer, wrote.
  abbrev pub writes : LimitedWriter W → Writes → LimitedWriter W × ℕ
  writes l [] = (l, 0)
  writes l ((now, woken, buf) ∷ ws) =
      let (l', o) = write write_inner now woken l buf in
      let (l'', total) = writes l' ws in (l'', or_default 0 o + total)

  abbrev pub all_slept : LimitedWriter W → Writes → Bool
  all_slept l [] = true
  all_slept l ((now, woken, buf) ∷ ws) =
      let rest = all_slept (write write_inner now woken l buf).0 ws in
      slept now woken l.window && rest

  writes-Accounted :
      (since total : ℕ) (ws : Writes) (l : LimitedWriter W)
      → l.window.bytes_per_second ≢ 0
      → l.window.bytes_per_second < word
      → all_slept l ws ≡ true
      → Accounted (Since since) total l.window
      → Accounted (Since since) (total + (writes l ws).1) (writes l ws).0.window
        × ((writes l ws).0.window.bytes_per_second ≡ l.window.bytes_per_second)
  writes-Accounted since total [] l z b s a = (idle-Accounted (Since since) total l.window a, refl)
  writes-Accounted since total ((now, woken, buf) ∷ ws) l z b s a =
      let l' = (write write_inner now woken l buf).0 in
      let o = (write write_inner now woken l buf).1 in
      let (counts, limit) = write-Charged since total now woken l buf z b (ground arith) a in
      let ((over, since_le, few, fits), same) =
        writes-Accounted since (total + or_default 0 o) ws l' (ground (arith, limit))
          (omega (arith, limit)) (ground arith) counts in
      ((over, since_le, omega arith, fits), same ∙ limit)

  -- After any run of writes of a limited writer, so many full
  -- windows of a second have passed since it was made, and the bytes are at most
  -- the limit for each and for the window that is open. The limit is set and a machine word, the
  -- inner writer takes at most what it is given, and a sleep is not too short.
  pub writes_rate :
      (now limit : ℕ) (inner : W) (ws : Writes)
      → limit ≢ 0
      → limit < word
      → all_slept (new_writer now inner limit) ws ≡ true
      → (over : ℕ) × (now + over * second
          ≤ (writes (new_writer now inner limit) ws).0.window.window_start)
        × ((writes (new_writer now inner limit) ws).1 ≤ limit * suc over)
  unfolding new_writer
  writes_rate now limit inner ws z b s =
      let l = new_writer now inner limit in
      let ((over, since_le, few, fits), same) =
        writes-Accounted now 0 ws l z b s (0, omega arith, omega arith, omega arith) in
      let few' : 0 + (writes l ws).1 ≤ limit * over + (writes l ws).0.window.bytes_in_window =
        rw same at few in
      (over, since_le, omega (arith, same, mul-suc limit over))
