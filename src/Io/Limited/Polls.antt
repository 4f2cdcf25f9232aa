-- ===== src/Io/Limited/Polls.antt =====
-- application/src/io/limited_reader.rs: the rate of the asynchronous reader.
use ailes.Common.{
  ◌/◌, ℕ, ◌+◌, ◌-◌, ◌*◌, ◌<◌, ◌≤◌, min, Bool, true, ◌&&◌, none, some, List, [], ◌∷◌, length, ◌==◌,
  ◌≡◌, ◌≢◌, refl, arith, ◌∙◌, Bool-cases, Option-cases, inl, inr, ◌⊎◌,
}
use ailes.Common.Text.{all}
use ailes.Common.Machine.{second, word}
use ailes.Io.Readers.{Outcome, got, failed, pending, Read, bytes_of}
use ailes.Io.Limited.{
  Window, LimitedReader, new_with_bytes_per_second, restart, expire, budget, charge, poll_window,
  poll_read,
}
use ailes.Io.Limited.Rate.{
  Ends, Accounted, Charged, charge-Charged, idle-Accounted, restart-Accounted, expire-Accounted,
  limit-expire, limit-restart,
}
use ailes.Io.Limited.Stretches.{
  Poll, is_due, is_punctual, keeps_time, is_within, Within, Within-poll, all-true, stretch_bound,
}

module _ {R : Type 0} (read_inner : Read R)
    (bounded : (s : R) (n : ℕ) → length (bytes_of (read_inner s n).1) ≤ n) where
  abbrev poll : Poll → LimitedReader R → LimitedReader R × Outcome
  poll p r = poll_read read_inner p.woken p.fired p.now p.later p.fires r p.buffer

  due-charge :
      (r : LimitedReader R) (w : Window) (io : R × Outcome)
      → r.delay_future ≡ none
      → is_due (charge r w io).0 ≡ true
  unfolding charge
  due-charge r w (inner, got bytes) e = ground (arith, e)
  due-charge r w (inner, failed) e = ground (arith, e)
  due-charge r w (inner, pending) e = ground (arith, e)

  -- The reader whose kept delay has fired.
  abbrev woken_reader : Poll → LimitedReader R → LimitedReader R
  woken_reader p r = record r { window = restart p.woken r.window; delay_future = none }

  poll-cases :
      (p : Poll) (r : LimitedReader R)
      → r.window.bytes_per_second ≢ 0
      → (poll p r ≡ (r, got []))
        ⊎ ((poll p r ≡ (r, pending))
            ⊎ (((r.delay_future ≡ none)
                  × (poll p r ≡ poll_window read_inner p.now p.later p.fires r p.buffer))
                ⊎ ((deadline : ℕ) × (r.delay_future ≡ some deadline)
                    × (p.fired ≡ true)
                    × (poll p r
                        ≡ poll_window read_inner p.now p.later p.fires
                            (woken_reader p r)
                            p.buffer))))
  unfolding poll_read
  poll-cases p r z = elim (Bool-cases (p.buffer == 0)) [
    | inl t ↦ inl (ground (arith, t))
    | inr f ↦ elim (Option-cases r.delay_future) [
      | inl e ↦ inr (inr (inl (e, ground (arith, e, f))))
      | inr (deadline, e) ↦ elim (Bool-cases p.fired) [
        | inl g ↦ inr (inr (inr (deadline, e, g, ground (arith, e, f, g))))
        | inr g ↦ inr (inl (ground (arith, e, f, g)))
      ]
    ]
  ]

  abbrev pub polls : LimitedReader R → List Poll → LimitedReader R × ℕ
  polls r [] = (r, 0)
  polls r (p ∷ ps) =
      let (r', o) = poll p r in let (r'', total) = polls r' ps in (r'', length (bytes_of o) + total)

  abbrev pub all_punctual : LimitedReader R → List Poll → Bool
  all_punctual r [] = true
  all_punctual r (p ∷ ps) = let rest = all_punctual (poll p r).0 ps in keeps_time p r && rest

  module _ (past : ℕ → ℕ → Type 0) (inside : Poll → Bool)
      (ends : (p : Poll)
        → inside p ≡ true
        → (start : ℕ)
        → (start + second ≤ p.woken → Ends past p.woken start)
          × ((start + second ≤ p.now → Ends past p.now start)
              × (start + second ≤ p.later → Ends past p.later start))) where
    asks :
        (total n : ℕ) (r : LimitedReader R) (w : Window)
        → w.bytes_per_second < word
        → Accounted past total w
        → Charged past total w (charge r w (read_inner r.inner (min n (budget w))))
    asks total n r w b a =
        let asked = min n (budget w) in
        charge-Charged past total r w (read_inner r.inner asked).0 (read_inner r.inner asked).1 b
          (omega (arith, bounded r.inner asked)) a

    window-Charged :
        (total : ℕ) (p : Poll) (r : LimitedReader R)
        → r.window.bytes_per_second < word
        → r.delay_future ≡ none
        → is_punctual p r.window ≡ true
        → inside p ≡ true
        → Accounted past total r.window
        → let after = poll_window read_inner p.now p.later p.fires r p.buffer in
          Charged past total r.window after × (is_due after.0 ≡ true)
    unfolding poll_window
    window-Charged total p r b e k i a =
        let w = expire p.now r.window in
        let limit = limit-expire p.now r.window in
        let spent =
          expire-Accounted past total p.now r.window (ends p i r.window.window_start).1.0 a in
        elim (Bool-cases (budget w == 0)) [
          | inl t ↦ elim (Bool-cases p.fires) [
            | inl f ↦
                let w' = restart p.later w in
                let (counts, same) =
                  asks total p.buffer r w' (omega (arith, limit, limit-restart p.later w)) (
                    restart-Accounted past total p.later w
                      ((ends p i w.window_start).1.1 (ground (arith, k, f))) spent) in
                rw (t, f, poll_window)
                  (
                    (counts, same ∙ limit-restart p.later w ∙ limit),
                    due-charge r w' (read_inner r.inner (min p.buffer (budget w'))) e,
                  )
            | inr f ↦
                rw (t, f, poll_window)
                  ((idle-Accounted past total w spent, limit), ground (arith, k))
          ]
          | inr t ↦
              let (counts, same) = asks total p.buffer r w (omega (arith, limit)) spent in
              rw (t, poll_window)
                (
                  (counts, same ∙ limit),
                  due-charge r w (read_inner r.inner (min p.buffer (budget w))) e,
                )
        ]

    poll-Charged :
        (total : ℕ) (p : Poll) (r : LimitedReader R)
        → r.window.bytes_per_second ≢ 0
        → r.window.bytes_per_second < word
        → is_due r ≡ true
        → keeps_time p r ≡ true
        → inside p ≡ true
        → Accounted past total r.window
        → Charged past total r.window (poll p r) × (is_due (poll p r).0 ≡ true)
    poll-Charged total p r z b d k i a = elim (poll-cases p r z) [
      | inl e ↦ rw e ((idle-Accounted past total r.window a, refl), d)
      | inr (inl e) ↦ rw e ((idle-Accounted past total r.window a, refl), d)
      | inr (inr (inl (q, e))) ↦ rw e (window-Charged total p r b q (ground (arith, k, q)) i a)
      | inr (inr (inr (deadline, q, g, e))) ↦
          let old : r.window.window_start + second ≤ p.woken = ground (arith, d, k, q, g) in
          let spent =
            restart-Accounted past total p.woken r.window ((ends p i r.window.window_start).0 old)
              a in
          let limit = limit-restart p.woken r.window in
          let ((counts, same), due) =
            window-Charged total p (woken_reader p r) (omega (arith, limit)) refl
              (ground (arith, k, q)) i spent in
          rw e ((counts, same ∙ limit), due)
    ]

    polls-Accounted :
        (total : ℕ) (ps : List Poll) (r : LimitedReader R)
        → r.window.bytes_per_second ≢ 0
        → r.window.bytes_per_second < word
        → is_due r ≡ true
        → all_punctual r ps ≡ true
        → all inside ps ≡ true
        → Accounted past total r.window
        → Accounted past (total + (polls r ps).1) (polls r ps).0.window
          × ((polls r ps).0.window.bytes_per_second ≡ r.window.bytes_per_second)
          × (is_due (polls r ps).0 ≡ true)
    polls-Accounted total [] r z b d k i a = (idle-Accounted past total r.window a, refl, d)
    polls-Accounted total (p ∷ ps) r z b d k i a =
        let r' = (poll p r).0 in
        let o = (poll p r).1 in
        let ((counts, limit), due) =
          poll-Charged total p r z b d (ground (arith, k)) (ground (arith, i)) a in
        let ((over, ended, few, fits), same, still) =
          polls-Accounted (total + length (bytes_of o)) ps r' (ground (arith, limit))
            (omega (arith, limit)) due (ground (arith, k)) (ground (arith, i)) counts in
        ((over, ended, omega arith, fits), same ∙ limit, still)

  -- In no stretch of time does an asynchronous limited reader pass more than its limit two times and once more
  -- for each whole second of the stretch: the polls `ps` come before, pending ones included, and the polls `qs`
  -- read the clock from `since` on and up to `until`. The limit is set and a machine word, a read of the inner
  -- reader gives at most what it is asked for, the clock does not run backwards, and a delay does not fire early.
  pub polls_rate :
      (now limit : ℕ) (inner : R) (ps qs : List Poll) (since until : ℕ)
      → limit ≢ 0
      → limit < word
      → all_punctual (new_with_bytes_per_second now inner limit) ps ≡ true
      → all_punctual (polls (new_with_bytes_per_second now inner limit) ps).0 qs ≡ true
      → all (is_within since until) qs ≡ true
      → (polls (polls (new_with_bytes_per_second now inner limit) ps).0 qs).1
        ≤ limit * ((until - since) / second + 2)
  unfolding new_with_bytes_per_second
  polls_rate now limit inner ps qs since until z b k j inside =
      let r = new_with_bytes_per_second now inner limit in
      let r' = (polls r ps).0 in
      let ((_, _, _, fits), same, due) =
        polls-Accounted (λ _ _. Unit) (λ _. true)
          (λ p i start. ((λ _ _ _. tt), ((λ _ _ _. tt), (λ _ _ _. tt)))) 0 ps r z b refl k
          (all-true ps) (0, tt, omega arith, omega arith) in
      let (counts, same', _) =
        polls-Accounted (Within since until) (is_within since until) (Within-poll since until) 0 qs
          r' (omega (arith, same)) (omega (arith, same)) due j inside
          (0, inl refl, omega arith, fits) in
      omega (
        arith,
        stretch_bound since until (0 + (polls r' qs).1) limit (polls r' qs).0.window (same' ∙ same)
            counts,
      )
