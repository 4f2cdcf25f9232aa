-- ===== src/Schedule/Watch/Periods.antt =====
-- application/src/server/schedule/mod.rs: when and how often a `ResourceUsage` trigger fires, against the
-- periods in which its condition was met.
use ailes.Common.{
  ℕ, suc, ◌+◌, ◌≤◌, Bool, true, false, not, ◌&&◌, ◌||◌, Option, none, some, List, [], ◌∷◌, leb,
  if◌then◌else◌, ◌≡◌, refl, sym, arith,
}
use ailes.Common.Machine.{or_default}
use ailes.Schedule.Conditions.{Floats}
use ailes.Schedule.Watch.{
  ResourceUsage, ResourceTrigger, Watch, is_met, fire, observe, is_due, Event, changed, elapsed,
  on_event, watch,
}

-- Since when all looks up to the newest have met the condition.
abbrev pub since_of : List (ℕ × Bool) → Option ℕ
since_of [] = none
since_of ((now, false) ∷ looks) = none
since_of ((now, true) ∷ looks) = let before = since_of looks in some (or_default now before)

-- One for a look that begins a period.
abbrev pub begins : Option ℕ → ℕ
begins none = 1
begins (some since) = 0

abbrev pub periods : List (ℕ × Bool) → ℕ
periods [] = 0
periods ((now, false) ∷ looks) = periods looks
periods ((now, true) ∷ looks) = periods looks + begins (since_of looks)

module _ {F : Type 0} (floats : Floats F) (trigger : ResourceTrigger F) where
  abbrev pub looks : List (Event floats trigger) → List (ℕ × Bool)
  looks [] = []
  looks (changed now usage ∷ es) = (now, is_met floats trigger usage) ∷ looks es
  looks (elapsed now usage ∷ es) =
      let before = looks es in
      let w = watch floats trigger es in
      if not w.fired && is_due floats trigger now w.met_since
      then (now, is_met floats trigger usage) ∷ before
      else before

  -- Of a period that has begun and not fired.
  abbrev pending : Watch → ℕ
  pending w = elim w.met_since [ none ↦ 0 | some since ↦ if w.fired then 0 else 1 ]

  abbrev Tracks : Watch → List (ℕ × Bool) → Type 0
  Tracks w seen =
      (w.met_since ≡ since_of seen)
      × (w.notified + pending w ≤ periods seen)
      × (w.met_since ≡ none → w.fired ≡ false)

  observe-Tracks :
      (now : ℕ) (met : Bool) (since : Option ℕ) (fired : Bool) (notified : ℕ)
      (seen : List (ℕ × Bool))
      → (let w : Watch = record { met_since = since; fired = fired; notified = notified } in
          Tracks w seen → Tracks (observe floats trigger now met w) ((now, met) ∷ seen))
  unfolding observe
  observe-Tracks now false since fired notified seen (p, bound, idle) =
      (refl, omega arith, λ q. refl)
  observe-Tracks now true none fired notified seen (p, bound, idle) = rw (sym p) (ground arith)
  observe-Tracks now true (some since) true notified seen (p, bound, idle) =
      rw (sym p) (ground arith)
  observe-Tracks now true (some since) false notified seen (p, bound, idle) =
      rw (sym p) (ground arith)

  fire-Tracks :
      (now since notified : ℕ) (seen : List (ℕ × Bool))
      → (let w : Watch = record { met_since = some since; fired = false; notified = notified } in
          Tracks w seen → Tracks (fire floats trigger w) seen)
  fire-Tracks now since notified seen (p, bound, idle) = (p, omega arith, λ q. ground arith)

  ready-Tracks :
      (now : ℕ) (met : Bool) (since : Option ℕ) (fired : Bool) (notified : ℕ)
      (seen : List (ℕ × Bool))
      → (not fired && is_due floats trigger now since) ≡ true
      → (let w : Watch = record { met_since = since; fired = fired; notified = notified } in
          Tracks w seen
          → Tracks (observe floats trigger now met (fire floats trigger w)) ((now, met) ∷ seen))
  ready-Tracks now met since true notified seen h tracks = ground arith
  ready-Tracks now met none false notified seen h tracks = ground arith
  ready-Tracks now met (some since) false notified seen h tracks =
      observe-Tracks now met (some since) true (suc notified) seen
        (fire-Tracks now since notified seen tracks)

  elapsed-Tracks :
      (now : ℕ) (met : Bool) (w : Watch) (seen : List (ℕ × Bool)) (b : Bool)
      → (not w.fired && is_due floats trigger now w.met_since) ≡ b
      → Tracks w seen
      → Tracks
          (if b then observe floats trigger now met (fire floats trigger w) else w)
          (if b then (now, met) ∷ seen else seen)
  elapsed-Tracks now met w seen false h tracks = tracks
  elapsed-Tracks now met w seen true h tracks =
      ready-Tracks now met w.met_since w.fired w.notified seen h tracks

  watch-Tracks : (es : List (Event floats trigger)) → Tracks (watch floats trigger es) (looks es)
  unfolding on_event
  watch-Tracks [] = (refl, omega arith, λ q. refl)
  watch-Tracks (changed now usage ∷ es) =
      let w = watch floats trigger es in
      observe-Tracks now (is_met floats trigger usage) w.met_since w.fired w.notified (looks es)
        (watch-Tracks es)
  watch-Tracks (elapsed now usage ∷ es) =
      let w = watch floats trigger es in
      elapsed-Tracks now (is_met floats trigger usage) w (looks es)
        (not w.fired && is_due floats trigger now w.met_since) refl (watch-Tracks es)

  -- The trigger fires at most once in each period of looks that met its condition.
  pub notified_bound :
      (es : List (Event floats trigger)) → (watch floats trigger es).notified ≤ periods (looks es)
  notified_bound es = let (p, bound, idle) = watch-Tracks es in omega arith

  observe-fired :
      (now : ℕ) (w : Watch)
      → (observe floats trigger now true w).fired
        ≡ (w.fired || leb (or_default now w.met_since + trigger.for_duration) now)
  unfolding observe
  observe-fired now w = ground arith

  -- After a look that meets the condition the trigger has fired exactly if it had in this period, or the
  -- condition was met at all looks for the set time.
  pub watch-fired :
      (es : List (Event floats trigger)) (now : ℕ) (usage : ResourceUsage F)
      → is_met floats trigger usage ≡ true
      → (watch floats trigger (changed now usage ∷ es)).fired ≡ (
          (watch floats trigger es).fired
          || is_due floats trigger now (since_of (looks (changed now usage ∷ es))))
  unfolding on_event
  watch-fired es now usage h =
      let w = watch floats trigger es in
      let (p, bound, idle) = watch-Tracks es in rw h (rw (sym p) (observe-fired now w))
