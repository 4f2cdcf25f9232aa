-- ===== src/Io/Limited/Stretches.antt =====
-- application/src/io/limited_reader.rs: the times of a poll, and the windows that begin in a stretch of time.
use ailes.Common.{
  ◌/◌, ℕ, suc, ◌+◌, ◌-◌, ◌*◌, ◌≤◌, Bool, true, ◌&&◌, none, some, List, [], ◌∷◌, leb, if◌then◌else◌,
  ◌≡◌, refl, arith, inl, inr, ◌⊎◌,
}
use ailes.Common.Text.{all}
use ailes.Common.Machine.{second}
use ailes.Io.Limited.{Window, LimitedReader, restart, expire}
use ailes.Io.Limited.Rate.{Ends, Accounted, mul-suc}

-- The times of a poll: when a kept delay is polled and whether it has fired, when the window is looked
-- at, and when a new delay is polled and whether it has fired; and the buffer's length.
pub record Poll : Type 0 where
  pub woken : ℕ
  pub fired : Bool
  pub now : ℕ
  pub later : ℕ
  pub fires : Bool
  pub buffer : ℕ

-- A kept delay ends when its window is a second old.
abbrev pub is_due : {R : Type 0} → LimitedReader R → Bool
is_due r = elim r.delay_future [
  | none ↦ true
  | some deadline ↦ leb (r.window.window_start + second) deadline
]

-- A delay fires at its deadline or later, and the clock does not run backwards.
abbrev pub is_punctual : Poll → Window → Bool
is_punctual p w =
    let w' = expire p.now w in
    leb w'.window_start p.now
    && (if p.fires then leb (p.now + (second - (p.now - w'.window_start))) p.later else true)

abbrev pub window_at : {R : Type 0} → Poll → LimitedReader R → Window
window_at p r = elim r.delay_future [ none ↦ r.window | some deadline ↦ restart p.woken r.window ]

abbrev pub keeps_time : {R : Type 0} → Poll → LimitedReader R → Bool
keeps_time p r =
    elim r.delay_future [
      | none ↦ true
      | some deadline ↦ if p.fired then leb deadline p.woken else true
    ]
    && is_punctual p (window_at p r)

-- The clock is read from `since` on and up to `until`.
abbrev pub is_within : ℕ → ℕ → Poll → Bool
is_within since until p =
    (leb since p.woken && leb p.woken until)
    && ((leb since p.now && leb p.now until) && (leb since p.later && leb p.later until))

-- So many windows began in the stretch, the last at `start`.
abbrev pub Within : ℕ → ℕ → ℕ → ℕ → Type 0
Within since until over start =
    (over ≡ 0) ⊎ ((since + over * second ≤ start + second) × (start ≤ until))

Within-Ends :
    (since until now start : ℕ)
    → since ≤ now
    → now ≤ until
    → start + second ≤ now
    → Ends (Within since until) now start
Within-Ends since until now start from to late over (inl none_yet) =
    inr (omega (arith, none_yet), to)
Within-Ends since until now start from to late over (inr (before, _)) = inr (omega arith, to)

pub Within-poll :
    (since until : ℕ) (p : Poll)
    → is_within since until p ≡ true
    → (start : ℕ)
    → (start + second ≤ p.woken → Ends (Within since until) p.woken start)
      × ((start + second ≤ p.now → Ends (Within since until) p.now start)
          × (start + second ≤ p.later → Ends (Within since until) p.later start))
Within-poll since until p i start = (
  Within-Ends since until p.woken start (ground arith) (ground arith),
  (
    Within-Ends since until p.now start (ground arith) (ground arith),
    Within-Ends since until p.later start (ground arith) (ground arith),
  ),
)

pub all-true : (ps : List Poll) → all (λ _. true) ps ≡ true
all-true [] = refl
all-true (p ∷ ps) = all-true ps

-- The bytes of a stretch, from the windows that began in it.
pub stretch_bound :
    (since until total limit : ℕ) (w : Window)
    → w.bytes_per_second ≡ limit
    → Accounted (Within since until) total w
    → total ≤ limit * ((until - since) / second + 2)
stretch_bound since until total limit w same (over, begun, few, fits) =
    let most : suc over ≤ (until - since) / second + 2 = elim begun [
      | inl none_yet ↦ omega (arith, none_yet)
      | inr (first, last) ↦ omega (arith, first, last)
    ] in
    let few' : total ≤ limit * over + w.bytes_in_window = rw same at few in
    let room : limit * suc over ≤ limit * ((until - since) / second + 2) = grind (arith, most) in
    omega (arith, mul-suc limit over, same)
