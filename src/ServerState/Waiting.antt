-- ===== src/ServerState/Waiting.antt =====
-- application/src/server/state.rs: what a waiting caller learns.
use ailes.Common.{
  ◌≡◌, ◌⊎◌, ◌↔◌, inl, inr, refl, Bool, true, List, [], ◌∷◌, if◌then◌else◌, arith, Bool-cases,
}
use ailes.ServerState.{ServerState, wait_until}

-- Some state of the list passes the test.
abbrev pub AnyHolds : (ServerState → Bool) → List ServerState → Type 0
AnyHolds predicate [] = ⊥
AnyHolds predicate (s ∷ states) = (predicate s ≡ true) ⊎ AnyHolds predicate states

wait_until-cons :
    (predicate : ServerState → Bool) (s t : ServerState) (seen : List ServerState)
    → wait_until predicate s (t ∷ seen)
      ≡ (if predicate s then true else wait_until predicate t seen)
unfolding wait_until
wait_until-cons predicate s t seen = refl

-- A wait answers `true` exactly when the current state or one that the
-- subscriber sees before the timeout passes the test.
pub wait_until_iff :
    (predicate : ServerState → Bool) (current : ServerState) (states : List ServerState)
    → (wait_until predicate current states ≡ true) ↔ AnyHolds predicate (current ∷ states)
wait_until_iff predicate current [] = unfold wait_until in ground arith
wait_until_iff predicate current (s ∷ states) =
    let (to, from) = wait_until_iff predicate s states in
    rw (wait_until-cons predicate current s states) (elim (Bool-cases (predicate current)) [
      | inl holds ↦ rw holds ((λ _. inl refl), (λ _. refl))
      | inr fails_now ↦
          rw fails_now ((λ h. inr (to h)), (λ h. elim h [ inl e ↦ absurd (cc) | inr y ↦ from y ]))
    ])
