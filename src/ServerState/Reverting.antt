-- ===== src/ServerState/Reverting.antt =====
-- application/src/server/state.rs: the state that a failed power action leaves.
use ailes.Common.{ℕ, ◌≡◌, ◌≢◌, refl, true, false, some, [], ◌∷◌, get_elem?, arith}
use mathlib.Core.Path.{subst}
use ailes.ServerState.{
  ServerState, ServerStateLock, replacing, set_state, step_set_state, same_state, same_state_iff,
}
use ailes.ServerState.Steps.{
  ends, idle, waiting, setting, acting, returned, failed, World, put, begin, resume, advance,
  succeed, call_set_state, Step, begins, advances, succeeds, sets, Reach, here, next, Alone,
}
use ailes.ServerState.Settling.{fails-Alone}

-- Task 0 runs its action, and tasks 1 and 2 have called nothing.
abbrev pub contended : ServerStateLock → ServerState → ServerState → World
contended l target old = record { lock = l; tasks = acting target old ∷ idle ∷ idle ∷ [] }

pub differs : (s t : ServerState) → s ≢ t → same_state s t ≡ false
differs s t h = ground (arith, same_state_iff s t)

pub call_set_state-replacing :
    (w : World) (i : ℕ) (s : ServerState)
    → w.lock.state ≢ s
    → call_set_state w i s ≡ put w i (setting ends (replacing s)) w.lock
unfolding call_set_state set_state resume
call_set_state-replacing w i s h = rw (differs w.lock.state s h) refl

-- A call reads the state that it restores before it waits for the mutex. From any state of a held mutex others
-- can change the state to `later` and free the mutex while a call waits; if that call then takes the mutex and its
-- action fails, with no step of another task, it leaves the state of the time at which it was made, though the
-- mutex was free and the state `later` when it took the mutex.
pub fail-restores_stale :
    (l : ServerStateLock) (target old next_target later : ServerState)
    → l.locked ≡ true
    → l.state ≢ later
    → (u v : World) × Reach (contended l target old) u
      × (u.lock.state ≡ later)
      × (u.lock.locked ≡ false)
      × (get_elem? u.tasks 1 ≡ some (waiting next_target l.state true))
      × Alone 1 u v
      × (get_elem? v.tasks 1 ≡ some (returned failed))
      × (v.lock.state ≡ l.state)
      × (v.lock.locked ≡ false)
unfolding begin advance step_set_state resume succeed
fail-restores_stale l target old next_target later held differ =
    let (v, alone, at_end, state, free) = fails-Alone u 1 next_target l.state true refl refl in
    (u, v, reach_u, refl, refl, refl, alone, at_end, state, free)
  where
    a : World
    a = contended l target old

    b : World
    b = begin a 1 next_target true

    c : World
    c = put b 2 (setting ends (replacing later)) l

    d : World
    d = advance c 2 ends (replacing later)

    u : World
    u = succeed d 0

    calls : Step 2 b c
    calls = subst (Step 2 b) (call_set_state-replacing b 2 later differ) (sets b 2 later refl)

    reach_u : Reach (contended l target old) u
    reach_u =
        next
          (next (next (next here (begins a 1 next_target true refl)) calls)
            (advances c 2 ends (replacing later) refl))
          (succeeds d 0 target old refl)
