-- ===== src/ServerState/Runs.antt =====
-- Runs of the state lock, after the tests of application/src/server/state.rs.
use ailes.Common.{◌≡◌, refl, true, false, some, [], ◌∷◌, get_elem?}
use ailes.ServerState.{
  offline, starting, stopping, running, ServerStateLock, new, set_state, wait_for_state, replacing,
}
use ailes.ServerState.Steps.{
  acts, idle, waiting, setting, returned, failed, World, put, take_lock, begin, acquire, resume,
  begins, acquires, Reach, here, next, Alone,
}
use ailes.ServerState.Exclusion.{start, HeldByOne, Reach-HeldByOne}
use ailes.ServerState.Pending.{two_idle, at, offline_pending}
use ailes.ServerState.Reverting.{contended, fail-restores_stale}

times_out : wait_for_state running offline (starting ∷ []) ≡ false
unfolding wait_for_state
times_out = refl

-- Task 1 of two begins and takes the mutex.
abbrev begun : World
begun = put (start 2) 1 (waiting running offline false) (start 2).lock

abbrev entered : World
entered = put begun 1 (setting (acts running offline) (replacing running)) (take_lock begun.lock)

run_entered : Reach (start 2) entered
unfolding begin new acquire resume set_state
run_entered =
    next (next here (begins (start 2) 1 running false refl))
      (acquires begun 1 running offline false refl refl)

Reach-HeldByOne_example : HeldByOne entered
Reach-HeldByOne_example = Reach-HeldByOne 2 run_entered

-- A server that is starting under the mutex.
abbrev held_lock : ServerStateLock
held_lock = record { state = starting; locked = true; pending_restart = false; sent = [] }

fail-restores_stale_example :
    (u v : World) × Reach (contended held_lock starting offline) u
    × (u.lock.state ≡ running)
    × (u.lock.locked ≡ false)
    × (get_elem? u.tasks 1 ≡ some (waiting stopping starting true))
    × Alone 1 u v
    × (get_elem? v.tasks 1 ≡ some (returned failed))
    × (v.lock.state ≡ starting)
    × (v.lock.locked ≡ false)
fail-restores_stale_example =
    fail-restores_stale held_lock starting offline stopping running refl (λ e. cc)

offline_pending_example :
    (v : World) × Reach (two_idle (at running false [])) v
    × (v.tasks ≡ idle ∷ idle ∷ [])
    × (v.lock.state ≡ offline)
    × (v.lock.pending_restart ≡ true)
offline_pending_example = offline_pending running false [] (λ e. cc)
