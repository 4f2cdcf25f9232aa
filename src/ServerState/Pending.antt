-- ===== src/ServerState/Pending.antt =====
-- application/src/server/state.rs: the flag of a pending restart against the state.
use ailes.Common.{◌≡◌, ◌≢◌, refl, Bool, true, false, List, [], ◌∷◌}
use mathlib.Core.Path.{subst}
use ailes.ServerState.{
  ServerState, offline, Notice, ServerStateLock, step_set_state, replacing, triggering, telling,
  set_pending_restart, step_pending, store_pending, comparing, storing,
}
use ailes.ServerState.Steps.{
  ends, idle, flagging, setting, World, put, resume, advance, flag, call_set_pending_restart,
  advance_flag, Step, advances, sets, pends, flags, Reach, here, next,
}
use ailes.ServerState.Reverting.{differs, call_set_state-replacing}

-- Two tasks that are in no call.
abbrev pub two_idle : ServerStateLock → World
two_idle l = record { lock = l; tasks = idle ∷ idle ∷ [] }

abbrev pub at : ServerState → Bool → List Notice → ServerStateLock
at state locked sent = record {
  state = state;
  locked = locked;
  pending_restart = false;
  sent = sent;
}

advance_flag-storing :
    (w : World)
    → w.lock.state ≢ offline
    → advance_flag w 0 comparing ≡ put w 0 (flagging (storing true)) w.lock
unfolding advance_flag step_pending flag
advance_flag-storing w h = rw (differs w.lock.state offline h) refl

-- `set_pending_restart` loads the state before it stores the flag. From every state that is not offline, with no
-- pending restart, two tasks can leave the server offline with a pending restart and be in no call any more: one
-- sets the flag, and the other sets the state to offline between the load and the store of the first.
pub offline_pending :
    (state : ServerState) (locked : Bool) (sent : List Notice)
    → state ≢ offline
    → (v : World) × Reach (two_idle (at state locked sent)) v
      × (v.tasks ≡ idle ∷ idle ∷ [])
      × (v.lock.state ≡ offline)
      × (v.lock.pending_restart ≡ true)
unfolding call_set_pending_restart set_pending_restart flag advance step_set_state resume
    advance_flag step_pending store_pending
offline_pending state locked sent on = (h, reach, refl, refl, refl)
  where
    a : World
    a = two_idle (at state locked sent)

    b : World
    b = put a 0 (flagging comparing) a.lock

    c : World
    c = put b 0 (flagging (storing true)) a.lock

    d : World
    d = put c 1 (setting ends (replacing offline)) a.lock

    e : World
    e = advance d 1 ends (replacing offline)

    f : World
    f = advance e 1 ends (triggering offline)

    g : World
    g = advance f 1 ends (telling offline)

    h : World
    h = advance_flag g 0 (storing true)

    loads : Step 0 b c
    loads = subst (Step 0 b) (advance_flag-storing b on) (flags b 0 comparing refl)

    calls : Step 1 c d
    calls = subst (Step 1 c) (call_set_state-replacing c 1 offline on) (sets c 1 offline refl)

    reach : Reach (two_idle (at state locked sent)) h
    reach =
        next
          (next
            (next
              (next (next (next (next here (pends a 0 true refl)) loads) calls)
                (advances d 1 ends (replacing offline) refl))
              (advances e 1 ends (triggering offline) refl))
            (advances f 1 ends (telling offline) refl))
          (flags g 0 (storing true) refl)
