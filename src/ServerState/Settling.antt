-- ===== src/ServerState/Settling.antt =====
-- application/src/server/state.rs: what a call of `set_state` leaves if no other task takes a step during it, and
-- a failing action with it.
use ailes.Common.{
  ℕ, zero, suc, Bool, false, ◌&&◌, ◌||◌, Option, none, some, List, [], ◌∷◌, get_elem?, set, ◌≡◌,
  refl, ◌∙◌, arith, Bool-cases, inl, inr,
}
use ailes.ServerState.{
  ServerState, offline, starting, same_state, same_state_iff, ServerStateLock, Setting, set_state,
  step_set_state, replacing, triggering, telling, clearing, store_pending, send, server_status,
  to_str,
}
use ailes.ServerState.Steps.{
  After, acts, fails_then, ends, Task, idle, waiting, setting, acting, returned, failed, World,
  take_lock, put, resume, acquire, advance, fail, Step, acquires, advances, fails, Alone, still,
  then_step,
}

get_elem?-set :
    (ts : List Task) (i : ℕ) (x y : Task)
    → get_elem? ts i ≡ some x
    → get_elem? (set ts i y) i ≡ some y
get_elem?-set [] i x y h = cc
get_elem?-set (t ∷ ts) zero x y h = refl
get_elem?-set (t ∷ ts) (suc i) x y h = get_elem?-set ts i x y h

Alone-append : {i : ℕ} {u v w : World} → Alone i u v → Alone i v w → Alone i u w
Alone-append first still = first
Alone-append first (then_step rest s) = then_step (Alone-append first rest) s

abbrev task_after : After → Task
task_after (acts target old) = acting target old
task_after fails_then = returned failed
task_after ends = idle

abbrev locked_after : After → Bool → Bool
locked_after (acts target old) locked = locked
locked_after fails_then locked = false
locked_after ends locked = locked

-- The state that a call leaves.
abbrev state_after : Option Setting → ServerState → ServerState
state_after (some (replacing s)) current = s
state_after (some (triggering s)) current = current
state_after (some (telling s)) current = current
state_after (some clearing) current = current
state_after none current = current

set_state-state : (s : ServerState) (l : ServerStateLock) → state_after (set_state s l) l.state ≡ s
unfolding set_state
set_state-state s l = ground (arith, same_state_iff l.state s)

-- The task's own steps from `w` end its call with the state, and what follows.
abbrev Settles : ℕ → After → ServerState → Bool → World → Type 0
Settles i after state locked w =
    (v : World) × Alone i w v
    × (get_elem? v.tasks i ≡ some (task_after after))
    × (v.lock.state ≡ state)
    × (v.lock.locked ≡ locked_after after locked)

ended :
    (w : World) (i : ℕ) (x : Task) (after : After) (l : ServerStateLock)
    → get_elem? w.tasks i ≡ some x
    → Settles i after l.state l.locked (resume w i after none l)
unfolding resume
ended w i x (acts target old) l h =
    (put w i (acting target old) l, still, get_elem?-set w.tasks i x _ h, refl, refl)
ended w i x fails_then l h = (
  put w i (returned failed) (record l { locked = false }),
  still,
  get_elem?-set w.tasks i x _ h,
  refl,
  refl,
)
ended w i x ends l h = (put w i idle l, still, get_elem?-set w.tasks i x _ h, refl, refl)

module _ (i : ℕ) (after : After) where
  -- A step first.
  stepped :
      (state : ServerState) (locked : Bool) {w v : World}
      → Step i w v
      → Settles i after state locked v
      → Settles i after state locked w
  stepped state locked s (v, alone, task, left, free) =
      (v, Alone-append (then_step still s) alone, task, left, free)

  clearing-Settles :
      (w : World)
      → get_elem? w.tasks i ≡ some (setting after clearing)
      → Settles i after w.lock.state w.lock.locked w
  unfolding advance step_set_state store_pending
  clearing-Settles w h =
      stepped w.lock.state w.lock.locked (advances w i after clearing h)
        (ended w i (setting after clearing) after (store_pending false w.lock) h)

  telling-Settles :
      (w : World) (s : ServerState)
      → get_elem? w.tasks i ≡ some (setting after (telling s))
      → Settles i after w.lock.state w.lock.locked w
  unfolding advance step_set_state
  telling-Settles w s h =
      let told = send (server_status (to_str s)) w.lock in
      elim (Bool-cases ((same_state s offline || same_state s starting) && told.pending_restart)) [
        | inl t ↦ stepped w.lock.state w.lock.locked (advances w i after (telling s) h) (
            rw (t, advance, step_set_state, resume)
              (clearing-Settles (put w i (setting after clearing) told)
                (get_elem?-set w.tasks i _ _ h)))
        | inr f ↦
            stepped w.lock.state w.lock.locked (advances w i after (telling s) h)
              (rw (f, advance, step_set_state) (ended w i (setting after (telling s)) after told h))
      ]

  triggering-Settles :
      (w : World) (s : ServerState)
      → get_elem? w.tasks i ≡ some (setting after (triggering s))
      → Settles i after w.lock.state w.lock.locked w
  unfolding advance step_set_state resume
  triggering-Settles w s h =
      stepped w.lock.state w.lock.locked (advances w i after (triggering s) h)
        (telling-Settles (advance w i after (triggering s)) s (get_elem?-set w.tasks i _ _ h))

  replacing-Settles :
      (w : World) (s : ServerState)
      → get_elem? w.tasks i ≡ some (setting after (replacing s))
      → Settles i after s w.lock.locked w
  unfolding advance step_set_state resume
  replacing-Settles w s h =
      stepped s w.lock.locked (advances w i after (replacing s) h)
        (triggering-Settles (advance w i after (replacing s)) s (get_elem?-set w.tasks i _ _ h))

  resume-Settles :
      (w : World) (x : Task) (next : Option Setting) (l : ServerStateLock)
      → get_elem? w.tasks i ≡ some x
      → Settles i after (state_after next l.state) l.locked (resume w i after next l)
  unfolding resume
  resume-Settles w x none l h = ended w i x after l h
  resume-Settles w x (some (replacing s)) l h =
      replacing-Settles (put w i (setting after (replacing s)) l) s (get_elem?-set w.tasks i x _ h)
  resume-Settles w x (some (triggering s)) l h =
      triggering-Settles (put w i (setting after (triggering s)) l) s
        (get_elem?-set w.tasks i x _ h)
  resume-Settles w x (some (telling s)) l h =
      telling-Settles (put w i (setting after (telling s)) l) s (get_elem?-set w.tasks i x _ h)
  resume-Settles w x (some clearing) l h =
      clearing-Settles (put w i (setting after clearing) l) (get_elem?-set w.tasks i x _ h)

-- A call that finds the mutex free, whose action fails, and during which no other task takes a step leaves the
-- state that it read first, and the mutex free.
pub fails-Alone :
    (w : World) (i : ℕ) (target old : ServerState) (timeout : Bool)
    → get_elem? w.tasks i ≡ some (waiting target old timeout)
    → w.lock.locked ≡ false
    → (v : World) × Alone i w v
      × (get_elem? v.tasks i ≡ some (returned failed))
      × (v.lock.state ≡ old)
      × (v.lock.locked ≡ false)
unfolding acquire fail
fails-Alone w i target old timeout h free =
    let l = take_lock w.lock in
    let (u, entered, at_action, _, _) =
      resume-Settles i (acts target old) w (waiting target old timeout) (set_state target l) l h in
    let (v, left, at_end, state, unlocked) =
      resume-Settles i fails_then u (acting target old) (set_state old u.lock) u.lock at_action in
    (
      v,
      Alone-append
          (then_step
            (Alone-append (then_step still (acquires w i target old timeout h free)) entered)
            (fails u i target old at_action))
          left,
      at_end,
      state ∙ set_state-state old u.lock,
      unlocked,
    )
