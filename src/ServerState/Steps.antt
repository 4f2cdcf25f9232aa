-- ===== src/ServerState/Steps.antt =====
-- application/src/server/state.rs: the tasks that share the lock, each step up to the next atomic operation. A
-- task calls `execute_action`, or `set_state` or `set_pending_restart` without the mutex.
use ailes.Common.{ℕ, Bool, true, false, Option, none, some, List, get_elem?, set, ◌≡◌}
use ailes.ServerState.{
  ServerState, ServerStateLock, Setting, set_state, step_set_state, Flagging, set_pending_restart,
  step_pending,
}

-- What `execute_action` answers.
pub data Answer : Type 0 where
  done : Bool → Answer
  failed : Answer

-- What follows a call of `set_state`: the action with its target and the state that was read first, the error of
-- the action, or nothing.
pub data After : Type 0 where
  acts : ServerState → ServerState → After
  fails_then : After
  ends : After

-- `waiting` has the target, the state that was read first, and whether the mutex is awaited up to a timeout.
pub data Task : Type 0 where
  idle : Task
  waiting : ServerState → ServerState → Bool → Task
  setting : After → Setting → Task
  acting : ServerState → ServerState → Task
  flagging : Flagging → Task
  returned : Answer → Task

pub record World : Type 0 where
  pub lock : ServerStateLock
  pub tasks : List Task

abbrev pub take_lock : ServerStateLock → ServerStateLock
take_lock l = record l { locked = true }

abbrev pub release_lock : ServerStateLock → ServerStateLock
release_lock l = record l { locked = false }

abbrev pub put : World → ℕ → Task → ServerStateLock → World
put w i t l = record { lock = l; tasks = set w.tasks i t }

-- `let old_state = self.get_state()`
unfoldable pub begin : World → ℕ → ServerState → Bool → World
begin w i target timeout = put w i (waiting target w.lock.state timeout) w.lock

-- Behind a step of a call of `set_state`; the guard is dropped behind the call of an action that failed.
unfoldable pub resume : World → ℕ → After → Option Setting → ServerStateLock → World
resume w i after (some s) l = put w i (setting after s) l
resume w i (acts target old) none l = put w i (acting target old) l
resume w i fails_then none l = put w i (returned failed) (release_lock l)
resume w i ends none l = put w i idle l

-- The mutex is taken, and the call that sets the target state begins.
unfoldable pub acquire : World → ℕ → ServerState → ServerState → World
unfolding resume
acquire w i target old =
    let l = take_lock w.lock in resume w i (acts target old) (set_state target l) l

unfoldable pub advance : World → ℕ → After → Setting → World
unfolding resume
advance w i after s = let (next, l) = step_set_state s w.lock in resume w i after next l

-- The action ends well, and the guard is dropped.
unfoldable pub succeed : World → ℕ → World
succeed w i = put w i (returned (done true)) (release_lock w.lock)

-- The action fails, and the call that sets the state that was read first begins.
unfoldable pub fail : World → ℕ → ServerState → World
unfolding resume
fail w i old = resume w i fails_then (set_state old w.lock) w.lock

-- The mutex was not free, or not until the timeout.
unfoldable pub refuse : World → ℕ → World
refuse w i = put w i (returned (done false)) w.lock

unfoldable pub call_set_state : World → ℕ → ServerState → World
unfolding resume
call_set_state w i s = resume w i ends (set_state s w.lock) w.lock

unfoldable pub flag : World → ℕ → Option Flagging → ServerStateLock → World
flag w i none l = put w i idle l
flag w i (some p) l = put w i (flagging p) l

unfoldable pub call_set_pending_restart : World → ℕ → Bool → World
unfolding flag
call_set_pending_restart w i pending = flag w i (set_pending_restart pending w.lock) w.lock

unfoldable pub advance_flag : World → ℕ → Flagging → World
unfolding flag
advance_flag w i p = let (next, l) = step_pending p w.lock in flag w i next l

-- One step of a task.
pub data Step : ℕ → World → World → Type 0 where
  begins :
      (w : World) (i : ℕ) (target : ServerState) (timeout : Bool)
      → get_elem? w.tasks i ≡ some idle
      → Step i w (begin w i target timeout)
  acquires :
      (w : World) (i : ℕ) (target old : ServerState) (timeout : Bool)
      → get_elem? w.tasks i ≡ some (waiting target old timeout)
      → w.lock.locked ≡ false
      → Step i w (acquire w i target old)
  gives_up :
      (w : World) (i : ℕ) (target old : ServerState) (timeout : Bool)
      → get_elem? w.tasks i ≡ some (waiting target old timeout)
      → w.lock.locked ≡ true
      → Step i w (refuse w i)
  advances :
      (w : World) (i : ℕ) (after : After) (s : Setting)
      → get_elem? w.tasks i ≡ some (setting after s)
      → Step i w (advance w i after s)
  succeeds :
      (w : World) (i : ℕ) (target old : ServerState)
      → get_elem? w.tasks i ≡ some (acting target old)
      → Step i w (succeed w i)
  fails :
      (w : World) (i : ℕ) (target old : ServerState)
      → get_elem? w.tasks i ≡ some (acting target old)
      → Step i w (fail w i old)
  sets :
      (w : World) (i : ℕ) (s : ServerState)
      → get_elem? w.tasks i ≡ some idle
      → Step i w (call_set_state w i s)
  pends :
      (w : World) (i : ℕ) (pending : Bool)
      → get_elem? w.tasks i ≡ some idle
      → Step i w (call_set_pending_restart w i pending)
  flags :
      (w : World) (i : ℕ) (p : Flagging)
      → get_elem? w.tasks i ≡ some (flagging p)
      → Step i w (advance_flag w i p)

-- Steps of any tasks, and of one alone.
pub data Reach (w : World) : World → Type 0 where
  here : Reach w w
  next : {i : ℕ} {u v : World} → Reach w u → Step i u v → Reach w v

pub data Alone (i : ℕ) (w : World) : World → Type 0 where
  still : Alone i w w
  then_step : {u v : World} → Alone i w u → Step i u v → Alone i w v
