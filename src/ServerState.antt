-- ===== src/ServerState.antt =====
-- application/src/server/state.rs: the power state of a server, and the lock under which power
-- actions change it. An operation on the shared object returns the new object.
pub mod Steps
pub mod Exclusion
mod Settling
pub mod Pending
pub mod Waiting
pub mod Reverting
mod Runs
use ailes.Common.{
  Option, none, some, Bool, true, false, not, ◌&&◌, ◌||◌, List, [], ◌∷◌, ◌++◌, if◌then◌else◌, ◌≡◌,
  arith, ◌↔◌,
}
use Prim.Native.String.{String}

pub data ServerState : Type 0 where
  offline starting stopping running : ServerState

unfoldable pub to_str : ServerState → String
to_str offline = "offline"
to_str starting = "starting"
to_str stopping = "stopping"
to_str running = "running"

-- `==` on states.
abbrev pub same_state : ServerState → ServerState → Bool
same_state offline offline = true
same_state starting starting = true
same_state stopping stopping = true
same_state running running = true
same_state _ _ = false

pub same_state_iff : (s t : ServerState) → (same_state s t ≡ true) ↔ (s ≡ t)
same_state_iff s t = ground arith

-- What the lock tells others: a state's schedule trigger, and the two websocket messages.
pub data Notice : Type 0 where
  state_trigger : ServerState → Notice
  server_status : String → Notice
  server_pending_restart : Bool → Notice

pub record ServerStateLock : Type 0 where
  pub state : ServerState
  pub locked : Bool
  pub pending_restart : Bool
  -- In the order in which they were sent.
  pub sent : List Notice

unfoldable pub new : ServerStateLock
new = record { state = offline; locked = false; pending_restart = false; sent = [] }

abbrev pub send : Notice → ServerStateLock → ServerStateLock
send n l = record l { sent = l.sent ++ (n ∷ []) }

-- Where a call of `set_pending_restart` is: behind the load of the flag, and before its store.
pub data Flagging : Type 0 where
  comparing : Flagging
  storing : Bool → Flagging

unfoldable pub store_pending : Bool → ServerStateLock → ServerStateLock
store_pending pending l =
    send (server_pending_restart pending) (record l { pending_restart = pending })

unfoldable pub set_pending_restart : Bool → ServerStateLock → Option Flagging
set_pending_restart pending l =
    if pending then (if l.pending_restart then none else some comparing) else some (storing false)

unfoldable pub step_pending : Flagging → ServerStateLock → Option Flagging × ServerStateLock
unfolding store_pending
step_pending comparing l =
    if same_state l.state offline then (none, l) else (some (storing true), l)
step_pending (storing pending) l = (none, store_pending pending l)

-- Where a call of `set_state` is: behind its comparison, at the schedule trigger, behind it, and before the flag
-- is cleared.
pub data Setting : Type 0 where
  replacing triggering telling : ServerState → Setting
  clearing : Setting

unfoldable pub set_state : ServerState → ServerStateLock → Option Setting
set_state state l = if same_state l.state state then none else some (replacing state)

unfoldable pub step_set_state : Setting → ServerStateLock → Option Setting × ServerStateLock
unfolding store_pending to_str
step_set_state (replacing state) l = (some (triggering state), record l { state = state })
step_set_state (triggering state) l = (some (telling state), send (state_trigger state) l)
step_set_state (telling state) l =
    let told = send (server_status (to_str state)) l in
    if (same_state state offline || same_state state starting) && told.pending_restart
    then (some clearing, told)
    else (none, told)
step_set_state clearing l = (none, store_pending false l)

-- `wait_until`: `seen` are the states that its subscriber sees before the timeout. The sender lives as long as
-- the call, so that `changed` does not fail.
abbrev pub wait_loop : (ServerState → Bool) → List ServerState → Bool
wait_loop predicate [] = false
wait_loop predicate (s ∷ seen) = if predicate s then true else wait_loop predicate seen

unfoldable pub wait_until : (ServerState → Bool) → ServerState → List ServerState → Bool
wait_until predicate current seen = if predicate current then true else wait_loop predicate seen

unfoldable pub wait_for_state : ServerState → ServerState → List ServerState → Bool
unfolding wait_until
wait_for_state target = wait_until (λ s. same_state s target)

unfoldable pub wait_while_state : ServerState → ServerState → List ServerState → Bool
unfolding wait_until
wait_while_state target = wait_until (λ s. not (same_state s target))
