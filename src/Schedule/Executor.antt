-- ===== src/Schedule/Executor.antt =====
-- application/src/server/schedule/mod.rs: `validate_action_structure` and the run of a schedule's actions by
-- the executor task, with its stack of frames, the innermost first.
pub mod Blocks
mod Steps
pub mod Refines
mod Closing
pub mod Structure
pub mod Trees
pub mod Locked
use ailes.Common.{
  ℕ, suc, ◌+◌, Bool, true, false, not, ◌&&◌, ◌||◌, Option, none, some, List, [], ◌∷◌, ◌++◌, length,
  leb, if◌then◌else◌,
}
use ailes.Common.Text.{all}
use ailes.Common.Dict.{Dict, empty, insert, ℕ_key}
use ailes.Common.Machine.{Uuid}
use ailes.Schedule.{ScheduleExecutionContext, new}
use ailes.Schedule.Conditions.{ScheduleCondition, evaluate}
use ailes.Schedule.Actions.{
  ScheduleAction, sleep, ensure, if_cond, else_if, else_branch, end_if, exit, format, match_regex,
  other, ignore_failure, ActionError, structure, StructureError, too_deep, else_if_without_if,
  else_if_after_else, else_without_if, multiple_else, end_if_without_if, never_closed, World,
  execute,
}

-- `configuration::ScheduleAction`.
pub record RawAction (F A : Type 0) : Type 0 where
  pub uuid : Uuid
  pub action : ScheduleAction F A

pub record ConditionFrame : Type 0 where
  pub parent_active : Bool
  pub active : Bool
  pub branch_taken : Bool

abbrev pub max_if_depth : ℕ
max_if_depth = 8

-- What one action does to the stack of open blocks, each with whether its `else` was seen.
pub data Checked : Type 0 where
  opened : List (Uuid × Bool) → Checked
  wrong : StructureError → Checked

unfoldable pub check_action :
    {F A : Type 0} → Uuid → ScheduleAction F A → List (Uuid × Bool) → Checked
check_action uuid (if_cond _) stack =
    if leb max_if_depth (length stack) then wrong too_deep else opened ((uuid, false) ∷ stack)
check_action uuid (else_if _) [] = wrong else_if_without_if
check_action uuid (else_if _) ((u, true) ∷ stack) = wrong else_if_after_else
check_action uuid (else_if _) ((u, false) ∷ stack) = opened ((u, false) ∷ stack)
check_action uuid else_branch [] = wrong else_without_if
check_action uuid else_branch ((u, true) ∷ stack) = wrong multiple_else
check_action uuid else_branch ((u, false) ∷ stack) = opened ((u, true) ∷ stack)
check_action uuid end_if [] = wrong end_if_without_if
check_action uuid end_if (_ ∷ stack) = opened stack
check_action uuid (sleep _) stack = opened stack
check_action uuid (ensure _) stack = opened stack
check_action uuid (exit _) stack = opened stack
check_action uuid (format _ _) stack = opened stack
check_action uuid (match_regex _ _ _) stack = opened stack
check_action uuid (other _ _) stack = opened stack

-- The loop, and the block that is open behind it; none is `Ok(())`.
unfoldable pub check_actions :
    {F A : Type 0} → List (RawAction F A) → List (Uuid × Bool) → Option (Uuid × StructureError)
check_actions [] [] = none
check_actions [] ((uuid, _) ∷ _) = some (uuid, never_closed)
check_actions (a ∷ actions) stack = elim (check_action a.uuid a.action stack) [
  | wrong error ↦ some (a.uuid, error)
  | opened stack' ↦ check_actions actions stack'
]

unfoldable pub validate_action_structure :
    {F A : Type 0} → List (RawAction F A) → Option (Uuid × StructureError)
validate_action_structure actions = check_actions actions []

-- The websocket messages of a run.
pub data Message : Type 0 where
  started completed : Message
  step_status : Uuid → (skipped : Bool) → Message
  step_error : Uuid → ActionError → Message

pub record ScheduleStatus : Type 0 where
  pub running : Bool
  pub errors : Dict Uuid ActionError
  pub step : Option Uuid

-- The world and the variables, the status of the schedule, and the run's errors and success.
pub record Running (W : Type 0) : Type 0 where
  pub world : W
  pub context : ScheduleExecutionContext
  pub status : ScheduleStatus
  pub errors : Dict Uuid ActionError
  pub successful : Bool
  pub sent : List Message

-- A round goes on with its stack, or breaks off.
pub data Round (W : Type 0) : Type 0 where
  go : List ConditionFrame → Running W → Round W
  break_off : Running W → Round W

abbrev pub all_active : List ConditionFrame → Bool
all_active stack = all (λ frame. frame.active) stack

abbrev pub enter : {W : Type 0} → Uuid → Running W → Running W
enter uuid r = record r { status = record r.status { running = true; step = some uuid } }

abbrev pub add_error : {W : Type 0} → Uuid → ActionError → Running W → Running W
add_error uuid error r = record r {
  errors = insert uuid error r.errors;
  status = record r.status { errors = insert uuid error r.status.errors };
  sent = r.sent ++ step_error uuid error ∷ [];
}

abbrev pub send_step_status : {W : Type 0} → Uuid → Bool → Running W → Running W
send_step_status uuid skipped r = record r { sent = r.sent ++ step_status uuid skipped ∷ [] }

abbrev pub top_else_if : Bool → List ConditionFrame → List ConditionFrame
top_else_if met [] = []
top_else_if met (frame ∷ stack) =
    let active = frame.parent_active && (not frame.branch_taken && met) in
    record frame { active = active; branch_taken = frame.branch_taken || active } ∷ stack

abbrev pub top_else : List ConditionFrame → List ConditionFrame
top_else [] = []
top_else (frame ∷ stack) =
    record frame { active = frame.parent_active && not frame.branch_taken; branch_taken = true }
    ∷ stack

abbrev pub popped : List ConditionFrame → List ConditionFrame
popped [] = []
popped (_ ∷ stack) = stack

abbrev pub begin : {W : Type 0} → W → ScheduleStatus → ScheduleExecutionContext → Running W
begin w status c = record {
  world = w;
  context = c;
  status = status;
  errors = empty;
  successful = true;
  sent = started ∷ [];
}

abbrev pub complete : {W : Type 0} → Running W → Running W
complete r = record r {
  status = record r.status { running = false; step = none };
  sent = r.sent ++ completed ∷ [];
}

-- The context that a trigger has left, or a new one.
abbrev pub take_context : Uuid → Option ScheduleExecutionContext → ScheduleExecutionContext
take_context uuid none = new uuid
take_context uuid (some c) = c

module _ {F A W : Type 0} (env : World F A W) where
  abbrev pub meets : ScheduleCondition F → Running W → Bool
  meets condition r = evaluate env.floats (env.look r.world) r.context condition

  -- What an execution leaves, and whether the run goes on.
  abbrev pub settle :
      List ConditionFrame
      → RawAction F A
      → Running W
      → (W × ScheduleExecutionContext) × Option ActionError
      → Round W
  settle stack a r ((w, c), none) = go stack (record r { world = w; context = c })
  settle stack a r ((w, c), some error) =
      let r' = add_error a.uuid error (record r { world = w; context = c }) in
      if not (ignore_failure a.action)
      then break_off (record r' { successful = false })
      else go stack r'

  -- An action that is no marker: skipped in a branch that is not active.
  unfoldable pub run_plain : RawAction F A → List ConditionFrame → Running W → Round W
  run_plain a stack r =
      if not (all_active stack)
      then go stack (send_step_status a.uuid true r)
      else (let r' = send_step_status a.uuid false r in
          settle stack a r' (execute env a.action r'.world r'.context))

  unfoldable pub run_action :
      RawAction F A → ScheduleAction F A → List ConditionFrame → Running W → Round W
  run_action a (if_cond condition) stack r =
      let r' = send_step_status a.uuid false r in
      let parent_active = all_active stack in
      let active = parent_active && meets condition r' in
      go (record { parent_active = parent_active; active = active; branch_taken = active } ∷ stack)
        r'
  run_action a (else_if condition) stack r =
      let r' = send_step_status a.uuid false r in go (top_else_if (meets condition r') stack) r'
  run_action a else_branch stack r = go (top_else stack) (send_step_status a.uuid false r)
  run_action a end_if stack r = go (popped stack) (send_step_status a.uuid false r)
  run_action a (exit succeeds) stack r =
      if not (all_active stack)
      then go stack (send_step_status a.uuid true r)
      else break_off (record (send_step_status a.uuid false r) { successful = succeeds })
  run_action a (sleep duration) stack r = run_plain a stack r
  run_action a (ensure condition) stack r = run_plain a stack r
  run_action a (format fmt output_into) stack r = run_plain a stack r
  run_action a (match_regex input captures output_into) stack r = run_plain a stack r
  run_action a (other ignored action) stack r = run_plain a stack r

  -- The loop over the actions.
  unfoldable pub run_actions : List (RawAction F A) → List ConditionFrame → Running W → Running W
  run_actions [] stack r = r
  run_actions (a ∷ actions) stack r = elim (run_action a a.action stack (enter a.uuid r)) [
    | go stack' r' ↦ run_actions actions stack' r'
    | break_off r' ↦ r'
  ]

  abbrev pub report : List (RawAction F A) → Option (Uuid × StructureError) → Running W → Running W
  report actions (some (uuid, error)) r =
      add_error uuid (structure error) (record r { successful = false })
  report actions none r = run_actions actions [] r

  -- The round of the executor task once the condition is met.
  unfoldable pub run_schedule :
      List (RawAction F A) → W → ScheduleStatus → ScheduleExecutionContext → Running W
  run_schedule actions w status c =
      complete (report actions (validate_action_structure actions) (begin w status c))

  -- A round after a notification; none where the condition is not met. The context left by a trigger is used up.
  unfoldable pub execute_round :
      Uuid
      → (skip_condition : Bool) → ScheduleCondition F
      → List (RawAction F A)
      → Option ScheduleExecutionContext
      → W
      → ScheduleStatus
      → Option (Running W)
  execute_round uuid skip_condition condition actions next w status =
      let c = take_context uuid next in
      if not skip_condition && not (evaluate env.floats (env.look w) c condition)
      then none
      else some (run_schedule actions w status c)
