-- ===== src/Schedule/Executor/Locked.antt =====
-- application/src/server/schedule/mod.rs: a round on a server that is locked.
use ailes.Common.{
  Bool, true, false, Option, none, some, List, [], ◌∷◌, ◌≡◌, refl, sym, ◌∙◌, ap, arith, not,
  if◌then◌else◌,
}
use mathlib.Core.Path.{subst}
use ailes.Common.Machine.{Uuid}
use ailes.Common.Text.{Text}
use ailes.Schedule.{ScheduleExecutionContext}
use ailes.Schedule.Actions.{
  ScheduleAction, sleep, ensure, if_cond, else_if, else_branch, end_if, exit, format, match_regex,
  other, ActionError, StructureError, locked_state, World, execute, execute_unlocked,
}
use ailes.Schedule.Executor.{
  RawAction, ConditionFrame, ScheduleStatus, Running, Round, go, break_off, all_active, enter,
  send_step_status, settle, run_plain, run_action, run_actions, report, validate_action_structure,
  begin, run_schedule,
}

module _ {F A W : Type 0} (env : World F A W) where
  abbrev Keeps : Running W → Running W → Type 0
  Keeps r r' = (r'.world ≡ r.world) × (r'.context ≡ r.context)

  abbrev RoundKeeps : Running W → Round W → Type 0
  RoundKeeps r (go stack r') = Keeps r r'
  RoundKeeps r (break_off r') = Keeps r r'

  settle-keeps :
      (stack : List ConditionFrame) (a : RawAction F A) (r : Running W) (error : ActionError)
      → RoundKeeps r (settle env stack a r ((r.world, r.context), some error))
  settle-keeps stack a r error = ground arith

  either-keeps :
      (b : Bool) (r : Running W) (x y : Round W)
      → RoundKeeps r x
      → RoundKeeps r y
      → RoundKeeps r (if b then x else y)
  either-keeps true r x y hx hy = hx
  either-keeps false r x y hx hy = hy

  execute-locked :
      (action : ScheduleAction F A) (w : W) (c : ScheduleExecutionContext) (name : Text)
      → env.locked w ≡ some name
      → execute env action w c ≡ ((w, c), some (locked_state name))
  unfolding execute
  execute-locked action w c name h =
      ap
        (λ o. elim o [
          | some state ↦ ((w, c), some (locked_state state))
          | none ↦ execute_unlocked env action w c
        ])
        h

  run_plain-keeps :
      (a : RawAction F A) (stack : List ConditionFrame) (r : Running W) (name : Text)
      → env.locked r.world ≡ some name
      → RoundKeeps r (run_plain env a stack r)
  unfolding run_plain
  run_plain-keeps a stack r name h =
      let r' = send_step_status a.uuid false r in
      either-keeps (not (all_active stack)) r (go stack (send_step_status a.uuid true r))
        (settle env stack a r' (execute env a.action r.world r.context)) (refl, refl)
        (subst (λ x. RoundKeeps r (settle env stack a r' x))
          (sym (execute-locked a.action r.world r.context name h))
          (settle-keeps stack a r' (locked_state name)))

  run_action-keeps :
      (a : RawAction F A) (action : ScheduleAction F A) (stack : List ConditionFrame)
      (r : Running W) (name : Text)
      → env.locked r.world ≡ some name
      → RoundKeeps r (run_action env a action stack r)
  unfolding run_action
  run_action-keeps a (if_cond condition) stack r name h = (refl, refl)
  run_action-keeps a (else_if condition) stack r name h = (refl, refl)
  run_action-keeps a else_branch stack r name h = (refl, refl)
  run_action-keeps a end_if stack r name h = (refl, refl)
  run_action-keeps a (exit succeeds) stack r name h =
      either-keeps (not (all_active stack)) r (go stack (send_step_status a.uuid true r))
        (break_off (record (send_step_status a.uuid false r) { successful = succeeds }))
        (refl, refl) (refl, refl)
  run_action-keeps a (sleep duration) stack r name h = run_plain-keeps a stack r name h
  run_action-keeps a (ensure condition) stack r name h = run_plain-keeps a stack r name h
  run_action-keeps a (format fmt output_into) stack r name h = run_plain-keeps a stack r name h
  run_action-keeps a (match_regex input captures output_into) stack r name h =
      run_plain-keeps a stack r name h
  run_action-keeps a (other ignored action) stack r name h = run_plain-keeps a stack r name h

  -- What the rest of the loop does behind a round.
  round-keeps :
      (actions : List (RawAction F A)) (r : Running W) (x : Round W) (name : Text)
      → env.locked r.world ≡ some name
      → ((stack : List ConditionFrame) (r : Running W)
          → env.locked r.world ≡ some name
          → Keeps r (run_actions env actions stack r))
      → RoundKeeps r x
      → Keeps r (elim x [ go stack' r' ↦ run_actions env actions stack' r' | break_off r' ↦ r' ])
  round-keeps actions r (go stack r') name h after (pw, pc) =
      let (qw, qc) = after stack r' (ap env.locked pw ∙ h) in (qw ∙ pw, qc ∙ pc)
  round-keeps actions r (break_off r') name h after keeps = keeps

  run_actions-keeps :
      (actions : List (RawAction F A)) (name : Text) (stack : List ConditionFrame) (r : Running W)
      → env.locked r.world ≡ some name
      → Keeps r (run_actions env actions stack r)
  unfolding run_actions
  run_actions-keeps [] name stack r h = (refl, refl)
  run_actions-keeps (a ∷ actions) name stack r h =
      round-keeps actions r (run_action env a a.action stack (enter a.uuid r)) name h
        (run_actions-keeps actions name) (run_action-keeps a a.action stack (enter a.uuid r) name h)

  report-keeps :
      (actions : List (RawAction F A)) (x : Option (Uuid × StructureError)) (r : Running W)
      (name : Text)
      → env.locked r.world ≡ some name
      → Keeps r (report env actions x r)
  report-keeps actions none r name h = run_actions-keeps actions name [] r h
  report-keeps actions (some (uuid, error)) r name h = (refl, refl)

  -- A round on a locked server leaves the server and the variables as they were, whatever its actions.
  pub run_schedule-locked :
      (actions : List (RawAction F A)) (w : W) (status : ScheduleStatus)
      (c : ScheduleExecutionContext) (name : Text)
      → env.locked w ≡ some name
      → let r = run_schedule env actions w status c in (r.world ≡ w) × (r.context ≡ c)
  unfolding run_schedule
  run_schedule-locked actions w status c name h =
      report-keeps actions (validate_action_structure actions) (begin w status c) name h
