-- ===== src/Schedule/Executor/Steps.antt =====
-- application/src/server/schedule/mod.rs: the loop at a step that is no marker.
use ailes.Common.{true, false, Option, none, some, List, [], ◌∷◌, ◌≡◌, refl, ◌∙◌, ap, arith}
use ailes.Common.Machine.{Uuid}
use ailes.Schedule.{ScheduleExecutionContext}
use ailes.Schedule.Actions.{ActionError, World, execute}
use ailes.Schedule.Executor.{
  RawAction, ConditionFrame, Running, Round, go, break_off, all_active, enter, send_step_status,
  settle, run_plain, run_action, run_actions,
}
use ailes.Schedule.Executor.Blocks.{
  Step, pause, require, leave, print, match_groups, call, step_action, Flow, goes, stops, flow,
  and_then, finish, pass_over, step_meaning,
}

abbrev restack : {W : Type 0} → List ConditionFrame → Round W → Round W
restack stack (go other r) = go stack r
restack stack (break_off r) = break_off r

pub finish-and_then :
    {W : Type 0} (f : Flow W) (k : Running W → Flow W) (h : Running W → Running W)
    → finish (and_then f k) h ≡ finish f (λ r. finish (k r) h)
finish-and_then (goes r) k h = refl
finish-and_then (stops r) k h = refl

module _ {F A W : Type 0} (env : World F A W) where
  settle-restack :
      (stack : List ConditionFrame) (a : RawAction F A) (r : Running W)
      (x : (W × ScheduleExecutionContext) × Option ActionError)
      → settle env stack a r x ≡ restack stack (settle env [] a r x)
  settle-restack stack a r ((w, c), none) = refl
  settle-restack stack a r ((w, c), some error) = ground arith

  run_plain-restack :
      (stack : List ConditionFrame) (a : RawAction F A) (r : Running W)
      → all_active stack ≡ true
      → run_plain env a stack r ≡ restack stack (run_plain env a [] r)
  unfolding run_plain
  run_plain-restack stack a r h = rw h (
      let r' = send_step_status a.uuid false r in
      settle-restack stack a r' (execute env a.action r'.world r'.context))

  run_action-restack :
      (stack : List ConditionFrame) (uuid : Uuid) (step : Step F A) (r : Running W)
      → all_active stack ≡ true
      → run_action env
          (record { uuid = uuid; action = step_action step })
          (step_action step)
          stack
          r
        ≡ restack stack (
            run_action env
              (record { uuid = uuid; action = step_action step })
              (step_action step)
              []
              r)
  unfolding run_action
  run_action-restack stack uuid (pause n) r h = run_plain-restack stack _ r h
  run_action-restack stack uuid (require condition) r h = run_plain-restack stack _ r h
  run_action-restack stack uuid (leave succeeds) r h = rw h refl
  run_action-restack stack uuid (print fmt output_into) r h = run_plain-restack stack _ r h
  run_action-restack stack uuid (match_groups input captures output_into) r h =
      run_plain-restack stack _ r h
  run_action-restack stack uuid (call ignored action) r h = run_plain-restack stack _ r h

  run_action-skips :
      (stack : List ConditionFrame) (uuid : Uuid) (step : Step F A) (r : Running W)
      → all_active stack ≡ false
      → run_action env
          (record { uuid = uuid; action = step_action step })
          (step_action step)
          stack
          r
        ≡ go stack (send_step_status uuid true r)
  unfolding run_action run_plain
  run_action-skips stack uuid (pause n) r h = rw h refl
  run_action-skips stack uuid (require condition) r h = rw h refl
  run_action-skips stack uuid (leave succeeds) r h = rw h refl
  run_action-skips stack uuid (print fmt output_into) r h = rw h refl
  run_action-skips stack uuid (match_groups input captures output_into) r h = rw h refl
  run_action-skips stack uuid (call ignored action) r h = rw h refl

pub finish_cong :
    {W : Type 0} (f : Flow W) {h k : Running W → Running W}
    → ((r : Running W) → h r ≡ k r)
    → finish f h ≡ finish f k
finish_cong (goes r) same = same r
finish_cong (stops r) same = refl

module _ {F A W : Type 0} (env : World F A W) where
  abbrev pub proceed : List (RawAction F A) → Round W → Running W
  proceed actions (go stack r) = run_actions env actions stack r
  proceed actions (break_off r) = r

  proceed-restack :
      (actions : List (RawAction F A)) (stack : List ConditionFrame) (x : Round W)
      → proceed actions (restack stack x) ≡ finish (flow x) (run_actions env actions stack)
  proceed-restack actions stack (go other r) = refl
  proceed-restack actions stack (break_off r) = refl

  pub run_actions-proceed :
      (a : RawAction F A) (actions : List (RawAction F A)) (stack : List ConditionFrame)
      (r : Running W)
      → run_actions env (a ∷ actions) stack r
        ≡ proceed actions (run_action env a a.action stack (enter a.uuid r))
  unfolding run_actions
  run_actions-proceed a actions stack r = elim (run_action env a a.action stack (enter a.uuid r)) [
    | go stack' r' ↦ refl
    | break_off r' ↦ refl
  ]

  pub run_actions-step :
      (uuid : Uuid) (step : Step F A) (actions : List (RawAction F A)) (stack : List ConditionFrame)
      (r : Running W)
      → all_active stack ≡ true
      → run_actions env (record { uuid = uuid; action = step_action step } ∷ actions) stack r
        ≡ finish (step_meaning env uuid step r) (run_actions env actions stack)
  run_actions-step uuid step actions stack r h =
      run_actions-proceed _ actions stack r
      ∙ ap (proceed actions) (run_action-restack env stack uuid step (enter uuid r) h)
      ∙ proceed-restack actions stack (
          run_action env (record { uuid = uuid; action = step_action step }) (step_action step) []
            (enter uuid r))

  pub run_actions-skip :
      (uuid : Uuid) (step : Step F A) (actions : List (RawAction F A)) (stack : List ConditionFrame)
      (r : Running W)
      → all_active stack ≡ false
      → run_actions env (record { uuid = uuid; action = step_action step } ∷ actions) stack r
        ≡ run_actions env actions stack (pass_over uuid r)
  run_actions-skip uuid step actions stack r h =
      run_actions-proceed _ actions stack r
      ∙ ap (proceed actions) (run_action-skips env stack uuid step (enter uuid r) h)
