-- ===== src/Schedule/Executor/Blocks.antt =====
-- application/src/server/schedule/mod.rs: a schedule's actions as the tree its `if` blocks mean, and what a
-- run of the tree does: the independent description of the executor's loop and its stack of frames.
use ailes.Common.{ℕ, zero, suc, Bool, true, false, not, ◌&&◌, ◌||◌, Option, List, [], ◌∷◌}
use ailes.Common.Text.{Text}
use ailes.Schedule.{ScheduleDynamicParameter}
use ailes.Common.Machine.{Uuid}
use ailes.Schedule.Conditions.{ScheduleCondition}
use ailes.Schedule.Actions.{
  ScheduleAction, sleep, ensure, if_cond, else_if, else_branch, end_if, exit, format, match_regex,
  other, World,
}
use ailes.Schedule.Executor.{
  RawAction, Running, Round, go, break_off, enter, send_step_status, meets, run_action,
}

-- A step that opens, changes or closes no block.
pub data Step (F A : Type 0) : Type 0 where
  pause : ℕ → Step F A
  require : ScheduleCondition F → Step F A
  leave : Bool → Step F A
  print : Text → Text → Step F A
  match_groups :
      ScheduleDynamicParameter
      → (Text → Option (List (Option Text)))
      → List (Option Text)
      → Step F A
  call : Bool → A → Step F A

abbrev pub step_action : {F A : Type 0} → Step F A → ScheduleAction F A
step_action (pause duration) = sleep duration
step_action (require condition) = ensure condition
step_action (leave succeeds) = exit succeeds
step_action (print fmt output_into) = format fmt output_into
step_action (match_groups input captures output_into) = match_regex input captures output_into
step_action (call ignored action) = other ignored action

mutual
  pub data Block (F A : Type 0) : Type 0 where
    done : Block F A
    plain : Uuid → Step F A → Block F A → Block F A
    branch : Uuid → ScheduleCondition F → Block F A → Chain F A → Block F A → Block F A

  -- What follows the first body of a block.
  pub data Chain (F A : Type 0) : Type 0 where
    close : Uuid → Chain F A
    otherwise : Uuid → Block F A → Uuid → Chain F A
    also_if : Uuid → ScheduleCondition F → Block F A → Chain F A → Chain F A

-- A tree's actions, in front of others.
unfoldable mutual
  pub flatten : {F A : Type 0} → Block F A → List (RawAction F A) → List (RawAction F A)
  flatten done rest = rest
  flatten (plain uuid step b) rest =
      record { uuid = uuid; action = step_action step } ∷ flatten b rest
  flatten (branch uuid condition body chain b) rest =
      record { uuid = uuid; action = if_cond condition }
      ∷ flatten body (flatten_chain chain (flatten b rest))

  pub flatten_chain : {F A : Type 0} → Chain F A → List (RawAction F A) → List (RawAction F A)
  flatten_chain (close uuid) rest = record { uuid = uuid; action = end_if } ∷ rest
  flatten_chain (otherwise uuid body closing) rest =
      record { uuid = uuid; action = else_branch }
      ∷ flatten body (record { uuid = closing; action = end_if } ∷ rest)
  flatten_chain (also_if uuid condition body chain) rest =
      record { uuid = uuid; action = else_if condition } ∷ flatten body (flatten_chain chain rest)

-- No more blocks stand in one another than the number.
unfoldable mutual
  pub fits : {F A : Type 0} → ℕ → Block F A → Bool
  fits n done = true
  fits n (plain uuid step b) = fits n b
  fits zero (branch uuid condition body chain b) = false
  fits (suc n) (branch uuid condition body chain b) =
      fits n body && (fits_chain n chain && fits (suc n) b)

  pub fits_chain : {F A : Type 0} → ℕ → Chain F A → Bool
  fits_chain n (close uuid) = true
  fits_chain n (otherwise uuid body closing) = fits n body
  fits_chain n (also_if uuid condition body chain) = fits n body && fits_chain n chain

-- A run goes on, or was stopped.
pub data Flow (W : Type 0) : Type 0 where
  goes stops : Running W → Flow W

abbrev pub flow : {W : Type 0} → Round W → Flow W
flow (go stack r) = goes r
flow (break_off r) = stops r

abbrev pub and_then : {W : Type 0} → Flow W → (Running W → Flow W) → Flow W
and_then (goes r) next = next r
and_then (stops r) next = stops r

abbrev pub finish : {W : Type 0} → Flow W → (Running W → Running W) → Running W
finish (goes r) next = next r
finish (stops r) next = r

-- A marker of a block, and a step that is skipped.
abbrev pub mark : {W : Type 0} → Uuid → Running W → Running W
mark uuid r = send_step_status uuid false (enter uuid r)

abbrev pub pass_over : {W : Type 0} → Uuid → Running W → Running W
pass_over uuid r = send_step_status uuid true (enter uuid r)

module _ {F A W : Type 0} (env : World F A W) where
  -- A step where it is not skipped does what it does outside of all blocks.
  abbrev pub step_meaning : Uuid → Step F A → Running W → Flow W
  step_meaning uuid step r = flow (
      run_action env (record { uuid = uuid; action = step_action step }) (step_action step) []
        (enter uuid r))

  unfoldable mutual
    pub meaning : (active : Bool) → Block F A → Running W → Flow W
    meaning active done r = goes r
    meaning true (plain uuid step b) r = and_then (step_meaning uuid step r) (meaning true b)
    meaning false (plain uuid step b) r = meaning false b (pass_over uuid r)
    meaning active (branch uuid condition body chain b) r =
        let met = active && meets env condition (mark uuid r) in
        and_then (meaning met body (mark uuid r))
          (λ r1. and_then (meaning_chain active met chain r1) (meaning active b))

    -- `taken` says whether a body of the block was chosen.
    pub meaning_chain : (active taken : Bool) → Chain F A → Running W → Flow W
    meaning_chain active taken (close uuid) r = goes (mark uuid r)
    meaning_chain active taken (otherwise uuid body closing) r =
        and_then (meaning (active && not taken) body (mark uuid r)) (λ r1. goes (mark closing r1))
    meaning_chain active taken (also_if uuid condition body chain) r =
        let met = active && (not taken && meets env condition (mark uuid r)) in
        and_then (meaning met body (mark uuid r)) (meaning_chain active (taken || met) chain)
