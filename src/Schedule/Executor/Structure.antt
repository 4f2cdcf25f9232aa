-- ===== src/Schedule/Executor/Structure.antt =====
-- application/src/server/schedule/mod.rs: what `validate_action_structure` accepts.
use ailes.Common.{
  ℕ, zero, suc, ◌+◌, Bool, true, false, Option, none, some, List, [], ◌∷◌, ◌≡◌, ◌≢◌, ◌↔◌, refl, sym,
  ◌∙◌, ap, length, arith,
}
use ailes.Common.Machine.{Uuid}
use ailes.Schedule.Conditions.{ScheduleCondition}
use ailes.Schedule.Actions.{
  ScheduleAction, sleep, ensure, if_cond, else_if, else_branch, end_if, exit, format, match_regex,
  other, StructureError, too_deep,
}
use ailes.Schedule.Executor.{
  RawAction, max_if_depth, Checked, opened, wrong, check_action, check_actions,
  validate_action_structure,
}
use ailes.Schedule.Executor.Blocks.{
  Step, pause, require, leave, print, match_groups, call, step_action, Block, done, plain, branch,
  Chain, close, otherwise, also_if, flatten, flatten_chain, fits, fits_chain,
}
use ailes.Schedule.Executor.Closing.{
  at_, Closes, Closes-step, Closes-if, Closes-else_if, Closes-else, Closes-end_if,
}

distinct : {B : Type 0} (b : B) → some b ≢ none
distinct b p = ground arith

module _ {F A : Type 0} where
  abbrev go_on : Uuid → List (RawAction F A) → Checked → Option (Uuid × StructureError)
  go_on uuid rest (wrong error) = some (uuid, error)
  go_on uuid rest (opened stack) = check_actions rest stack

  check_actions-go_on :
      (uuid : Uuid) (action : ScheduleAction F A) (rest : List (RawAction F A))
      (stack : List (Uuid × Bool))
      → check_actions (at_ uuid action ∷ rest) stack
        ≡ go_on uuid rest (check_action uuid action stack)
  unfolding check_actions
  check_actions-go_on uuid action rest stack = elim (check_action uuid action stack) [
    | wrong error ↦ refl
    | opened stack' ↦ refl
  ]

  check_actions-at :
      (uuid : Uuid) (action : ScheduleAction F A) (rest : List (RawAction F A))
      (stack : List (Uuid × Bool)) (x : Checked)
      → check_action uuid action stack ≡ x
      → check_actions (at_ uuid action ∷ rest) stack ≡ go_on uuid rest x
  check_actions-at uuid action rest stack x p =
      check_actions-go_on uuid action rest stack ∙ ap (go_on uuid rest) p

  check_actions-if_deep :
      (uuid : Uuid) (condition : ScheduleCondition F) (rest : List (RawAction F A))
      (stack : List (Uuid × Bool))
      → length stack ≡ max_if_depth
      → check_actions (at_ uuid (if_cond condition) ∷ rest) stack ≡ some (uuid, too_deep)
  unfolding check_action
  check_actions-if_deep uuid condition rest stack h =
      check_actions-at uuid (if_cond condition) rest stack (wrong too_deep) (ground arith)

  check_actions-if_room :
      (uuid : Uuid) (condition : ScheduleCondition F) (rest : List (RawAction F A)) (n : ℕ)
      (stack : List (Uuid × Bool))
      → suc n + length stack ≡ max_if_depth
      → check_actions (at_ uuid (if_cond condition) ∷ rest) stack
        ≡ check_actions rest ((uuid, false) ∷ stack)
  unfolding check_action
  check_actions-if_room uuid condition rest n stack h =
      check_actions-at uuid (if_cond condition) rest stack (opened ((uuid, false) ∷ stack))
        (ground arith)

  abbrev Accepted : List (RawAction F A) → Type 0
  Accepted actions =
      (n : ℕ) (stack : List (Uuid × Bool))
      → n + length stack ≡ max_if_depth
      → check_actions actions stack ≡ none
      → Closes n stack actions

  Accepted-if :
      (uuid : Uuid) (condition : ScheduleCondition F) (rest : List (RawAction F A))
      → Accepted rest
      → Accepted (at_ uuid (if_cond condition) ∷ rest)
  unfolding check_actions check_action
  Accepted-if uuid condition rest after zero stack room h = absurd (
      distinct (uuid, too_deep)
        (sym (check_actions-if_deep uuid condition rest stack (omega arith)) ∙ h))
  Accepted-if uuid condition rest after (suc n) stack room h =
      Closes-if n stack uuid condition rest (
        after n ((uuid, false) ∷ stack) (omega arith)
          (sym (check_actions-if_room uuid condition rest n stack room) ∙ h))

  Accepted-action :
      (action : ScheduleAction F A) (uuid : Uuid) (rest : List (RawAction F A))
      → Accepted rest
      → Accepted (at_ uuid action ∷ rest)
  unfolding check_actions check_action
  Accepted-action (if_cond condition) uuid rest after n stack room h =
      Accepted-if uuid condition rest after n stack room h
  Accepted-action (else_if condition) uuid rest after n [] room h = ground arith
  Accepted-action (else_if condition) uuid rest after n ((u, true) ∷ stack) room h = ground arith
  Accepted-action (else_if condition) uuid rest after n ((u, false) ∷ stack) room h =
      Closes-else_if n stack u uuid condition rest (after n _ room h)
  Accepted-action else_branch uuid rest after n [] room h = ground arith
  Accepted-action else_branch uuid rest after n ((u, true) ∷ stack) room h = ground arith
  Accepted-action else_branch uuid rest after n ((u, false) ∷ stack) room h =
      Closes-else n stack u uuid rest (after n _ room h)
  Accepted-action end_if uuid rest after n [] room h = ground arith
  Accepted-action end_if uuid rest after n ((u, e) ∷ stack) room h =
      Closes-end_if n stack u uuid e rest (after (suc n) stack (ground arith) h)
  Accepted-action (sleep duration) uuid rest after n stack room h =
      Closes-step n stack uuid (pause duration) rest (after n stack room h)
  Accepted-action (ensure condition) uuid rest after n stack room h =
      Closes-step n stack uuid (require condition) rest (after n stack room h)
  Accepted-action (exit succeeds) uuid rest after n stack room h =
      Closes-step n stack uuid (leave succeeds) rest (after n stack room h)
  Accepted-action (format fmt output_into) uuid rest after n stack room h =
      Closes-step n stack uuid (print fmt output_into) rest (after n stack room h)
  Accepted-action (match_regex input captures output_into) uuid rest after n stack room h =
      Closes-step n stack uuid (match_groups input captures output_into) rest (after n stack room h)
  Accepted-action (other ignored action) uuid rest after n stack room h =
      Closes-step n stack uuid (call ignored action) rest (after n stack room h)

  accepted : (actions : List (RawAction F A)) → Accepted actions
  unfolding check_actions fits flatten
  accepted [] n [] room h = (done, refl, refl)
  accepted [] n ((uuid, e) ∷ stack) room h = ground arith
  accepted (a ∷ actions) n stack room h =
      Accepted-action a.action a.uuid actions (accepted actions) n stack room h

  check_actions-step :
      (uuid : Uuid) (step : Step F A) (rest : List (RawAction F A)) (stack : List (Uuid × Bool))
      → check_actions (at_ uuid (step_action step) ∷ rest) stack ≡ check_actions rest stack
  unfolding check_actions check_action
  check_actions-step uuid (pause duration) rest stack = refl
  check_actions-step uuid (require condition) rest stack = refl
  check_actions-step uuid (leave succeeds) rest stack = refl
  check_actions-step uuid (print fmt output_into) rest stack = refl
  check_actions-step uuid (match_groups input captures output_into) rest stack = refl
  check_actions-step uuid (call ignored action) rest stack = refl

  mutual
    unfolding fits flatten check_actions check_action

    check_actions-flatten :
        (n : ℕ) (b : Block F A) (rest : List (RawAction F A)) (stack : List (Uuid × Bool))
        → n + length stack ≡ max_if_depth
        → fits n b ≡ true
        → check_actions (flatten b rest) stack ≡ check_actions rest stack
    check_actions-flatten n done rest stack room h = refl
    check_actions-flatten n (plain uuid step b) rest stack room h =
        check_actions-step uuid step (flatten b rest) stack
        ∙ check_actions-flatten n b rest stack room h
    check_actions-flatten zero (branch uuid condition body chain b) rest stack room h = ground arith
    check_actions-flatten (suc n) (branch uuid condition body chain b) rest stack room h =
        check_actions-if_room uuid condition (flatten body (flatten_chain chain (flatten b rest))) n
          stack room
        ∙ check_actions-flatten n body (flatten_chain chain (flatten b rest))
            ((uuid, false) ∷ stack) (omega arith) (ground arith)
        ∙ check_actions-flatten_chain n chain (flatten b rest) stack uuid room (ground arith)
        ∙ check_actions-flatten (suc n) b rest stack room (ground arith)

    check_actions-flatten_chain :
        (n : ℕ) (chain : Chain F A) (rest : List (RawAction F A)) (stack : List (Uuid × Bool))
        (u : Uuid)
        → suc n + length stack ≡ max_if_depth
        → fits_chain n chain ≡ true
        → check_actions (flatten_chain chain rest) ((u, false) ∷ stack) ≡ check_actions rest stack
    check_actions-flatten_chain n (close uuid) rest stack u room h = refl
    check_actions-flatten_chain n (otherwise uuid body closing) rest stack u room h =
        check_actions-flatten n body _ ((u, true) ∷ stack) (omega arith) h
    check_actions-flatten_chain n (also_if uuid condition body chain) rest stack u room h =
        check_actions-flatten n body (flatten_chain chain rest) ((u, false) ∷ stack) (omega arith)
          (ground arith)
        ∙ check_actions-flatten_chain n chain rest stack u room (ground arith)

  accepts :
      (actions : List (RawAction F A))
      → ((b : Block F A) × (fits max_if_depth b ≡ true) × (flatten b [] ≡ actions))
      → validate_action_structure actions ≡ none
  unfolding validate_action_structure check_actions
  accepts actions (b, h, p) =
      ap (λ actions. check_actions actions []) (sym p)
      ∙ check_actions-flatten max_if_depth b [] [] refl h

  -- Exactly the actions of a tree with no more than eight blocks in one another are accepted.
  pub validate_action_structure_iff :
      (actions : List (RawAction F A))
      → (validate_action_structure actions ≡ none)
        ↔ ((b : Block F A) × (fits max_if_depth b ≡ true) × (flatten b [] ≡ actions))
  unfolding validate_action_structure
  validate_action_structure_iff actions = (accepted actions max_if_depth [] refl, accepts actions)
