-- ===== src/Schedule/Executor/Trees.antt =====
-- application/src/server/schedule/mod.rs: a whole round of the executor task as its tree runs.
use ailes.Common.{true, none, List, [], ◌≡◌, sym, ◌∙◌, ap}
use ailes.Schedule.{ScheduleExecutionContext}
use ailes.Schedule.Actions.{World}
use ailes.Schedule.Executor.{
  RawAction, max_if_depth, ScheduleStatus, Running, validate_action_structure, run_actions, report,
  begin, complete, run_schedule,
}
use ailes.Schedule.Executor.Blocks.{Block, flatten, fits, finish, meaning}
use ailes.Schedule.Executor.Structure.{validate_action_structure_iff}
use ailes.Schedule.Executor.Refines.{run_actions-flatten}

module _ {F A W : Type 0} (env : World F A W) where
  -- What a round does with a tree.
  abbrev pub run_tree : Block F A → W → ScheduleStatus → ScheduleExecutionContext → Running W
  run_tree b w status c = complete (finish (meaning env true b (begin w status c)) (λ r. r))

  run_actions-tree :
      (b : Block F A) (r : Running W)
      → run_actions env (flatten b []) [] r ≡ finish (meaning env true b r) (λ r. r)
  unfolding run_actions
  run_actions-tree b r = run_actions-flatten env b [] [] r

  run_accepted :
      (actions : List (RawAction F A)) (w : W) (status : ScheduleStatus)
      (c : ScheduleExecutionContext)
      → validate_action_structure actions ≡ none
      → run_schedule env actions w status c
        ≡ complete (run_actions env actions [] (begin w status c))
  unfolding run_schedule
  run_accepted actions w status c h = ap (λ x. complete (report env actions x (begin w status c))) h

  -- Actions that are accepted are those of a tree with no more than eight blocks in one another, and a round
  -- with them does what the tree means.
  pub run_schedule-run_tree :
      (actions : List (RawAction F A)) (w : W) (status : ScheduleStatus)
      (c : ScheduleExecutionContext)
      → validate_action_structure actions ≡ none
      → (b : Block F A) × (fits max_if_depth b ≡ true)
        × (flatten b [] ≡ actions)
        × (run_schedule env actions w status c ≡ run_tree b w status c)
  run_schedule-run_tree actions w status c h =
      let (b, f, p) = (validate_action_structure_iff actions).0 h in
      (
        b,
        f,
        p,
        run_accepted actions w status c h
            ∙ ap (λ actions. complete (run_actions env actions [] (begin w status c))) (sym p)
            ∙ ap complete (run_actions-tree b (begin w status c)),
      )
