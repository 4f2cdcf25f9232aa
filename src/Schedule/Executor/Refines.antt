-- ===== src/Schedule/Executor/Refines.antt =====
-- application/src/server/schedule/mod.rs: the loop over a tree's actions against what the tree means.
use ailes.Common.{Bool, true, false, not, ◌&&◌, ◌||◌, List, ◌∷◌, ◌≡◌, refl, sym, ◌∙◌, ap}
use ailes.Common.Machine.{Uuid}
use ailes.Schedule.Conditions.{ScheduleCondition}
use ailes.Schedule.Actions.{World}
use ailes.Schedule.Executor.{
  RawAction, ConditionFrame, Running, all_active, run_action, run_actions, meets,
}
use ailes.Schedule.Executor.Blocks.{
  Step, Block, done, plain, branch, Chain, close, otherwise, also_if, flatten, flatten_chain, Flow,
  and_then, finish, mark, pass_over, step_meaning, meaning, meaning_chain,
}
use ailes.Schedule.Executor.Steps.{
  finish-and_then, finish_cong, run_actions-proceed, run_actions-step, run_actions-skip,
}

met_absorbs : (p m : Bool) → ((p && m) && p) ≡ (p && m)
met_absorbs true true = refl
met_absorbs true false = refl
met_absorbs false m = refl

module _ {F A W : Type 0} (env : World F A W) where
  -- A body that is met or not, with what stands behind it.
  abbrev RunsAs : Block F A → Type 0
  RunsAs b =
      (actions : List (RawAction F A)) (stack : List ConditionFrame) (active : Bool) (r : Running W)
      → all_active stack ≡ active
      → run_actions env (flatten b actions) stack r
        ≡ finish (meaning env active b r) (run_actions env actions stack)

  abbrev ChainRunsAs : Chain F A → Type 0
  ChainRunsAs chain =
      (actions : List (RawAction F A)) (stack : List ConditionFrame) (p x t : Bool) (r : Running W)
      → all_active stack ≡ p
      → run_actions env (flatten_chain chain actions)
          (record { parent_active = p; active = x; branch_taken = t } ∷ stack) r
        ≡ finish (meaning_chain env p t chain r) (run_actions env actions stack)

  run-then :
      (f : Flow W) (k : Running W → Flow W) (h g : Running W → Running W)
      → ((r : Running W) → h r ≡ finish (k r) g)
      → finish f h ≡ finish (and_then f k) g
  run-then f k h g same = finish_cong f same ∙ sym (finish-and_then f k g)

  run-then_then :
      (f : Flow W) (k k2 : Running W → Flow W) (h g : Running W → Running W)
      → ((r : Running W) → h r ≡ finish (k2 r) g)
      → finish (and_then f k) h ≡ finish (and_then f (λ r. and_then (k r) k2)) g
  run-then_then f k k2 h g same =
      finish-and_then f k h
      ∙ run-then f (λ r. and_then (k r) k2) (λ r. finish (k r) h) g
          (λ r. run-then (k r) k2 h g same)

  run-done : RunsAs done
  unfolding flatten meaning
  run-done actions stack active r h = refl

  run-plain :
      (uuid : Uuid) (step : Step F A) (b : Block F A) → RunsAs b → RunsAs (plain uuid step b)
  unfolding flatten meaning
  run-plain uuid step b runs actions stack true r h =
      run_actions-step env uuid step (flatten b actions) stack r h
      ∙ run-then (step_meaning env uuid step r) (meaning env true b)
          (run_actions env (flatten b actions) stack) (run_actions env actions stack)
          (λ r1. runs actions stack true r1 h)
  run-plain uuid step b runs actions stack false r h =
      run_actions-skip env uuid step (flatten b actions) stack r h
      ∙ runs actions stack false (pass_over uuid r) h

  -- The frame of a block whose body is met or not.
  run-body :
      (body : Block F A) (chain : Chain F A) (actions : List (RawAction F A))
      (stack : List ConditionFrame) (p m t : Bool) (r : Running W)
      → RunsAs body
      → ChainRunsAs chain
      → all_active stack ≡ p
      → run_actions env
          (flatten body (flatten_chain chain actions))
          (record { parent_active = p; active = p && m; branch_taken = t } ∷ stack)
          r
        ≡ finish
            (and_then (meaning env (p && m) body r) (meaning_chain env p t chain))
            (run_actions env actions stack)
  run-body body chain actions stack p m t r runs chain_runs h =
      runs _ _ (p && m) r (ap (λ q. (p && m) && q) h ∙ met_absorbs p m)
      ∙ run-then (meaning env (p && m) body r) (meaning_chain env p t chain)
          (run_actions env (flatten_chain chain actions)
            (record { parent_active = p; active = p && m; branch_taken = t } ∷ stack))
          (run_actions env actions stack) (λ r1. chain_runs actions stack p (p && m) t r1 h)

  run-branch :
      (uuid : Uuid) (condition : ScheduleCondition F) (body : Block F A) (chain : Chain F A)
      (b : Block F A)
      → RunsAs body
      → ChainRunsAs chain
      → RunsAs b
      → RunsAs (branch uuid condition body chain b)
  unfolding flatten meaning run_action
  run-branch uuid condition body chain b runs chain_runs after actions stack active r h =
      let r1 = mark uuid r in
      let m = meets env condition r1 in
      run_actions-proceed env _ (flatten body (flatten_chain chain (flatten b actions))) stack r
      ∙ ap
          (λ p.
            run_actions env (flatten body (flatten_chain chain (flatten b actions)))
              (record { parent_active = p; active = p && m; branch_taken = p && m } ∷ stack) r1)
          h
      ∙ run-body body chain (flatten b actions) stack active m (active && m) r1 runs chain_runs h
      ∙ run-then_then (meaning env (active && m) body r1)
          (meaning_chain env active (active && m) chain) (meaning env active b)
          (run_actions env (flatten b actions) stack) (run_actions env actions stack)
          (λ r2. after actions stack active r2 h)

  run-close : (uuid : Uuid) → ChainRunsAs (close uuid)
  unfolding flatten meaning run_action run_actions
  run-close uuid actions stack p x t r h = refl

  run-otherwise :
      (uuid : Uuid) (body : Block F A) (closing : Uuid)
      → RunsAs body
      → ChainRunsAs (otherwise uuid body closing)
  unfolding flatten meaning run_action
  run-otherwise uuid body closing runs actions stack p x t r h =
      let frame : ConditionFrame = record { parent_active = p; active = x; branch_taken = t } in
      run_actions-proceed env _ (flatten body (flatten_chain (close closing) actions))
        (frame ∷ stack) r
      ∙ run-body body (close closing) actions stack p (not t) true (mark uuid r) runs
          (run-close closing) h

  run-also_if :
      (uuid : Uuid) (condition : ScheduleCondition F) (body : Block F A) (chain : Chain F A)
      → RunsAs body
      → ChainRunsAs chain
      → ChainRunsAs (also_if uuid condition body chain)
  unfolding flatten meaning run_action
  run-also_if uuid condition body chain runs chain_runs actions stack p x t r h =
      let frame : ConditionFrame = record { parent_active = p; active = x; branch_taken = t } in
      let m = not t && meets env condition (mark uuid r) in
      run_actions-proceed env _ (flatten body (flatten_chain chain actions)) (frame ∷ stack) r
      ∙ run-body body chain actions stack p m (t || (p && m)) (mark uuid r) runs chain_runs h

  mutual
    block_runs : (b : Block F A) → RunsAs b
    block_runs done = run-done
    block_runs (plain uuid step b) = run-plain uuid step b (block_runs b)
    block_runs (branch uuid condition body chain b) =
        run-branch uuid condition body chain b (block_runs body) (chain_runs chain) (block_runs b)

    chain_runs : (chain : Chain F A) → ChainRunsAs chain
    chain_runs (close uuid) = run-close uuid
    chain_runs (otherwise uuid body closing) = run-otherwise uuid body closing (block_runs body)
    chain_runs (also_if uuid condition body chain) =
        run-also_if uuid condition body chain (block_runs body) (chain_runs chain)

  -- The loop over a tree's actions and others does what the tree means with the stack's frames all active
  -- or not, and where that is not stopped, the others.
  pub run_actions-flatten :
      (b : Block F A) (actions : List (RawAction F A)) (stack : List ConditionFrame) (r : Running W)
      → run_actions env (flatten b actions) stack r
        ≡ finish (meaning env (all_active stack) b r) (run_actions env actions stack)
  run_actions-flatten b actions stack r = block_runs b actions stack (all_active stack) r refl
