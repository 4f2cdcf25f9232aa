-- ===== src/Schedule/Executor/Closing.antt =====
-- application/src/server/schedule/mod.rs: actions that close the blocks that are open.
use ailes.Common.{ℕ, suc, Bool, true, false, List, [], ◌∷◌, ◌≡◌, refl, sym, ◌∙◌, ap, arith}
use ailes.Common.Machine.{Uuid}
use ailes.Schedule.Conditions.{ScheduleCondition}
use ailes.Schedule.Actions.{ScheduleAction, if_cond, else_if, else_branch, end_if}
use ailes.Schedule.Executor.{RawAction}
use ailes.Schedule.Executor.Blocks.{
  Step, step_action, Block, done, plain, branch, Chain, close, otherwise, also_if, flatten,
  flatten_chain, fits, fits_chain,
}

module _ {F A : Type 0} where
  abbrev pub at_ : Uuid → ScheduleAction F A → RawAction F A
  at_ uuid action = record { uuid = uuid; action = action }

  -- After an `else` the block only closes.
  abbrev pub OnlyCloses : Bool → Chain F A → Type 0
  OnlyCloses false chain = Unit
  OnlyCloses true chain = (uuid : Uuid) × (chain ≡ close uuid)

  -- Actions that close the open blocks, with room for so many blocks more.
  abbrev pub Closes : ℕ → List (Uuid × Bool) → List (RawAction F A) → Type 0
  Closes n [] actions = (b : Block F A) × (fits n b ≡ true) × (flatten b [] ≡ actions)
  Closes n ((uuid, else_seen) ∷ stack) actions =
      (body : Block F A) × (chain : Chain F A) × (rest : List (RawAction F A)) × (fits n body
        ≡ true)
      × (fits_chain n chain ≡ true)
      × OnlyCloses else_seen chain
      × (flatten body (flatten_chain chain rest) ≡ actions)
      × Closes (suc n) stack rest

  -- A front that a block can have.
  pub Closes-front :
      (n : ℕ) (stack : List (Uuid × Bool)) (front : List (RawAction F A) → List (RawAction F A))
      (put : Block F A → Block F A)
      → ((b : Block F A) → fits n b ≡ true → fits n (put b) ≡ true)
      → ((b : Block F A) (rest : List (RawAction F A))
          → flatten (put b) rest ≡ front (flatten b rest))
      → (rest : List (RawAction F A)) → Closes n stack rest
      → Closes n stack (front rest)
  Closes-front n [] front put fit same rest (b, f, p) = (put b, fit b f, same b [] ∙ ap front p)
  Closes-front n ((u, e) ∷ stack) front put fit same rest
        (body, chain, behind, f, fc, only, p, closes) =
      (put body, chain, behind, fit body f, fc, only, same body _ ∙ ap front p, closes)

  pub Closes-step :
      (n : ℕ) (stack : List (Uuid × Bool)) (uuid : Uuid) (step : Step F A)
      (rest : List (RawAction F A))
      → Closes n stack rest
      → Closes n stack (at_ uuid (step_action step) ∷ rest)
  unfolding fits flatten
  Closes-step n stack uuid step rest closes =
      Closes-front n stack (λ rest. at_ uuid (step_action step) ∷ rest) (plain uuid step) (λ b h. h)
        (λ b rest. refl) rest closes

  pub Closes-if :
      (n : ℕ) (stack : List (Uuid × Bool)) (uuid : Uuid) (condition : ScheduleCondition F)
      (rest : List (RawAction F A))
      → Closes n ((uuid, false) ∷ stack) rest
      → Closes (suc n) stack (at_ uuid (if_cond condition) ∷ rest)
  unfolding fits flatten
  Closes-if n stack uuid condition rest (body, chain, behind, f, fc, only, p, closes) = rw (sym p) (
      Closes-front (suc n) stack
        (λ rest. at_ uuid (if_cond condition) ∷ flatten body (flatten_chain chain rest))
        (branch uuid condition body chain) (λ b h. ground arith) (λ b rest. refl) behind closes)

  pub Closes-else_if :
      (n : ℕ) (stack : List (Uuid × Bool)) (u uuid : Uuid) (condition : ScheduleCondition F)
      (rest : List (RawAction F A))
      → Closes n ((u, false) ∷ stack) rest
      → Closes n ((u, false) ∷ stack) (at_ uuid (else_if condition) ∷ rest)
  unfolding fits flatten
  Closes-else_if n stack u uuid condition rest (body, chain, behind, f, fc, only, p, closes) = (
    done,
    also_if uuid condition body chain,
    behind,
    refl,
    ground arith,
    tt,
    ap (λ rest. at_ uuid (else_if condition) ∷ rest) p,
    closes,
  )

  pub Closes-else :
      (n : ℕ) (stack : List (Uuid × Bool)) (u uuid : Uuid) (rest : List (RawAction F A))
      → Closes n ((u, true) ∷ stack) rest
      → Closes n ((u, false) ∷ stack) (at_ uuid else_branch ∷ rest)
  unfolding fits flatten
  Closes-else n stack u uuid rest (body, chain, behind, f, fc, (closing, q), p, closes) = (
    done,
    otherwise uuid body closing,
    behind,
    refl,
    f,
    tt,
    ap (λ rest. at_ uuid else_branch ∷ rest)
        (ap (λ chain. flatten body (flatten_chain chain behind)) (sym q) ∙ p),
    closes,
  )

  only_closes :
      (e : Bool) (uuid : Uuid) (chain : Chain F A) → chain ≡ close uuid → OnlyCloses e chain
  only_closes true uuid chain p = (uuid, p)
  only_closes false uuid chain p = tt

  pub Closes-end_if :
      (n : ℕ) (stack : List (Uuid × Bool)) (u uuid : Uuid) (e : Bool) (rest : List (RawAction F A))
      → Closes (suc n) stack rest
      → Closes n ((u, e) ∷ stack) (at_ uuid end_if ∷ rest)
  unfolding fits flatten
  Closes-end_if n stack u uuid e rest closes =
      (done, close uuid, rest, refl, refl, only_closes e uuid (close uuid) refl, refl, closes)
