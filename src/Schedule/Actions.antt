-- ===== src/Schedule/Actions.antt =====
-- application/src/server/schedule/actions.rs: the steps of a schedule, with `execute` on those that only use
-- the schedule's variables. All others call the server, and are a parameter.
use ailes.Common.{ℕ, Bool, false, Option, none, some, List, [], ◌∷◌, ◌++◌, ◌==◌, if◌then◌else◌}
use ailes.Common.Text.{Text}
use ailes.Schedule.{
  ScheduleDynamicParameter, ScheduleExecutionContext, get_variable_by_str, resolve_parameter,
  store_variable,
}
use ailes.Schedule.Conditions.{Floats, ScheduleCondition, Server, evaluate}

pub data ScheduleAction (F A : Type 0) : Type 0 where
  sleep : ℕ → ScheduleAction F A
  ensure if_cond else_if : ScheduleCondition F → ScheduleAction F A
  else_branch end_if : ScheduleAction F A
  exit : Bool → ScheduleAction F A
  format : Text → Text → ScheduleAction F A
  match_regex :
      ScheduleDynamicParameter
      → (Text → Option (List (Option Text)))
      → List (Option Text)
      → ScheduleAction F A
  other : Bool → A → ScheduleAction F A

unfoldable pub ignore_failure : {F A : Type 0} → ScheduleAction F A → Bool
ignore_failure (sleep _) = false
ignore_failure (ensure _) = false
ignore_failure (if_cond _) = false
ignore_failure (else_if _) = false
ignore_failure else_branch = false
ignore_failure end_if = false
ignore_failure (exit _) = false
ignore_failure (format _ _) = false
ignore_failure (match_regex _ _ _) = false
ignore_failure (other ignored _) = ignored

-- What stands for a name in braces: its value, or what was there.
abbrev pub substitute : Option Text → Text → Text
substitute none name = b'{' ∷ (name ++ b'}' ∷ [])
substitute (some value) name = value

-- The loop of `Format`; inside of braces with the name up to here.
unfoldable pub render : ScheduleExecutionContext → Option Text → Text → Text
render c none [] = []
render c none (ch ∷ []) = ch ∷ []
render c none (ch ∷ peek ∷ rest) =
    let behind = render c none rest in
    let after = render c none (peek ∷ rest) in
    let inside = render c (some []) (peek ∷ rest) in
    if ch == b'{'
    then (if peek == b'{' then b'{' ∷ behind else inside)
    else if ch == b'}'
    then (if peek == b'}' then b'}' ∷ behind else ch ∷ after)
    else ch ∷ after
render c (some name) [] = b'{' ∷ name
render c (some name) (ch ∷ rest) =
    let behind = render c none rest in
    let inside = render c (some (name ++ ch ∷ [])) rest in
    if ch == b'}' then substitute (get_variable_by_str name c) name ++ behind else inside

-- Why a schedule's `if` blocks are refused.
pub data StructureError : Type 0 where
  too_deep else_if_without_if else_if_after_else else_without_if : StructureError
  multiple_else end_if_without_if never_closed : StructureError

-- The errors of a step: that of the structure, and those of `execute`: their texts, those of other actions as they are.
pub data ActionError : Type 0 where
  locked_state : Text → ActionError
  unmet_condition unresolved_input : ActionError
  structure : StructureError → ActionError
  failed : Text → ActionError

-- The groups of a match behind the first, each stored in its variable if both are there.
unfoldable pub store_groups :
    List (Option Text) → List (Option Text) → ScheduleExecutionContext → ScheduleExecutionContext
store_groups [] output_into c = c
store_groups (m ∷ groups) [] c = c
store_groups (some m ∷ groups) (some name ∷ output_into) c =
    store_groups groups output_into (store_variable name m c).0
store_groups (none ∷ groups) (name ∷ output_into) c = store_groups groups output_into c
store_groups (some m ∷ groups) (none ∷ output_into) c = store_groups groups output_into c

-- `MatchRegex`, a regular expression as its captures.
unfoldable pub run_regex :
    (Text → Option (List (Option Text)))
    → List (Option Text)
    → Option Text
    → ScheduleExecutionContext
    → ScheduleExecutionContext × Option ActionError
run_regex captures output_into none c = (c, some unresolved_input)
run_regex captures output_into (some input) c = elim (captures input) [
  | none ↦ (c, none)
  | some groups ↦ (store_groups groups output_into c, none)
]

-- The world of a run: what conditions see of it, whether the server is locked, and the other actions.
pub record World (F A W : Type 0) : Type 0 where
  pub floats : Floats F
  pub look : W → Server F
  pub locked : W → Option Text
  pub perform :
      A → W → ScheduleExecutionContext → (W × ScheduleExecutionContext) × Option ActionError
  pub sleep_for : ℕ → W → W

module _ {F A W : Type 0} (env : World F A W) where
  unfoldable pub execute_unlocked :
      ScheduleAction F A
      → W
      → ScheduleExecutionContext
      → (W × ScheduleExecutionContext) × Option ActionError
  execute_unlocked (sleep duration) w c = ((env.sleep_for duration w, c), none)
  execute_unlocked (ensure condition) w c =
      ((w, c), if evaluate env.floats (env.look w) c condition then none else some unmet_condition)
  execute_unlocked (if_cond _) w c = ((w, c), none)
  execute_unlocked (else_if _) w c = ((w, c), none)
  execute_unlocked else_branch w c = ((w, c), none)
  execute_unlocked end_if w c = ((w, c), none)
  execute_unlocked (exit _) w c = ((w, c), none)
  execute_unlocked (format fmt output_into) w c =
      ((w, (store_variable output_into (render c none fmt) c).0), none)
  execute_unlocked (match_regex input captures output_into) w c =
      let (c', error) = run_regex captures output_into (resolve_parameter input c) c in
      ((w, c'), error)
  execute_unlocked (other _ action) w c = env.perform action w c

  -- The error, if it fails.
  unfoldable pub execute :
      ScheduleAction F A
      → W
      → ScheduleExecutionContext
      → (W × ScheduleExecutionContext) × Option ActionError
  execute action w c = elim (env.locked w) [
    | some state ↦ ((w, c), some (locked_state state))
    | none ↦ execute_unlocked action w c
  ]
