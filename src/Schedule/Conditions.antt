-- ===== src/Schedule/Conditions.antt =====
-- application/src/server/schedule/conditions.rs: the conditions of schedules. A float is of any type with
-- its comparisons; the server is what it is while a condition is evaluated.
pub mod Duals
use ailes.Common.{
  ℕ, Bool, true, false, not, ◌&&◌, ◌||◌, Option, none, some, List, [], ◌∷◌, if◌then◌else◌, ◌==◌,
}
use ailes.Common.Text.{Text, same_text}
use ailes.ServerState.{ServerState, same_state}
use ailes.Schedule.{
  ScheduleDynamicParameter, ScheduleExecutionContext, get_variable_by_str, resolve_parameter,
}
use mathlib.Core.List.{reverse}

pub record Floats (F : Type 0) : Type 0 where
  pub lt : F → F → Bool
  pub le : F → F → Bool
  pub eq : F → F → Bool
  pub gt : F → F → Bool
  pub ge : F → F → Bool
  pub of_u64 : ℕ → F

pub data ScheduleConditionComparator : Type 0 where
  smaller_than smaller_than_or_equals equal greater_than greater_than_or_equals :
      ScheduleConditionComparator

pub data ScheduleResourceMetric : Type 0 where
  cpu memory disk : ScheduleResourceMetric

unfoldable pub compare_f64 : {F : Type 0} → Floats F → ScheduleConditionComparator → F → F → Bool
compare_f64 f smaller_than lhs rhs = f.lt lhs rhs
compare_f64 f smaller_than_or_equals lhs rhs = f.le lhs rhs
compare_f64 f equal lhs rhs = f.eq lhs rhs
compare_f64 f greater_than lhs rhs = f.gt lhs rhs
compare_f64 f greater_than_or_equals lhs rhs = f.ge lhs rhs

mutual
  pub data ScheduleCondition (F : Type 0) : Type 0 where
    always : ScheduleCondition F
    and_all or_any : Conditions F → ScheduleCondition F
    negate : ScheduleCondition F → ScheduleCondition F
    server_state : ServerState → ScheduleCondition F
    uptime : ScheduleConditionComparator → ℕ → ScheduleCondition F
    resource_usage : ScheduleResourceMetric → ScheduleConditionComparator → F → ScheduleCondition F
    file_exists : Text → ScheduleCondition F
    variable_exists : Text → ScheduleCondition F
    variable_equals variable_contains variable_starts_with variable_ends_with :
        Text → ScheduleDynamicParameter → ScheduleCondition F

  pub data Conditions (F : Type 0) : Type 0 where
    end : Conditions F
    also : ScheduleCondition F → Conditions F → Conditions F

-- What a condition reads of the server.
pub record Server (F : Type 0) : Type 0 where
  pub state : ServerState
  pub uptime : ℕ
  pub cpu_absolute : F
  pub memory_bytes : ℕ
  pub disk_bytes : ℕ
  pub file_is_there : Text → Bool

abbrev pub starts_with : Text → Text → Bool
starts_with [] value = true
starts_with (c ∷ cs) [] = false
starts_with (c ∷ cs) (v ∷ vs) = let rest = starts_with cs vs in (c == v) && rest

abbrev pub text_contains : Text → Text → Bool
text_contains part [] = starts_with part []
text_contains part (v ∷ vs) = let rest = text_contains part vs in starts_with part (v ∷ vs) || rest

abbrev pub ends_with : Text → Text → Bool
ends_with part value = starts_with (reverse part) (reverse value)

abbrev pub is_there : Option Text → Bool
is_there none = false
is_there (some value) = true

-- Two values that are both there.
abbrev pub on_both : (Text → Text → Bool) → Option Text → Option Text → Bool
on_both test (some value) (some other) = test value other
on_both test (some value) none = false
on_both test none other = false

module _ {F : Type 0} (floats : Floats F) (server : Server F)
    (context : ScheduleExecutionContext) where
  abbrev pub current : ScheduleResourceMetric → F
  current cpu = server.cpu_absolute
  current memory = floats.of_u64 server.memory_bytes
  current disk = floats.of_u64 server.disk_bytes

  -- The loops of `And` and `Or` end at the first condition that decides.
  unfoldable mutual
    pub evaluate : ScheduleCondition F → Bool
    evaluate always = true
    evaluate (and_all conditions) = evaluate_and conditions
    evaluate (or_any conditions) = evaluate_or conditions
    evaluate (negate condition) = not (evaluate condition)
    evaluate (server_state state) = same_state server.state state
    evaluate (uptime comparator value) =
        compare_f64 floats comparator (floats.of_u64 server.uptime) (floats.of_u64 value)
    evaluate (resource_usage metric comparator value) =
        compare_f64 floats comparator (current metric) value
    evaluate (file_exists file) = server.file_is_there file
    evaluate (variable_exists name) = is_there (get_variable_by_str name context)
    evaluate (variable_equals name parameter) =
        on_both same_text (get_variable_by_str name context) (resolve_parameter parameter context)
    evaluate (variable_contains name parameter) =
        on_both (λ value part. text_contains part value) (get_variable_by_str name context)
          (resolve_parameter parameter context)
    evaluate (variable_starts_with name parameter) =
        on_both (λ value part. starts_with part value) (get_variable_by_str name context)
          (resolve_parameter parameter context)
    evaluate (variable_ends_with name parameter) =
        on_both (λ value part. ends_with part value) (get_variable_by_str name context)
          (resolve_parameter parameter context)

    pub evaluate_and : Conditions F → Bool
    evaluate_and end = true
    evaluate_and (also condition rest) =
        let others = evaluate_and rest in if not (evaluate condition) then false else others

    pub evaluate_or : Conditions F → Bool
    evaluate_or end = false
    evaluate_or (also condition rest) =
        let others = evaluate_or rest in if evaluate condition then true else others
