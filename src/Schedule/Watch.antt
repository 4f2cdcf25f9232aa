-- ===== src/Schedule/Watch.antt =====
-- application/src/server/schedule/mod.rs: the task of a `ResourceUsage` trigger. Times are in nanoseconds.
pub mod Periods
use ailes.Common.{
  ℕ, suc, ◌+◌, Bool, true, false, not, ◌&&◌, ◌||◌, Option, none, some, List, [], ◌∷◌, leb,
  if◌then◌else◌,
}
use ailes.Common.Machine.{or_default}
use ailes.ServerState.{ServerState, running, same_state}
use ailes.Schedule.Conditions.{
  Floats, ScheduleConditionComparator, compare_f64, ScheduleResourceMetric, cpu, memory, disk,
}

pub record ResourceUsage (F : Type 0) : Type 0 where
  pub memory_bytes : ℕ
  pub disk_bytes : ℕ
  pub state : ServerState
  pub cpu_absolute : F

-- `ScheduleTrigger::ResourceUsage`.
pub record ResourceTrigger (F : Type 0) : Type 0 where
  pub metric : ScheduleResourceMetric
  pub comparator : ScheduleConditionComparator
  pub value : F
  pub for_duration : ℕ

-- The task's variables, and how often it has notified the executor.
pub record Watch : Type 0 where
  pub met_since : Option ℕ
  pub fired : Bool
  pub notified : ℕ

abbrev pub start : Watch
start = record { met_since = none; fired = false; notified = 0 }

module _ {F : Type 0} (floats : Floats F) (trigger : ResourceTrigger F) where
  abbrev pub evaluable : ResourceUsage F → Bool
  evaluable usage = elim trigger.metric [
    | cpu ↦ same_state usage.state running
    | memory ↦ same_state usage.state running
    | disk ↦ true
  ]

  abbrev pub current : ResourceUsage F → F
  current usage = elim trigger.metric [
    | cpu ↦ usage.cpu_absolute
    | memory ↦ floats.of_u64 usage.memory_bytes
    | disk ↦ floats.of_u64 usage.disk_bytes
  ]

  unfoldable pub is_met : ResourceUsage F → Bool
  is_met usage =
      evaluable usage && compare_f64 floats trigger.comparator (current usage) trigger.value

  abbrev pub fire : Watch → Watch
  fire w = record w { fired = true; notified = suc w.notified }

  -- A look at the usage; `get_or_insert_with` and the time since then.
  unfoldable pub observe : ℕ → Bool → Watch → Watch
  observe now met w =
      if met
      then (let since = or_default now w.met_since in
          let w' = record w { met_since = some since } in
          if not w.fired && leb (since + trigger.for_duration) now then fire w' else w')
      else record w { met_since = none; fired = false }

  -- The timer runs while a usage that meets the condition has not fired.
  abbrev pub is_due : ℕ → Option ℕ → Bool
  is_due now none = false
  is_due now (some since) = leb (since + trigger.for_duration) now

  -- A change of the usage, or the timer, and the look behind it. A timer that cannot have ended is no event.
  pub data Event : Type 0 where
    changed elapsed : ℕ → ResourceUsage F → Event

  unfoldable pub on_event : Event → Watch → Watch
  on_event (changed now usage) w = observe now (is_met usage) w
  on_event (elapsed now usage) w =
      if not w.fired && is_due now w.met_since then observe now (is_met usage) (fire w) else w

  -- The events, the newest first.
  abbrev pub watch : List Event → Watch
  watch [] = start
  watch (e ∷ es) = on_event e (watch es)
