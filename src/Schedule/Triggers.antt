-- ===== src/Schedule/Triggers.antt =====
-- application/src/server/schedule/mod.rs: the triggers of schedules, and those that wait in a task of their own.
-- A cron expression is of any type; a task is the trigger it waits for.
use ailes.Common.{
  Bool, true, false, not, ◌&&◌, Option, none, some, List, [], ◌∷◌, ◌==◌, if◌then◌else◌,
}
use ailes.Common.Text.{Text, same_text}
use ailes.Common.Machine.{Uuid}
use ailes.ServerState.{ServerState, same_state}
use ailes.Websocket.Messages.{ServerPowerAction, start, stop, restart, kill}
use ailes.Schedule.Conditions.{
  Floats, ScheduleConditionComparator, smaller_than, smaller_than_or_equals, equal, greater_than,
  greater_than_or_equals, ScheduleResourceMetric, cpu, memory, disk,
}
use ailes.Schedule.Watch.{ResourceTrigger}

pub data ServerBackupStatus : Type 0 where
  starting finished failed : ServerBackupStatus

pub data ScheduleTrigger (C F : Type 0) : Type 0 where
  cron : C → ScheduleTrigger C F
  power_action : ServerPowerAction → ScheduleTrigger C F
  server_state : ServerState → ScheduleTrigger C F
  backup_status : ServerBackupStatus → ScheduleTrigger C F
  schedule_completion : (schedule : Uuid) → (successful : Bool) → ScheduleTrigger C F
  resource_usage : ResourceTrigger F → ScheduleTrigger C F
  console_line : (contains : Text) → (case_insensitive : Bool) → Option Text → ScheduleTrigger C F
  crash : ScheduleTrigger C F

abbrev pub same_action : ServerPowerAction → ServerPowerAction → Bool
same_action start start = true
same_action stop stop = true
same_action restart restart = true
same_action kill kill = true
same_action _ _ = false

abbrev pub same_status : ServerBackupStatus → ServerBackupStatus → Bool
same_status starting starting = true
same_status finished finished = true
same_status failed failed = true
same_status _ _ = false

abbrev pub same_bool : Bool → Bool → Bool
same_bool true b = b
same_bool false b = not b

abbrev pub same_option : Option Text → Option Text → Bool
same_option none none = true
same_option (some a) (some b) = same_text a b
same_option _ _ = false

abbrev pub same_metric : ScheduleResourceMetric → ScheduleResourceMetric → Bool
same_metric cpu cpu = true
same_metric memory memory = true
same_metric disk disk = true
same_metric _ _ = false

abbrev pub same_comparator : ScheduleConditionComparator → ScheduleConditionComparator → Bool
same_comparator smaller_than smaller_than = true
same_comparator smaller_than_or_equals smaller_than_or_equals = true
same_comparator equal equal = true
same_comparator greater_than greater_than = true
same_comparator greater_than_or_equals greater_than_or_equals = true
same_comparator _ _ = false

module _ {C F : Type 0} (same_cron : C → C → Bool) (floats : Floats F) where
  -- `ScheduleTrigger::eq`.
  unfoldable pub same_trigger : ScheduleTrigger C F → ScheduleTrigger C F → Bool
  same_trigger (cron s1) (cron s2) = same_cron s1 s2
  same_trigger (power_action a1) (power_action a2) = same_action a1 a2
  same_trigger (server_state s1) (server_state s2) = same_state s1 s2
  same_trigger (backup_status s1) (backup_status s2) = same_status s1 s2
  same_trigger (schedule_completion s1 su1) (schedule_completion s2 su2) =
      (s1 == s2) && same_bool su1 su2
  same_trigger (resource_usage r1) (resource_usage r2) =
      same_metric r1.metric r2.metric
      && (same_comparator r1.comparator r2.comparator
          && (floats.eq r1.value r2.value && (r1.for_duration == r2.for_duration)))
  same_trigger (console_line c1 ci1 o1) (console_line c2 ci2 o2) =
      same_text c1 c2 && (same_bool ci1 ci2 && same_option o1 o2)
  same_trigger crash crash = true
  same_trigger _ _ = false

  unfoldable pub same_triggers : List (ScheduleTrigger C F) → List (ScheduleTrigger C F) → Bool
  same_triggers [] [] = true
  same_triggers (a ∷ rest) (b ∷ others) =
      let same = same_triggers rest others in same_trigger a b && same
  same_triggers _ _ = false

module _ {C F : Type 0} where
  unfoldable pub is_taskable : ScheduleTrigger C F → Bool
  is_taskable (cron schedule) = true
  is_taskable (power_action action) = false
  is_taskable (server_state state) = false
  is_taskable (backup_status status) = false
  is_taskable (schedule_completion schedule successful) = false
  is_taskable (resource_usage trigger) = true
  is_taskable (console_line contains case_insensitive output_into) = true
  is_taskable crash = false

  -- The triggers that stay, and those of the tasks.
  unfoldable pub create_trigger_tasks :
      List (ScheduleTrigger C F) → List (ScheduleTrigger C F) × List (ScheduleTrigger C F)
  create_trigger_tasks [] = ([], [])
  create_trigger_tasks (trigger ∷ raw_triggers) =
      let (triggers, tasks) = create_trigger_tasks raw_triggers in
      if is_taskable trigger then (triggers, trigger ∷ tasks) else (trigger ∷ triggers, tasks)

  abbrev pub is_server_state : ServerState → ScheduleTrigger C F → Bool
  is_server_state state (server_state trigger_state) = same_state trigger_state state
  is_server_state state _ = false

  abbrev pub is_power_action : ServerPowerAction → ScheduleTrigger C F → Bool
  is_power_action action (power_action trigger_action) = same_action trigger_action action
  is_power_action action _ = false

  abbrev pub is_backup_status : ServerBackupStatus → ScheduleTrigger C F → Bool
  is_backup_status status (backup_status trigger_status) = same_status trigger_status status
  is_backup_status status _ = false

  abbrev pub is_completion : Uuid → Bool → ScheduleTrigger C F → Bool
  is_completion completed successful (schedule_completion trigger_schedule trigger_successful) =
      (trigger_schedule == completed) && same_bool trigger_successful successful
  is_completion completed successful _ = false

  abbrev pub is_crash : ScheduleTrigger C F → Bool
  is_crash crash = true
  is_crash _ = false
