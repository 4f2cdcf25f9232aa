-- ===== src/Schedule/Manager.antt =====
-- application/src/server/schedule/{mod,manager}.rs: the manager's operations on its vector of schedules.
pub mod Updates
pub mod Notices
use ailes.Common.{
  ℕ, suc, Bool, true, false, not, ◌&&◌, ◌||◌, Option, none, some, List, [], ◌∷◌, ◌++◌, ◌==◌,
  if◌then◌else◌,
}
use ailes.Common.Text.{Text, same_text}
use ailes.Common.Machine.{Uuid}
use ailes.ServerState.{ServerState, same_state}
use ailes.Websocket.Messages.{ServerPowerAction, start, stop, restart, kill}
use ailes.Schedule.Conditions.{
  Floats, ScheduleCondition, ScheduleConditionComparator, smaller_than, smaller_than_or_equals,
  equal, greater_than, greater_than_or_equals, ScheduleResourceMetric, cpu, memory, disk,
}
use ailes.Schedule.Executor.{RawAction}
use ailes.Schedule.Watch.{ResourceTrigger}
use ailes.Schedule.Triggers.{
  ServerBackupStatus, starting, finished, failed, ScheduleTrigger, cron, power_action, server_state,
  backup_status, schedule_completion, resource_usage, console_line, crash, same_action, same_status,
  same_bool, same_trigger, same_triggers, is_taskable, create_trigger_tasks, is_server_state,
  is_power_action, is_backup_status, is_completion, is_crash,
}

-- `configuration::Schedule`.
pub record RawSchedule (C F A : Type 0) : Type 0 where
  pub uuid : Uuid
  pub triggers : List (ScheduleTrigger C F)
  pub condition : ScheduleCondition F
  pub actions : List (RawAction F A)

-- A notifier holds one permit at most. `created` says how often the tasks were created.
pub record Schedule (C F A : Type 0) : Type 0 where
  pub uuid : Uuid
  pub triggers : List (ScheduleTrigger C F)
  pub condition : ScheduleCondition F
  pub raw_actions : List (RawAction F A)
  pub trigger_tasks : List (ScheduleTrigger C F)
  pub created : ℕ
  pub executor_notifier : Bool
  pub executor_skip_notifier : Bool

module _ {C F A : Type 0} where
  unfoldable pub new : RawSchedule C F A → Schedule C F A
  new raw_schedule =
      let (triggers, trigger_tasks) = create_trigger_tasks raw_schedule.triggers in
      record {
        uuid = raw_schedule.uuid;
        triggers = triggers;
        condition = raw_schedule.condition;
        raw_actions = raw_schedule.actions;
        trigger_tasks = trigger_tasks;
        created = 1;
        executor_notifier = false;
        executor_skip_notifier = false;
      }

  abbrev pub trigger : (skip_condition : Bool) → Schedule C F A → Schedule C F A
  trigger skip_condition schedule =
      if skip_condition
      then record schedule { executor_skip_notifier = true }
      else record schedule { executor_notifier = true }

  unfoldable pub update : RawSchedule C F A → Schedule C F A → Schedule C F A
  update raw_schedule schedule = record schedule {
    condition = raw_schedule.condition;
    raw_actions = raw_schedule.actions;
  }

  unfoldable pub recreate_triggers : List (ScheduleTrigger C F) → Schedule C F A → Schedule C F A
  recreate_triggers raw_triggers schedule =
      let (triggers, tasks) = create_trigger_tasks raw_triggers in
      record schedule { triggers = triggers; trigger_tasks = tasks; created = suc schedule.created }

  -- What a loop over the triggers does at each that matches.
  unfoldable pub run_triggers :
      (ScheduleTrigger C F → Bool) → List (ScheduleTrigger C F) → Schedule C F A → Schedule C F A
  run_triggers matches [] schedule = schedule
  run_triggers matches (t ∷ triggers) schedule =
      run_triggers matches triggers (if matches t then trigger false schedule else schedule)

  abbrev pub on_all : (ScheduleTrigger C F → Bool) → List (Schedule C F A) → List (Schedule C F A)
  on_all matches [] = []
  on_all matches (schedule ∷ schedules) =
      run_triggers matches schedule.triggers schedule ∷ on_all matches schedules

  unfoldable pub execute_server_state_trigger :
      ServerState → List (Schedule C F A) → List (Schedule C F A)
  execute_server_state_trigger state schedules = on_all (is_server_state state) schedules

  unfoldable pub execute_power_action_trigger :
      ServerPowerAction → List (Schedule C F A) → List (Schedule C F A)
  execute_power_action_trigger action schedules = on_all (is_power_action action) schedules

  unfoldable pub execute_backup_status_trigger :
      ServerBackupStatus → List (Schedule C F A) → List (Schedule C F A)
  execute_backup_status_trigger status schedules = on_all (is_backup_status status) schedules

  unfoldable pub execute_crash_trigger : List (Schedule C F A) → List (Schedule C F A)
  execute_crash_trigger schedules = on_all is_crash schedules

  -- The schedule that completed is passed over.
  unfoldable pub execute_schedule_completion_trigger :
      Uuid → Bool → List (Schedule C F A) → List (Schedule C F A)
  execute_schedule_completion_trigger completed successful [] = []
  execute_schedule_completion_trigger completed successful (schedule ∷ schedules) =
      let rest = execute_schedule_completion_trigger completed successful schedules in
      if schedule.uuid == completed
      then schedule ∷ rest
      else run_triggers (is_completion completed successful) schedule.triggers schedule ∷ rest

  abbrev pub any_uuid : Uuid → List (RawSchedule C F A) → Bool
  any_uuid uuid [] = false
  any_uuid uuid (raw ∷ raws) = let rest = any_uuid uuid raws in (raw.uuid == uuid) || rest

  unfoldable pub retain : List (RawSchedule C F A) → List (Schedule C F A) → List (Schedule C F A)
  retain raws [] = []
  retain raws (s ∷ schedules) =
      let rest = retain raws schedules in if any_uuid s.uuid raws then s ∷ rest else rest

module _ {C F A : Type 0} (same_cron : C → C → Bool) (floats : Floats F) where
  -- What the loop does to the schedule that a configuration has.
  unfoldable pub refresh : RawSchedule C F A → Schedule C F A → Schedule C F A
  refresh raw_schedule schedule = update raw_schedule (
      if not (same_triggers same_cron floats schedule.triggers raw_schedule.triggers)
      then recreate_triggers raw_schedule.triggers schedule
      else schedule)

  -- `find`, and `push` where there is none.
  unfoldable pub update_or_push : RawSchedule C F A → List (Schedule C F A) → List (Schedule C F A)
  update_or_push raw [] = new raw ∷ []
  update_or_push raw (s ∷ schedules) =
      let rest = update_or_push raw schedules in
      if s.uuid == raw.uuid then refresh raw s ∷ schedules else s ∷ rest

  abbrev pub update_all : List (RawSchedule C F A) → List (Schedule C F A) → List (Schedule C F A)
  update_all [] schedules = schedules
  update_all (raw ∷ raws) schedules = update_all raws (update_or_push raw schedules)

  unfoldable pub update_schedules :
      List (RawSchedule C F A) → List (Schedule C F A) → List (Schedule C F A)
  update_schedules raws schedules = update_all raws (retain raws schedules)
