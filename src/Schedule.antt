-- ===== src/Schedule.antt =====
-- application/src/server/schedule/mod.rs: the variables of a schedule's run. A name and a value are text.
pub mod Conditions
pub mod Actions
pub mod Templates
pub mod Watch
pub mod Executor
pub mod Console
pub mod Triggers
pub mod Manager
mod Runs
use ailes.Common.{Option, some}
use ailes.Common.Dict.{Dict, empty, insert}
use ailes.Common.Text.{Text, text_key}
use ailes.Common.Machine.{Uuid}

pub data ScheduleDynamicParameter : Type 0 where
  raw variable : Text → ScheduleDynamicParameter

pub record ScheduleExecutionContext : Type 0 where
  pub schedule_uuid : Uuid
  pub variables : Dict Text Text

unfoldable pub new : Uuid → ScheduleExecutionContext
new uuid = record { schedule_uuid = uuid; variables = empty }

unfoldable pub get_variable_by_str : Text → ScheduleExecutionContext → Option Text
get_variable_by_str name c = c.variables name

unfoldable pub resolve_parameter : ScheduleDynamicParameter → ScheduleExecutionContext → Option Text
resolve_parameter (raw value) c = some value
resolve_parameter (variable name) c = c.variables name

unfoldable pub store_variable :
    Text → Text → ScheduleExecutionContext → ScheduleExecutionContext × Option Text
store_variable name value c =
    (record c { variables = insert name value c.variables }, c.variables name)
