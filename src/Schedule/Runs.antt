-- ===== src/Schedule/Runs.antt =====
-- Schedules on a server that is a number, and the theorems on them at concrete inputs.
use ailes.Common.{
  ℕ, ◌+◌, ◌≤◌, true, false, ◌||◌, Option, none, some, List, [], ◌∷◌, ◌≡◌, ◌↔◌, refl, leb, ltb, ◌==◌,
  if◌then◌else◌,
}
use ailes.Common.Dict.{empty}
use ailes.Common.Text.{Text, same_text}
use ailes.ServerState.{running}
use ailes.Schedule.{get_variable_by_str, new}
use ailes.Schedule.Conditions.{Floats, always, negate, evaluate, greater_than, memory, compare_f64}
use ailes.Schedule.Actions.{
  if_cond, else_if, else_branch, end_if, exit, other, World, execute, execute_unlocked, render,
}
use ailes.Schedule.Templates.{Part, literal, hole, print_parts, values, render-print_parts}
use ailes.Schedule.Watch.{
  ResourceUsage, ResourceTrigger, watch, is_met, Event, changed, elapsed, is_due,
}
use ailes.Schedule.Watch.Periods.{looks, periods, since_of, notified_bound, watch-fired}
use ailes.Schedule.Executor.{
  take_context, RawAction, max_if_depth, ScheduleStatus, validate_action_structure, check_actions,
  check_action, run_schedule, run_actions, run_action, run_plain,
}
use ailes.Schedule.Executor.Blocks.{Block, flatten, fits}
use ailes.Schedule.Executor.Trees.{run_tree, run_schedule-run_tree}
use ailes.Schedule.Executor.Structure.{validate_action_structure_iff}
use ailes.Schedule.Executor.Locked.{run_schedule-locked}
use ailes.Schedule.Console.{ConsoleTrigger, Waiting, on_lines, take_context-on_lines}
use ailes.Schedule.Triggers.{crash, console_line, create_trigger_tasks, is_taskable}
use ailes.Schedule.Manager
use ailes.Schedule.Manager.{RawSchedule, Schedule, refresh, update_schedules}
use ailes.Schedule.Manager.Updates.{find, find_raw, found, find-update_schedules}
use ailes.Schedule.Manager.Notices.{
  any_taskable, refreshes, refreshes_of, refreshes-keeps_tasks, refreshes-created,
}

abbrev numbers : Floats ℕ
numbers = record {
  lt = ltb;
  le = leb;
  eq = ◌==◌;
  gt = λ a b. ltb b a;
  ge = λ a b. leb b a;
  of_u64 = λ n. n;
}

abbrev lock : ℕ → Option Text
lock w = if w == 100 then some [] else none

-- A call adds its number to the server; the server is locked at 100.
abbrev server : World ℕ ℕ ℕ
server = record {
  floats = numbers;
  look = λ w. record {
    state = running;
    uptime = 5;
    cpu_absolute = 0;
    memory_bytes = w;
    disk_bytes = 0;
    file_is_there = λ file. false;
  };
  locked = lock;
  perform = λ a w c. ((w + a, c), none);
  sleep_for = λ duration w. w;
}

abbrev idle : ScheduleStatus
idle = record { running = false; errors = empty; step = none }

abbrev actions : List (RawAction ℕ ℕ)
actions =
    record { uuid = 1; action = if_cond (negate always) }
    ∷ record { uuid = 2; action = other false 7 }
    ∷ record { uuid = 3; action = else_if always }
    ∷ record { uuid = 4; action = other false 10 }
    ∷ record { uuid = 5; action = else_branch }
    ∷ record { uuid = 6; action = exit false }
    ∷ record { uuid = 7; action = end_if }
    ∷ record { uuid = 8; action = other true 1 }
    ∷ []

-- The `else_if` runs alone.
actions_run : (run_schedule server actions 4 idle (new 9)).world ≡ 15
unfolding run_schedule validate_action_structure check_actions check_action run_actions run_action
    run_plain evaluate execute execute_unlocked
actions_run = refl

run_schedule-run_tree_example :
    (b : Block ℕ ℕ) × (fits max_if_depth b ≡ true)
    × (flatten b [] ≡ actions)
    × (run_schedule server actions 4 idle (new 9) ≡ run_tree server b 4 idle (new 9))
unfolding validate_action_structure check_actions check_action
run_schedule-run_tree_example = run_schedule-run_tree server actions 4 idle (new 9) refl

validate_action_structure_iff_example :
    (validate_action_structure actions ≡ none)
    ↔ ((b : Block ℕ ℕ) × (fits max_if_depth b ≡ true) × (flatten b [] ≡ actions))
validate_action_structure_iff_example = validate_action_structure_iff actions

run_schedule-locked_example :
    let r = run_schedule server actions 100 idle (new 9) in (r.world ≡ 100) × (r.context ≡ new 9)
run_schedule-locked_example = run_schedule-locked server actions 100 idle (new 9) [] refl

-- "a{{}}" and a name in braces.
abbrev parts : List Part
parts = literal b'a' ∷ literal b'{' ∷ literal b'}' ∷ hole (b'n' ∷ []) ∷ []

render-print_parts_example : render (new 9) none (print_parts parts) ≡ values (new 9) parts
render-print_parts_example = render-print_parts (new 9) parts refl

-- More than 50 bytes for 10 ticks.
abbrev trigger : ResourceTrigger ℕ
trigger = record { metric = memory; comparator = greater_than; value = 50; for_duration = 10 }

abbrev usage : ℕ → ResourceUsage ℕ
usage bytes = record { memory_bytes = bytes; disk_bytes = 0; state = running; cpu_absolute = 0 }

abbrev events : List (Event numbers trigger)
events =
    elapsed 13 (usage 70) ∷ changed 5 (usage 80) ∷ changed 3 (usage 60) ∷ changed 1 (usage 10) ∷ []

notified_bound_example :
    (watch numbers trigger events).notified ≤ periods (looks numbers trigger events)
notified_bound_example = notified_bound numbers trigger events

abbrev next : ResourceUsage ℕ
next = usage 90

watch-fired_example : (watch numbers trigger (changed 14 next ∷ changed 3 next ∷ [])).fired ≡ (
    (watch numbers trigger (changed 3 next ∷ [])).fired
    || is_due numbers trigger 14
        (since_of (looks numbers trigger (changed 14 next ∷ changed 3 next ∷ []))))
unfolding is_met compare_f64
watch-fired_example = watch-fired numbers trigger (changed 3 next ∷ []) 14 next refl

abbrev raw : ℕ → RawSchedule ℕ ℕ ℕ
raw uuid = record {
  uuid = uuid;
  triggers = console_line [] true none ∷ crash ∷ [];
  condition = always;
  actions = [];
}

abbrev schedules : List (Schedule ℕ ℕ ℕ)
schedules = Manager.new (raw 1) ∷ Manager.new (raw 3) ∷ []

find-update_schedules_example :
    find 2 (update_schedules ◌==◌ numbers (raw 1 ∷ raw 2 ∷ []) schedules)
    ≡ found ◌==◌ numbers (find 2 schedules) none (find_raw 2 (raw 1 ∷ raw 2 ∷ []))
find-update_schedules_example =
    find-update_schedules ◌==◌ numbers (raw 1 ∷ raw 2 ∷ []) schedules 2 refl

-- The configuration of `raw` without its console trigger.
abbrev reduced : ℕ → RawSchedule ℕ ℕ ℕ
reduced uuid = record (raw uuid) { triggers = crash ∷ [] }

refreshes-keeps_tasks_example :
    ((refreshes_of ◌==◌ numbers 3 (reduced 1) (Manager.new (raw 1))).trigger_tasks
      ≡ (Manager.new (raw 1)).trigger_tasks)
    × ((refreshes_of ◌==◌ numbers 3 (reduced 1) (Manager.new (raw 1))).triggers
        ≡ (Manager.new (raw 1)).triggers)
unfolding Manager.new create_trigger_tasks is_taskable
refreshes-keeps_tasks_example =
    refreshes-keeps_tasks ◌==◌ numbers 3 (reduced 1) (Manager.new (raw 1)) (raw 1).triggers refl
      refl

refreshes-created_example :
    (refreshes ◌==◌ numbers 3 (raw 1)).created ≡ (if any_taskable (raw 1).triggers then 4 else 1)
refreshes-created_example = refreshes-created ◌==◌ numbers 3 (raw 1)

-- Lines that hold an "x" go to the variable "v".
abbrev console : ConsoleTrigger
console = record { contains = b'x' ∷ []; case_insensitive = false; output_into = some (b'v' ∷ []) }

abbrev console_lines : List Text
console_lines = (b'x' ∷ b'1' ∷ []) ∷ (b'y' ∷ []) ∷ []

abbrev nothing_left : Waiting
nothing_left = record { next_execution_context = none; notified = false }

take_context-on_lines_example :
    get_variable_by_str (b'v' ∷ []) (
      take_context 9
        (on_lines (λ s. s) 9 console console_lines nothing_left).next_execution_context)
    ≡ (if same_text (b'v' ∷ []) (b'v' ∷ []) then some (b'x' ∷ b'1' ∷ []) else none)
take_context-on_lines_example =
    take_context-on_lines (λ s. s) 9 console (b'v' ∷ []) (b'x' ∷ b'1' ∷ []) console_lines
      nothing_left (b'v' ∷ []) refl refl
