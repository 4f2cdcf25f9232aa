-- ===== src/Schedule/Console.antt =====
-- application/src/server/schedule/mod.rs: the task of a `ConsoleLine` trigger, and the variable that it leaves
-- for the next round.
use ailes.Common.{
  Bool, true, false, Option, none, some, List, [], ◌∷◌, if◌then◌else◌, ◌≡◌, refl, ap, ◌∙◌,
}
use ailes.Common.Text.{Text, same_text, text_key}
use ailes.Common.Dict.{put}
use ailes.Common.Machine.{Uuid}
use ailes.Schedule.{ScheduleExecutionContext, new, get_variable_by_str, store_variable}
use ailes.Schedule.Conditions.{text_contains}
use ailes.Schedule.Executor.{take_context}

-- `ScheduleTrigger::ConsoleLine`.
pub record ConsoleTrigger : Type 0 where
  pub contains : Text
  pub case_insensitive : Bool
  pub output_into : Option Text

-- What the task shares with the executor: the context for its next round, and the notifier's permit.
pub record Waiting : Type 0 where
  pub next_execution_context : Option ScheduleExecutionContext
  pub notified : Bool

module _ (to_lowercase : Text → Text) (schedule_uuid : Uuid) (trigger : ConsoleTrigger) where
  abbrev pub hits : Text → Bool
  hits line =
      if trigger.case_insensitive
      then text_contains (to_lowercase trigger.contains) (to_lowercase line)
      else text_contains trigger.contains line

  abbrev pub replaced :
      Option Text → Text → Option ScheduleExecutionContext → Option ScheduleExecutionContext
  replaced none line next = next
  replaced (some name) line next = some (store_variable name line (new schedule_uuid)).0

  unfoldable pub on_line : Text → Waiting → Waiting
  on_line line w =
      if hits line
      then record {
        next_execution_context = replaced trigger.output_into line w.next_execution_context;
        notified = true;
      }
      else w

  abbrev pub on_lines : List Text → Waiting → Waiting
  on_lines [] w = w
  on_lines (line ∷ lines) w = on_lines lines (on_line line w)

  -- The last line that the trigger looks for, after one before.
  abbrev pub last_hit : Option Text → List Text → Option Text
  last_hit before [] = before
  last_hit before (line ∷ lines) = last_hit (if hits line then some line else before) lines

  abbrev pub left_by :
      Text → Option Text → Option ScheduleExecutionContext → Option ScheduleExecutionContext
  left_by name none next = next
  left_by name (some line) next = some (store_variable name line (new schedule_uuid)).0

  on_line-left_by :
      (name : Text) (before : Option Text) (line : Text) (b : Bool) (w : Waiting)
      (next : Option ScheduleExecutionContext)
      → hits line ≡ b
      → trigger.output_into ≡ some name
      → w.next_execution_context ≡ left_by name before next
      → (on_line line w).next_execution_context
        ≡ left_by name (if b then some line else before) next
  unfolding on_line
  on_line-left_by name before line true w next h o p = rw (h, o) refl
  on_line-left_by name before line false w next h o p = rw h p

  on_lines-left_by :
      (name : Text) (before : Option Text) (lines : List Text) (w : Waiting)
      (next : Option ScheduleExecutionContext)
      → trigger.output_into ≡ some name
      → w.next_execution_context ≡ left_by name before next
      → (on_lines lines w).next_execution_context ≡ left_by name (last_hit before lines) next
  on_lines-left_by name before [] w next o p = p
  on_lines-left_by name before (line ∷ lines) w next o p =
      on_lines-left_by name (if hits line then some line else before) lines (on_line line w) next o
        (on_line-left_by name before line (hits line) w next refl o p)

  -- A trigger with a variable gives the next round the last line that it looks for, in that variable and in a
  -- context that has no other.
  pub take_context-on_lines :
      (name line : Text) (lines : List Text) (w : Waiting) (variable : Text)
      → trigger.output_into ≡ some name
      → last_hit none lines ≡ some line
      → get_variable_by_str variable
          (take_context schedule_uuid (on_lines lines w).next_execution_context)
        ≡ (if same_text name variable then some line else none)
  unfolding get_variable_by_str store_variable new put
  take_context-on_lines name line lines w variable o h =
      ap (λ next. get_variable_by_str variable (take_context schedule_uuid next))
        (on_lines-left_by name none lines w w.next_execution_context o refl
          ∙ ap (λ last. left_by name last w.next_execution_context) h)
