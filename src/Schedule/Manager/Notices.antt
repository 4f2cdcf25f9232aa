-- ===== src/Schedule/Manager/Notices.antt =====
-- application/src/server/schedule/{mod,manager}.rs: the schedules that an event notifies, and the tasks that an
-- update creates anew.
use ailes.Common.{
  Bool-cases, inl, inr, ℕ, zero, suc, ◌+◌, ◌≤◌, Bool, true, false, not, ◌&&◌, ◌||◌, List, [], ◌∷◌,
  ◌==◌, if◌then◌else◌, ◌≡◌, refl, sym, ap, ap₂, map, ◌∙◌, arith, length,
}
use ailes.Common.Machine.{Uuid}
use ailes.Schedule.Conditions.{Floats}
use ailes.Schedule.Triggers.{
  ScheduleTrigger, cron, power_action, server_state, backup_status, schedule_completion,
  resource_usage, console_line, crash, same_trigger, same_triggers, is_taskable,
  create_trigger_tasks, is_completion,
}
use ailes.Schedule.Manager.{
  RawSchedule, Schedule, new, update, refresh, recreate_triggers, trigger, run_triggers,
  execute_schedule_completion_trigger,
}

module _ {C F : Type 0} where
  abbrev pub any_match : (ScheduleTrigger C F → Bool) → List (ScheduleTrigger C F) → Bool
  any_match matches [] = false
  any_match matches (t ∷ triggers) = let rest = any_match matches triggers in matches t || rest

  abbrev pub any_taskable : List (ScheduleTrigger C F) → Bool
  any_taskable [] = false
  any_taskable (t ∷ triggers) = let rest = any_taskable triggers in is_taskable t || rest

module _ {C F : Type 0} (same_cron : C → C → Bool) (floats : Floats F) where
  same_trigger_refl :
      (t : ScheduleTrigger C F) → is_taskable t ≡ false → same_trigger same_cron floats t t ≡ true
  unfolding same_trigger is_taskable
  same_trigger_refl (cron schedule) h = ground arith
  same_trigger_refl (power_action action) h = ground arith
  same_trigger_refl (server_state state) h = ground arith
  same_trigger_refl (backup_status status) h = ground arith
  same_trigger_refl (schedule_completion schedule successful) h = ground arith
  same_trigger_refl (resource_usage trigger) h = ground arith
  same_trigger_refl (console_line contains case_insensitive output_into) h = ground arith
  same_trigger_refl crash h = refl

  stays :
      (ts : List (ScheduleTrigger C F))
      → any_taskable ts ≡ false
      → same_triggers same_cron floats (create_trigger_tasks ts).0 ts ≡ true
  unfolding create_trigger_tasks same_triggers
  stays [] h = refl
  stays (t ∷ ts) h =
      let off : is_taskable t ≡ false = ground arith in
      rw off (ground (arith, stays ts (ground arith), same_trigger_refl t off))

  kept-same :
      (ts : List (ScheduleTrigger C F))
      → same_triggers same_cron floats (create_trigger_tasks ts).0 (create_trigger_tasks ts).0
        ≡ true
  unfolding create_trigger_tasks same_triggers
  kept-same [] = refl
  kept-same (t ∷ ts) = elim (Bool-cases (is_taskable t)) [
    | inl on ↦ rw on (kept-same ts)
    | inr off ↦ rw off (ground (arith, kept-same ts, same_trigger_refl t off))
  ]

  same-length :
      (ts us : List (ScheduleTrigger C F))
      → same_triggers same_cron floats ts us ≡ true
      → length ts ≡ length us
  unfolding same_triggers
  same-length [] [] h = refl
  same-length [] (u ∷ us) h = ground arith
  same-length (t ∷ ts) [] h = ground arith
  same-length (t ∷ ts) (u ∷ us) h = ap suc (same-length ts us (ground arith))

  length-triggers :
      (ts : List (ScheduleTrigger C F))
      → length (create_trigger_tasks ts).0 + (if any_taskable ts then 1 else 0) ≤ length ts
  unfolding create_trigger_tasks
  length-triggers [] = omega arith
  length-triggers (t ∷ ts) = ground (arith, length-triggers ts)

  differs : (b : Bool) → ¬ (b ≡ true) → b ≡ false
  differs true h = absurd (h refl)
  differs false h = refl

  same-stays :
      (ts : List (ScheduleTrigger C F)) (any : Bool)
      → any_taskable ts ≡ any
      → same_triggers same_cron floats (create_trigger_tasks ts).0 ts ≡ not any
  same-stays ts false h = stays ts h
  same-stays ts true h =
      differs (same_triggers same_cron floats (create_trigger_tasks ts).0 ts) (λ same.
        ground (arith, length-triggers ts, same-length (create_trigger_tasks ts).0 ts same))

module _ {C F A : Type 0} (same_cron : C → C → Bool) (floats : Floats F) where
  abbrev pub refreshes : ℕ → RawSchedule C F A → Schedule C F A
  refreshes zero raw = new raw
  refreshes (suc n) raw = refresh same_cron floats raw (refreshes n raw)

  abbrev pub refreshes_of : ℕ → RawSchedule C F A → Schedule C F A → Schedule C F A
  refreshes_of zero raw s = s
  refreshes_of (suc n) raw s = refresh same_cron floats raw (refreshes_of n raw s)

  refreshes-triggers :
      (n : ℕ) (raw : RawSchedule C F A)
      → (refreshes n raw).triggers ≡ (create_trigger_tasks raw.triggers).0
  unfolding refresh recreate_triggers update new
  refreshes-triggers zero raw = refl
  refreshes-triggers (suc n) raw = ground (arith, refreshes-triggers n raw)

  -- If an update only takes away the triggers with a task, that is, configures the others alone, then the
  -- schedule keeps its tasks, and no later update with this configuration ends them.
  pub refreshes-keeps_tasks :
      (n : ℕ) (raw : RawSchedule C F A) (s : Schedule C F A) (ts : List (ScheduleTrigger C F))
      → s.triggers ≡ (create_trigger_tasks ts).0
      → raw.triggers ≡ (create_trigger_tasks ts).0
      → ((refreshes_of n raw s).trigger_tasks ≡ s.trigger_tasks)
        × ((refreshes_of n raw s).triggers ≡ s.triggers)
  unfolding refresh update
  refreshes-keeps_tasks zero raw s ts h k = (refl, refl)
  refreshes-keeps_tasks (suc n) raw s ts h k =
      let (tasks, triggers) = refreshes-keeps_tasks n raw s ts h k in
      let same : same_triggers same_cron floats (refreshes_of n raw s).triggers raw.triggers
          ≡ true =
        ap₂ (same_triggers same_cron floats) (triggers ∙ h) k ∙ kept-same same_cron floats ts in
      rw same (tasks, triggers)

  -- After any number of updates with one configuration the tasks have been created anew by each if a trigger has a task,
  -- and by none otherwise.
  pub refreshes-created :
      (n : ℕ) (raw : RawSchedule C F A)
      → (refreshes n raw).created ≡ (if any_taskable raw.triggers then suc n else 1)
  unfolding refresh recreate_triggers update new
  refreshes-created zero raw = ground arith
  refreshes-created (suc n) raw =
      let same : same_triggers same_cron floats (refreshes n raw).triggers raw.triggers
          ≡ not (any_taskable raw.triggers) =
        ap (λ ts. same_triggers same_cron floats ts raw.triggers) (refreshes-triggers n raw)
        ∙ same-stays same_cron floats raw.triggers (any_taskable raw.triggers) refl in
      ground (arith, same, refreshes-created n raw)

or_false : (b : Bool) → (b || false) ≡ b
or_false true = refl
or_false false = refl

or_true : (b : Bool) → (b || true) ≡ true
or_true true = refl
or_true false = refl

module _ {C F A : Type 0} where
  abbrev pub notify_if : Bool → Schedule C F A → Schedule C F A
  notify_if b s = record s { executor_notifier = s.executor_notifier || b }

  run_triggers-step :
      (matches : ScheduleTrigger C F → Bool) (triggers : List (ScheduleTrigger C F))
      (s : Schedule C F A) (b : Bool)
      → ((s : Schedule C F A)
          → run_triggers matches triggers s ≡ notify_if (any_match matches triggers) s)
      → run_triggers matches triggers (if b then trigger false s else s)
        ≡ notify_if (b || any_match matches triggers) s
  run_triggers-step matches triggers s true ih =
      ih (trigger false s)
      ∙ ap (λ b. record s { executor_notifier = b }) (sym (or_true s.executor_notifier))
  run_triggers-step matches triggers s false ih = ih s

  run_triggers-notify_if :
      (matches : ScheduleTrigger C F → Bool) (triggers : List (ScheduleTrigger C F))
      (s : Schedule C F A)
      → run_triggers matches triggers s ≡ notify_if (any_match matches triggers) s
  unfolding run_triggers
  run_triggers-notify_if matches [] s =
      ap (λ b. record s { executor_notifier = b }) (sym (or_false s.executor_notifier))
  run_triggers-notify_if matches (t ∷ triggers) s =
      run_triggers-step matches triggers s (matches t) (run_triggers-notify_if matches triggers)

  completion-step :
      (completed : Uuid) (successful : Bool) (s : Schedule C F A) (same : Bool)
      {rest others : List (Schedule C F A)}
      → rest ≡ others
      → (if same
          then s ∷ rest
          else run_triggers (is_completion completed successful) s.triggers s ∷ rest)
        ≡ notify_if (not same && any_match (is_completion completed successful) s.triggers) s
          ∷ others
  completion-step completed successful s true p =
      ap₂ (λ b rest. record s { executor_notifier = b } ∷ rest) (sym (or_false s.executor_notifier))
        p
  completion-step completed successful s false p =
      ap₂ (λ s rest. s ∷ rest)
        (run_triggers-notify_if (is_completion completed successful) s.triggers s) p

  -- The end of a schedule's run notifies exactly the other schedules with a trigger for it, and changes nothing else.
  pub completion-notify_if :
      (completed : Uuid) (successful : Bool) (schedules : List (Schedule C F A))
      → execute_schedule_completion_trigger completed successful schedules
        ≡ map
            (λ s.
              notify_if
                (not (s.uuid == completed)
                  && any_match (is_completion completed successful) s.triggers)
                s)
            schedules
  unfolding execute_schedule_completion_trigger
  completion-notify_if completed successful [] = refl
  completion-notify_if completed successful (s ∷ schedules) =
      completion-step completed successful s (s.uuid == completed)
        (completion-notify_if completed successful schedules)
