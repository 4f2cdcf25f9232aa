-- ===== src/Schedule/Manager/Updates.antt =====
-- application/src/server/schedule/manager.rs: the schedules after `update_schedules`, each as a look for it by
-- its identifier finds it.
use ailes.Common.{
  Bool-cases, inl, inr, suc, Bool, true, false, not, ◌&&◌, ◌||◌, Option, none, some, List, [], ◌∷◌,
  ◌==◌, ==_iff, if◌then◌else◌, ◌≡◌, refl, sym, ap, ◌∙◌, arith,
}
use ailes.Common.Machine.{Uuid}
use ailes.Schedule.Conditions.{Floats}
use ailes.Schedule.Triggers.{same_triggers, create_trigger_tasks}
use ailes.Schedule.Manager.{
  RawSchedule, Schedule, new, update, recreate_triggers, any_uuid, retain, refresh, update_or_push,
  update_all, update_schedules,
}

module _ {C F A : Type 0} where
  abbrev pub find : Uuid → List (Schedule C F A) → Option (Schedule C F A)
  find uuid [] = none
  find uuid (s ∷ schedules) =
      let rest = find uuid schedules in if s.uuid == uuid then some s else rest

  abbrev pub find_raw : Uuid → List (RawSchedule C F A) → Option (RawSchedule C F A)
  find_raw uuid [] = none
  find_raw uuid (raw ∷ raws) =
      let rest = find_raw uuid raws in if raw.uuid == uuid then some raw else rest

  -- No two schedules of a configuration have one identifier.
  abbrev pub are_distinct : List (RawSchedule C F A) → Bool
  are_distinct [] = true
  are_distinct (raw ∷ raws) = let rest = are_distinct raws in not (any_uuid raw.uuid raws) && rest

  find-retain_step :
      (uuid : Uuid) (raws : List (RawSchedule C F A)) (s : Schedule C F A)
      (rest schedules : List (Schedule C F A)) (b here : Bool)
      → any_uuid s.uuid raws ≡ b
      → (s.uuid == uuid) ≡ here
      → find uuid rest ≡ (if any_uuid uuid raws then find uuid schedules else none)
      → find uuid (if b then s ∷ rest else rest)
        ≡ (if any_uuid uuid raws then find uuid (s ∷ schedules) else none)
  find-retain_step uuid raws s rest schedules true true hb h ih =
      let kept : any_uuid uuid raws ≡ true =
        ap (λ u. any_uuid u raws) (sym ((==_iff s.uuid uuid).0 h)) ∙ hb in
      rw (kept, h) refl
  find-retain_step uuid raws s rest schedules false true hb h ih =
      let dropped : any_uuid uuid raws ≡ false =
        ap (λ u. any_uuid u raws) (sym ((==_iff s.uuid uuid).0 h)) ∙ hb in
      ih ∙ rw dropped refl
  find-retain_step uuid raws s rest schedules true false hb h ih = rw h ih
  find-retain_step uuid raws s rest schedules false false hb h ih = rw h ih

  find-retain :
      (uuid : Uuid) (raws : List (RawSchedule C F A)) (schedules : List (Schedule C F A))
      → find uuid (retain raws schedules)
        ≡ (if any_uuid uuid raws then find uuid schedules else none)
  unfolding retain
  find-retain uuid raws [] = ground arith
  find-retain uuid raws (s ∷ schedules) =
      find-retain_step uuid raws s (retain raws schedules) schedules (any_uuid s.uuid raws)
        (s.uuid == uuid) refl refl (find-retain uuid raws schedules)

module _ {C F A : Type 0} (same_cron : C → C → Bool) (floats : Floats F) where
  abbrev pub updated : RawSchedule C F A → Option (Schedule C F A) → Schedule C F A
  updated raw none = record {
    uuid = raw.uuid;
    triggers = (create_trigger_tasks raw.triggers).0;
    condition = raw.condition;
    raw_actions = raw.actions;
    trigger_tasks = (create_trigger_tasks raw.triggers).1;
    created = 1;
    executor_notifier = false;
    executor_skip_notifier = false;
  }
  updated raw (some s) =
      let same = same_triggers same_cron floats s.triggers raw.triggers in
      record s {
        triggers = if same then s.triggers else (create_trigger_tasks raw.triggers).0;
        condition = raw.condition;
        raw_actions = raw.actions;
        trigger_tasks = if same then s.trigger_tasks else (create_trigger_tasks raw.triggers).1;
        created = if same then s.created else suc s.created;
      }

  refresh-updated :
      (raw : RawSchedule C F A) (s : Schedule C F A)
      → refresh same_cron floats raw s ≡ updated raw (some s)
  unfolding refresh update recreate_triggers
  refresh-updated raw s =
      elim (Bool-cases (same_triggers same_cron floats s.triggers raw.triggers)) [
        | inl e ↦ rw e refl
        | inr e ↦ rw e refl
      ]

  refresh-uuid :
      (raw : RawSchedule C F A) (s : Schedule C F A)
      → (refresh same_cron floats raw s).uuid ≡ s.uuid
  unfolding refresh update recreate_triggers
  refresh-uuid raw s = ground arith

  new-uuid : (raw : RawSchedule C F A) → (new raw).uuid ≡ raw.uuid
  unfolding new
  new-uuid raw = refl

  find-push_step :
      (uuid : Uuid) (raw : RawSchedule C F A) (s : Schedule C F A)
      (rest schedules : List (Schedule C F A)) (b here : Bool)
      → (s.uuid == raw.uuid) ≡ b
      → (s.uuid == uuid) ≡ here
      → find uuid rest ≡ (
          if raw.uuid == uuid
          then some (updated raw (find uuid schedules))
          else find uuid schedules)
      → find uuid (if b then refresh same_cron floats raw s ∷ schedules else s ∷ rest) ≡ (
          if raw.uuid == uuid
          then some (updated raw (find uuid (s ∷ schedules)))
          else find uuid (s ∷ schedules))
  find-push_step uuid raw s rest schedules true true hb h ih =
      let found : (raw.uuid == uuid) ≡ true = ground arith in
      let refreshed : ((refresh same_cron floats raw s).uuid == uuid) ≡ true =
        ap (λ u. u == uuid) (refresh-uuid raw s) ∙ h in
      rw (refreshed, h, found) (ap some (refresh-updated raw s))
  find-push_step uuid raw s rest schedules true false hb h ih =
      let off : (raw.uuid == uuid) ≡ false = ground arith in
      let refreshed : ((refresh same_cron floats raw s).uuid == uuid) ≡ false =
        ap (λ u. u == uuid) (refresh-uuid raw s) ∙ h in
      rw (refreshed, h, off) refl
  find-push_step uuid raw s rest schedules false true hb h ih =
      let off : (raw.uuid == uuid) ≡ false = ground arith in rw (h, off) refl
  find-push_step uuid raw s rest schedules false false hb h ih = rw h ih

  find-update_or_push :
      (uuid : Uuid) (raw : RawSchedule C F A) (schedules : List (Schedule C F A))
      → find uuid (update_or_push same_cron floats raw schedules) ≡ (
          if raw.uuid == uuid
          then some (updated raw (find uuid schedules))
          else find uuid schedules)
  unfolding update_or_push new
  find-update_or_push uuid raw [] = refl
  find-update_or_push uuid raw (s ∷ schedules) =
      find-push_step uuid raw s (update_or_push same_cron floats raw schedules) schedules
        (s.uuid == raw.uuid) (s.uuid == uuid) refl refl (find-update_or_push uuid raw schedules)

  find-update_all_off :
      (uuid : Uuid) (raws : List (RawSchedule C F A)) (schedules : List (Schedule C F A))
      → any_uuid uuid raws ≡ false
      → find uuid (update_all same_cron floats raws schedules) ≡ find uuid schedules
  find-update_all_off uuid [] schedules h = refl
  find-update_all_off uuid (raw ∷ raws) schedules h =
      let off : (raw.uuid == uuid) ≡ false = ground arith in
      find-update_all_off uuid raws (update_or_push same_cron floats raw schedules) (ground arith)
      ∙ find-update_or_push uuid raw schedules
      ∙ rw off refl

  -- What a look finds behind the loop: `before` if no configuration has the identifier.
  abbrev pub found :
      Option (Schedule C F A)
      → Option (Schedule C F A)
      → Option (RawSchedule C F A)
      → Option (Schedule C F A)
  found before others none = others
  found before others (some raw) = some (updated raw before)

  find-all_step :
      (uuid : Uuid) (raw : RawSchedule C F A) (raws : List (RawSchedule C F A))
      (schedules : List (Schedule C F A)) (here : Bool)
      → (raw.uuid == uuid) ≡ here
      → any_uuid raw.uuid raws ≡ false
      → (let next = update_or_push same_cron floats raw schedules in
          find uuid (update_all same_cron floats raws next)
          ≡ found (find uuid next) (find uuid next) (find_raw uuid raws))
      → find uuid (update_all same_cron floats (raw ∷ raws) schedules)
        ≡ found (find uuid schedules) (find uuid schedules) (find_raw uuid (raw ∷ raws))
  find-all_step uuid raw raws schedules true h once ih =
      let off : any_uuid uuid raws ≡ false =
        ap (λ u. any_uuid u raws) (sym ((==_iff raw.uuid uuid).0 h)) ∙ once in
      find-update_all_off uuid raws (update_or_push same_cron floats raw schedules) off
      ∙ find-update_or_push uuid raw schedules
      ∙ rw h refl
  find-all_step uuid raw raws schedules false h once ih =
      let same = find-update_or_push uuid raw schedules in ih ∙ rw (same, h) refl

  find-update_all :
      (uuid : Uuid) (raws : List (RawSchedule C F A)) (schedules : List (Schedule C F A))
      → are_distinct raws ≡ true
      → find uuid (update_all same_cron floats raws schedules)
        ≡ found (find uuid schedules) (find uuid schedules) (find_raw uuid raws)
  find-update_all uuid [] schedules h = refl
  find-update_all uuid (raw ∷ raws) schedules h =
      find-all_step uuid raw raws schedules (raw.uuid == uuid) refl (ground arith)
        (find-update_all uuid raws (update_or_push same_cron floats raw schedules) (ground arith))

  found-retained_step :
      (x : Option (Schedule C F A)) (raw : RawSchedule C F A) (others : Option (RawSchedule C F A))
      (here any : Bool)
      → (let y = if any then x else none in found y y others ≡ found x none others)
      → (let y = if here || any then x else none in
          let raw? = if here then some raw else others in found y y raw? ≡ found x none raw?)
  found-retained_step x raw others true any ih = refl
  found-retained_step x raw others false any ih = ih

  found-retained :
      (uuid : Uuid) (raws : List (RawSchedule C F A)) (x : Option (Schedule C F A))
      → (let y = if any_uuid uuid raws then x else none in
          found y y (find_raw uuid raws) ≡ found x none (find_raw uuid raws))
  found-retained uuid [] x = refl
  found-retained uuid (raw ∷ raws) x =
      found-retained_step x raw (find_raw uuid raws) (raw.uuid == uuid) (any_uuid uuid raws)
        (found-retained uuid raws x)

  -- If no two schedules of the configuration have one identifier, then after the update exactly its schedules
  -- are there. One that was there has the condition and actions of the configuration; its triggers and tasks are
  -- those it had if the triggers that it keeps without a task are equal to the configured ones, and are made anew
  -- from these otherwise, which counts as one more creation; its identifier and its notifiers stay. Any other has
  -- all of the configuration, tasks that were created once, and no notification.
  pub find-update_schedules :
      (raws : List (RawSchedule C F A)) (schedules : List (Schedule C F A)) (uuid : Uuid)
      → are_distinct raws ≡ true
      → find uuid (update_schedules same_cron floats raws schedules)
        ≡ found (find uuid schedules) none (find_raw uuid raws)
  unfolding update_schedules
  find-update_schedules raws schedules uuid h =
      find-update_all uuid raws (retain raws schedules) h
      ∙ ap (λ x. found x x (find_raw uuid raws)) (find-retain uuid raws schedules)
      ∙ found-retained uuid raws (find uuid schedules)
