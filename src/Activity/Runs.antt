-- ===== src/Activity/Runs.antt =====
-- Activities of two users, and the theorems on them at concrete inputs. A JSON value is a number.
use ailes.Common.{
  All, ℕ, suc, ◌*◌, none, some, List, [], ◌∷◌, ◌++◌, length, ◌≡◌, if◌then◌else◌, ◌==◌, arith,
}
use mathlib.Core.List.{Permᴰ, reverse}
use mathlib.Core.List
use ailes.Common.Machine.{second}
use ailes.Activity.{power_start, sftp_write, array, Activity, Kind, Group, kind, merge_activities}
use ailes.Activity.Kept.{passed, total}
use ailes.Activity.Merged.{IsOrder, merge_activities-passed, merge_activities-total}
use ailes.Activity.Windows.{IsNear, merge_activities-IsNear}
use ailes.Activity.Sending.{send_open, send_closed, all_drained, Same, send-Same}

abbrev write_of : ℕ → ℕ → ℕ → Activity ℕ
write_of user file seconds = record {
  user = some user;
  event = sftp_write;
  metadata = some (record { files = some (array (file ∷ [])); directory = none; others = 0 });
  ip = none;
  schedule = none;
  timestamp = seconds * second;
}

abbrev started : Activity ℕ
started = record {
  user = none;
  event = power_start;
  metadata = none;
  ip = none;
  schedule = none;
  timestamp = 20 * second;
}

abbrev batch : List (Activity ℕ)
batch = write_of 1 5 0 ∷ write_of 2 6 10 ∷ started ∷ write_of 1 7 50 ∷ write_of 1 8 100 ∷ []

-- The last value first.
abbrev last_first : List (Group ℕ) → List (Group ℕ)
last_first groups = reverse groups

last_first-IsOrder : IsOrder last_first
last_first-IsOrder groups = List.Permᴰ.reverse groups

-- How often a file stands there.
abbrev is_file : ℕ → Kind → ℕ → ℕ
is_file file kind x = if x == file then 1 else 0

merge_activities-passed_example : passed (merge_activities last_first batch) ≡ passed batch
merge_activities-passed_example = merge_activities-passed last_first last_first-IsOrder batch

merge_activities-total_example :
    total (is_file 7) (merge_activities last_first batch) ≡ total (is_file 7) batch
merge_activities-total_example =
    merge_activities-total last_first last_first-IsOrder (is_file 7) batch

abbrev rounds : List (ℕ × Activity ℕ × List (Activity ℕ))
rounds = (2, write_of 1 5 0, write_of 2 6 10 ∷ started ∷ []) ∷ (1, started, []) ∷ []

send-Same_example :
    let (sent, leftover) = send_open last_first rounds [] in
    Same (sent ++ leftover) (all_drained rounds)
    × ((last : List (Activity ℕ)) × (send_closed last_first (suc (length leftover)) 1 leftover
          ≡ some last)
        × Same (sent ++ last) (all_drained rounds))
send-Same_example = send-Same last_first last_first-IsOrder rounds 1 (omega arith)

merge_activities-IsNear_example : All (IsNear batch) (merge_activities last_first batch)
merge_activities-IsNear_example = merge_activities-IsNear last_first last_first-IsOrder batch
