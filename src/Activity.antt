-- ===== src/Activity.antt =====
-- application/src/server/activity.rs: the activities of a server, how a batch of them is merged, and the task
-- that sends them to the panel. Of a JSON value of metadata it has the fields that the code reads.
pub mod Groups
pub mod Kept
pub mod Merges
pub mod Merged
pub mod Windows
pub mod Sending
mod Runs
use ailes.Common.{
  ℕ, ◌+◌, ◌-◌, ◌/◌, max, min, Bool, true, false, ◌&&◌, Option, none, some, List, [], ◌∷◌, ◌++◌, map,
  length, take, drop, leb, ltb, if◌then◌else◌,
}
use ailes.Common.Text.{Text}
use mathlib.Core.Logic.{ite}
use native.Mathlib.Decide.{ℕ_discrete}
use ailes.Common.Machine.{Uuid, second}

pub data ActivityEvent : Type 0 where
  power_start power_stop power_restart power_kill console_command : ActivityEvent
  sftp_login sftp_write sftp_read sftp_create sftp_create_directory : ActivityEvent
  sftp_rename sftp_delete : ActivityEvent
  file_uploaded file_compress file_decompress file_create_directory : ActivityEvent
  file_write file_copy file_delete file_rename : ActivityEvent

unfoldable pub is_sftp_event : ActivityEvent → Bool
is_sftp_event sftp_write = true
is_sftp_event sftp_read = true
is_sftp_event sftp_create = true
is_sftp_event sftp_create_directory = true
is_sftp_event sftp_rename = true
is_sftp_event sftp_delete = true
is_sftp_event _ = false

-- The field `files` of an object.
pub data Files (J : Type 0) : Type 0 where
  array : List J → Files J
  no_array : J → Files J

-- `directory` is there if it is a string.
pub record Metadata (J : Type 0) : Type 0 where
  pub files : Option (Files J)
  pub directory : Option Text
  pub others : J

pub record Activity (J : Type 0) : Type 0 where
  pub user : Option Uuid
  pub event : ActivityEvent
  pub metadata : Option (Metadata J)
  pub ip : Option Text
  pub schedule : Option Uuid
  pub timestamp : ℕ

abbrev pub channel_capacity : ℕ
channel_capacity = 5120

-- The keys of the two maps, and what passes by them.
pub data Kind : Type 0 where
  sftp : ActivityEvent → Option Uuid → Kind
  upload : Option Uuid → Text → Kind
  other : Kind

pub Kind-discrete : Discrete Kind
Kind-discrete = hlevel (ℕ_discrete)

abbrev pub is_uploaded : ActivityEvent → Bool
is_uploaded file_uploaded = true
is_uploaded _ = false

abbrev pub is_there : {J : Type 0} → Option (Files J) → Bool
is_there none = false
is_there (some files) = true

abbrev pub upload_kind : Option Uuid → Option Text → Kind
upload_kind user none = other
upload_kind user (some directory) = upload user directory

-- The two tests of the loop on an activity.
abbrev pub kind_of : {J : Type 0} → ActivityEvent → Option Uuid → Option (Metadata J) → Kind
kind_of event user none = other
kind_of event user (some metadata) =
    if is_sftp_event event && is_there metadata.files
    then sftp event user
    else if is_uploaded event && is_there metadata.files
    then upload_kind user metadata.directory
    else other

abbrev pub array_of : {J : Type 0} → Option (Files J) → List J
array_of none = []
array_of (some (array files)) = files
array_of (some (no_array value)) = []

abbrev pub files_of : {J : Type 0} → Option (Metadata J) → List J
files_of none = []
files_of (some metadata) = array_of metadata.files

abbrev pub put_files : {J : Type 0} → List J → Option (Metadata J) → Option (Metadata J)
put_files files none = none
put_files files (some metadata) =
    some
      (if is_there metadata.files then record metadata { files = some (array files) } else metadata)

module _ {J : Type 0} where
  unfoldable pub kind : Activity J → Kind
  kind activity = kind_of activity.event activity.user activity.metadata

  unfoldable pub extract_files : Activity J → List J
  extract_files activity = files_of activity.metadata

  abbrev pub finalize : List J → Activity J → Activity J
  finalize [] activity = activity
  finalize (file ∷ files) activity = record activity {
    metadata = put_files (file ∷ files) activity.metadata;
  }

  unfoldable pub finalize_files : Activity J → List J → Activity J
  finalize_files activity files = finalize files activity

-- A value of a map: the first activity, and the files of all.
pub record Group (J : Type 0) : Type 0 where
  pub base : Activity J
  pub files : List J

-- `signed_duration_since`, `num_seconds` and `abs`.
abbrev pub seconds_between : ℕ → ℕ → ℕ
seconds_between s t = (max s t - min s t) / second

module _ {J : Type 0} where
  unfoldable pub begin : Activity J → Group J
  begin activity = record { base = activity; files = extract_files activity }

  unfoldable pub extend : Activity J → Group J → Group J
  extend activity group = record group { files = group.files ++ extract_files activity }

  unfoldable pub close : Group J → Activity J
  close group = finalize_files group.base group.files

  abbrev pub opt : Option (Activity J) → List (Activity J)
  opt none = []
  opt (some activity) = activity ∷ []

  -- One round of the loop at one of the maps, and the group that it closes.
  unfoldable pub collect :
      Kind → Activity J → List (Kind × Group J) → List (Kind × Group J) × Option (Activity J)
  collect key activity [] = ((key, begin activity) ∷ [], none)
  collect key activity ((key', group) ∷ groups) =
      let behind = collect key activity groups in
      ite (Kind-discrete key' key)
        (if leb (seconds_between activity.timestamp group.base.timestamp) 60
          then ((key', extend activity group) ∷ groups, none)
          else ((key', begin activity) ∷ groups, some (close group)))
        ((key', group) ∷ behind.0, behind.1)

pub record Merging (J : Type 0) : Type 0 where
  pub merged : List (Activity J)
  pub sftp_events : List (Kind × Group J)
  pub file_upload_events : List (Kind × Group J)

module _ {J : Type 0} where
  -- A round of the loop with an activity of a kind.
  unfoldable pub merge_as : Kind → Activity J → Merging J → Merging J
  merge_as (sftp event user) activity m =
      let (groups, closed) = collect (sftp event user) activity m.sftp_events in
      record m { sftp_events = groups; merged = m.merged ++ opt closed }
  merge_as (upload user directory) activity m =
      let (groups, closed) = collect (upload user directory) activity m.file_upload_events in
      record m { file_upload_events = groups; merged = m.merged ++ opt closed }
  merge_as other activity m = record m { merged = m.merged ++ activity ∷ [] }

  unfoldable pub merge_loop : List (Activity J) → Merging J → Merging J
  merge_loop [] m = m
  merge_loop (activity ∷ activities) m = merge_loop activities (merge_as (kind activity) activity m)

  abbrev pub values : List (Kind × Group J) → List (Group J)
  values [] = []
  values ((key, group) ∷ groups) = group ∷ values groups

  -- `into_values` of a hash map gives its values in some order.
  abbrev pub closed_values :
      (List (Group J) → List (Group J)) → List (Kind × Group J) → List (Activity J)
  closed_values into_order groups = map close (into_order (values groups))

  abbrev pub no_groups : Merging J
  no_groups = record { merged = []; sftp_events = []; file_upload_events = [] }

  abbrev pub emptied : (List (Group J) → List (Group J)) → Merging J → List (Activity J)
  emptied into_order m =
      m.merged
      ++ (closed_values into_order m.sftp_events ++ closed_values into_order m.file_upload_events)

  unfoldable pub merge_activities :
      (List (Group J) → List (Group J)) → List (Activity J) → List (Activity J)
  merge_activities into_order activities = emptied into_order (merge_loop activities no_groups)

  -- The channel takes no more than its capacity.
  unfoldable pub log_activity : Activity J → List (Activity J) → List (Activity J)
  log_activity activity queue =
      if ltb (length queue) channel_capacity then queue ++ activity ∷ [] else queue

  -- What is drained, and what stays.
  unfoldable pub recv_many : List (Activity J) → List (Activity J) × List (Activity J)
  recv_many queue = (take channel_capacity queue, drop channel_capacity queue)

  -- A round of the task: what it sends, and what is left over. `none` ends the task.
  unfoldable pub split_batch : ℕ → List (Activity J) → List (Activity J) × List (Activity J)
  split_batch send_count merged =
      if ltb send_count (length merged)
      then (take send_count merged, drop send_count merged)
      else (merged, [])

  unfoldable pub send_round :
      (List (Group J) → List (Group J))
      → (send_count : ℕ) → (leftover drained : List (Activity J))
      → Option (List (Activity J) × List (Activity J))
  send_round into_order send_count leftover drained = elim (leftover ++ drained) [
    | [] ↦ none
    | activity ∷ batch ↦
        some (split_batch send_count (merge_activities into_order (activity ∷ batch)))
  ]
