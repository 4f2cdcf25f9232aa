-- ===== src/Permissions.antt =====
-- application/src/server/permissions.rs: the permissions, their names, and what a set of them grants.
pub mod Names
pub mod Users
pub mod Access
mod Runs
use ailes.Common.{
  Bool, true, false, not, ◌&&◌, ◌||◌, Option, none, some, List, [], ◌∷◌, if◌then◌else◌, ◌==◌, ℕ,
  sym, ap, ◌∙◌, get_elem?, ◌≡◌, ◌↔◌, arith, ==_iff, refl, ◌⊎◌, inl, inr, Bool-cases,
}
use ailes.Common.Dict.{Key}
use Prim.Native.String.{String}

pub data Permission : Type 0 where
  all meta_calagopus : Permission
  websocket_connect : Permission
  control_read_console control_console control_start control_stop control_restart : Permission
  admin_websocket_errors admin_websocket_install admin_websocket_transfer : Permission
  backup_read schedule_read : Permission
  file_read file_read_content file_create file_update file_delete file_archive file_sftp :
      Permission

unfoldable pub is_admin : Permission → Bool
is_admin admin_websocket_errors = true
is_admin admin_websocket_install = true
is_admin admin_websocket_transfer = true
is_admin _ = false

unfoldable pub to_str : Permission → String
to_str all = "*"
to_str meta_calagopus = "meta.calagopus"
to_str websocket_connect = "websocket.connect"
to_str control_read_console = "control.read-console"
to_str control_console = "control.console"
to_str control_start = "control.start"
to_str control_stop = "control.stop"
to_str control_restart = "control.restart"
to_str admin_websocket_errors = "admin.websocket.errors"
to_str admin_websocket_install = "admin.websocket.install"
to_str admin_websocket_transfer = "admin.websocket.transfer"
to_str backup_read = "backup.read"
to_str schedule_read = "schedule.read"
to_str file_read = "file.read"
to_str file_read_content = "file.read-content"
to_str file_create = "file.create"
to_str file_update = "file.update"
to_str file_delete = "file.delete"
to_str file_archive = "file.archive"
to_str file_sftp = "file.sftp"

-- The place of a permission in the declaration: two are `==` when theirs are the same.
abbrev pub index : Permission → ℕ
index all = 0
index meta_calagopus = 1
index websocket_connect = 2
index control_read_console = 3
index control_console = 4
index control_start = 5
index control_stop = 6
index control_restart = 7
index admin_websocket_errors = 8
index admin_websocket_install = 9
index admin_websocket_transfer = 10
index backup_read = 11
index schedule_read = 12
index file_read = 13
index file_read_content = 14
index file_create = 15
index file_update = 16
index file_delete = 17
index file_archive = 18
index file_sftp = 19

abbrev every : List Permission
every =
    all ∷ meta_calagopus ∷ websocket_connect ∷ control_read_console ∷ control_console
    ∷ control_start ∷ control_stop ∷ control_restart ∷ admin_websocket_errors
    ∷ admin_websocket_install ∷ admin_websocket_transfer ∷ backup_read ∷ schedule_read ∷ file_read
    ∷ file_read_content ∷ file_create ∷ file_update ∷ file_delete ∷ file_archive ∷ file_sftp ∷ []

every-index : (p : Permission) → get_elem? every (index p) ≡ some p
every-index p = ground arith

abbrev pub same_permission : Permission → Permission → Bool
same_permission p q = index p == index q

pub same_permission_iff : (p q : Permission) → (same_permission p q ≡ true) ↔ (p ≡ q)
same_permission_iff p q = (
  (λ h.
      let e : index p ≡ index q = ground arith in
      let f : some p ≡ some q = sym (every-index p) ∙ ap (get_elem? every) e ∙ every-index q in cc),
  λ e. rw e (ground arith),
)

-- The set as a list; only `contains` and emptiness are asked of it.
abbrev pub Permissions : Type 0
Permissions = List Permission

unfoldable pub contains : Permissions → Permission → Bool
contains [] p = false
contains (q ∷ qs) p = let rest = contains qs p in same_permission q p || rest

unfoldable pub is_calagopus : Permissions → Bool
is_calagopus ps = contains ps meta_calagopus

unfoldable pub has_permission : Permissions → Permission → Bool
has_permission ps p = if (contains ps all && not (is_admin p)) || contains ps p then true else false

unfoldable pub has_calagopus_permission_or : Permissions → Permission → Bool → Bool
has_calagopus_permission_or ps p default =
    if not (is_calagopus ps) then default else has_permission ps p
