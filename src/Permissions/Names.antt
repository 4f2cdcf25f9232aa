-- ===== src/Permissions/Names.antt =====
-- application/src/server/permissions.rs: reading permissions by their serde names and aliases.
use ailes.Common.{
  Bool, true, false, Option, none, some, List, [], ◌∷◌, ◌++◌, if◌then◌else◌, ◌≡◌, refl, arith, map,
}
use ailes.Permissions.{
  Permission, Permissions, to_str, all, meta_calagopus, websocket_connect, control_read_console,
  control_console, control_start, control_stop, control_restart, admin_websocket_errors,
  admin_websocket_install, admin_websocket_transfer, backup_read, schedule_read, file_read,
  file_read_content, file_create, file_update, file_delete, file_archive, file_sftp,
}
use Prim.Native.String.{String, compare}
use Prim.Native.Nat.{Ordering}

abbrev pub ◌is◌ : String → String → Bool
s is t = elim (compare s t) [ Ordering.eq ↦ true | _ ↦ false ]

infix 50 ◌is◌
-- The serde names in the order of the declaration, the aliases last.
abbrev serde_names : List (String × Permission)
serde_names =
    ("*", all)
    ∷ ("meta.calagopus", meta_calagopus)
    ∷ ("websocket.connect", websocket_connect)
    ∷ ("control.read-console", control_read_console)
    ∷ ("control.console", control_console)
    ∷ ("control.start", control_start)
    ∷ ("control.stop", control_stop)
    ∷ ("control.restart", control_restart)
    ∷ ("admin.websocket.errors", admin_websocket_errors)
    ∷ ("admin.websocket.install", admin_websocket_install)
    ∷ ("admin.websocket.transfer", admin_websocket_transfer)
    ∷ ("backup.read", backup_read)
    ∷ ("schedule.read", schedule_read)
    ∷ ("file.read", file_read)
    ∷ ("file.read-content", file_read_content)
    ∷ ("file.create", file_create)
    ∷ ("file.update", file_update)
    ∷ ("file.delete", file_delete)
    ∷ ("file.archive", file_archive)
    ∷ ("file.sftp", file_sftp)
    ∷ ("backups.read", backup_read)
    ∷ ("schedules.read", schedule_read)
    ∷ ("files.read", file_read)
    ∷ ("files.read-content", file_read_content)
    ∷ ("files.create", file_create)
    ∷ ("files.update", file_update)
    ∷ ("files.delete", file_delete)
    ∷ ("files.archive", file_archive)
    ∷ ("files.sftp", file_sftp)
    ∷ []

abbrev find : String → List (String × Permission) → Option Permission
find s [] = none
find s ((name, p) ∷ names) = let rest = find s names in if s is name then some p else rest

unfoldable pub from_value : String → Option Permission
from_value s = find s serde_names

-- An element of the sequence: a string, another JSON value, or input that cannot be read.
pub data Element : Type 0 where
  string : String → Element
  value : Element
  broken : Element

-- `while let Ok(Some(result)) = seq.next_element()`: what is no permission is left out, and input
-- that cannot be read ends the set without an error.
unfoldable pub visit_seq : List Element → Permissions
visit_seq [] = []
visit_seq (broken ∷ es) = []
visit_seq (value ∷ es) = visit_seq es
visit_seq (string s ∷ es) = elim (from_value s) [ none ↦ visit_seq es | some p ↦ p ∷ visit_seq es ]

from_value-to_str : (p : Permission) → from_value (to_str p) ≡ some p
unfolding from_value to_str
from_value-to_str all = refl
from_value-to_str meta_calagopus = refl
from_value-to_str websocket_connect = refl
from_value-to_str control_read_console = refl
from_value-to_str control_console = refl
from_value-to_str control_start = refl
from_value-to_str control_stop = refl
from_value-to_str control_restart = refl
from_value-to_str admin_websocket_errors = refl
from_value-to_str admin_websocket_install = refl
from_value-to_str admin_websocket_transfer = refl
from_value-to_str backup_read = refl
from_value-to_str schedule_read = refl
from_value-to_str file_read = refl
from_value-to_str file_read_content = refl
from_value-to_str file_create = refl
from_value-to_str file_update = refl
from_value-to_str file_delete = refl
from_value-to_str file_archive = refl
from_value-to_str file_sftp = refl

-- A set that is written by its names, with any elements after them, is read back whole, and what
-- the other elements name is added.
pub visit_seq-to_str :
    (ps : Permissions) (es : List Element)
    → visit_seq (map (λ p. string (to_str p)) ps ++ es) ≡ ps ++ visit_seq es
unfolding visit_seq
visit_seq-to_str [] es = refl
visit_seq-to_str (p ∷ ps) es = ground (arith, from_value-to_str p, visit_seq-to_str ps es)
