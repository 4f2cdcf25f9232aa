-- ===== src/Permissions/Runs.antt =====
-- Concrete permissions and users: the properties at inputs where their conditions hold.
use ailes.Common.{ℕ, ◌+◌, ◌*◌, true, false, Option, none, some, List, [], ◌∷◌, ◌≡◌, refl, arith}
use ailes.Common.Text.{Text}
use ailes.Common.Machine.{second}
use ailes.Common.Dict.{put}
use ailes.Permissions.{
  Permissions, contains, has_permission, is_admin, all, file_read, admin_websocket_errors,
}
use ailes.Permissions.Users.{
  UserPermissions, UserPermissionsMap, default, set_permissions, user_has_permission, cleanup,
}
use ailes.Permissions.Access.{user_has_permission-cleanup}

abbrev three : Permissions
three = all ∷ file_read ∷ admin_websocket_errors ∷ []

-- An override is the list of its globs.
abbrev build : List Text → Option (List Text)
build files = some files

abbrev users0 : UserPermissionsMap (List Text)
users0 = set_permissions build 0 7 three (some []) default

abbrev entry0 : UserPermissions (List Text)
entry0 = record { permissions = three; ignored = some []; last_access = 0 }

entry-users0 : users0.map 7 ≡ some entry0
unfolding set_permissions default put
entry-users0 = refl

abbrev day : ℕ
day = 86400 * second

user_has_permission-cleanup_example :
    (user_has_permission
      (day + 2)
      7
      file_read
      (cleanup (day + 1) (set_permissions build day 7 three none users0))).1
    ≡ false
user_has_permission-cleanup_example =
    user_has_permission-cleanup build day (day + 1) (day + 2) 7 three none users0 entry0 file_read
      entry-users0 (ground arith)

may-admin : (user_has_permission 1 7 admin_websocket_errors users0).1 ≡ true
unfolding user_has_permission set_permissions default put has_permission contains is_admin
may-admin = refl
