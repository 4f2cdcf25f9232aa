-- ===== src/Permissions/Users.antt =====
-- application/src/server/permissions.rs: the permissions of the users of a server. An operation on
-- the shared map returns the new map. The `ignore` crate is a parameter: `build` is what its builder
-- makes of the globs that it accepts, `is_whitelist` whether an override matches a path.
use ailes.Common.{
  ℕ, ◌-◌, ◌/◌, ◌*◌, Bool, true, false, Option, none, some, List, [], ◌∷◌, ◌++◌, ltb, ◌==◌,
  if◌then◌else◌,
}
use ailes.Common.Text.{Text}
use ailes.Common.Machine.{Uuid, second}
use ailes.Common.Dict.{Dict, empty, insert, remove, retain, contains_key, ℕ_key}
use ailes.Permissions.{Permission, Permissions, has_permission, has_calagopus_permission_or}

pub record UserPermissions (Override : Type 0) : Type 0 where
  pub permissions : Permissions
  pub ignored : Option Override
  pub last_access : ℕ

pub record UserPermissionsMap (Override : Type 0) : Type 0 where
  pub map : Dict Uuid (UserPermissions Override)
  -- What was sent to the removal channel.
  pub removals : List Uuid

module _ {Override : Type 0} where
  unfoldable pub default : UserPermissionsMap Override
  default = record { map = empty; removals = [] }

  -- The task's round: what was not accessed for a day is forgotten.
  unfoldable pub cleanup : ℕ → UserPermissionsMap Override → UserPermissionsMap Override
  cleanup now m = record m {
    map = retain (λ u. ltb ((now - u.last_access) / second) (60 * 60 * 24)) m.map;
  }

  -- `*last_access = Instant::now()` on an entry.
  unfoldable pub touch :
      Uuid
      → ℕ
      → UserPermissions Override
      → UserPermissionsMap Override
      → UserPermissionsMap Override
  touch user now u m = record m { map = insert user (record u { last_access = now }) m.map }

  unfoldable pub user_has_permission :
      ℕ → Uuid → Permission → UserPermissionsMap Override → UserPermissionsMap Override × Bool
  user_has_permission now user permission m = elim (m.map user) [
    | none ↦ (m, false)
    | some u ↦ (touch user now u m, has_permission u.permissions permission)
  ]

  unfoldable pub user_has_calagopus_permission_or :
      ℕ
      → Uuid
      → Permission
      → Bool
      → UserPermissionsMap Override
      → UserPermissionsMap Override × Bool
  user_has_calagopus_permission_or now user permission default m = elim (m.map user) [
    | none ↦ (m, default)
    | some u ↦ (touch user now u m, has_calagopus_permission_or u.permissions permission default)
  ]

  unfoldable pub is_ignored :
      {FilePath : Type 0} (is_whitelist : Override → FilePath → Bool → Bool)
      → ℕ
      → Uuid
      → FilePath
      → Bool
      → UserPermissionsMap Override
      → UserPermissionsMap Override × Bool
  is_ignored is_whitelist now user path is_dir m = elim (m.map user) [
    | none ↦ (m, false)
    | some u ↦ (
      touch user now u m,
      elim u.ignored [ none ↦ false | some ig ↦ is_whitelist ig path is_dir ],
    )
  ]

  -- `and_then(|o| o.build().ok())`.
  abbrev pub overrides : (List Text → Option Override) → Option (List Text) → Option Override
  overrides build none = none
  overrides build (some files) = build files

  -- An entry that is there keeps its time of access, and its overrides if none are given.
  unfoldable pub set_permissions :
      (List Text → Option Override)
      → ℕ
      → Uuid
      → Permissions
      → Option (List Text)
      → UserPermissionsMap Override
      → UserPermissionsMap Override
  set_permissions build now user [] files m = record m {
    map = remove user m.map;
    removals = m.removals ++ (user ∷ []);
  }
  set_permissions build now user (p ∷ ps) files m = elim (m.map user) [
    | none ↦ record m {
      map =
          insert user
            (record { permissions = p ∷ ps; ignored = overrides build files; last_access = now })
            m.map;
    }
    | some u ↦ record m {
      map =
          insert user
            (record u {
              permissions = p ∷ ps;
              ignored = elim files [ none ↦ u.ignored | some fs ↦ build fs ];
            })
            m.map;
    }
  ]

  -- `keys` is the order in which the hash map lists its keys.
  unfoldable pub clear_permissions :
      List Uuid → UserPermissionsMap Override → UserPermissionsMap Override
  clear_permissions [] m = m
  clear_permissions (user ∷ keys) m =
      clear_permissions keys
        (record m { map = remove user m.map; removals = m.removals ++ (user ∷ []) })

-- What the receiver of a removal channel is given; after a lag with the map as it is then.
pub data Received (Override : Type 0) : Type 0 where
  message : Uuid → Received Override
  lagged : UserPermissionsMap Override → Received Override
  closed : Received Override

-- Whether a message ends the wait.
unfoldable pub ends_wait : {Override : Type 0} → Uuid → Received Override → Bool
ends_wait user (message uuid) = uuid == user
ends_wait user (lagged m) = if contains_key m.map user then false else true
ends_wait user closed = true

-- What is left of the messages when the wait ends, and whether it ends.
unfoldable pub wait_for_removal :
    {Override : Type 0} → Uuid → List (Received Override) → Option (List (Received Override))
wait_for_removal user [] = none
wait_for_removal user (r ∷ rs) =
    let rest = wait_for_removal user rs in if ends_wait user r then some rs else rest
