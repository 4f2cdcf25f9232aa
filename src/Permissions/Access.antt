-- ===== src/Permissions/Access.antt =====
-- application/src/server/permissions.rs: what a user may do after the operations on the map.
use ailes.Common.{
  ℕ, ◌-◌, ◌*◌, ◌≤◌, true, false, Option, none, some, List, [], ◌∷◌, ◌++◌, ◌==◌, if◌then◌else◌, ◌≡◌,
  ◌≢◌, refl, arith, append-nil, append_assoc, ==_iff, map, Bool-cases, Option-cases, inl, inr, ◌∙◌,
}
use ailes.Common.Text.{Text, any}
use ailes.Common.Machine.{Uuid, second}
use ailes.Common.Dict.{put, remove, ℕ_key}
use ailes.Permissions.{Permission, Permissions, has_permission, contains, is_admin}
use ailes.Permissions.Users.{
  UserPermissions, UserPermissionsMap, set_permissions, user_has_permission, cleanup,
  clear_permissions, wait_for_removal, ends_wait, Received, message,
}

pub has_permission-nil : (p : Permission) → has_permission [] p ≡ false
unfolding has_permission contains
has_permission-nil p = refl

any-append : (user : Uuid) (us : List Uuid) → any (λ u. u == user) (us ++ (user ∷ [])) ≡ true
any-append user [] = ground arith
any-append user (u ∷ us) = ground (arith, any-append user us)

module _ {Override : Type 0} (build : List Text → Option Override) where
  -- After `set_permissions` the user has exactly what the new set grants, an empty set included,
  -- and every other user what they had.
  pub user_has_permission-set :
      (t now : ℕ) (user other : Uuid) (ps : Permissions) (files : Option (List Text))
      (m : UserPermissionsMap Override) (p : Permission)
      → (user_has_permission now other p (set_permissions build t user ps files m)).1
        ≡ (if user == other then has_permission ps p else (user_has_permission now other p m).1)
  unfolding user_has_permission set_permissions put
  user_has_permission-set t now user other [] files m p = ground (arith, has_permission-nil p)
  user_has_permission-set t now user other (q ∷ ps) files m p = ground (arith, ==_iff user other)

  -- A user who was not active for a day loses permissions that were set since, in the next round of
  -- the cleanup.
  pub user_has_permission-cleanup :
      (t now later : ℕ) (user : Uuid) (ps : Permissions) (files : Option (List Text))
      (m : UserPermissionsMap Override) (u : UserPermissions Override) (p : Permission)
      → m.map user ≡ some u
      → 60 * 60 * 24 * second ≤ now - u.last_access
      → (user_has_permission later user p (cleanup now (set_permissions build t user ps files m))).1
        ≡ false
  unfolding user_has_permission set_permissions put cleanup
  user_has_permission-cleanup t now later user [] files m u p e old = ground arith
  user_has_permission-cleanup t now later user (q ∷ ps) files m u p e old = ground arith

module _ {Override : Type 0} where
  -- A user has an admin permission only if it is in their set: the wildcard does not grant it.
  pub admin-explicit :
      (now : ℕ) (user : Uuid) (p : Permission) (m : UserPermissionsMap Override)
      → is_admin p ≡ true
      → (user_has_permission now user p m).1 ≡ true
      → (u : UserPermissions Override) × (m.map user ≡ some u) × (contains u.permissions p ≡ true)
  unfolding user_has_permission has_permission
  admin-explicit now user p m a h = elim (Option-cases (m.map user)) [
    | inl n ↦ absurd (ground arith)
    | inr (u, e) ↦ (u, e, ground arith)
  ]

  -- What `clear_permissions` leaves: no listed key, every other, and one removal for each key.
  pub clear_permissions_lem :
      (keys : List Uuid) (m : UserPermissionsMap Override) (user : Uuid)
      → ((clear_permissions keys m).map user
          ≡ (if any (λ k. k == user) keys then none else m.map user))
        × ((clear_permissions keys m).removals ≡ m.removals ++ keys)
  unfolding clear_permissions put
  clear_permissions_lem [] m user = (refl, rw append-nil refl)
  clear_permissions_lem (k ∷ keys) m user =
      let (found, sent) =
        clear_permissions_lem keys
          (record m { map = remove k m.map; removals = m.removals ++ (k ∷ []) }) user in
      (ground arith, sent ∙ rw append_assoc refl)

  waits :
      (user : Uuid) (us : List Uuid) (rs : List (Received Override))
      → any (λ u. u == user) us ≡ true
      → wait_for_removal user (map message us ++ rs) ≢ none
  unfolding wait_for_removal ends_wait
  waits user [] rs h = absurd (ground arith)
  waits user (u ∷ us) rs h = elim (Bool-cases (u == user)) [
    | inl t ↦ ground arith
    | inr f ↦ ground (arith, waits user us rs (ground arith))
  ]

  -- Who waits for the removal of a user stops waiting after their permissions were set to none, if
  -- it receives every message that is sent.
  pub wait_for_removal-set :
      (build : List Text → Option Override) (t : ℕ) (user : Uuid) (files : Option (List Text))
      (m : UserPermissionsMap Override) (rs : List (Received Override))
      → wait_for_removal user (map message (set_permissions build t user [] files m).removals ++ rs)
        ≢ none
  unfolding set_permissions
  wait_for_removal-set build t user files m rs =
      waits user (m.removals ++ (user ∷ [])) rs (any-append user m.removals)
