-- ===== src/Websocket/Effects/Rules.antt =====
-- application/src/server/websocket/message_handler.rs: what an effect rests on, and the parts that the handlers
-- share.
use ailes.Common.{
  not, ◌||◌, All-append, ℕ, true, false, Option, none, some, [], ◌∷◌, All, ◌≡◌, refl,
}
use ailes.Common.Machine.{Uuid}
use ailes.Permissions.{
  Permission, has_permission, has_calagopus_permission_or, control_read_console, control_console,
  control_start, control_stop, control_restart, file_update, file_read_content,
}
use ailes.Permissions.Users.{UserPermissionsMap, user_has_permission}
use ailes.Remote.Jwt
use ailes.Remote.Jwt.{Validated, validate}
use ailes.ServerState.{offline, stopping, same_state}
use ailes.Websocket.{WebsocketJwtPayload, WebsocketEvent, server_console_output}
use ailes.Websocket.Jwt.{websocket}
use ailes.Websocket.Keeping.{get_jwt-keeps, on_result-keeps}
use ailes.Websocket.Messages.{
  PowerCall, start_server, restart_server, stop_server, kill_server, CollabCall, subscribe,
  unsubscribe, reload, apply_update, relay_awareness, save, ActivityEvent, Effect, sent,
  binary_mode, power, stdin, collab, logged, logged_write, Failure, user, internal, Env, Handling,
  emit, timeout, send_error, send_admin_error, send_failure, log_activity, act,
}
use Prim.Native.String.{String}

-- The permission that an editing call needs.
abbrev pub needed : CollabCall → Permission
needed (subscribe _ _ _ _) = file_read_content
needed (unsubscribe _) = file_read_content
needed (reload _) = file_update
needed (apply_update _ _ _) = file_update
needed (relay_awareness _ _) = file_read_content
needed (save _ _ _ _) = file_update

module _ {Override : Type 0} (env : Env) (now : ℕ) (users : UserPermissionsMap Override) where
  -- The socket's token has the permission.
  abbrev pub Granted : Permission → Type 0
  Granted p =
      (jwt : WebsocketJwtPayload) × (env.socket_jwt ≡ some jwt)
      × (has_permission jwt.permissions p ≡ true)

  -- The user of the socket's token, which is valid when it is read again, has the permission.
  abbrev pub MayEdit : Permission → Type 0
  MayEdit p =
      (jwt : WebsocketJwtPayload) × (env.socket_jwt_later ≡ some jwt)
      × (validate now env.client (some websocket) jwt.base ≡ Jwt.ok)
      × ((user_has_permission now jwt.user_uuid p users).1 ≡ true)

  abbrev pub MayRead : WebsocketEvent → Type 0
  MayRead server_console_output =
      ((not (same_state env.state offline) || env.send_offline_server_logs) ≡ true)
      × ((jwt : WebsocketJwtPayload) × (env.socket_jwt ≡ some jwt)
          × (has_calagopus_permission_or jwt.permissions control_read_console true ≡ true))
  MayRead _ = Unit

  -- The user of the token that the socket has at first.
  abbrev pub IsUser : Uuid → Type 0
  IsUser uuid = (jwt : WebsocketJwtPayload) × (env.socket_jwt ≡ some jwt) × (uuid ≡ jwt.user_uuid)

  -- What an effect rests on.
  abbrev pub Allowed : Effect → Type 0
  Allowed (sent m) = MayRead m.event
  Allowed (binary_mode _) = Unit
  Allowed (power start_server) = Granted control_start × (env.state ≡ offline)
  Allowed (power (restart_server t)) =
      Granted control_restart × (env.restarting ≡ false) × (t ≡ timeout env)
  Allowed (power (stop_server t)) =
      Granted control_stop
      × (same_state env.state offline ≡ false)
      × (same_state env.state stopping ≡ false)
      × (t ≡ timeout env)
  Allowed (power kill_server) = Granted control_stop × (same_state env.state offline ≡ false)
  Allowed (stdin _) = Granted control_console
  Allowed (collab call) = MayEdit (needed call)
  Allowed (logged_write uuid) = MayEdit file_update × IsUser uuid
  Allowed (logged event uuid command) =
      (jwt : WebsocketJwtPayload) × (env.socket_jwt_later ≡ some jwt) × (uuid ≡ jwt.user_uuid)

  abbrev pub AllAllowed : Handling Override → Type 0
  AllAllowed h = All Allowed h.effects

  pub emit-Allowed :
      (e : Effect) (h : Handling Override) → AllAllowed h → Allowed e → AllAllowed (emit e h)
  emit-Allowed e h before one = All-append Allowed h.effects (e ∷ []) before (one, tt)

  pub send_error-Allowed :
      (m : String) (h : Handling Override) → AllAllowed h → AllAllowed (send_error env m h)
  unfolding send_error
  send_error-Allowed m h before = emit-Allowed _ h before tt

  pub send_failure-Allowed :
      (f : Failure) (h : Handling Override) → AllAllowed h → AllAllowed (send_failure env f h)
  unfolding send_failure send_admin_error
  send_failure-Allowed (user m) h before = send_error-Allowed m h before
  send_failure-Allowed (internal m) h before = send_error-Allowed _ h before

  pub log_activity-Allowed :
      (event : ActivityEvent) (command : Option String) (h : Handling Override)
      → AllAllowed h
      → AllAllowed (log_activity env event command h).0
  unfolding log_activity
  log_activity-Allowed event command h before =
      get_jwt-keeps AllAllowed env.socket_jwt_later h _ before
        (λ jwt e. emit-Allowed _ h before (jwt, e, refl))

  pub act-Allowed :
      (call : PowerCall) (event : ActivityEvent) (h : Handling Override)
      → AllAllowed h
      → Allowed (power call)
      → AllAllowed (act env call event h).0
  unfolding act
  act-Allowed call event h before one =
      let called = emit-Allowed (power call) h before one in
      on_result-keeps AllAllowed (env.power_result call) _ _
        (λ f _. send_failure-Allowed f _ called) (λ _. log_activity-Allowed event none _ called)
