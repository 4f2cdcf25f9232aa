-- ===== src/Websocket/Audit.antt =====
-- application/src/server/websocket/message_handler.rs: which actions of a message are in the activity log.
pub mod Balance
pub mod Power
pub mod Console
pub mod Editing
use ailes.Common.{
  ℕ, true, false, none, some, Option-cases, inl, inr, All, List, [], ◌∷◌, ◌≡◌, refl, arith,
  if◌then◌else◌,
}
use ailes.Permissions.Users.{UserPermissionsMap}
use ailes.Websocket.{
  WebsocketJwtPayload, WebsocketEvent, WebsocketMessage, configure_socket, set_state,
  send_server_logs, send_command, send_stats, send_status, server_stats, ping,
  file_collab_subscribe, file_collab_unsubscribe, file_collab_update, file_collab_awareness,
  file_collab_save, file_collab_reload,
}
use ailes.Websocket.Keeping.{if-keeps}
use ailes.Websocket.Messages.{
  Effect, sent, binary_mode, power, stdin, collab, logged, logged_write, Env, Handling, send_text,
  handle_stats, set_mode, handle_configure, handle_event, handle_message,
}
use Prim.Native.String.{String}
use ailes.Websocket.Effects.{Allowed, handle_message-Allowed}
use text.Mathlib.Text
pub use ailes.Websocket.Audit.Balance.{total, is_ok, saved, succeeded, activity}
use ailes.Websocket.Audit.Balance.{Balanced, emit-Balanced}
use ailes.Websocket.Audit.Power.{handle_set_state-Balanced}
use ailes.Websocket.Audit.Console.{handle_logs-Balanced, handle_command-Balanced}
use ailes.Websocket.Audit.Editing.{handle_collab-Balanced}

module _ {Override : Type 0} (env : Env) where
  handle_configure-Balanced :
      (args : List String) (h : Handling Override)
      → Balanced env h
      → Balanced env (handle_configure args h).0
  unfolding handle_configure
  handle_configure-Balanced [] h before = before
  handle_configure-Balanced (property ∷ []) h before = before
  handle_configure-Balanced (property ∷ mode ∷ args) h before =
      if-keeps (Balanced env) (Text.◌==◌ property "transmission mode") _ _ (λ _. mode_set)
        (λ _. before)
    where
      mode_set : Balanced env (set_mode mode h)
      mode_set = ground (
        arith,
        before,
        emit-Balanced env (binary_mode true) h refl before,
        emit-Balanced env (binary_mode false) h refl before,
      )

  module _ (jwt : WebsocketJwtPayload) (there : env.socket_jwt_later ≡ some jwt) where
    handle_event-Balanced :
        (now : ℕ) (event : WebsocketEvent) (args : List String) (h : Handling Override)
        → Balanced env h
        → Balanced env (handle_event env now event args h).0
    unfolding handle_event handle_stats
    handle_event-Balanced now configure_socket args h before =
        handle_configure-Balanced args h before
    handle_event-Balanced now send_stats args h before =
        emit-Balanced env _ (send_text server_stats env.resource_usage h) (refl)
          (emit-Balanced env _ h refl before)
    handle_event-Balanced now send_status args h before = emit-Balanced env _ h refl before
    handle_event-Balanced now send_server_logs args h before = handle_logs-Balanced env h before
    handle_event-Balanced now set_state args h before =
        handle_set_state-Balanced env jwt there args h before
    handle_event-Balanced now send_command args h before =
        handle_command-Balanced env jwt there args h before
    handle_event-Balanced now file_collab_subscribe args h before =
        handle_collab-Balanced env now file_collab_subscribe args h before
    handle_event-Balanced now file_collab_unsubscribe args h before =
        handle_collab-Balanced env now file_collab_unsubscribe args h before
    handle_event-Balanced now file_collab_update args h before =
        handle_collab-Balanced env now file_collab_update args h before
    handle_event-Balanced now file_collab_awareness args h before =
        handle_collab-Balanced env now file_collab_awareness args h before
    handle_event-Balanced now file_collab_save args h before =
        handle_collab-Balanced env now file_collab_save args h before
    handle_event-Balanced now file_collab_reload args h before =
        handle_collab-Balanced env now file_collab_reload args h before
    handle_event-Balanced now ping args h before = emit-Balanced env _ h refl before
    handle_event-Balanced now _ args h before = before

logged-handle_message :
    {Override : Type 0} (env : Env) (now : ℕ) (message : WebsocketMessage)
    (users : UserPermissionsMap Override) (jwt : WebsocketJwtPayload)
    → env.socket_jwt_later ≡ some jwt
    → total
        (succeeded env)
        (handle_message env now message (record { effects = []; users = users })).0.effects
      ≡ total activity
          (handle_message env now message (record { effects = []; users = users })).0.effects
unfolding handle_message
logged-handle_message env now message users jwt there =
    handle_event-Balanced env jwt there now message.event message.args
      (record { effects = []; users = users }) refl

-- No activity is allowed without a token.
unlogged :
    {Override : Type 0} (env : Env) (now : ℕ) (users : UserPermissionsMap Override)
    (es : List Effect)
    → env.socket_jwt_later ≡ none
    → All (Allowed env now users) es
    → total activity es ≡ 0
unlogged env now users [] taken allowed = refl
unlogged env now users (logged event uuid command ∷ es) taken ((jwt, there, _), allowed) =
    absurd (ground (arith, taken, there))
unlogged env now users (logged_write uuid ∷ es) taken (((jwt, there, _, _), _), allowed) =
    absurd (ground (arith, taken, there))
unlogged env now users (sent m ∷ es) taken (_, allowed) =
    omega (arith, unlogged env now users es taken allowed)
unlogged env now users (binary_mode b ∷ es) taken (_, allowed) =
    omega (arith, unlogged env now users es taken allowed)
unlogged env now users (power call ∷ es) taken (_, allowed) =
    omega (arith, unlogged env now users es taken allowed)
unlogged env now users (stdin command ∷ es) taken (_, allowed) =
    omega (arith, unlogged env now users es taken allowed)
unlogged env now users (collab call ∷ es) taken (_, allowed) =
    omega (arith, unlogged env now users es taken allowed)

-- The activities that a message logs are as many as its power actions and console commands that worked and its
-- saves that wrote their file, if the socket has a token when the token is read again; they are none if the token
-- was taken by then, whatever the message did.
pub handle_message-activities :
    {Override : Type 0} (env : Env) (now : ℕ) (message : WebsocketMessage)
    (users : UserPermissionsMap Override)
    → total activity
        (handle_message env now message (record { effects = []; users = users })).0.effects
      ≡ elim env.socket_jwt_later [
        | none ↦ 0
        | some jwt ↦
            total
              (succeeded env)
              (handle_message env now message (record { effects = []; users = users })).0.effects
      ]
handle_message-activities env now message users = elim (Option-cases env.socket_jwt_later) [
  | inl taken ↦
      ground (
        arith,
        taken,
        unlogged env now users _ taken (handle_message-Allowed env now users message),
      )
  | inr (jwt, there) ↦ ground (arith, there, logged-handle_message env now message users jwt there)
]
