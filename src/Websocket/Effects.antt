-- ===== src/Websocket/Effects.antt =====
-- application/src/server/websocket/message_handler.rs: what every effect of a message rests on.
pub mod Rules
pub mod Power
pub mod Console
pub mod Editing
use ailes.Common.{ℕ, Bool, true, false, List, [], ◌∷◌, All, ◌≡◌, refl, if◌then◌else◌}
use ailes.Permissions.Users.{UserPermissionsMap}
use ailes.Websocket.{
  WebsocketEvent, WebsocketMessage, configure_socket, set_state, send_server_logs, send_command,
  send_stats, send_status, server_stats, ping, file_collab_subscribe, file_collab_unsubscribe,
  file_collab_update, file_collab_awareness, file_collab_save, file_collab_reload,
}
use ailes.Websocket.Keeping.{if-keeps}
use ailes.Websocket.Messages.{
  Env, Handling, send_text, handle_stats, handle_configure, handle_event, handle_message,
}
use Prim.Native.String.{String}
use text.Mathlib.Text
pub use ailes.Websocket.Effects.Rules.{needed, Granted, MayEdit, MayRead, IsUser, Allowed}
use ailes.Websocket.Effects.Rules.{AllAllowed, emit-Allowed}
use ailes.Websocket.Effects.Power.{handle_set_state-Allowed}
use ailes.Websocket.Effects.Console.{handle_logs-Allowed, handle_command-Allowed}
use ailes.Websocket.Effects.Editing.{handle_collab-Allowed}

module _ {Override : Type 0} (env : Env) (now : ℕ) (users : UserPermissionsMap Override) where
  handle_configure-Allowed :
      (args : List String) (h : Handling Override)
      → AllAllowed env now users h
      → AllAllowed env now users (handle_configure args h).0
  unfolding handle_configure
  handle_configure-Allowed [] h before = before
  handle_configure-Allowed (property ∷ []) h before = before
  handle_configure-Allowed (property ∷ mode ∷ args) h before =
      if-keeps (AllAllowed env now users) (Text.◌==◌ property "transmission mode") _ _
        (λ _.
          if-set (Text.◌==◌ mode "binary") _ _ (λ _. emit-Allowed env now users _ h before tt)
            (λ _.
              if-set (Text.◌==◌ mode "text") _ _ (λ _. emit-Allowed env now users _ h before tt)
                (λ _. before)))
        (λ _. before)
    where
      if-set :
          (c : Bool) (x y : Handling Override)
          → (c ≡ true → AllAllowed env now users x)
          → (c ≡ false → AllAllowed env now users y)
          → AllAllowed env now users (if c then x else y)
      if-set true x y p q = p refl
      if-set false x y p q = q refl

  handle_event-Allowed :
      (event : WebsocketEvent) (args : List String) (h : Handling Override)
      → h.users ≡ users
      → AllAllowed env now users h
      → AllAllowed env now users (handle_event env now event args h).0
  unfolding handle_event handle_stats
  handle_event-Allowed configure_socket args h same before = handle_configure-Allowed args h before
  handle_event-Allowed send_stats args h same before =
      emit-Allowed env now users _ (send_text server_stats env.resource_usage h)
        (emit-Allowed env now users _ h before tt) tt
  handle_event-Allowed send_status args h same before = emit-Allowed env now users _ h before tt
  handle_event-Allowed send_server_logs args h same before =
      handle_logs-Allowed env now users h before
  handle_event-Allowed set_state args h same before =
      handle_set_state-Allowed env now users args h before
  handle_event-Allowed send_command args h same before =
      handle_command-Allowed env now users args h before
  handle_event-Allowed file_collab_subscribe args h same before =
      handle_collab-Allowed env now users file_collab_subscribe args h same before
  handle_event-Allowed file_collab_unsubscribe args h same before =
      handle_collab-Allowed env now users file_collab_unsubscribe args h same before
  handle_event-Allowed file_collab_update args h same before =
      handle_collab-Allowed env now users file_collab_update args h same before
  handle_event-Allowed file_collab_awareness args h same before =
      handle_collab-Allowed env now users file_collab_awareness args h same before
  handle_event-Allowed file_collab_save args h same before =
      handle_collab-Allowed env now users file_collab_save args h same before
  handle_event-Allowed file_collab_reload args h same before =
      handle_collab-Allowed env now users file_collab_reload args h same before
  handle_event-Allowed ping args h same before = emit-Allowed env now users _ h before tt
  handle_event-Allowed _ args h same before = before

  -- A power action, a command and a console line of a message rest on the permission of the socket's token for
  -- it: a start on an offline server, a restart on one that is not restarting, a stop on one that is neither
  -- offline nor stopping, a kill on one that is not offline, and a console line on one that is not offline or
  -- shows its lines offline. An editing call rests on a token that is valid when it is read again and whose user
  -- may read or update files, as the call needs. The activity of a power action or command is logged for the user
  -- of the token that the socket has after the call, that of a save for the user of the token it had at first.
  -- Other messages to the socket and its mode rest on nothing.
  pub handle_message-Allowed :
      (message : WebsocketMessage)
      → All
          (Allowed env now users)
          (handle_message env now message (record { effects = []; users = users })).0.effects
  unfolding handle_message
  handle_message-Allowed message =
      handle_event-Allowed message.event message.args (record { effects = []; users = users }) refl
        tt
