-- ===== src/Websocket/Messages.antt =====
-- application/src/server/websocket/message_handler.rs: `handle_message`, and the effects of a message. The
-- server's operations and the collaborative editing are parameters that say how a call ends.
pub mod Calls
pub mod Power
pub mod Console
pub mod Editing
use ailes.Common.{ℕ, true, false, List, [], ◌∷◌, ◌==◌, if◌then◌else◌}
use ailes.Common.Text.{Text}
use ailes.ServerState.{to_str}
use ailes.Websocket.{
  WebsocketEvent, WebsocketMessage, message_of, configure_socket, set_state, send_server_logs,
  send_command, send_stats, send_status, ping, pong, server_status, file_collab_subscribe,
  file_collab_unsubscribe, file_collab_update, file_collab_awareness, file_collab_save,
  file_collab_reload,
}
use Prim.Native.String.{String}
use text.Mathlib.Text
pub use ailes.Websocket.Messages.Calls.{
  ServerPowerAction, from_str, PowerCall, CollabCall, Effect, Failure, HandleError, Env, Handling,
  Handles, may_see_errors, timeout, failure_text, emit, done, get_jwt, send_text, on_result, start,
  stop, restart, kill, start_server, restart_server, stop_server, kill_server, subscribe,
  unsubscribe, reload, apply_update, relay_awareness, save, sent, binary_mode, power, stdin, collab,
  logged, logged_write, user, internal, no_jwt, unknown_action, no_server, invalid_token,
}
unfoldable pub use ailes.Websocket.Messages.Calls.{
  send_error, send_admin_error, send_failure, log_activity, act,
}
unfoldable pub use ailes.Websocket.Messages.Power.{
  handle_start, handle_restart, handle_stop, handle_kill, handle_power, handle_set_state,
}
unfoldable pub use ailes.Websocket.Messages.Console.{
  send_lines, handle_logs, run_command, handle_command, handle_stats,
}
pub use ailes.Websocket.Messages.Editing.{
  collab_permission, contains_server, is_one, collab_error, collab_failure, on_valid,
}
unfoldable pub use ailes.Websocket.Messages.Editing.{
  collab_call, log_save, run_collab, check_permission, handle_collab,
}
pub use ailes.Activity.{
  ActivityEvent, power_start, power_stop, power_restart, power_kill, console_command,
}

module _ {Override : Type 0} where
  abbrev pub set_mode : String → Handling Override → Handling Override
  set_mode mode h =
      if Text.◌==◌ mode "binary"
      then emit (binary_mode true) h
      else if Text.◌==◌ mode "text"
      then emit (binary_mode false) h
      else h

  unfoldable pub handle_configure : List String → Handling Override → Handles Override
  handle_configure [] h = done h
  handle_configure (property ∷ []) h = done h
  handle_configure (property ∷ mode ∷ _) h =
      if Text.◌==◌ property "transmission mode" then done (set_mode mode h) else done h

  -- Events that are not handled are only noted in the log.
  unfoldable pub handle_event :
      Env → ℕ → WebsocketEvent → List String → Handling Override → Handles Override
  handle_event env now configure_socket args h = handle_configure args h
  handle_event env now send_stats args h = handle_stats env h
  handle_event env now send_status args h = done (send_text server_status (to_str env.state) h)
  handle_event env now send_server_logs args h = handle_logs env h
  handle_event env now set_state args h = handle_set_state env args h
  handle_event env now send_command args h = handle_command env args h
  handle_event env now file_collab_subscribe args h =
      handle_collab env now file_collab_subscribe args h
  handle_event env now file_collab_unsubscribe args h =
      handle_collab env now file_collab_unsubscribe args h
  handle_event env now file_collab_update args h = handle_collab env now file_collab_update args h
  handle_event env now file_collab_awareness args h =
      handle_collab env now file_collab_awareness args h
  handle_event env now file_collab_save args h = handle_collab env now file_collab_save args h
  handle_event env now file_collab_reload args h = handle_collab env now file_collab_reload args h
  handle_event env now ping args h = done (emit (sent (message_of pong args)) h)
  handle_event env now _ args h = done h

  unfoldable pub handle_message : Env → ℕ → WebsocketMessage → Handling Override → Handles Override
  handle_message env now message h = handle_event env now message.event message.args h
