-- ===== src/Websocket/Messages/Console.antt =====
-- application/src/server/websocket/message_handler.rs: the console's lines, commands and statistics.
use ailes.Common.{true, not, ◌||◌, some, List, [], ◌∷◌, if◌then◌else◌}
use ailes.Permissions.{
  has_permission, has_calagopus_permission_or, control_read_console, control_console,
}
use ailes.ServerState.{offline, same_state}
use ailes.Websocket.{server_stats, server_pending_restart, server_console_output}
use ailes.Activity.{console_command}
use Prim.Native.String.{String}
use Prim.Native.String
use ailes.Websocket.Messages.Calls.{
  Env, Handling, Handles, emit, done, get_jwt, send_text, log_activity, stdin,
}

module _ {Override : Type 0} where
  unfoldable pub send_lines : List String → Handling Override → Handling Override
  send_lines [] h = h
  send_lines (line ∷ lines) h = send_lines lines (send_text server_console_output line h)

  unfoldable pub handle_logs : Env → Handling Override → Handles Override
  handle_logs env h =
      if not (same_state env.state offline) || env.send_offline_server_logs
      then get_jwt env.socket_jwt h (λ jwt.
        if not (has_calagopus_permission_or jwt.permissions control_read_console true)
        then done h
        else done (send_lines env.logs_lines h))
      else done h

  -- The console's command, with its line feed.
  unfoldable pub run_command : Env → List String → Handling Override → Handles Override
  run_command env [] h = done h
  run_command env (raw_command ∷ _) h =
      let called = emit (stdin (String.◌++◌ raw_command "\n")) h in
      if env.stdin_works
      then log_activity env console_command (some raw_command) called
      else done called

  unfoldable pub handle_command : Env → List String → Handling Override → Handles Override
  handle_command env args h = get_jwt env.socket_jwt h (λ jwt.
      if not (has_permission jwt.permissions control_console)
      then done h
      else run_command env args h)

  unfoldable pub handle_stats : Env → Handling Override → Handles Override
  handle_stats env h = done (
      send_text server_pending_restart env.pending_restart
        (send_text server_stats env.resource_usage h))
