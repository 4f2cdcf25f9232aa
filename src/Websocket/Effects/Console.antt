-- ===== src/Websocket/Effects/Console.antt =====
-- application/src/server/websocket/message_handler.rs: what commands and console lines rest on.
use ailes.Common.{ℕ, true, some, List, [], ◌∷◌, arith, not, ◌||◌}
use ailes.Permissions.{
  has_permission, has_calagopus_permission_or, control_read_console, control_console,
}
use ailes.Permissions.Users.{UserPermissionsMap}
use ailes.ServerState.{offline, same_state}
use ailes.Websocket.{server_console_output}
use ailes.Websocket.Keeping.{get_jwt-keeps, if-keeps}
use ailes.Websocket.Messages.{
  stdin, Env, Handling, console_command, send_lines, handle_logs, run_command, handle_command,
}
use Prim.Native.String.{String}
use Prim.Native.String
use ailes.Websocket.Effects.Rules.{Granted, MayRead, AllAllowed, emit-Allowed, log_activity-Allowed}

module _ {Override : Type 0} (env : Env) (now : ℕ) (users : UserPermissionsMap Override) where
  send_lines-Allowed :
      (lines : List String) (h : Handling Override)
      → AllAllowed env now users h
      → MayRead env now users server_console_output
      → AllAllowed env now users (send_lines lines h)
  unfolding send_lines
  send_lines-Allowed [] h before may = before
  send_lines-Allowed (line ∷ lines) h before may =
      send_lines-Allowed lines _ (emit-Allowed env now users _ h before may) may

  pub handle_logs-Allowed :
      (h : Handling Override)
      → AllAllowed env now users h
      → AllAllowed env now users (handle_logs env h).0
  unfolding handle_logs
  handle_logs-Allowed h before =
      if-keeps (AllAllowed env now users)
        (not (same_state env.state offline) || env.send_offline_server_logs) _ _
        (λ shown. get_jwt-keeps (AllAllowed env now users) env.socket_jwt h _ before (λ jwt e.
          if-keeps (AllAllowed env now users)
            (not (has_calagopus_permission_or jwt.permissions control_read_console true)) _ _
            (λ _. before)
            (λ right.
              send_lines-Allowed env.logs_lines h before (ground arith, (jwt, e, ground arith)))))
        (λ _. before)

  run_command-Allowed :
      (args : List String) (h : Handling Override)
      → AllAllowed env now users h
      → Granted env now users control_console
      → AllAllowed env now users (run_command env args h).0
  unfolding run_command
  run_command-Allowed [] h before right = before
  run_command-Allowed (command ∷ args) h before right =
      let called = emit-Allowed env now users (stdin (String.◌++◌ command "\n")) h before right in
      if-keeps (AllAllowed env now users) env.stdin_works _ _
        (λ _. log_activity-Allowed env now users console_command (some command) _ called)
        (λ _. called)

  pub handle_command-Allowed :
      (args : List String) (h : Handling Override)
      → AllAllowed env now users h
      → AllAllowed env now users (handle_command env args h).0
  unfolding handle_command
  handle_command-Allowed args h before =
      get_jwt-keeps (AllAllowed env now users) env.socket_jwt h _ before (λ jwt e.
        if-keeps (AllAllowed env now users) (not (has_permission jwt.permissions control_console)) _
          _ (λ _. before) (λ right. run_command-Allowed args h before (jwt, e, ground arith)))
