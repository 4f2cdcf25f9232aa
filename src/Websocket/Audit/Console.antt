-- ===== src/Websocket/Audit/Console.antt =====
-- application/src/server/websocket/message_handler.rs: the balance after a command or console lines.
use ailes.Common.{true, some, List, [], ◌∷◌, ◌≡◌, refl, arith, not, ◌||◌}
use ailes.Permissions.{
  has_permission, has_calagopus_permission_or, control_read_console, control_console,
}
use ailes.ServerState.{offline, same_state}
use ailes.Websocket.{WebsocketJwtPayload}
use ailes.Websocket.Keeping.{get_jwt-keeps, if-keeps}
use ailes.Websocket.Messages.{
  console_command, Env, Handling, send_lines, handle_logs, run_command, handle_command,
}
use Prim.Native.String.{String}
use ailes.Websocket.Audit.Balance.{Balanced, emit-Balanced, log_activity-Balanced}

module _ {Override : Type 0} (env : Env) where
  module _ (jwt : WebsocketJwtPayload) (there : env.socket_jwt_later ≡ some jwt) where
    run_command-Balanced :
        (args : List String) (h : Handling Override)
        → Balanced env h
        → Balanced env (run_command env args h).0
    unfolding run_command
    run_command-Balanced [] h before = before
    run_command-Balanced (command ∷ args) h before =
        if-keeps (Balanced env) env.stdin_works _ _
          (λ worked.
            log_activity-Balanced env jwt there _ console_command (some command) h (ground arith)
              refl before)
          (λ failed. emit-Balanced env _ h (ground arith) before)

    pub handle_command-Balanced :
        (args : List String) (h : Handling Override)
        → Balanced env h
        → Balanced env (handle_command env args h).0
    unfolding handle_command
    handle_command-Balanced args h before =
        get_jwt-keeps (Balanced env) env.socket_jwt h _ before (λ token _.
          if-keeps (Balanced env) (not (has_permission token.permissions control_console)) _ _
            (λ _. before) (λ _. run_command-Balanced args h before))

  send_lines-Balanced :
      (lines : List String) (h : Handling Override)
      → Balanced env h
      → Balanced env (send_lines lines h)
  unfolding send_lines
  send_lines-Balanced [] h before = before
  send_lines-Balanced (line ∷ lines) h before =
      send_lines-Balanced lines _ (emit-Balanced env _ h refl before)

  pub handle_logs-Balanced :
      (h : Handling Override) → Balanced env h → Balanced env (handle_logs env h).0
  unfolding handle_logs
  handle_logs-Balanced h before =
      if-keeps (Balanced env) (not (same_state env.state offline) || env.send_offline_server_logs) _
        _
        (λ _. get_jwt-keeps (Balanced env) env.socket_jwt h _ before (λ token _.
          if-keeps (Balanced env)
            (not (has_calagopus_permission_or token.permissions control_read_console true)) _ _
            (λ _. before) (λ _. send_lines-Balanced env.logs_lines h before)))
        (λ _. before)
