-- ===== src/Websocket/Messages/Power.antt =====
-- application/src/server/websocket/message_handler.rs: the power actions.
use ailes.Common.{not, ◌||◌, Option, none, some, List, [], ◌∷◌, if◌then◌else◌}
use ailes.Common.Result.{err}
use ailes.Permissions.{has_permission, control_start, control_stop, control_restart}
use ailes.ServerState.{offline, stopping, same_state}
use ailes.Activity.{power_start, power_stop, power_restart, power_kill}
use Prim.Native.String.{String}
use ailes.Websocket.Messages.Calls.{
  ServerPowerAction, from_str, Env, Handling, Handles, timeout, failure_text, emit, done, get_jwt,
  send_error, send_admin_error, log_activity, on_result, act, start, stop, restart, kill,
  start_server, restart_server, stop_server, kill_server, power, unknown_action,
}

module _ {Override : Type 0} where
  unfoldable pub handle_start : Env → Handling Override → Handles Override
  handle_start env h = get_jwt env.socket_jwt h (λ jwt.
      if not (has_permission jwt.permissions control_start)
      then done h
      else if not (same_state env.state offline)
      then done (send_error env "Server is already running or starting." h)
      else act env start_server power_start h)

  unfoldable pub handle_restart : Env → Handling Override → Handles Override
  handle_restart env h = get_jwt env.socket_jwt h (λ jwt.
      if not (has_permission jwt.permissions control_restart)
      then done h
      else if env.restarting
      then done (send_error env "Server is already restarting." h)
      else act env (restart_server (timeout env)) power_restart h)

  unfoldable pub handle_stop : Env → Handling Override → Handles Override
  handle_stop env h = get_jwt env.socket_jwt h (λ jwt.
      if not (has_permission jwt.permissions control_stop)
      then done h
      else if same_state env.state offline || same_state env.state stopping
      then done (send_error env "Server is already offline or stopping." h)
      else act env (stop_server (timeout env)) power_stop h)

  -- Here both kinds of errors are the administrators'.
  unfoldable pub handle_kill : Env → Handling Override → Handles Override
  handle_kill env h = get_jwt env.socket_jwt h (λ jwt.
      if not (has_permission jwt.permissions control_stop)
      then done h
      else if same_state env.state offline
      then done (send_error env "Server is already offline." h)
      else (let called = emit (power kill_server) h in
          on_result (env.power_result kill_server)
            (λ failure. done (send_admin_error env (failure_text failure) called))
            (log_activity env power_kill none called)))

  -- The action that was read from the argument, if it is one.
  unfoldable pub handle_power :
      Env → Option ServerPowerAction → Handling Override → Handles Override
  handle_power env none h = (h, err unknown_action)
  handle_power env (some start) h = handle_start env h
  handle_power env (some restart) h = handle_restart env h
  handle_power env (some stop) h = handle_stop env h
  handle_power env (some kill) h = handle_kill env h

  unfoldable pub handle_set_state : Env → List String → Handling Override → Handles Override
  handle_set_state env [] h = done h
  handle_set_state env (action ∷ _) h = handle_power env (from_str action) h
