-- ===== src/Websocket/Effects/Power.antt =====
-- application/src/server/websocket/message_handler.rs: what the power actions rest on.
use ailes.Common.{ℕ, Option, none, some, List, [], ◌∷◌, refl, arith, not, ◌||◌}
use ailes.Permissions.{has_permission, control_start, control_stop, control_restart}
use ailes.Permissions.Users.{UserPermissionsMap}
use ailes.ServerState.{offline, stopping, same_state, same_state_iff}
use ailes.Websocket.Keeping.{get_jwt-keeps, if-keeps, on_result-keeps}
use ailes.Websocket.Messages.{
  start_server, kill_server, power, Env, Handling, power_start, power_restart, power_stop,
  power_kill, send_admin_error, handle_start, handle_restart, handle_stop, handle_kill,
  handle_power, handle_set_state, ServerPowerAction, from_str, start, stop, restart, kill,
}
use Prim.Native.String.{String}
use ailes.Websocket.Effects.Rules.{
  AllAllowed, emit-Allowed, send_error-Allowed, log_activity-Allowed, act-Allowed,
}

module _ {Override : Type 0} (env : Env) (now : ℕ) (users : UserPermissionsMap Override) where
  handle_start-Allowed :
      (h : Handling Override)
      → AllAllowed env now users h
      → AllAllowed env now users (handle_start env h).0
  unfolding handle_start
  handle_start-Allowed h before =
      get_jwt-keeps (AllAllowed env now users) env.socket_jwt h _ before (λ jwt e.
        if-keeps (AllAllowed env now users) (not (has_permission jwt.permissions control_start)) _ _
          (λ _. before)
          (λ right.
            if-keeps (AllAllowed env now users) (not (same_state env.state offline)) _ _
              (λ _. send_error-Allowed env now users _ h before)
              (λ off.
                act-Allowed env now users start_server power_start h before
                  ((jwt, e, ground arith), ground (arith, same_state_iff env.state offline)))))

  handle_restart-Allowed :
      (h : Handling Override)
      → AllAllowed env now users h
      → AllAllowed env now users (handle_restart env h).0
  unfolding handle_restart
  handle_restart-Allowed h before =
      get_jwt-keeps (AllAllowed env now users) env.socket_jwt h _ before (λ jwt e.
        if-keeps (AllAllowed env now users) (not (has_permission jwt.permissions control_restart)) _
          _ (λ _. before)
          (λ right.
            if-keeps (AllAllowed env now users) env.restarting _ _
              (λ _. send_error-Allowed env now users _ h before)
              (λ idle.
                act-Allowed env now users _ power_restart h before
                  ((jwt, e, ground arith), idle, refl))))

  handle_stop-Allowed :
      (h : Handling Override)
      → AllAllowed env now users h
      → AllAllowed env now users (handle_stop env h).0
  unfolding handle_stop
  handle_stop-Allowed h before =
      get_jwt-keeps (AllAllowed env now users) env.socket_jwt h _ before (λ jwt e.
        if-keeps (AllAllowed env now users) (not (has_permission jwt.permissions control_stop)) _ _
          (λ _. before)
          (λ right.
            if-keeps (AllAllowed env now users)
              (same_state env.state offline || same_state env.state stopping) _ _
              (λ _. send_error-Allowed env now users _ h before)
              (λ on.
                act-Allowed env now users _ power_stop h before
                  ((jwt, e, ground arith), ground arith, ground arith, refl))))

  handle_kill-Allowed :
      (h : Handling Override)
      → AllAllowed env now users h
      → AllAllowed env now users (handle_kill env h).0
  unfolding handle_kill send_admin_error
  handle_kill-Allowed h before =
      get_jwt-keeps (AllAllowed env now users) env.socket_jwt h _ before (λ jwt e.
        if-keeps (AllAllowed env now users) (not (has_permission jwt.permissions control_stop)) _ _
          (λ _. before)
          (λ right.
            if-keeps (AllAllowed env now users) (same_state env.state offline) _ _
              (λ _. send_error-Allowed env now users _ h before)
              (λ on.
                let called =
                  emit-Allowed env now users (power kill_server) h before
                    ((jwt, e, ground arith), on) in
                on_result-keeps (AllAllowed env now users) (env.power_result kill_server) _ _
                  (λ f _. send_error-Allowed env now users _ _ called)
                  (λ _. log_activity-Allowed env now users power_kill none _ called))))

  handle_power-Allowed :
      (action : Option ServerPowerAction) (h : Handling Override)
      → AllAllowed env now users h
      → AllAllowed env now users (handle_power env action h).0
  unfolding handle_power
  handle_power-Allowed none h before = before
  handle_power-Allowed (some start) h before = handle_start-Allowed h before
  handle_power-Allowed (some restart) h before = handle_restart-Allowed h before
  handle_power-Allowed (some stop) h before = handle_stop-Allowed h before
  handle_power-Allowed (some kill) h before = handle_kill-Allowed h before

  pub handle_set_state-Allowed :
      (args : List String) (h : Handling Override)
      → AllAllowed env now users h
      → AllAllowed env now users (handle_set_state env args h).0
  unfolding handle_set_state
  handle_set_state-Allowed [] h before = before
  handle_set_state-Allowed (action ∷ args) h before =
      handle_power-Allowed (from_str action) h before
