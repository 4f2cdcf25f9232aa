-- ===== src/Websocket/Audit/Power.antt =====
-- application/src/server/websocket/message_handler.rs: the balance after a power action.
use ailes.Common.{Option, none, some, List, [], ◌∷◌, ◌≡◌, refl, arith, not, ◌||◌}
use ailes.Permissions.{has_permission, control_start, control_stop, control_restart}
use ailes.ServerState.{offline, stopping, same_state}
use ailes.Websocket.{WebsocketJwtPayload}
use ailes.Websocket.Keeping.{get_jwt-keeps, if-keeps, on_result-keeps}
use ailes.Websocket.Messages.{
  kill_server, power_start, power_restart, power_stop, power_kill, power, Env, Handling,
  send_admin_error, handle_start, handle_restart, handle_stop, handle_kill, handle_power,
  handle_set_state, from_str, ServerPowerAction, start, stop, restart, kill,
}
use Prim.Native.String.{String}
use ailes.Websocket.Audit.Balance.{
  Balanced, emit-Balanced, send_error-Balanced, log_activity-Balanced, act-Balanced,
}

module _ {Override : Type 0} (env : Env) where
  module _ (jwt : WebsocketJwtPayload) (there : env.socket_jwt_later ≡ some jwt) where
    -- The guards of an action before it: each end keeps the balance.
    handle_start-Balanced :
        (h : Handling Override) → Balanced env h → Balanced env (handle_start env h).0
    unfolding handle_start
    handle_start-Balanced h before =
        get_jwt-keeps (Balanced env) env.socket_jwt h _ before (λ token _.
          if-keeps (Balanced env) (not (has_permission token.permissions control_start)) _ _
            (λ _. before)
            (λ _.
              if-keeps (Balanced env) (not (same_state env.state offline)) _ _
                (λ _. send_error-Balanced env _ h before)
                (λ _. act-Balanced env jwt there _ power_start h before)))

    handle_restart-Balanced :
        (h : Handling Override) → Balanced env h → Balanced env (handle_restart env h).0
    unfolding handle_restart
    handle_restart-Balanced h before =
        get_jwt-keeps (Balanced env) env.socket_jwt h _ before (λ token _.
          if-keeps (Balanced env) (not (has_permission token.permissions control_restart)) _ _
            (λ _. before)
            (λ _.
              if-keeps (Balanced env) env.restarting _ _ (λ _. send_error-Balanced env _ h before)
                (λ _. act-Balanced env jwt there _ power_restart h before)))

    handle_stop-Balanced :
        (h : Handling Override) → Balanced env h → Balanced env (handle_stop env h).0
    unfolding handle_stop
    handle_stop-Balanced h before =
        get_jwt-keeps (Balanced env) env.socket_jwt h _ before (λ token _.
          if-keeps (Balanced env) (not (has_permission token.permissions control_stop)) _ _
            (λ _. before)
            (λ _.
              if-keeps (Balanced env)
                (same_state env.state offline || same_state env.state stopping) _ _
                (λ _. send_error-Balanced env _ h before)
                (λ _. act-Balanced env jwt there _ power_stop h before)))

    handle_kill-Balanced :
        (h : Handling Override) → Balanced env h → Balanced env (handle_kill env h).0
    unfolding handle_kill send_admin_error
    handle_kill-Balanced h before =
        get_jwt-keeps (Balanced env) env.socket_jwt h _ before (λ token _.
          if-keeps (Balanced env) (not (has_permission token.permissions control_stop)) _ _
            (λ _. before)
            (λ _.
              if-keeps (Balanced env) (same_state env.state offline) _ _
                (λ _. send_error-Balanced env _ h before)
                (λ _.
                  on_result-keeps (Balanced env) (env.power_result kill_server) _ _
                    (λ f failed.
                      send_error-Balanced env _ _
                        (emit-Balanced env (power kill_server) h (ground arith) before))
                    (λ worked.
                      log_activity-Balanced env jwt there (power kill_server) power_kill none h
                        (ground arith) refl before))))

    handle_power-Balanced :
        (action : Option ServerPowerAction) (h : Handling Override)
        → Balanced env h
        → Balanced env (handle_power env action h).0
    unfolding handle_power
    handle_power-Balanced none h before = before
    handle_power-Balanced (some start) h before = handle_start-Balanced h before
    handle_power-Balanced (some restart) h before = handle_restart-Balanced h before
    handle_power-Balanced (some stop) h before = handle_stop-Balanced h before
    handle_power-Balanced (some kill) h before = handle_kill-Balanced h before

    pub handle_set_state-Balanced :
        (args : List String) (h : Handling Override)
        → Balanced env h
        → Balanced env (handle_set_state env args h).0
    unfolding handle_set_state
    handle_set_state-Balanced [] h before = before
    handle_set_state-Balanced (action ∷ args) h before =
        handle_power-Balanced (from_str action) h before
