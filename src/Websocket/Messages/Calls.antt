-- ===== src/Websocket/Messages/Calls.antt =====
-- application/src/server/websocket/message_handler.rs: the effects of a message, the calls of the server and how
-- they end, and the parts that the handlers share.
use ailes.Common.{ℕ, Bool, false, ◌&&◌, Option, none, some, List, [], ◌∷◌, ◌++◌, ltb, if◌then◌else◌}
use ailes.Common.Text.{Text}
use ailes.Common.Machine.{Uuid}
use ailes.Common.Result.{Result, ok, err}
use ailes.Permissions.{has_permission, admin_websocket_errors}
use ailes.Permissions.Users.{UserPermissionsMap}
use ailes.Remote.Jwt.{JwtClient, JwtValidateError}
use ailes.ServerState.{ServerState}
use ailes.Websocket.{
  WebsocketJwtPayload, WebsocketEvent, WebsocketMessage, message_of, server_daemon_message,
}
use ailes.Activity.{ActivityEvent}
use Prim.Native.String.{String}
use text.Mathlib.Text

pub data ServerPowerAction : Type 0 where
  start stop restart kill : ServerPowerAction

-- `ServerPowerAction::from_str`.
abbrev pub from_str : String → Option ServerPowerAction
from_str s =
    if Text.◌==◌ s "start"
    then some start
    else if Text.◌==◌ s "stop"
    then some stop
    else if Text.◌==◌ s "restart"
    then some restart
    else if Text.◌==◌ s "kill"
    then some kill
    else none

-- A call of the server; some wait so many seconds before they kill.
pub data PowerCall : Type 0 where
  start_server : PowerCall
  restart_server stop_server : Option ℕ → PowerCall
  kill_server : PowerCall

pub data CollabCall : Type 0 where
  subscribe : Uuid → Text → Option Text → String → CollabCall
  unsubscribe reload : String → CollabCall
  apply_update : String → Bool → String → CollabCall
  relay_awareness : String → String → CollabCall
  save : Uuid → String → Bool → Option String → CollabCall

-- What handling a message does, in order; an activity has its user and its command.
pub data Effect : Type 0 where
  sent : WebsocketMessage → Effect
  binary_mode : Bool → Effect
  power : PowerCall → Effect
  stdin : String → Effect
  collab : CollabCall → Effect
  logged : ActivityEvent → Uuid → Option String → Effect
  -- The activity of a save that wrote its file, which the call of the editing logs.
  logged_write : Uuid → Effect

-- A call's error: a text for the user, or one for administrators.
pub data Failure : Type 0 where
  user internal : String → Failure

pub data HandleError : Type 0 where
  no_jwt unknown_action no_server : HandleError
  invalid_token : JwtValidateError → HandleError

-- The server as it is when the message is handled. A token is read again after a call: by then it
-- may have been renewed or taken.
pub record Env : Type 0 where
  pub state : ServerState
  pub restarting : Bool
  pub auto_kill_enabled : Bool
  pub auto_kill_seconds : ℕ
  pub send_offline_server_logs : Bool
  -- The log's lines up to the first that cannot be read, each trimmed.
  pub logs_lines : List String
  pub resource_usage : String
  pub pending_restart : String
  pub power_result : PowerCall → Option Failure
  pub stdin_works : Bool
  pub collab_result : CollabCall → Option Failure
  -- Whether a save that works writes its file: on a conflict with the disk it does not.
  pub writes_file : CollabCall → Bool
  pub uuid_text : Uuid → Text
  pub red : String → String
  pub client : JwtClient
  pub servers : List Uuid
  pub socket_jwt : Option WebsocketJwtPayload
  pub socket_jwt_later : Option WebsocketJwtPayload

-- The effects so far, and the permissions of the server's users.
pub record Handling (Override : Type 0) : Type 0 where
  pub effects : List Effect
  pub users : UserPermissionsMap Override

-- What is left, and the result of `handle_message`.
abbrev pub Handles : Type 0 → Type 0
Handles Override = Handling Override × Result (Unit {0}) HandleError

abbrev pub may_see_errors : Option WebsocketJwtPayload → Bool
may_see_errors none = false
may_see_errors (some jwt) = has_permission jwt.permissions admin_websocket_errors

abbrev pub timeout : Env → Option ℕ
timeout env =
    if env.auto_kill_enabled && ltb 0 env.auto_kill_seconds
    then some env.auto_kill_seconds
    else none

abbrev pub failure_text : Failure → String
failure_text (user message) = message
failure_text (internal error) = error

module _ {Override : Type 0} where
  abbrev pub emit : Effect → Handling Override → Handling Override
  emit e h = record h { effects = h.effects ++ e ∷ [] }

  abbrev pub done : Handling Override → Handles Override
  done h = (h, ok tt)

  -- `get_jwt().await?`, before what needs the token.
  abbrev pub get_jwt :
      Option WebsocketJwtPayload
      → Handling Override
      → (WebsocketJwtPayload → Handles Override)
      → Handles Override
  get_jwt none h k = (h, err no_jwt)
  get_jwt (some jwt) h k = k jwt

  abbrev pub send_text : WebsocketEvent → String → Handling Override → Handling Override
  send_text event text h = emit (sent (message_of event (text ∷ []))) h

  unfoldable pub send_error : Env → String → Handling Override → Handling Override
  send_error env message h = send_text server_daemon_message (env.red message) h

  unfoldable pub send_admin_error : Env → String → Handling Override → Handling Override
  send_admin_error env message h =
      send_error env
        (if may_see_errors env.socket_jwt_later
          then message
          else "An unexpected error occurred. Please contact an Administrator.")
        h

  -- The error of an action, as `downcast` tells the two kinds apart.
  unfoldable pub send_failure : Env → Failure → Handling Override → Handling Override
  send_failure env (user message) h = send_error env message h
  send_failure env (internal error) h = send_admin_error env error h

  -- `log_activity`, for the user of the token that the socket has now.
  unfoldable pub log_activity :
      Env → ActivityEvent → Option String → Handling Override → Handles Override
  log_activity env event command h =
      get_jwt env.socket_jwt_later h (λ jwt. done (emit (logged event jwt.user_uuid command) h))

  -- A call's two ends.
  abbrev pub on_result :
      Option Failure → (Failure → Handles Override) → Handles Override → Handles Override
  on_result none failed worked = worked
  on_result (some failure) failed worked = failed failure

  -- The call, and its error or its activity.
  unfoldable pub act : Env → PowerCall → ActivityEvent → Handling Override → Handles Override
  act env call event h =
      let called = emit (power call) h in
      on_result (env.power_result call) (λ failure. done (send_failure env failure called))
        (log_activity env event none called)
