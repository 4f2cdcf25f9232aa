-- ===== src/Websocket/MessageRuns.antt =====
-- Messages of a websocket, and the theorems on them at concrete inputs.
use ailes.Common.{◌*◌, true, false, none, some, List, [], ◌∷◌, ◌≡◌, refl, All, Option}
use ailes.Common.Text.{Text}
use ailes.Common.Machine.{second}
use ailes.Common.Result.{ok, err}
use ailes.Permissions.{control_start, has_permission, contains, is_admin}
use ailes.Permissions.Users.{default}
use ailes.Remote.Jwt.{new}
use ailes.ServerState.{ServerState, offline, running}
use ailes.Websocket.{WebsocketJwtPayload, WebsocketMessage, message_of, set_state, send_command}
use ailes.Websocket.Jwt.{websocket}
use ailes.Websocket.Messages.{
  Env, Handling, power, logged, start_server, power_start, no_jwt, handle_message, handle_event,
  handle_set_state, handle_power, handle_start, handle_command, act, log_activity,
}
use ailes.Websocket.Effects.{Allowed, handle_message-Allowed}
use ailes.Websocket.Audit.{total, activity, succeeded, handle_message-activities}

abbrev token : WebsocketJwtPayload
token = record {
  base = record {
    scope = websocket;
    issuer = [];
    subject = none;
    audience = [];
    expiration_time = some 900;
    not_before = none;
    issued_at = some 150;
    jwt_id = [];
  };
  user_uuid = 7;
  user_name = none;
  user_avatar = none;
  server_uuid = 3;
  permissions = control_start ∷ [];
  ignored_files = none;
}

-- A server whose calls all work, and the token when it is read again.
abbrev server : ServerState → Option WebsocketJwtPayload → Env
server state later = record {
  state = state;
  restarting = false;
  auto_kill_enabled = false;
  auto_kill_seconds = 0;
  send_offline_server_logs = false;
  logs_lines = [];
  resource_usage = "{}";
  pending_restart = "false";
  power_result = λ call. none;
  stdin_works = true;
  collab_result = λ call. none;
  writes_file = λ call. true;
  uuid_text = λ uuid. uuid ∷ [];
  red = λ s. s;
  client = new (100 * second) 1;
  servers = 3 ∷ [];
  socket_jwt = some token;
  socket_jwt_later = later;
}

abbrev nothing : Handling (List Text)
nothing = record { effects = []; users = default }

abbrev start_message : WebsocketMessage
start_message = message_of set_state ("start" ∷ [])

starts : handle_message (server offline (some token)) 0 start_message nothing ≡ (
  record { effects = power start_server ∷ logged power_start 7 none ∷ []; users = default },
  ok tt,
)
unfolding handle_message handle_event handle_set_state handle_power handle_start has_permission
    contains is_admin act log_activity
starts = refl

-- The token was taken while the server started.
starts_unlogged :
    handle_message (server offline none) 0 start_message nothing
    ≡ (record { effects = power start_server ∷ []; users = default }, err no_jwt)
unfolding handle_message handle_event handle_set_state handle_power handle_start has_permission
    contains is_admin act log_activity
starts_unlogged = refl

-- No permission for a command.
no_command :
    handle_message (server running (some token)) 0 (message_of send_command ("stop" ∷ [])) nothing
    ≡ (nothing, ok tt)
unfolding handle_message handle_event handle_command has_permission contains is_admin
no_command = refl

handle_message-Allowed_example :
    All
      (Allowed {Override = List Text} (server offline (some token)) 0 default)
      (handle_message (server offline (some token)) 0 start_message nothing).0.effects
handle_message-Allowed_example =
    handle_message-Allowed (server offline (some token)) 0 default start_message

handle_message-activities_example :
    total activity (handle_message (server offline (some token)) 0 start_message nothing).0.effects
    ≡ total
        (succeeded (server offline (some token)))
        (handle_message (server offline (some token)) 0 start_message nothing).0.effects
handle_message-activities_example =
    handle_message-activities (server offline (some token)) 0 start_message default
