-- ===== src/Websocket.antt =====
-- application/src/server/websocket/mod.rs: the messages of a server's websocket and its token.
pub mod Jwt
pub mod Guards
pub mod Messages
pub mod Keeping
pub mod Effects
pub mod Audit
mod Runs
mod MessageRuns
use ailes.Common.{ℕ, Bool, true, false, Option, List, [], ◌∷◌, ◌++◌}
use ailes.Common.Text.{Text}
use ailes.Common.Machine.{Uuid}
use ailes.Permissions.{Permissions}
use ailes.Permissions.Users.{UserPermissionsMap}
use ailes.Remote.Jwt.{BasePayload}
use Prim.Native.String.{String}

pub record WebsocketJwtPayload : Type 0 where
  pub base : BasePayload
  pub user_uuid : Uuid
  pub user_name : Option Text
  pub user_avatar : Option Text
  pub server_uuid : Uuid
  pub permissions : Permissions
  pub ignored_files : Option (List Text)

pub data WebsocketEvent : Type 0 where
  authentication_success token_expiring token_expired authentication : WebsocketEvent
  configure_socket set_state send_server_logs send_command send_stats send_status error_event
        jwt_error :
      WebsocketEvent
  ping pong : WebsocketEvent
  server_stats server_status server_pending_restart server_custom_event server_console_output
        server_install_output :
      WebsocketEvent
  server_image_pull_progress server_image_pull_completed server_install_started
        server_install_completed :
      WebsocketEvent
  server_daemon_message server_backup_started server_backup_progress server_backup_completed :
      WebsocketEvent
  server_backup_deleted server_backup_restore_started server_backup_restore_progress :
      WebsocketEvent
  server_backup_restore_completed server_transfer_logs server_transfer_status
        server_transfer_progress :
      WebsocketEvent
  server_schedule_started server_schedule_step_status server_schedule_step_error : WebsocketEvent
  server_schedule_completed server_operation_progress server_operation_error : WebsocketEvent
  server_operation_completed file_collab_subscribe file_collab_unsubscribe file_collab_update :
      WebsocketEvent
  file_collab_awareness file_collab_save file_collab_sync file_collab_participants : WebsocketEvent
  file_collab_saved file_collab_reload file_collab_conflict file_collab_error : WebsocketEvent

pub record WebsocketMessage : Type 0 where
  pub event : WebsocketEvent
  pub args : List String

abbrev pub message_of : WebsocketEvent → List String → WebsocketMessage
message_of event args = record { event = event; args = args }

-- The socket's token, the server's users, and what was handed to `send_message`.
pub record Socket (Override : Type 0) : Type 0 where
  pub socket_jwt : Option WebsocketJwtPayload
  pub users : UserPermissionsMap Override
  pub sent : List WebsocketMessage

abbrev pub send : {Override : Type 0} → WebsocketMessage → Socket Override → Socket Override
send m s = record s { sent = s.sent ++ (m ∷ []) }
