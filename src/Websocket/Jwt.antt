-- ===== src/Websocket/Jwt.antt =====
-- application/src/server/websocket/jwt.rs: the guard in front of every message of a websocket. Reading
-- a frame and verifying a token's signature are other crates' work and parameters.
use ailes.Common.{
  ℕ, ◌+◌, ◌-◌, Bool, true, false, not, ◌||◌, Option, none, some, List, [], ◌∷◌, map, ltb, ◌==◌,
  if◌then◌else◌,
}
use ailes.Common.Text.{Text}
use ailes.Common.Machine.{Uuid, word}
use ailes.Permissions.{
  has_permission, has_calagopus_permission_or, to_str, websocket_connect, control_read_console,
}
use ailes.Permissions.Users.{set_permissions}
use ailes.Remote.Jwt.{JwtClient, JwtValidateError, ok, err, validate, timestamp}
use ailes.ServerState
use ailes.Websocket.{
  WebsocketJwtPayload, WebsocketEvent, authentication, authentication_success, token_expired,
  token_expiring, server_status, WebsocketMessage, message_of, Socket, send,
}
use Prim.Native.String.{String}

pub data JwtError : Type 0 where
  close_socket expired misc : JwtError
  misc_str : JwtValidateError → JwtError

-- A text or binary frame with the message that is read from it, if any, or another frame.
pub data Frame : Type 0 where
  text binary : Option WebsocketMessage → Frame
  other : Frame

-- `Result<Option<WebsocketMessage>, JwtError>`.
pub data Handled : Type 0 where
  handled : Option WebsocketMessage → Handled
  error : JwtError → Handled

-- What the guard finds when it runs: the server and its state, the token client, the signatures, the
-- globs, and the message that `get_daemon_error` makes.
pub record Env (Override : Type 0) : Type 0 where
  pub server_uuid : Uuid
  pub state : ServerState.ServerState
  pub client : JwtClient
  pub verify : String → Option WebsocketJwtPayload
  pub build : List Text → Option Override
  pub daemon_error : String → WebsocketMessage

-- "websocket".
abbrev pub websocket : Text
websocket = 119 ∷ 101 ∷ 98 ∷ 115 ∷ 111 ∷ 99 ∷ 107 ∷ 101 ∷ 116 ∷ []

abbrev pub is_authentication : WebsocketEvent → Bool
is_authentication authentication = true
is_authentication _ = false

abbrev pub first_arg : WebsocketMessage → String
first_arg m = elim m.args [ [] ↦ "" | a ∷ args ↦ a ]

abbrev is_none {ℓ} : {A : Type ℓ} → Option A → Bool
is_none none = true
is_none (some a) = false

-- `expiration - 60` in two's complement.
abbrev pub minus_60 : ℕ → ℕ
minus_60 e = if ltb e 60 then e + word - 60 else e - 60

module _ {Override : Type 0} where
  -- From the token's permission check on, for a token that is valid.
  unfoldable pub accept :
      Env Override → ℕ → WebsocketJwtPayload → Socket Override → Socket Override × Handled
  accept env now jwt s =
      if not (has_permission jwt.permissions websocket_connect)
        || not (jwt.server_uuid == env.server_uuid)
      then (if has_permission jwt.permissions websocket_connect
          then (send (message_of token_expired []) s, error expired)
          else (s, error close_socket))
      else (let greeted = send (message_of authentication_success (map to_str jwt.permissions)) s in
          let entered = record greeted {
            users =
                set_permissions env.build now jwt.user_uuid jwt.permissions jwt.ignored_files
                  greeted.users;
            socket_jwt = some jwt;
          } in
          if is_none s.socket_jwt
          then (let told =
                send (message_of server_status (ServerState.to_str env.state ∷ [])) entered in
              if not (has_calagopus_permission_or jwt.permissions control_read_console true)
              then (
                send
                    (env.daemon_error
                      "You are missing the `control.read-console` permission to view server logs and console output.")
                    told,
                handled none,
              )
              else (told, handled none))
          else (entered, handled none))

  unfoldable pub authenticate :
      Env Override → ℕ → ℕ → WebsocketMessage → Socket Override → Socket Override × Handled
  authenticate env now later m s = elim (env.verify (first_arg m)) [
    | none ↦ (s, error close_socket)
    | some jwt ↦ elim (validate now env.client (some websocket) jwt.base) [
      | ok ↦ accept env later jwt s
      | err e ↦ (s, error (misc_str e))
    ]
  ]

  -- The answer to any other message.
  unfoldable pub admit : Env Override → ℕ → WebsocketMessage → Socket Override → Handled
  admit env now m s = elim s.socket_jwt [
    | none ↦ error close_socket
    | some jwt ↦ elim (validate now env.client (some websocket) jwt.base) [
      | ok ↦
          if not (has_permission jwt.permissions websocket_connect)
          then error close_socket
          else handled (some m)
      | err e ↦ error (misc_str e)
    ]
  ]

  unfoldable pub dispatch :
      Env Override → ℕ → ℕ → WebsocketMessage → Socket Override → Socket Override × Handled
  dispatch env now later m s =
      if is_authentication m.event then authenticate env now later m s else (s, admit env now m s)

  -- `now` is the time of the validation, `later` that of `set_permissions`.
  unfoldable pub handle_jwt :
      Env Override → ℕ → ℕ → Frame → Socket Override → Socket Override × Handled
  handle_jwt env now later (text none) s = (s, handled none)
  handle_jwt env now later (text (some m)) s = dispatch env now later m s
  handle_jwt env now later (binary none) s = (s, handled none)
  handle_jwt env now later (binary (some m)) s = dispatch env now later m s
  handle_jwt env now later other s = (s, error misc)

  -- A round of the listener up to where it gives the token back, with the clock read twice, and
  -- whether it goes on to take the token away.
  unfoldable pub look_jwt : ℕ → ℕ → Socket Override → Socket Override × Bool
  look_jwt now later s = elim s.socket_jwt [
    | none ↦ (s, false)
    | some jwt ↦ elim jwt.base.expiration_time [
      | none ↦ (s, false)
      | some expiration ↦
          if ltb expiration (timestamp now)
          then (send (message_of token_expired []) s, true)
          else if ltb (minus_60 expiration) (timestamp later)
          then (send (message_of token_expiring []) s, false)
          else (s, false)
    ]
  ]

  -- `take`, under a lock of its own.
  abbrev pub take_jwt : Socket Override → Socket Override
  take_jwt s = record s { socket_jwt = none }

  -- A round without interruption; frames that are handled between its two steps are in module Guards.
  unfoldable pub listen_jwt : ℕ → ℕ → Socket Override → Socket Override
  listen_jwt now later s = let (s', ends) = look_jwt now later s in if ends then take_jwt s' else s'
