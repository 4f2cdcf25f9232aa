-- ===== src/Websocket/Messages/Editing.antt =====
-- application/src/server/websocket/message_handler.rs: collaborative editing and the check of its permissions.
use ailes.Common.{
  ◌>>=◌, ℕ, Bool, false, not, ◌||◌, Option, none, some, List, [], ◌∷◌, get_elem?, ◌==◌,
  if◌then◌else◌,
}
use ailes.Common.Machine.{Uuid, or_default}
use ailes.Common.Result.{err}
use ailes.Permissions.{Permission, file_update, file_read_content}
use ailes.Permissions.Users.{user_has_permission}
use ailes.Remote.Jwt.{JwtClient, JwtValidateError, Validated, validate}
use ailes.Websocket.{
  WebsocketJwtPayload, WebsocketEvent, message_of, file_collab_subscribe, file_collab_unsubscribe,
  file_collab_update, file_collab_awareness, file_collab_save, file_collab_reload,
  file_collab_error,
}
use ailes.Websocket.Jwt.{websocket}
use ailes.Remote.Jwt
use Prim.Native.String.{String}
use text.Mathlib.Text
use ailes.Websocket.Messages.Calls.{
  logged_write, CollabCall, Failure, Env, Handling, Handles, emit, done, get_jwt, on_result,
  subscribe, unsubscribe, reload, apply_update, relay_awareness, save, sent, collab, user, internal,
  no_server, invalid_token,
}

abbrev pub collab_permission : WebsocketEvent → Permission
collab_permission file_collab_update = file_update
collab_permission file_collab_save = file_update
collab_permission file_collab_reload = file_update
collab_permission _ = file_read_content

abbrev pub contains_server : List Uuid → Uuid → Bool
contains_server [] server = false
contains_server (uuid ∷ uuids) server =
    let rest = contains_server uuids server in (uuid == server) || rest

abbrev pub is_one : Option String → Bool
is_one none = false
is_one (some s) = Text.◌==◌ s "1"

-- The call that a message asks for; none where an argument that it needs is missing.
unfoldable pub collab_call :
    Env → WebsocketJwtPayload → WebsocketEvent → String → List String → Option CollabCall
collab_call env jwt file_collab_subscribe path args = some (
    subscribe jwt.user_uuid (or_default (env.uuid_text jwt.user_uuid) jwt.user_name) jwt.user_avatar
      path)
collab_call env jwt file_collab_unsubscribe path args = some (unsubscribe path)
collab_call env jwt file_collab_update path args = do
  finished ← get_elem? args 1
  chunk ← get_elem? args 2
  some (apply_update path (Text.◌==◌ finished "1") chunk)
collab_call env jwt file_collab_awareness path args = do
  payload ← get_elem? args 1
  some (relay_awareness path payload)
collab_call env jwt file_collab_save path args =
    some (save jwt.user_uuid path (is_one (get_elem? args 1)) (get_elem? args 2))
collab_call env jwt file_collab_reload path args = some (reload path)
collab_call env jwt _ path args = none

module _ {Override : Type 0} where
  abbrev pub collab_error : String → String → Handling Override → Handling Override
  collab_error path message h = emit (sent (message_of file_collab_error (path ∷ message ∷ []))) h

  abbrev pub collab_failure : String → Handling Override → Failure → Handles Override
  collab_failure path h (user message) = done (collab_error path message h)
  collab_failure path h (internal error) = done (collab_error path "an unexpected error occurred" h)

  unfoldable pub log_save : Env → CollabCall → Handling Override → Handling Override
  log_save env (save uuid path force expected_hash) h =
      if env.writes_file (save uuid path force expected_hash) then emit (logged_write uuid) h else h
  log_save env _ h = h

  unfoldable pub run_collab :
      Env → String → Option CollabCall → Handling Override → Handles Override
  run_collab env path none h = done h
  run_collab env path (some call) h =
      let called = emit (collab call) h in
      on_result (env.collab_result call) (collab_failure path called)
        (done (log_save env call called))

  abbrev pub on_valid : Validated → Handling Override → Handles Override → Handles Override
  on_valid Jwt.ok h k = k
  on_valid (Jwt.err e) h k = (h, err (invalid_token e))

  -- `has_permission(..).await?` of the socket: the token is read and validated again, and its user is
  -- looked up in the server's map.
  unfoldable pub check_permission :
      Env
      → ℕ
      → Permission
      → Handling Override
      → (Bool → Handling Override → Handles Override)
      → Handles Override
  check_permission env now permission h k = get_jwt env.socket_jwt_later h (λ jwt.
      on_valid (validate now env.client (some websocket) jwt.base) h (
        if contains_server env.servers jwt.server_uuid
        then (let (users, allowed) = user_has_permission now jwt.user_uuid permission h.users in
            k allowed (record h { users = users }))
        else (h, err no_server)))

  unfoldable pub handle_collab :
      Env → ℕ → WebsocketEvent → List String → Handling Override → Handles Override
  handle_collab env now event [] h = done h
  handle_collab env now event (path ∷ args) h = get_jwt env.socket_jwt h (λ jwt.
      check_permission env now (collab_permission event) h (λ allowed h'.
        if not allowed
        then done (collab_error path "missing permission" h')
        else run_collab env path (collab_call env jwt event path (path ∷ args)) h'))
