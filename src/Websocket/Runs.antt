-- ===== src/Websocket/Runs.antt =====
-- A concrete socket: the guard at inputs where its conditions hold.
use ailes.Common.{ℕ, ◌*◌, true, false, none, some, List, [], ◌∷◌, ◌≡◌, refl}
use ailes.Common.Text.{Text, split, trim, trim_start}
use ailes.Common.Names.{name_cmp}
use ailes.Common.Machine.{second}
use ailes.Permissions.{
  has_permission, contains, is_admin, all, has_calagopus_permission_or, is_calagopus,
}
use ailes.Permissions.Users.{default}
use ailes.Remote.Jwt.{
  new, ok, validate, check_expiration, check_not_before, check_issued_at, check_denied, check_scope,
}
use ailes.ServerState
use ailes.Websocket.{
  WebsocketJwtPayload, authentication, ping, WebsocketMessage, message_of, Socket,
}
use ailes.Websocket.Jwt.{
  Env, Frame, text, handled, websocket, accept, authenticate, admit, dispatch, handle_jwt,
  is_authentication,
}
use ailes.Websocket.Guards.{receives, Reach, start, step, is_mine, handle_jwt-reachable}

abbrev payload : WebsocketJwtPayload
payload = record {
  base = record {
    scope = websocket;
    issuer = [];
    subject = none;
    audience = [];
    expiration_time = some 900;
    not_before = none;
    issued_at = some 150;
    jwt_id = [];
  };
  user_uuid = 7;
  user_name = none;
  user_avatar = none;
  server_uuid = 3;
  permissions = all ∷ [];
  ignored_files = none;
}

abbrev env0 : Env (List Text)
env0 = record {
  server_uuid = 3;
  state = ServerState.running;
  client = new (100 * second) 1;
  verify = λ token. some payload;
  build = λ files. some files;
  daemon_error = λ reason. message_of ping (reason ∷ []);
}

abbrev now0 : ℕ
now0 = 200 * second

abbrev fresh : Socket (List Text)
fresh = record { socket_jwt = none; users = default; sent = [] }

abbrev login : Frame
login = text (some (message_of authentication ("token" ∷ [])))

abbrev logged_in : Socket (List Text)
logged_in = (handle_jwt env0 now0 now0 login fresh).0

abbrev ping0 : WebsocketMessage
ping0 = message_of ping []

Reach-logged_in : Reach 3 default logged_in
Reach-logged_in = step start (receives fresh env0 now0 now0 login refl)

ping-handled : (handle_jwt env0 now0 now0 (text (some ping0)) logged_in).1 ≡ handled (some ping0)
unfolding handle_jwt dispatch authenticate accept admit validate new check_expiration
    check_not_before check_issued_at check_denied check_scope split trim trim_start name_cmp
    has_permission contains is_admin has_calagopus_permission_or is_calagopus
ping-handled = refl

handle_jwt-reachable_example :
    (p : WebsocketJwtPayload) × (logged_in.socket_jwt ≡ some p)
    × (is_mine 3 p ≡ true)
    × (validate now0 env0.client (some websocket) p.base ≡ ok)
    × (is_authentication ping ≡ false)
    × ((handle_jwt env0 now0 now0 (text (some ping0)) logged_in).0 ≡ logged_in)
handle_jwt-reachable_example =
    handle_jwt-reachable 3 default env0 now0 now0 (text (some ping0)) ping0 logged_in
      Reach-logged_in ping-handled
