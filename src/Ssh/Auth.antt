-- ===== src/Ssh/Auth.antt =====
-- application/src/ssh/auth.rs: the login of an SSH session. The panel, the servers and the
-- configuration are an environment; what a login does to them is the list of its calls.
pub mod Usernames
pub mod Admission
pub mod Answers
pub mod Attacks
use ailes.Common.{
  ℕ, suc, ◌+◌, Bool, true, false, not, ◌&&◌, ◌||◌, Option, none, some, List, [], ◌∷◌, ◌++◌, ltb,
  leb, ◌==◌, if◌then◌else◌,
}
use ailes.Common.Text.{Text, split, all, byte_len}
use ailes.Common.Machine.{Uuid}
use ailes.Permissions.{Permissions, has_permission, file_sftp}
use ailes.Ssh.Limiter.{
  IpAddr, AuthenticationType, password, public_key, Limits, SshLimiter, Answer, ok, refused,
  check_attempt, finish_attempt, increment_sessions, decrement_sessions,
}

abbrev pub dot : ℕ
dot = 46

-- `is_ascii_hexdigit`.
abbrev pub is_ascii_hexdigit : ℕ → Bool
is_ascii_hexdigit c = (leb 48 c && leb c 57) || ((leb 65 c && leb c 70) || (leb 97 c && leb c 102))

-- The segments' number, on top of `segments`, and the last of them, `last` if there is none.
unfoldable pub scan_segments : Text → ℕ → List Text → Text × ℕ
scan_segments last segments [] = (last, segments)
scan_segments last segments (s ∷ ss) = scan_segments s (suc segments) ss

unfoldable pub validate_username : Text → Bool
validate_username username =
    let (last, segments) = scan_segments [] 0 (split dot username) in
    leb 2 segments && ((byte_len last == 8) && all is_ascii_hexdigit last)

-- What the panel answers on a login.
pub record SftpAuth : Type 0 where
  pub user : Uuid
  pub server : Uuid
  pub permissions : Permissions
  pub ignored_files : List Text

pub record Env : Type 0 where
  pub limits : Limits
  pub disable_password_auth : Bool
  pub log_logins : Bool
  pub get_sftp_auth : AuthenticationType → Text → Text → Option SftpAuth
  -- `get_server`, and whether the server has a locked state.
  pub get_server : Uuid → Option Bool

pub data Call : Type 0 where
  asked : AuthenticationType → Text → Text → Call
  set_permissions : Uuid → Uuid → Permissions → List Text → Call
  sftp_login : Uuid → Uuid → IpAddr → AuthenticationType → Call

-- `Result<Auth, Error>`; a rejection names the methods to go on with, if any.
pub data Auth : Type 0 where
  accept unsupported_method disconnect key_error : Auth
  reject : Option (List AuthenticationType) → Auth

pub record SshSession : Type 0 where
  pub limiter : SshLimiter
  pub server : Option Uuid
  pub user_ip : IpAddr
  pub user_uuid : Option Uuid
  pub calls : List Call

unfoldable pub get_auth_methods : Env → List AuthenticationType
get_auth_methods env =
    if env.disable_password_auth then public_key ∷ [] else password ∷ public_key ∷ []

abbrev pub auth_none : Env → Auth
auth_none env = reject (some (get_auth_methods env))

abbrev call : Call → SshSession → SshSession
call c s = record s { calls = s.calls ++ (c ∷ []) }

-- From `increment_sessions` on.
unfoldable pub admit : Env → AuthenticationType → SftpAuth → SshSession → SshSession × Auth
admit env kind a s =
    let (l, answer) = increment_sessions env.limits a.user s.limiter in
    elim answer [
      | refused ↦ (record s { limiter = l }, disconnect)
      | ok ↦
          let s' =
            call (set_permissions a.server a.user a.permissions a.ignored_files)
              (record s { limiter = l; user_uuid = some a.user }) in
          let s'' =
            if env.log_logins then call (sftp_login a.server a.user s.user_ip kind) s' else s' in
          (record s'' { server = some a.server }, accept)
    ]

-- From the panel's answer on. `missing` is the answer when there is no such server.
unfoldable pub enter_server :
    Env → AuthenticationType → Auth → SftpAuth → SshSession → SshSession × Auth
enter_server env kind missing a s =
    if not (has_permission a.permissions file_sftp)
    then (s, reject none)
    else let s' = record s { limiter = finish_attempt env.limits s.user_ip kind s.limiter } in
      elim (env.get_server a.server) [
        | none ↦ (s', missing)
        | some locked ↦ if locked then (s', reject none) else admit env kind a s'
      ]

-- From the check of the attempt on. `denied` is the answer when the panel's is an error.
unfoldable pub attempt :
    Env → ℕ → AuthenticationType → Text → Text → Auth → Auth → SshSession → SshSession × Auth
attempt env now kind username secret denied missing s =
    let (l, answer) = check_attempt env.limits now s.user_ip kind s.limiter in
    elim answer [
      | refused ↦ (record s { limiter = l }, disconnect)
      | ok ↦
          let s' = call (asked kind username secret) (record s { limiter = l }) in
          elim (env.get_sftp_auth kind username secret) [
            | none ↦ (s', denied)
            | some a ↦ enter_server env kind missing a s'
          ]
    ]

unfoldable pub auth_password : Env → ℕ → Text → Text → SshSession → SshSession × Auth
auth_password env now username secret s =
    if env.disable_password_auth
    then (s, unsupported_method)
    else if not (validate_username username)
    then (s, reject (some (get_auth_methods env)))
    else attempt env now password username secret (reject none)
        (reject (some (get_auth_methods env))) s

-- `key` is the key in OpenSSH's format, none if it has none: then the attempt is counted all the same.
unfoldable pub auth_publickey : Env → ℕ → Text → Option Text → SshSession → SshSession × Auth
auth_publickey env now username key s =
    if not (validate_username username)
    then (s, reject (some (get_auth_methods env)))
    else elim key [
      | none ↦
          let (l, answer) = check_attempt env.limits now s.user_ip public_key s.limiter in
          (record s { limiter = l }, elim answer [ ok ↦ key_error | refused ↦ disconnect ])
      | some secret ↦
          attempt env now public_key username secret (reject (some (get_auth_methods env)))
            (reject none) s
    ]

-- `Drop`: the limiter afterwards.
unfoldable pub drop_session : SshSession → SshLimiter
drop_session s = elim s.user_uuid [
  | none ↦ s.limiter
  | some user ↦ decrement_sessions user s.limiter
]
