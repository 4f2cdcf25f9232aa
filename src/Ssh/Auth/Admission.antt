-- ===== src/Ssh/Auth/Admission.antt =====
-- application/src/ssh/auth.rs: what a counted attempt to log in went through if it is accepted, and
-- what another leaves alone.
use ailes.Common.{
  ℕ, suc, ◌<◌, true, false, some, [], ◌∷◌, ◌++◌, ◌≡◌, ◌≢◌, arith, inl, inr, Option-cases,
}
use ailes.Common.Text.{Text}
use ailes.Common.Machine.{Uuid, word}
use ailes.Common.Dict.{put}
use ailes.Permissions.{has_permission, file_sftp}
use ailes.Ssh.Limiter.{
  IpAddr, AuthenticationType, Limits, SshLimiter, check_attempt, finish_attempt, increment_sessions,
}
use ailes.Ssh.Limiter.Sessions.{sessions}
use ailes.Ssh.Auth.{SftpAuth, Env, Auth, accept, SshSession, admit, enter_server, attempt, asked}

-- What the answer `accept` rests on.
abbrev pub IsAuthorised : Env → AuthenticationType → Text → Text → SshSession → SshSession → Type 0
IsAuthorised env kind username secret s s' =
    (a : SftpAuth) × (env.get_sftp_auth kind username secret ≡ some a)
    × (has_permission a.permissions file_sftp ≡ true)
    × (env.get_server a.server ≡ some false)
    × (s'.user_uuid ≡ some a.user)
    × (s'.server ≡ some a.server)
    × (sessions a.user s.limiter < env.limits.max_connections_per_user)
    × (sessions a.user s'.limiter ≡ suc (sessions a.user s.limiter))

pub sessions-check :
    (limits : Limits) (now : ℕ) (ip : IpAddr) (kind : AuthenticationType) (l : SshLimiter)
    → (check_attempt limits now ip kind l).0.user_sessions ≡ l.user_sessions
unfolding check_attempt
sessions-check limits now ip kind l = ground arith

sessions-finish :
    (limits : Limits) (ip : IpAddr) (kind : AuthenticationType) (l : SshLimiter)
    → (finish_attempt limits ip kind l).user_sessions ≡ l.user_sessions
unfolding finish_attempt
sessions-finish limits ip kind l = ground arith

-- The session's user and server and the sessions of a user are as they were.
abbrev pub Left : SshSession → SshSession → Uuid → Type 0
Left s s' other =
    (s'.user_uuid ≡ s.user_uuid)
    × (s'.server ≡ s.server)
    × (sessions other s'.limiter ≡ sessions other s.limiter)

module _ (env : Env) (now : ℕ) (kind : AuthenticationType) where
  admit-accept :
      (a : SftpAuth) (s : SshSession)
      → env.limits.max_connections_per_user < word
      → (admit env kind a s).1 ≡ accept
      → ((admit env kind a s).0.user_uuid ≡ some a.user)
        × ((admit env kind a s).0.server ≡ some a.server)
        × (sessions a.user s.limiter < env.limits.max_connections_per_user)
        × (sessions a.user (admit env kind a s).0.limiter ≡ suc (sessions a.user s.limiter))
  unfolding admit increment_sessions put
  admit-accept a s b h = ground arith

  admit-other :
      (a : SftpAuth) (s : SshSession) (other : Uuid)
      → (admit env kind a s).1 ≢ accept
      → Left s (admit env kind a s).0 other
  unfolding admit increment_sessions put
  admit-other a s other h = ground arith

  module _ (missing : Auth) (m : missing ≢ accept) where
    abbrev Entered : SftpAuth → SshSession → SshSession → Type 0
    Entered a s s' =
        (has_permission a.permissions file_sftp ≡ true)
        × (env.get_server a.server ≡ some false)
        × (s'.user_uuid ≡ some a.user)
        × (s'.server ≡ some a.server)
        × (sessions a.user s.limiter < env.limits.max_connections_per_user)
        × (sessions a.user s'.limiter ≡ suc (sessions a.user s.limiter))

    enter_server-accept :
        (a : SftpAuth) (s : SshSession)
        → env.limits.max_connections_per_user < word
        → (enter_server env kind missing a s).1 ≡ accept
        → Entered a s (enter_server env kind missing a s).0
    unfolding enter_server
    enter_server-accept a s b h =
        let s' = record s { limiter = finish_attempt env.limits s.user_ip kind s.limiter } in
        ground (arith, admit-accept a s' b, sessions-finish env.limits s.user_ip kind s.limiter)

    enter_server-other :
        (a : SftpAuth) (s : SshSession) (other : Uuid)
        → (enter_server env kind missing a s).1 ≢ accept
        → Left s (enter_server env kind missing a s).0 other
    unfolding enter_server
    enter_server-other a s other h =
        let s' = record s { limiter = finish_attempt env.limits s.user_ip kind s.limiter } in
        ground (arith, admit-other a s' other, sessions-finish env.limits s.user_ip kind s.limiter)

    module _ (denied : Auth) (d : denied ≢ accept) (username secret : Text) where
      pub attempt-accept :
          (s : SshSession)
          → env.limits.max_connections_per_user < word
          → (attempt env now kind username secret denied missing s).1 ≡ accept
          → IsAuthorised env kind username secret s
              (attempt env now kind username secret denied missing s).0
      unfolding attempt
      attempt-accept s b h = elim (Option-cases (env.get_sftp_auth kind username secret)) [
        | inl n ↦ absurd (ground arith)
        | inr (a, e) ↦
            let s' = record s {
              limiter = (check_attempt env.limits now s.user_ip kind s.limiter).0;
              calls = s.calls ++ (asked kind username secret ∷ []);
            } in
            let (may, free, user, server, room, more) : Entered a s
                (attempt env now kind username secret denied missing s).0 =
              ground (
                arith,
                enter_server-accept a s' b,
                sessions-check env.limits now s.user_ip kind s.limiter,
              ) in
            (a, e, may, free, user, server, room, more)
      ]

      pub attempt-other :
          (s : SshSession) (other : Uuid)
          → (attempt env now kind username secret denied missing s).1 ≢ accept
          → Left s (attempt env now kind username secret denied missing s).0 other
      unfolding attempt
      attempt-other s other h = elim (Option-cases (env.get_sftp_auth kind username secret)) [
        | inl n ↦ ground (arith, sessions-check env.limits now s.user_ip kind s.limiter)
        | inr (a, e) ↦
            let s' = record s {
              limiter = (check_attempt env.limits now s.user_ip kind s.limiter).0;
              calls = s.calls ++ (asked kind username secret ∷ []);
            } in
            ground (
              arith,
              enter_server-other a s' other,
              sessions-check env.limits now s.user_ip kind s.limiter,
            )
      ]
