-- ===== src/Ssh/Auth/Answers.antt =====
-- application/src/ssh/auth.rs: what an accepted login went through, and what another leaves alone.
use ailes.Common.{
  ℕ, ◌<◌, true, false, Option, none, some, List, ◌≡◌, ◌≢◌, refl, arith, inl, inr, Bool-cases,
  Option-cases, ◌⊎◌,
}
use ailes.Common.Text.{Text}
use ailes.Common.Machine.{Uuid, word}
use ailes.Ssh.Limiter.{AuthenticationType, password, public_key}
use ailes.Ssh.Auth.{
  Env, Auth, accept, unsupported_method, reject, SshSession, get_auth_methods, attempt,
  auth_password, auth_publickey, validate_username,
}
use ailes.Ssh.Auth.Admission.{IsAuthorised, Left, sessions-check, attempt-accept, attempt-other}

some-reject : (ms : Option (List AuthenticationType)) → reject ms ≢ accept
some-reject ms = ground arith

abbrev by_password : Env → ℕ → Text → Text → SshSession → SshSession × Auth
by_password env now username secret s =
    attempt env now password username secret (reject none) (reject (some (get_auth_methods env))) s

abbrev by_key : Env → ℕ → Text → Text → SshSession → SshSession × Auth
by_key env now username secret s =
    attempt env now public_key username secret (reject (some (get_auth_methods env))) (reject none)
      s

-- How a password login goes: an early answer that changes nothing, or an attempt.
password-cases :
    (env : Env) (now : ℕ) (username secret : Text) (s : SshSession)
    → ((auth : Auth) × (auth ≢ accept) × (auth_password env now username secret s ≡ (s, auth)))
      ⊎ ((env.disable_password_auth ≡ false)
          × (validate_username username ≡ true)
          × (auth_password env now username secret s ≡ by_password env now username secret s))
unfolding auth_password
password-cases env now username secret s = elim (Bool-cases env.disable_password_auth) [
  | inl t ↦ inl (unsupported_method, ground arith, ground arith)
  | inr f ↦ elim (Bool-cases (validate_username username)) [
    | inr g ↦ inl (
      reject (some (get_auth_methods env)),
      some-reject (some (get_auth_methods env)),
      ground arith,
    )
    | inl v ↦ inr (f, v, ground arith)
  ]
]

-- How a login with a key goes: an answer that leaves the session as it was, or an attempt.
key-cases :
    (env : Env) (now : ℕ) (username : Text) (key : Option Text) (s : SshSession)
    → (((auth_publickey env now username key s).1 ≢ accept)
        × ((auth_publickey env now username key s).0.user_uuid ≡ s.user_uuid)
        × ((auth_publickey env now username key s).0.server ≡ s.server)
        × ((auth_publickey env now username key s).0.limiter.user_sessions
            ≡ s.limiter.user_sessions))
      ⊎ ((secret : Text) × (key ≡ some secret)
          × (validate_username username ≡ true)
          × (auth_publickey env now username key s ≡ by_key env now username secret s))
unfolding auth_publickey
key-cases env now username key s = elim (Bool-cases (validate_username username)) [
  | inr g ↦ inl (ground arith, ground arith, ground arith, ground arith)
  | inl v ↦ elim (Option-cases key) [
    | inl n ↦ inl (
      ground arith,
      ground arith,
      ground arith,
      ground (arith, sessions-check env.limits now s.user_ip public_key s.limiter),
    )
    | inr (secret, e) ↦ inr (secret, e, v, ground arith)
  ]
]

module _ (env : Env) (now : ℕ) (username : Text) (s : SshSession) where
  abbrev methods : Auth
  methods = reject (some (get_auth_methods env))

  -- A password login is accepted only if password logins are on, the name has its form, and the
  -- panel answered with the sftp permission and a server that exists and is not locked. Then the
  -- session has that user and server, and is counted, within the limit of the user's sessions.
  pub auth_password-accept :
      (secret : Text)
      → env.limits.max_connections_per_user < word
      → (auth_password env now username secret s).1 ≡ accept
      → (env.disable_password_auth ≡ false)
        × (validate_username username ≡ true)
        × IsAuthorised env password username secret s (auth_password env now username secret s).0
  auth_password-accept secret b h = elim (password-cases env now username secret s) [
    | inl (auth, n, e) ↦ absurd (ground (arith, n, e))
    | inr (f, v, e) ↦
        let authorised =
          attempt-accept env now password methods (some-reject (some (get_auth_methods env)))
            (reject none) (some-reject none) username secret s b (rw e at h) in
        rw e (f, v, authorised)
  ]

  -- A login with a key is accepted only if the name has its form, and the panel answered for the key
  -- with the sftp permission and a server that exists and is not locked. Then the session has that
  -- user and server, and is counted, within the limit of the user's sessions.
  pub auth_publickey-accept :
      (key : Option Text)
      → env.limits.max_connections_per_user < word
      → (auth_publickey env now username key s).1 ≡ accept
      → (secret : Text) × (key ≡ some secret)
        × (validate_username username ≡ true)
        × IsAuthorised env public_key username secret s (auth_publickey env now username key s).0
  auth_publickey-accept key b h = elim (key-cases env now username key s) [
    | inl (n, user, server, counts) ↦ absurd (n h)
    | inr (secret, k, v, e) ↦
        let authorised =
          attempt-accept env now public_key (reject none) (some-reject none) methods
            (some-reject (some (get_auth_methods env))) username secret s b (rw e at h) in
        rw e (secret, k, v, authorised)
  ]

  -- A login that is not accepted, by password or by key, leaves the session's user and server and
  -- the sessions of every user as they were.
  pub refused-unchanged :
      (secret : Text) (key : Option Text) (other : Uuid)
      → (auth_password env now username secret s).1 ≢ accept
      → (auth_publickey env now username key s).1 ≢ accept
      → Left s (auth_password env now username secret s).0 other
        × Left s (auth_publickey env now username key s).0 other
  refused-unchanged secret key other h k = (by_password_left, by_key_left)
    where
      by_password_left : Left s (auth_password env now username secret s).0 other
      by_password_left = elim (password-cases env now username secret s) [
        | inl (auth, n, e) ↦ rw e (refl, refl, refl)
        | inr (f, v, e) ↦ rw e (
            attempt-other env now password methods (some-reject (some (get_auth_methods env)))
              (reject none) (some-reject none) username secret s other (rw e at h))
      ]

      by_key_left : Left s (auth_publickey env now username key s).0 other
      by_key_left = elim (key-cases env now username key s) [
        | inl (n, user, server, counts) ↦ (user, server, rw counts refl)
        | inr (secret', q, v, e) ↦ rw e (
            attempt-other env now public_key (reject none) (some-reject none) methods
              (some-reject (some (get_auth_methods env))) username secret' s other (rw e at k))
      ]
