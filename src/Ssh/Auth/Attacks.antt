-- ===== src/Ssh/Auth/Attacks.antt =====
-- application/src/ssh/auth.rs: guessing passwords against the limit on attempts.
use ailes.Common.{
  ℕ, suc, ◌+◌, ◌≤◌, ◌<◌, Bool, true, false, not, ◌&&◌, none, List, [], ◌∷◌, ◌++◌, if◌then◌else◌,
  ◌≡◌, ◌≢◌, refl, arith, length, inl, inr, Bool-cases, ap,
}
use ailes.Common.Text.{Text}
use ailes.Common.Machine.{word}
use ailes.Common.Dict.{same_self}
use ailes.Ssh.Limiter.{IpAddr, ip_key, password, public_key, allowed, purge}
use ailes.Ssh.Limiter.Attempts.{
  Event, check, tick, passes, passed, finished, never_silent, count_of, passed_bound, apply,
}
use ailes.Ssh.Auth.{
  Env, Call, asked, set_permissions, sftp_login, SshSession, auth_password, attempt,
  validate_username,
}

pub record Try : Type 0 where
  pub at : ℕ
  pub username : Text
  pub secret : Text

-- A try of the session's client, or a purge of the limiter's task at a time.
pub data Turn : Type 0 where
  guess : Try → Turn
  cleanup : ℕ → Turn

unfoldable pub tries : Env → List Turn → SshSession → SshSession
tries env [] s = s
tries env (cleanup at ∷ ts) s = tries env ts (record s { limiter = purge env.limits at s.limiter })
tries env (guess t ∷ ts) s = tries env ts (auth_password env t.at t.username t.secret s).0

-- How often the panel was asked about a password.
abbrev pub asks : List Call → ℕ
asks [] = 0
asks (asked password username secret ∷ cs) = suc (asks cs)
asks (asked public_key username secret ∷ cs) = asks cs
asks (set_permissions _ _ _ _ ∷ cs) = asks cs
asks (sftp_login _ _ _ _ ∷ cs) = asks cs

-- The attempts that the limiter is asked about, and the purges.
abbrev pub counted_tries : Env → IpAddr → List Turn → List (ℕ × Event)
counted_tries env ip [] = []
counted_tries env ip (cleanup at ∷ ts) = (at, tick) ∷ counted_tries env ip ts
counted_tries env ip (guess t ∷ ts) =
    let rest = counted_tries env ip ts in
    if not env.disable_password_auth && validate_username t.username
    then (t.at, check ip password) ∷ rest
    else rest

-- The panel takes none of the passwords.
abbrev pub AllWrong : Env → List Turn → Type 0
AllWrong env [] = Unit
AllWrong env (cleanup at ∷ ts) = AllWrong env ts
AllWrong env (guess t ∷ ts) =
    (env.get_sftp_auth password t.username t.secret ≡ none) × AllWrong env ts

abbrev is_counted : Env → Try → Bool
is_counted env t = not env.disable_password_auth && validate_username t.username

asks-append : (cs : List Call) (u p : Text) → asks (cs ++ (asked password u p ∷ [])) ≡ suc (asks cs)
asks-append [] u p = refl
asks-append (asked password _ _ ∷ cs) u p = ap suc (asks-append cs u p)
asks-append (asked public_key _ _ ∷ cs) u p = asks-append cs u p
asks-append (set_permissions _ _ _ _ ∷ cs) u p = asks-append cs u p
asks-append (sftp_login _ _ _ _ ∷ cs) u p = asks-append cs u p

module _ (env : Env) (t : Try) (s : SshSession) where
  abbrev one : SshSession
  one = (auth_password env t.at t.username t.secret s).0

  uncounted : is_counted env t ≡ false → one ≡ s
  unfolding auth_password
  uncounted f = ground arith

  abbrev event : Event
  event = check s.user_ip password

  counted :
      is_counted env t ≡ true
      → env.get_sftp_auth password t.username t.secret ≡ none
      → (one.limiter ≡ apply env.limits t.at event s.limiter)
        × (one.user_ip ≡ s.user_ip)
        × (asks one.calls
            ≡ passes env.limits s.user_ip password t.at event s.limiter + asks s.calls)
  unfolding auth_password attempt
  counted c e = ground (arith, asks-append s.calls t.username t.secret, same_self s.user_ip)

finished-counted :
    (env : Env) (ip : IpAddr) (ts : List Turn)
    → finished env.limits ip password (counted_tries env ip ts) ≡ 0
finished-counted env ip [] = refl
finished-counted env ip (cleanup at ∷ ts) = omega (arith, finished-counted env ip ts)
finished-counted env ip (guess t ∷ ts) = ground (arith, finished-counted env ip ts)

length-counted :
    (env : Env) (ip : IpAddr) (ts : List Turn) → length (counted_tries env ip ts) ≤ length ts
length-counted env ip [] = ground arith
length-counted env ip (cleanup at ∷ ts) = omega (arith, length-counted env ip ts)
length-counted env ip (guess t ∷ ts) = ground (arith, length-counted env ip ts)

asks-tries :
    (env : Env) (ts : List Turn) (s : SshSession)
    → AllWrong env ts
    → asks (tries env ts s).calls
      ≡ passed env.limits s.user_ip password (counted_tries env s.user_ip ts) s.limiter
        + asks s.calls
unfolding tries
asks-tries env [] s w = ground arith
asks-tries env (cleanup at ∷ ts) s w =
    omega (arith, asks-tries env ts (record s { limiter = purge env.limits at s.limiter }) w)
asks-tries env (guess t ∷ ts) s w =
    let ih = asks-tries env ts (one env t s) w.1 in
    elim (Bool-cases (is_counted env t)) [
      | inl c ↦
          let (limiter, ip, more) = counted env t s c w.0 in
          ground (arith, ih, limiter, ip, more, c)
      | inr f ↦ let same = uncounted env t s f in ground (arith, ih, same, f)
    ]

-- However many passwords that the panel does not take a session tries, among purges of the limiter, the panel is
-- asked about at most the allowed number of them more, if the cooldown is set, no purge finds the address silent
-- for so long, and the count of tries does not wrap.
pub asks_bound :
    (env : Env) (ts : List Turn) (s : SshSession)
    → AllWrong env ts
    → env.limits.authentication_cooldown ≢ 0
    → never_silent env.limits s.user_ip password (counted_tries env s.user_ip ts) s.limiter ≡ true
    → count_of env.limits s.user_ip password (s.limiter.ratelimits s.user_ip) + length ts < word
    → asks (tries env ts s).calls ≤ allowed env.limits password + asks s.calls
asks_bound env ts s w h k b =
    let es = counted_tries env s.user_ip ts in
    let few : length es ≤ length ts = length-counted env s.user_ip ts in
    let none_ends = finished-counted env s.user_ip ts in
    let bound = passed_bound env.limits s.user_ip password es s.limiter h k (omega arith) in
    omega (arith, asks-tries env ts s w, none_ends, bound)
