-- ===== src/Ssh/Limiter.antt =====
-- application/src/ssh/limiter.rs: the limits on login attempts, sessions and open file handles.
-- An operation on the shared object returns the new object, and is one step as it holds the mutex
-- throughout. A time is an `Instant` in nanoseconds. Counters are `usize`.
pub mod Attempts
pub mod Sessions
pub mod Handles
use ailes.Common.{
  ℕ, suc, ◌-◌, ◌/◌, ◌%◌, Bool, true, false, not, Option, none, some, ltb, leb, ◌==◌, if◌then◌else◌,
  ◌↔◌, ◌≡◌, arith,
}
use ailes.Common.Machine.{Uuid, second, word, or_default}
use ailes.Common.Dict.{Key, Dict, empty, put, insert, retain, ℕ_key}

-- The 32 or 128 bits of an address.
pub data IpAddr : Type 0 where
  v4 v6 : ℕ → IpAddr

abbrev pub same_ip : IpAddr → IpAddr → Bool
same_ip (v4 a) (v4 b) = a == b
same_ip (v6 a) (v6 b) = a == b
same_ip _ _ = false

pub same_ip_iff : (a b : IpAddr) → (same_ip a b ≡ true) ↔ (a ≡ b)
same_ip_iff a b = ground arith

instance abbrev pub ip_key : Key IpAddr
ip_key = record { same = same_ip; same_iff = same_ip_iff }

pub data AuthenticationType : Type 0 where
  password public_key : AuthenticationType

-- `system.sftp.limits` of the configuration, as an operation finds it.
pub record Limits : Type 0 where
  pub authentication_password_attempts : ℕ
  pub authentication_pubkey_attempts : ℕ
  pub authentication_cooldown : ℕ
  pub max_connections_per_user : ℕ
  pub max_handles_total : ℕ

pub record Ratelimit : Type 0 where
  pub password_attempts : ℕ
  pub pubkey_attempts : ℕ
  pub last_attempt : ℕ

pub record SshLimiter : Type 0 where
  pub ratelimits : Dict IpAddr Ratelimit
  pub user_sessions : Dict Uuid ℕ
  pub open_handles : ℕ

-- `Result<(), Error>`, where the error is always the same.
pub data Answer : Type 0 where
  ok refused : Answer

unfoldable pub new : SshLimiter
new = record { ratelimits = empty; user_sessions = empty; open_handles = 0 }

unfoldable pub default : ℕ → Ratelimit
default now = record { password_attempts = 0; pubkey_attempts = 0; last_attempt = now }

unfoldable pub purge : Limits → ℕ → SshLimiter → SshLimiter
purge limits now l = record l {
  ratelimits =
      retain (λ r. ltb ((now - r.last_attempt) / second) limits.authentication_cooldown)
        l.ratelimits;
  user_sessions = retain (λ count. ltb 0 count) l.user_sessions;
}

unfoldable pub attempts : AuthenticationType → Ratelimit → ℕ
attempts password r = r.password_attempts
attempts public_key r = r.pubkey_attempts

unfoldable pub allowed : Limits → AuthenticationType → ℕ
allowed limits password = limits.authentication_password_attempts
allowed limits public_key = limits.authentication_pubkey_attempts

unfoldable pub count_attempt : ℕ → AuthenticationType → Ratelimit → Ratelimit
count_attempt now password r = record r {
  password_attempts = suc r.password_attempts % word;
  last_attempt = now;
}
count_attempt now public_key r = record r {
  pubkey_attempts = suc r.pubkey_attempts % word;
  last_attempt = now;
}

unfoldable pub check_attempt :
    Limits → ℕ → IpAddr → AuthenticationType → SshLimiter → SshLimiter × Answer
check_attempt limits now ip kind l =
    if limits.authentication_cooldown == 0
    then (l, ok)
    else let entry = count_attempt now kind (or_default (default now) (l.ratelimits ip)) in
      (
        record l { ratelimits = insert ip entry l.ratelimits },
        if ltb (allowed limits kind) (attempts kind entry) then refused else ok,
      )

unfoldable pub uncount_attempt : AuthenticationType → Ratelimit → Ratelimit
uncount_attempt password r =
    if ltb 0 r.password_attempts
    then record r { password_attempts = r.password_attempts - 1 }
    else r
uncount_attempt public_key r =
    if ltb 0 r.pubkey_attempts then record r { pubkey_attempts = r.pubkey_attempts - 1 } else r

unfoldable pub finish_attempt : Limits → IpAddr → AuthenticationType → SshLimiter → SshLimiter
finish_attempt limits ip kind l =
    if limits.authentication_cooldown == 0 then l else elim (l.ratelimits ip) [
      | none ↦ l
      | some r ↦ record l { ratelimits = insert ip (uncount_attempt kind r) l.ratelimits }
    ]

-- The entry is made even if the answer is an error.
unfoldable pub increment_sessions : Limits → Uuid → SshLimiter → SshLimiter × Answer
increment_sessions limits user l =
    let count = or_default 0 (l.user_sessions user) in
    if leb limits.max_connections_per_user count
    then (record l { user_sessions = insert user count l.user_sessions }, refused)
    else (record l { user_sessions = insert user (suc count % word) l.user_sessions }, ok)

unfoldable pub decrement_sessions : Uuid → SshLimiter → SshLimiter
decrement_sessions user l = elim (l.user_sessions user) [
  | none ↦ l
  | some count ↦
      if ltb 0 count
      then record l { user_sessions = insert user (count - 1) l.user_sessions }
      else l
]

-- `fetch_add(1)` and `fetch_sub(1)` on the counter of open handles.
unfoldable pub fetch_add : SshLimiter → SshLimiter × ℕ
fetch_add l = (record l { open_handles = suc l.open_handles % word }, l.open_handles)

unfoldable pub fetch_sub : SshLimiter → SshLimiter
fetch_sub l = record l {
  open_handles = if l.open_handles == 0 then word - 1 else l.open_handles - 1;
}

-- Whether a handle may be opened when the counter was at `current`.
unfoldable pub may_open : Limits → ℕ → Bool
may_open limits current =
    if limits.max_handles_total == 0 then true else not (leb limits.max_handles_total current)

-- The whole call, which others may interrupt between its two steps (module Handles).
unfoldable pub open_handle : Limits → SshLimiter → SshLimiter × Answer
open_handle limits l =
    let (l', current) = fetch_add l in
    if may_open limits current then (l', ok) else (fetch_sub l', refused)
