-- ===== src/Ssh/Limiter/Sessions.antt =====
-- application/src/ssh/limiter.rs: the sessions of a user. A session that was let in is counted until
-- it ends (application/src/ssh/auth.rs, `Drop for SshSession`); purges come in between.
use ailes.Common.{
  ℕ, ◌+◌, ◌-◌, ◌<◌, ◌≤◌, List, [], ◌∷◌, ◌++◌, ◌==◌, if◌then◌else◌, ◌≡◌, refl, arith, ◌↔◌,
}
use ailes.Common.Dict.{put}
use ailes.Common.Machine.{word, Uuid, or_default}
use ailes.Ssh.Limiter.{
  Limits, SshLimiter, new, ok, refused, purge, increment_sessions, decrement_sessions,
}

-- The sessions that the limiter counts for a user.
abbrev pub sessions : Uuid → SshLimiter → ℕ
sessions user l = or_default 0 (l.user_sessions user)

-- The limiter, and the users of the live sessions.
pub data Step (limits : Limits) : SshLimiter × List Uuid → SshLimiter × List Uuid → Type 0 where
  enter :
      {l l' : SshLimiter} {live : List Uuid} (user : Uuid)
      → increment_sessions limits user l ≡ (l', ok)
      → Step limits (l, live) (l', user ∷ live)
  turn_away :
      {l l' : SshLimiter} {live : List Uuid} (user : Uuid)
      → increment_sessions limits user l ≡ (l', refused)
      → Step limits (l, live) (l', live)
  leave :
      {l : SshLimiter} (before after : List Uuid) (user : Uuid)
      → Step limits (l, before ++ (user ∷ after)) (decrement_sessions user l, before ++ after)
  tick :
      {l : SshLimiter} {live : List Uuid} (now : ℕ)
      → Step limits (l, live) (purge limits now l, live)

pub data Reach (limits : Limits) : SshLimiter × List Uuid → Type 0 where
  start : Reach limits (new, [])
  step : {s t : SshLimiter × List Uuid} → Reach limits s → Step limits s t → Reach limits t

abbrev pub occurrences : Uuid → List Uuid → ℕ
occurrences user [] = 0
occurrences user (u ∷ us) = (if u == user then 1 else 0) + occurrences user us

occurrences-append :
    (user : Uuid) (us vs : List Uuid)
    → occurrences user (us ++ vs) ≡ occurrences user us + occurrences user vs
occurrences-append user [] vs = omega arith
occurrences-append user (u ∷ us) vs = omega (arith, occurrences-append user us vs)

sessions-increment :
    (limits : Limits) (user other : Uuid) (l : SshLimiter)
    → limits.max_connections_per_user < word
    → sessions other (increment_sessions limits user l).0
      ≡ elim (increment_sessions limits user l).1 [
        | ok ↦ (if user == other then 1 else 0) + sessions other l
        | refused ↦ sessions other l
      ]
unfolding increment_sessions put
sessions-increment limits user other l b = ground arith

increment-ok :
    (limits : Limits) (user : Uuid) (l : SshLimiter)
    → ((increment_sessions limits user l).1 ≡ ok)
      ↔ (sessions user l < limits.max_connections_per_user)
unfolding increment_sessions
increment-ok limits user l = ground arith

sessions-decrement :
    (user other : Uuid) (l : SshLimiter)
    → sessions other (decrement_sessions user l)
      ≡ sessions other l - (if user == other then 1 else 0)
unfolding decrement_sessions put
sessions-decrement user other l = ground arith

sessions-purge :
    (limits : Limits) (now : ℕ) (user : Uuid) (l : SshLimiter)
    → sessions user (purge limits now l) ≡ sessions user l
unfolding purge
sessions-purge limits now user l = ground arith

abbrev pub Counted : Limits → SshLimiter × List Uuid → Uuid → Type 0
Counted limits (l, live) user =
    (sessions user l ≡ occurrences user live)
    × (occurrences user live ≤ limits.max_connections_per_user)

Step-Counted :
    {limits : Limits} {s t : SshLimiter × List Uuid} (user : Uuid)
    → limits.max_connections_per_user < word
    → Step limits s t
    → Counted limits s user
    → Counted limits t user
Step-Counted {limits = limits} user b (enter {l = l} {l' = l'} u e) c =
    ground (arith, e, increment-ok limits u l, sessions-increment limits u user l b)
Step-Counted {limits = limits} user b (turn_away {l = l} {l' = l'} u e) c =
    ground (arith, e, sessions-increment limits u user l b)
Step-Counted {limits = limits} user b (leave {l = l} before after u) c = ground (
  arith,
  sessions-decrement u user l,
  occurrences-append user before (u ∷ after),
  occurrences-append user before after,
)
Step-Counted {limits = limits} user b (tick {l = l} now) c =
    ground (arith, sessions-purge limits now user l)

-- In every reachable state the limiter counts for each user exactly the live sessions, and there are
-- never more of them than the limit, which is a machine word.
pub Reach-Counted :
    {limits : Limits} {s : SshLimiter × List Uuid} (user : Uuid)
    → limits.max_connections_per_user < word
    → Reach limits s
    → Counted limits s user
unfolding new
Reach-Counted user b start = (refl, ground arith)
Reach-Counted user b (step r s) = Step-Counted user b s (Reach-Counted user b r)

-- In every reachable state a user is let in exactly when fewer sessions than the limit are live.
pub increment_sessions-reachable :
    {limits : Limits} {s : SshLimiter × List Uuid} (user : Uuid)
    → limits.max_connections_per_user < word
    → Reach limits s
    → ((increment_sessions limits user s.0).1 ≡ ok)
      ↔ (occurrences user s.1 < limits.max_connections_per_user)
increment_sessions-reachable {limits} {s} user b r =
    ground (arith, increment-ok limits user s.0, Reach-Counted user b r)
