-- ===== src/Ssh/Limiter/Attempts.antt =====
-- application/src/ssh/limiter.rs: how many login attempts of one address the limiter lets through,
-- in a run of attempts of any addresses, of ends of attempts, and of purges.
use ailes.Common.{
  ℕ, suc, ◌+◌, ◌-◌, ◌/◌, ◌<◌, ◌≤◌, Bool, true, false, ◌&&◌, Option, none, some, List, [], ◌∷◌, ltb,
  if◌then◌else◌, ◌≡◌, ◌≢◌, length, inl, inr, Bool-cases, Option-cases, arith, min,
}
use ailes.Common.Dict.{put}
use ailes.Common.Machine.{word, second, or_default}
use ailes.Ssh.Limiter.{
  IpAddr, same_ip, ip_key, same_ip_iff, AuthenticationType, password, public_key, Limits, Ratelimit,
  SshLimiter, ok, refused, default, purge, attempts, allowed, count_attempt, check_attempt,
  uncount_attempt, finish_attempt,
}

pub data Event : Type 0 where
  check finish : IpAddr → AuthenticationType → Event
  tick : Event

abbrev pub apply : Limits → ℕ → Event → SshLimiter → SshLimiter
apply limits now (check ip kind) l = (check_attempt limits now ip kind l).0
apply limits now (finish ip kind) l = finish_attempt limits ip kind l
apply limits now tick l = purge limits now l

abbrev pub same_kind : AuthenticationType → AuthenticationType → Bool
same_kind password password = true
same_kind public_key public_key = true
same_kind _ _ = false

module _ (limits : Limits) (ip : IpAddr) (kind : AuthenticationType) where
  abbrev pub is_mine : IpAddr → AuthenticationType → Bool
  is_mine jp other = same_ip jp ip && same_kind kind other

  abbrev pub passes : ℕ → Event → SshLimiter → ℕ
  passes now (check jp other) l =
      if is_mine jp other
      then elim ((check_attempt limits now jp other l).1) [ ok ↦ 1 | refused ↦ 0 ]
      else 0
  passes now _ l = 0

  -- The attempts of the address that the run lets through, and the ends of its attempts.
  abbrev pub passed : List (ℕ × Event) → SshLimiter → ℕ
  passed [] l = 0
  passed ((now, e) ∷ es) l = passes now e l + passed es (apply limits now e l)

  abbrev pub finishes : Event → ℕ
  finishes (finish jp other) = if is_mine jp other then 1 else 0
  finishes _ = 0

  abbrev pub finished : List (ℕ × Event) → ℕ
  finished [] = 0
  finished ((now, e) ∷ es) = finishes e + finished es

  -- Whether a purge finds the address silent for less than the cooldown.
  abbrev pub is_recent : ℕ → Option Ratelimit → Bool
  is_recent now none = true
  is_recent now (some r) = ltb ((now - r.last_attempt) / second) limits.authentication_cooldown

  abbrev pub keeps : ℕ → Event → SshLimiter → Bool
  keeps now tick l = is_recent now (l.ratelimits ip)
  keeps now _ l = true

  -- No purge of the run finds the address silent for the cooldown.
  abbrev pub never_silent : List (ℕ × Event) → SshLimiter → Bool
  never_silent [] l = true
  never_silent ((now, e) ∷ es) l =
      let rest = never_silent es (apply limits now e l) in keeps now e l && rest

  abbrev pub count_of : Option Ratelimit → ℕ
  count_of none = 0
  count_of (some r) = attempts kind r

  count_of-default :
      (now : ℕ) (o : Option Ratelimit) → attempts kind (or_default (default now) o) ≡ count_of o
  unfolding attempts default
  count_of-default now o = ground arith

  attempts-count :
      (now : ℕ) (r : Ratelimit)
      → suc (attempts kind r) < word
      → attempts kind (count_attempt now kind r) ≡ suc (attempts kind r)
  unfolding attempts count_attempt
  attempts-count now r b = ground arith

  attempts-count_other :
      (now : ℕ) (other : AuthenticationType) (r : Ratelimit)
      → same_kind kind other ≡ false
      → attempts kind (count_attempt now other r) ≡ attempts kind r
  unfolding attempts count_attempt
  attempts-count_other now other r b = ground arith

  attempts-uncount : (r : Ratelimit) → attempts kind (uncount_attempt kind r) ≡ attempts kind r - 1
  unfolding attempts uncount_attempt
  attempts-uncount r = ground arith

  attempts-uncount_other :
      (other : AuthenticationType) (r : Ratelimit)
      → same_kind kind other ≡ false
      → attempts kind (uncount_attempt other r) ≡ attempts kind r
  unfolding attempts uncount_attempt
  attempts-uncount_other other r b = ground arith

  purge_count :
      (now : ℕ) (l : SshLimiter)
      → is_recent now (l.ratelimits ip) ≡ true
      → (purge limits now l).ratelimits ip ≡ l.ratelimits ip
  unfolding purge
  purge_count now l b = ground arith

  same_kind-eq : (other : AuthenticationType) → same_kind kind other ≡ true → kind ≡ other
  same_kind-eq other h = ground arith

  module _ (now : ℕ) (jp : IpAddr) (other : AuthenticationType) (l : SshLimiter)
      (h : limits.authentication_cooldown ≢ 0) where
    entry-check_off :
        same_ip jp ip ≡ false
        → (check_attempt limits now jp other l).0.ratelimits ip ≡ l.ratelimits ip
    unfolding check_attempt put
    entry-check_off d = ground arith

    entry-check_at :
        same_ip jp ip ≡ true
        → (check_attempt limits now jp other l).0.ratelimits ip
          ≡ some (count_attempt now other (or_default (default now) (l.ratelimits ip)))
    unfolding check_attempt put
    entry-check_at d = ground (arith, (same_ip_iff jp ip).0 d)

    answer-check :
        same_ip jp ip ≡ true
        → (check_attempt limits now jp other l).1 ≡ (
            if ltb (allowed limits other) (
              attempts other (count_attempt now other (or_default (default now) (l.ratelimits ip))))
            then refused
            else ok)
    unfolding check_attempt
    answer-check d = ground (arith, (same_ip_iff jp ip).0 d)

    entry-finish_off :
        same_ip jp ip ≡ false → (finish_attempt limits jp other l).ratelimits ip ≡ l.ratelimits ip
    unfolding finish_attempt put
    entry-finish_off d = ground arith

    entry-finish_at :
        same_ip jp ip ≡ true
        → (finish_attempt limits jp other l).ratelimits ip
          ≡ elim (l.ratelimits ip) [ none ↦ none | some r ↦ some (uncount_attempt other r) ]
    unfolding finish_attempt put
    entry-finish_at d = ground (arith, (same_ip_iff jp ip).0 d)

  abbrev pub Counts : ℕ → Event → SshLimiter → Type 0
  Counts now e l =
      let before = count_of (l.ratelimits ip) in
      let after = count_of ((apply limits now e l).ratelimits ip) in
      (passes now e l + min before (allowed limits kind)
        ≤ min after (allowed limits kind) + finishes e)
      × (after ≤ suc before)

  check_count :
      (now : ℕ) (jp : IpAddr) (other : AuthenticationType) (l : SshLimiter)
      → limits.authentication_cooldown ≢ 0
      → suc (count_of (l.ratelimits ip)) < word
      → Counts now (check jp other) l
  check_count now jp other l h b = elim (Bool-cases (same_ip jp ip)) [
    | inl t ↦ elim (Bool-cases (same_kind kind other)) [
      | inl u ↦ ground (
        arith,
        same_kind-eq other u,
        entry-check_at now jp other l h t,
        answer-check now jp other l h t,
        count_of-default now (l.ratelimits ip),
        attempts-count now (or_default (default now) (l.ratelimits ip)),
      )
      | inr u ↦ ground (
        arith,
        entry-check_at now jp other l h t,
        count_of-default now (l.ratelimits ip),
        attempts-count_other now other (or_default (default now) (l.ratelimits ip)) u,
      )
    ]
    | inr f ↦ ground (arith, entry-check_off now jp other l h f)
  ]

  finish_count :
      (now : ℕ) (jp : IpAddr) (other : AuthenticationType) (l : SshLimiter)
      → limits.authentication_cooldown ≢ 0
      → Counts now (finish jp other) l
  finish_count now jp other l h = elim (Bool-cases (same_ip jp ip)) [
    | inl t ↦ elim (Option-cases (l.ratelimits ip)) [
      | inl n ↦ ground (arith, entry-finish_at now jp other l h t)
      | inr (r, e) ↦ elim (Bool-cases (same_kind kind other)) [
        | inl u ↦
            ground
              (arith, same_kind-eq other u, entry-finish_at now jp other l h t, attempts-uncount r)
        | inr u ↦
            ground (arith, entry-finish_at now jp other l h t, attempts-uncount_other other r u)
      ]
    ]
    | inr f ↦ ground (arith, entry-finish_off now jp other l h f)
  ]

  -- What one event does to the count of the address.
  step_count :
      (now : ℕ) (e : Event) (l : SshLimiter)
      → limits.authentication_cooldown ≢ 0
      → keeps now e l ≡ true
      → suc (count_of (l.ratelimits ip)) < word
      → Counts now e l
  step_count now (check jp other) l h k b = check_count now jp other l h b
  step_count now (finish jp other) l h k b = finish_count now jp other l h
  step_count now tick l h k b = ground (arith, purge_count now l k)

  -- While the cooldown is set and no purge finds the address silent for so long, at most the allowed
  -- number of its attempts pass, and one more for each end of an attempt, in every interleaving with
  -- the attempts of others. The count of refused attempts must not wrap.
  pub passed_bound :
      (es : List (ℕ × Event)) (l : SshLimiter)
      → limits.authentication_cooldown ≢ 0
      → never_silent es l ≡ true
      → count_of (l.ratelimits ip) + length es < word
      → passed es l + min (count_of (l.ratelimits ip)) (allowed limits kind)
        ≤ allowed limits kind + finished es
  passed_bound [] l h k b = omega arith
  passed_bound ((now, e) ∷ es) l h k b =
      let rest = never_silent es (apply limits now e l) in
      let first : keeps now e l ≡ true = ground arith in
      let (more, less) = step_count now e l h first (omega arith) in
      omega (arith, passed_bound es (apply limits now e l) h (ground arith) (omega arith))
