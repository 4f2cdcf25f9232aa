-- ===== src/Remote/Jwt/Validity.antt =====
-- application/src/remote/jwt.rs: which claims are valid, and what a denial does.
use ailes.Common.{
  ℕ, ◌+◌, ◌≤◌, ◌<◌, ◌↔◌, Bool, true, false, not, Option, none, some, List, [], ◌∷◌, ltb, leb,
  if◌then◌else◌, ◌≡◌, ◌≢◌, inl, inr, refl, arith, Option-cases,
}
use ailes.Common.Text.{Text, same_text, text_key, split, trim, any, all}
use ailes.Common.Machine.{word}
use ailes.Common.Dict.{put, same_self}
use ailes.Remote.Jwt.{
  BasePayload, JwtClient, Validated, ok, err, denied, timestamp, comma, validate, check_expiration,
  check_not_before, check_issued_at, check_denied, check_scope, ◌then◌, deny,
}

abbrev comes_before : ℕ → Option ℕ → Bool
comes_before now none = true
comes_before now (some nbf) = leb nbf (timestamp now)

-- The token was issued after the last denial of its id, if there is one.
abbrev outlives : ℕ → Option ℕ → Bool
outlives iat none = true
outlives iat (some at) = ltb (timestamp at) iat

abbrev has_scope : Option Text → Text → Bool
has_scope none scopes = true
has_scope (some scope) scopes = any (λ s. same_text (trim s) scope) (split comma scopes)

abbrev pub IsValid : ℕ → JwtClient → Option Text → BasePayload → Type 0
IsValid now client scope p =
    (exp : ℕ) × (iat : ℕ) × (p.expiration_time ≡ some exp)
    × (timestamp now ≤ exp)
    × (comes_before now p.not_before ≡ true)
    × (p.issued_at ≡ some iat)
    × (iat ≤ timestamp now + 5)
    × (timestamp client.boot_time ≤ iat)
    × (outlives iat (client.denied_jtokens p.jwt_id) ≡ true)
    × (has_scope scope p.scope ≡ true)

all-any :
    (scope : Text) (ss : List Text)
    → all (λ s. not (same_text (trim s) scope)) ss ≡ not (any (λ s. same_text (trim s) scope) ss)
all-any scope [] = refl
all-any scope (s ∷ ss) = ground (arith, all-any scope ss)

scope_iff :
    (scope : Option Text) (p : BasePayload)
    → (check_scope scope p ≡ ok) ↔ (has_scope scope p.scope ≡ true)
unfolding check_scope
scope_iff none p = ground arith
scope_iff (some scope) p = ground (arith, all-any scope (split comma p.scope))

expiration_iff :
    (now : ℕ) (p : BasePayload)
    → (check_expiration now p ≡ ok)
      ↔ ((exp : ℕ) × (p.expiration_time ≡ some exp) × (timestamp now ≤ exp))
unfolding check_expiration
expiration_iff now p = elim (Option-cases p.expiration_time) [
  | inl n ↦ ground arith
  | inr (e, q) ↦ ((λ h. (e, q, ground arith)), λ h. ground arith)
]

then_iff : (a b : Validated) → ((a then b) ≡ ok) ↔ ((a ≡ ok) × (b ≡ ok))
then_iff a b = ground arith

not_before_iff :
    (now : ℕ) (p : BasePayload)
    → (check_not_before now p ≡ ok) ↔ (comes_before now p.not_before ≡ true)
unfolding check_not_before
not_before_iff now p = ground arith

issued_at_iff :
    (now iat : ℕ) (client : JwtClient) (p : BasePayload)
    → timestamp now + 5 < word
    → 5 ≤ timestamp client.boot_time
    → p.issued_at ≡ some iat
    → (check_issued_at now client p ≡ ok)
      ↔ ((iat ≤ timestamp now + 5) × (timestamp client.boot_time ≤ iat))
unfolding check_issued_at
issued_at_iff now iat client p small late e = ground arith

issued_at-ok :
    (now : ℕ) (client : JwtClient) (p : BasePayload)
    → check_issued_at now client p ≡ ok
    → (iat : ℕ) × (p.issued_at ≡ some iat)
unfolding check_issued_at
issued_at-ok now client p h = elim (Option-cases p.issued_at) [
  | inl n ↦ absurd (ground arith)
  | inr (iat, e) ↦ (iat, e)
]

denied_iff :
    (iat : ℕ) (client : JwtClient) (p : BasePayload)
    → p.issued_at ≡ some iat
    → (check_denied client p ≡ ok) ↔ (outlives iat (client.denied_jtokens p.jwt_id) ≡ true)
unfolding check_denied
denied_iff iat client p e = ground arith

-- A token is valid exactly when it is not expired, its start is not ahead, it was issued at most
-- five seconds ahead and since the boot, it was not denied since, and it has the asked scope. The
-- clock is not at the ends of an `i64`.
pub validate_iff :
    (now : ℕ) (client : JwtClient) (scope : Option Text) (p : BasePayload)
    → timestamp now + 5 < word
    → 5 ≤ timestamp client.boot_time
    → (validate now client scope p ≡ ok) ↔ IsValid now client scope p
unfolding validate
validate_iff now client scope p small late =
    let e = check_expiration now p in
    let n = check_not_before now p in
    let i = check_issued_at now client p in
    let d = check_denied client p in
    let s = check_scope scope p in
    (
      (λ h.
          let (he, h1) = (then_iff e (n then i then d then s)).0 h in
          let (hn, h2) = (then_iff n (i then d then s)).0 h1 in
          let (hi, h3) = (then_iff i (d then s)).0 h2 in
          let (hd, hs) = (then_iff d s).0 h3 in
          let (exp, qe, le) = (expiration_iff now p).0 he in
          let (iat, qi) = issued_at-ok now client p hi in
          let (soon, since) = (issued_at_iff now iat client p small late qi).0 hi in
          (
            exp,
            iat,
            qe,
            le,
            (not_before_iff now p).0 hn,
            qi,
            soon,
            since,
            (denied_iff iat client p qi).0 hd,
            (scope_iff scope p).0 hs,
          )),
      λ (exp, iat, qe, le, hn, qi, soon, since, hd, hs). (then_iff e (n then i then d then s)).1 (
        (expiration_iff now p).1 (exp, qe, le),
        (then_iff n (i then d then s)).1 (
          (not_before_iff now p).1 hn,
          (then_iff i (d then s)).1 (
            (issued_at_iff now iat client p small late qi).1 (soon, since),
            (then_iff d s).1 ((denied_iff iat client p qi).1 hd, (scope_iff scope p).1 hs),
          ),
        ),
      ),
    )

check_denied-deny :
    (t iat : ℕ) (client : JwtClient) (p : BasePayload)
    → p.issued_at ≡ some iat
    → iat ≤ timestamp t
    → check_denied (deny t p.jwt_id client) p ≡ err denied
unfolding check_denied deny put
check_denied-deny t iat client p e le = ground (arith, same_self p.jwt_id)

check_denied-deny_other :
    (t : ℕ) (id : Text) (client : JwtClient) (p : BasePayload)
    → same_text id p.jwt_id ≡ false
    → check_denied (deny t id client) p ≡ check_denied client p
unfolding check_denied deny put
check_denied-deny_other t id client p f = ground arith

-- After its id is denied, a token that was issued until then is never valid, whatever the time and
-- the scope.
pub validate-deny :
    (t iat now : ℕ) (client : JwtClient) (scope : Option Text) (p : BasePayload)
    → p.issued_at ≡ some iat
    → iat ≤ timestamp t
    → validate now (deny t p.jwt_id client) scope p ≢ ok
unfolding validate
validate-deny t iat now client scope p e le h =
    let client' = deny t p.jwt_id client in
    let d : check_denied client' p ≡ err denied = check_denied-deny t iat client p e le in
    ground arith
