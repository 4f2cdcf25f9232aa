-- ===== src/Remote/Jwt.antt =====
-- application/src/remote/jwt.rs: the validation of a token's claims, the tokens that were denied, and
-- how often a token may be used. Signatures are the `jsonwebtoken` crate's and not modelled. An `i64`
-- is its distance from the smallest `i64`, and a `DateTime` counts the nanoseconds from that second.
pub mod Validity
pub mod Uses
pub mod Expiry
mod Runs
use ailes.Common.{
  ℕ, suc, ◌+◌, ◌-◌, ◌/◌, ◌*◌, Bool, true, false, not, ◌&&◌, ◌||◌, Option, none, some, List, [], ◌∷◌,
  ltb, leb, ◌==◌, if◌then◌else◌,
}
use ailes.Common.Text.{Text, text_key, same_text, split, trim, all}
use ailes.Common.Machine.{second, word}
use ailes.Common.Dict.{Dict, empty, insert, retain}

pub data JwtValidateError : Type 0 where
  expired not_yet_valid invalid_issued_at denied : JwtValidateError

pub data Validated : Type 0 where
  ok : Validated
  err : JwtValidateError → Validated

pub record BasePayload : Type 0 where
  pub scope : Text
  pub issuer : Text
  pub subject : Option Text
  pub audience : List Text
  pub expiration_time : Option ℕ
  pub not_before : Option ℕ
  pub issued_at : Option ℕ
  pub jwt_id : Text

pub record JwtClient : Type 0 where
  pub boot_time : ℕ
  pub max_jwt_uses : ℕ
  pub denied_jtokens : Dict Text ℕ
  -- The uses, and when the first was.
  pub seen_jtoken_ids : Dict Text (ℕ × ℕ)

unfoldable pub new : ℕ → ℕ → JwtClient
new now max_jwt_uses = record {
  boot_time = now;
  max_jwt_uses = max_jwt_uses;
  denied_jtokens = empty;
  seen_jtoken_ids = empty;
}

-- `DateTime::timestamp`: whole seconds.
abbrev pub timestamp : ℕ → ℕ
timestamp t = t / second

-- `iat - 5` in two's complement.
abbrev pub minus_5 : ℕ → ℕ
minus_5 iat = if ltb iat 5 then iat + word - 5 else iat - 5

abbrev comma : ℕ
comma = 44

unfoldable pub check_expiration : ℕ → BasePayload → Validated
check_expiration now p = elim p.expiration_time [
  | none ↦ err expired
  | some exp ↦ if ltb exp (timestamp now) then err expired else ok
]

unfoldable pub check_not_before : ℕ → BasePayload → Validated
check_not_before now p = elim p.not_before [
  | none ↦ ok
  | some nbf ↦ if ltb (timestamp now) nbf then err not_yet_valid else ok
]

unfoldable pub check_issued_at : ℕ → JwtClient → BasePayload → Validated
check_issued_at now client p = elim p.issued_at [
  | none ↦ err invalid_issued_at
  | some iat ↦
      if ltb (timestamp now) (minus_5 iat) || ltb iat (timestamp client.boot_time)
      then err invalid_issued_at
      else ok
]

unfoldable pub check_denied : JwtClient → BasePayload → Validated
check_denied client p = elim (client.denied_jtokens p.jwt_id) [
  | none ↦ ok
  | some expired_until ↦ elim p.issued_at [
    | none ↦ ok
    | some issued ↦ if leb issued (timestamp expired_until) then err denied else ok
  ]
]

unfoldable pub check_scope : Option Text → BasePayload → Validated
check_scope none p = ok
check_scope (some scope) p =
    if all (λ s. not (same_text (trim s) scope)) (split comma p.scope) then err denied else ok

infixr 30 ◌then◌
abbrev pub ◌then◌ : Validated → Validated → Validated
ok then next = next
err e then next = err e

-- The checks in their order; the first that fails is the answer.
unfoldable pub validate : ℕ → JwtClient → Option Text → BasePayload → Validated
validate now client scope p =
    check_expiration now p
    then check_not_before now p
    then check_issued_at now client p
    then check_denied client p
    then check_scope scope p

abbrev pub hour : ℕ
hour = 3600 * second

-- The task's round: `x > now - 1h` is written without a difference.
unfoldable pub cleanup : ℕ → JwtClient → JwtClient
cleanup now c = record c {
  denied_jtokens = retain (λ expiration. ltb now (expiration + hour)) c.denied_jtokens;
  seen_jtoken_ids = retain (λ entry. ltb now (entry.1 + hour)) c.seen_jtoken_ids;
}

unfoldable pub deny : ℕ → Text → JwtClient → JwtClient
deny now id c = record c { denied_jtokens = insert id now c.denied_jtokens }

-- `fetch_update` of the entry's counter, in one step.
unfoldable pub claim_use : Text → ℕ × ℕ → JwtClient → JwtClient × Bool
claim_use id (count, at) c =
    if ltb count c.max_jwt_uses
    then (record c { seen_jtoken_ids = insert id (suc count, at) c.seen_jtoken_ids }, true)
    else (c, false)

-- Under the read lock: the answer, or none if the token was not seen.
unfoldable pub look : Text → JwtClient → JwtClient × Option Bool
look id c = if c.max_jwt_uses == 0 then (c, some true) else elim (c.seen_jtoken_ids id) [
  | none ↦ (c, none)
  | some entry ↦ let (c', answer) = claim_use id entry c in (c', some answer)
]

-- Under the write lock, which is taken after the read lock was given back.
unfoldable pub enter : ℕ → Text → JwtClient → JwtClient × Bool
enter now id c = elim (c.seen_jtoken_ids id) [
  | none ↦ (record c { seen_jtoken_ids = insert id (1, now) c.seen_jtoken_ids }, true)
  | some entry ↦ claim_use id entry c
]

-- The whole call without interruption; module Uses has its steps between those of others.
unfoldable pub limited_jwt_id : ℕ → Text → JwtClient → JwtClient × Bool
limited_jwt_id now id c =
    let (c', answer) = look id c in
    elim answer [ none ↦ enter now id c' | some granted ↦ (c', granted) ]
