-- ===== src/Remote/Jwt/Runs.antt =====
-- Concrete tokens: the properties at inputs where their conditions hold.
use ailes.Common.{ℕ, suc, ◌+◌, ◌*◌, ◌↔◌, none, some, [], ◌∷◌, ◌≡◌, refl, arith}
use ailes.Common.Text.{split, trim, trim_start, text_key}
use ailes.Common.Machine.{second}
use ailes.Common.Names.{name_cmp}
use ailes.Common.Dict.{put}
use ailes.Remote.Jwt.{
  BasePayload, JwtClient, ok, new, validate, check_denied, deny, cleanup, hour, look, enter,
  claim_use, check_expiration, check_not_before, check_issued_at, check_scope,
}
use ailes.Remote.Jwt.Validity.{IsValid, validate_iff}
use ailes.Remote.Jwt.Expiry.{validate-cleanup}
use ailes.Remote.Jwt.Uses.{
  World, Granted, initial, Reach, start, step, misses, enters, settle, Reach-Granted,
}

abbrev boot : ℕ
boot = 100 * second

abbrev client0 : JwtClient
client0 = new boot 1

-- Of the id 9 and the scopes 8 and 7, issued at 150 and good until 9000.
abbrev token : BasePayload
token = record {
  scope = 8 ∷ 44 ∷ 32 ∷ 7 ∷ [];
  issuer = [];
  subject = none;
  audience = [];
  expiration_time = some 9000;
  not_before = none;
  issued_at = some 150;
  jwt_id = 9 ∷ [];
}

abbrev now0 : ℕ
now0 = 200 * second

token-valid : validate now0 client0 (some (7 ∷ [])) token ≡ ok
unfolding validate new check_expiration check_not_before check_issued_at check_denied check_scope
    split trim trim_start name_cmp
token-valid = refl

validate_iff_example :
    (validate now0 client0 (some (7 ∷ [])) token ≡ ok) ↔ IsValid now0 client0 (some (7 ∷ [])) token
unfolding new
validate_iff_example = validate_iff now0 client0 (some (7 ∷ [])) token (ground arith) (ground arith)

validate-cleanup_example :
    validate (now0 + hour) (cleanup (now0 + hour) (deny now0 (9 ∷ []) client0)) none token
    ≡ validate (now0 + hour) client0 none token
unfolding new
validate-cleanup_example =
    validate-cleanup now0 (now0 + hour) (now0 + hour) client0 none token (ground arith) refl

-- Two tasks miss the token, and both enter it: the first is granted, the second refused.
abbrev missed : World → World
missed w = record w { client = (look (9 ∷ []) w.client).0; waiting = suc w.waiting }

abbrev entered : ℕ → World → World
entered n w =
    settle (enter now0 (9 ∷ []) w.client).1
      (record w { client = (enter now0 (9 ∷ []) w.client).0; waiting = n })

abbrev both : World
both = missed (missed (initial boot 1))

Reach-both : Reach (9 ∷ []) boot 1 (entered 0 (entered 1 both))
unfolding new look enter put claim_use
Reach-both =
    step
      (step
        (step (step start (misses (initial boot 1) refl)) (misses (missed (initial boot 1)) refl))
        (enters both now0 1 refl))
      (enters (entered 1 both) now0 0 refl)

Reach-Granted_example : Granted 1 (entered 0 (entered 1 both))
Reach-Granted_example =
    Reach-Granted (9 ∷ []) boot 1 (entered 0 (entered 1 both)) (ground arith) Reach-both
