-- ===== src/Remote/Jwt/Expiry.antt =====
-- application/src/remote/jwt.rs: what the hourly cleanup forgets.
use ailes.Common.{ℕ, ◌+◌, ◌≤◌, ◌<◌, true, Option, none, some, ◌≡◌, refl, arith}
use ailes.Common.Text.{Text, text_key}
use ailes.Common.Dict.{put, same_self}
use ailes.Remote.Jwt.{
  BasePayload, JwtClient, err, denied, validate, check_issued_at, check_denied, deny, cleanup, hour,
  limited_jwt_id, look, enter, timestamp,
}

check_denied-forgotten :
    (t later : ℕ) (client : JwtClient) (p : BasePayload)
    → t + hour ≤ later
    → client.denied_jtokens p.jwt_id ≡ none
    → check_denied (cleanup later (deny t p.jwt_id client)) p ≡ check_denied client p
unfolding check_denied cleanup deny put
check_denied-forgotten t later client p old fresh = ground (arith, same_self p.jwt_id)

check_issued_at-cleanup :
    (t later now : ℕ) (client : JwtClient) (p : BasePayload)
    → check_issued_at now (cleanup later (deny t p.jwt_id client)) p ≡ check_issued_at now client p
unfolding check_issued_at cleanup deny
check_issued_at-cleanup t later now client p = refl

-- An hour after the denial of an id the cleanup forgets it: a token of that id is then answered as
-- if the id had never been denied, however long the token is valid.
pub validate-cleanup :
    (t later now : ℕ) (client : JwtClient) (scope : Option Text) (p : BasePayload)
    → t + hour ≤ later
    → client.denied_jtokens p.jwt_id ≡ none
    → validate now (cleanup later (deny t p.jwt_id client)) scope p ≡ validate now client scope p
unfolding validate
validate-cleanup t later now client scope p old fresh =
    let d = check_denied-forgotten t later client p old fresh in
    let i = check_issued_at-cleanup t later now client p in rw (d, i) refl

-- Within the hour the cleanup keeps it: a token that was issued until the denial stays denied.
pub check_denied-cleanup :
    (t iat later : ℕ) (client : JwtClient) (p : BasePayload)
    → later < t + hour
    → p.issued_at ≡ some iat
    → iat ≤ timestamp t
    → check_denied (cleanup later (deny t p.jwt_id client)) p ≡ err denied
unfolding check_denied cleanup deny put
check_denied-cleanup t iat later client p soon e le = ground (arith, same_self p.jwt_id)

-- A token whose uses are all claimed can be used again an hour after its first use.
pub limited_jwt_id-cleanup :
    (first count later now : ℕ) (id : Text) (client : JwtClient)
    → client.seen_jtoken_ids id ≡ some (count, first)
    → first + hour ≤ later
    → (limited_jwt_id now id (cleanup later client)).1 ≡ true
unfolding limited_jwt_id look enter cleanup
limited_jwt_id-cleanup first count later now id client e old = ground arith
