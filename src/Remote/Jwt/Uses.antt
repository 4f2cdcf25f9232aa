-- ===== src/Remote/Jwt/Uses.antt =====
-- application/src/remote/jwt.rs: how many uses of one token are granted to any number of tasks,
-- whose calls of `limited_jwt_id` run between each other's two steps.
use ailes.Common.{
  ℕ, suc, ◌≤◌, Bool, true, false, Option, none, some, ◌≡◌, ◌≢◌, ◌⊎◌, inl, refl, arith,
}
use ailes.Common.Text.{Text, same_text, text_key}
use ailes.Common.Dict.{put, same_self}
use ailes.Remote.Jwt.{JwtClient, new, look, enter, claim_use, cleanup, deny}

-- The client, and for the one token: the uses that were granted, those that were refused, and the
-- tasks that did not find it and will enter it.
pub record World : Type 0 where
  pub client : JwtClient
  pub granted : ℕ
  pub refused : ℕ
  pub waiting : ℕ

abbrev pub settle : Bool → World → World
settle true w = record w { granted = suc w.granted }
settle false w = record w { refused = suc w.refused }

-- A cleanup is a step as long as it does not forget the token.
pub data Step (id : Text) : World → World → Type 0 where
  finds :
      (w : World) (answer : Bool)
      → (look id w.client).1 ≡ some answer
      → Step id w (settle answer (record w { client = (look id w.client).0 }))
  misses :
      (w : World)
      → (look id w.client).1 ≡ none
      → Step id w (record w { client = (look id w.client).0; waiting = suc w.waiting })
  enters :
      (w : World) (now n : ℕ)
      → w.waiting ≡ suc n
      → Step id w (
          settle
            (enter now id w.client).1
            (record w { client = (enter now id w.client).0; waiting = n }))
  other_looks :
      (w : World) (other : Text)
      → same_text other id ≡ false
      → Step id w (record w { client = (look other w.client).0 })
  other_enters :
      (w : World) (now : ℕ) (other : Text)
      → same_text other id ≡ false
      → Step id w (record w { client = (enter now other w.client).0 })
  tidies :
      (w : World) (now : ℕ)
      → (cleanup now w.client).seen_jtoken_ids id ≡ w.client.seen_jtoken_ids id
      → Step id w (record w { client = cleanup now w.client })
  denies :
      (w : World) (now : ℕ) (other : Text)
      → Step id w (record w { client = deny now other w.client })

abbrev pub initial : ℕ → ℕ → World
initial now max_jwt_uses = record {
  client = new now max_jwt_uses;
  granted = 0;
  refused = 0;
  waiting = 0;
}

pub data Reach (id : Text) (now max_jwt_uses : ℕ) : World → Type 0 where
  start : Reach id now max_jwt_uses (initial now max_jwt_uses)
  step : {w v : World} → Reach id now max_jwt_uses w → Step id w v → Reach id now max_jwt_uses v

abbrev uses : Option (ℕ × ℕ) → ℕ
uses none = 0
uses (some entry) = entry.0

-- What is granted is what is counted, within the limit; a use is refused only at the limit.
abbrev pub Granted : ℕ → World → Type 0
Granted max_jwt_uses w = (w.granted ≤ max_jwt_uses) × ((w.refused ≡ 0) ⊎ (w.granted ≡ max_jwt_uses))

abbrev pub Counted : Text → ℕ → World → Type 0
Counted id max_jwt_uses w =
    (uses (w.client.seen_jtoken_ids id) ≡ w.granted)
    × (w.client.max_jwt_uses ≡ max_jwt_uses)
    × Granted max_jwt_uses w

module _ (id : Text) (max_jwt_uses : ℕ) (h : max_jwt_uses ≢ 0) where
  finds-Counted :
      (w : World) (answer : Bool)
      → (look id w.client).1 ≡ some answer
      → Counted id max_jwt_uses w
      → Counted id max_jwt_uses (settle answer (record w { client = (look id w.client).0 }))
  unfolding look claim_use put
  finds-Counted w answer e c = ground (arith, same_self id)

  enters-Counted :
      (w : World) (now n : ℕ)
      → Counted id max_jwt_uses w
      → Counted id max_jwt_uses (
          settle
            (enter now id w.client).1
            (record w { client = (enter now id w.client).0; waiting = n }))
  unfolding enter claim_use put
  enters-Counted w now n c = ground (arith, same_self id)

  seen-look :
      (other : Text) (c : JwtClient)
      → same_text other id ≡ false
      → ((look other c).0.seen_jtoken_ids id ≡ c.seen_jtoken_ids id)
        × ((look other c).0.max_jwt_uses ≡ c.max_jwt_uses)
  unfolding look claim_use put
  seen-look other c f = ground arith

  seen-miss :
      (c : JwtClient)
      → (look id c).1 ≡ none
      → ((look id c).0.seen_jtoken_ids id ≡ c.seen_jtoken_ids id)
        × ((look id c).0.max_jwt_uses ≡ c.max_jwt_uses)
  unfolding look claim_use put
  seen-miss c f = ground arith

  seen-enter :
      (now : ℕ) (other : Text) (c : JwtClient)
      → same_text other id ≡ false
      → ((enter now other c).0.seen_jtoken_ids id ≡ c.seen_jtoken_ids id)
        × ((enter now other c).0.max_jwt_uses ≡ c.max_jwt_uses)
  unfolding enter claim_use put
  seen-enter now other c f = ground arith

  Step-Counted : {w v : World} → Step id w v → Counted id max_jwt_uses w → Counted id max_jwt_uses v
  unfolding cleanup deny
  Step-Counted (finds w answer e) c = finds-Counted w answer e c
  Step-Counted (misses w e) c = ground (arith, seen-miss w.client e)
  Step-Counted (enters w now n e) c = enters-Counted w now n c
  Step-Counted (other_looks w other f) c = ground (arith, seen-look other w.client f)
  Step-Counted (other_enters w now other f) c = ground (arith, seen-enter now other w.client f)
  Step-Counted (tidies w now e) c = ground (arith, e)
  Step-Counted (denies w now other) c = ground arith

Reach-Counted :
    (id : Text) (now max_jwt_uses : ℕ) (w : World)
    → max_jwt_uses ≢ 0
    → Reach id now max_jwt_uses w
    → Counted id max_jwt_uses w
unfolding new
Reach-Counted id now max_jwt_uses _ h start = (refl, refl, (ground arith, inl refl))
Reach-Counted id now max_jwt_uses _ h (step {w = w} r s) =
    Step-Counted id max_jwt_uses h s (Reach-Counted id now max_jwt_uses w h r)

-- With a limit set, at most that many uses of a token are granted, and one is refused only when all
-- are, in every interleaving of calls for any tokens, as long as no cleanup forgets the token.
pub Reach-Granted :
    (id : Text) (now max_jwt_uses : ℕ) (w : World)
    → max_jwt_uses ≢ 0
    → Reach id now max_jwt_uses w
    → Granted max_jwt_uses w
Reach-Granted id now max_jwt_uses w h r = ground (arith, Reach-Counted id now max_jwt_uses w h r)
