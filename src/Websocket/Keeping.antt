-- ===== src/Websocket/Keeping.antt =====
-- application/src/server/websocket/message_handler.rs: what a part of `handle_message` keeps if both of
-- its ends keep it.
use ailes.Common.{Bool, true, false, Option, none, some, ◌≡◌, refl, if◌then◌else◌}
use ailes.Remote.Jwt
use ailes.Remote.Jwt.{Validated}
use ailes.Websocket.{WebsocketJwtPayload}
use ailes.Websocket.Messages.{Failure, Handling, Handles, get_jwt, on_result, on_valid}

module _ {Override : Type 0} (Kept : Handling Override → Type 0) where
  pub get_jwt-keeps :
      (o : Option WebsocketJwtPayload) (h : Handling Override)
      (k : WebsocketJwtPayload → Handles Override)
      → Kept h
      → ((jwt : WebsocketJwtPayload) → o ≡ some jwt → Kept (k jwt).0)
      → Kept (get_jwt o h k).0
  get_jwt-keeps none h k before next = before
  get_jwt-keeps (some jwt) h k before next = next jwt refl

  pub if-keeps :
      (c : Bool) (x y : Handles Override)
      → (c ≡ true → Kept x.0)
      → (c ≡ false → Kept y.0)
      → Kept (if c then x else y).0
  if-keeps true x y p q = p refl
  if-keeps false x y p q = q refl

  pub on_result-keeps :
      (o : Option Failure) (failed : Failure → Handles Override) (worked : Handles Override)
      → ((f : Failure) → o ≡ some f → Kept (failed f).0)
      → (o ≡ none → Kept worked.0)
      → Kept (on_result o failed worked).0
  on_result-keeps none failed worked p q = q refl
  on_result-keeps (some f) failed worked p q = p f refl

  pub on_valid-keeps :
      (v : Validated) (h : Handling Override) (k : Handles Override)
      → Kept h
      → (v ≡ Jwt.ok → Kept k.0)
      → Kept (on_valid v h k).0
  on_valid-keeps Jwt.ok h k before next = next refl
  on_valid-keeps (Jwt.err e) h k before next = before
