-- ===== src/Websocket/Guards.antt =====
-- application/src/server/websocket/jwt.rs: which messages come through the guard.
use ailes.Common.{
  ℕ, Bool, true, false, ◌&&◌, none, some, [], ◌==◌, if◌then◌else◌, ◌≡◌, ◌≢◌, refl, arith,
  Bool-cases, Option-cases, inl, inr,
}
use ailes.Common.Machine.{Uuid}
use ailes.Permissions.{has_permission, websocket_connect}
use ailes.Permissions.Users.{UserPermissionsMap}
use ailes.Remote.Jwt.{ok, validate}
use ailes.Websocket.{WebsocketJwtPayload, WebsocketMessage, Socket}
use ailes.Websocket.Jwt.{
  Env, Frame, text, binary, other, handled, websocket, accept, authenticate, admit, dispatch,
  handle_jwt, look_jwt, take_jwt, is_authentication, first_arg,
}

module _ {Override : Type 0} (server : Uuid) where
  -- A frame, at any time and with any denials and state, one of the listener's two steps, or a change
  -- of the users by others.
  pub data Step : Socket Override → Socket Override → Type 0 where
    receives :
        (s : Socket Override) (env : Env Override) (now later : ℕ) (frame : Frame)
        → env.server_uuid ≡ server
        → Step s (handle_jwt env now later frame s).0
    looks : (s : Socket Override) (now later : ℕ) → Step s (look_jwt now later s).0
    takes : (s : Socket Override) → Step s (take_jwt s)
    others :
        (s : Socket Override) (users : UserPermissionsMap Override)
        → Step s (record s { users = users })

  pub data Reach (users : UserPermissionsMap Override) : Socket Override → Type 0 where
    start : Reach users (record { socket_jwt = none; users = users; sent = [] })
    step : {s t : Socket Override} → Reach users s → Step s t → Reach users t

abbrev pub is_mine : Uuid → WebsocketJwtPayload → Bool
is_mine server p = (p.server_uuid == server) && has_permission p.permissions websocket_connect

-- The socket's token, if it has one, is for this server and may connect.
abbrev pub is_bound : {Override : Type 0} → Uuid → Socket Override → Bool
is_bound server s = elim s.socket_jwt [ none ↦ true | some p ↦ is_mine server p ]

module _ {Override : Type 0} (server : Uuid) where
  jwt-accept :
      (env : Env Override) (now : ℕ) (p : WebsocketJwtPayload) (s : Socket Override)
      → (accept env now p s).0.socket_jwt
        ≡ (if is_mine env.server_uuid p then some p else s.socket_jwt)
  unfolding accept
  jwt-accept env now p s = ground arith

  bound-authenticate :
      (env : Env Override) (now later : ℕ) (m : WebsocketMessage) (s : Socket Override)
      → env.server_uuid ≡ server
      → is_bound server s ≡ true
      → is_bound server (authenticate env now later m s).0 ≡ true
  unfolding authenticate
  bound-authenticate env now later m s e h = elim (Option-cases (env.verify (first_arg m))) [
    | inl n ↦ ground (arith, n, h)
    | inr (p, q) ↦ ground (arith, q, h, e, jwt-accept env later p s)
  ]

  bound-dispatch :
      (env : Env Override) (now later : ℕ) (m : WebsocketMessage) (s : Socket Override)
      → env.server_uuid ≡ server
      → is_bound server s ≡ true
      → is_bound server (dispatch env now later m s).0 ≡ true
  unfolding dispatch
  bound-dispatch env now later m s e h = elim (Bool-cases (is_authentication m.event)) [
    | inl t ↦ rw (t, dispatch) (bound-authenticate env now later m s e h)
    | inr f ↦ rw (f, dispatch) h
  ]

  bound-handle :
      (env : Env Override) (now later : ℕ) (frame : Frame) (s : Socket Override)
      → env.server_uuid ≡ server
      → is_bound server s ≡ true
      → is_bound server (handle_jwt env now later frame s).0 ≡ true
  unfolding handle_jwt
  bound-handle env now later (text none) s e h = h
  bound-handle env now later (text (some m)) s e h = bound-dispatch env now later m s e h
  bound-handle env now later (binary none) s e h = h
  bound-handle env now later (binary (some m)) s e h = bound-dispatch env now later m s e h
  bound-handle env now later other s e h = h

  bound-look :
      (now later : ℕ) (s : Socket Override)
      → is_bound server s ≡ true
      → is_bound server (look_jwt now later s).0 ≡ true
  unfolding look_jwt
  bound-look now later s h = ground (arith, h)

  Reach_bound :
      (users : UserPermissionsMap Override) (s : Socket Override)
      → Reach server users s
      → is_bound server s ≡ true
  Reach_bound users _ start = refl
  Reach_bound users _ (step {s = s} r (receives _ env now later frame e)) =
      bound-handle env now later frame s e (Reach_bound users s r)
  Reach_bound users _ (step {s = s} r (looks _ now later)) =
      bound-look now later s (Reach_bound users s r)
  Reach_bound users _ (step {s = s} r (takes _)) = refl
  Reach_bound users _ (step {s = s} r (others _ us)) = Reach_bound users s r

  admit-handled :
      (env : Env Override) (now : ℕ) (m m' : WebsocketMessage) (s : Socket Override)
      → admit env now m s ≡ handled (some m')
      → (p : WebsocketJwtPayload) × (s.socket_jwt ≡ some p)
        × (validate now env.client (some websocket) p.base ≡ ok)
        × (m ≡ m')
  unfolding admit
  admit-handled env now m m' s h = elim (Option-cases s.socket_jwt) [
    | inl n ↦ absurd (ground (arith, n))
    | inr (p, q) ↦ (p, q, ground (arith, q), ground (arith, q))
  ]

  accept-quiet :
      (env : Env Override) (now : ℕ) (p : WebsocketJwtPayload) (m : WebsocketMessage)
      (s : Socket Override)
      → (accept env now p s).1 ≢ handled (some m)
  unfolding accept
  accept-quiet env now p m s = ground arith

  authenticate-quiet :
      (env : Env Override) (now later : ℕ) (m m' : WebsocketMessage) (s : Socket Override)
      → (authenticate env now later m s).1 ≢ handled (some m')
  unfolding authenticate
  authenticate-quiet env now later m m' s = elim (Option-cases (env.verify (first_arg m))) [
    | inl n ↦ ground (arith, n)
    | inr (p, q) ↦ ground (arith, q, accept-quiet env later p m' s)
  ]

  -- What a message that comes through rests on.
  abbrev pub IsGuarded :
      Env Override → ℕ → WebsocketMessage → Socket Override → Socket Override → Type 0
  IsGuarded env now m s s' =
      (p : WebsocketJwtPayload) × (s.socket_jwt ≡ some p)
      × (validate now env.client (some websocket) p.base ≡ ok)
      × (is_authentication m.event ≡ false)
      × (s' ≡ s)

  dispatch-IsGuarded :
      (env : Env Override) (now later : ℕ) (m m' : WebsocketMessage) (s : Socket Override)
      → (dispatch env now later m s).1 ≡ handled (some m')
      → IsGuarded env now m' s (dispatch env now later m s).0
  unfolding dispatch
  dispatch-IsGuarded env now later m m' s h = elim (Bool-cases (is_authentication m.event)) [
    | inl t ↦ absurd (authenticate-quiet env now later m m' s (ground (arith, t, h)))
    | inr f ↦
        let (p, q, v, same) = admit-handled env now m m' s (ground (arith, f, h)) in
        rw (f, dispatch) (p, q, v, ground (arith, same, f), refl)
  ]

  handle_jwt-handled :
      (env : Env Override) (now later : ℕ) (frame : Frame) (m : WebsocketMessage)
      (s : Socket Override)
      → (handle_jwt env now later frame s).1 ≡ handled (some m)
      → IsGuarded env now m s (handle_jwt env now later frame s).0
  unfolding handle_jwt
  handle_jwt-handled env now later (text none) m s h = absurd (ground (arith, h))
  handle_jwt-handled env now later (text (some m')) m s h =
      dispatch-IsGuarded env now later m' m s h
  handle_jwt-handled env now later (binary none) m s h = absurd (ground (arith, h))
  handle_jwt-handled env now later (binary (some m')) m s h =
      dispatch-IsGuarded env now later m' m s h
  handle_jwt-handled env now later other m s h = absurd (ground (arith, h))

  -- A message that comes through the guard, in any state that a socket of this server can reach by
  -- frames, the listener's steps and changes by others, is no authentication; the socket holds a token
  -- that is valid at that moment for the websocket, names this server and may connect; and the
  -- message changes nothing of the socket.
  pub handle_jwt-reachable :
      (users : UserPermissionsMap Override) (env : Env Override) (now later : ℕ) (frame : Frame)
      (m : WebsocketMessage) (s : Socket Override)
      → Reach server users s
      → (handle_jwt env now later frame s).1 ≡ handled (some m)
      → (p : WebsocketJwtPayload) × (s.socket_jwt ≡ some p)
        × (is_mine server p ≡ true)
        × (validate now env.client (some websocket) p.base ≡ ok)
        × (is_authentication m.event ≡ false)
        × ((handle_jwt env now later frame s).0 ≡ s)
  handle_jwt-reachable users env now later frame m s r h =
      let (p, q, v, f, same) = handle_jwt-handled env now later frame m s h in
      (p, q, ground (arith, q, Reach_bound users s r), v, f, same)
