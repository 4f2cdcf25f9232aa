-- ===== src/Websocket/Audit/Balance.antt =====
-- application/src/server/websocket/message_handler.rs: the balance of what worked and what was logged, in
-- the parts that the handlers share.
use ailes.Common.{
  ℕ, ◌+◌, Option, none, some, List, [], ◌∷◌, ◌++◌, ◌≡◌, refl, sym, arith, if◌then◌else◌,
}
use ailes.Websocket.{WebsocketJwtPayload}
use ailes.Websocket.Keeping.{on_result-keeps}
use ailes.Websocket.Messages.{
  CollabCall, save, collab, logged_write, PowerCall, ActivityEvent, Effect, power, stdin, logged,
  Failure, user, internal, Env, Handling, done, get_jwt, emit, send_error, send_admin_error,
  send_failure, log_activity, act,
}
use Prim.Native.String.{String}
use mathlib.Core.Path.{subst}

abbrev pub total : (Effect → ℕ) → List Effect → ℕ
total f [] = 0
total f (e ∷ es) = f e + total f es

total-append : (f : Effect → ℕ) (xs ys : List Effect) → total f (xs ++ ys) ≡ total f xs + total f ys
total-append f [] ys = omega arith
total-append f (x ∷ xs) ys = omega (arith, total-append f xs ys)

abbrev pub is_ok : Option Failure → ℕ
is_ok none = 1
is_ok (some failure) = 0

-- An editing call that wrote a file.
abbrev pub saved : Env → CollabCall → ℕ
saved env (save uuid path force expected_hash) =
    if env.writes_file (save uuid path force expected_hash)
    then is_ok (env.collab_result (save uuid path force expected_hash))
    else 0
saved env _ = 0

-- A power action, a console command or a save that worked.
abbrev pub succeeded : Env → Effect → ℕ
succeeded env (power call) = is_ok (env.power_result call)
succeeded env (stdin command) = if env.stdin_works then 1 else 0
succeeded env (collab call) = saved env call
succeeded env _ = 0

abbrev pub activity : Effect → ℕ
activity (logged _ _ _) = 1
activity (logged_write _) = 1
activity _ = 0

module _ {Override : Type 0} (env : Env) where
  -- Everything that worked was logged.
  abbrev pub Balanced : Handling Override → Type 0
  Balanced h = total (succeeded env) h.effects ≡ total activity h.effects

  pub emit-total :
      (f : Effect → ℕ) (e : Effect) (h : Handling Override)
      → total f (emit e h).effects ≡ total f h.effects + f e
  emit-total f e h = omega (arith, total-append f h.effects (e ∷ []))

  pub emit-Balanced :
      (e : Effect) (h : Handling Override)
      → succeeded env e ≡ activity e
      → Balanced h
      → Balanced (emit e h)
  emit-Balanced e h same before =
      omega (arith, emit-total (succeeded env) e h, emit-total activity e h)

  pub send_error-Balanced :
      (m : String) (h : Handling Override) → Balanced h → Balanced (send_error env m h)
  unfolding send_error
  send_error-Balanced m h before = emit-Balanced _ h refl before

  pub send_failure-Balanced :
      (f : Failure) (h : Handling Override) → Balanced h → Balanced (send_failure env f h)
  unfolding send_failure send_admin_error
  send_failure-Balanced (user m) h before = send_error-Balanced m h before
  send_failure-Balanced (internal m) h before = send_error-Balanced _ h before

  module _ (jwt : WebsocketJwtPayload) (there : env.socket_jwt_later ≡ some jwt) where
    -- An effect that worked, and its activity.
    pub log_activity-Balanced :
        (e : Effect) (event : ActivityEvent) (command : Option String) (h : Handling Override)
        → succeeded env e ≡ 1
        → activity e ≡ 0
        → Balanced h
        → Balanced (log_activity env event command (emit e h)).0
    unfolding log_activity
    log_activity-Balanced e event command h worked silent before =
        let called = emit e h in
        let record_of : WebsocketJwtPayload → Effect = λ j. logged event j.user_uuid command in
        subst (λ o. Balanced (get_jwt o called (λ j. done (emit (record_of j) called))).0)
          (sym there)
          (omega (
            arith,
            emit-total (succeeded env) e h,
            emit-total activity e h,
            emit-total (succeeded env) (record_of jwt) called,
            emit-total activity (record_of jwt) called,
          ))

    pub act-Balanced :
        (call : PowerCall) (event : ActivityEvent) (h : Handling Override)
        → Balanced h
        → Balanced (act env call event h).0
    unfolding act
    act-Balanced call event h before =
        on_result-keeps Balanced (env.power_result call) _ _
          (λ f failed.
            send_failure-Balanced f _ (emit-Balanced (power call) h (ground arith) before))
          (λ worked. log_activity-Balanced (power call) event none h (ground arith) refl before)
