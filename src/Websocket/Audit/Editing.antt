-- ===== src/Websocket/Audit/Editing.antt =====
-- application/src/server/websocket/message_handler.rs: the balance after a call of the collaborative editing.
use ailes.Common.{arith, ◌≡◌, ℕ, Option, none, some, List, [], ◌∷◌, refl, not}
use ailes.Permissions.Users.{user_has_permission}
use ailes.Remote.Jwt.{validate}
use ailes.Websocket.{WebsocketEvent}
use ailes.Websocket.Jwt.{websocket}
use ailes.Websocket.Keeping.{get_jwt-keeps, if-keeps, on_result-keeps, on_valid-keeps}
use ailes.Websocket.Messages.{
  save, subscribe, unsubscribe, reload, apply_update, relay_awareness, logged_write, log_save,
  CollabCall, collab, Failure, user, internal, Env, Handling, emit, collab_failure, run_collab,
  contains_server, check_permission, collab_permission, handle_collab,
}
use Prim.Native.String.{String}
use ailes.Websocket.Audit.Balance.{saved, succeeded, activity, emit-total, Balanced, emit-Balanced}

unsaved :
    (env : Env) (c : CollabCall) (f : Failure) → env.collab_result c ≡ some f → saved env c ≡ 0
unsaved env (save uuid path force expected_hash) f failed = ground (arith, failed)
unsaved env (subscribe _ _ _ _) f failed = refl
unsaved env (unsubscribe _) f failed = refl
unsaved env (reload _) f failed = refl
unsaved env (apply_update _ _ _) f failed = refl
unsaved env (relay_awareness _ _) f failed = refl

module _ {Override : Type 0} (env : Env) where
  log_save-Balanced :
      (c : CollabCall) (h : Handling Override)
      → env.collab_result c ≡ none
      → Balanced env h
      → Balanced env (log_save env c (emit (collab c) h))
  unfolding log_save
  log_save-Balanced (save uuid path force expected_hash) h worked before =
      let c = save uuid path force expected_hash in
      ground (
        arith,
        worked,
        emit-total env (succeeded env) (collab c) h,
        emit-total env activity (collab c) h,
        emit-total env (succeeded env) (logged_write uuid) (emit (collab c) h),
        emit-total env activity (logged_write uuid) (emit (collab c) h),
      )
  log_save-Balanced (subscribe a b c d) h worked before = emit-Balanced env _ h refl before
  log_save-Balanced (unsubscribe a) h worked before = emit-Balanced env _ h refl before
  log_save-Balanced (reload a) h worked before = emit-Balanced env _ h refl before
  log_save-Balanced (apply_update a b c) h worked before = emit-Balanced env _ h refl before
  log_save-Balanced (relay_awareness a b) h worked before = emit-Balanced env _ h refl before

  run_collab-Balanced :
      (path : String) (call : Option CollabCall) (h : Handling Override)
      → Balanced env h
      → Balanced env (run_collab env path call h).0
  unfolding run_collab
  run_collab-Balanced path none h before = before
  run_collab-Balanced path (some c) h before =
      on_result-keeps (Balanced env) (env.collab_result c) _ _
        (λ f failed.
          collab_failure-Balanced (emit (collab c) h) f
            (emit-Balanced env (collab c) h (unsaved env c f failed) before))
        (λ worked. log_save-Balanced c h worked before)
    where
      collab_failure-Balanced :
          (g : Handling Override) (f : Failure)
          → Balanced env g
          → Balanced env (collab_failure path g f).0
      collab_failure-Balanced g (user m) before = emit-Balanced env _ g refl before
      collab_failure-Balanced g (internal m) before = emit-Balanced env _ g refl before

  pub handle_collab-Balanced :
      (now : ℕ) (event : WebsocketEvent) (args : List String) (h : Handling Override)
      → Balanced env h
      → Balanced env (handle_collab env now event args h).0
  unfolding handle_collab check_permission
  handle_collab-Balanced now event [] h before = before
  handle_collab-Balanced now event (path ∷ args) h before =
      get_jwt-keeps (Balanced env) env.socket_jwt h _ before (λ jwt _.
        get_jwt-keeps (Balanced env) env.socket_jwt_later h _ before (λ again _.
          on_valid-keeps (Balanced env) (validate now env.client (some websocket) again.base) h _
            before
            (λ _.
              if-keeps (Balanced env) (contains_server env.servers again.server_uuid) _ _
                (λ _.
                  if-keeps (Balanced env)
                    (not
                      (user_has_permission now again.user_uuid (collab_permission event) h.users).1)
                    _ _ (λ _. emit-Balanced env _ h refl before)
                    (λ _. run_collab-Balanced path _ _ before))
                (λ _. before))))
