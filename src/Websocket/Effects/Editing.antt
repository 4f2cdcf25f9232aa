-- ===== src/Websocket/Effects/Editing.antt =====
-- application/src/server/websocket/message_handler.rs: what the calls of the collaborative editing rest on.
use ailes.Common.{
  Bool, Bool-cases, inl, inr, ℕ, Option, none, some, List, [], ◌∷◌, ◌≡◌, refl, sym, ap, ◌∙◌, arith,
  not,
}
use ailes.Permissions.{Permission}
use ailes.Permissions.Users.{UserPermissionsMap, user_has_permission}
use ailes.Remote.Jwt.{validate}
use ailes.Websocket.{
  WebsocketJwtPayload, WebsocketEvent, file_collab_update, file_collab_awareness, file_collab_save,
}
use ailes.Websocket.Jwt.{websocket}
use ailes.Websocket.Keeping.{get_jwt-keeps, if-keeps, on_result-keeps, on_valid-keeps}
use ailes.Websocket.Messages.{
  CollabCall, collab, Failure, user, internal, Env, Handling, contains_server, collab_failure,
  collab_call, run_collab, check_permission, collab_permission, handle_collab,
}
use Prim.Native.String.{String}
use mathlib.Core.Path.{subst}
use ailes.Common.Machine.{Uuid}
use ailes.Websocket.Messages.{
  save, subscribe, unsubscribe, reload, apply_update, relay_awareness, logged_write, log_save,
}
use ailes.Websocket.Effects.Rules.{needed, IsUser, needed, MayEdit, AllAllowed, emit-Allowed}

module _ {Override : Type 0} (env : Env) (now : ℕ) (users : UserPermissionsMap Override) where
  log_save-Allowed :
      (c : CollabCall) (h : Handling Override)
      → AllAllowed env now users h
      → MayEdit env now users (needed c)
      → ((uuid : Uuid) (path : String) (force : Bool) (expected_hash : Option String)
          → c ≡ save uuid path force expected_hash
          → IsUser env now users uuid)
      → AllAllowed env now users (log_save env c h)
  unfolding log_save
  log_save-Allowed (save uuid path force expected_hash) h before may asks =
      elim (Bool-cases (env.writes_file (save uuid path force expected_hash))) [
        | inl w ↦ rw w (
            emit-Allowed env now users (logged_write uuid) h before
              (may, asks uuid path force expected_hash refl))
        | inr w ↦ rw w before
      ]
  log_save-Allowed (subscribe _ _ _ _) h before may asks = before
  log_save-Allowed (unsubscribe _) h before may asks = before
  log_save-Allowed (reload _) h before may asks = before
  log_save-Allowed (apply_update _ _ _) h before may asks = before
  log_save-Allowed (relay_awareness _ _) h before may asks = before

  run_collab-Allowed :
      (path : String) (call : Option CollabCall) (permission : Permission) (h : Handling Override)
      → AllAllowed env now users h
      → MayEdit env now users permission
      → ((c : CollabCall) → call ≡ some c → needed c ≡ permission)
      → ((uuid : Uuid) (path : String) (force : Bool) (expected_hash : Option String)
          → call ≡ some (save uuid path force expected_hash)
          → IsUser env now users uuid)
      → AllAllowed env now users (run_collab env path call h).0
  unfolding run_collab
  run_collab-Allowed path none permission h before may fits asks = before
  run_collab-Allowed path (some c) permission h before may fits asks =
      let needs = subst (MayEdit env now users) (sym (fits c refl)) may in
      let called = emit-Allowed env now users (collab c) h before needs in
      on_result-keeps (AllAllowed env now users) (env.collab_result c) _ _
        (λ f _. collab_failure-Allowed path _ called f)
        (λ _.
          log_save-Allowed c _ called needs (λ u p force hash e. asks u p force hash (ap some e)))
    where
      collab_failure-Allowed :
          (path : String) (h : Handling Override)
          → AllAllowed env now users h
          → (f : Failure) → AllAllowed env now users (collab_failure path h f).0
      collab_failure-Allowed path h before (user m) = emit-Allowed env now users _ h before tt
      collab_failure-Allowed path h before (internal m) = emit-Allowed env now users _ h before tt

  collab_call-needed :
      (jwt : WebsocketJwtPayload) (event : WebsocketEvent) (path : String) (args : List String)
      (c : CollabCall)
      → collab_call env jwt event path args ≡ some c
      → needed c ≡ collab_permission event
  unfolding collab_call
  collab_call-needed jwt file_collab_update path args c e = ground arith
  collab_call-needed jwt file_collab_awareness path args c e = ground arith
  collab_call-needed jwt file_collab_save path args c e = ground arith
  collab_call-needed jwt event path args c e = ground arith

  collab_call-user :
      (jwt : WebsocketJwtPayload) (event : WebsocketEvent) (path : String) (args : List String)
      (uuid : Uuid) (at : String) (force : Bool) (expected_hash : Option String)
      → collab_call env jwt event path args ≡ some (save uuid at force expected_hash)
      → uuid ≡ jwt.user_uuid
  unfolding collab_call
  collab_call-user jwt file_collab_save path args uuid at force expected_hash e = ground arith
  collab_call-user jwt event path args uuid at force expected_hash e = ground arith

  pub handle_collab-Allowed :
      (event : WebsocketEvent) (args : List String) (h : Handling Override)
      → h.users ≡ users
      → AllAllowed env now users h
      → AllAllowed env now users (handle_collab env now event args h).0
  unfolding handle_collab check_permission
  handle_collab-Allowed event [] h same before = before
  handle_collab-Allowed event (path ∷ args) h same before =
      get_jwt-keeps (AllAllowed env now users) env.socket_jwt h _ before (λ jwt first.
        get_jwt-keeps (AllAllowed env now users) env.socket_jwt_later h _ before (λ again e.
          on_valid-keeps (AllAllowed env now users)
            (validate now env.client (some websocket) again.base) h _ before
            (λ valid.
              if-keeps (AllAllowed env now users) (contains_server env.servers again.server_uuid) _
                _
                (λ _.
                  if-keeps (AllAllowed env now users)
                    (not
                      (user_has_permission now again.user_uuid (collab_permission event) h.users).1)
                    _ _ (λ _. emit-Allowed env now users _ h before tt)
                    (λ right.
                      run_collab-Allowed path _ (collab_permission event) _ before
                        (
                          again,
                          e,
                          valid,
                          ap
                                (λ u.
                                  (user_has_permission now again.user_uuid (collab_permission event)
                                    u).1)
                                (sym same)
                              ∙ ground arith,
                        )
                        (collab_call-needed jwt event path (path ∷ args))
                        (λ u p force hash eq. (
                          jwt,
                          first,
                          collab_call-user jwt event path (path ∷ args) u p force hash eq,
                        ))))
                (λ _. before))))
