-- ===== src/HttpServer/Handlers.antt =====
-- The handlers that log in and out, and those that change the users. A handler of a session is given the
-- session and its user.
use srv_deployment.Prelude.{
  ℕ, ◌*◌, Bool, true, false, not, Option, none, some, [], ◌∷◌, ◌++◌, Text, codes, if◌then◌else◌,
  pos, Result, ok, err,
}
use srv_deployment.Auth.Limiter
use srv_deployment.Auth.Limiter.{allowed, success}
use srv_deployment.Auth.Sessions.{Session, create, revoke, revoke_user}
use srv_deployment.Exec.{◌>>=◌, ◌>>◌, pure, raise, gets, modify}
use srv_deployment.Operations.{status_succeeded, status_failed}
use srv_deployment.State.Document
use srv_deployment.State.Document.{User, Role, schema_version}
use srv_deployment.State.Store
use srv_deployment.State.Store.{ready, verify_credentials}
use srv_deployment.HttpServer.Guards.{valid_origin, valid_mutation, client_ip}
use srv_deployment.HttpServer.Request.{
  Request, Response, LoginRequest, ChangePasswordRequest, CreateUserRequest, BlockRequest,
  decode_json, PublicUser, public_user, error, health, readiness, version, logged_in, logged_out,
  password_changed, system_status, users, user, operations, events, summary, bundle, session_cookie,
  cleared, write_json, with_cookie,
}
use srv_deployment.HttpServer.Request
use srv_deployment.HttpServer.Server.{
  Server, Host, Moment, Handler, on_state, on_sessions, id, refuse, audit_event, begin_operation,
  finish_operation, current_session,
}

-- `if !test { ...; return }`
abbrev pub otherwise : Bool → Handler Unit → Handler Unit
otherwise true refused = pure tt
otherwise false refused = refused

-- `if err != nil { ...; return }`
abbrev pub value_or : {A : Type 0} → Option A → Handler Unit → Response → Handler A
value_or none failed refused = failed >>= λ _. raise refused
value_or (some a) failed refused = pure a

module _ (h : Host) (e : Moment) (r : Request) where
  abbrev pub forbidden : Response
  forbidden = refuse h e r 403 (codes "csrf_rejected") (codes "CSRF or origin validation failed")

  abbrev pub invalid_request : Response
  invalid_request = refuse h e r 400 (codes "invalid_request") (codes "Invalid JSON request")

  abbrev pub unauthenticated : Response
  unauthenticated =
      refuse h e r 401 (codes "authentication_required") (codes "Authentication required")

  abbrev pub decoded : {A : Type 0} → (Text → Option A) → Option A
  decoded first = decode_json h.bodies first r.body

  -- `login`, after the key is allowed.
  unfoldable pub log_in : (key target : Text) → LoginRequest → Handler Response
  log_in key target in_ = do
    checked ← gets (λ s. verify_credentials h.platform in_.username in_.password s.store)
    u ←
        value_or checked
          (modify (λ s. record s { limiter = Limiter.failure key e.failure_at s.limiter })
            >> audit_event h e r [] [] (codes "auth.login") target (codes "failed")
                (codes "invalid_credentials"))
          (refuse h e r 401 (codes "invalid_credentials") (codes "Invalid username or password"))
    modify (λ s. record s { limiter = success key s.limiter })
    made ← on_sessions (create h.platform u e.session_at e.token_bytes e.csrf_bytes)
    (token, session) ←
        value_or made
          (audit_event h e r u.username u.role (codes "auth.login") u.username (codes "failed")
            (codes "session_create_failed"))
          (refuse h e r 500 (codes "session_create_failed") (codes "Unable to create session"))
    audit_event h e r u.username u.role (codes "auth.login") u.username (codes "success") []
    pure (
        with_cookie (session_cookie token (pos (12 * 3600)))
          (write_json 200 (logged_in (public_user u) session.csrf)))

  unfoldable pub login : Handler Response
  login = do
    otherwise (valid_origin h.platform h.net r) (
        audit_event h e r [] [] (codes "auth.login") [] (codes "denied") (codes "origin_rejected")
        >> raise
            (refuse h e r 403 (codes "origin_rejected") (codes "Request origin is not allowed")))
    in_ ←
        value_or (decoded h.bodies.login)
          (audit_event h e r [] [] (codes "auth.login") [] (codes "failed")
            (codes "invalid_request"))
          invalid_request
    let target = h.platform.to_lower (h.platform.trim_space in_.username)
    let key = client_ip h.net r ++ b'|' ∷ target
    open_ ← (λ s.
        let (yes_, limiter) = allowed key e.allowed_at s.limiter in
        (ok yes_, record s { limiter = limiter }))
    otherwise open_ (
        audit_event h e r [] [] (codes "auth.login") target (codes "denied")
          (codes "auth_rate_limited")
        >> raise (
            refuse h e r 429 (codes "auth_rate_limited")
              (codes "Too many authentication attempts")))
    log_in key target in_

  unfoldable pub get_session : Handler Response
  get_session = do
    found ← current_session h e r
    (sess, u) ← value_or found (pure tt) unauthenticated
    pure (write_json 200 (logged_in (public_user u) sess.csrf))

  module _ (sess : Session) (u : User) where
    -- The check of CSRF, with the audit event of its failure.
    abbrev check_mutation : (action target : Text) → Handler Unit
    check_mutation action target = otherwise (valid_mutation h.platform h.net r sess) (
        audit_event h e r u.username u.role action target (codes "denied") (codes "csrf_rejected")
        >> raise forbidden)

    abbrev pub revoke_cookie : Option Text → Server → Server
    revoke_cookie none s = s
    revoke_cookie (some token) s = record s { sessions = revoke h.platform token s.sessions }

    unfoldable pub logout : Handler Response
    logout = do
      check_mutation (codes "auth.logout") u.username
      modify (revoke_cookie r.cookie)
      audit_event h e r u.username u.role (codes "auth.logout") u.username (codes "success") []
      pure (with_cookie cleared (write_json 200 logged_out))

    -- The end of an operation whose call of the store has failed.
    abbrev fail_operation :
        {A : Type 0} → (kind target code : Text) → (status : ℕ) → Document.Error → Handler A
    fail_operation kind target code status failed = do
      finish_operation h e r u kind target status_failed code
      raise (write_json status (Request.failure code failed (id h e r)))

    abbrev value_or_fail :
        {A : Type 0}
        → (kind target code : Text) → (status : ℕ) → Result Document.Error A
        → Handler A
    value_or_fail kind target code status (ok a) = pure a
    value_or_fail kind target code status (err failed) =
        fail_operation kind target code status failed

    unfoldable pub change_password : Handler Response
    change_password = do
      check_mutation (codes "auth.password.change") u.username
      in_ ← value_or (decoded h.bodies.change_password) (pure tt) invalid_request
      begin_operation h e r u (codes "auth.password.change") u.username
      changed ← on_state (
          Store.change_password h.platform h.encoder e.state_writes e.salt e.change_at u.username
            in_.current_password in_.new_password)
      value_or_fail (codes "auth.password.change") u.username (codes "password_change_failed") 400
          changed
      modify (λ s. record s { sessions = revoke_user u.username s.sessions })
      finish_operation h e r u (codes "auth.password.change") u.username status_succeeded []
      pure (with_cookie cleared (write_json 200 password_changed))

    unfoldable pub create_user : Handler Response
    create_user = do
      check_mutation (codes "rbac.user.create") []
      in_ ← value_or (decoded h.bodies.create_user) (pure tt) invalid_request
      let target = h.platform.to_lower (h.platform.trim_space in_.username)
      begin_operation h e r u (codes "rbac.user.create") target
      made ← on_state (
          Store.create_user h.platform h.encoder e.state_writes e.salt e.change_at in_.username
            in_.password in_.role)
      created ←
          value_or_fail (codes "rbac.user.create") target (codes "user_create_failed") 400 made
      finish_operation h e r u (codes "rbac.user.create") created.username status_succeeded []
      pure (write_json 201 (user (public_user created)))

    unfoldable pub set_blocked : (target : Text) → Handler Response
    set_blocked target = do
      check_mutation (codes "rbac.user.block") target
      otherwise (not (h.platform.equal_fold target u.username)) (
          raise (
            refuse h e r 409 (codes "self_block_forbidden")
              (codes "Current user cannot block itself")))
      in_ ← value_or (decoded h.bodies.block) (pure tt) invalid_request
      let kind = if in_.blocked then codes "rbac.user.block" else codes "rbac.user.unblock"
      begin_operation h e r u kind target
      set ← on_state (Store.set_blocked h.platform h.encoder e.state_writes target in_.blocked)
      updated ← value_or_fail kind target (codes "user_block_failed") 409 set
      modify (λ s.
          if in_.blocked
          then record s { sessions = revoke_user updated.username s.sessions }
          else s)
      finish_operation h e r u kind updated.username status_succeeded []
      pure (write_json 200 (user (public_user updated)))
