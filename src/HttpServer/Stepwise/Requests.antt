-- ===== src/HttpServer/Stepwise/Requests.antt =====
-- The handlers, call by call.
mod Access
mod Reports
unfoldable pub use Access.*
unfoldable pub use Reports.*
use srv_deployment.Prelude.{
  ℕ, ◌*◌, not, [], ◌∷◌, ◌++◌, Text, codes, if◌then◌else◌, pos, Result, ok, err,
}
use srv_deployment.Audit
use srv_deployment.Audit.{AuditEvent, recent}
use srv_deployment.Auth.Limiter
use srv_deployment.Auth.Limiter.{allowed, success}
use srv_deployment.Auth.Sessions.{Session, create, lookup, revoke, revoke_user}
use srv_deployment.Diagnostics
use srv_deployment.Diagnostics.{pack, read_audit}
use srv_deployment.Exec
use srv_deployment.HttpServer.Guards.{
  has_permission, valid_origin, valid_mutation, client_ip, query_limit,
}
use srv_deployment.HttpServer.Handlers.{
  forbidden, invalid_request, unauthenticated, decoded, revoke_cookie,
}
use srv_deployment.HttpServer.Reports.{audit_answer, is_readable, has_events}
use srv_deployment.HttpServer.Request
use srv_deployment.HttpServer.Request.{
  Request, Response, LoginRequest, ChangePasswordRequest, CreateUserRequest, BlockRequest,
  public_user, logged_in, logged_out, password_changed, session_cookie, cleared, write_json,
  with_cookie,
}
use srv_deployment.HttpServer.Routes
use srv_deployment.HttpServer.Routes.{Route, route, with_id}
use srv_deployment.HttpServer.Server.{
  Server, Host, Moment, on_state, on_operations, on_sessions, id, refuse, audit_event,
}
use srv_deployment.HttpServer.Stepwise.{Steps, pure, raise, atom, ◌>>=◌, ◌>>◌}
use srv_deployment.Operations
use srv_deployment.Operations.{
  Record, Status, status_succeeded, status_failed, start, finish, list_records, count,
}
use srv_deployment.State.Document
use srv_deployment.State.Document.{User, schema_version}
use srv_deployment.State.Listing.{list_users}
use srv_deployment.State.Store
use srv_deployment.State.Store.{ready, verify_credentials, get_user}

module _ (h : Host) (e : Moment) (r : Request) where
  -- `login`, after the key is allowed.
  unfoldable pub log_in : (key target : Text) → LoginRequest → Steps Response
  log_in key target in_ = do
    checked ← look (λ s. verify_credentials h.platform in_.username in_.password s.store)
    u ←
        value_or checked
          (alter (λ s. record s { limiter = Limiter.failure key e.failure_at s.limiter })
            >> log h e r [] [] (codes "auth.login") target (codes "failed")
                (codes "invalid_credentials"))
          (refuse h e r 401 (codes "invalid_credentials") (codes "Invalid username or password"))
    alter (λ s. record s { limiter = success key s.limiter })
    made ← atom (on_sessions (create h.platform u e.session_at e.token_bytes e.csrf_bytes))
    (token, session) ←
        value_or made
          (log h e r u.username u.role (codes "auth.login") u.username (codes "failed")
            (codes "session_create_failed"))
          (refuse h e r 500 (codes "session_create_failed") (codes "Unable to create session"))
    log h e r u.username u.role (codes "auth.login") u.username (codes "success") []
    pure (
        with_cookie (session_cookie token (pos (12 * 3600)))
          (write_json 200 (logged_in (public_user u) session.csrf)))

  unfoldable pub login : Steps Response
  login = do
    otherwise (valid_origin h.platform h.net r) (
        log h e r [] [] (codes "auth.login") [] (codes "denied") (codes "origin_rejected")
        >> raise
            (refuse h e r 403 (codes "origin_rejected") (codes "Request origin is not allowed")))
    in_ ←
        value_or (decoded h e r h.bodies.login)
          (log h e r [] [] (codes "auth.login") [] (codes "failed") (codes "invalid_request"))
          (invalid_request h e r)
    let target = h.platform.to_lower (h.platform.trim_space in_.username)
    let key = client_ip h.net r ++ b'|' ∷ target
    open_ ← atom (λ s.
        let (yes_, limiter) = allowed key e.allowed_at s.limiter in
        (ok yes_, record s { limiter = limiter }))
    otherwise open_ (
        log h e r [] [] (codes "auth.login") target (codes "denied") (codes "auth_rate_limited")
        >> raise (
            refuse h e r 429 (codes "auth_rate_limited")
              (codes "Too many authentication attempts")))
    log_in key target in_

  unfoldable pub get_session : Steps Response
  get_session = do
    found ← current_session h e r
    (sess, u) ← value_or found (pure tt) (unauthenticated h e r)
    pure (write_json 200 (logged_in (public_user u) sess.csrf))

  module _ (sess : Session) (u : User) where
    abbrev pub check_mutation : (action target : Text) → Steps Unit
    check_mutation action target = otherwise (valid_mutation h.platform h.net r sess) (
        log h e r u.username u.role action target (codes "denied") (codes "csrf_rejected")
        >> raise (forbidden h e r))

    unfoldable pub logout : Steps Response
    logout = do
      check_mutation (codes "auth.logout") u.username
      alter (revoke_cookie h e r sess u r.cookie)
      log h e r u.username u.role (codes "auth.logout") u.username (codes "success") []
      pure (with_cookie cleared (write_json 200 logged_out))

    unfoldable pub value_or_fail :
        {A : Type 0} → (kind target code : Text) → (status : ℕ) → Result Document.Error A → Steps A
    value_or_fail kind target code status (ok a) = pure a
    value_or_fail kind target code status (err failed) = do
      finish_operation h e r u kind target status_failed code
      raise (write_json status (Request.failure code failed (id h e r)))

    unfoldable pub change_password : Steps Response
    change_password = do
      check_mutation (codes "auth.password.change") u.username
      in_ ← value_or (decoded h e r h.bodies.change_password) (pure tt) (invalid_request h e r)
      begin_operation h e r u (codes "auth.password.change") u.username
      changed ← atom (
          on_state (
            Store.change_password h.platform h.encoder e.state_writes e.salt e.change_at u.username
              in_.current_password in_.new_password))
      value_or_fail (codes "auth.password.change") u.username (codes "password_change_failed") 400
          changed
      alter (λ s. record s { sessions = revoke_user u.username s.sessions })
      finish_operation h e r u (codes "auth.password.change") u.username status_succeeded []
      pure (with_cookie cleared (write_json 200 password_changed))

    unfoldable pub create_user : Steps Response
    create_user = do
      check_mutation (codes "rbac.user.create") []
      in_ ← value_or (decoded h e r h.bodies.create_user) (pure tt) (invalid_request h e r)
      let target = h.platform.to_lower (h.platform.trim_space in_.username)
      begin_operation h e r u (codes "rbac.user.create") target
      made ← atom (
          on_state (
            Store.create_user h.platform h.encoder e.state_writes e.salt e.change_at in_.username
              in_.password in_.role))
      created ←
          value_or_fail (codes "rbac.user.create") target (codes "user_create_failed") 400 made
      finish_operation h e r u (codes "rbac.user.create") created.username status_succeeded []
      pure (write_json 201 (Request.user (public_user created)))

    unfoldable pub set_blocked : (target : Text) → Steps Response
    set_blocked target = do
      check_mutation (codes "rbac.user.block") target
      otherwise (not (h.platform.equal_fold target u.username)) (
          raise (
            refuse h e r 409 (codes "self_block_forbidden")
              (codes "Current user cannot block itself")))
      in_ ← value_or (decoded h e r h.bodies.block) (pure tt) (invalid_request h e r)
      let kind = if in_.blocked then codes "rbac.user.block" else codes "rbac.user.unblock"
      begin_operation h e r u kind target
      set ←
          atom (on_state (Store.set_blocked h.platform h.encoder e.state_writes target in_.blocked))
      updated ← value_or_fail kind target (codes "user_block_failed") 409 set
      alter (λ s.
          if in_.blocked
          then record s { sessions = revoke_user updated.username s.sessions }
          else s)
      finish_operation h e r u kind updated.username status_succeeded []
      pure (write_json 200 (Request.user (public_user updated)))

  unfoldable pub handle : Route → Steps Response
  handle Routes.health = pure (write_json 200 (Request.health e.now))
  handle Routes.readiness = get_readiness h e r
  handle Routes.version =
      pure (write_json 200 (Request.version h.info schema_version Operations.schema_version))
  handle Routes.login = login
  handle Routes.session = get_session
  handle Routes.logout = require_auth h e r logout
  handle Routes.password = require_auth h e r change_password
  handle Routes.status = require_permission h e r (codes "system.read") (get_system_status h e r)
  handle Routes.users = require_permission h e r (codes "rbac.users.read") (get_users h e r)
  handle Routes.create = require_permission h e r (codes "rbac.users.write") create_user
  handle (Routes.blocked name) =
      require_permission h e r (codes "rbac.users.write") (λ sess u. set_blocked sess u name)
  handle Routes.operations =
      require_permission h e r (codes "operations.read") (get_operations h e r)
  handle Routes.audit = require_permission h e r (codes "audit.read") (get_audit h e r)
  handle Routes.summary = require_permission h e r (codes "system.read") (get_summary h e r)
  handle Routes.export =
      require_permission h e r (codes "diagnostics.export") (export_diagnostics h e r)
  handle Routes.not_found =
      pure (refuse h e r 404 (codes "api_not_found") (codes "API endpoint not found"))
  handle Routes.elsewhere = pure (h.answer r)

-- A request, with the id that the middleware gives it.
unfoldable pub request_steps : Host → Moment → Request → Steps Response
request_steps h e r = handle h e (with_id e r) (route r.method r.segments)
