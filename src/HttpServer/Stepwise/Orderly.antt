-- ===== src/HttpServer/Stepwise/Orderly.antt =====
-- Every request keeps to the order of calls, and makes at most seven of them.
use srv_deployment.Prelude.{ℕ, suc, refl, inl, List, Text, Result, ok, err}
use srv_deployment.Auth.Sessions.{Session, Manager, revoke, revoke_user}
use srv_deployment.Audit
use srv_deployment.Audit.{AuditEvent}
use srv_deployment.Auth.Limiter
use srv_deployment.Auth.Limiter.{success}
use srv_deployment.Auth.Sessions
use srv_deployment.Diagnostics
use srv_deployment.HttpServer.Request.{Request, Response, LoginRequest}
use srv_deployment.HttpServer.Routes.{
  Route, health, readiness, version, session, login, logout, password, status, users, create,
  operations, audit, summary, export, not_found, elsewhere, blocked, route, with_id,
}
use srv_deployment.HttpServer.Server.{Host, Moment, audit_event}
use srv_deployment.HttpServer.Stepwise.{Steps, pure, raise, atom, ◌>>=◌, ◌>>◌}
use srv_deployment.HttpServer.Stepwise.Protocol.{
  fresh, reads, logs, sessions, limits, creates, blocks, changes, Protocol, answers, calls,
}
use srv_deployment.HttpServer.Stepwise.Requests
use srv_deployment.HttpServer.Stepwise.Requests.{
  found_user, found_session, from_cookie, current_session, require_auth, require_permission, log_in,
  get_session, get_readiness, change_password, create_user, set_blocked, get_system_status,
  get_users, get_operations, get_audit, get_summary, exported, export_events, export_diagnostics,
  handle, request_steps,
}
use srv_deployment.HttpServer.Stepwise.Rules.{
  missing-Protocol, pure-Protocol, raise-Protocol, log-Protocol, otherwise-Protocol,
  log-raise-Protocol, atom-Protocol, raise_bind-Protocol, value_or-Protocol, decoded-Protocol,
  value_or-log-Protocol, begin_operation-Protocol, finish_operation-Protocol,
  value_or_fail-Protocol,
}
use srv_deployment.State.Document.{User}
use srv_deployment.HttpServer.Stepwise.Access.{
  revoke_cookie-Quiet, revoke_if-Quiet, current_session-Protocol,
}

module _ (h : Host) (e : Moment) (r : Request) where
  log_in-Protocol :
      (key target : Text) (in_ : LoginRequest)
      → Protocol h e r fresh 6 (log_in h e r key target in_)
  unfolding log_in ◌>>=◌ ◌>>◌ audit_event raise atom pure
  log_in-Protocol key target in_ = calls reads λ s.
      value_or-Protocol h e r _ _ _ _
        (calls (limits (λ t. Limiter.failure key e.failure_at t.limiter))
          λ t. calls (logs _ _ _ _ _ _) λ v. answers _ tt)
        λ u. calls (limits (λ t. success key t.limiter)) λ t.
          calls
            (sessions (λ v.
              (Sessions.create h.platform u e.session_at e.token_bytes e.csrf_bytes v.sessions).1))
            λ v.
              value_or-log-Protocol h e r _ _ _ _ _ _ _ _ _ tt
                λ made. calls (logs _ _ _ _ _ _) λ w. answers _ tt

  login-Protocol : Protocol h e r fresh 7 (Requests.login h e r)
  unfolding Requests.login ◌>>=◌ ◌>>◌
  login-Protocol = otherwise-Protocol h e r _ _ _ (log-raise-Protocol h e r _ _ _ _ _ _ _ _ tt) (
      value_or-log-Protocol h e r _ _ _ _ _ _ _ _ _ tt λ in_.
        atom-Protocol h e r _ _ (limits _) λ s.
          otherwise-Protocol h e r _ _ _ (log-raise-Protocol h e r _ _ _ _ _ _ _ _ tt)
            (log_in-Protocol _ _ in_))

  get_session-Protocol : Protocol h e r fresh 7 (get_session h e r)
  unfolding get_session
  get_session-Protocol =
      current_session-Protocol h e r _ (λ m. missing-Protocol h e r _ _ tt)
        (λ sess u. decoded-Protocol h e r _ _ _ tt λ x. pure-Protocol h e r _ tt)

  logout-Protocol :
      (sess : Session) (u : User) → Protocol h e r fresh 5 (Requests.logout h e r sess u)
  unfolding Requests.logout ◌>>=◌ ◌>>◌
  logout-Protocol sess u =
      otherwise-Protocol h e r _ _ _ (log-raise-Protocol h e r _ _ _ _ _ _ _ _ tt) (
        atom-Protocol h e r _ _ (revoke_cookie-Quiet h e r sess u r.cookie)
          λ s. log-Protocol h e r _ _ _ _ _ _ _ (pure-Protocol h e r _ tt))

  create_user-Protocol :
      (sess : Session) (u : User) → Protocol h e r fresh 5 (create_user h e r sess u)
  unfolding create_user ◌>>=◌ ◌>>◌
  create_user-Protocol sess u =
      otherwise-Protocol h e r _ _ _ (log-raise-Protocol h e r _ _ _ _ _ _ _ _ tt) (
        decoded-Protocol h e r _ _ _ tt λ in_. begin_operation-Protocol h e r u _ _ _ (
          atom-Protocol h e r _ _ (creates _ _ _) λ s.
            value_or_fail-Protocol h e r sess u _ _ _ _ _ _ refl λ made.
              finish_operation-Protocol h e r u _ _ _ _ _ (inl refl) (pure-Protocol h e r _ refl)))

  change_password-Protocol :
      (sess : Session) (u : User) → Protocol h e r fresh 5 (change_password h e r sess u)
  unfolding change_password ◌>>=◌ ◌>>◌
  change_password-Protocol sess u =
      otherwise-Protocol h e r _ _ _ (log-raise-Protocol h e r _ _ _ _ _ _ _ _ tt) (
        decoded-Protocol h e r _ _ _ tt λ in_. begin_operation-Protocol h e r u _ _ _ (
          atom-Protocol h e r _ _ (changes _ _ _) λ s.
            value_or_fail-Protocol h e r sess u _ _ _ _ _ _ refl λ made.
              atom-Protocol h e r _ _ (sessions _) λ t.
                finish_operation-Protocol h e r u _ _ _ _ _ (inl refl)
                  (pure-Protocol h e r _ refl)))

  set_blocked-Protocol :
      (sess : Session) (u : User) (target : Text)
      → Protocol h e r fresh 5 (set_blocked h e r sess u target)
  unfolding set_blocked ◌>>=◌ ◌>>◌
  set_blocked-Protocol sess u target =
      otherwise-Protocol h e r _ _ _ (log-raise-Protocol h e r _ _ _ _ _ _ _ _ tt) (
        otherwise-Protocol h e r _ _ _ (raise_bind-Protocol h e r _ _ tt) (
          decoded-Protocol h e r _ _ _ tt λ in_. begin_operation-Protocol h e r u _ _ _ (
            atom-Protocol h e r _ _ (blocks _ _) λ s.
              value_or_fail-Protocol h e r sess u _ _ _ _ _ _ refl λ updated.
                atom-Protocol h e r _ _
                  (revoke_if-Quiet h e r in_.blocked (λ v. revoke_user updated.username v.sessions))
                  λ t.
                    finish_operation-Protocol h e r u _ _ _ _ _ (inl refl)
                      (pure-Protocol h e r _ refl))))

  exported-Protocol :
      {n : ℕ} (sess : Session) (u : User) (x : Result Diagnostics.Error Text)
      → Protocol h e r fresh (suc n) (exported h e r sess u x)
  unfolding exported ◌>>=◌ ◌>>◌
  exported-Protocol sess u (ok b) = log-Protocol h e r _ _ _ _ _ _ _ (pure-Protocol h e r _ tt)
  exported-Protocol sess u (err failed) =
      log-Protocol h e r _ _ _ _ _ _ _ (raise-Protocol h e r _ tt)

  export_events-Protocol :
      (sess : Session) (u : User) (x : Result Audit.Error (List AuditEvent))
      → Protocol h e r fresh 4 (export_events h e r sess u x)
  unfolding export_events
  export_events-Protocol sess u (ok events) =
      atom-Protocol h e r _ _ reads
        λ s. atom-Protocol h e r _ _ reads λ t. exported-Protocol sess u _
  export_events-Protocol sess u (err failed) = exported-Protocol sess u _

  export_diagnostics-Protocol :
      (sess : Session) (u : User) → Protocol h e r fresh 5 (export_diagnostics h e r sess u)
  unfolding export_diagnostics
  export_diagnostics-Protocol sess u =
      atom-Protocol h e r _ _ reads λ s. export_events-Protocol sess u _

  get_readiness-Protocol : Protocol h e r fresh 7 (get_readiness h e r)
  unfolding get_readiness
  get_readiness-Protocol = atom-Protocol h e r _ _ reads λ s. pure-Protocol h e r _ tt

  module _ (sess : Session) (u : User) where
    get_system_status-Protocol : Protocol h e r fresh 5 (get_system_status h e r sess u)
    unfolding get_system_status
    get_system_status-Protocol =
        atom-Protocol h e r _ _ reads
          λ s. atom-Protocol h e r _ _ reads λ t. pure-Protocol h e r _ tt

    get_users-Protocol : Protocol h e r fresh 5 (get_users h e r sess u)
    unfolding get_users
    get_users-Protocol = atom-Protocol h e r _ _ reads λ s. pure-Protocol h e r _ tt

    get_operations-Protocol : Protocol h e r fresh 5 (get_operations h e r sess u)
    unfolding get_operations
    get_operations-Protocol = atom-Protocol h e r _ _ reads λ s. pure-Protocol h e r _ tt

    get_audit-Protocol : Protocol h e r fresh 5 (get_audit h e r sess u)
    unfolding get_audit
    get_audit-Protocol = atom-Protocol h e r _ _ reads λ s. pure-Protocol h e r _ tt

    get_summary-Protocol : Protocol h e r fresh 5 (get_summary h e r sess u)
    unfolding get_summary
    get_summary-Protocol = atom-Protocol h e r _ _ reads λ s.
        atom-Protocol h e r _ _ reads
          λ t. atom-Protocol h e r _ _ reads λ v. pure-Protocol h e r _ tt

  require_auth-Protocol :
      (next : Session → User → Steps Response)
      → ((sess : Session) (u : User) → Protocol h e r fresh 5 (next sess u))
      → Protocol h e r fresh 7 (require_auth h e r next)
  unfolding require_auth
  require_auth-Protocol next x =
      current_session-Protocol h e r _ (λ m. missing-Protocol h e r _ _ tt)
        (λ sess u. decoded-Protocol h e r _ _ _ tt λ found. x found.0 found.1)

  require_permission-Protocol :
      (permission : Text) (next : Session → User → Steps Response)
      → ((sess : Session) (u : User) → Protocol h e r fresh 5 (next sess u))
      → Protocol h e r fresh 7 (require_permission h e r permission next)
  unfolding require_permission ◌>>◌
  require_permission-Protocol permission next x =
      require_auth-Protocol _
        λ sess u. otherwise-Protocol h e r _ _ _ (raise_bind-Protocol h e r _ _ tt) (x sess u)

  handle-Protocol : (x : Route) → Protocol h e r fresh 7 (Requests.handle h e r x)
  unfolding Requests.handle
  handle-Protocol health = pure-Protocol h e r _ tt
  handle-Protocol readiness = get_readiness-Protocol
  handle-Protocol version = pure-Protocol h e r _ tt
  handle-Protocol login = login-Protocol
  handle-Protocol session = get_session-Protocol
  handle-Protocol logout = require_auth-Protocol _ logout-Protocol
  handle-Protocol password = require_auth-Protocol _ change_password-Protocol
  handle-Protocol status = require_permission-Protocol _ _ get_system_status-Protocol
  handle-Protocol users = require_permission-Protocol _ _ get_users-Protocol
  handle-Protocol create = require_permission-Protocol _ _ create_user-Protocol
  handle-Protocol (blocked name) =
      require_permission-Protocol _ _ (λ sess u. set_blocked-Protocol sess u name)
  handle-Protocol operations = require_permission-Protocol _ _ get_operations-Protocol
  handle-Protocol audit = require_permission-Protocol _ _ get_audit-Protocol
  handle-Protocol summary = require_permission-Protocol _ _ get_summary-Protocol
  handle-Protocol export = require_permission-Protocol _ _ export_diagnostics-Protocol
  handle-Protocol not_found = pure-Protocol h e r _ tt
  handle-Protocol elsewhere = pure-Protocol h e r _ tt

-- Every request makes at most seven calls of the components. It begins at most one operation, and only if
-- it has begun one it ends it, once, before it answers: as `succeeded` where the answer is a success, as
-- `failed` where it is an error.
pub request_steps-Protocol :
    (h : Host) (e : Moment) (r : Request) → Protocol h e (with_id e r) fresh 7 (request_steps h e r)
unfolding request_steps
request_steps-Protocol h e r = handle-Protocol h e (with_id e r) (route r.method r.segments)
