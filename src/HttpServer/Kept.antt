-- ===== src/HttpServer/Kept.antt =====
-- What every call of a component keeps, every request keeps.
use srv_deployment.Prelude.{sym, inl, inr, Bool, List, [], ◌∷◌, arith, Text, Option-cases}
use srv_deployment.Auth.Limiter.{LoginLimiter, success}
use mathlib.Core.Path.{subst}
use srv_deployment.Auth.Sessions
use srv_deployment.Auth.Sessions.{Session, Manager}
use srv_deployment.HttpServer.Handlers
use srv_deployment.HttpServer.Handlers.{log_in, get_session}
use srv_deployment.HttpServer.Reports
use srv_deployment.HttpServer.Reports.{
  get_health, get_readiness, get_version, get_system_status, get_users, get_operations, get_audit,
  get_summary,
}
use srv_deployment.HttpServer.Request.{Request, Response, LoginRequest}
use srv_deployment.HttpServer.Routes.{
  Route, health, readiness, version, login, session, logout, password, status, users, create,
  operations, audit, summary, export, not_found, elsewhere, blocked, route, require_auth,
  require_permission, handle, with_id, serve, serve_all,
}
use srv_deployment.HttpServer.Server.{
  Server, Host, Moment, Handler, on_state, audit_event, begin_operation, finish_operation,
  current_session,
}
use srv_deployment.HttpServer.Effects.{answered-state}
use srv_deployment.State.Document.{User}
use srv_deployment.State.Store

module _ (h : Host) (e : Moment) (r : Request) where
  pub record IsKept (P : Server → Type 0) : Type 0 where
    pub logs :
        (actor role action target result code : Text) (s : Server)
        → P s
        → P (audit_event h e r actor role action target result code s).1
    pub begins :
        (u : User) (kind target : Text) (s : Server)
        → P s
        → P (begin_operation h e r u kind target s).1
    pub finishes :
        (u : User) (kind target st code : Text) (s : Server)
        → P s
        → P (finish_operation h e r u kind target st code s).1
    pub sessions : (s : Server) (m : Manager) → P s → P (record s { sessions = m })
    pub limits : (s : Server) (l : LoginLimiter) → P s → P (record s { limiter = l })
    pub creates :
        (username pass role : Text) (s : Server)
        → P s
        → P
            (on_state
              (Store.create_user h.platform h.encoder e.state_writes e.salt e.change_at username
                pass role)
              s).1
    pub blocks :
        (username : Text) (b : Bool) (s : Server)
        → P s
        → P (on_state (Store.set_blocked h.platform h.encoder e.state_writes username b) s).1
    pub changes :
        (username old new : Text) (s : Server)
        → P s
        → P
            (on_state
              (Store.change_password h.platform h.encoder e.state_writes e.salt e.change_at username
                old new)
              s).1

  module _ (P : Server → Type 0) (k : IsKept P) where
    set_blocked-keeps :
        (sess : Session) (u : User) (target : Text) (s : Server)
        → P s
        → P (Handlers.set_blocked h e r sess u target s).1
    unfolding Handlers.set_blocked
    set_blocked-keeps sess u target s x =
        grind (arith, k.logs, k.begins, k.finishes, k.blocks, k.sessions)

    create_user-keeps :
        (sess : Session) (u : User) (s : Server) → P s → P (Handlers.create_user h e r sess u s).1
    unfolding Handlers.create_user
    create_user-keeps sess u s x = grind (arith, k.logs, k.begins, k.finishes, k.creates)

    change_password-keeps :
        (sess : Session) (u : User) (s : Server)
        → P s
        → P (Handlers.change_password h e r sess u s).1
    unfolding Handlers.change_password
    change_password-keeps sess u s x =
        grind (arith, k.logs, k.begins, k.finishes, k.changes, k.sessions)

    logout-keeps :
        (sess : Session) (u : User) (s : Server) → P s → P (Handlers.logout h e r sess u s).1
    unfolding Handlers.logout
    logout-keeps sess u s x = grind (arith, k.logs, k.sessions)

    export_diagnostics-keeps :
        (sess : Session) (u : User) (s : Server)
        → P s
        → P (Reports.export_diagnostics h e r sess u s).1
    unfolding Reports.export_diagnostics
    export_diagnostics-keeps sess u s x = grind (arith, k.logs)

    log_in-keeps :
        (key target : Text) (in_ : LoginRequest) (s : Server)
        → P s
        → P (log_in h e r key target in_ s).1
    unfolding log_in
    log_in-keeps key target in_ s x =
        elim (Option-cases
          (Store.verify_credentials h.platform in_.username in_.password s.store)) [
            | inl v ↦ grind (arith, v, k.logs, k.limits)
            | inr (u, v) ↦
                let made =
                  Sessions.create h.platform u e.session_at e.token_bytes e.csrf_bytes s.sessions in
                let limited = k.limits s (success key s.limiter) x in
                let opened =
                  k.sessions (record s { limiter = success key s.limiter }) made.1 limited in
                grind (arith, v, opened, k.logs)
          ]

    login-keeps : (s : Server) → P s → P (Handlers.login h e r s).1
    unfolding Handlers.login
    login-keeps s x = grind (arith, k.logs, k.limits, log_in-keeps)

    current_session-keeps : (s : Server) → P s → P (current_session h e r s).1
    unfolding current_session
    current_session-keeps s x = grind (arith, k.sessions)

    get_session-keeps : (s : Server) → P s → P (get_session h e r s).1
    unfolding get_session
    get_session-keeps s x = grind (arith, current_session-keeps)

    require_auth-keeps :
        (next : Session → User → Handler Response)
        → ((sess : Session) (u : User) (s : Server) → P s → P (next sess u s).1)
        → (s : Server) → P s
        → P (require_auth h e r next s).1
    unfolding require_auth
    require_auth-keeps next keeps s x = grind (arith, current_session-keeps, keeps)

    require_permission-keeps :
        (permission : Text) (next : Session → User → Handler Response)
        → ((sess : Session) (u : User) (s : Server) → P s → P (next sess u s).1)
        → (s : Server) → P s
        → P (require_permission h e r permission next s).1
    unfolding require_permission
    require_permission-keeps permission next keeps s x =
        require_auth-keeps _ (λ sess u t y. grind (arith, keeps)) s x

    handle-keeps : (x : Route) (s : Server) → P s → P (handle h e r x s).1
    unfolding handle get_health get_readiness get_version get_system_status get_users get_operations
        get_audit get_summary
    handle-keeps health s y = y
    handle-keeps readiness s y = y
    handle-keeps version s y = y
    handle-keeps login s y = login-keeps s y
    handle-keeps session s y = get_session-keeps s y
    handle-keeps logout s y = require_auth-keeps _ logout-keeps s y
    handle-keeps password s y = require_auth-keeps _ change_password-keeps s y
    handle-keeps status s y = require_permission-keeps _ _ (λ sess u t z. z) s y
    handle-keeps users s y = require_permission-keeps _ _ (λ sess u t z. z) s y
    handle-keeps create s y = require_permission-keeps _ _ create_user-keeps s y
    handle-keeps (blocked name) s y =
        require_permission-keeps _ _ (λ sess u t z. set_blocked-keeps sess u name t z) s y
    handle-keeps operations s y = require_permission-keeps _ _ (λ sess u t z. z) s y
    handle-keeps audit s y = require_permission-keeps _ _ (λ sess u t z. z) s y
    handle-keeps summary s y = require_permission-keeps _ _ (λ sess u t z. z) s y
    handle-keeps export s y = require_permission-keeps _ _ export_diagnostics-keeps s y
    handle-keeps not_found s y = y
    handle-keeps elsewhere s y = y

pub serve-keeps :
    (h : Host) (e : Moment) (r : Request) (P : Server → Type 0)
    → IsKept h e (with_id e r) P
    → (s : Server) → P s
    → P (serve h e r s).1
unfolding serve
serve-keeps h e r P k s x =
    let y = handle h e (with_id e r) (route r.method r.segments) s in
    subst P (sym (answered-state y))
      (handle-keeps h e (with_id e r) P k (route r.method r.segments) s x)

pub serve_all-keeps :
    (h : Host) (P : Server → Type 0)
    → ((e : Moment) (r : Request) → IsKept h e r P)
    → (requests : List (Moment × Request)) (s : Server) → P s
    → P (serve_all h requests s)
unfolding serve_all
serve_all-keeps h P k [] s x = x
serve_all-keeps h P k ((e, r) ∷ requests) s x =
    serve_all-keeps h P k requests (serve h e r s).1 (serve-keeps h e r P (k e (with_id e r)) s x)
