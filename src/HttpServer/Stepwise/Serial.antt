-- ===== src/HttpServer/Stepwise/Serial.antt =====
-- With no other request between them, the calls of a handler do what the handler does.
use srv_deployment.Prelude.{◌≡◌, refl, ap, ◌∙◌, arith, Text, Result, ok, err}
use srv_deployment.Auth.Sessions.{Session}
use srv_deployment.Diagnostics.{build}
use srv_deployment.Exec
use srv_deployment.HttpServer.Handlers
use srv_deployment.HttpServer.Reports
use srv_deployment.HttpServer.Request.{Request, Response, LoginRequest}
use srv_deployment.HttpServer.Routes
use srv_deployment.HttpServer.Routes.{
  Route, health, readiness, version, login, session, logout, password, status, users, create,
  operations, audit, summary, export, not_found, elsewhere, blocked, route, with_id, answered,
  serve,
}
use srv_deployment.HttpServer.Server
use srv_deployment.HttpServer.Server.{Server as ServerState, Host, Moment, Handler}
use srv_deployment.HttpServer.Stepwise
use srv_deployment.HttpServer.Stepwise.{Steps, done, call, ◌>>=◌, run}
use srv_deployment.HttpServer.Stepwise.Requests
use srv_deployment.HttpServer.Stepwise.Requests.{request_steps}
use srv_deployment.State.Document.{User}

-- The names of the combinators, to unfold.
unfoldable pub combinators : Unit {0}
unfolding run Stepwise.pure Stepwise.raise Stepwise.atom Stepwise.◌>>=◌ Stepwise.◌>>◌
    Requests.otherwise Requests.value_or Requests.tracked Requests.revoke_token Requests.found_user
    Requests.found_session Requests.from_cookie Requests.value_or_fail Requests.exported
    Requests.export_events
combinators = tt

run-bind :
    {A B : Type 0} (m : Steps A) (f : A → Steps B) (s : ServerState)
    → run (m >>= f) s ≡ Exec.continue (run m s).0 (λ a. run (f a)) (run m s).1
unfolding run ◌>>=◌
run-bind (done (ok a)) f s = refl
run-bind (done (err x)) f s = refl
run-bind (call t n) f s = run-bind (n s) f (t s)

continue-same :
    {A B : Type 0} (x : Result Response A) (f g : A → Handler B) (s : ServerState)
    → ((a : A) (t : ServerState) → f a t ≡ g a t)
    → Exec.continue x f s ≡ Exec.continue x g s
continue-same (ok a) f g s same = same a s
continue-same (err x) f g s same = refl

bind-run :
    {A B : Type 0} (m : Steps A) (n : Handler A) (f : A → Steps B) (g : A → Handler B)
    → ((s : ServerState) → run m s ≡ n s)
    → ((a : A) (t : ServerState) → run (f a) t ≡ g a t)
    → (s : ServerState) → run (m >>= f) s ≡ Exec.continue (n s).0 g (n s).1
bind-run m n f g same next s =
    run-bind m f s
    ∙ ap (λ z. Exec.continue z.0 (λ a. run (f a)) z.1) (same s)
    ∙ continue-same (n s).0 (λ a. run (f a)) g (n s).1 next

module _ (h : Host) (e : Moment) (r : Request) where
  begin_operation-run :
      (u : User) (kind target : Text) (s : ServerState)
      → run (Requests.begin_operation h e r u kind target) s
        ≡ Server.begin_operation h e r u kind target s
  unfolding combinators Requests.begin_operation Server.begin_operation
  begin_operation-run u kind target s = grind arith

  finish_operation-run :
      (u : User) (kind target st code : Text) (s : ServerState)
      → run (Requests.finish_operation h e r u kind target st code) s
        ≡ Server.finish_operation h e r u kind target st code s
  unfolding combinators Requests.finish_operation Server.finish_operation
  finish_operation-run u kind target st code s = grind arith

  current_session-run :
      (s : ServerState) → run (Requests.current_session h e r) s ≡ Server.current_session h e r s
  unfolding combinators Requests.current_session Server.current_session
  current_session-run s = grind arith

  log_in-run :
      (key target : Text) (in_ : LoginRequest) (s : ServerState)
      → run (Requests.log_in h e r key target in_) s ≡ Handlers.log_in h e r key target in_ s
  unfolding combinators Requests.log_in Handlers.log_in
  log_in-run key target in_ s = grind arith

  login-run : (s : ServerState) → run (Requests.login h e r) s ≡ Handlers.login h e r s
  unfolding combinators Requests.login Handlers.login
  login-run s = grind (arith, log_in-run)

  get_session-run :
      (s : ServerState) → run (Requests.get_session h e r) s ≡ Handlers.get_session h e r s
  unfolding combinators Requests.get_session Handlers.get_session
  get_session-run s =
      bind-run (Requests.current_session h e r) (Server.current_session h e r) _ _
        current_session-run (λ found t. grind arith) s

  module _ (sess : Session) (u : User) where
    logout-run :
        (s : ServerState) → run (Requests.logout h e r sess u) s ≡ Handlers.logout h e r sess u s
    unfolding combinators Requests.logout Handlers.logout
    logout-run s = grind arith

    change_password-run :
        (s : ServerState)
        → run (Requests.change_password h e r sess u) s ≡ Handlers.change_password h e r sess u s
    unfolding combinators Requests.change_password Handlers.change_password Requests.begin_operation
        Server.begin_operation Requests.finish_operation Server.finish_operation
    change_password-run s = grind arith

    create_user-run :
        (s : ServerState)
        → run (Requests.create_user h e r sess u) s ≡ Handlers.create_user h e r sess u s
    unfolding combinators Requests.create_user Handlers.create_user Requests.begin_operation
        Server.begin_operation Requests.finish_operation Server.finish_operation
    create_user-run s = grind arith

    set_blocked-run :
        (target : Text) (s : ServerState)
        → run (Requests.set_blocked h e r sess u target) s
          ≡ Handlers.set_blocked h e r sess u target s
    unfolding combinators Requests.set_blocked Handlers.set_blocked Requests.begin_operation
        Server.begin_operation Requests.finish_operation Server.finish_operation
    set_blocked-run target s = grind arith

    export_diagnostics-run :
        (s : ServerState)
        → run (Requests.export_diagnostics h e r sess u) s
          ≡ Reports.export_diagnostics h e r sess u s
    unfolding combinators Requests.export_diagnostics Reports.export_diagnostics build
    export_diagnostics-run s = grind arith

  require_auth-run :
      (next : Session → User → Steps Response) (other : Session → User → Handler Response)
      → ((sess : Session) (u : User) (s : ServerState) → run (next sess u) s ≡ other sess u s)
      → (s : ServerState)
      → run (Requests.require_auth h e r next) s ≡ Routes.require_auth h e r other s
  unfolding combinators Requests.require_auth Routes.require_auth
  require_auth-run next other same s =
      bind-run (Requests.current_session h e r) (Server.current_session h e r) _ _
        current_session-run (λ found t. grind (arith, same)) s

  require_permission-run :
      (permission : Text) (next : Session → User → Steps Response)
      (other : Session → User → Handler Response)
      → ((sess : Session) (u : User) (s : ServerState) → run (next sess u) s ≡ other sess u s)
      → (s : ServerState)
      → run (Requests.require_permission h e r permission next) s
        ≡ Routes.require_permission h e r permission other s
  unfolding Requests.require_permission Routes.require_permission combinators
  require_permission-run permission next other same s =
      require_auth-run _ _ (λ sess u t. grind (arith, same)) s

  handle-run :
      (x : Route) (s : ServerState) → run (Requests.handle h e r x) s ≡ Routes.handle h e r x s
  unfolding combinators Requests.handle Routes.handle Reports.get_health Reports.get_readiness
      Reports.get_version Reports.get_system_status Reports.get_users Reports.get_operations
      Reports.get_audit Reports.get_summary Requests.get_readiness Requests.get_system_status
      Requests.get_users Requests.get_operations Requests.get_audit Requests.get_summary
  handle-run health s = refl
  handle-run readiness s = refl
  handle-run version s = refl
  handle-run login s = login-run s
  handle-run session s = get_session-run s
  handle-run logout s = require_auth-run _ _ logout-run s
  handle-run password s = require_auth-run _ _ change_password-run s
  handle-run status s = require_permission-run _ _ _ (λ sess u t. refl) s
  handle-run users s = require_permission-run _ _ _ (λ sess u t. refl) s
  handle-run create s = require_permission-run _ _ _ create_user-run s
  handle-run (blocked name) s =
      require_permission-run _ _ _ (λ sess u. set_blocked-run sess u name) s
  handle-run operations s = require_permission-run _ _ _ (λ sess u t. refl) s
  handle-run audit s = require_permission-run _ _ _ (λ sess u t. refl) s
  handle-run summary s = require_permission-run _ _ _ (λ sess u t. refl) s
  handle-run export s = require_permission-run _ _ _ export_diagnostics-run s
  handle-run not_found s = refl
  handle-run elsewhere s = refl

-- The calls that a request makes, one after another with no other request between them, give the answer
-- and the server of the handlers.
pub run-request_steps :
    (h : Host) (e : Moment) (r : Request) (s : ServerState)
    → answered (run (request_steps h e r) s) ≡ serve h e r s
unfolding request_steps serve
run-request_steps h e r s = ap answered (handle-run h e (with_id e r) (route r.method r.segments) s)
