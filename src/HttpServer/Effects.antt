-- ===== src/HttpServer/Effects.antt =====
-- What each handler leaves of the state, apart from its answer.
use srv_deployment.Prelude.{◌≡◌, refl, ◌⊎◌, arith, Text, codes, Result, ok, err}
use srv_deployment.Auth.Sessions.{Session}
use srv_deployment.State.Document.{User}
use srv_deployment.HttpServer.Request.{Request, Response}
use srv_deployment.HttpServer.Server.{
  Server, Host, Moment, refuse, audit_event, begin_operation, finish_operation, current_session,
}
use srv_deployment.HttpServer.Handlers
use srv_deployment.HttpServer.Reports
use srv_deployment.HttpServer.Handlers.{log_in, get_session}
use srv_deployment.HttpServer.Routes.{answered}

pub answered-ok :
    (x : Result Response Response × Server) (response : Response)
    → x.0 ≡ ok response
    → (answered x).0 ≡ response
answered-ok (ok a, s) response h = grind arith
answered-ok (err a, s) response h = absurd (cc)

pub answered-state : (x : Result Response Response × Server) → (answered x).1 ≡ x.1
answered-state (ok a, s) = refl
answered-state (err a, s) = refl

module _ (h : Host) (e : Moment) (r : Request) where
  abbrev pub unavailable : Response
  unavailable =
      refuse h e r 503 (codes "operation_store_unavailable")
        (codes "Operation tracking is unavailable")

  pub audit_event-ok :
      (actor role action target result code : Text) (s : Server)
      → (audit_event h e r actor role action target result code s).0 ≡ ok tt
  unfolding audit_event
  audit_event-ok actor role action target result code s = refl

  pub finish_operation-ok :
      (u : User) (kind target st code : Text) (s : Server)
      → (finish_operation h e r u kind target st code s).0 ≡ ok tt
  unfolding finish_operation audit_event
  finish_operation-ok u kind target st code s = refl

  pub begin_operation-answers :
      (u : User) (kind target : Text) (s : Server)
      → ((begin_operation h e r u kind target s).0 ≡ ok tt)
        ⊎ ((begin_operation h e r u kind target s).0 ≡ err unavailable)
  unfolding begin_operation
  begin_operation-answers u kind target s = ground arith

  pub store-audit_event :
      (actor role action target result code : Text) (s : Server)
      → (audit_event h e r actor role action target result code s).1.store ≡ s.store
  unfolding audit_event
  store-audit_event actor role action target result code s = refl

  pub store-current_session : (s : Server) → (current_session h e r s).1.store ≡ s.store
  unfolding current_session
  store-current_session s = grind arith

  pub store-login : (s : Server) → (Handlers.login h e r s).1.store ≡ s.store
  unfolding Handlers.login log_in
  store-login s = grind (arith, store-audit_event)

  pub store-begin_operation :
      (u : User) (kind target : Text) (s : Server)
      → (begin_operation h e r u kind target s).1.store ≡ s.store
  unfolding begin_operation
  store-begin_operation u kind target s = ground arith

  pub store-finish_operation :
      (u : User) (kind target st code : Text) (s : Server)
      → (finish_operation h e r u kind target st code s).1.store ≡ s.store
  unfolding finish_operation
  store-finish_operation u kind target st code s = grind (arith, store-audit_event)

  pub store-logout :
      (sess : Session) (u : User) (s : Server) → (Handlers.logout h e r sess u s).1.store ≡ s.store
  unfolding Handlers.logout
  store-logout sess u s = grind (arith, store-audit_event)

  pub store-export_diagnostics :
      (sess : Session) (u : User) (s : Server)
      → (Reports.export_diagnostics h e r sess u s).1.store ≡ s.store
  unfolding Reports.export_diagnostics
  store-export_diagnostics sess u s = grind (arith, store-audit_event)

  pub store-get_session : (s : Server) → (get_session h e r s).1.store ≡ s.store
  unfolding get_session
  store-get_session s = grind (arith, store-current_session)
