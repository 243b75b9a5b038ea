-- ===== src/HttpServer/Stepwise/Requests/Reports.antt =====
-- The handlers that report, call by call.
use srv_deployment.Prelude.{List, [], map, Text, codes, if◌then◌else◌, pos, Result, ok, err}
use srv_deployment.Audit
use srv_deployment.Audit.{AuditEvent, recent}
use srv_deployment.Auth.Sessions.{Session}
use srv_deployment.Diagnostics
use srv_deployment.Diagnostics.{pack, read_audit}
use srv_deployment.HttpServer.Guards.{query_limit}
use srv_deployment.HttpServer.Reports.{audit_answer, is_readable, has_events}
use srv_deployment.HttpServer.Request
use srv_deployment.HttpServer.Request.{
  Request, Response, LoginRequest, ChangePasswordRequest, CreateUserRequest, BlockRequest,
  public_user, logged_in, logged_out, password_changed, session_cookie, cleared, write_json,
  with_cookie,
}
use srv_deployment.HttpServer.Server.{Host, Moment, id, refuse}
use srv_deployment.HttpServer.Stepwise.{Steps, pure, raise, ◌>>=◌, ◌>>◌}
use srv_deployment.Operations.{list_records, count}
use srv_deployment.State.Document.{User}
use srv_deployment.State.Listing.{list_users}
use srv_deployment.State.Store.{ready}
use srv_deployment.HttpServer.Stepwise.Requests.Access.{look, log}

module _ (h : Host) (e : Moment) (r : Request) where
  unfoldable pub get_readiness : Steps Response
  get_readiness = do
    state ← look (λ s. ready s.store)
    pure (write_json (if state.0 then 200 else 503) (Request.readiness state.1 state.0))

  module _ (sess : Session) (u : User) where
    unfoldable pub get_system_status : Steps Response
    get_system_status = do
      state ← look (λ s. ready s.store)
      (started_at, n) ← look (λ s. (s.started_at, count s.operations))
      pure (
          write_json 200
            (Request.system_status (public_user u) state.0 state.1 e.process started_at e.now n))

    unfoldable pub get_users : Steps Response
    get_users = do
      listed ← look (λ s. list_users s.store)
      pure (write_json 200 (Request.users (map public_user listed)))

    unfoldable pub get_operations : Steps Response
    get_operations = do
      listed ← look (λ s. list_records (query_limit r (pos 100)) s.operations)
      pure (write_json 200 (Request.operations listed))

    unfoldable pub get_audit : Steps Response
    get_audit = do
      listed ← look (λ s. recent h.json (query_limit r (pos 100)) s.audit_path s.files)
      pure (audit_answer h e r sess u listed)

    unfoldable pub get_summary : Steps Response
    get_summary = do
      state ← look (λ s. ready s.store)
      listed ← look (λ s. recent h.json (pos 1) s.audit_path s.files)
      (started_at, n) ← look (λ s. (s.started_at, count s.operations))
      pure (
          write_json 200 (
            Request.summary h.info.version state.0 state.1 n (is_readable h e r sess u listed)
              (has_events h e r sess u listed) started_at e.now))

    unfoldable pub exported : Result Diagnostics.Error Text → Steps Response
    exported (ok b) = do
      log h e r u.username u.role (codes "diagnostics.export") (codes "control-center")
          (codes "success") []
      pure (write_json 200 (Request.bundle b))
    exported (err _) = do
      log h e r u.username u.role (codes "diagnostics.export") (codes "control-center")
          (codes "failed") (codes "diagnostics_build_failed")
      raise (
          refuse h e r 503 (codes "diagnostics_build_failed")
            (codes "Unable to build diagnostic package"))

    -- `diagnostics.Build`, after it has read the audit log.
    unfoldable pub export_events : Result Audit.Error (List AuditEvent) → Steps Response
    export_events (err _) = exported (err read_audit)
    export_events (ok events) = do
      store ← look (λ s. s.store)
      (started_at, ops) ← look (λ s. (s.started_at, s.operations))
      exported (pack h.archive e.now h.info e.process started_at (id h e r) store events ops)

    unfoldable pub export_diagnostics : Steps Response
    export_diagnostics = do
      events ← look (λ s. recent h.json (pos 500) s.audit_path s.files)
      export_events events
