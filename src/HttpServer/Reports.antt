-- ===== src/HttpServer/Reports.antt =====
-- The handlers that report: health, status, users, operations, the audit log, and the diagnostics.
use srv_deployment.Prelude.{
  Bool, true, false, List, [], ◌∷◌, map, Text, codes, if◌then◌else◌, pos, Result, ok, err,
}
use srv_deployment.Audit
use srv_deployment.Audit.{AuditEvent, recent}
use srv_deployment.Auth.Sessions.{Session}
use srv_deployment.Diagnostics
use srv_deployment.Diagnostics.{build}
use srv_deployment.Exec.{◌>>=◌, ◌>>◌, pure, raise, gets}
use srv_deployment.Operations
use srv_deployment.Operations.{status_succeeded, status_failed, list_records, count}
use srv_deployment.State.Document.{User, schema_version}
use srv_deployment.State.Listing.{list_users}
use srv_deployment.State.Store.{ready}
use srv_deployment.HttpServer.Guards.{query_limit}
use srv_deployment.HttpServer.Request.{
  Request, Response, public_user, health, readiness, version, system_status, users, operations,
  events, summary, bundle, write_json,
}
use srv_deployment.HttpServer.Server.{Host, Moment, Handler, id, refuse, audit_event}

module _ (h : Host) (e : Moment) (r : Request) where
  unfoldable pub get_health : Handler Response
  get_health = pure (write_json 200 (health e.now))

  unfoldable pub get_readiness : Handler Response
  get_readiness = do
    state ← gets (λ s. ready s.store)
    pure (write_json (if state.0 then 200 else 503) (readiness state.1 state.0))

  unfoldable pub get_version : Handler Response
  get_version = pure (write_json 200 (version h.info schema_version Operations.schema_version))

  module _ (sess : Session) (u : User) where
    unfoldable pub get_system_status : Handler Response
    get_system_status = do
      s ← gets (λ s. s)
      let (is_ready, detail) = ready s.store
      pure (
          write_json 200 (
            system_status (public_user u) is_ready detail e.process s.started_at e.now
              (count s.operations)))

    unfoldable pub get_users : Handler Response
    get_users = do
      listed ← gets (λ s. list_users s.store)
      pure (write_json 200 (users (map public_user listed)))

    unfoldable pub get_operations : Handler Response
    get_operations = do
      listed ← gets (λ s. list_records (query_limit r (pos 100)) s.operations)
      pure (write_json 200 (operations listed))

    abbrev pub audit_answer : Result Audit.Error (List AuditEvent) → Response
    audit_answer (ok listed) = write_json 200 (events listed)
    audit_answer (err _) =
        refuse h e r 503 (codes "audit_unavailable") (codes "Audit log is unavailable")

    unfoldable pub get_audit : Handler Response
    get_audit = do
      listed ← gets (λ s. recent h.json (query_limit r (pos 100)) s.audit_path s.files)
      pure (audit_answer listed)

    abbrev pub is_readable : Result Audit.Error (List AuditEvent) → Bool
    is_readable (ok listed) = true
    is_readable (err _) = false

    abbrev pub has_events : Result Audit.Error (List AuditEvent) → Bool
    has_events (ok (event ∷ listed)) = true
    has_events _ = false

    unfoldable pub get_summary : Handler Response
    get_summary = do
      s ← gets (λ s. s)
      let (is_ready, detail) = ready s.store
      let listed = recent h.json (pos 1) s.audit_path s.files
      pure (
          write_json 200 (
            summary h.info.version is_ready detail (count s.operations) (is_readable listed)
              (has_events listed) s.started_at e.now))

    abbrev exported : Result Diagnostics.Error Text → Handler Response
    exported (ok b) = do
      audit_event h e r u.username u.role (codes "diagnostics.export") (codes "control-center")
          (codes "success") []
      pure (write_json 200 (bundle b))
    exported (err _) = do
      audit_event h e r u.username u.role (codes "diagnostics.export") (codes "control-center")
          (codes "failed") (codes "diagnostics_build_failed")
      raise (
          refuse h e r 503 (codes "diagnostics_build_failed")
            (codes "Unable to build diagnostic package"))

    unfoldable pub export_diagnostics : Handler Response
    export_diagnostics = do
      built ← gets (λ s.
          build h.archive e.now h.json h.info e.process s.started_at (id h e r) s.store s.audit_path
            s.files s.operations)
      exported built
