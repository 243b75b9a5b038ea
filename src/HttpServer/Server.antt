-- ===== src/HttpServer/Server.antt =====
-- `Server`, `New`, and the helpers of the handlers that change its state: `auditEvent`,
-- `beginOperation`, `finishOperation` and `currentSession`.
use srv_deployment.Prelude.{
  ℕ, ◌*◌, ◌^◌, ◌||◌, Option, none, some, ◌!=◌, Text, codes, if◌then◌else◌, pos, Result, ok, err,
  text_eq, nat_eq, int_eq,
}
use srv_deployment.Audit
use srv_deployment.Audit.{AuditEvent, Json, append}
use srv_deployment.Auth.Limiter.{LoginLimiter, new_login_limiter}
use srv_deployment.Auth.Sessions.{Session, Manager, new_manager, lookup, revoke}
use srv_deployment.Diagnostics.{Archive}
use srv_deployment.Exec.{Exec, ◌>>=◌, pure, raise}
use srv_deployment.Files
use srv_deployment.Files.{Files}
use srv_deployment.Operations
use srv_deployment.Operations.{Record, Codec, Status, status_succeeded, start, finish}
use srv_deployment.Platform.{Platform}
use srv_deployment.Process.{BuildInfo, Process}
use srv_deployment.State.Document
use srv_deployment.State.Document.{User, Encoder, Writes}
use srv_deployment.State.Store.{get_user}
use srv_deployment.HttpServer.Guards.{Net, client_ip, operation_id}
use srv_deployment.HttpServer.Request.{Request, Response, Bodies, write_error}

-- The state that the handlers share: the fields of `Server`, and the files.
pub record Server : Type 0 where
  pub store : Document.Store
  pub operations : Operations.Store
  pub audit_path : Text
  pub sessions : Manager
  pub limiter : LoginLimiter
  pub started_at : ℕ
  pub files : Files

-- What the program takes from elsewhere. `answer` is what `http.FileServer` and the redirections of the
-- `ServeMux` answer.
pub record Host : Type 0 where
  pub platform : Platform
  pub net : Net
  pub bodies : Bodies
  pub encoder : Encoder
  pub codec : Codec
  pub json : Json
  pub archive : Archive
  pub info : BuildInfo
  pub answer : Request → Response

-- What one request meets: the readings of the clock in the calls that it makes, random bytes (`none` for
-- an error), how its writes end, and the process.
pub record Moment : Type 0 where
  pub id_bytes : Option Text
  pub formatted_time : Text
  pub lookup_at : ℕ
  pub allowed_at : ℕ
  pub failure_at : ℕ
  pub session_at : ℕ
  pub start_at : ℕ
  pub change_at : ℕ
  pub finish_at : ℕ
  pub audit_at : ℕ
  pub now : ℕ
  pub token_bytes : Option Text
  pub csrf_bytes : Option Text
  pub salt : Option Text
  pub start_write : Files.Outcome
  pub finish_write : Files.Outcome
  pub state_writes : Writes
  pub audit_write : Audit.Outcome
  pub process : Process

-- Nanoseconds, as in `time.Duration`
abbrev pub seconds : ℕ → ℕ
seconds n = n * 10 ^ 9

-- `New`
unfoldable pub new_server :
    (now : ℕ) → Document.Store → Operations.Store → (audit_path : Text) → Files → Server
new_server now store ops audit_path fs = record {
  store = store;
  operations = ops;
  audit_path = audit_path;
  sessions = new_manager (seconds (12 * 3600));
  limiter = new_login_limiter (pos 5) (seconds (5 * 60));
  started_at = now;
  files = fs;
}

-- A handler that has written an answer and returns early raises it.
abbrev pub Handler : Type 0 → Type 0
Handler A = Exec Response Server A

-- A call of a component, with the result that it returns.
abbrev pub on_state :
    {A : Type 0} → Exec Document.Error Document.World A → Handler (Result Document.Error A)
on_state m s =
    let (r, w) = m (record { store = s.store; files = s.files }) in
    (ok r, record s { store = w.store; files = w.files })

abbrev pub on_operations :
    {A : Type 0} → Exec Operations.Error Operations.World A → Handler (Result Operations.Error A)
on_operations m s =
    let (r, w) = m (record { store = s.operations; files = s.files }) in
    (ok r, record s { operations = w.store; files = w.files })

abbrev pub on_sessions : {A : Type 0} → (Manager → A × Manager) → Handler A
on_sessions m s = let (a, sessions) = m s.sessions in (ok a, record s { sessions = sessions })

module _ (h : Host) (e : Moment) (r : Request) where
  abbrev pub id : Text
  id = operation_id h.platform r

  abbrev pub refuse : ℕ → (code message : Text) → Response
  refuse status code message = write_error status code message id

  -- `auditEvent`; an error is logged only.
  unfoldable pub audit_event : (actor role action target result error_code : Text) → Handler Unit
  audit_event actor role action target result error_code s =
      let event : AuditEvent = record {
        time = 0;
        operation_id = id;
        actor = actor;
        role = role;
        action = action;
        target = target;
        result = result;
        remote_ip = client_ip h.net r;
        error_code = error_code;
      } in
      (
        ok tt,
        record s {
          files = (append h.platform h.json e.audit_write e.audit_at s.audit_path event s.files).1;
        },
      )

  abbrev or_unavailable : Result Operations.Error Record → Handler Unit
  or_unavailable (ok rec) = pure tt
  or_unavailable (err _) =
      raise (
        refuse 503 (codes "operation_store_unavailable")
          (codes "Operation tracking is unavailable"))

  -- `beginOperation`
  unfoldable pub begin_operation : User → (kind target : Text) → Handler Unit
  begin_operation u kind target = do
    started ←
        on_operations (start h.codec e.start_write e.start_at id kind u.username u.role target)
    or_unavailable started

  -- `finishOperation`; an error of `Finish` is logged only.
  unfoldable pub finish_operation :
      User → (kind target : Text) → Status → (error_code : Text) → Handler Unit
  finish_operation u kind target status error_code = do
    finished ← on_operations (finish h.codec e.finish_write e.finish_at id status error_code)
    audit_event u.username u.role kind target
        (if status != status_succeeded then codes "failed" else codes "success") error_code

  -- From the cookie to the session; the user of the session must still be there, with its role and not
  -- blocked. `none` for `false`.
  abbrev found_user : Text → Session → Option User → Handler (Option (Session × User))
  found_user token sess none s =
      (ok none, record s { sessions = revoke h.platform token s.sessions })
  found_user token sess (some u) s =
      if u.blocked || u.role != sess.role
      then (ok none, record s { sessions = revoke h.platform token s.sessions })
      else (ok (some (sess, u)), s)

  abbrev found_session : Text → Option Session → Handler (Option (Session × User))
  found_session token none s = (ok none, s)
  found_session token (some sess) s =
      found_user token sess (get_user h.platform sess.username s.store) s

  abbrev from_cookie : Option Text → Handler (Option (Session × User))
  from_cookie none = pure none
  from_cookie (some token) = do
    found ← on_sessions (lookup h.platform token e.lookup_at)
    found_session token found

  -- `currentSession`
  unfoldable pub current_session : Handler (Option (Session × User))
  current_session = from_cookie r.cookie
