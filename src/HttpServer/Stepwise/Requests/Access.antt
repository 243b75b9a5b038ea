-- ===== src/HttpServer/Stepwise/Requests/Access.antt =====
-- What the handlers share, call by call: the operation of a request, its session and its permission.
use srv_deployment.Prelude.{
  Bool, true, false, ◌||◌, Option, none, some, ◌!=◌, Text, codes, if◌then◌else◌, Result, ok, err,
  text_eq, nat_eq, int_eq,
}
use srv_deployment.Auth.Sessions.{Session, lookup, revoke}
use srv_deployment.Exec
use srv_deployment.HttpServer.Guards.{has_permission}
use srv_deployment.HttpServer.Handlers.{unauthenticated}
use srv_deployment.HttpServer.Request.{Request, Response}
use srv_deployment.HttpServer.Server.{
  Server, Host, Moment, on_operations, on_sessions, id, refuse, audit_event,
}
use srv_deployment.HttpServer.Stepwise.{Steps, pure, raise, atom, ◌>>=◌, ◌>>◌}
use srv_deployment.Operations
use srv_deployment.Operations.{
  Record, Status, status_succeeded, status_failed, start, finish, list_records, count,
}
use srv_deployment.State.Document.{User}
use srv_deployment.State.Store.{get_user}

-- One read.
abbrev pub look : {A : Type 0} → (Server → A) → Steps A
look f = atom (Exec.gets f)

-- One change.
abbrev pub alter : (Server → Server) → Steps Unit
alter f = atom (Exec.modify f)

unfoldable pub otherwise : Bool → Steps Unit → Steps Unit
otherwise true refused = pure tt
otherwise false refused = refused

unfoldable pub value_or : {A : Type 0} → Option A → Steps Unit → Response → Steps A
value_or none failed refused = failed >>= λ _. raise refused
value_or (some a) failed refused = pure a

module _ (h : Host) (e : Moment) (r : Request) where
  abbrev pub log : (actor role action target result code : Text) → Steps Unit
  log actor role action target result code =
      atom (audit_event h e r actor role action target result code)

  unfoldable pub tracked : Result Operations.Error Record → Steps Unit
  tracked (ok rec) = pure tt
  tracked (err _) = raise (
      refuse h e r 503 (codes "operation_store_unavailable")
        (codes "Operation tracking is unavailable"))

  -- `beginOperation`
  unfoldable pub begin_operation : User → (kind target : Text) → Steps Unit
  begin_operation u kind target = do
    started ← atom (
        on_operations
          (start h.codec e.start_write e.start_at (id h e r) kind u.username u.role target))
    tracked started

  -- `finishOperation`
  unfoldable pub finish_operation :
      User → (kind target : Text) → Status → (code : Text) → Steps Unit
  finish_operation u kind target status code = do
    finished ←
        atom (on_operations (finish h.codec e.finish_write e.finish_at (id h e r) status code))
    log u.username u.role kind target
        (if status != status_succeeded then codes "failed" else codes "success") code

  unfoldable pub revoke_token : Text → Server → Server
  revoke_token token s = record s { sessions = revoke h.platform token s.sessions }

  unfoldable pub found_user : Text → Session → Option User → Steps (Option (Session × User))
  found_user token sess none = alter (revoke_token token) >> pure none
  found_user token sess (some u) =
      if u.blocked || u.role != sess.role
      then (alter (revoke_token token) >> pure none)
      else pure (some (sess, u))

  unfoldable pub found_session : Text → Option Session → Steps (Option (Session × User))
  found_session token none = pure none
  found_session token (some sess) = do
    u ← look (λ s. get_user h.platform sess.username s.store)
    found_user token sess u

  unfoldable pub from_cookie : Option Text → Steps (Option (Session × User))
  from_cookie none = pure none
  from_cookie (some token) = do
    found ← atom (on_sessions (lookup h.platform token e.lookup_at))
    found_session token found

  -- `currentSession`
  unfoldable pub current_session : Steps (Option (Session × User))
  current_session = from_cookie r.cookie

  unfoldable pub require_auth : (Session → User → Steps Response) → Steps Response
  require_auth next = do
    found ← current_session
    (sess, u) ← value_or found (pure tt) (unauthenticated h e r)
    next sess u

  unfoldable pub require_permission : Text → (Session → User → Steps Response) → Steps Response
  unfolding require_auth
  require_permission permission next = require_auth λ sess u.
      otherwise (has_permission u.role permission)
        (raise (refuse h e r 403 (codes "permission_denied") (codes "Permission denied")))
      >> next sess u
