-- ===== src/HttpServer/Routes.antt =====
-- The routes of `New`, `requireAuth`, `requirePermission` and `requestMiddleware`.
use srv_deployment.Prelude.{
  ◌&&◌, ◌||◌, List, [], ◌∷◌, ◌==◌, ◌!=◌, Text, codes, if◌then◌else◌, Result, ok, err, text_eq,
  nat_eq, int_eq,
}
use srv_deployment.Auth.Sessions.{Session}
use srv_deployment.Exec.{◌>>=◌, ◌>>◌, pure, raise}
use srv_deployment.State.Document.{User}
use srv_deployment.HttpServer.Guards.{has_permission, new_operation_id}
use srv_deployment.HttpServer.Request.{Request, Response}
use srv_deployment.HttpServer.Server.{Server, Host, Moment, Handler, refuse, current_session}
use srv_deployment.HttpServer.Handlers
use srv_deployment.HttpServer.Handlers.{
  get_session, change_password, create_user, set_blocked, unauthenticated, otherwise, value_or,
}
use srv_deployment.HttpServer.Reports.{
  get_health, get_readiness, get_version, get_system_status, get_users, get_operations, get_audit,
  get_summary, export_diagnostics,
}

-- The patterns of the `ServeMux`. `blocked` has the name of the user in the path, `elsewhere` is what
-- no handler of the API serves: files and redirections.
pub data Route : Type 0 where
  health readiness version login session logout password status users create operations audit
        summary export not_found elsewhere :
      Route
  blocked : Text → Route

-- A pattern with the method GET matches HEAD, too.
abbrev get_or : Text → Route → Route
get_or method route = if method == codes "GET" || method == codes "HEAD" then route else not_found

abbrev post_or : Text → Route → Route
post_or method route = if method == codes "POST" then route else not_found

abbrev user_list : Text → Route
user_list method = if method == codes "POST" then create else get_or method users

abbrev two_segments : (method a b : Text) → Route
two_segments method a b =
    if a == codes "auth" && b == codes "login"
    then post_or method login
    else if a == codes "auth" && b == codes "session"
    then get_or method session
    else if a == codes "auth" && b == codes "logout"
    then post_or method logout
    else if a == codes "auth" && b == codes "password"
    then post_or method password
    else if a == codes "system" && b == codes "status"
    then get_or method status
    else if a == codes "rbac" && b == codes "users"
    then user_list method
    else if a == codes "diagnostics" && b == codes "summary"
    then get_or method summary
    else if a == codes "diagnostics" && b == codes "export"
    then get_or method export
    else not_found

abbrev one_segment : (method a : Text) → Route
one_segment method a =
    if a == codes "health"
    then get_or method health
    else if a == codes "readiness"
    then get_or method readiness
    else if a == codes "version"
    then get_or method version
    else if a == codes "operations"
    then get_or method operations
    else if a == codes "audit"
    then get_or method audit
    else not_found

-- `{username}` stands for a segment that is not empty.
abbrev under_api : Text → List Text → Route
under_api method (a ∷ []) = one_segment method a
under_api method (a ∷ b ∷ []) = two_segments method a b
under_api method (a ∷ b ∷ name ∷ c ∷ []) =
    if a == codes "rbac" && b == codes "users" && name != [] && c == codes "blocked"
    then post_or method (blocked name)
    else not_found
under_api method _ = not_found

-- The handler of a path that is clean; a path that `ServeMux` cleans is redirected before.
unfoldable pub route : (method : Text) → (segments : List Text) → Route
route method [] = elsewhere
route method (api ∷ []) = elsewhere
route method (api ∷ v ∷ segments) =
    if api == codes "api"
    then (if v == codes "v1" then under_api method segments else not_found)
    else elsewhere

module _ (h : Host) (e : Moment) (r : Request) where
  -- `requireAuth`
  unfoldable pub require_auth : (Session → User → Handler Response) → Handler Response
  require_auth next = do
    found ← current_session h e r
    (sess, u) ← value_or found (pure tt) (unauthenticated h e r)
    next sess u

  -- `requirePermission`
  unfoldable pub require_permission : Text → (Session → User → Handler Response) → Handler Response
  unfolding require_auth
  require_permission permission next = require_auth λ sess u.
      otherwise (has_permission u.role permission)
        (raise (refuse h e r 403 (codes "permission_denied") (codes "Permission denied")))
      >> next sess u

  unfoldable pub handle : Route → Handler Response
  handle health = get_health h e r
  handle readiness = get_readiness h e r
  handle version = get_version h e r
  handle login = Handlers.login h e r
  handle session = get_session h e r
  handle logout = require_auth (Handlers.logout h e r)
  handle password = require_auth (change_password h e r)
  handle status = require_permission (codes "system.read") (get_system_status h e r)
  handle users = require_permission (codes "rbac.users.read") (get_users h e r)
  handle create = require_permission (codes "rbac.users.write") (create_user h e r)
  handle (blocked name) =
      require_permission (codes "rbac.users.write") (λ sess u. set_blocked h e r sess u name)
  handle operations = require_permission (codes "operations.read") (get_operations h e r)
  handle audit = require_permission (codes "audit.read") (get_audit h e r)
  handle summary = require_permission (codes "system.read") (get_summary h e r)
  handle export = require_permission (codes "diagnostics.export") (export_diagnostics h e r)
  handle not_found =
      pure (refuse h e r 404 (codes "api_not_found") (codes "API endpoint not found"))
  handle elsewhere = pure (h.answer r)

abbrev pub answered : Result Response Response × Server → Response × Server
answered (ok response, s) = (response, s)
answered (err response, s) = (response, s)

-- `requestMiddleware`, whose header replaces one that the client sent. Its other headers are constants.
abbrev pub with_id : Moment → Request → Request
with_id e r = record r { operation_header = new_operation_id e.id_bytes e.formatted_time }

unfoldable pub serve : Host → Moment → Request → Server → Response × Server
serve h e r s = answered (handle h e (with_id e r) (route r.method r.segments) s)

-- Requests, one after another; each meets its own moment.
unfoldable pub serve_all : Host → List (Moment × Request) → Server → Server
serve_all h [] s = s
serve_all h ((e, r) ∷ requests) s = serve_all h requests (serve h e r s).1
