-- ===== src/HttpServer/Stepwise/Access.antt =====
-- A request that reads its session keeps to the order of calls.
use srv_deployment.Prelude.{
  ℕ, suc, Bool, true, false, ◌||◌, Option, none, some, ◌!=◌, Text, if◌then◌else◌, text_eq, nat_eq,
  int_eq,
}
use srv_deployment.Auth.Sessions.{Session, Manager, revoke}
use srv_deployment.HttpServer.Handlers.{revoke_cookie}
use srv_deployment.HttpServer.Request.{Request, Response}
use srv_deployment.HttpServer.Server.{Server, Host, Moment}
use srv_deployment.HttpServer.Stepwise.{Steps, pure, atom, ◌>>=◌, ◌>>◌}
use srv_deployment.HttpServer.Stepwise.Protocol.{fresh, Quiet, reads, sessions, Protocol, calls}
use srv_deployment.HttpServer.Stepwise.Requests
use srv_deployment.HttpServer.Stepwise.Requests.{
  found_user, found_session, from_cookie, current_session, require_auth, require_permission, log_in,
  get_session, get_readiness, change_password, create_user, set_blocked, get_system_status,
  get_users, get_operations, get_audit, get_summary, exported, export_events, export_diagnostics,
  handle, request_steps,
}
use srv_deployment.State.Document.{User}

module _ (h : Host) (e : Moment) (r : Request) where
  revoke_token-Quiet : (token : Text) → Quiet h e r (Requests.revoke_token h e r token)
  unfolding Requests.revoke_token
  revoke_token-Quiet token = sessions (λ s. revoke h.platform token s.sessions)

  pub revoke_cookie-Quiet :
      (sess : Session) (u : User) (cookie : Option Text)
      → Quiet h e r (revoke_cookie h e r sess u cookie)
  revoke_cookie-Quiet sess u none = reads
  revoke_cookie-Quiet sess u (some token) = sessions (λ s. revoke h.platform token s.sessions)

  pub revoke_if-Quiet :
      (b : Bool) (f : Server → Manager)
      → Quiet h e r (λ s. if b then record s { sessions = f s } else s)
  revoke_if-Quiet true f = sessions f
  revoke_if-Quiet false f = reads

  module _ {n : ℕ} (k : Option (Session × User) → Steps Response)
      (none-Protocol : (m : ℕ) → Protocol h e r fresh m (k none))
      (some-Protocol : (sess : Session) (u : User)
        → Protocol h e r fresh (suc n) (k (some (sess, u)))) where
    if-Protocol :
        (b : Bool) (m other : Steps (Option (Session × User)))
        → Protocol h e r fresh (suc n) (m >>= k)
        → Protocol h e r fresh (suc n) (other >>= k)
        → Protocol h e r fresh (suc n) ((if b then m else other) >>= k)
    if-Protocol true m other x y = x
    if-Protocol false m other x y = y

    found_user-Protocol :
        (token : Text) (sess : Session) (u : Option User)
        → Protocol h e r fresh (suc n) (found_user h e r token sess u >>= k)
    unfolding found_user pure atom ◌>>=◌ ◌>>◌
    found_user-Protocol token sess none = calls (revoke_token-Quiet token) (λ s. none-Protocol _)
    found_user-Protocol token sess (some u) =
        if-Protocol (u.blocked || u.role != sess.role) _ _
          (calls (revoke_token-Quiet token) (λ s. none-Protocol _)) (some-Protocol sess u)

    found_session-Protocol :
        (token : Text) (sess : Option Session)
        → Protocol h e r fresh (suc (suc n)) (found_session h e r token sess >>= k)
    unfolding found_session pure atom ◌>>=◌
    found_session-Protocol token none = none-Protocol _
    found_session-Protocol token (some sess) = calls reads (λ s. found_user-Protocol token sess _)

    from_cookie-Protocol :
        (cookie : Option Text)
        → Protocol h e r fresh (suc (suc (suc n))) (from_cookie h e r cookie >>= k)
    unfolding from_cookie pure atom ◌>>=◌
    from_cookie-Protocol none = none-Protocol _
    from_cookie-Protocol (some token) = calls (sessions _) (λ s. found_session-Protocol token _)

    pub current_session-Protocol :
        Protocol h e r fresh (suc (suc (suc n))) (current_session h e r >>= k)
    unfolding current_session
    current_session-Protocol = from_cookie-Protocol r.cookie
