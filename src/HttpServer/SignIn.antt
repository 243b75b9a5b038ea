-- ===== src/HttpServer/SignIn.antt =====
-- From a login to the session that it opens.
use srv_deployment.Prelude.{
  ℕ, ◌+◌, ◌≤◌, ◌≡◌, refl, ◌≢◌, true, false, some, [], ◌∷◌, ◌++◌, arith, Text, pos, ok,
}
use srv_deployment.Auth.Limiter
use srv_deployment.Auth.Sessions.{Session, Manager, create, lookup, digest}
use srv_deployment.Auth.Sessions.Lifetime.{lookup-create}
use srv_deployment.Dict
use srv_deployment.Platform.{Platform}
use srv_deployment.State.Document.{User}
use srv_deployment.State.Keyed.{IsKeyed, get_user-verify_credentials}
use srv_deployment.State.Store.{get_user, verify_credentials}
use srv_deployment.Strings.Base64.{url, encode}
use srv_deployment.HttpServer.Guards.{valid_origin, client_ip}
use srv_deployment.HttpServer.Request.{
  Request, LoginRequest, decode_json, logged_in, public_user, session_cookie, with_cookie,
  write_json,
}
use srv_deployment.HttpServer.Server.{Server, Host, Moment, audit_event, current_session}
use srv_deployment.HttpServer.Handlers
use srv_deployment.HttpServer.Handlers.{log_in, get_session}
use srv_deployment.HttpServer.Effects.{answered-ok, answered-state}
use srv_deployment.HttpServer.Routes.{login, session, route, handle, answered, with_id, serve}

-- The key under which the attempts of a login are counted.
abbrev pub login_key : Host → Request → LoginRequest → Text
login_key h r in_ =
    client_ip h.net r ++ b'|' ∷ h.platform.to_lower (h.platform.trim_space in_.username)

module _ (h : Host) (e : Moment) (r : Request) where
  module _ (s : Server) (in_ : LoginRequest) (u : User) (token : Text) (sess : Session)
      (m : Manager)
      (verified : verify_credentials h.platform in_.username in_.password s.store ≡ some u)
      (made : create h.platform u e.session_at e.token_bytes e.csrf_bytes s.sessions
        ≡ (some (token, sess), m)) where
    log_in_lem :
        (key target : Text) (l : Limiter.LoginLimiter)
        → ((log_in h e r key target in_ (record s { limiter = l })).0
            ≡ ok (
                with_cookie
                  (session_cookie token (pos 43200))
                  (write_json 200 (logged_in (public_user u) sess.csrf))))
          × ((log_in h e r key target in_ (record s { limiter = l })).1.sessions ≡ m)
    unfolding log_in audit_event
    log_in_lem key target l = ground (arith, verified, made)

    store-log_in :
        (key target : Text) (l : Limiter.LoginLimiter)
        → (log_in h e r key target in_ (record s { limiter = l })).1.store ≡ s.store
    unfolding log_in audit_event
    store-log_in key target l = ground (arith, verified, made)

    login_lem :
        valid_origin h.platform h.net r ≡ true
        → decode_json h.bodies h.bodies.login r.body ≡ some in_
        → (Limiter.allowed (login_key h r in_) e.allowed_at s.limiter).0 ≡ true
        → ((Handlers.login h e r s).0
            ≡ ok (
                with_cookie
                  (session_cookie token (pos 43200))
                  (write_json 200 (logged_in (public_user u) sess.csrf))))
          × ((Handlers.login h e r s).1.sessions ≡ m)
          × ((Handlers.login h e r s).1.store ≡ s.store)
    unfolding Handlers.login
    login_lem origin body open_ =
        let target = h.platform.to_lower (h.platform.trim_space in_.username) in
        let key = login_key h r in_ in
        let l = (Limiter.allowed key e.allowed_at s.limiter).1 in
        ground (arith, origin, body, open_, log_in_lem key target l, store-log_in key target l)

  -- A session that is found, of a user who is there, unblocked and in the role of the session, is
  -- answered.
  get_session_lem :
      (s : Server) (token : Text) (sess : Session) (u : User)
      → r.cookie ≡ some token
      → (lookup h.platform token e.lookup_at s.sessions).0 ≡ some sess
      → get_user h.platform sess.username s.store ≡ some u
      → u.blocked ≡ false
      → u.role ≡ sess.role
      → (get_session h e r s).0 ≡ ok (write_json 200 (logged_in (public_user u) sess.csrf))
  unfolding get_session current_session
  get_session_lem s token sess u c l g b k = ground (arith, c, l, g, b, k)

abbrev pub opened : User → ℕ → Text → Session
opened u ends cs = record {
  username = u.username;
  role = u.role;
  csrf = encode url cs;
  expires_at = ends;
}

abbrev pub stored : Platform → Text → Session → Manager → Manager
stored p token sess m = record m { sessions = Dict.put m.sessions (digest p token) sess }

pub create-some :
    (p : Platform) (u : User) (now : ℕ) (bs cs : Text) (m : Manager)
    → create p u now (some bs) (some cs) m ≡ (
      some (encode url bs, opened u (now + m.ttl) cs),
      stored p (encode url bs) (opened u (now + m.ttl) cs) m,
    )
unfolding create
create-some p u now bs cs m = refl

pub encode-ne-nil : (b : ℕ) (bs : Text) → encode url (b ∷ bs) ≢ []
unfolding encode
encode-ne-nil b [] = cc
encode-ne-nil b (c ∷ []) = cc
encode-ne-nil b (c ∷ d ∷ bs) = cc

pub serve-login :
    (h : Host) (e : Moment) (r : Request) (s : Server)
    → route r.method r.segments ≡ login
    → serve h e r s ≡ answered (Handlers.login h e (with_id e r) s)
unfolding serve handle
serve-login h e r s at = rw at refl

serve-session :
    (h : Host) (e : Moment) (r : Request) (s : Server)
    → route r.method r.segments ≡ session
    → serve h e r s ≡ answered (get_session h e (with_id e r) s)
unfolding serve handle
serve-session h e r s at = rw at refl

-- Whoever sends the right name and password, from an allowed origin, within the limit of attempts and
-- while random bytes can be read, is logged in: the answer sets a cookie and holds the user and a CSRF
-- token. A request for the session with that cookie, up to the end of its lifetime, is answered the
-- same. (Each user of the store stands under its own name, in normal form.)
pub sign_in :
    (h : Host) (e e' : Moment) (r r' : Request) (s : Server) (in_ : LoginRequest) (u : User) (b : ℕ)
    (bs cs : Text)
    → IsKeyed h.platform s.store.doc.users
    → route r.method r.segments ≡ login
    → valid_origin h.platform h.net r ≡ true
    → decode_json h.bodies h.bodies.login r.body ≡ some in_
    → (Limiter.allowed (login_key h r in_) e.allowed_at s.limiter).0 ≡ true
    → verify_credentials h.platform in_.username in_.password s.store ≡ some u
    → e.token_bytes ≡ some (b ∷ bs)
    → e.csrf_bytes ≡ some cs
    → route r'.method r'.segments ≡ session
    → r'.cookie ≡ some (encode url (b ∷ bs))
    → e'.lookup_at ≤ e.session_at + s.sessions.ttl
    → ((serve h e r s).0
        ≡ with_cookie
            (session_cookie (encode url (b ∷ bs)) (pos 43200))
            (write_json 200 (logged_in (public_user u) (encode url cs))))
      × ((serve h e' r' (serve h e r s).1).0
          ≡ write_json 200 (logged_in (public_user u) (encode url cs)))
unfolding client_ip valid_origin
sign_in h e e' r r' s in_ u b bs cs keyed at origin body open_ verified token csrf at' cookie
      alive =
    let rr = with_id e r in
    let sess = opened u (e.session_at + s.sessions.ttl) cs in
    let t = encode url (b ∷ bs) in
    let m = stored h.platform t sess s.sessions in
    let plain = create-some h.platform u e.session_at (b ∷ bs) cs s.sessions in
    let made : create h.platform u e.session_at e.token_bytes e.csrf_bytes s.sessions
        ≡ (some (t, sess), m) =
      rw (token, csrf) plain in
    let (answer, sessions, store) =
      login_lem h e rr s in_ u t sess m verified made origin body open_ in
    let found =
      lookup-create h.platform u e.session_at (b ∷ bs) cs s.sessions m t sess plain e'.lookup_at t
        (encode-ne-nil b bs) in
    let (known, unblocked) =
      get_user-verify_credentials h.platform in_.username in_.password s.store u keyed verified in
    let s' = (Handlers.login h e rr s).1 in
    let looked : (lookup h.platform t e'.lookup_at s'.sessions).0 ≡ some sess =
      rw sessions (ground (arith, found, alive)) in
    let again =
      get_session_lem h e' (with_id e' r') s' t sess u cookie looked (rw store known) unblocked
        refl in
    (
      rw (serve-login h e r s at) (answered-ok (Handlers.login h e rr s) _ answer),
      rw
          (
            serve-login h e r s at,
            answered-state (Handlers.login h e rr s),
            serve-session h e' r' s' at',
          )
          (answered-ok (get_session h e' (with_id e' r') s') _ again),
    )
