-- ===== src/HttpServer/Stepwise/Stale.antt =====
-- A login between its check of the password and its making of the session.
use srv_deployment.Prelude.{
  ℕ, zero, suc, ◌+◌, ◌≤◌, ◌≡◌, refl, sym, ap, ◌∙◌, true, some, List, [], ◌∷◌, ◌++◌, arith, Text,
  pos, ok,
}
use srv_deployment.Auth.Limiter
use srv_deployment.Auth.Sessions.{create, lookup}
use srv_deployment.Auth.Sessions.Lifetime.{lookup-create}
use srv_deployment.HttpServer.Guards.{valid_origin, client_ip}
use srv_deployment.HttpServer.Request.{
  Request, Response, LoginRequest, decode_json, logged_in, public_user, session_cookie, with_cookie,
  write_json,
}
use srv_deployment.HttpServer.Routes.{login, route, with_id}
use srv_deployment.HttpServer.Server.{Server, Host, Moment, audit_event}
use srv_deployment.HttpServer.SignIn.{login_key, opened, stored, encode-ne-nil, create-some}
use srv_deployment.HttpServer.Stepwise.{Steps, done, pure, raise, atom, ◌>>=◌, ◌>>◌}
use srv_deployment.HttpServer.Stepwise.Interleaved.{idle}
use srv_deployment.HttpServer.Stepwise.Pool.{
  Pool, Event, arrives, advances, turn, advance, step, run_events, turns, answer, answer_of,
}
use srv_deployment.HttpServer.Stepwise.Requests
use srv_deployment.HttpServer.Stepwise.Requests.{log_in, value_or, otherwise, handle, request_steps}
use mathlib.Core.Path.{subst}
use srv_deployment.State.Document.{User}
use srv_deployment.State.Store.{verify_credentials}
use srv_deployment.Strings.Base64.{url, encode}

abbrev pub welcome : User → (token cs : Text) → Response
welcome u token cs =
    with_cookie (session_cookie token (pos 43200))
      (write_json 200 (logged_in (public_user u) (encode url cs)))

abbrev three_turns : Steps Response → Server → Steps Response × Server
three_turns m s = let (m₁, s₁) = turn m s in let (m₂, s₂) = turn m₁ s₁ in turn m₂ s₂

-- The pool after a login has checked the password.
abbrev pub checked : Host → Moment → Request → Server → Pool
checked h e r s = run_events h (arrives e r ∷ advances 0 ∷ advances 0 ∷ []) (idle s)

module _ (h : Host) where
  -- A request that has no turn stays as it is.
  run_events-first :
      (events : List Event) (m : Steps Response) (ms : List (Steps Response)) (s : Server)
      → turns 0 events ≡ 0
      → (others : List (Steps Response)) × ((run_events h events
            (record { server = s; requests = m ∷ ms })).requests
          ≡ m ∷ others)
  unfolding run_events step advance turns
  run_events-first [] m ms s x = (ms, refl)
  run_events-first (arrives e r ∷ events) m ms s x =
      run_events-first events m (ms ++ request_steps h e r ∷ []) s x
  run_events-first (advances zero ∷ events) m ms s x = absurd (omega (arith, x))
  run_events-first (advances (suc j) ∷ events) m ms s x =
      let (others, t) = advance j ms s in run_events-first events m others t (ground arith)

  module _ (e : Moment) (r : Request) where
    three_turns-log_in :
        (key target : Text) (in_ : LoginRequest) (s t : Server) (u : User) (bs cs : Text)
        → verify_credentials h.platform in_.username in_.password s.store ≡ some u
        → e.token_bytes ≡ some bs
        → e.csrf_bytes ≡ some cs
        → ((three_turns (turn (log_in h e r key target in_) s).0 t).0
            ≡ done (ok (welcome u (encode url bs) cs)))
          × ((three_turns (turn (log_in h e r key target in_) s).0 t).1.sessions
              ≡ stored h.platform
                  (encode url bs)
                  (opened u (e.session_at + t.sessions.ttl) cs)
                  t.sessions)
    unfolding turn log_in pure raise atom ◌>>=◌ ◌>>◌ value_or audit_event create
    three_turns-log_in key target in_ s t u bs cs verified token csrf =
        rw (verified, token, csrf) (refl, refl)

    turn-login :
        (s : Server) (in_ : LoginRequest)
        → route r.method r.segments ≡ login
        → valid_origin h.platform h.net r ≡ true
        → decode_json h.bodies h.bodies.login r.body ≡ some in_
        → (Limiter.allowed (login_key h r in_) e.allowed_at s.limiter).0 ≡ true
        → turn (handle h e r (route r.method r.segments)) s ≡ (
          log_in h e r
              (login_key h r in_)
              (h.platform.to_lower (h.platform.trim_space in_.username))
              in_,
          record s { limiter = (Limiter.allowed (login_key h r in_) e.allowed_at s.limiter).1 },
        )
    unfolding turn handle Requests.login pure raise atom ◌>>=◌ ◌>>◌ value_or otherwise
    turn-login s in_ at origin body open_ = rw (at, origin, body, open_) refl

  module _ (e : Moment) (r : Request) where
    checked_login :
        (s : Server) (in_ : LoginRequest)
        → route r.method r.segments ≡ login
        → valid_origin h.platform h.net r ≡ true
        → decode_json h.bodies h.bodies.login r.body ≡ some in_
        → (Limiter.allowed (login_key h r in_) e.allowed_at s.limiter).0 ≡ true
        → checked h e r s ≡ (
            let limited = record s {
              limiter = (Limiter.allowed (login_key h r in_) e.allowed_at s.limiter).1;
            } in
            let (m, t) =
              turn
                (log_in h e
                  (with_id e r)
                  (login_key h r in_)
                  (h.platform.to_lower (h.platform.trim_space in_.username))
                  in_)
                limited in
            record { server = t; requests = m ∷ [] })
    unfolding run_events step advance request_steps client_ip valid_origin
    checked_login s in_ at origin body open_ =
        let after : Steps Response × Server → Pool =
          λ x. record { server = (turn x.0 x.1).1; requests = (turn x.0 x.1).0 ∷ [] } in
        ap after (turn-login e (with_id e r) s in_ at origin body open_)

  three_advances :
      (p : Pool) (m : Steps Response) (others : List (Steps Response))
      → p.requests ≡ m ∷ others
      → ((run_events h (advances 0 ∷ advances 0 ∷ advances 0 ∷ []) p).requests
          ≡ (three_turns m p.server).0 ∷ others)
        × ((run_events h (advances 0 ∷ advances 0 ∷ advances 0 ∷ []) p).server
            ≡ (three_turns m p.server).1)
  unfolding run_events step advance
  three_advances p m others x = rw x (refl, refl)

-- Its other calls: the limiter, the session and the audit event.
abbrev pub rest_of_login : List Event
rest_of_login = advances 0 ∷ advances 0 ∷ advances 0 ∷ []

-- A login that has checked the password logs the user in, whatever the other requests do before it makes
-- the session: they may have changed the password, blocked the user and revoked all its sessions, and
-- the session is made all the same, and found up to the end of its lifetime. (The login comes from an
-- allowed origin and within the limit of attempts, and random bytes can be read.)
pub stale_login :
    (h : Host) (e : Moment) (r : Request) (s : Server) (in_ : LoginRequest) (u : User) (b : ℕ)
    (bs cs : Text) (meanwhile : List Event) (later : ℕ)
    → route r.method r.segments ≡ login
    → valid_origin h.platform h.net r ≡ true
    → decode_json h.bodies h.bodies.login r.body ≡ some in_
    → (Limiter.allowed (login_key h r in_) e.allowed_at s.limiter).0 ≡ true
    → verify_credentials h.platform in_.username in_.password s.store ≡ some u
    → e.token_bytes ≡ some (b ∷ bs)
    → e.csrf_bytes ≡ some cs
    → turns 0 meanwhile ≡ 0
    → later ≤ e.session_at + (run_events h meanwhile (checked h e r s)).server.sessions.ttl
    → (answer 0 (run_events h rest_of_login (run_events h meanwhile (checked h e r s))).requests
        ≡ some (welcome u (encode url (b ∷ bs)) cs))
      × ((lookup h.platform
            (encode url (b ∷ bs))
            later
            (run_events h rest_of_login
              (run_events h meanwhile (checked h e r s))).server.sessions).0
          ≡ some (
              opened u
                (e.session_at + (run_events h meanwhile (checked h e r s)).server.sessions.ttl)
                cs))
unfolding answer answer_of
stale_login h e r s in_ u b bs cs meanwhile later at origin body open_ verified token csrf away
      alive =
    let q = with_id e r in
    let key = login_key h r in_ in
    let target = h.platform.to_lower (h.platform.trim_space in_.username) in
    let limited : Server = record s { limiter = (Limiter.allowed key e.allowed_at s.limiter).1 } in
    let (m, t) = turn (log_in h e q key target in_) limited in
    let p = run_events h meanwhile (checked h e r s) in
    let (others, waiting) : (others : List (Steps Response)) × (p.requests ≡ m ∷ others) =
      subst
        (λ (c : Pool).
          (others : List (Steps Response)) × ((run_events h meanwhile c).requests ≡ m ∷ others))
        (sym (checked_login h e r s in_ at origin body open_))
        (run_events-first h meanwhile m [] t away) in
    let (ended, after) = three_advances h p m others waiting in
    let (welcomed, sessions) =
      three_turns-log_in h e q key target in_ limited p.server u (b ∷ bs) cs verified token csrf in
    let found =
      lookup-create h.platform u e.session_at (b ∷ bs) cs p.server.sessions _ (encode url (b ∷ bs))
        _ (create-some h.platform u e.session_at (b ∷ bs) cs p.server.sessions) later
        (encode url (b ∷ bs)) (encode-ne-nil b bs) in
    (
      ap (answer 0) ended ∙ ap answer_of welcomed,
      rw (after, sessions) (ground (arith, found, alive)),
    )
