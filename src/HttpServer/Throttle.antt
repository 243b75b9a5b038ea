-- ===== src/HttpServer/Throttle.antt =====
-- Five wrong logins, and the ones after them.
use srv_deployment.Prelude.{
  ℕ, ◌+◌, ◌≤◌, ◌<◌, ◌≡◌, refl, sym, ap, ◌∙◌, true, false, none, some, List, [], ◌∷◌, arith, leb,
  Text, if◌then◌else◌, length, pos,
}
use srv_deployment.Auth.Limiter
use srv_deployment.Auth.Limiter.{LoginLimiter, RateEntry, is_over}
use srv_deployment.Auth.Limiter.Window.{entry}
use srv_deployment.Dict
use srv_deployment.Dict.{get-put, get-remove}
use srv_deployment.HttpServer.Effects.{answered-state, store-login}
use srv_deployment.HttpServer.Guards.{valid_origin, client_ip}
use srv_deployment.HttpServer.Handlers
use srv_deployment.HttpServer.Handlers.{log_in}
use srv_deployment.HttpServer.Request.{Request, LoginRequest, decode_json}
use srv_deployment.HttpServer.Routes.{login, route, answered, with_id, serve, serve_all}
use srv_deployment.HttpServer.Server.{Server, Host, Moment, audit_event}
use srv_deployment.HttpServer.SignIn.{login_key, serve-login}
use mathlib.Core.Path.{subst}
use srv_deployment.State.Document
use srv_deployment.State.Store.{verify_credentials}

-- A window is open for the key until `ends`, with a number of failures that stops at the limit of five.
record IsCounting (key : Text) (ends n : ℕ) (l : LoginLimiter) : Type 0 where
  at :
      Dict.get l.entries key
      ≡ some (record { count = pos (if leb n 5 then n else 5); reset = ends })
  limit : l.limit ≡ pos 5

-- The limiter after an attempt with wrong credentials.
attempt : (key : Text) (allowed_at failure_at : ℕ) → LoginLimiter → LoginLimiter
attempt key allowed_at failure_at l =
    let (open_, l') = Limiter.allowed key allowed_at l in
    if open_ then Limiter.failure key failure_at l' else l'

IsCounting-first :
    (key : Text) (allowed_at failure_at : ℕ) (l : LoginLimiter)
    → l.limit ≡ pos 5
    → is_over (entry key l) allowed_at ≡ true
    → IsCounting key (failure_at + l.window) 1 (attempt key allowed_at failure_at l)
unfolding attempt Limiter.allowed Limiter.failure
IsCounting-first key t u l limit over = record {
  at = grind (arith, get-put, get-remove);
  limit = grind (arith);
}

IsCounting-next :
    (key : Text) (allowed_at failure_at ends n : ℕ) (l : LoginLimiter)
    → 0 < ends
    → allowed_at ≤ ends
    → failure_at ≤ ends
    → IsCounting key ends n l
    → IsCounting key ends (n + 1) (attempt key allowed_at failure_at l)
unfolding attempt Limiter.allowed Limiter.failure
IsCounting-next key t u ends n l live early early' c = record {
  at = grind (arith, c.at, c.limit, get-put);
  limit = grind (arith, c.limit);
}

denied :
    (key : Text) (now ends n : ℕ) (l : LoginLimiter)
    → 0 < ends
    → now ≤ ends
    → 5 ≤ n
    → IsCounting key ends n l
    → (Limiter.allowed key now l).0 ≡ false
unfolding Limiter.allowed
denied key now ends n l live early many c = grind (arith, c.at, c.limit)

-- A login of the key, before the time, with a body that can be read.
pub record IsLogin (h : Host) (key : Text) (ends : ℕ) (e : Moment) (r : Request)
    (in_ : LoginRequest) : Type 0 where
  pub at : route r.method r.segments ≡ login
  pub origin : valid_origin h.platform h.net r ≡ true
  pub body : decode_json h.bodies h.bodies.login r.body ≡ some in_
  pub same_key : login_key h r in_ ≡ key
  pub early : e.allowed_at ≤ ends

-- One with a wrong name or password.
pub record IsWrong (h : Host) (key : Text) (ends : ℕ) (store : Document.Store)
    (x : Moment × Request) : Type 0 where
  pub in_ : LoginRequest
  pub is_login : IsLogin h key ends x.0 x.1 in_
  pub wrong : verify_credentials h.platform in_.username in_.password store ≡ none
  pub failed_early : x.0.failure_at ≤ ends

abbrev pub AllWrong :
    (h : Host) (key : Text) (ends : ℕ) → Document.Store → List (Moment × Request) → Type 0
AllWrong h key ends store [] = Unit
AllWrong h key ends store (x ∷ xs) = IsWrong h key ends store x × AllWrong h key ends store xs

module _ (h : Host) (e : Moment) (r : Request) where
  limiter-login :
      (s : Server) (in_ : LoginRequest)
      → valid_origin h.platform h.net r ≡ true
      → decode_json h.bodies h.bodies.login r.body ≡ some in_
      → verify_credentials h.platform in_.username in_.password s.store ≡ none
      → (Handlers.login h e r s).1.limiter
        ≡ attempt (login_key h r in_) e.allowed_at e.failure_at s.limiter
  unfolding Handlers.login log_in attempt audit_event
  limiter-login s in_ origin body wrong = grind (arith, origin, body, wrong)

  login-denied :
      (s : Server) (in_ : LoginRequest)
      → valid_origin h.platform h.net r ≡ true
      → decode_json h.bodies h.bodies.login r.body ≡ some in_
      → (Limiter.allowed (login_key h r in_) e.allowed_at s.limiter).0 ≡ false
      → ((answered (Handlers.login h e r s)).0.status ≡ 429)
        × ((Handlers.login h e r s).1.sessions ≡ s.sessions)
  unfolding Handlers.login audit_event
  login-denied s in_ origin body closed = ground (arith, origin, body, closed)

module _ (h : Host) (key : Text) (ends : ℕ) (store : Document.Store) where
  -- What a wrong login leaves.
  serve-IsWrong :
      (x : Moment × Request) (s : Server)
      → s.store ≡ store
      → IsWrong h key ends store x
      → ((serve h x.0 x.1 s).1.limiter ≡ attempt key x.0.allowed_at x.0.failure_at s.limiter)
        × ((serve h x.0 x.1 s).1.store ≡ store)
  unfolding client_ip valid_origin
  serve-IsWrong (e, r) s same x =
      let rr = with_id e r in
      let found : verify_credentials h.platform x.in_.username x.in_.password s.store ≡ none =
        rw same x.wrong in
      let after = limiter-login h e rr s x.in_ x.is_login.origin x.is_login.body found in
      rw (serve-login h e r s x.is_login.at, answered-state (Handlers.login h e rr s))
        (
          after ∙ ap (λ k. attempt k e.allowed_at e.failure_at s.limiter) x.is_login.same_key,
          store-login h e rr s ∙ same,
        )

  IsCounting-serve_all :
      (requests : List (Moment × Request)) (s : Server) (n : ℕ)
      → 0 < ends
      → s.store ≡ store
      → AllWrong h key ends store requests
      → IsCounting key ends n s.limiter
      → IsCounting key ends (n + length requests) (serve_all h requests s).limiter
  unfolding serve_all
  IsCounting-serve_all [] s n live same wrong c =
      subst (λ m. IsCounting key ends m s.limiter) (omega arith) c
  IsCounting-serve_all ((e, r) ∷ requests) s n live same (x, wrong) c =
      let (after, kept) = serve-IsWrong (e, r) s same x in
      let next =
        IsCounting-next key e.allowed_at e.failure_at ends n s.limiter live x.is_login.early
          x.failed_early c in
      subst (λ m. IsCounting key ends m (serve_all h requests (serve h e r s).1).limiter)
        (omega arith)
        (IsCounting-serve_all requests (serve h e r s).1 (n + 1) live kept wrong
          (subst (λ l. IsCounting key ends (n + 1) l) (sym after) next))

-- Guessing is bounded: after five wrong logins of one key (an address and a name), the first with no
-- window open for the key and the others before the window that it opens ends, and any number more of
-- them, another login of the key before that end is answered 429 and makes no session, whatever its
-- password. (The limit is the five of `New`, no other requests come between, and the end of the window
-- is not the zero time.)
pub throttled :
    (h : Host) (e e' : Moment) (r r' : Request) (requests : List (Moment × Request)) (s : Server)
    (key : Text) (in_ : LoginRequest)
    → s.limiter.limit ≡ pos 5
    → is_over (entry key s.limiter) e.allowed_at ≡ true
    → 0 < e.failure_at + s.limiter.window
    → AllWrong h key (e.failure_at + s.limiter.window) s.store ((e, r) ∷ requests)
    → 4 ≤ length requests
    → IsLogin h key (e.failure_at + s.limiter.window) e' r' in_
    → ((serve h e' r' (serve_all h ((e, r) ∷ requests) s)).0.status ≡ 429)
      × ((serve h e' r' (serve_all h ((e, r) ∷ requests) s)).1.sessions
          ≡ (serve_all h ((e, r) ∷ requests) s).sessions)
unfolding serve_all client_ip valid_origin
throttled h e e' r r' requests s key in_ limit over live (x, wrong) many last =
    let ends = e.failure_at + s.limiter.window in
    let (after, kept) = serve-IsWrong h key ends s.store (e, r) s refl x in
    let first =
      subst (λ l. IsCounting key ends 1 l) (sym after)
        (IsCounting-first key e.allowed_at e.failure_at s.limiter limit over) in
    let s' = serve_all h requests (serve h e r s).1 in
    let counted =
      IsCounting-serve_all h key ends s.store requests (serve h e r s).1 1 live kept wrong first in
    let closed =
      denied key e'.allowed_at ends (1 + length requests) s'.limiter live last.early (omega arith)
        counted in
    let closed' : (Limiter.allowed (login_key h r' in_) e'.allowed_at s'.limiter).0 ≡ false =
      rw last.same_key closed in
    rw (serve-login h e' r' s' last.at, answered-state (Handlers.login h e' (with_id e' r') s'))
      (login-denied h e' (with_id e' r') s' in_ last.origin last.body closed')
