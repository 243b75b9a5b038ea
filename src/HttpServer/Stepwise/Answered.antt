-- ===== src/HttpServer/Stepwise/Answered.antt =====
-- A request that is given its turns is answered, and has ended its operation.
use srv_deployment.Prelude.{
  ℕ, zero, suc, ◌≤◌, ◌≡◌, refl, sym, ◌∙◌, ◌≢◌, ◌⊎◌, inl, inr, Option, none, some, List, [], ◌∷◌,
  ◌++◌, arith, Text, length, ok, err,
}
use srv_deployment.HttpServer.Recorded.{status_at, IsNoneOr, expected}
use srv_deployment.HttpServer.Request.{Request, Response}
use srv_deployment.HttpServer.Routes.{with_id}
use srv_deployment.HttpServer.Server.{Server, Host, Moment, id}
use srv_deployment.HttpServer.Stepwise.{Steps}
use srv_deployment.HttpServer.Stepwise.Interleaved.{idle}
use srv_deployment.HttpServer.Stepwise.Orderly.{request_steps-Protocol}
use srv_deployment.HttpServer.Stepwise.Pool.{
  Pool, Arrivals, Event, arrives, advances, turn, step, run_events, turns, answer, answer_of,
}
use srv_deployment.HttpServer.Stepwise.Protocol.{Phase, fresh, running, closed, Protocol, answers}
use srv_deployment.HttpServer.Stepwise.Requests.{request_steps}
use srv_deployment.HttpServer.Stepwise.Threads.{
  with_left, run_events-All, Fits, last-Fits, run_events-Fits,
}
use srv_deployment.HttpServer.Stepwise.Turns.{
  pred, IsPhase, turn-Protocol, turn-IsOrdered, turn-other,
}
use srv_deployment.Operations
use mathlib.Core.Path.{subst}

-- The answer, and the record that the operation leaves.
abbrev IsOver : Text → Steps Response → Server → Type 0
IsOver key m s =
    (response : Response) × (answer_of m ≡ some response)
    × IsNoneOr (expected response.status) (status_at key s)

module _ (h : Host) (e : Moment) (r : Request) where
  -- No call is left.
  answered-IsOver :
      {p : Phase} {m : Steps Response} (s : Server)
      → Protocol h e r p zero m
      → IsPhase p (status_at (id h e r) s)
      → IsOver (id h e r) m s
  unfolding answer_of
  answered-IsOver {p = fresh} s (answers (ok response) a) x = (response, refl, inl x)
  answered-IsOver {p = fresh} s (answers (err response) a) x = (response, refl, inl x)
  answered-IsOver {p = running} s (answers y a) x = absurd a
  answered-IsOver {p = closed st} s (answers (ok response) a) x =
      (response, refl, subst (λ z. IsNoneOr z (status_at (id h e r) s)) (sym a) x)
  answered-IsOver {p = closed st} s (answers (err response) a) x =
      (response, refl, subst (λ z. IsNoneOr z (status_at (id h e r) s)) (sym a) x)

  -- Another request's turn leaves the record as it is, or prunes it.
  IsPhase-other :
      (p : Phase) (found after : Option Operations.Status)
      → (after ≡ none) ⊎ (after ≡ found)
      → IsPhase p found
      → IsPhase p after
  IsPhase-other fresh found after (inl x) y = x
  IsPhase-other fresh found after (inr x) y = x ∙ y
  IsPhase-other running found after (inl x) y = inl x
  IsPhase-other running found after (inr x) y = ground arith
  IsPhase-other (closed st) found after (inl x) y = inl x
  IsPhase-other (closed st) found after (inr x) y = ground arith

-- A request among others, which have come before it and after it.
abbrev pub among : Host → (before after : List Event) → Moment → Request → Server → Pool
among h before after e r s = run_events h (arrives e r ∷ after) (run_events h before (idle s))

-- The number of the request.
abbrev pub place : Host → List Event → Server → ℕ
place h before s = length (run_events h before (idle s)).requests

module _ (h : Host) where
  -- The other requests are those with another id.
  abbrev Other : Text → Steps Response → Type 0
  Other key m =
      (e : Moment) × (r : Request) × (p : Phase) × (n : ℕ) × ((id h e r ≢ key)
        × Protocol h e r p n m)

  Other-Arrivals :
      (key : Text) (events : List Event)
      → Arrivals (λ e r. id h e (with_id e r) ≢ key) events
      → Arrivals (λ e r. Other key (request_steps h e r)) events
  unfolding Arrivals
  Other-Arrivals key [] x = tt
  Other-Arrivals key (arrives e r ∷ events) x = (
    (e, with_id e r, fresh, 7, (x.0, request_steps-Protocol h e r)),
    Other-Arrivals key events x.1,
  )
  Other-Arrivals key (advances i ∷ events) x = Other-Arrivals key events x

  Other-turn : (key : Text) (m : Steps Response) (s : Server) → Other key m → Other key (turn m s).0
  Other-turn key m s (e, r, p, n, (apart, x)) =
      let (q, y) = turn-IsOrdered h e r x s in (e, r, q, pred n, (apart, y))

  module _ (e : Moment) (r : Request) where
    abbrev Keeps : ℕ → Steps Response → Server → Type 0
    Keeps n m s = (p : Phase) × (Protocol h e r p n m × IsPhase p (status_at (id h e r) s))

    Keeps-Other :
        (n : ℕ) (m other : Steps Response) (s : Server)
        → Other (id h e r) other
        → Keeps n m s
        → Keeps n m (turn other s).1
    Keeps-Other n m other s (e', r', p', n', (apart, x)) (p, (y, z)) =
        (p, (y, IsPhase-other h e r p _ _ (turn-other h e' r' (id h e r) apart x s) z))

    Fits-IsOver :
        (i : ℕ) (ms : List (Steps Response)) (s : Server)
        → Fits (Other (id h e r)) Keeps zero i ms s
        → (response : Response) × (answer i ms ≡ some response)
          × IsNoneOr (expected response.status) (status_at (id h e r) s)
    unfolding answer
    Fits-IsOver i [] s x = absurd x
    Fits-IsOver zero (m ∷ ms) s ((p, (x, y)), others) = answered-IsOver h e r s x y
    Fits-IsOver (suc i) (m ∷ ms) s x = Fits-IsOver i ms s x.1

-- No request leaves an operation running, however it runs among others, whatever they are and whatever
-- fails: where its id has no record yet and is not another's, it is answered once it has had seven turns,
-- and leaves no record under its id, or one that has ended, as `succeeded` if the answer is a success, and
-- as `failed` if it is an error.
pub status-among :
    (h : Host) (e : Moment) (r : Request) (before after : List Event) (s : Server)
    → Arrivals (λ e' r'. id h e' (with_id e' r') ≢ id h e (with_id e r)) before
    → Arrivals (λ e' r'. id h e' (with_id e' r') ≢ id h e (with_id e r)) after
    → status_at (id h e (with_id e r)) s ≡ none
    → 7 ≤ turns (place h before s) after
    → (response : Response) × (answer (place h before s) (among h before after e r s).requests
        ≡ some response)
      × IsNoneOr
          (expected response.status)
          (status_at (id h e (with_id e r)) (among h before after e r s).server)
unfolding run_events step
status-among h e r before after s apart_before apart_after new enough =
    let q = with_id e r in
    let key = id h e q in
    let p = run_events h before (idle s) in
    let (others, still) =
      run_events-All (Other h key) (Other-turn h key) (λ t. status_at key t ≡ none)
        (λ m t (e', r', p', n', (apart, x)) y.
          IsPhase-other h e q fresh _ _ (turn-other h e' r' key apart x t) y)
        h before (idle s) (Other-Arrivals h key before apart_before) tt new in
    let arrived : Pool = record p { requests = p.requests ++ request_steps h e r ∷ [] } in
    let now =
      last-Fits (Other h key) (Keeps h e q) 7 p.requests (request_steps h e r) p.server others
        (fresh, (request_steps-Protocol h e r, still)) in
    let later =
      run_events-Fits (Other h key) (Other-turn h key) (Keeps h e q)
        (λ n m t (p', (x, y)). turn-Protocol h e q x t y) (Keeps-Other h e q) h 7
        (length p.requests) after arrived (Other-Arrivals h key after apart_after) now in
    let ended = run_events h after arrived in
    Fits-IsOver h e q (length p.requests) ended.requests ended.server (
      with_left (Other h key) (Keeps h e q) (length p.requests) ended.requests ended.server
        (omega arith) later)
