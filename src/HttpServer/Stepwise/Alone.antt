-- ===== src/HttpServer/Stepwise/Alone.antt =====
-- A request that runs alone does as one step what its calls do.
use srv_deployment.Prelude.{
  ℕ, zero, suc, ◌≡◌, refl, sym, ap, ap₂, ◌∙◌, none, some, List, [], ◌∷◌, arith, Result, ok, err,
}
use srv_deployment.HttpServer.Effects.{answered-state}
use srv_deployment.HttpServer.Stepwise.Answered.{status-among}
use srv_deployment.HttpServer.Recorded.{status_of, IsNoneOr, expected}
use srv_deployment.HttpServer.Request.{Request, Response}
use srv_deployment.HttpServer.Routes.{with_id, serve, answered}
use srv_deployment.HttpServer.Server.{Server, Host, Moment}
use srv_deployment.HttpServer.Stepwise.{Steps, done, run}
use srv_deployment.HttpServer.Stepwise.Interleaved.{idle}
use srv_deployment.HttpServer.Stepwise.Orderly.{request_steps-Protocol}
use srv_deployment.HttpServer.Stepwise.Pool.{
  Pool, Arrivals, Event, arrives, advances, turn, advance, step, run_events, turns, answer,
  answer_of,
}
use srv_deployment.HttpServer.Stepwise.Protocol.{
  Phase, Protocol, answers, calls, begins, ends, started,
}
use srv_deployment.HttpServer.Stepwise.Requests.{request_steps}
use srv_deployment.HttpServer.Stepwise.Serial.{run-request_steps}
use srv_deployment.Operations
use mathlib.Core.Path.{subst}

-- Turns of the only request.
abbrev pub turns_alone : ℕ → List Event
turns_alone zero = []
turns_alone (suc n) = advances 0 ∷ turns_alone n

module _ (h : Host) where
  abbrev one_request : Steps Response → Server → Pool
  one_request m s = record { server = s; requests = m ∷ [] }

  run_events-done :
      (n : ℕ) (x : Result Response Response) (s : Server)
      → run_events h (turns_alone n) (one_request (done x) s) ≡ one_request (done x) s
  unfolding run_events step advance turn
  run_events-done zero x s = refl
  run_events-done (suc n) x s = run_events-done n x s

  abbrev IsAlone : ℕ → Steps Response → Server → Type 0
  IsAlone n m s =
      run_events h (turns_alone n) (one_request m s) ≡ one_request (done (run m s).0) (run m s).1

  begun-IsAlone :
      (n : ℕ) (next : Result Operations.Error Operations.Record → Steps Response)
      → ((rec : Operations.Record) (s : Server) → IsAlone n (next (ok rec)) s)
      → ((failed : Operations.Error) (s : Server) → IsAlone n (next (err failed)) s)
      → (x : Result Operations.Error Operations.Record) (s : Server) → IsAlone n (next x) s
  begun-IsAlone n next good bad (ok rec) = good rec
  begun-IsAlone n next good bad (err failed) = bad failed

  Protocol-IsAlone :
      (e : Moment) (r : Request) {p : Phase} {n : ℕ} {m : Steps Response}
      → Protocol h e r p n m
      → (s : Server) → IsAlone n m s
  unfolding run_events step advance turn run
  Protocol-IsAlone e r {n = n} (answers x a) s = run_events-done n x s
  Protocol-IsAlone e r (calls {t = t} q next) s = Protocol-IsAlone e r (next s) (t s)
  Protocol-IsAlone e r (begins {n = k} next kind actor role target good bad) s =
      begun-IsAlone k next (λ rec t. Protocol-IsAlone e r (good rec) t)
        (λ failed t. Protocol-IsAlone e r (bad failed) t) (started h e r kind actor role target s).0
        _
  Protocol-IsAlone e r (ends st code terminal next) s = Protocol-IsAlone e r (next s) _

answer_of-answered :
    (x : Result Response Response × Server) → answer_of (done x.0) ≡ some (answered x).0
unfolding answer_of
answer_of-answered (ok response, s) = refl
answer_of-answered (err response, s) = refl

-- A request that runs alone, through its seven turns, gives the answer and the server that the handlers
-- give as one step.
serve-run_events :
    (h : Host) (e : Moment) (r : Request) (s : Server)
    → (answer 0 (run_events h (arrives e r ∷ turns_alone 7) (idle s)).requests
        ≡ some (serve h e r s).0)
      × ((run_events h (arrives e r ∷ turns_alone 7) (idle s)).server ≡ (serve h e r s).1)
unfolding run_events step answer
serve-run_events h e r s =
    let alone = Protocol-IsAlone h e (with_id e r) (request_steps-Protocol h e r) s in
    let x = run (request_steps h e r) s in
    let same = run-request_steps h e r s in
    (
      ap (λ (p : Pool). answer 0 p.requests) alone
          ∙ answer_of-answered x
          ∙ ap (λ (y : Response × Server). some y.0) same,
      ap (λ (p : Pool). p.server) alone
          ∙ sym (answered-state x)
          ∙ ap (λ (y : Response × Server). y.1) same,
    )

-- A request that is served as one step, whose id has no record yet, leaves no record under it, or one that
-- has ended: as `succeeded` if the answer is a success, and as `failed` if it is an error.
status-serve :
    (h : Host) (e : Moment) (r : Request) (s : Server)
    → status_of h e (with_id e r) s ≡ none
    → IsNoneOr (expected (serve h e r s).0.status) (status_of h e (with_id e r) (serve h e r s).1)
unfolding Arrivals run_events turns
status-serve h e r s new =
    let (response, answered_, x) =
      status-among h e r [] (turns_alone 7) s tt tt new (omega arith) in
    let (same, left_) = serve-run_events h e r s in
    let one : response ≡ (serve h e r s).0 = cc (answered_, same) in
    subst
      (λ (y : Response × Server). IsNoneOr (expected y.0.status) (status_of h e (with_id e r) y.1))
      (ap₂ (λ (a : Response) (t : Server). (a, t)) one left_) x
