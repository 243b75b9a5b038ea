-- ===== src/HttpServer/Stepwise/Interleaved.antt =====
-- Requests that run at the same time: whichever of them makes the next call, the server stays sound, and
-- each of them is answered and ends its operation.
use srv_deployment.Prelude.{ℕ, List, [], ◌∷◌}
use srv_deployment.HttpServer.Request.{Request, Response}
use srv_deployment.HttpServer.Routes.{with_id}
use srv_deployment.HttpServer.Server.{Server, Host, Moment, id}
use srv_deployment.HttpServer.Soundness.{IsSound, IsSound-IsKept}
use srv_deployment.HttpServer.Stepwise.{Steps}
use srv_deployment.HttpServer.Stepwise.Orderly.{request_steps-Protocol}
use srv_deployment.HttpServer.Stepwise.Pool.{
  Pool, Arrivals, Event, arrives, advances, turn, run_events,
}
use srv_deployment.HttpServer.Stepwise.Protocol.{
  Phase, fresh, Quiet, reads, logs, sessions, limits, creates, blocks, changes, Protocol, answers,
  calls, begins, ends, operations_world,
}
use srv_deployment.HttpServer.Stepwise.Requests.{request_steps}
use srv_deployment.HttpServer.Stepwise.Threads.{run_events-All}
use srv_deployment.HttpServer.Stepwise.Turns.{pred, turn-IsOrdered}
use srv_deployment.Operations.Invariant.{start-IsValid, finish-IsValid}
use srv_deployment.Platform.{TextLaws}

-- A server before its first request.
abbrev pub idle : Server → Pool
idle s = record { server = s; requests = [] }

-- What is left of a request keeps to the order of calls.
abbrev pub IsOrdered : Host → ℕ → Steps Response → Type 0
IsOrdered h n m = (e : Moment) × (r : Request) × (p : Phase) × Protocol h e r p n m

module _ (h : Host) where
  pub IsOrdered-turn :
      (n : ℕ) (m : Steps Response) (s : Server)
      → IsOrdered h n m
      → IsOrdered h (pred n) (turn m s).0
  IsOrdered-turn n m s (e, r, p, x) = let (q, y) = turn-IsOrdered h e r x s in (e, r, q, y)

  pub request_steps-IsOrdered : (e : Moment) (r : Request) → IsOrdered h 7 (request_steps h e r)
  request_steps-IsOrdered e r = (e, with_id e r, fresh, request_steps-Protocol h e r)

  module _ (laws : TextLaws h.platform) where
    Quiet-IsSound :
        (e : Moment) (r : Request) {t : Server → Server}
        → Quiet h e r t
        → (s : Server) → IsSound h.platform s
        → IsSound h.platform (t s)
    Quiet-IsSound e r reads s y = y
    Quiet-IsSound e r (logs actor role action target result code) s y =
        (IsSound-IsKept h laws e r).logs actor role action target result code s y
    Quiet-IsSound e r (sessions f) s y = y
    Quiet-IsSound e r (limits f) s y = y
    Quiet-IsSound e r (creates username pass role) s y =
        (IsSound-IsKept h laws e r).creates username pass role s y
    Quiet-IsSound e r (blocks username b) s y = (IsSound-IsKept h laws e r).blocks username b s y
    Quiet-IsSound e r (changes username old new) s y =
        (IsSound-IsKept h laws e r).changes username old new s y

    turn-IsSound :
        (e : Moment) (r : Request) {p : Phase} {n : ℕ} {m : Steps Response}
        → Protocol h e r p n m
        → (s : Server) → IsSound h.platform s
        → IsSound h.platform (turn m s).1
    unfolding turn
    turn-IsSound e r (answers x a) s y = y
    turn-IsSound e r (calls q next) s y = Quiet-IsSound e r q s y
    turn-IsSound e r (begins next kind actor role target good bad) s (a, k, v) = (
      a,
      k,
      start-IsValid h.codec e.start_write e.start_at (id h e r) kind actor role target
          (operations_world h e r s) v,
    )
    turn-IsSound e r (ends st code terminal next) s (a, k, v) = (
      a,
      k,
      finish-IsValid h.codec e.finish_write e.finish_at (id h e r) st code
          (operations_world h e r s) v,
    )

  abbrev IsOrderly : Steps Response → Type 0
  IsOrderly m = (n : ℕ) × IsOrdered h n m

  every_request : (events : List Event) → Arrivals (λ e r. IsOrderly (request_steps h e r)) events
  unfolding Arrivals
  every_request [] = tt
  every_request (arrives e r ∷ events) = ((7, request_steps-IsOrdered e r), every_request events)
  every_request (advances i ∷ events) = every_request events

-- Requests that run at the same time leave a sound server sound: whatever the requests hold, in whichever
-- order they make their calls of the components, and whatever fails, there is an active administrator,
-- each user stands under its own name, and the records of operations are well formed and at most a
-- thousand. (Lowering and trimming an ASCII text is as documented.)
pub IsSound-run_events :
    (h : Host) (events : List Event) (s : Server)
    → TextLaws h.platform
    → IsSound h.platform s
    → IsSound h.platform (run_events h events (idle s)).server
IsSound-run_events h events s laws x =
    (run_events-All (IsOrderly h) (λ m t (n, y). (pred n, IsOrdered-turn h n m t y))
      (IsSound h.platform) (λ m t (n, (e, r, p, y)) z. turn-IsSound h laws e r y t z) h events
      (idle s) (every_request h events) tt x).1
