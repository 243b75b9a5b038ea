-- ===== src/HttpServer/Stepwise/Pool.antt =====
-- The requests of a server while they run: each in a goroutine of its own, which `net/http` starts, so
-- that any of them makes the next call of a component.
use srv_deployment.Prelude.{
  ℕ, zero, suc, Bool, true, false, ◌&&◌, Option, none, some, List, [], ◌∷◌, ◌++◌, ◌==◌,
  if◌then◌else◌, ok, err, text_eq, nat_eq, int_eq,
}
use srv_deployment.HttpServer.Request.{Request, Response}
use srv_deployment.HttpServer.Server.{Server, Host, Moment}
use srv_deployment.HttpServer.Stepwise.{Steps, done, call}
use srv_deployment.HttpServer.Stepwise.Requests.{request_steps}

-- What is left of each request, in the order in which they have arrived; one that has been answered stays.
pub record Pool : Type 0 where
  pub server : Server
  pub requests : List (Steps Response)

pub data Event : Type 0 where
  arrives : Moment → Request → Event
  advances : ℕ → Event

-- The next call of a request.
unfoldable pub turn : Steps Response → Server → Steps Response × Server
turn (done x) s = (done x, s)
turn (call t next) s = (next s, t s)

unfoldable pub advance : ℕ → List (Steps Response) → Server → List (Steps Response) × Server
advance i [] s = ([], s)
advance zero (m ∷ ms) s = let (m', t) = turn m s in (m' ∷ ms, t)
advance (suc i) (m ∷ ms) s = let (ms', t) = advance i ms s in (m ∷ ms', t)

unfoldable pub step : Host → Event → Pool → Pool
step h (arrives e r) p = record p { requests = p.requests ++ request_steps h e r ∷ [] }
step h (advances i) p =
    let (ms, s) = advance i p.requests p.server in record { server = s; requests = ms }

unfoldable pub run_events : Host → List Event → Pool → Pool
run_events h [] p = p
run_events h (x ∷ events) p = run_events h events (step h x p)

-- The turns that a request is given.
unfoldable pub turns : ℕ → List Event → ℕ
turns i [] = 0
turns i (arrives e r ∷ events) = turns i events
turns i (advances j ∷ events) = let n = turns i events in if i == j then suc n else n

unfoldable pub answer_of : Steps Response → Option Response
answer_of (done (ok response)) = some response
answer_of (done (err response)) = some response
answer_of (call t next) = none

-- The answer of a request.
unfoldable pub answer : ℕ → List (Steps Response) → Option Response
answer i [] = none
answer zero (m ∷ ms) = answer_of m
answer (suc i) (m ∷ ms) = answer i ms

unfoldable pub is_answered : Steps Response → Bool
is_answered (done x) = true
is_answered (call t next) = false

-- No request has a call to make.
unfoldable pub all_answered : List (Steps Response) → Bool
all_answered [] = true
all_answered (m ∷ ms) = let rest = all_answered ms in is_answered m && rest

-- Each request that arrives.
unfoldable pub Arrivals : (Moment → Request → Type 0) → List Event → Type 0
Arrivals Q [] = Unit
Arrivals Q (arrives e r ∷ events) = Q e r × Arrivals Q events
Arrivals Q (advances i ∷ events) = Arrivals Q events
