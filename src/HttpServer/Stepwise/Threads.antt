-- ===== src/HttpServer/Stepwise/Threads.antt =====
-- What the turns of all requests keep, and what becomes of one request among them.
use srv_deployment.Prelude.{
  ℕ, zero, suc, ◌-◌, ◌≡◌, ◌≢◌, List, [], ◌∷◌, ◌++◌, arith, ◌==◌, if◌then◌else◌, length, text_eq,
  nat_eq, int_eq,
}
use srv_deployment.HttpServer.Request.{Response}
use srv_deployment.HttpServer.Server.{Server, Host}
use srv_deployment.HttpServer.Stepwise.{Steps}
use srv_deployment.HttpServer.Stepwise.Pool.{
  Pool, Arrivals, Event, arrives, advances, turn, advance, step, run_events, turns,
}
use srv_deployment.HttpServer.Stepwise.Requests.{request_steps}
use srv_deployment.HttpServer.Stepwise.Turns.{pred}
use mathlib.Core.Path.{subst}

-- The calls left of the request number i after a turn of the request number j.
abbrev left : (n i j : ℕ) → ℕ
left n i j = if i == j then pred n else n

left-suc : (n i j : ℕ) → left n i j ≡ left n (suc i) (suc j)
left-suc n i j = ground arith

left-other : (n i j : ℕ) → i ≢ j → n ≡ left n i j
left-other n i j apart = ground arith

left-turns : (n i j k : ℕ) → left n i j - k ≡ n - (if i == j then suc k else k)
left-turns zero i j k = ground arith
left-turns (suc n) i j k = ground arith

module _ (T : Steps Response → Type 0) where
  abbrev pub All : List (Steps Response) → Type 0
  All [] = Unit
  All (m ∷ ms) = T m × All ms

  pub snoc-All :
      (ms : List (Steps Response)) (m : Steps Response) → All ms → T m → All (ms ++ m ∷ [])
  snoc-All [] m x y = (y, tt)
  snoc-All (n ∷ ms) m x y = (x.0, snoc-All ms m x.1 y)

  module _ (M : ℕ → Steps Response → Server → Type 0) where
    -- The request number i is as M says, the others as T says.
    abbrev pub Fits : (n i : ℕ) → List (Steps Response) → Server → Type 0
    Fits n i [] s = ⊥
    Fits n zero (m ∷ ms) s = M n m s × All ms
    Fits n (suc i) (m ∷ ms) s = T m × Fits n i ms s

    snoc-Fits :
        (n i : ℕ) (ms : List (Steps Response)) (m : Steps Response) (s : Server)
        → Fits n i ms s
        → T m
        → Fits n i (ms ++ m ∷ []) s
    snoc-Fits n i [] m s x y = absurd x
    snoc-Fits n zero (l ∷ ms) m s x y = (x.0, snoc-All ms m x.1 y)
    snoc-Fits n (suc i) (l ∷ ms) m s x y = (x.0, snoc-Fits n i ms m s x.1 y)

    pub last-Fits :
        (n : ℕ) (ms : List (Steps Response)) (m : Steps Response) (s : Server)
        → All ms
        → M n m s
        → Fits n (length ms) (ms ++ m ∷ []) s
    last-Fits n [] m s x y = (y, tt)
    last-Fits n (l ∷ ms) m s x y = (x.0, last-Fits n ms m s x.1 y)

    pub with_left :
        {n l : ℕ} (i : ℕ) (ms : List (Steps Response)) (s : Server)
        → n ≡ l
        → Fits n i ms s
        → Fits l i ms s
    with_left i ms s x = subst (λ l. Fits l i ms s) x

  module _ (turns-T : (m : Steps Response) (s : Server) → T m → T (turn m s).0) where
    module _ (P : Server → Type 0)
        (turns-P : (m : Steps Response) (s : Server) → T m → P s → P (turn m s).1) where
      advance-All :
          (i : ℕ) (ms : List (Steps Response)) (s : Server)
          → All ms
          → P s
          → All (advance i ms s).0 × P (advance i ms s).1
      unfolding advance
      advance-All i [] s x y = (tt, y)
      advance-All zero (m ∷ ms) s x y = ((turns-T m s x.0, x.1), turns-P m s x.0 y)
      advance-All (suc i) (m ∷ ms) s x y =
          let (later, z) = advance-All i ms s x.1 y in ((x.0, later), z)

      pub run_events-All :
          (h : Host) (events : List Event) (p : Pool)
          → Arrivals (λ e r. T (request_steps h e r)) events
          → All p.requests
          → P p.server
          → All (run_events h events p).requests × P (run_events h events p).server
      unfolding run_events step Arrivals
      run_events-All h [] p a x y = (x, y)
      run_events-All h (arrives e r ∷ events) p a x y =
          run_events-All h events _ a.1 (snoc-All p.requests (request_steps h e r) x a.0) y
      run_events-All h (advances i ∷ events) p a x y =
          let (later, z) = advance-All i p.requests p.server x y in
          run_events-All h events _ a later z

    module _ (M : ℕ → Steps Response → Server → Type 0)
        (own : (n : ℕ) (m : Steps Response) (s : Server)
          → M n m s
          → M (pred n) (turn m s).0 (turn m s).1)
        (others : (n : ℕ) (m other : Steps Response) (s : Server)
          → T other
          → M n m s
          → M n m (turn other s).1) where
      others-Fits :
          (n i : ℕ) (ms : List (Steps Response)) (other : Steps Response) (s : Server)
          → T other
          → Fits M n i ms s
          → Fits M n i ms (turn other s).1
      others-Fits n i [] other s x y = y
      others-Fits n zero (m ∷ ms) other s x y = (others n m other s x y.0, y.1)
      others-Fits n (suc i) (m ∷ ms) other s x y = (y.0, others-Fits n i ms other s x y.1)

      advance-Fits :
          (n i j : ℕ) (ms : List (Steps Response)) (s : Server)
          → Fits M n i ms s
          → Fits M (left n i j) i (advance j ms s).0 (advance j ms s).1
      unfolding advance
      advance-Fits n i j [] s x = absurd x
      advance-Fits n zero zero (m ∷ ms) s x = (own n m s x.0, x.1)
      advance-Fits n zero (suc j) (m ∷ ms) s x =
          let (later, y) =
            advance-All (λ t. M n m t) (λ other t z w. others n m other t z w) j ms s x.1 x.0 in
          with_left M zero (m ∷ (advance j ms s).0) (advance j ms s).1
            (left-other n zero (suc j) (omega arith)) (y, later)
      advance-Fits n (suc i) zero (m ∷ ms) s x =
          with_left M (suc i) ((turn m s).0 ∷ ms) (turn m s).1
            (left-other n (suc i) zero (omega arith))
            (turns-T m s x.0, others-Fits n i ms m s x.0 x.1)
      advance-Fits n (suc i) (suc j) (m ∷ ms) s x = (
        x.0,
        with_left M i (advance j ms s).0 (advance j ms s).1 (left-suc n i j)
            (advance-Fits n i j ms s x.1),
      )

      pub run_events-Fits :
          (h : Host) (n i : ℕ) (events : List Event) (p : Pool)
          → Arrivals (λ e r. T (request_steps h e r)) events
          → Fits M n i p.requests p.server
          → Fits M
              (n - turns i events)
              i
              (run_events h events p).requests
              (run_events h events p).server
      unfolding run_events step Arrivals turns
      run_events-Fits h n i [] p a x = with_left M i p.requests p.server (omega arith) x
      run_events-Fits h n i (arrives e r ∷ events) p a x =
          run_events-Fits h n i events _ a.1 (snoc-Fits M n i p.requests _ p.server x a.0)
      run_events-Fits h n i (advances j ∷ events) p a x =
          let after = run_events h events (step h (advances j) p) in
          with_left M i after.requests after.server (left-turns n i j (turns i events))
            (run_events-Fits h (left n i j) i events _ a (advance-Fits n i j p.requests p.server x))
