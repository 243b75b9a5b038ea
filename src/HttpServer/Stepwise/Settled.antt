-- ===== src/HttpServer/Stepwise/Settled.antt =====
-- A running operation belongs to a request that has not been answered.
use srv_deployment.Prelude.{
  ℕ, zero, suc, ◌≡◌, ◌≢◌, ◌⊎◌, inl, inr, true, some, List, [], ◌∷◌, ◌++◌, arith, Text,
}
use srv_deployment.HttpServer.Recorded.{status_at}
use srv_deployment.HttpServer.Request.{Request, Response}
use srv_deployment.HttpServer.Routes.{with_id}
use srv_deployment.HttpServer.Server.{Server, Host, Moment}
use srv_deployment.HttpServer.Stepwise.{Steps}
use srv_deployment.HttpServer.Stepwise.Orderly.{request_steps-Protocol}
use srv_deployment.HttpServer.Stepwise.Pool.{
  Pool, is_answered, all_answered, Event, arrives, advances, advance, step, run_events,
}
use srv_deployment.HttpServer.Stepwise.Protocol.{
  Phase, fresh, running, IsAnswer, Protocol, answers, calls, begins, ends,
}
use srv_deployment.HttpServer.Stepwise.Requests.{request_steps}
use srv_deployment.HttpServer.Stepwise.Threads.{All}
use mathlib.Core.Path.{subst}
use srv_deployment.Operations.{status_running}
use srv_deployment.HttpServer.Stepwise.Explained.{IsRunning, Thread, Holds, turn-Explained}

module _ (h : Host) where
  -- One of the requests has begun the operation of an id.
  abbrev pub Held : Text → (ms : List (Steps Response)) → All (Thread h) ms → Type 0
  Held key [] a = ⊥
  Held key (m ∷ ms) a = Holds h key m a.0 ⊎ Held key ms a.1

  snoc-Held :
      (ms : List (Steps Response)) (m : Steps Response) (a : All (Thread h) ms)
      → Thread h m
      → (b : All (Thread h) (ms ++ m ∷ [])) × ((key : Text)
          → Held key ms a
          → Held key (ms ++ m ∷ []) b)
  snoc-Held [] m a x = ((x, tt), λ key y. absurd y)
  snoc-Held (l ∷ ms) m (y, others) x =
      let (later, kept) = snoc-Held ms m others x in
      ((y, later), λ key z. elim z [ inl w ↦ inl w | inr w ↦ inr (kept key w) ])

  abbrev AllExplained :
      (ms : List (Steps Response))
      → All (Thread h) ms
      → Server
      → (ms' : List (Steps Response)) → Server
      → Type 0
  AllExplained ms a s ms' s' =
      (b : All (Thread h) ms') × ((key : Text)
        → IsRunning key s'
        → Held key ms' b ⊎ (IsRunning key s × (Held key ms a → Held key ms' b)))

  advance-AllExplained :
      (i : ℕ) (ms : List (Steps Response)) (a : All (Thread h) ms) (s : Server)
      → AllExplained ms a s (advance i ms s).0 (advance i ms s).1
  unfolding advance
  advance-AllExplained i [] a s = (tt, λ key run. inr (run, λ y. y))
  advance-AllExplained zero (m ∷ ms) ((e, r, p, n, x), others) s =
      let (y, explained) = turn-Explained h e r x s in
      (
        (y, others),
        λ key run. elim (explained key run) [
          | inl held ↦ inl (inl held)
          | inr (before, kept) ↦ inr (before, λ z. elim z [ inl w ↦ inl (kept w) | inr w ↦ inr w ])
        ],
      )
  advance-AllExplained (suc i) (m ∷ ms) (x, others) s =
      let (later, explained) = advance-AllExplained i ms others s in
      (
        (x, later),
        λ key run. elim (explained key run) [
          | inl held ↦ inl (inr held)
          | inr (before, kept) ↦ inr (before, λ z. elim z [ inl w ↦ inl w | inr w ↦ inr (kept w) ])
        ],
      )

  abbrev pub AreHeld : Pool → Type 0
  AreHeld p =
      (a : All (Thread h) p.requests) × ((key : Text)
        → IsRunning key p.server
        → Held key p.requests a)

  pub run_events-AreHeld :
      (events : List Event) (p : Pool) → AreHeld p → AreHeld (run_events h events p)
  unfolding run_events step
  run_events-AreHeld [] p x = x
  run_events-AreHeld (arrives e r ∷ events) p (a, held) =
      let new : Thread h (request_steps h e r) =
        (e, with_id e r, fresh, 7, request_steps-Protocol h e r) in
      let (b, kept) = snoc-Held p.requests (request_steps h e r) a new in
      run_events-AreHeld events _ (b, λ key run. kept key (held key run))
  run_events-AreHeld (advances i ∷ events) p (a, held) =
      let (b, explained) = advance-AllExplained i p.requests a p.server in
      run_events-AreHeld events _ (
        b,
        λ key run. elim (explained key run) [
          | inl y ↦ y
          | inr (before, kept) ↦ kept (held key before)
        ],
      )

  answered-Protocol :
      (e : Moment) (r : Request) {p : Phase} {n : ℕ} {m : Steps Response}
      → Protocol h e r p n m
      → is_answered m ≡ true
      → p ≢ running
  unfolding is_answered
  answered-Protocol e r (answers y a) over runs = subst (λ q. IsAnswer h e r q y) runs a
  answered-Protocol e r (calls q next) over runs = absurd (cc (over))
  answered-Protocol e r (begins next kind actor role target good bad) over runs = absurd (cc (over))
  answered-Protocol e r (ends st code terminal next) over runs = absurd (cc (over))

  answered-Held :
      (key : Text) (ms : List (Steps Response)) (a : All (Thread h) ms)
      → all_answered ms ≡ true
      → ¬ Held key ms a
  unfolding all_answered
  answered-Held key [] a over held = held
  answered-Held key (m ∷ ms) a over (inl held) =
      let (e, r, p, n, x) = a.0 in answered-Protocol e r x (ground arith) held.0
  answered-Held key (m ∷ ms) a over (inr held) = answered-Held key ms a.1 (ground arith) held

-- When all requests have been answered, no operation runs.
pub AreHeld-settled :
    (h : Host) (p : Pool) (key : Text)
    → AreHeld h p
    → all_answered p.requests ≡ true
    → status_at key p.server ≢ some status_running
AreHeld-settled h p key (a, held) over run = answered-Held h key p.requests a over (held key run)
