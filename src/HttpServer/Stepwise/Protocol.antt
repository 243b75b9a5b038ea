-- ===== src/HttpServer/Stepwise/Protocol.antt =====
-- The order in which a request makes its calls: what it may call before it begins an operation, while the
-- operation runs, and after it has ended it.
use srv_deployment.Prelude.{ℕ, suc, ◌≡◌, ◌⊎◌, Bool, Text, Result, ok, err}
use srv_deployment.Auth.Limiter.{LoginLimiter}
use srv_deployment.Auth.Sessions.{Manager}
use srv_deployment.HttpServer.Recorded.{expected, status_answered}
use srv_deployment.HttpServer.Request.{Request, Response}
use srv_deployment.HttpServer.Server.{Server, Host, Moment, on_state, id, audit_event}
use srv_deployment.HttpServer.Stepwise.{Steps, done, call}
use srv_deployment.Operations
use srv_deployment.Operations.{Record, status_succeeded, status_failed, start, finish}
use srv_deployment.State.Store

pub data Phase : Type 0 where
  fresh running : Phase
  closed : Operations.Status → Phase

module _ (h : Host) (e : Moment) (r : Request) where
  -- The calls that leave the records of the operations.
  pub data Quiet : (Server → Server) → Type 0 where
    reads : Quiet (λ s. s)
    logs :
        (actor role action target result code : Text)
        → Quiet (λ s. (audit_event h e r actor role action target result code s).1)
    sessions : (f : Server → Manager) → Quiet (λ s. record s { sessions = f s })
    limits : (f : Server → LoginLimiter) → Quiet (λ s. record s { limiter = f s })
    creates :
        (username pass role : Text)
        → Quiet (λ s.
          (on_state
            (Store.create_user h.platform h.encoder e.state_writes e.salt e.change_at username pass
              role)
            s).1)
    blocks :
        (username : Text) (b : Bool)
        → Quiet
            (λ s. (on_state (Store.set_blocked h.platform h.encoder e.state_writes username b) s).1)
    changes :
        (username old new : Text)
        → Quiet (λ s.
          (on_state
            (Store.change_password h.platform h.encoder e.state_writes e.salt e.change_at username
              old new)
            s).1)

  -- The answer that a request may give in a phase.
  abbrev pub IsAnswer : Phase → Result Response Response → Type 0
  IsAnswer fresh x = Unit
  IsAnswer running x = ⊥
  IsAnswer (closed st) x = expected (status_answered h e r x) ≡ st

  abbrev pub operations_world : Server → Operations.World
  operations_world s = record { store = s.operations; files = s.files }

  abbrev pub started :
      (kind actor role target : Text) → Server → Result Operations.Error Record × Operations.World
  started kind actor role target s =
      start h.codec e.start_write e.start_at (id h e r) kind actor role target (operations_world s)

  abbrev pub finished :
      Operations.Status → (code : Text) → Server → Result Operations.Error Record × Operations.World
  finished st code s =
      finish h.codec e.finish_write e.finish_at (id h e r) st code (operations_world s)

  abbrev pub with_operations : Operations.World → Server → Server
  with_operations w s = record s { operations = w.store; files = w.files }

  -- What is left of a request in a phase, with a bound on the number of its calls: a request begins at most
  -- one operation, ends it before it answers, and answers as it has ended it.
  pub data Protocol : Phase → ℕ → Steps Response → Type 0 where
    answers :
        {p : Phase} {n : ℕ} (x : Result Response Response) → IsAnswer p x → Protocol p n (done x)
    calls :
        {p : Phase} {n : ℕ} {t : Server → Server} {next : Server → Steps Response}
        → Quiet t
        → ((s : Server) → Protocol p n (next s))
        → Protocol p (suc n) (call t next)
    begins :
        {n : ℕ} (next : Result Operations.Error Record → Steps Response)
        (kind actor role target : Text)
        → ((rec : Record) → Protocol running n (next (ok rec)))
        → ((failed : Operations.Error) → Protocol fresh n (next (err failed)))
        → Protocol fresh (suc n) (
            call
              (λ s. with_operations (started kind actor role target s).1 s)
              (λ s. next (started kind actor role target s).0))
    ends :
        {n : ℕ} {next : Server → Steps Response} (st : Operations.Status) (code : Text)
        → (st ≡ status_succeeded) ⊎ (st ≡ status_failed)
        → ((s : Server) → Protocol (closed st) n (next s))
        → Protocol running (suc n) (call (λ s. with_operations (finished st code s).1 s) next)
