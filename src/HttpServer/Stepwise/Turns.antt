-- ===== src/HttpServer/Stepwise/Turns.antt =====
-- A turn of one request: what it leaves of the request, and of the record that has its id or another's.
use srv_deployment.Prelude.{
  ℕ, zero, suc, ◌≡◌, refl, sym, ap, ◌≢◌, ◌⊎◌, inl, inr, Option, none, some, Text, Result, ok, err,
}
use srv_deployment.Dict
use srv_deployment.HttpServer.Recorded.{status_at, finish-IsNoneOr, status_option, IsNoneOr}
use srv_deployment.HttpServer.Request.{Request, Response}
use srv_deployment.HttpServer.Server.{Server, Host, Moment, id, audit_event}
use srv_deployment.HttpServer.Stepwise.{Steps}
use srv_deployment.HttpServer.Stepwise.Pool.{turn}
use srv_deployment.HttpServer.Stepwise.Protocol.{
  Phase, fresh, running, closed, Quiet, reads, logs, sessions, limits, creates, blocks, changes,
  Protocol, answers, calls, begins, ends, started, operations_world,
}
use mathlib.Core.Path.{subst}
use srv_deployment.Operations
use srv_deployment.Operations.{Record, status_running, start, finish}
use srv_deployment.Operations.Started.{
  IsTracked, start-IsTracked, get-start-other, get-finish-other,
}

-- The record of a request, in each phase: one that is not there yet, or has been pruned, or stands as the
-- request has left it.
abbrev pub IsPhase : Phase → Option Operations.Status → Type 0
IsPhase fresh found = found ≡ none
IsPhase running found = IsNoneOr status_running found
IsPhase (closed st) found = IsNoneOr st found

-- One call less, where one is left.
abbrev pub pred : ℕ → ℕ
pred zero = zero
pred (suc n) = n

module _ (h : Host) (e : Moment) (r : Request) where
  pub operations-Quiet :
      {t : Server → Server} → Quiet h e r t → (s : Server) → (t s).operations ≡ s.operations
  unfolding audit_event
  operations-Quiet reads s = refl
  operations-Quiet (logs actor role action target result code) s = refl
  operations-Quiet (sessions f) s = refl
  operations-Quiet (limits f) s = refl
  operations-Quiet (creates username pass role) s = refl
  operations-Quiet (blocks username b) s = refl
  operations-Quiet (changes username old new) s = refl

  status_none : {found : Option Record} → status_option found ≡ none → found ≡ none
  status_none {found = none} x = refl
  status_none {found = some rec} x = absurd (cc)

  -- After a turn.
  abbrev IsAfter : ℕ → Steps Response × Server → Type 0
  IsAfter n (m, s) = (p : Phase) × (Protocol h e r p n m × IsPhase p (status_at (id h e r) s))

  begun :
      {n : ℕ} (next : Result Operations.Error Record → Steps Response)
      → ((rec : Record) → Protocol h e r running n (next (ok rec)))
      → ((failed : Operations.Error) → Protocol h e r fresh n (next (err failed)))
      → (x : Result Operations.Error Record) (found : Option Record) → IsTracked x found
      → (p : Phase) × (Protocol h e r p n (next x) × IsPhase p (status_option found))
  begun next good bad (ok rec) none y = (running, (good rec, inl refl))
  begun next good bad (ok rec) (some found) y = (running, (good rec, inr (ap some y)))
  begun next good bad (err failed) found y = (fresh, (bad failed, ap status_option y))

  pub turn-Protocol :
      {p : Phase} {n : ℕ} {m : Steps Response}
      → Protocol h e r p n m
      → (s : Server) → IsPhase p (status_at (id h e r) s)
      → IsAfter (pred n) (turn m s)
  unfolding turn
  turn-Protocol {p = p} (answers x a) s y = (p, (answers x a, y))
  turn-Protocol {p = p} (calls q next) s y = (
    p,
    (
      next s,
      subst
          (λ (x : Operations.Store). IsPhase p (status_option (Dict.get x.doc.records (id h e r))))
          (sym (operations-Quiet q s)) y,
    ),
  )
  turn-Protocol (begins next kind actor role target good bad) s y =
      begun next good bad (started h e r kind actor role target s).0 _ (
        start-IsTracked h.codec e.start_write e.start_at (id h e r) kind actor role target
          (operations_world h e r s) (status_none y))
  turn-Protocol (ends st code terminal next) s y =
      (closed st, (next s, finish-IsNoneOr h e r st code s terminal y))

  ordered :
      {n : ℕ} (next : Result Operations.Error Record → Steps Response)
      → ((rec : Record) → Protocol h e r running n (next (ok rec)))
      → ((failed : Operations.Error) → Protocol h e r fresh n (next (err failed)))
      → (x : Result Operations.Error Record) → (q : Phase) × Protocol h e r q n (next x)
  ordered next good bad (ok rec) = (running, good rec)
  ordered next good bad (err failed) = (fresh, bad failed)

  pub turn-IsOrdered :
      {p : Phase} {n : ℕ} {m : Steps Response}
      → Protocol h e r p n m
      → (s : Server) → (q : Phase) × Protocol h e r q (pred n) (turn m s).0
  unfolding turn
  turn-IsOrdered {p = p} (answers x a) s = (p, answers x a)
  turn-IsOrdered {p = p} (calls q next) s = (p, next s)
  turn-IsOrdered (begins next kind actor role target good bad) s =
      ordered next good bad (started h e r kind actor role target s).0
  turn-IsOrdered (ends st code terminal next) s = (closed st, next s)

  -- A turn keeps the record of another id, or prunes it.
  pub turn-other :
      (key : Text)
      → id h e r ≢ key
      → {p : Phase} {n : ℕ} {m : Steps Response} → Protocol h e r p n m
      → (s : Server)
      → (status_at key (turn m s).1 ≡ none) ⊎ (status_at key (turn m s).1 ≡ status_at key s)
  unfolding turn
  turn-other key apart (answers x a) s = inr refl
  turn-other key apart (calls q next) s = inr (
      ap (λ (x : Operations.Store). status_option (Dict.get x.doc.records key))
        (operations-Quiet q s))
  turn-other key apart (begins next kind actor role target good bad) s =
      elim (get-start-other h.codec e.start_write e.start_at (id h e r) kind actor role target key
        (operations_world h e r s) apart) [
          | inl x ↦ inl (ap status_option x)
          | inr x ↦ inr (ap status_option x)
        ]
  turn-other key apart (ends st code terminal next) s = inr (
      ap status_option (
        get-finish-other h.codec e.finish_write e.finish_at (id h e r) st code key
          (operations_world h e r s) apart))
