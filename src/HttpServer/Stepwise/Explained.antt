-- ===== src/HttpServer/Stepwise/Explained.antt =====
-- A turn of a request, and the operations that run after it.
use srv_deployment.Prelude.{
  ℕ, ◌≡◌, refl, sym, ap, ◌∙◌, ◌≢◌, ◌⊎◌, inl, inr, Option, none, some, arith, Text, Text_discrete,
  Option-cases, Result, ok, err,
}
use srv_deployment.Dict
use srv_deployment.HttpServer.Recorded.{status_at, status_option}
use srv_deployment.HttpServer.Request.{Request, Response}
use srv_deployment.HttpServer.Server.{Server, Host, Moment, id}
use srv_deployment.HttpServer.Stepwise.{Steps}
use srv_deployment.HttpServer.Stepwise.Pool.{turn}
use srv_deployment.HttpServer.Stepwise.Protocol.{
  Phase, fresh, running, closed, Protocol, answers, calls, begins, ends, started, finished,
  operations_world,
}
use srv_deployment.HttpServer.Stepwise.Turns.{operations-Quiet}
use mathlib.Core.Path.{subst}
use srv_deployment.Operations
use srv_deployment.Operations.{Record, status_running, status_succeeded, status_failed}
use srv_deployment.Operations.Lifecycle.{get-finish}
use srv_deployment.Operations.Started.{
  get-start-other, get-start-err, get-finish-other, get-finish-none,
}

abbrev pub IsRunning : Text → Server → Type 0
IsRunning key s = status_at key s ≡ some status_running

-- A request in some phase, and the id whose operation it has begun.
abbrev pub Thread : Host → Steps Response → Type 0
Thread h m = (e : Moment) × (r : Request) × (p : Phase) × (n : ℕ) × Protocol h e r p n m

abbrev pub Holds : (h : Host) → Text → (m : Steps Response) → Thread h m → Type 0
Holds h key m (e, r, p, n, x) = (p ≡ running) × (id h e r ≡ key)

-- After a turn, an id whose record runs is held by the request, or was held before.
abbrev pub Explained :
    (h : Host)
    → (m : Steps Response) → Thread h m
    → Server
    → (m' : Steps Response) → Server
    → Type 0
Explained h m x s m' s' =
    (y : Thread h m') × ((key : Text)
      → IsRunning key s'
      → Holds h key m' y ⊎ (IsRunning key s × (Holds h key m x → Holds h key m' y)))

module _ (h : Host) (e : Moment) (r : Request) where
  status-running :
      {found : Option Record}
      → status_option found ≡ some status_running
      → (rec : Record) × (found ≡ some rec) × (rec.status ≡ status_running)
  status-running {found = none} x = absurd (cc)
  status-running {found = some rec} x = (rec, refl, cc)

  -- The operation of another id.
  start-apart :
      (key : Text) (kind actor role target : Text) (s : Server)
      → id h e r ≢ key
      → status_option (Dict.get (started h e r kind actor role target s).1.store.doc.records key)
        ≡ some status_running
      → IsRunning key s
  start-apart key kind actor role target s apart x =
      elim (get-start-other h.codec e.start_write e.start_at (id h e r) kind actor role target key
        (operations_world h e r s) apart) [
          | inl gone ↦ absurd (cc (gone, x))
          | inr same ↦ ap status_option (sym same) ∙ x
        ]

  start-failed :
      (kind actor role target : Text) (s : Server) (failed : Operations.Error)
      → (started h e r kind actor role target s).0 ≡ err failed
      → status_option
          (Dict.get (started h e r kind actor role target s).1.store.doc.records (id h e r))
        ≡ some status_running
      → IsRunning (id h e r) s
  start-failed kind actor role target s failed x run =
      let (rec, there, runs) = status-running run in
      let before =
        get-start-err h.codec e.start_write e.start_at (id h e r) kind actor role target
          (operations_world h e r s) failed rec x there in
      ap status_option before ∙ ap some runs

  finish-over :
      (st code : Text) (s : Server)
      → (st ≡ status_succeeded) ⊎ (st ≡ status_failed)
      → status_option (Dict.get (finished h e r st code s).1.store.doc.records (id h e r))
        ≢ some status_running
  finish-over st code s terminal run =
      let w = operations_world h e r s in
      elim (Option-cases (Dict.get s.operations.doc.records (id h e r))) [
        | inl new ↦
            ground
              (arith, get-finish-none h.codec e.finish_write e.finish_at (id h e r) st code w new)
        | inr (rec, there) ↦ ground (
          arith,
          get-finish h.codec e.finish_write e.finish_at (id h e r) st code (id h e r) rec w there,
        )
      ]

  begun-Explained :
      {n : ℕ} (next : Result Operations.Error Record → Steps Response)
      (kind actor role target : Text)
      → ((rec : Record) → Protocol h e r running n (next (ok rec)))
      → ((failed : Operations.Error) → Protocol h e r fresh n (next (err failed)))
      → (s : Server) (x : Result Operations.Error Record)
      → (started h e r kind actor role target s).0 ≡ x
      → (y : Thread h (next x)) × ((key : Text)
          → status_option
              (Dict.get (started h e r kind actor role target s).1.store.doc.records key)
            ≡ some status_running
          → Holds h key (next x) y
            ⊎ (IsRunning key s × ((fresh ≡ running) × (id h e r ≡ key) → Holds h key (next x) y)))
  begun-Explained {n = n} next kind actor role target good bad s (ok rec) x = (
    (e, r, running, n, good rec),
    λ key run. elim (Text_discrete (id h e r) key) [
      | yes same ↦ inl (refl, same)
      | no apart ↦
          inr (start-apart key kind actor role target s apart run, λ (q, same). absurd (apart same))
    ],
  )
  begun-Explained {n = n} next kind actor role target good bad s (err failed) x = (
    (e, r, fresh, n, bad failed),
    λ key run. elim (Text_discrete (id h e r) key) [
      | yes same ↦
          let after : Text → Option Operations.Status = λ k.
            status_option
              (Dict.get (started h e r kind actor role target s).1.store.doc.records k) in
          inr (
            subst (λ k. after k ≡ some status_running → IsRunning k s) same
                (start-failed kind actor role target s failed x) run,
            λ q. q,
          )
      | no apart ↦ inr (start-apart key kind actor role target s apart run, λ q. q)
    ],
  )

  pub turn-Explained :
      {p : Phase} {n : ℕ} {m : Steps Response} (x : Protocol h e r p n m) (s : Server)
      → Explained h m (e, r, p, n, x) s (turn m s).0 (turn m s).1
  unfolding turn
  turn-Explained {p = p} {n = n} (answers x a) s =
      ((e, r, p, n, answers x a), λ key run. inr (run, λ q. q))
  turn-Explained {p = p} (calls {n = n} q next) s = (
    (e, r, p, n, next s),
    λ key run. inr (
      ap (λ (x : Operations.Store). status_option (Dict.get x.doc.records key))
            (sym (operations-Quiet h e r q s))
          ∙ run,
      λ z. z,
    ),
  )
  turn-Explained (begins next kind actor role target good bad) s =
      begun-Explained next kind actor role target good bad s
        (started h e r kind actor role target s).0 refl
  turn-Explained (ends {n = n} st code terminal next) s = (
    (e, r, closed st, n, next s),
    λ key run. elim (Text_discrete (id h e r) key) [
      | yes same ↦
          let after : Text → Option Operations.Status =
            λ k. status_option (Dict.get (finished h e r st code s).1.store.doc.records k) in
          absurd
            (subst (λ k. after k ≢ some status_running) same (finish-over st code s terminal) run)
      | no apart ↦ inr (
        ap status_option (
              sym (
                get-finish-other h.codec e.finish_write e.finish_at (id h e r) st code key
                  (operations_world h e r s) apart))
            ∙ run,
        λ (q, same). absurd (apart same),
      )
    ],
  )
