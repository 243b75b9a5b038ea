-- ===== src/HttpServer/Stepwise/Rules.antt =====
-- The combinators of the handlers keep to the order of calls.
use srv_deployment.Prelude.{
  ℕ, suc, ◌≡◌, refl, ap, ◌⊎◌, inr, Bool, true, false, Option, none, some, ltb, Text, if◌then◌else◌,
  Result, ok, err,
}
use srv_deployment.Auth.Sessions.{Session}
use srv_deployment.HttpServer.Request.{Request, Response}
use srv_deployment.HttpServer.Server.{Server, Host, Moment, Handler, audit_event}
use srv_deployment.HttpServer.Stepwise.{Steps, go_on, pure, raise, atom, ◌>>=◌, ◌>>◌}
use srv_deployment.HttpServer.Stepwise.Protocol.{
  Phase, fresh, running, closed, Quiet, logs, IsAnswer, Protocol, answers, calls, begins, ends,
}
use srv_deployment.HttpServer.Stepwise.Requests.{
  otherwise, value_or, value_or_fail, log, begin_operation, finish_operation, tracked,
}
use srv_deployment.Operations.{status_failed, status_succeeded}
use srv_deployment.State.Document
use srv_deployment.State.Document.{User}

module _ (h : Host) (e : Moment) (r : Request) {p : Phase} {n : ℕ} where
  pub pure-Protocol : (x : Response) → IsAnswer h e r p (ok x) → Protocol h e r p n (pure x)
  unfolding pure
  pure-Protocol x a = answers _ a

  pub raise-Protocol : (x : Response) → IsAnswer h e r p (err x) → Protocol h e r p n (raise x)
  unfolding raise
  raise-Protocol x a = answers _ a

  pub log-Protocol :
      (actor role action target result code : Text) (f : Unit → Steps Response)
      → Protocol h e r p n (f tt)
      → Protocol h e r p (suc n) (log h e r actor role action target result code >>= f)
  unfolding audit_event atom ◌>>=◌
  log-Protocol actor role action target result code f x =
      calls (logs actor role action target result code) (λ s. x)

  pub otherwise-Protocol :
      (b : Bool) (refused : Steps Unit) (f : Unit → Steps Response)
      → Protocol h e r p n (refused >>= f)
      → Protocol h e r p n (f tt)
      → Protocol h e r p n (otherwise b refused >>= f)
  unfolding otherwise pure ◌>>=◌
  otherwise-Protocol true refused f x y = y
  otherwise-Protocol false refused f x y = x

  pub log-raise-Protocol :
      (actor role action target result code : Text) (x : Response) (f : Unit → Steps Response)
      → IsAnswer h e r p (err x)
      → Protocol h e r p (suc n) ((log h e r actor role action target result code >> raise x) >>= f)
  unfolding audit_event atom ◌>>=◌ ◌>>◌ raise
  log-raise-Protocol actor role action target result code x f a =
      calls (logs actor role action target result code) (λ s. answers _ a)

  module _ {A : Type 0} where
    pub atom-Protocol :
        (m : Handler A) (f : A → Steps Response)
        → Quiet h e r (λ s. (m s).1)
        → ((s : Server) → Protocol h e r p n (go_on (m s).0 f))
        → Protocol h e r p (suc n) (atom m >>= f)
    unfolding atom ◌>>=◌
    atom-Protocol m f q x = calls q x

    pub raise_bind-Protocol :
        (x : Response) (f : A → Steps Response)
        → IsAnswer h e r p (err x)
        → Protocol h e r p n (raise x >>= f)
    unfolding raise ◌>>=◌
    raise_bind-Protocol x f a = answers _ a

    pub value_or-Protocol :
        (a : Option A) (failed : Steps Unit) (refused : Response) (f : A → Steps Response)
        → Protocol h e r p n ((failed >>= λ _. raise refused) >>= f)
        → ((x : A) → Protocol h e r p n (f x))
        → Protocol h e r p n (value_or a failed refused >>= f)
    unfolding value_or pure ◌>>=◌
    value_or-Protocol none failed refused f x y = x
    value_or-Protocol (some a) failed refused f x y = y a

    -- A value that is missing ends the request, with nothing or an event written before.
    pub decoded-Protocol :
        (a : Option A) (refused : Response) (f : A → Steps Response)
        → IsAnswer h e r p (err refused)
        → ((x : A) → Protocol h e r p n (f x))
        → Protocol h e r p n (value_or a (pure tt) refused >>= f)
    unfolding raise pure ◌>>=◌
    decoded-Protocol a refused f x y = value_or-Protocol a _ refused f (answers _ x) y

    pub missing-Protocol :
        (refused : Response) (f : A → Steps Response)
        → IsAnswer h e r p (err refused)
        → Protocol h e r p n (value_or none (pure tt) refused >>= f)
    unfolding value_or raise pure ◌>>=◌
    missing-Protocol refused f x = answers _ x

module _ (h : Host) (e : Moment) (r : Request) {p : Phase} {n : ℕ} {A : Type 0} where
  pub value_or-log-Protocol :
      (a : Option A) (actor role action target result code : Text) (refused : Response)
      (f : A → Steps Response)
      → IsAnswer h e r p (err refused)
      → ((x : A) → Protocol h e r p (suc n) (f x))
      → Protocol h e r p
          (suc n)
          (value_or a (log h e r actor role action target result code) refused >>= f)
  unfolding audit_event raise atom ◌>>=◌
  value_or-log-Protocol a actor role action target result code refused f x y =
      value_or-Protocol h e r a _ refused f
        (calls (logs actor role action target result code) (λ s. answers _ x)) y

module _ (h : Host) (e : Moment) (r : Request) {n : ℕ} where
  pub begin_operation-Protocol :
      (u : User) (kind target : Text) (f : Unit → Steps Response)
      → Protocol h e r running n (f tt)
      → Protocol h e r fresh (suc n) (begin_operation h e r u kind target >>= f)
  unfolding begin_operation tracked pure raise atom ◌>>=◌
  begin_operation-Protocol u kind target f x =
      begins (λ y. tracked h e r y >>= f) kind u.username u.role target (λ rec. x)
        (λ failed. answers _ tt)

  pub finish_operation-Protocol :
      (u : User) (kind target st code : Text) (f : Unit → Steps Response)
      → (st ≡ status_succeeded) ⊎ (st ≡ status_failed)
      → Protocol h e r (closed st) n (f tt)
      → Protocol h e r running (suc (suc n)) (finish_operation h e r u kind target st code >>= f)
  unfolding finish_operation audit_event atom ◌>>=◌
  finish_operation-Protocol u kind target st code f terminal x =
      ends st code terminal (λ s. calls (logs _ _ _ _ _ _) (λ t. x))

  pub value_or_fail-Protocol :
      {A : Type 0} (sess : Session) (u : User) (kind target code : Text) (status : ℕ)
      (a : Result Document.Error A) (f : A → Steps Response)
      → ltb status 300 ≡ false
      → ((x : A) → Protocol h e r running (suc (suc n)) (f x))
      → Protocol h e r running
          (suc (suc n))
          (value_or_fail h e r sess u kind target code status a >>= f)
  unfolding value_or_fail finish_operation audit_event pure raise atom ◌>>=◌ ◌>>◌
  value_or_fail-Protocol sess u kind target code status (ok a) f bad x = x a
  value_or_fail-Protocol sess u kind target code status (err failed) f bad x =
      ends status_failed code (inr refl) (λ s.
        calls (logs _ _ _ _ _ _)
          (λ t. answers _ (ap (λ b. if b then status_succeeded else status_failed) bad)))
