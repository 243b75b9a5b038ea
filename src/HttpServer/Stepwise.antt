-- ===== src/HttpServer/Stepwise.antt =====
-- A handler as the sequence of its calls of the components, between which other requests run. Each
-- component holds its lock through a call, so that a call is one step.
pub mod Requests
pub mod Serial
pub mod Protocol
mod Rules
mod Access
pub mod Pool
mod Turns
mod Threads
pub mod Interleaved
pub mod Answered
pub mod Alone
pub mod Stale
pub mod Explained
pub mod Settled
pub mod Orderly
use srv_deployment.Prelude.{Result, ok, err}
use srv_deployment.HttpServer.Request.{Response}
use srv_deployment.HttpServer.Server.{Server, Handler}

-- What is left of a handler: its result, or a call with its effect on the server and what follows, which
-- depends on what the call reads.
pub data Steps (A : Type 0) : Type 0 where
  done : Result Response A → Steps A
  call : (Server → Server) → (Server → Steps A) → Steps A

module _ {A : Type 0} where
  unfoldable pub pure : A → Steps A
  pure a = done (ok a)

  unfoldable pub raise : Response → Steps A
  raise x = done (err x)

  -- One call.
  unfoldable pub atom : Handler A → Steps A
  atom m = call (λ s. (m s).1) (λ s. done (m s).0)

module _ {A B : Type 0} where
  abbrev pub go_on : Result Response A → (A → Steps B) → Steps B
  go_on (ok a) f = f a
  go_on (err x) f = done (err x)

  infixl 5 ◌>>=◌
  unfoldable pub ◌>>=◌ : Steps A → (A → Steps B) → Steps B
  done x >>= f = go_on x f
  call t n >>= f = call t (λ s. n s >>= f)

module _ {B : Type 0} where
  infixl 5 ◌>>◌
  unfoldable pub ◌>>◌ : Steps Unit → Steps B → Steps B
  m >> n = m >>= λ _. n

-- The calls one after another, with no other request between them.
unfoldable pub run : {A : Type 0} → Steps A → Handler A
run (done x) s = (x, s)
run (call t n) s = run (n s) (t s)
