-- ===== src/ControlCenter/Serving.antt =====
-- cmd/control-center/main.go: `main` from `ListenAndServe` to the end of the process.
pub mod Settled
use srv_deployment.Prelude.{ℕ, List, [], ◌∷◌, Text, codes, if◌then◌else◌}
use srv_deployment.ControlCenter.{Program, Exit, Run, exited, env_or}
use srv_deployment.ControlCenter
use srv_deployment.HttpServer.Server.{Host}
use srv_deployment.HttpServer.Stepwise.Interleaved.{idle}
use srv_deployment.HttpServer.Stepwise.Pool.{Pool, Event, arrives, advances, step, all_answered}

-- What `ListenAndServe` returns: `http.ErrServerClosed`, or another error.
pub data Listened : Type 0 where
  server_closed listen_failed : Listened

-- What happens to a process: a request comes or makes its next call, SIGINT or SIGTERM, `ListenAndServe`
-- returns, `Shutdown` looks whether a request is left, and the ten seconds that it has are over.
pub data Happening : Type 0 where
  handles : Event → Happening
  signalled : Happening
  returns : Listened → Happening
  polls : Happening
  times_out : Happening

pub data Process : Type 0 where
  serving stopping : Pool → Process
  ended : (status : ℕ) → Pool → Process

module _ (g : Program) where
  abbrev pub listen : Text
  listen = env_or g (codes "CONTROL_CENTER_LISTEN") (codes "127.0.0.1:8876")

-- The error of `ListenAndServe`, when the `select` takes it.
abbrev pub listened : Listened → ℕ
listened server_closed = 0
listened listen_failed = 1

-- The `select`.
unfoldable pub serve : Host → Happening → Pool → Process
serve h (handles x) p = serving (step h x p)
serve h signalled p = stopping p
serve h (returns x) p = ended (listened x) p
serve h polls p = serving p
serve h times_out p = serving p

-- `Shutdown` closes the listener and waits until no request is left, or until its time is over; until
-- then a request can still come on a connection that is open. What `ListenAndServe` then returns, and a
-- second signal, nobody receives.
unfoldable pub shut_down : Host → Happening → Pool → Process
shut_down h (handles x) p = stopping (step h x p)
shut_down h signalled p = stopping p
shut_down h (returns x) p = stopping p
shut_down h polls p = if all_answered p.requests then ended 0 p else stopping p
shut_down h times_out p = ended 1 p

unfoldable pub happen : Host → Happening → Process → Process
happen h x (serving p) = serve h x p
happen h x (stopping p) = shut_down h x p
happen h x (ended status p) = ended status p

unfoldable pub run_process : Host → List Happening → Process → Process
run_process h [] q = q
run_process h (x ∷ happenings) q = run_process h happenings (happen h x q)
