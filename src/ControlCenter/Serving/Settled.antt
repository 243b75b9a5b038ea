-- ===== src/ControlCenter/Serving/Settled.antt =====
-- A process that stops in time leaves no operation running.
use srv_deployment.Prelude.{◌≡◌, true, List, [], ◌∷◌}
use srv_deployment.ControlCenter
use srv_deployment.ControlCenter.Serving.{
  server_closed, Happening, signalled, returns, Process, serving, stopping, ended,
}
use srv_deployment.Dict
use srv_deployment.Dict.{Dict}
use srv_deployment.Files.{Files}
use srv_deployment.HttpServer.Server.{Server, Host}
use srv_deployment.HttpServer.Stepwise.Pool.{Pool, all_answered}
use srv_deployment.HttpServer.Stepwise.Settled.{AreHeld}

-- As documented, `ListenAndServe` returns `ErrServerClosed` only after a `Shutdown`, and so after a signal.
unfoldable pub ClosesLate : List Happening → Type 0
ClosesLate [] = Unit
ClosesLate (signalled ∷ happenings) = Unit
ClosesLate (returns server_closed ∷ happenings) = ⊥
ClosesLate (_ ∷ happenings) = ClosesLate happenings

-- A process after the `select`: the operations that run have been begun by its requests, and one that has
-- ended with the status 0 has answered them all.
abbrev IsStopped : Host → Process → Type 0
IsStopped h (serving p) = ⊥
IsStopped h (stopping p) = AreHeld h p
IsStopped h (ended status p) = (status ≡ 0 → all_answered p.requests ≡ true) × AreHeld h p

abbrev IsOrderly : Host → Process → Type 0
IsOrderly h (serving p) = AreHeld h p
IsOrderly h (stopping p) = AreHeld h p
IsOrderly h (ended status p) = IsStopped h (ended status p)
