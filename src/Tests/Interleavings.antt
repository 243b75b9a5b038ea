-- ===== src/Tests/Interleavings.antt =====
-- internal/httpserver: two administrators block each other at the same time.
use srv_deployment.Prelude.{
  ℕ, ◌+◌, ◌≤◌, ◌≡◌, refl, ap, ◌≢◌, Option, none, some, List, [], ◌∷◌, ◌++◌, arith, ◌==◌, Text,
  codes, if◌then◌else◌, text_eq, nat_eq, int_eq,
}
use srv_deployment.HttpServer.Recorded.{status_at, IsNoneOr, expected}
use srv_deployment.HttpServer.Request.{Response}
use srv_deployment.HttpServer.Routes.{with_id}
use srv_deployment.HttpServer.Server.{Moment, id}
use srv_deployment.HttpServer.Soundness.{IsSound}
use srv_deployment.HttpServer.Stepwise.Answered.{among, place, status-among}
use srv_deployment.HttpServer.Stepwise.Interleaved.{idle, IsSound-run_events}
use srv_deployment.HttpServer.Stepwise.Orderly.{request_steps-Protocol}
use srv_deployment.HttpServer.Stepwise.Pool.{
  Pool, Arrivals, Event, arrives, advances, turn, advance, step, run_events, turns, answer,
  answer_of,
}
use srv_deployment.HttpServer.Stepwise.Protocol.{fresh, Protocol}
use srv_deployment.HttpServer.Stepwise.Requests.{
  request_steps, handle, login, set_blocked, require_permission, require_auth, current_session,
}
use srv_deployment.HttpServer.Stepwise.Serial.{combinators}
use srv_deployment.Auth.Sessions.{lookup}
use srv_deployment.HttpServer.SignIn.{opened}
use srv_deployment.HttpServer.Stepwise.Stale.{checked, rest_of_login, welcome, stale_login}
use srv_deployment.Auth.Limiter.{allowed, new_login_limiter}
use srv_deployment.State.Store.{verify_credentials}
use srv_deployment.HttpServer.Stepwise.Requests
use srv_deployment.Tests.SignIns
use srv_deployment.Tests.SignIns.{
  with_carol_server, credentials, cookie, at_login, from_here, body_read, may_try, knows_password,
}
use srv_deployment.Tests.States.{carol}
use srv_deployment.Platform.{ascii, ascii-TextLaws}
use srv_deployment.Tests.Requests.{
  host, moment, server, block_viewer, block_self, server-IsSound, no_record, requests,
}

-- Another request, with its own id.
abbrev other_moment : Moment
other_moment = record moment { id_bytes = some (codes "B") }

abbrev apart : Event
apart = arrives other_moment block_self

-- The two requests take turns.
abbrev both : List Event
both = advances 0 ∷ advances 1 ∷ []

abbrev in_turn : List Event
in_turn = both ++ both ++ both ++ both ++ both ++ both ++ both

ids_differ :
    id host other_moment (with_id other_moment block_self)
    ≢ id host moment (with_id moment block_viewer)
unfolding requests
ids_differ e =
    let this = id host moment (with_id moment block_viewer) in
    let test : Text → ℕ = λ x. if x == this then 1 else 0 in
    let unequal : test (id host other_moment (with_id other_moment block_self)) ≡ test this =
      ap test e in
    absurd (omega (arith, unequal))

place_run : place host (apart ∷ []) server ≡ 1
unfolding run_events step
place_run = refl

seven_turns : 7 ≤ turns (place host (apart ∷ []) server) in_turn
unfolding run_events step turns
seven_turns = omega arith

request_steps-Protocol_example :
    Protocol host moment
      (with_id moment block_viewer)
      fresh
      7
      (request_steps host moment block_viewer)
request_steps-Protocol_example = request_steps-Protocol host moment block_viewer

IsSound-run_events_example :
    IsSound ascii
      (run_events host (arrives moment block_viewer ∷ apart ∷ in_turn) (idle server)).server
IsSound-run_events_example =
    IsSound-run_events host (arrives moment block_viewer ∷ apart ∷ in_turn) server ascii-TextLaws
      server-IsSound

status-among_example :
    (response : Response) × (answer
        (place host (apart ∷ []) server)
        (among host (apart ∷ []) in_turn moment block_viewer server).requests
      ≡ some response)
    × IsNoneOr (expected response.status) (
        status_at
          (id host moment (with_id moment block_viewer))
          (among host (apart ∷ []) in_turn moment block_viewer server).server)
unfolding Arrivals
status-among_example =
    status-among host moment block_viewer (apart ∷ []) in_turn server (ids_differ, tt) tt no_record
      seven_turns

-- Everything that the calls of a request compute with.
unfoldable pub events : Unit {0}
unfolding run_events step turn advance request_steps handle login Requests.log_in set_blocked
    require_permission require_auth current_session answer answer_of combinators requests allowed
    new_login_limiter
events = tt

-- While Carol logs in, an administrator blocks a user.
abbrev meanwhile : List Event
meanwhile = apart ∷ advances 1 ∷ advances 1 ∷ []

abbrev after_login : Pool
after_login =
    run_events host rest_of_login
      (run_events host meanwhile (checked host moment SignIns.log_in with_carol_server))

waits : turns 0 meanwhile ≡ 0
unfolding turns
waits = refl

carol_ttl :
    (run_events host meanwhile
      (checked host moment SignIns.log_in with_carol_server)).server.sessions.ttl
    ≡ 100
unfolding events
carol_ttl = refl

stale_login_example :
    (answer 0 after_login.requests ≡ some (welcome carol cookie (codes "xyz")))
    × ((lookup ascii cookie 150 after_login.server.sessions).0
        ≡ some (
            opened carol
              (50
                + (run_events host meanwhile
                    (checked host moment SignIns.log_in with_carol_server)).server.sessions.ttl)
              (codes "xyz")))
stale_login_example =
    stale_login host moment SignIns.log_in with_carol_server credentials carol b'a' (codes "bc")
      (codes "xyz") meanwhile 150 at_login from_here body_read may_try knows_password refl refl
      waits (omega (arith, carol_ttl))

-- Six logins with a wrong name, of which each is checked before one of them is counted: none is refused
-- for the number of attempts.
abbrev guess : Event
guess = arrives moment SignIns.log_in

abbrev each : List Event
each = advances 0 ∷ advances 1 ∷ advances 2 ∷ advances 3 ∷ advances 4 ∷ advances 5 ∷ []

abbrev six_guesses : Pool
six_guesses =
    run_events host (guess ∷ guess ∷ guess ∷ guess ∷ guess ∷ guess ∷ each ++ each ++ each ++ each)
      (idle server)

abbrev status_of : Option Response → ℕ
status_of none = 0
status_of (some response) = response.status

sixth_run : status_of (answer 5 six_guesses.requests) ≡ 401
unfolding events verify_credentials
sixth_run = refl
