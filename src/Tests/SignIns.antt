-- ===== src/Tests/SignIns.antt =====
-- internal/httpserver: a user logs in.
use srv_deployment.Prelude.{
  ◌+◌, ◌≡◌, refl, true, none, some, List, [], ◌∷◌, arith, Text, codes, pos,
}
use srv_deployment.Auth.Limiter.{new_login_limiter, allowed}
use srv_deployment.HttpServer.Guards.{valid_origin}
use srv_deployment.HttpServer.Request.{
  Request, Response, LoginRequest, decode_json, public_user, write_json, with_cookie,
  session_cookie, logged_in,
}
use srv_deployment.HttpServer.Routes.{serve_all, route, login, session, serve}
use srv_deployment.HttpServer.Server.{Moment, Server}
use srv_deployment.Platform.{ascii, ascii-TextLaws}
use srv_deployment.State.Document.{role_viewer}
use srv_deployment.State.Keyed.{IsKeyed, create_user-IsKeyed}
use srv_deployment.State.Store.{verify_credentials}
use srv_deployment.Tests.Fixtures.{store, encoder, good_writes, world, salt, long_password}
use srv_deployment.HttpServer.Throttle.{IsLogin, IsWrong, throttled}
use srv_deployment.Auth.Limiter.{is_over}
use srv_deployment.Auth.Limiter.Window.{entry}
use srv_deployment.HttpServer.SignIn.{login_key, sign_in}
use srv_deployment.State.Accounts.{verify_credentials-create_user}
use srv_deployment.Strings.Base64.{url, encode}
use srv_deployment.Platform.{ascii-HashLaws}
use srv_deployment.Tests.States.{carol, with_carol, create_run, salt-IsBytes}
use srv_deployment.Tests.Requests.{host, moment, server, request, keyed, requests}

-- Carol has been created and logs in.
abbrev pub with_carol_server : Server
with_carol_server = record server { store = with_carol.store }

carol-IsKeyed : IsKeyed ascii with_carol.store.doc.users
carol-IsKeyed =
    create_user-IsKeyed ascii-TextLaws encoder good_writes (some salt) 9 (codes "Carol")
      long_password role_viewer world keyed

abbrev pub log_in : Request
log_in = request (codes "POST") (codes "api" ∷ codes "v1" ∷ codes "auth" ∷ codes "login" ∷ []) []

abbrev pub cookie : Text
cookie = encode url (codes "abc")

abbrev ask_again : Request
ask_again =
    request (codes "GET") (codes "api" ∷ codes "v1" ∷ codes "auth" ∷ codes "session" ∷ []) cookie

abbrev pub credentials : LoginRequest
credentials = record { username = codes "Carol"; password = long_password }

pub at_login : route log_in.method log_in.segments ≡ login
unfolding requests
at_login = refl

at_session : route ask_again.method ask_again.segments ≡ session
unfolding requests
at_session = refl

pub from_here : valid_origin host.platform host.net log_in ≡ true
unfolding requests
from_here = refl

pub body_read : decode_json host.bodies host.bodies.login log_in.body ≡ some credentials
unfolding requests
body_read = refl

pub may_try :
    (allowed (login_key host log_in credentials) moment.allowed_at with_carol_server.limiter).0
    ≡ true
unfolding requests allowed new_login_limiter
may_try = refl

pub knows_password :
    verify_credentials ascii (codes "Carol") long_password with_carol.store ≡ some carol
knows_password =
    verify_credentials-create_user ascii-HashLaws encoder good_writes salt 9 (codes "Carol")
      long_password role_viewer world carol salt-IsBytes (omega arith) create_run

abbrev pub welcome : Response
welcome = write_json 200 (logged_in (public_user carol) (encode url (codes "xyz")))

sign_in_example :
    ((serve host moment log_in with_carol_server).0
      ≡ with_cookie (session_cookie cookie (pos 43200)) welcome)
    × ((serve host moment ask_again (serve host moment log_in with_carol_server).1).0 ≡ welcome)
sign_in_example =
    sign_in host moment moment log_in ask_again with_carol_server credentials carol b'a'
      (codes "bc") (codes "xyz") carol-IsKeyed at_login from_here body_read may_try knows_password
      refl refl at_session refl (omega arith)

-- There is no Carol yet: six logins under that name, of which the last is not looked at.
abbrev key : Text
key = login_key host log_in credentials

no_carol : verify_credentials ascii (codes "Carol") long_password store ≡ none
unfolding requests verify_credentials
no_carol = refl

guess-IsLogin : IsLogin host key (50 + server.limiter.window) moment log_in credentials
guess-IsLogin = record {
  at = at_login;
  origin = from_here;
  body = body_read;
  same_key = refl;
  early = omega arith;
}

guess-IsWrong : IsWrong host key (50 + server.limiter.window) store (moment, log_in)
guess-IsWrong = record {
  in_ = credentials;
  is_login = guess-IsLogin;
  wrong = no_carol;
  failed_early = omega arith;
}

abbrev guesses : List (Moment × Request)
guesses = (moment, log_in) ∷ (moment, log_in) ∷ (moment, log_in) ∷ (moment, log_in) ∷ []

no_window : is_over (entry key server.limiter) 50 ≡ true
unfolding requests new_login_limiter
no_window = refl

five_allowed : server.limiter.limit ≡ pos 5
unfolding new_login_limiter
five_allowed = refl

throttled_example :
    ((serve host moment log_in (serve_all host ((moment, log_in) ∷ guesses) server)).0.status ≡ 429)
    × ((serve host moment log_in (serve_all host ((moment, log_in) ∷ guesses) server)).1.sessions
        ≡ (serve_all host ((moment, log_in) ∷ guesses) server).sessions)
throttled_example =
    throttled host moment moment log_in log_in guesses server key credentials five_allowed no_window
      (omega arith)
      (guess-IsWrong, (guess-IsWrong, (guess-IsWrong, (guess-IsWrong, (guess-IsWrong, tt)))))
      (omega arith) guess-IsLogin
