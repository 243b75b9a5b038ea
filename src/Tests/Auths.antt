-- ===== src/Tests/Auths.antt =====
-- internal/auth
use srv_deployment.Prelude.{
  ◌+◌, ◌≡◌, refl, ◌≢◌, true, false, none, some, [], ◌∷◌, arith, ltb, ◌==◌, Text, Text_discrete,
  codes, if◌then◌else◌, ℕ_discrete, pos, ltb_ℤ, text_eq, nat_eq, int_eq,
}
use srv_deployment.Dict
use srv_deployment.Dict.{IsMap, unless}
use srv_deployment.Platform.{ascii}
use srv_deployment.Auth.Limiter.{LoginLimiter, new_login_limiter, is_over, allowed, failure}
use srv_deployment.Auth.Limiter.Window.{failures, entry, allowed-failures}
use srv_deployment.Auth.Sessions.{Session, Manager, create, lookup, revoke_user}
use srv_deployment.Auth.Sessions.Lifetime.{lookup-create}
use srv_deployment.Auth.Sessions.LoggedOut.{Reach, here, next, creates, lookup_after_revoke_user}
use srv_deployment.State.Document.{User}
use srv_deployment.Strings.Base64.{url, encode, digit}
use srv_deployment.Tests.Fixtures.{root_user, second_admin, salt}

abbrev limiter : LoginLimiter
limiter = new_login_limiter (pos 5) 300

abbrev attacker : Text
attacker = codes "10.0.0.1|root"

abbrev five : LoginLimiter
five = failures attacker (100 ∷ 110 ∷ 120 ∷ 130 ∷ 140 ∷ []) limiter

no_window : is_over (entry attacker limiter) 100 ≡ true
unfolding new_login_limiter Dict.get
no_window = refl

window_length : limiter.window ≡ 300
unfolding new_login_limiter
window_length = refl

allowed-failures_example :
    (allowed attacker 200 five).0
    ≡ (if ltb (100 + limiter.window) 200 then true else ltb_ℤ (pos 5) limiter.limit)
allowed-failures_example =
    allowed-failures attacker 100 (110 ∷ 120 ∷ 130 ∷ 140 ∷ []) limiter no_window (omega arith)
      (rw window_length (omega arith)) (omega arith) 200

locked_out : (allowed attacker 200 five).0 ≡ false
unfolding new_login_limiter failure allowed Dict.get Dict.put Text_discrete ℕ_discrete
locked_out = refl

abbrev manager : Manager
manager = record { sessions = []; ttl = 12 }

abbrev root_session : Session
root_session = record {
  username = root_user.username;
  role = root_user.role;
  csrf = codes "YWJj";
  expires_at = 20;
}

abbrev logged_in : Manager
logged_in = record manager { sessions = (codes "YWJj", root_session) ∷ [] }

create_run :
    create ascii root_user 8 (some (codes "abc")) (some (codes "abc")) manager
    ≡ (some (codes "YWJj", root_session), logged_in)
unfolding create encode digit Dict.put
create_run = refl

-- The session of the token at the end of its lifetime.
lookup-create_example : (lookup ascii (codes "YWJj") 20 logged_in).0 ≡ (
    if ◌==◌ {A = Text} (codes "YWJj") (codes "YWJj")
    then (if ltb (8 + 12) 20 then none else some root_session)
    else (lookup ascii (codes "YWJj") 20 manager).0)
lookup-create_example =
    lookup-create ascii root_user 8 (codes "abc") (codes "abc") manager logged_in (codes "YWJj")
      root_session create_run 20 (codes "YWJj") (λ e. cc)

is_map : IsMap logged_in.sessions
unfolding Dict.get
is_map = (refl, tt)

abbrev second_in : Manager
second_in =
    (create ascii second_admin 8 (some salt) (some salt) (revoke_user (codes "root") logged_in)).1

second_logs_in : Reach ascii (codes "root") (revoke_user (codes "root") logged_in) second_in
second_logs_in = next here (
    creates second_admin 8 (some salt) (some salt) (revoke_user (codes "root") logged_in) (λ e. cc))

abbrev session_of : User → Session
session_of u = record {
  username = u.username;
  role = u.role;
  csrf = encode url salt;
  expires_at = 20;
}

second_token : Text
second_token = encode url salt

second_found : (lookup ascii second_token 9 second_in).0 ≡ some (session_of second_admin)
unfolding second_token create lookup revoke_user encode digit Dict.get Dict.put Dict.delete_where
    Text_discrete ℕ_discrete
second_found = refl

lookup_after_revoke_user_example : second_admin.username ≢ codes "root"
lookup_after_revoke_user_example =
    lookup_after_revoke_user ascii (codes "root") logged_in second_in is_map second_logs_in
      second_token 9 (session_of second_admin) second_found
