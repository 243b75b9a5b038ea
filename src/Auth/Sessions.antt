-- ===== src/Auth/Sessions.antt =====
-- `Manager` (internal/auth/sessions.go). A key of the map is the digest of a token.
pub mod Lifetime
pub mod LoggedOut
use srv_deployment.Prelude.{
  ℕ, ◌+◌, Option, none, some, [], ◌∷◌, ltb, ◌==◌, Text, if◌then◌else◌, text_eq, nat_eq, int_eq,
}
use srv_deployment.Dict
use srv_deployment.Dict.{Dict}
use srv_deployment.Platform.{Platform}
use srv_deployment.State.Document.{User, Role}
use srv_deployment.Strings.Base64.{url, encode}

pub record Session : Type 0 where
  pub username : Text
  pub role : Role
  pub csrf : Text
  pub expires_at : ℕ

pub record Manager : Type 0 where
  pub sessions : Dict Session
  pub ttl : ℕ

unfoldable pub new_manager : ℕ → Manager
new_manager ttl = record { sessions = []; ttl = ttl }

-- `bytes` is what `rand.Read` gives, `none` for its error.
abbrev pub random_token : Option Text → Option Text
random_token none = none
random_token (some bytes) = some (encode url bytes)

module _ (p : Platform) where
  abbrev pub digest : Text → Text
  digest token = p.sha256 token

  -- `none` for an error of `rand.Read`
  abbrev created :
      User → ℕ → Option Text → Option Text → Manager → Option (Text × Session) × Manager
  created u now (some token) (some csrf) m =
      let s : Session = record {
        username = u.username;
        role = u.role;
        csrf = csrf;
        expires_at = now + m.ttl;
      } in
      (some (token, s), record m { sessions = Dict.put m.sessions (digest token) s })
  created u now _ _ m = (none, m)

  unfoldable pub create :
      User
      → (now : ℕ) (token_bytes csrf_bytes : Option Text) → Manager
      → Option (Text × Session) × Manager
  create u now token_bytes csrf_bytes m =
      created u now (random_token token_bytes) (random_token csrf_bytes) m

  abbrev found : Text → ℕ → Option Session → Manager → Option Session × Manager
  found key now none m = (none, m)
  found key now (some s) m =
      if ltb s.expires_at now
      then (none, record m { sessions = Dict.remove m.sessions key })
      else (some s, m)

  unfoldable pub lookup : Text → (now : ℕ) → Manager → Option Session × Manager
  lookup [] now m = (none, m)
  lookup (c ∷ token) now m =
      let key = digest (c ∷ token) in found key now (Dict.get m.sessions key) m

  unfoldable pub revoke : Text → Manager → Manager
  revoke token m = record m { sessions = Dict.remove m.sessions (digest token) }

unfoldable pub revoke_user : Text → Manager → Manager
revoke_user username m = record m {
  sessions = Dict.delete_where (λ s. s.username == username) m.sessions;
}
