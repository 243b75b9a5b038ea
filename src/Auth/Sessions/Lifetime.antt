-- ===== src/Auth/Sessions/Lifetime.antt =====
-- How long a session can be looked up: until it expires or is revoked.
use srv_deployment.Prelude.{
  ℕ, ◌+◌, ◌≡◌, refl, sym, ap, ◌≢◌, none, some, [], ◌∷◌, arith, ltb, ◌==◌, Text, if◌then◌else◌,
  text_eq, nat_eq, int_eq,
}
use srv_deployment.Dict
use srv_deployment.Dict.{
  IsMap, get-put, get-remove, put-IsMap, remove-IsMap, unless, get-delete_where, delete_where-IsMap,
}
use srv_deployment.Platform.{Platform}
use srv_deployment.State.Document.{User}
use srv_deployment.Strings.Base64.{encode, url}
use srv_deployment.Auth.Sessions.{Session, Manager, digest, create, lookup, revoke, revoke_user}

module _ (p : Platform) where
  abbrev stored : Text → Session → Manager → Manager
  stored token s m = record m { sessions = Dict.put m.sessions (digest p token) s }

  lookup-stored :
      (token other : Text) (s : Session) (later : ℕ) (m : Manager)
      → other ≢ []
      → (lookup p other later (stored token s m)).0 ≡ (
          if digest p token == digest p other
          then (if ltb s.expires_at later then none else some s)
          else (lookup p other later m).0)
  unfolding lookup
  lookup-stored token [] s later m h = absurd (h refl)
  lookup-stored token (c ∷ t) s later m h =
      ground (arith, get-put m.sessions (digest p token) (digest p (c ∷ t)) s)

  -- After a session is created: a token with the digest of the new one finds the new session up to the
  -- end of its lifetime, which is that of the manager, and nothing later; and any other token that is not
  -- empty finds what it found before.
  pub lookup-create :
      (u : User) (now : ℕ) (token_bytes csrf_bytes : Text) (m m' : Manager) (token : Text)
      (s : Session)
      → create p u now (some token_bytes) (some csrf_bytes) m ≡ (some (token, s), m')
      → (later : ℕ) (other : Text) → other ≢ []
      → (lookup p other later m').0 ≡ (
          if digest p token == digest p other
          then (if ltb (now + m.ttl) later then none else some s)
          else (lookup p other later m).0)
  unfolding create
  lookup-create u now token_bytes csrf_bytes m m' token s made later other h =
      let made_token : encode url token_bytes ≡ token = cc in
      let made_session : record {
        username = u.username;
        role = u.role;
        csrf = encode url csrf_bytes;
        expires_at = now + m.ttl;
      }
          ≡ s =
        cc in
      let left : stored (encode url token_bytes) s m ≡ m' = cc in
      let ends : s.expires_at ≡ now + m.ttl =
        ap (λ (x : Session). x.expires_at) (sym made_session) in
      rw (← left, ← made_token, ← ends) (lookup-stored (encode url token_bytes) other s later m h)

  -- After `Revoke` a token with the digest of the revoked one finds nothing, and any other token finds
  -- what it found before.
  lookup-revoke :
      (token other : Text) (now : ℕ) (m : Manager)
      → (lookup p other now (revoke p token m)).0
        ≡ (if digest p token == digest p other then none else (lookup p other now m).0)
  unfolding lookup revoke
  lookup-revoke token [] now m = ground arith
  lookup-revoke token (c ∷ t) now m =
      ground (arith, get-remove m.sessions (digest p token) (digest p (c ∷ t)))

  -- `RevokeUser` ends exactly the sessions of the user.
  lookup-revoke_user :
      (username token : Text) (now : ℕ) (m : Manager)
      → IsMap m.sessions
      → (lookup p token now (revoke_user username m)).0
        ≡ unless (λ s. s.username == username) (lookup p token now m).0
  unfolding lookup revoke_user
  lookup-revoke_user username [] now m h = refl
  lookup-revoke_user username (c ∷ t) now m h =
      ground (arith, get-delete_where (λ s. s.username == username) m.sessions (digest p (c ∷ t)) h)
