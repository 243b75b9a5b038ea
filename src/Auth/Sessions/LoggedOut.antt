-- ===== src/Auth/Sessions/LoggedOut.antt =====
-- Once its sessions are revoked a user stays logged out.
use srv_deployment.Prelude.{
  ℕ, ◌+◌, ◌≡◌, ◌≢◌, inl, inr, Option, none, some, [], ◌∷◌, arith, ltb, ◌==◌, Text, Bool-cases,
  Option-cases, text_eq, nat_eq, int_eq,
}
use srv_deployment.Dict
use srv_deployment.Dict.{
  IsMap, get-put, get-remove, put-IsMap, remove-IsMap, unless, get-delete_where, delete_where-IsMap,
}
use srv_deployment.Platform.{Platform}
use srv_deployment.State.Document.{User}
use srv_deployment.Strings.Base64.{encode, url}
use srv_deployment.Auth.Sessions.{Session, Manager, digest, create, lookup, revoke, revoke_user}

-- A manager whose map has each key once and no session of the user.
pub record IsLoggedOut (username : Text) (m : Manager) : Type 0 where
  pub is_map : IsMap m.sessions
  pub absent : (key : Text) (s : Session) → Dict.get m.sessions key ≡ some s → s.username ≢ username

-- The operations, but for the creation of a session of one user.
pub data Step (p : Platform) (username : Text) : Manager → Manager → Type 0 where
  creates :
      (u : User) (now : ℕ) (token_bytes csrf_bytes : Option Text) (m : Manager)
      → u.username ≢ username
      → Step p username m (create p u now token_bytes csrf_bytes m).1
  looks_up : (token : Text) (now : ℕ) (m : Manager) → Step p username m (lookup p token now m).1
  revokes : (token : Text) (m : Manager) → Step p username m (revoke p token m)
  revokes_user : (other : Text) (m : Manager) → Step p username m (revoke_user other m)

pub data Reach (p : Platform) (username : Text) (m : Manager) : Manager → Type 0 where
  here : Reach p username m m
  next :
      {m' m'' : Manager} → Reach p username m m' → Step p username m' m'' → Reach p username m m''

module _ (p : Platform) (username : Text) where
  create-IsLoggedOut :
      (u : User) (now : ℕ) (token_bytes csrf_bytes : Option Text) (m : Manager)
      → u.username ≢ username
      → IsLoggedOut username m
      → IsLoggedOut username (create p u now token_bytes csrf_bytes m).1
  unfolding create
  create-IsLoggedOut u now none csrf_bytes m h v = v
  create-IsLoggedOut u now (some t) none m h v = v
  create-IsLoggedOut u now (some t) (some r) m h v = record {
    is_map = put-IsMap m.sessions _ _ v.is_map;
    absent = λ key s e.
        ground (arith, get-put m.sessions (digest p (encode url t)) key s', v.absent key s);
  }
    where
      s' : Session
      s' = record {
        username = u.username;
        role = u.role;
        csrf = encode url r;
        expires_at = now + m.ttl;
      }

  removed-IsLoggedOut :
      (key : Text) (m : Manager)
      → IsLoggedOut username m
      → IsLoggedOut username (record m { sessions = Dict.remove m.sessions key })
  removed-IsLoggedOut key m v = record {
    is_map = remove-IsMap m.sessions key v.is_map;
    absent = λ k s e. ground (arith, get-remove m.sessions key k, v.absent k s);
  }

  revoke-IsLoggedOut :
      (token : Text) (m : Manager)
      → IsLoggedOut username m
      → IsLoggedOut username (revoke p token m)
  unfolding revoke
  revoke-IsLoggedOut token m = removed-IsLoggedOut (digest p token) m

  lookup-IsLoggedOut :
      (token : Text) (now : ℕ) (m : Manager)
      → IsLoggedOut username m
      → IsLoggedOut username (lookup p token now m).1
  unfolding lookup
  lookup-IsLoggedOut [] now m v = v
  lookup-IsLoggedOut (c ∷ t) now m v =
      elim (Option-cases (Dict.get m.sessions (digest p (c ∷ t)))) [
        | inl e ↦ rw (e, lookup) v
        | inr (s, e) ↦ elim (Bool-cases (ltb s.expires_at now)) [
          | inl f ↦ rw (e, lookup) (rw f (removed-IsLoggedOut (digest p (c ∷ t)) m v))
          | inr f ↦ rw (e, lookup) (rw f v)
        ]
      ]

  revoke_user-IsLoggedOut :
      (other : Text) (m : Manager)
      → IsLoggedOut username m
      → IsLoggedOut username (revoke_user other m)
  unfolding revoke_user
  revoke_user-IsLoggedOut other m v = record {
    is_map = delete_where-IsMap (λ s. s.username == other) m.sessions v.is_map;
    absent = λ key s e. ground (
      arith,
      get-delete_where (λ s. s.username == other) m.sessions key v.is_map,
      v.absent key s,
    );
  }

  -- `RevokeUser` establishes it.
  IsLoggedOut-revoke_user :
      (m : Manager) → IsMap m.sessions → IsLoggedOut username (revoke_user username m)
  unfolding revoke_user
  IsLoggedOut-revoke_user m h = record {
    is_map = delete_where-IsMap (λ s. s.username == username) m.sessions h;
    absent =
        λ key s e. ground (arith, get-delete_where (λ s. s.username == username) m.sessions key h);
  }

  Reach-IsLoggedOut :
      {m m' : Manager} → Reach p username m m' → IsLoggedOut username m → IsLoggedOut username m'
  Reach-IsLoggedOut here v = v
  Reach-IsLoggedOut (next r (creates u now t c m h)) v =
      create-IsLoggedOut u now t c m h (Reach-IsLoggedOut r v)
  Reach-IsLoggedOut (next r (looks_up t now m)) v =
      lookup-IsLoggedOut t now m (Reach-IsLoggedOut r v)
  Reach-IsLoggedOut (next r (revokes t m)) v = revoke-IsLoggedOut t m (Reach-IsLoggedOut r v)
  Reach-IsLoggedOut (next r (revokes_user o m)) v =
      revoke_user-IsLoggedOut o m (Reach-IsLoggedOut r v)

  -- Once `RevokeUser` has run for a user, no token ever finds a session of that user again, through
  -- any further operations, until a session is created for the same user.
  pub lookup_after_revoke_user :
      (m m' : Manager)
      → IsMap m.sessions
      → Reach p username (revoke_user username m) m'
      → (token : Text) (now : ℕ) (s : Session) → (lookup p token now m').0 ≡ some s
      → s.username ≢ username
  unfolding lookup
  lookup_after_revoke_user m m' h r [] now s e = cc
  lookup_after_revoke_user m m' h r (c ∷ t) now s e =
      let v = Reach-IsLoggedOut r (IsLoggedOut-revoke_user m h) in
      ground (arith, v.absent (digest p (c ∷ t)) s)
