-- ===== src/State/Accounts.antt =====
-- What the methods do, as a caller sees it.
use srv_deployment.Prelude.{
  ℕ, ◌≤◌, ◌≡◌, inl, inr, Bool, true, false, Option, none, some, arith, Text, length, Result, ok,
  err, Result-cases,
}
use srv_deployment.Dict
use srv_deployment.Dict.{get-put}
use srv_deployment.Platform.{Platform, HashLaws}
use srv_deployment.Strings.Base64.{IsBytes}
use srv_deployment.State.Admins.{store-persist_locked}
use srv_deployment.State.Calls.{is_persist}
use srv_deployment.State.Document.{User, World, Error, Encoder, Writes}
use srv_deployment.State.Inversion.{
  created, changed, updated, create_user-eq-ok, set_blocked-eq-ok, change_password-eq-ok,
}
use srv_deployment.State.Password.{hash_password, verify_password}
use srv_deployment.State.Password.Verification.{verify_password-hash_password, hash_password-ne-nil}
use srv_deployment.State.Store.{
  users, passwords, hash_of, new_user, create_user, set_blocked, change_password, get_user,
  verify_credentials,
}
use srv_deployment.State.Username.{normalize_username}

module _ {p : Platform} (laws : HashLaws p) (c : Encoder) (o : Writes) where
  -- A user that was created, with a salt of sixteen bytes or more, can log in with the password. (An
  -- HMAC is 32 bytes.)
  pub verify_credentials-create_user :
      (salt : Text) (now : ℕ) (username pass role : Text) (w : World) (u : User)
      → IsBytes salt
      → 16 ≤ length salt
      → (create_user p c o (some salt) now username pass role w).0 ≡ ok u
      → verify_credentials p username pass
          (create_user p c o (some salt) now username pass role w).1.store
        ≡ some u
  unfolding verify_credentials
  verify_credentials-create_user salt now username pass role w u bytes size h =
      let (name, hash, e, f, new, made, done, after) =
        create_user-eq-ok p c o (some salt) now username pass role w u h in
      let nonempty = hash_password-ne-nil p (some salt) pass hash f in
      let verifies = verify_password-hash_password laws salt pass hash pass bytes size f in
      rw (after, store-persist_locked c o (created name hash u w), e)
        (ground (arith, get-put (users w) name name u, get-put (passwords w) name name hash))

  -- A password that was changed, with a salt of sixteen bytes or more: the old one verified against
  -- the stored text before, the user was not blocked, the new one logs in, and the user need not
  -- change it again. (An HMAC is 32 bytes.)
  pub verify_credentials-change_password :
      (salt : Text) (now : ℕ) (username old new : Text) (w : World)
      → IsBytes salt
      → 16 ≤ length salt
      → (change_password p c o (some salt) now username old new w).0 ≡ ok tt
      → (name : Text) × (u : User) × (normalize_username p username ≡ some name)
        × (Dict.get (users w) name ≡ some u)
        × (u.blocked ≡ false)
        × (verify_password p old (hash_of (Dict.get (passwords w) name)) ≡ true)
        × (verify_credentials p username new
              (change_password p c o (some salt) now username old new w).1.store
            ≡ some (record u { must_change_password = false; password_changed_at = now }))
  unfolding verify_credentials
  verify_credentials-change_password salt now username old new w bytes size h =
      let (name, hash, u, e, f, found, unblocked, matched, done, after) =
        change_password-eq-ok p c o (some salt) now username old new w h in
      let u' = record u { must_change_password = false; password_changed_at = now } in
      let nonempty = hash_password-ne-nil p (some salt) new hash f in
      let verifies = verify_password-hash_password laws salt new hash new bytes size f in
      (
        name,
        u,
        e,
        found,
        unblocked,
        matched,
        rw (after, store-persist_locked c o (changed name hash u' w), e)
            (ground (arith, get-put (users w) name name u', get-put (passwords w) name name hash)),
      )

module _ (p : Platform) (c : Encoder) (o : Writes) where
  -- A user that was blocked cannot log in with any password, and is found as blocked.
  pub verify_credentials-set_blocked :
      (username : Text) (w : World) (u : User)
      → (set_blocked p c o username true w).0 ≡ ok u
      → (u.blocked ≡ true)
        × (get_user p username (set_blocked p c o username true w).1.store ≡ some u)
        × ((pass : Text)
            → verify_credentials p username pass (set_blocked p c o username true w).1.store ≡ none)
  unfolding verify_credentials get_user
  verify_credentials-set_blocked username w u h =
      let (name, v, e, found, made, done, after) = set_blocked-eq-ok p c o username true w u h in
      rw (after, store-persist_locked c o (updated name u w), e)
        (
          ground (arith, get-put (users w) name name u),
          ground (arith, get-put (users w) name name u),
          λ pass. ground (arith, get-put (users w) name name u),
        )

-- The error of a user that was created and could not be written.
abbrev pub is_unsaved : Result Error User → Bool
is_unsaved (ok u) = false
is_unsaved (err e) = is_persist e

module _ (p : Platform) (c : Encoder) (o : Writes) where
  -- A user whose creation fails while it is written is in memory all the same: the method returns an
  -- error, and from then on the user is found under the name.
  pub get_user-create_user_unsaved :
      (salt : Option Text) (now : ℕ) (username pass role name : Text) (w : World)
      → normalize_username p username ≡ some name
      → is_unsaved (create_user p c o salt now username pass role w).0 ≡ true
      → get_user p username (create_user p c o salt now username pass role w).1.store
        ≡ some (new_user name role now)
  unfolding create_user get_user
  get_user-create_user_unsaved salt now username pass role name w e h =
      elim (Result-cases (hash_password p salt pass)) [
        | inl (_, f) ↦ absurd (ground arith)
        | inr (hash, f) ↦ ground (
          arith,
          get-put (users w) name name (new_user name role now),
          store-persist_locked c o (created name hash (new_user name role now) w),
        )
      ]
