-- ===== src/State/Store.antt =====
-- The methods of `Store` (internal/state/store.go). A method runs over the store and the file system;
-- the clock, the random bytes and the way each write ends are arguments. `mu` makes each method one
-- step.
use srv_deployment.Prelude.{
  ℕ, ◌+◌, Bool, true, false, not, ◌&&◌, ◌||◌, Option, none, some, [], ◌∷◌, ◌++◌, leb, ◌==◌, Text,
  codes, if◌then◌else◌, Result, ok, err, or_fail, text_eq, nat_eq, int_eq,
}
use srv_deployment.Dict
use srv_deployment.Dict.{Dict}
use srv_deployment.Exec.{Exec, ◌>>=◌, ◌>>◌, pure, lift, gets, modify, check}
use srv_deployment.Platform.{Platform}
use srv_deployment.State.Document.{
  Role, role_admin, role_viewer, User, Store, World, Error, username_invalid, role_invalid,
  user_exists, random_failed, user_not_found, last_active_admin, current_password_invalid,
  persist_bootstrap, password, Encoder, Writes, newline, next_revision, write, persist_locked,
}
use srv_deployment.State.Username.{normalize_username}
use srv_deployment.State.Password
use srv_deployment.State.Password.{hash_password, verify_password}
use srv_deployment.Strings.Base64.{url, encode}

abbrev pub users : World → Dict User
users w = w.store.doc.users

abbrev pub passwords : World → Dict Text
passwords w = w.store.secrets.passwords

-- `s.doc.Users[username] = u`
abbrev pub set_user : Text → User → World → World
set_user name u w = record w {
  store = record (w.store) { doc = record (w.store.doc) { users = Dict.put (users w) name u } };
}

-- `s.secrets.Passwords[username] = hash`
abbrev pub set_password : Text → Text → World → World
set_password name hash w = record w {
  store = record (w.store) {
    secrets = record (w.store.secrets) { passwords = Dict.put (passwords w) name hash };
  };
}

-- `s.doc.Revision++`
abbrev pub bump_revision : World → World
bump_revision w = record w {
  store = record (w.store) {
    doc = record (w.store.doc) { revision = next_revision w.store.doc.revision };
  };
}

abbrev pub is_none : {A : Type 0} → Option A → Bool
is_none none = true
is_none (some a) = false

abbrev with_password : Result Password.Error Text → Result Error Text
with_password (ok hash) = ok hash
with_password (err e) = err (password e)

-- A missing key of `map[string]string` reads as "".
abbrev pub hash_of : Option Text → Text
hash_of none = []
hash_of (some hash) = hash

-- `len(s.doc.Users) != 0`
abbrev pub has_users : Dict User → Bool
has_users [] = false
has_users (e ∷ d) = true

abbrev pub new_user : Text → Role → ℕ → User
new_user name role now = record {
  username = name;
  role = role;
  blocked = false;
  must_change_password = false;
  created_at = now;
  password_changed_at = now;
}

abbrev pub is_active_admin : User → Bool
is_active_admin u = u.role == role_admin && not u.blocked

-- The loop that counts the active administrators.
unfoldable pub active_admins : Dict User → ℕ
active_admins [] = 0
active_admins ((name, u) ∷ d) = let n = active_admins d in if is_active_admin u then n + 1 else n

module _ (p : Platform) (c : Encoder) (o : Writes) where
  -- `raw` is what `rand.Read` gives for the password, `salt` for the hash; `now` is the clock.
  unfoldable pub bootstrap_admin :
      (raw salt : Option Text) (now : ℕ) → Text → Exec Error World (Text × Bool)
  unfolding write
  bootstrap_admin raw salt now username = do
    name ← lift (or_fail (normalize_username p username) username_invalid)
    existing ← gets users
    if has_users existing then pure ([], false) else do
      bytes ← lift (or_fail raw random_failed)
      let secret = encode url bytes
      hash ← lift (with_password (hash_password p salt secret))
      modify (set_user name (record (new_user name role_admin now) { must_change_password = true }))
      modify (set_password name hash)
      modify bump_revision
      persist_locked c o
      path ← gets (λ w. w.store.bootstrap_path)
      write o.bootstrap_write path
          (codes "username=" ++ name ++ newline ++ codes "password=" ++ secret ++ newline)
          persist_bootstrap
      pure (secret, true)

  unfoldable pub create_user :
      (salt : Option Text) (now : ℕ) → Text → Text → Role → Exec Error World User
  create_user salt now username pass role = do
    name ← lift (or_fail (normalize_username p username) username_invalid)
    check (role == role_admin || role == role_viewer) role_invalid
    hash ← lift (with_password (hash_password p salt pass))
    existing ← gets users
    check (is_none (Dict.get existing name)) user_exists
    let user = new_user name role now
    modify (set_user name user)
    modify (set_password name hash)
    modify bump_revision
    persist_locked c o
    pure user

  -- `_ = os.Remove(s.bootstrapPath)`
  unfoldable pub change_password :
      (salt : Option Text) (now : ℕ) → Text → Text → Text → Exec Error World Unit
  change_password salt now username old new = do
    name ← lift (or_fail (normalize_username p username) username_invalid)
    hash ← lift (with_password (hash_password p salt new))
    w ← gets (λ w. w)
    u ← lift (or_fail (Dict.get (users w) name) current_password_invalid)
    check (not u.blocked && verify_password p old (hash_of (Dict.get (passwords w) name)))
        current_password_invalid
    modify (set_password name hash)
    modify (set_user name (record u { must_change_password = false; password_changed_at = now }))
    modify bump_revision
    persist_locked c o
    modify (λ v. record v { files = Dict.remove v.files v.store.bootstrap_path })

  unfoldable pub set_blocked : Text → Bool → Exec Error World User
  set_blocked username blocked = do
    name ← lift (or_fail (normalize_username p username) username_invalid)
    all ← gets users
    u ← lift (or_fail (Dict.get all name) user_not_found)
    check (not (u.role == role_admin && blocked && leb (active_admins all) 1)) last_active_admin
    let u' = record u { blocked = blocked }
    modify (set_user name u')
    modify bump_revision
    persist_locked c o
    pure u'

abbrev find_user : Dict User → Option Text → Option User
find_user d none = none
find_user d (some name) = Dict.get d name

-- `(User{}, false)` is `none`.
unfoldable pub get_user : Platform → Text → Store → Option User
get_user p username s = find_user s.doc.users (normalize_username p username)

abbrev verified : Platform → Text → Text → Option User → Option User
verified p pass hash none = none
verified p pass hash (some u) =
    if u.blocked || hash == []
    then none
    else if not (verify_password p pass hash)
    then none
    else some u

abbrev credentials : Platform → Text → Store → Option Text → Option User
credentials p pass s none = none
credentials p pass s (some name) =
    verified p pass (hash_of (Dict.get s.secrets.passwords name)) (Dict.get s.doc.users name)

unfoldable pub verify_credentials : Platform → Text → Text → Store → Option User
verify_credentials p username pass s = credentials p pass s (normalize_username p username)

unfoldable pub has_active_admin : Dict User → Bool
has_active_admin [] = false
has_active_admin ((name, u) ∷ d) = is_active_admin u || has_active_admin d

unfoldable pub ready : Store → Bool × Text
ready s =
    if has_active_admin s.doc.users
    then (true, codes "ready")
    else (false, codes "no active administrator")
