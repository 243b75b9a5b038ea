-- ===== src/State/FirstAdmin.antt =====
-- The administrator that `BootstrapAdmin` makes survives a restart.
use srv_deployment.Prelude.{
  ℕ, ◌≤◌, ◌≡◌, refl, sym, ap, ◌∙◌, ◌≢◌, true, false, Option, none, some, [], ◌∷◌, arith, Text,
  Text_discrete, length, Result, ok,
}
use srv_deployment.Dict
use srv_deployment.Dict.{get-put}
use srv_deployment.Files.{Files, content, read_file, atomic_write}
use srv_deployment.Files.Atomic.{get-atomic_write_done}
use srv_deployment.Platform.{Platform, TextLaws, HashLaws}
use srv_deployment.State.Admins.{store-persist_locked}
use srv_deployment.State.Document
use srv_deployment.State.Document.{
  World, Encoder, Writes, persist_locked, sync_revision, role_admin, schema_version,
}
use srv_deployment.State.Durability.{RoundTrips, paths, load-persist_locked_ok}
use srv_deployment.State.Written.{IsFresh, IsFresh-for, get-persist_locked}
use srv_deployment.State.Inversion.{created, first_admin, bootstrap_text, bootstrap_admin-eq-ok}
use mathlib.Core.Path.{subst}
use srv_deployment.State.Keyed.{IsKeyed, nil-IsKeyed, bootstrap_admin-IsKeyed}
use srv_deployment.State.Load.{Decoder, Paths, load}
use srv_deployment.State.Password.{hash_password}
use srv_deployment.State.Password.Verification.{verify_password-hash_password, hash_password-ne-nil}
use srv_deployment.State.Store.{
  users, passwords, has_users, bootstrap_admin, ready, has_active_admin, verify_credentials,
}
use srv_deployment.State.Username.{normalize_username, normalize_username_idem}
use srv_deployment.Strings.Base64.{IsBytes}

-- `load` reads the two files and no other.
load_same :
    (d : Decoder) (q : Paths) (fs gs : Files)
    → read_file fs q.state_path ≡ read_file gs q.state_path
    → read_file fs q.secret_path ≡ read_file gs q.secret_path
    → load d q fs ≡ load d q gs
unfolding load
load_same d q fs gs h k = rw (h, k) refl

-- What is loaded has the supported schema, and the paths that are asked for.
pub load-schema :
    (d : Decoder) (q : Paths) (fs : Files) (s : Document.Store)
    → load d q fs ≡ ok s
    → (s.doc.schema ≡ schema_version) × (s.secrets.schema ≡ schema_version) × (paths s ≡ q)
unfolding load
load-schema d q fs s h = (ground arith, ground arith, ground arith)

-- The temporary file of the bootstrap secret is new, and its name is that of none of the three files.
pub record IsApart (o : Writes) (w : World) : Type 0 where
  pub new : Dict.get w.files o.bootstrap_write.temp ≡ none
  pub from_state : w.store.state_path ≢ o.bootstrap_write.temp
  pub from_secrets : w.store.secret_path ≢ o.bootstrap_write.temp
  pub from_bootstrap : o.bootstrap_write.temp ≢ w.store.bootstrap_path

nil-of-has_users : (d : Dict.Dict Document.User) → has_users d ≡ false → d ≡ []
nil-of-has_users [] h = refl
nil-of-has_users (e ∷ d) h = absurd (ground arith)

ready-created :
    (name hash : Text) (now : ℕ) (w : World)
    → has_users (users w) ≡ false
    → (ready (created name hash (first_admin name now) w).store).0 ≡ true
unfolding ready has_active_admin Dict.put Text_discrete
ready-created name hash now w empty = rw (nil-of-has_users (users w) empty) refl

verify_credentials-created :
    {p : Platform}
    → HashLaws p
    → (name secret salt hash : Text) (u : Document.User) (w : World)
    → normalize_username p name ≡ some name
    → u.blocked ≡ false
    → IsBytes salt
    → 16 ≤ length salt
    → hash_password p (some salt) secret ≡ ok hash
    → verify_credentials p name secret (created name hash u w).store ≡ some u
unfolding verify_credentials
verify_credentials-created {p = p} laws name secret salt hash u w e unblocked bytes size f =
    let nonempty = hash_password-ne-nil p (some salt) secret hash f in
    let verifies = verify_password-hash_password laws salt secret hash secret bytes size f in
    rw e (ground (arith, get-put (users w) name name u, get-put (passwords w) name name hash))

module _ {p : Platform} (text : TextLaws p) (hash_laws : HashLaws p) (c : Encoder) (d : Decoder)
    (o : Writes) (w : World) where
  -- The administrator that a successful `BootstrapAdmin` has made is in the store that a restart loads,
  -- and in the file of its secret.
  pub load-bootstrap_admin :
      (raw : Option Text) (salt : Text) (now : ℕ) (username secret : Text)
      → IsFresh o w
      → IsApart o w
      → w.store.doc.schema ≡ schema_version
      → w.store.secrets.schema ≡ schema_version
      → IsBytes salt
      → 16 ≤ length salt
      → RoundTrips c d (bootstrap_admin p c o raw (some salt) now username w).1.store
      → (bootstrap_admin p c o raw (some salt) now username w).0 ≡ ok (secret, true)
      → (name : Text) × (read_file
            (bootstrap_admin p c o raw (some salt) now username w).1.files
            w.store.bootstrap_path
          ≡ content (bootstrap_text name secret))
        × (load d (paths w.store) (bootstrap_admin p c o raw (some salt) now username w).1.files
            ≡ ok (bootstrap_admin p c o raw (some salt) now username w).1.store)
        × ((ready (bootstrap_admin p c o raw (some salt) now username w).1.store).0 ≡ true)
        × (verify_credentials p name secret
              (bootstrap_admin p c o raw (some salt) now username w).1.store
            ≡ some (first_admin name now))
  unfolding ready verify_credentials read_file
  load-bootstrap_admin raw salt now username secret fresh apart schema schema' bytes size back h =
      let (name, hash, v, e, empty, hashed, persisted, written, after) =
        bootstrap_admin-eq-ok p c o raw (some salt) now username w secret h in
      let x : World = created name hash (first_admin name now) w in
      let q : persist_locked c o x ≡ (ok tt, v) = persisted in
      let fs =
        (atomic_write o.bootstrap_write v.store.bootstrap_path (bootstrap_text name secret)
          v.files).1 in
      let store_is : v.store ≡ (sync_revision x).store =
        sym (ap (λ (z : Result Document.Error Unit × World). z.1.store) q)
        ∙ store-persist_locked c o x in
      let fresh_x = IsFresh-for fresh x refl refl refl refl in
      let unchanged =
        get-persist_locked c o x fresh_x (ap (λ (z : Result Document.Error Unit × World). z.0) q)
          o.bootstrap_write.temp apart.from_secrets apart.from_state in
      let new_temp : Dict.get v.files o.bootstrap_write.temp ≡ none =
        sym (
          ap (λ (z : Result Document.Error Unit × World). Dict.get z.1.files o.bootstrap_write.temp)
            q)
        ∙ unchanged
        ∙ apart.new in
      let files =
        get-atomic_write_done o.bootstrap_write v.store.bootstrap_path (bootstrap_text name secret)
          v.files new_temp (rw store_is apart.from_bootstrap) written in
      let back_x : RoundTrips c d (sync_revision x).store = rw (after, store_is) at back in
      let loaded =
        load-persist_locked_ok c d o x fresh_x back_x schema schema'
          (ap (λ (z : Result Document.Error Unit × World). z.0) q) in
      let loaded_v : load d (paths w.store) v.files ≡ ok (sync_revision x).store =
        rw (q, store_is) at loaded in
      let same =
        load_same d (paths w.store) fs v.files
          (ground (arith, files w.store.state_path, fresh.bootstrap_apart, store_is))
          (ground (arith, files w.store.secret_path, fresh.bootstrap_apart, store_is)) in
      rw (after, store_is)
        (
          name,
          ground (arith, files w.store.bootstrap_path, store_is),
          rw store_is at (same ∙ loaded_v),
          ready-created name hash now w empty,
          verify_credentials-created hash_laws name secret salt hash (first_admin name now) w
              (normalize_username_idem text username name e) refl bytes size hashed,
        )

-- The administrator stands under its own name, in normal form.
pub IsKeyed-bootstrap_admin :
    {p : Platform}
    → TextLaws p
    → (c : Encoder) (o : Writes) (raw salt : Option Text) (now : ℕ) (username secret : Text)
      (w : World)
    → (bootstrap_admin p c o raw salt now username w).0 ≡ ok (secret, true)
    → IsKeyed p (users (bootstrap_admin p c o raw salt now username w).1)
IsKeyed-bootstrap_admin {p = p} text c o raw salt now username secret w h =
    let empty =
      nil-of-has_users (users w) (bootstrap_admin-eq-ok p c o raw salt now username w secret h).4 in
    bootstrap_admin-IsKeyed text c o raw salt now username w
      (subst (λ (d : Dict.Dict Document.User). IsKeyed p d) (sym empty) (nil-IsKeyed p))
