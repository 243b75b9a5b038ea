-- ===== src/ControlCenter/Bootstrap.antt =====
-- From `bootstrap-admin` to the first start of the server.
use srv_deployment.Prelude.{
  ◌≤◌, ◌≡◌, sym, inl, inr, Bool, true, Option, some, List, arith, Text, codes, Bool-cases, length,
  ok, Result-cases,
}
use srv_deployment.Audit.{open_audit}
use srv_deployment.ControlCenter.{
  Program, Occasion, serving, succeed, line, state_dir, log_dir, created_message, bootstrap, start,
}
use srv_deployment.Files.{Files, content, read_file}
use srv_deployment.HttpServer.Guards.{or_text}
use srv_deployment.HttpServer.Server.{Server, new_server}
use srv_deployment.Operations
use srv_deployment.Platform.{TextLaws, HashLaws}
use srv_deployment.State.Document
use srv_deployment.State.Document.{
  World, Encoder, Writes, persist_locked, sync_revision, role_admin, schema_version,
}
use srv_deployment.State.Durability.{RoundTrips}
use srv_deployment.State.Written.{IsFresh}
use srv_deployment.State.FirstAdmin.{
  IsApart, load-schema, load-bootstrap_admin, IsKeyed-bootstrap_admin,
}
use srv_deployment.State.Keyed.{IsKeyed}
use srv_deployment.State.Inversion.{first_admin, bootstrap_text}
use srv_deployment.State.Load.{load, open_store, paths_in}
use srv_deployment.State.Store.{bootstrap_admin, ready, verify_credentials}
use srv_deployment.Strings.Base64.{IsBytes}

-- What `BootstrapAdmin` leaves, called on the store that was opened.
abbrev pub bootstrapped_world :
    Program → Occasion → (username : Text) → Files → Document.Store → World
bootstrapped_world g o username fs store =
    (bootstrap_admin g.platform g.encoder o.writes o.raw o.salt o.now username
      (record { store = store; files = fs })).1

module _ (g : Program) where
  -- What `bootstrap-admin` prints says whether it has made the administrator.
  bootstrap-created :
      (o : Occasion) (args : List Text) (username : Option Text) (fs fs' : Files)
      (store : Document.Store)
      → g.flags.username args ≡ ok username
      → open_store g.platform g.decoder o.state_made (state_dir g) fs ≡ ok store
      → bootstrap g o args fs ≡ (succeed (line (created_message g)), fs')
      → (secret : Text) × ((bootstrap_admin g.platform g.encoder o.writes o.raw o.salt o.now
            (or_text username (codes "admin"))
            (record { store = store; files = fs })).0
          ≡ ok (secret, true))
        × ((bootstrap_admin g.platform g.encoder o.writes o.raw o.salt o.now
              (or_text username (codes "admin"))
              (record { store = store; files = fs })).1.files
            ≡ fs')
  unfolding bootstrap
  bootstrap-created o args username fs fs' store parsed opened h =
      let x =
        bootstrap_admin g.platform g.encoder o.writes o.raw o.salt o.now
          (or_text username (codes "admin")) (record { store = store; files = fs }) in
      elim (Result-cases x.0) [
        | inl (failed, e) ↦ absurd (ground (arith, parsed, opened, e, h))
        | inr ((secret, made), e) ↦ elim (Bool-cases made) [
          | inl f ↦ (secret, ground (arith, e, f), ground (arith, parsed, opened, e, f, h))
          | inr f ↦ absurd (ground (arith, parsed, opened, e, f, h))
        ]
      ]

  start-serving :
      (o : Occasion) (fs : Files) (s : Document.Store) (ops : Operations.Store) (path : Text)
      → open_store g.platform g.decoder o.state_made (state_dir g) fs ≡ ok s
      → (Operations.open_store g.platform g.codec o.operations_write o.operations_made o.now
          (state_dir g)
          fs).0
        ≡ ok ops
      → (open_audit g.platform o.opening
          (log_dir g)
          (Operations.open_store g.platform g.codec o.operations_write o.operations_made o.now
            (state_dir g)
            fs).1).0
        ≡ ok path
      → (end : Files) × ((start g o fs).0 ≡ serving (new_server o.now s ops path end))
  unfolding start
  start-serving o fs s ops path h k l =
      let opened =
        Operations.open_store g.platform g.codec o.operations_write o.operations_made o.now
          (state_dir g) fs in
      ((open_audit g.platform o.opening (log_dir g) opened.1).1, ground (arith, h, k, l))

  open_store-load :
      (made : Bool) (fs : Files) (s : Document.Store)
      → open_store g.platform g.decoder made (state_dir g) fs ≡ ok s
      → load g.decoder (paths_in g.platform (state_dir g)) fs ≡ ok s
  unfolding open_store
  open_store-load made fs s h = ground arith

  open_store-again :
      (made : Bool) (fs fs' : Files) (s s' : Document.Store)
      → open_store g.platform g.decoder made (state_dir g) fs ≡ ok s
      → load g.decoder (paths_in g.platform (state_dir g)) fs' ≡ ok s'
      → open_store g.platform g.decoder true (state_dir g) fs' ≡ ok s'
  unfolding open_store
  open_store-again made fs fs' s s' h k = ground arith

-- A first start: after `bootstrap-admin` has said that it created the administrator, the file that it
-- names holds a user name and a password, and a start of the server, where the directory, the
-- operations and the audit log can be opened, serves; the server is ready, each user stands under its own name, in normal form, and the store accepts the two
-- for an active administrator who must change the password. (The files have different names and the
-- temporary ones new names, the JSON that is written is read back, the salt is of sixteen bytes or
-- more, text and HMAC are as documented.)
pub start-bootstrap :
    (g : Program) (o o' : Occasion) (args : List Text) (username : Option Text) (salt : Text)
    (fs fs' : Files) (store : Document.Store) (ops : Operations.Store) (path : Text)
    → TextLaws g.platform
    → HashLaws g.platform
    → g.flags.username args ≡ ok username
    → open_store g.platform g.decoder o.state_made (state_dir g) fs ≡ ok store
    → IsFresh o.writes (record { store = store; files = fs })
    → IsApart o.writes (record { store = store; files = fs })
    → o.salt ≡ some salt
    → IsBytes salt
    → 16 ≤ length salt
    → RoundTrips g.encoder g.decoder
        (bootstrapped_world g o (or_text username (codes "admin")) fs store).store
    → bootstrap g o args fs ≡ (succeed (line (created_message g)), fs')
    → o'.state_made ≡ true
    → (Operations.open_store g.platform g.codec o'.operations_write o'.operations_made o'.now
        (state_dir g)
        fs').0
      ≡ ok ops
    → (open_audit g.platform o'.opening
        (log_dir g)
        (Operations.open_store g.platform g.codec o'.operations_write o'.operations_made o'.now
          (state_dir g)
          fs').1).0
      ≡ ok path
    → (name : Text) × (secret : Text) × (s : Server) × (read_file fs' store.bootstrap_path
        ≡ content (bootstrap_text name secret))
      × ((start g o' fs').0 ≡ serving s)
      × ((ready s.store).0 ≡ true)
      × IsKeyed g.platform s.store.doc.users
      × (verify_credentials g.platform name secret s.store ≡ some (first_admin name o.now))
unfolding new_server
start-bootstrap g o o' args username salt fs fs' store ops path text hashes parsed opened fresh
      apart salted bytes size back h made ops_opened audit_opened =
    let (secret, created_, left) =
      bootstrap-created g o args username fs fs' store parsed opened h in
    let (schema, schema', at) =
      load-schema g.decoder (paths_in g.platform (state_dir g)) fs store
        (open_store-load g o.state_made fs store opened) in
    let w : World = record { store = store; files = fs } in
    let x =
      bootstrap_admin g.platform g.encoder o.writes o.raw (some salt) o.now
        (or_text username (codes "admin")) w in
    let made_admin : x.0 ≡ ok (secret, true) = rw salted at created_ in
    let left_files : x.1.files ≡ fs' = rw salted at left in
    let (name, file_, loaded, is_ready, verifies) =
      load-bootstrap_admin text hashes g.encoder g.decoder o.writes w o.raw salt o.now
        (or_text username (codes "admin")) secret fresh apart schema schema' bytes size
        (rw salted at back) made_admin in
    let again =
      open_store-again g o.state_made fs fs' store x.1.store opened
        (rw (left_files, at) at loaded) in
    let (end, serves) =
      start-serving g o' fs' x.1.store ops path (rw made again) ops_opened audit_opened in
    (
      name,
      secret,
      new_server o'.now x.1.store ops path end,
      rw (sym left_files) file_,
      serves,
      is_ready,
      IsKeyed-bootstrap_admin text g.encoder o.writes o.raw (some salt) o.now
          (or_text username (codes "admin")) secret w made_admin,
      verifies,
    )
