-- ===== src/Tests/States.antt =====
-- internal/state
use srv_deployment.Prelude.{
  ◌≡◌, refl, true, false, none, some, [], arith, ◌==◌, Text, Text_discrete, codes, ℕ_discrete, ok,
  err, text_eq, nat_eq, int_eq,
}
use srv_deployment.Dict
use srv_deployment.Dict.{get, put, remove}
use srv_deployment.Files.{read_file, atomic_write}
use srv_deployment.Platform.{ascii, ascii-HashLaws, trim_left, trim_right}
use srv_deployment.Strings.Base64.{IsBytes}
use srv_deployment.Strings.{all_chars}
use srv_deployment.State.Accounts.{
  verify_credentials-create_user, verify_credentials-set_blocked,
  verify_credentials-change_password, is_unsaved, get_user-create_user_unsaved,
}
use srv_deployment.State.Calls.{Call, creates, blocks as blocks_call, run, refused_unchanged}
use srv_deployment.State.Admins.{Reach, here, next, blocks, ready-Reach}
use mathlib.Core.List.{Perm}
use srv_deployment.State.Durability.{RoundTrips, paths, load-persist_locked_torn}
use srv_deployment.State.Written.{IsFresh}
use srv_deployment.State.Restart.{load-run}
use srv_deployment.State.Load.{
  load, document_of, secret_document_of, new_state, new_secrets, revision_mismatch,
}
use srv_deployment.State.Listing.{list_users, list_users_lem, values, Ascends}
use srv_deployment.State.Document.{
  User, Store, World, user_not_found, persist_state, sync_revision, last_active_admin, role_viewer,
  write, persist_locked,
}
use srv_deployment.State.Password.{hash_password, verify_password, validate_password}
use srv_deployment.State.Password.Verification.{key_of, verify_password-hash_password}
use srv_deployment.State.Store.{
  users, passwords, hash_of, new_user, create_user, set_blocked, change_password, active_admins,
  has_active_admin, ready, verify_credentials, get_user,
}
use srv_deployment.State.Username.{normalize_username, is_username}
use srv_deployment.Tests.Fixtures.{
  good_writes, torn_writes, encoder, decoder, world, store, salt, long_password, viewer_user,
}

abbrev blocked_root : World
blocked_root = (set_blocked ascii encoder good_writes (codes "root") true world).1

blocking : Reach ascii encoder world blocked_root
blocking = next here (blocks good_writes (codes "root") true world)

store_ready : (ready store).0 ≡ true
unfolding ready has_active_admin Text_discrete ℕ_discrete
store_ready = refl

ready-Reach_example : (ready blocked_root.store).0 ≡ true
ready-Reach_example = ready-Reach blocking store_ready

-- Everything that a run of a method computes with, but for the derivation of the key.
methods : Unit {0}
unfolding create_user set_blocked change_password hash_password validate_password normalize_username
    is_username all_chars trim_left trim_right get put remove persist_locked write atomic_write
    active_admins Text_discrete ℕ_discrete
methods = tt

pub salt-IsBytes : IsBytes salt
salt-IsBytes = omega arith

abbrev pub carol : User
carol = new_user (codes "carol") role_viewer 9

abbrev pub with_carol : World
with_carol =
    (create_user ascii encoder good_writes (some salt) 9 (codes "Carol") long_password role_viewer
      world).1

pub create_run :
    (create_user ascii encoder good_writes
      (some salt)
      9
      (codes "Carol")
      long_password
      role_viewer
      world).0
    ≡ ok carol
unfolding methods
create_run = refl

verify_credentials-create_user_example :
    verify_credentials ascii (codes "Carol") long_password with_carol.store ≡ some carol
verify_credentials-create_user_example =
    verify_credentials-create_user ascii-HashLaws encoder good_writes salt 9 (codes "Carol")
      long_password role_viewer world carol salt-IsBytes (omega arith) create_run

-- The administrator is demoted to nobody: a blocked user cannot log in.
abbrev blocked_viewer : User
blocked_viewer = record viewer_user { blocked = true }

block_run :
    (set_blocked ascii encoder good_writes (codes "viewer") true world).0 ≡ ok blocked_viewer
unfolding methods
block_run = refl

abbrev without_viewer : World
without_viewer = (set_blocked ascii encoder good_writes (codes "viewer") true world).1

verify_credentials-set_blocked_example :
    (blocked_viewer.blocked ≡ true)
    × (get_user ascii (codes "viewer") without_viewer.store ≡ some blocked_viewer)
    × ((pass : Text) → verify_credentials ascii (codes "viewer") pass without_viewer.store ≡ none)
verify_credentials-set_blocked_example =
    verify_credentials-set_blocked ascii encoder good_writes (codes "viewer") world blocked_viewer
      block_run

-- The last active administrator cannot be blocked.
block_last :
    (set_blocked ascii encoder good_writes (codes "second") true blocked_root).0
    ≡ err last_active_admin
unfolding methods
block_last = refl

abbrev carol_hash : Text
carol_hash = hash_of (Dict.get (passwords with_carol) (codes "carol"))

hash_run : hash_password ascii (some salt) long_password ≡ ok carol_hash
unfolding methods
hash_run = refl

verify_run : verify_password ascii long_password carol_hash ≡ true
verify_run = ground (
  arith,
  verify_password-hash_password ascii-HashLaws salt long_password carol_hash long_password
      salt-IsBytes (omega arith) hash_run,
)

verify_password-hash_password_example :
    verify_password ascii (codes "another guess") carol_hash
    ≡ (key_of ascii (codes "another guess") salt == key_of ascii long_password salt)
verify_password-hash_password_example =
    verify_password-hash_password ascii-HashLaws salt long_password carol_hash
      (codes "another guess") salt-IsBytes (omega arith) hash_run

change_run :
    (change_password ascii encoder good_writes
      (some salt)
      11
      (codes "carol")
      long_password
      (codes "battery staple")
      with_carol).0
    ≡ ok tt
unfolding methods
change_run = rw verify_run refl

verify_credentials-change_password_example :
    (name : Text) × (u : User) × (normalize_username ascii (codes "carol") ≡ some name)
    × (Dict.get (users with_carol) name ≡ some u)
    × (u.blocked ≡ false)
    × (verify_password ascii long_password (hash_of (Dict.get (passwords with_carol) name)) ≡ true)
    × (verify_credentials ascii
          (codes "carol")
          (codes "battery staple")
          (change_password ascii encoder good_writes
            (some salt)
            11
            (codes "carol")
            long_password
            (codes "battery staple")
            with_carol).1.store
        ≡ some (record u { must_change_password = false; password_changed_at = 11 }))
verify_credentials-change_password_example =
    verify_credentials-change_password ascii-HashLaws encoder good_writes salt 11 (codes "carol")
      long_password (codes "battery staple") with_carol salt-IsBytes (omega arith) change_run

carol_normal : normalize_username ascii (codes "Carol") ≡ some (codes "carol")
unfolding methods
carol_normal = refl

unsaved_run :
    is_unsaved
      (create_user ascii encoder torn_writes
        (some salt)
        9
        (codes "Carol")
        long_password
        role_viewer
        world).0
    ≡ true
unfolding methods
unsaved_run = refl

get_user-create_user_unsaved_example :
    get_user ascii
      (codes "Carol")
      (create_user ascii encoder torn_writes
        (some salt)
        9
        (codes "Carol")
        long_password
        role_viewer
        world).1.store
    ≡ some carol
get_user-create_user_unsaved_example =
    get_user-create_user_unsaved ascii encoder torn_writes (some salt) 9 (codes "Carol")
      long_password role_viewer (codes "carol") world carol_normal unsaved_run

abbrev no_such_user : Call
no_such_user = blocks_call (codes "nobody") true

refused_run : (run ascii encoder good_writes no_such_user world).0 ≡ err user_not_found
unfolding methods run
refused_run = refl

refused_unchanged_example : (run ascii encoder good_writes no_such_user world).1 ≡ world
refused_unchanged_example =
    refused_unchanged ascii encoder good_writes no_such_user world user_not_found refused_run refl

list_users_example : Perm (list_users store) (values store.doc.users) × Ascends (list_users store)
list_users_example = list_users_lem store

fresh : IsFresh good_writes world
unfolding get
fresh = record {
  apart = λ e. cc;
  secret_new = refl;
  state_new = refl;
  secret_temp-secret = λ e. cc;
  state_temp-secret = λ e. cc;
  bootstrap_apart = (λ e. cc, λ e. cc);
  state_temp-state = λ e. cc;
}

torn-IsFresh : IsFresh torn_writes world
torn-IsFresh = record {
  apart = fresh.apart;
  secret_new = fresh.secret_new;
  state_new = fresh.state_new;
  secret_temp-secret = fresh.secret_temp-secret;
  state_temp-secret = fresh.state_temp-secret;
  bootstrap_apart = fresh.bootstrap_apart;
  state_temp-state = fresh.state_temp-state;
}

reads_back : (s : Store) → RoundTrips encoder (decoder s) s
reads_back s = record { state_back = λ b e. refl; secrets_back = λ b e. refl }

abbrev creating : Call
creating = creates (some salt) 9 (codes "Carol") long_password role_viewer

abbrev saved : World
saved = (run ascii encoder good_writes creating world).1

creating-run : (run ascii encoder good_writes creating world).0 ≡ ok tt
unfolding methods run
creating-run = refl

load-run_example : load (decoder saved.store) (paths store) saved.files ≡ ok saved.store
load-run_example =
    load-run ascii encoder (decoder saved.store) good_writes world fresh refl refl creating
      (reads_back saved.store) creating-run

abbrev torn : World
torn = (persist_locked encoder torn_writes world).1

abbrev first_store : Store
first_store = record store { doc = document_of new_state; secrets = secret_document_of new_secrets }

torn_run : (persist_locked encoder torn_writes world).0 ≡ err persist_state
unfolding persist_locked write atomic_write get put remove Text_discrete ℕ_discrete
torn_run = refl

first_load : load (decoder (sync_revision world).store) (paths store) [] ≡ ok first_store
unfolding load read_file get
first_load = refl

load-persist_locked_torn_example :
    load (decoder (sync_revision world).store) (paths store) torn.files ≡ err revision_mismatch
load-persist_locked_torn_example =
    load-persist_locked_torn encoder (decoder (sync_revision world).store) torn_writes world
      torn-IsFresh first_store (reads_back (sync_revision world).store) refl first_load
      (omega arith) torn_run
