-- ===== src/State/Durability.antt =====
-- What `load` finds after `persistLocked`, however the writes end.
use srv_deployment.State.Admins.{store-persist_locked}
use srv_deployment.Prelude.{
  ◌≡◌, refl, ◌≢◌, ◌⊎◌, inl, inr, true, false, some, ◌++◌, arith, Text, ok, err,
}
use srv_deployment.Dict
use srv_deployment.Dict.{get, get-remove}
use srv_deployment.Files.{Files, read_file}
use srv_deployment.State.Document.{
  Document, SecretDocument, Store, World, persist_secrets, persist_state, encode_failed, Encoder,
  Writes, newline, schema_version, sync_revision, persist_locked,
}
use srv_deployment.State.Written.{
  IsFresh, first, second, first-done, first-get, first-get_done, second-done, second-get,
  persist_run, encoded, persisted,
}
use srv_deployment.State.Load.{
  Decoder, StateFile, SecretFile, Paths, new_state, new_secrets, load, revision_mismatch,
}

abbrev pub state_file : Document → StateFile
state_file d = record {
  schema = d.schema;
  revision = d.revision;
  desired = some d.desired;
  observed = some d.observed;
  users = some d.users;
}

abbrev pub secret_file : SecretDocument → SecretFile
secret_file d = record { schema = d.schema; revision = d.revision; passwords = some d.passwords }

-- The JSON of a store's documents is read back as it was written.
pub record RoundTrips (c : Encoder) (d : Decoder) (s : Store) : Type 0 where
  pub state_back :
      (b : Text)
      → c.encode_state s.doc ≡ some b
      → d.state_of (b ++ newline) new_state ≡ some (state_file s.doc)
  pub secrets_back :
      (b : Text)
      → c.encode_secrets s.secrets ≡ some b
      → d.secrets_of (b ++ newline) new_secrets ≡ some (secret_file s.secrets)

abbrev pub paths : Store → Paths
paths s = record {
  state_path = s.state_path;
  secret_path = s.secret_path;
  bootstrap_path = s.bootstrap_path;
}

-- Removing another file changes nothing that `load` reads.
pub load-remove :
    (d : Decoder) (s : Store) (path : Text) (fs : Files)
    → path ≢ s.state_path
    → path ≢ s.secret_path
    → load d (paths s) (Dict.remove fs path) ≡ load d (paths s) fs
unfolding load read_file
load-remove d s path fs h k =
    ground (arith, get-remove fs path s.state_path, get-remove fs path s.secret_path)

module _ (c : Encoder) (d : Decoder) (o : Writes) (w : World) (fresh : IsFresh o w) where
  -- After a call that returns nil, a restart loads the store as it is in memory.
  pub load-persist_locked_ok :
      RoundTrips c d (sync_revision w).store
      → w.store.doc.schema ≡ schema_version
      → w.store.secrets.schema ≡ schema_version
      → (persist_locked c o w).0 ≡ ok tt
      → load d (paths w.store) (persist_locked c o w).1.files ≡ ok (persist_locked c o w).1.store
  unfolding load read_file
  load-persist_locked_ok back schema schema' h =
      let (b, sb, p, q, files) = persisted c o w fresh h in
      ground (
        arith,
        files w.store.secret_path,
        files w.store.state_path,
        store-persist_locked c o w,
        back.state_back b p,
        back.secrets_back sb q,
        fresh.apart,
      )

  -- After a call whose first write fails, or that fails before it, a restart loads what it would have
  -- loaded before the call. (The temporary file, which may be left, is not one that it loads.)
  load-persist_locked_early :
      o.secret_write.temp ≢ w.store.state_path
      → ((persist_locked c o w).0 ≡ err encode_failed)
        ⊎ ((persist_locked c o w).0 ≡ err persist_secrets)
      → load d (paths w.store) (persist_locked c o w).1.files ≡ load d (paths w.store) w.files
  unfolding load read_file
  load-persist_locked_early apart h = elim (encoded c o w) [
    | inl failed ↦ rw failed refl
    | inr (b, sb, p, q) ↦ ground (
      arith,
      persist_run c o w fresh b sb p q,
      first-get c o w fresh b sb w.store.secret_path fresh.secret_temp-secret,
      first-get c o w fresh b sb w.store.state_path apart,
      first-done c o w fresh b sb,
    )
  ]

  -- After a `persistLocked` whose second write fails, a restart refuses the two files: their revisions
  -- differ, if the revision in memory is not that of the files before the call. (The schema of the
  -- secrets is the supported one, the files have different names and the temporary ones new names, and
  -- the JSON that is written is read back.)
  pub load-persist_locked_torn :
      (old : Store)
      → RoundTrips c d (sync_revision w).store
      → w.store.secrets.schema ≡ schema_version
      → load d (paths w.store) w.files ≡ ok old
      → old.doc.revision ≢ w.store.doc.revision
      → (persist_locked c o w).0 ≡ err persist_state
      → load d (paths w.store) (persist_locked c o w).1.files ≡ err revision_mismatch
  unfolding load read_file
  load-persist_locked_torn old back schema before differ h = elim (encoded c o w) [
    | inl failed ↦ absurd (cc)
    | inr (b, sb, p, q) ↦
        let run = persist_run c o w fresh b sb p q in
        let one : (first c o w fresh b sb).0 ≡ true = ground arith in
        let two : (second c o w fresh b sb).0 ≡ false = ground arith in
        let kept_state = first-get_done c o w fresh b sb one w.store.state_path in
        let kept_secrets = first-get_done c o w fresh b sb one w.store.secret_path in
        let state_is = second-get c o w fresh b sb one w.store.state_path fresh.state_temp-state in
        let secrets_are =
          second-get c o w fresh b sb one w.store.secret_path fresh.state_temp-secret in
        ground (
          arith,
          run,
          kept_state,
          kept_secrets,
          state_is,
          secrets_are,
          second-done c o w fresh b sb one,
          back.secrets_back sb q,
          fresh.apart,
        )
  ]
