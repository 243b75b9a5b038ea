-- ===== src/State/Restart.antt =====
-- A method that returns nil is durable: a restart loads the store that it left in memory.
use srv_deployment.Prelude.{ℕ, ◌≡◌, refl, ap, ◌∙◌, Bool, Option, Text, ok}
use srv_deployment.Platform.{Platform}
use srv_deployment.State.Admins.{store-persist_locked}
use srv_deployment.State.Calls.{Call, creates, blocks, changes, run, drop_value-eq-ok}
use srv_deployment.State.Document.{User, World, schema_version, Encoder, Writes, persist_locked}
use srv_deployment.State.Durability.{RoundTrips, paths, load-persist_locked_ok, load-remove}
use srv_deployment.State.Written.{IsFresh, IsFresh-for}
use srv_deployment.State.Inversion.{
  created, changed, updated, after_change, create_user-eq-ok, set_blocked-eq-ok,
  change_password-eq-ok,
}
use srv_deployment.State.Load.{Decoder, load}
use srv_deployment.State.Store.{create_user, set_blocked, change_password}

module _ (p : Platform) (c : Encoder) (d : Decoder) (o : Writes) (w : World) (fresh : IsFresh o w)
    (schema : w.store.doc.schema ≡ schema_version)
    (schema' : w.store.secrets.schema ≡ schema_version) where
  load-create_user :
      (salt : Option Text) (now : ℕ) (username pass role : Text) (u : User)
      → RoundTrips c d (create_user p c o salt now username pass role w).1.store
      → (create_user p c o salt now username pass role w).0 ≡ ok u
      → load d (paths w.store) (create_user p c o salt now username pass role w).1.files
        ≡ ok (create_user p c o salt now username pass role w).1.store
  load-create_user salt now username pass role u back h =
      let (name, hash, e, f, new, made, done, after) =
        create_user-eq-ok p c o salt now username pass role w u h in
      let v = created name hash u w in
      let back' = rw (after, store-persist_locked c o v) at back in
      rw after (
        load-persist_locked_ok c d o v (IsFresh-for fresh v refl refl refl refl) back' schema
          schema' done)

  load-set_blocked :
      (username : Text) (blocked : Bool) (u : User)
      → RoundTrips c d (set_blocked p c o username blocked w).1.store
      → (set_blocked p c o username blocked w).0 ≡ ok u
      → load d (paths w.store) (set_blocked p c o username blocked w).1.files
        ≡ ok (set_blocked p c o username blocked w).1.store
  load-set_blocked username blocked u back h =
      let (name, old, e, found, made, done, after) =
        set_blocked-eq-ok p c o username blocked w u h in
      let v = updated name u w in
      let back' = rw (after, store-persist_locked c o v) at back in
      rw after (
        load-persist_locked_ok c d o v (IsFresh-for fresh v refl refl refl refl) back' schema
          schema' done)

  load-change_password :
      (salt : Option Text) (now : ℕ) (username old new : Text)
      → RoundTrips c d (change_password p c o salt now username old new w).1.store
      → (change_password p c o salt now username old new w).0 ≡ ok tt
      → load d (paths w.store) (change_password p c o salt now username old new w).1.files
        ≡ ok (change_password p c o salt now username old new w).1.store
  load-change_password salt now username old new back h =
      let (name, hash, u, e, f, found, unblocked, matched, done, after) =
        change_password-eq-ok p c o salt now username old new w h in
      let v = changed name hash (after_change u now) w in
      let back' = rw (after, store-persist_locked c o v) at back in
      let saved =
        load-persist_locked_ok c d o v (IsFresh-for fresh v refl refl refl refl) back' schema
          schema' done in
      let same = store-persist_locked c o v in
      rw (after, same)
        (load-remove d w.store w.store.bootstrap_path (persist_locked c o v).1.files
            fresh.bootstrap_apart.0 fresh.bootstrap_apart.1
          ∙ saved
          ∙ ap ok same)

  -- A call of `CreateUser`, `SetBlocked` or `ChangePassword` that returns no error is durable: a restart
  -- loads exactly the store that the call left in memory. (The two schemas are the supported one, the files have different names and the temporary
  -- ones new names, and the JSON that is written is read back.)
  pub load-run :
      (call : Call)
      → RoundTrips c d (run p c o call w).1.store
      → (run p c o call w).0 ≡ ok tt
      → load d (paths w.store) (run p c o call w).1.files ≡ ok (run p c o call w).1.store
  unfolding run
  load-run (creates salt now username pass role) back h =
      let (u, made) = drop_value-eq-ok (create_user p c o salt now username pass role w).0 h in
      load-create_user salt now username pass role u back made
  load-run (blocks username blocked) back h =
      let (u, made) = drop_value-eq-ok (set_blocked p c o username blocked w).0 h in
      load-set_blocked username blocked u back made
  load-run (changes salt now username old new) back h =
      load-change_password salt now username old new back h
