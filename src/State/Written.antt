-- ===== src/State/Written.antt =====
-- The two writes of `persistLocked` (internal/state/store.go).
use srv_deployment.Prelude.{
  ◌≡◌, ◌≢◌, ◌⊎◌, inl, inr, Bool, true, ◌&&◌, none, some, ◌++◌, arith, ◌==◌, Text, Option-cases,
  if◌then◌else◌, ok, err, text_eq, nat_eq, int_eq,
}
use srv_deployment.Dict.{get}
use srv_deployment.Files.{Files, file, all_well, atomic_write}
use srv_deployment.Files.Atomic.{atomic_write_lem, get-atomic_write_done}
use srv_deployment.State.Document.{
  World, persist_secrets, persist_state, encode_failed, Encoder, Writes, newline, sync_revision,
  write, persist_locked,
}

-- The two files have different names, and so have the temporary ones, which are new.
pub record IsFresh (o : Writes) (w : World) : Type 0 where
  pub apart : w.store.secret_path ≢ w.store.state_path
  pub secret_new : get w.files o.secret_write.temp ≡ none
  pub state_new : get w.files o.state_write.temp ≡ none
  pub secret_temp-secret : o.secret_write.temp ≢ w.store.secret_path
  pub state_temp-secret : o.state_write.temp ≢ w.store.secret_path
  pub bootstrap_apart :
      (w.store.bootstrap_path ≢ w.store.state_path) × (w.store.bootstrap_path ≢ w.store.secret_path)
  pub state_temp-state : o.state_write.temp ≢ w.store.state_path

pub IsFresh-for :
    {o : Writes} {w : World}
    → IsFresh o w
    → (v : World) → v.store.bootstrap_path ≡ w.store.bootstrap_path
    → v.store.secret_path ≡ w.store.secret_path
    → v.store.state_path ≡ w.store.state_path
    → v.files ≡ w.files
    → IsFresh o v
IsFresh-for fresh v b e e' f = record {
  apart = rw (e, e') fresh.apart;
  secret_new = rw f fresh.secret_new;
  state_new = rw f fresh.state_new;
  secret_temp-secret = rw e fresh.secret_temp-secret;
  state_temp-secret = rw e fresh.state_temp-secret;
  bootstrap_apart = rw (b, e, e') fresh.bootstrap_apart;
  state_temp-state = rw e' fresh.state_temp-state;
}

module _ (c : Encoder) (o : Writes) (w : World) (fresh : IsFresh o w) where
  -- What the two writes do, from the law of `atomic_write`.
  module _ (b sb : Text) where
    pub first : Bool × Files
    first = atomic_write o.secret_write w.store.secret_path (sb ++ newline) w.files

    pub second : Bool × Files
    second = atomic_write o.state_write w.store.state_path (b ++ newline) first.1

    pub first-done : first.0 ≡ all_well o.secret_write
    unfolding first
    first-done =
        (atomic_write_lem o.secret_write w.store.secret_path (sb ++ newline) w.files
          fresh.secret_new fresh.secret_temp-secret).0

    -- What stands at a path after the first write, which may leave its temporary file when it fails.
    pub first-get :
        (j : Text)
        → o.secret_write.temp ≢ j
        → get first.1 j ≡ (
            if all_well o.secret_write && w.store.secret_path == j
            then some (file (sb ++ newline))
            else get w.files j)
    unfolding first
    first-get =
        (atomic_write_lem o.secret_write w.store.secret_path (sb ++ newline) w.files
          fresh.secret_new fresh.secret_temp-secret).1

    pub first-get_done :
        first.0 ≡ true
        → (j : Text)
        → get first.1 j
          ≡ (if w.store.secret_path == j then some (file (sb ++ newline)) else get w.files j)
    unfolding first
    first-get_done =
        get-atomic_write_done o.secret_write w.store.secret_path (sb ++ newline) w.files
          fresh.secret_new fresh.secret_temp-secret

    -- The second write comes only after a first one that has succeeded.
    module _ (first_done : first.0 ≡ true) where
      temp_new : get first.1 o.state_write.temp ≡ none
      temp_new = ground (
        arith,
        first-get_done first_done o.state_write.temp,
        fresh.state_temp-secret,
        fresh.state_new,
      )

      pub second-done : second.0 ≡ all_well o.state_write
      unfolding second
      second-done =
          (atomic_write_lem o.state_write w.store.state_path (b ++ newline) first.1 temp_new
            fresh.state_temp-state).0

      pub second-get :
          (j : Text)
          → o.state_write.temp ≢ j
          → get second.1 j ≡ (
              if all_well o.state_write && w.store.state_path == j
              then some (file (b ++ newline))
              else get first.1 j)
      unfolding second
      second-get =
          (atomic_write_lem o.state_write w.store.state_path (b ++ newline) first.1 temp_new
            fresh.state_temp-state).1

      second-get_done :
          second.0 ≡ true
          → (j : Text)
          → get second.1 j
            ≡ (if w.store.state_path == j then some (file (b ++ newline)) else get first.1 j)
      unfolding second
      second-get_done =
          get-atomic_write_done o.state_write w.store.state_path (b ++ newline) first.1 temp_new
            fresh.state_temp-state

    pub persist_run :
        c.encode_state w.store.doc ≡ some b
        → c.encode_secrets (sync_revision w).store.secrets ≡ some sb
        → persist_locked c o w ≡ (
            if first.0
            then (
              (if second.0 then ok tt else err persist_state),
              record (sync_revision w) { files = second.1 },
            )
            else (err persist_secrets, record (sync_revision w) { files = first.1 }))
    unfolding persist_locked write first second
    persist_run p q = ground arith

pub encoded :
    (c : Encoder) (o : Writes) (w : World)
    → (persist_locked c o w ≡ (err encode_failed, sync_revision w))
      ⊎ ((b : Text) × (sb : Text) × (c.encode_state w.store.doc ≡ some b)
          × (c.encode_secrets (sync_revision w).store.secrets ≡ some sb))
unfolding persist_locked
encoded c o w = elim (Option-cases (c.encode_state w.store.doc)) [
  | inl p ↦ inl (ground arith)
  | inr (b, p) ↦ elim (Option-cases (c.encode_secrets (sync_revision w).store.secrets)) [
    | inl q ↦ inl (ground arith)
    | inr (sb, q) ↦ inr (b, sb, p, q)
  ]
]

-- The two writes of a call that has returned nil.
module _ (c : Encoder) (o : Writes) (w : World) (fresh : IsFresh o w)
    (success : (persist_locked c o w).0 ≡ ok tt) where
  pub persisted :
      (b : Text) × (sb : Text) × (c.encode_state w.store.doc ≡ some b)
      × (c.encode_secrets (sync_revision w).store.secrets ≡ some sb)
      × ((j : Text)
          → get (persist_locked c o w).1.files j ≡ (
              if w.store.state_path == j
              then some (file (b ++ newline))
              else if w.store.secret_path == j
              then some (file (sb ++ newline))
              else get w.files j))
  persisted = elim (encoded c o w) [
    | inl failed ↦ absurd (cc)
    | inr (b, sb, p, q) ↦
        let both = persist_run c o w fresh b sb p q in
        let one : (first c o w fresh b sb).0 ≡ true = ground arith in
        let two : (second c o w fresh b sb).0 ≡ true = ground arith in
        (
          b,
          sb,
          p,
          q,
          λ j. ground (
            arith,
            both,
            first-get_done c o w fresh b sb one j,
            second-get_done c o w fresh b sb one two j,
          ),
        )
  ]

  -- No file but the two changes.
  pub get-persist_locked :
      (j : Text)
      → w.store.secret_path ≢ j
      → w.store.state_path ≢ j
      → get (persist_locked c o w).1.files j ≡ get w.files j
  get-persist_locked j h k = let (b, sb, p, q, files) = persisted in ground (arith, files j)
