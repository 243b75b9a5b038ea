-- ===== src/State/Document.antt =====
-- The documents of `Store` (internal/state/store.go) and `persistLocked`, which writes them.
use srv_deployment.Prelude.{
  ℕ, ◌+◌, ◌%◌, ◌^◌, Bool, Option, [], ◌∷◌, ◌++◌, Text, codes, if◌then◌else◌, ℤ, pos, ok, err,
  or_fail,
}
use srv_deployment.Dict.{Dict}
use srv_deployment.Exec.{Exec, ◌>>=◌, ◌>>◌, lift, gets, modify}
use srv_deployment.Files.{Files, Outcome, atomic_write}
use srv_deployment.State.Password

abbrev pub schema_version : ℤ
schema_version = pos 1

-- `type Role string`
abbrev pub Role : Type 0
Role = Text

abbrev pub role_admin : Role
role_admin = codes "admin"

abbrev pub role_viewer : Role
role_viewer = codes "viewer"

pub record User : Type 0 where
  pub username : Text
  pub role : Role
  pub blocked : Bool
  pub must_change_password : Bool
  pub created_at : ℕ
  pub password_changed_at : ℕ

-- A value of `map[string]any` is kept as its JSON text.
pub record Document : Type 0 where
  pub schema : ℤ
  pub revision : ℕ
  pub desired : Dict Text
  pub observed : Dict Text
  pub users : Dict User

pub record SecretDocument : Type 0 where
  pub schema : ℤ
  pub revision : ℕ
  pub passwords : Dict Text

pub record Store : Type 0 where
  pub state_path : Text
  pub secret_path : Text
  pub bootstrap_path : Text
  pub doc : Document
  pub secrets : SecretDocument

pub record World : Type 0 where
  pub store : Store
  pub files : Files

pub data Error : Type 0 where
  username_invalid role_invalid user_exists random_failed user_not_found last_active_admin
        current_password_invalid encode_failed persist_secrets persist_state persist_bootstrap :
      Error
  password : Password.Error → Error

-- `json.MarshalIndent` of the two documents; `none` for an error.
pub record Encoder : Type 0 where
  pub encode_state : Document → Option Text
  pub encode_secrets : SecretDocument → Option Text

-- How the writes of one method end.
pub record Writes : Type 0 where
  pub secret_write : Outcome
  pub state_write : Outcome
  pub bootstrap_write : Outcome

abbrev pub newline : Text
newline = 10 ∷ []

-- `revision++` on a uint64
abbrev pub next_revision : ℕ → ℕ
next_revision r = (r + 1) % 2 ^ 64

abbrev pub sync_revision : World → World
sync_revision w = record w {
  store = record (w.store) {
    secrets = record (w.store.secrets) { revision = w.store.doc.revision };
  };
}

-- `atomicWrite`, with the error that its caller makes of a failure
unfoldable pub write : Outcome → Text → Text → Error → Exec Error World Unit
write o path bytes e w =
    let (done, fs) = atomic_write o path bytes w.files in
    (if done then ok tt else err e, record w { files = fs })

unfoldable pub persist_locked : Encoder → Writes → Exec Error World Unit
unfolding write
persist_locked c o = do
  modify sync_revision
  store ← gets (λ w. w.store)
  state_bytes ← lift (or_fail (c.encode_state store.doc) encode_failed)
  secret_bytes ← lift (or_fail (c.encode_secrets store.secrets) encode_failed)
  write o.secret_write store.secret_path (secret_bytes ++ newline) persist_secrets
  write o.state_write store.state_path (state_bytes ++ newline) persist_state
