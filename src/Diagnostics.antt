-- ===== src/Diagnostics.antt =====
-- internal/diagnostics/bundle.go: the bundle of files that `Build` makes.
use srv_deployment.Prelude.{
  ℕ, ◌≡◌, refl, Bool, Option, List, [], ◌∷◌, ◌++◌, map, Text, codes, ℤ, pos, Result, ok, err,
  or_fail, ◌>>=◌,
}
use srv_deployment.Audit.{AuditEvent, Json, recent}
use srv_deployment.Audit
use srv_deployment.Files.{Files, read_file}
use srv_deployment.Operations
use srv_deployment.Operations.{Record, list_records}
use srv_deployment.Process.{BuildInfo, Process}
use srv_deployment.State.Document.{User, Role, Store, schema_version}
use srv_deployment.State.Listing.{list_users}

pub record PublicUser : Type 0 where
  pub username : Text
  pub role : Role
  pub blocked : Bool
  pub must_change_password : Bool
  pub created_at : ℕ
  pub password_changed_at : ℕ

abbrev public_user : User → PublicUser
public_user u = record {
  username = u.username;
  role = u.role;
  blocked = u.blocked;
  must_change_password = u.must_change_password;
  created_at = u.created_at;
  password_changed_at = u.password_changed_at;
}

-- The files of a bundle. The manifest's other values are constants; the uptime is the time from
-- `started_at` to `now`.
pub data Content : Type 0 where
  manifest : (generated_at : ℕ) (operation_id : Text) → Content
  version : BuildInfo → (state_schema : ℤ) → Content
  runtime : Process → (started_at now : ℕ) → Content
  users : List PublicUser → Content
  audit : List AuditEvent → Content
  operations : List Record → Content

pub data Error : Type 0 where
  read_audit marshal_failed write_failed close_failed : Error

-- `json.MarshalIndent`, and `tar.Writer` over `gzip.Writer`, as the bytes that a buffer has after a
-- header and its content are written and after both are closed; `none` for an error.
pub record Archive : Type 0 where
  pub marshal : Content → Option Text
  pub add : (buffer name : Text) (modified : ℕ) (content : Text) → Option Text
  pub close : Text → Option Text

abbrev pub events_or_error : Result Audit.Error (List AuditEvent) → Result Error (List AuditEvent)
events_or_error (ok es) = ok es
events_or_error (err e) = err read_audit

module _ (a : Archive) (now : ℕ) where
  -- The loop over `order`.
  unfoldable pub write_files : List (Text × Content) → Text → Result Error Text
  write_files [] buffer = ok buffer
  write_files ((name, content) ∷ files) buffer = do
    b ← or_fail (a.marshal content) marshal_failed
    written ← or_fail (a.add buffer name now (b ++ 10 ∷ [])) write_failed
    write_files files written

  -- `files`, in the order in which they are written.
  unfoldable pub bundle_files :
      BuildInfo
      → Process
      → (started_at : ℕ) (operation_id : Text) → Store
      → List AuditEvent
      → Operations.Store
      → List (Text × Content)
  bundle_files info process started_at operation_id store events ops =
      (codes "manifest.json", manifest now operation_id)
      ∷ (codes "version.json", version info schema_version)
      ∷ (codes "runtime.json", runtime process started_at now)
      ∷ (codes "users.json", users (map public_user (list_users store)))
      ∷ (codes "audit.json", audit events)
      ∷ (codes "operations.json", operations (list_records (pos 500) ops))
      ∷ []

  -- `Build`, after it has read the audit log.
  unfoldable pub pack :
      BuildInfo
      → Process
      → (started_at : ℕ) (operation_id : Text) → Store
      → List AuditEvent
      → Operations.Store
      → Result Error Text
  pack info process started_at operation_id store events ops = do
    buffer ← write_files (bundle_files info process started_at operation_id store events ops) []
    or_fail (a.close buffer) close_failed

  unfoldable pub build :
      Json
      → BuildInfo
      → Process
      → (started_at : ℕ) (operation_id : Text) → Store
      → (audit_path : Text) → Files
      → Operations.Store
      → Result Error Text
  build j info process started_at operation_id store audit_path fs ops = do
    events ← events_or_error (recent j (pos 500) audit_path fs)
    pack info process started_at operation_id store events ops

  -- A bundle depends on the users, the audit log and the records, and on nothing else that is stored:
  -- two stores with the same users that differ in their passwords, or two file systems with the same
  -- audit log, give the same bundle.
  pub build_secrets :
      (j : Json) (info : BuildInfo) (process : Process) (started_at : ℕ) (operation_id : Text)
      (store other : Store) (audit_path : Text) (fs gs : Files) (ops : Operations.Store)
      → store.doc.users ≡ other.doc.users
      → read_file fs audit_path ≡ read_file gs audit_path
      → build j info process started_at operation_id store audit_path fs ops
        ≡ build j info process started_at operation_id other audit_path gs ops
  unfolding build pack bundle_files recent list_users
  build_secrets j info process started_at operation_id store other audit_path fs gs ops h k =
      rw (h, k) refl
