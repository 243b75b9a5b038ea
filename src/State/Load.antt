-- ===== src/State/Load.antt =====
-- `Open` and `load` (internal/state/store.go).
use srv_deployment.Prelude.{
  ℕ, Bool, not, ◌||◌, Option, none, some, [], ◌!=◌, Text, codes, ℤ, Result, ok, err, guard, or_fail,
  text_eq, nat_eq, int_eq, ◌>>=◌, ◌>>◌,
}
use srv_deployment.Dict.{Dict}
use srv_deployment.Files.{Files, Read, content, not_exist, unreadable, read_file}
use srv_deployment.Platform.{Platform}
use srv_deployment.State.Document.{User, Document, SecretDocument, Store, schema_version}

pub data Error : Type 0 where
  directory_required create_directory decode_state read_state decode_secrets read_secrets
        unsupported_schema revision_mismatch :
      Error

-- A document as `json.Unmarshal` leaves it: a `null` makes a map nil.
pub record StateFile : Type 0 where
  pub schema : ℤ
  pub revision : ℕ
  pub desired : Option (Dict Text)
  pub observed : Option (Dict Text)
  pub users : Option (Dict User)

pub record SecretFile : Type 0 where
  pub schema : ℤ
  pub revision : ℕ
  pub passwords : Option (Dict Text)

-- `json.Unmarshal` into a document that holds the values given (the map that the program passes is
-- empty); `none` for an error.
pub record Decoder : Type 0 where
  pub state_of : Text → StateFile → Option StateFile
  pub secrets_of : Text → SecretFile → Option SecretFile

abbrev pub new_state : StateFile
new_state = record {
  schema = schema_version;
  revision = 1;
  desired = some [];
  observed = some [];
  users = some [];
}

abbrev pub new_secrets : SecretFile
new_secrets = record { schema = schema_version; revision = 1; passwords = some [] }

abbrev load_state : Decoder → Read → Result Error StateFile
load_state d (content b) = or_fail (d.state_of b new_state) decode_state
load_state d not_exist = ok new_state
load_state d unreadable = err read_state

abbrev load_secrets : Decoder → Read → Result Error SecretFile
load_secrets d (content b) = or_fail (d.secrets_of b new_secrets) decode_secrets
load_secrets d not_exist = ok new_secrets
load_secrets d unreadable = err read_secrets

-- `if m == nil { m = map[string]V{} }`
abbrev pub or_empty : {V : Type 0} → Option (Dict V) → Dict V
or_empty none = []
or_empty (some m) = m

abbrev pub document_of : StateFile → Document
document_of f = record {
  schema = f.schema;
  revision = f.revision;
  desired = or_empty f.desired;
  observed = or_empty f.observed;
  users = or_empty f.users;
}

abbrev pub secret_document_of : SecretFile → SecretDocument
secret_document_of f = record {
  schema = f.schema;
  revision = f.revision;
  passwords = or_empty f.passwords;
}

-- The paths of a store.
pub record Paths : Type 0 where
  pub state_path : Text
  pub secret_path : Text
  pub bootstrap_path : Text

unfoldable pub load : Decoder → Paths → Files → Result Error Store
load d paths fs = do
  doc ← load_state d (read_file fs paths.state_path)
  secrets ← load_secrets d (read_file fs paths.secret_path)
  guard (not (doc.schema != schema_version || secrets.schema != schema_version)) unsupported_schema
  guard (not (doc.revision != secrets.revision)) revision_mismatch
  ok (record {
    state_path = paths.state_path;
    secret_path = paths.secret_path;
    bootstrap_path = paths.bootstrap_path;
    doc = document_of doc;
    secrets = secret_document_of secrets;
  })

abbrev pub paths_in : Platform → Text → Paths
paths_in p dir = record {
  state_path = p.path_join dir (codes "state.json");
  secret_path = p.path_join dir (codes "secrets.json");
  bootstrap_path = p.path_join dir (codes "bootstrap-admin.secret");
}

-- `Open`; `made` says whether `os.MkdirAll` succeeds.
unfoldable pub open_store : Platform → Decoder → Bool → Text → Files → Result Error Store
open_store p d made dir fs = do
  guard (p.trim_space dir != []) directory_required
  guard made create_directory
  load d (paths_in p dir) fs
