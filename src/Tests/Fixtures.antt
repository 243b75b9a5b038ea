-- ===== src/Tests/Fixtures.antt =====
-- A store with an administrator and a viewer, and writes that all succeed or stop at one step.
use srv_deployment.Prelude.{true, false, some, [], ◌∷◌, Text, codes}
use srv_deployment.Files.{Outcome}
use srv_deployment.State.Document.{
  User, Store, World, Encoder, Writes, role_admin, role_viewer, schema_version,
}
use srv_deployment.State.Durability.{state_file, secret_file}
use srv_deployment.State.Load.{Decoder}
use srv_deployment.State.Store.{new_user}

abbrev pub temp_file : Text → Outcome
temp_file name = record {
  temp = name;
  created = true;
  chmodded = true;
  written_all = true;
  written = [];
  synced = true;
  closed = true;
  renamed = true;
  removed = true;
}

abbrev pub good_writes : Writes
good_writes = record {
  secret_write = temp_file (codes ".tmp-1");
  state_write = temp_file (codes ".tmp-2");
  bootstrap_write = temp_file (codes ".tmp-3");
}

-- The second write cannot be renamed.
abbrev pub torn_writes : Writes
torn_writes = record good_writes {
  state_write = record (temp_file (codes ".tmp-2")) { renamed = false };
}

abbrev pub encoder : Encoder
encoder = record {
  encode_state = λ d. some (codes "state");
  encode_secrets = λ d. some (codes "secrets");
}

-- A decoder that reads the documents of one store, whatever the bytes.
abbrev pub decoder : Store → Decoder
decoder s = record {
  state_of = λ b f. some (state_file s.doc);
  secrets_of = λ b f. some (secret_file s.secrets);
}

abbrev pub root_user : User
root_user = new_user (codes "root") role_admin 1

abbrev pub second_admin : User
second_admin = new_user (codes "second") role_admin 2

abbrev pub viewer_user : User
viewer_user = new_user (codes "viewer") role_viewer 3

abbrev pub store : Store
store = record {
  state_path = codes "state";
  secret_path = codes "secrets";
  bootstrap_path = codes "bootstrap";
  doc = record {
    schema = schema_version;
    revision = 7;
    desired = [];
    observed = [];
    users =
        (codes "root", root_user)
        ∷ (codes "second", second_admin)
        ∷ (codes "viewer", viewer_user)
        ∷ [];
  };
  secrets = record { schema = schema_version; revision = 7; passwords = [] };
}

abbrev pub world : World
world = record { store = store; files = [] }

abbrev pub salt : Text
salt = codes "0123456789abcdef"

abbrev pub long_password : Text
long_password = codes "correct horse"
