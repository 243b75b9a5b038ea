-- ===== src/Tests/Starts.antt =====
-- cmd/control-center: the first administrator, and a first start.
use srv_deployment.Prelude.{
  ◌≡◌, refl, ap, true, none, some, [], ◌++◌, arith, Text, Text_discrete, codes, length, ℕ_discrete,
  ok, err,
}
use srv_deployment.Audit.{open_audit}
use srv_deployment.ControlCenter.{
  Program, Occasion, succeed, line, created_message, state_dir, log_dir, bootstrap, start, serving,
}
use srv_deployment.ControlCenter.Bootstrap.{start-bootstrap}
use srv_deployment.Dict
use srv_deployment.Files.{read_file, content, atomic_write}
use srv_deployment.HttpServer.Server.{Server}
use srv_deployment.Operations
use srv_deployment.Platform.{ascii, ascii-TextLaws, ascii-HashLaws, trim_left, trim_right}
use srv_deployment.Process.{development}
use srv_deployment.State.Document
use srv_deployment.State.Document.{World, persist_locked, write}
use srv_deployment.State.Written.{IsFresh}
use srv_deployment.State.FirstAdmin.{IsApart}
use srv_deployment.State.Inversion.{bootstrap_text, first_admin}
use srv_deployment.State.Keyed.{IsKeyed}
use srv_deployment.State.Load.{
  load, open_store, new_state, new_secrets, document_of, secret_document_of,
}
use srv_deployment.State.Password.{hash_password, validate_password}
use srv_deployment.State.Store.{bootstrap_admin, ready, verify_credentials}
use srv_deployment.State.Username.{normalize_username, is_username}
use srv_deployment.Strings.{all_chars}
use srv_deployment.Strings.Base64.{encode}
use srv_deployment.Tests.Fixtures.{decoder, encoder, good_writes, temp_file, salt}
use srv_deployment.Tests.Records.{codec}
use srv_deployment.Tests.States.{salt-IsBytes}
use srv_deployment.Tests.Updates.{formats, crypto}

abbrev pub directory : Text
directory = codes "d"

abbrev pub first_store : Document.Store
first_store = record {
  state_path = directory ++ codes "/state.json";
  secret_path = directory ++ codes "/secrets.json";
  bootstrap_path = directory ++ codes "/bootstrap-admin.secret";
  doc = document_of new_state;
  secrets = secret_document_of new_secrets;
}

abbrev raw : Text
raw = codes "0123456789abcdefghijklmn"

abbrev after : World
after =
    (bootstrap_admin ascii encoder good_writes (some raw) (some salt) 9 (codes "admin")
      (record { store = first_store; files = [] })).1

abbrev pub program : Program
program = record {
  platform = ascii;
  formats = formats;
  crypto = crypto;
  info = development;
  decoder = decoder after.store;
  encoder = encoder;
  codec = codec;
  flags = record {
    username = λ args. ok none;
    field = λ args. ok [];
    verify = λ args. err 2;
    compare = λ args. err 2;
  };
  environment = λ name. directory;
}

abbrev pub occasion : Occasion
occasion = record {
  state_made = true;
  raw = some raw;
  salt = some salt;
  now = 9;
  writes = good_writes;
  operations_made = true;
  operations_write = temp_file (codes ".tmp-9");
  opening = record { made = true; opened = true; chmodded = true; closed = true };
}

opened : open_store ascii (decoder after.store) true (state_dir program) [] ≡ ok first_store
unfolding open_store load read_file Dict.get trim_left trim_right Text_discrete ℕ_discrete
opened = refl

fresh : IsFresh good_writes (record { store = first_store; files = [] })
unfolding Dict.get
fresh = record {
  apart = λ e. absurd (omega (arith, ap length e));
  secret_new = refl;
  state_new = refl;
  secret_temp-secret = λ e. cc;
  state_temp-secret = λ e. cc;
  bootstrap_apart =
      (λ e. absurd (omega (arith, ap length e)), λ e. absurd (omega (arith, ap length e)));
  state_temp-state = λ e. cc;
}

apart : IsApart good_writes (record { store = first_store; files = [] })
unfolding Dict.get
apart = record {
  new = refl;
  from_state = λ e. cc;
  from_secrets = λ e. cc;
  from_bootstrap = λ e. cc;
}

-- Everything that the two runs compute with, but for the derivation of the key.
unfoldable pub runs : Unit {0}
unfolding bootstrap bootstrap_admin open_store load read_file normalize_username is_username
    all_chars hash_password validate_password encode persist_locked write atomic_write open_audit
    Operations.open_store Operations.interrupt_all Operations.any_running trim_left trim_right
    Dict.get Dict.put Dict.remove Text_discrete ℕ_discrete
runs = tt

bootstrap_run :
    bootstrap program occasion [] [] ≡ (succeed (line (created_message program)), after.files)
unfolding runs
bootstrap_run = refl

operations_opened :
    (Operations.open_store ascii codec
      (temp_file (codes ".tmp-9"))
      true
      9
      (state_dir program)
      after.files).0
    ≡ ok (record {
      path = directory ++ codes "/operations.json";
      doc = record { schema = Operations.schema_version; records = [] };
    })
unfolding runs
operations_opened = refl

audit_opened :
    (open_audit ascii occasion.opening
      (log_dir program)
      (Operations.open_store ascii codec
        (temp_file (codes ".tmp-9"))
        true
        9
        (state_dir program)
        after.files).1).0
    ≡ ok (directory ++ codes "/audit.jsonl")
unfolding runs
audit_opened = refl

start-bootstrap_example :
    (name : Text) × (secret : Text) × (s : Server) × (read_file after.files
        first_store.bootstrap_path
      ≡ content (bootstrap_text name secret))
    × ((start program occasion after.files).0 ≡ serving s)
    × ((ready s.store).0 ≡ true)
    × IsKeyed ascii s.store.doc.users
    × (verify_credentials ascii name secret s.store ≡ some (first_admin name 9))
start-bootstrap_example =
    start-bootstrap program occasion occasion [] none salt [] after.files first_store _ _
      ascii-TextLaws ascii-HashLaws refl opened fresh apart refl salt-IsBytes (omega arith)
      (record { state_back = λ b e. refl; secrets_back = λ b e. refl }) bootstrap_run refl
      operations_opened audit_opened
