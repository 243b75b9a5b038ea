-- ===== src/ControlCenter.antt =====
-- cmd/control-center/main.go: the commands, and the start of the server up to `ListenAndServe`.
pub mod Bootstrap
pub mod Serving
use srv_deployment.Prelude.{
  ℕ, Bool, true, false, ◌||◌, Option, none, some, List, [], ◌∷◌, ◌++◌, ◌==◌, ◌!=◌, Text, codes,
  if◌then◌else◌, ℤ, Result, ok, err, text_eq, nat_eq, int_eq,
}
use srv_deployment.Audit
use srv_deployment.Audit.{open_audit}
use srv_deployment.Files
use srv_deployment.Files.{Files}
use srv_deployment.HttpServer.Guards.{or_text}
use srv_deployment.HttpServer.Server.{Server, new_server}
use srv_deployment.Operations
use srv_deployment.Platform.{Platform}
use srv_deployment.Process.{BuildInfo}
use srv_deployment.Release.Manifest
use srv_deployment.Release.Manifest.{Manifest, Formats, release_id}
use srv_deployment.Release.Verify
use srv_deployment.Release.Verify.{Crypto, verify}
use srv_deployment.Release.Version
use srv_deployment.Release.Version.{compare_versions}
use srv_deployment.State.Document
use srv_deployment.State.Document.{Encoder, Writes, schema_version}
use srv_deployment.State.Load
use srv_deployment.State.Load.{Decoder, open_store}
use srv_deployment.State.Store.{bootstrap_admin}

-- What a command prints to its output.
pub data Output : Type 0 where
  nothing : Output
  line : Text → Output
  number : ℤ → Output
  build : BuildInfo → Output

pub record Exit : Type 0 where
  pub status : ℕ
  pub output : Output

abbrev pub succeed : Output → Exit
succeed o = record { status = 0; output = o }

-- `os.Exit`, and a panic, which ends the process with the status 2.
abbrev pub fail : ℕ → Exit
fail n = record { status = n; output = nothing }

pub record VerifyFlags : Type 0 where
  pub manifest : Text
  pub signature : Text
  pub public_key : Text
  pub artifact : Text
  pub field : Option Text

pub record CompareFlags : Type 0 where
  pub current : Option Text
  pub target : Text

-- The flag sets of the commands on their arguments, `none` for a flag that is not given and that has a
-- default other than ""; an error is the status with which `flag.ExitOnError` ends the process.
pub record Flags : Type 0 where
  pub username : List Text → Result ℕ (Option Text)
  pub field : List Text → Result ℕ Text
  pub verify : List Text → Result ℕ VerifyFlags
  pub compare : List Text → Result ℕ CompareFlags

-- What the program takes from elsewhere; `environment` is `os.Getenv`.
pub record Program : Type 0 where
  pub platform : Platform
  pub formats : Formats
  pub crypto : Crypto
  pub info : BuildInfo
  pub decoder : Decoder
  pub encoder : Encoder
  pub codec : Operations.Codec
  pub flags : Flags
  pub environment : Text → Text

-- What one run meets: how its calls end, random bytes and the clock.
pub record Occasion : Type 0 where
  pub state_made : Bool
  pub raw : Option Text
  pub salt : Option Text
  pub now : ℕ
  pub writes : Writes
  pub operations_made : Bool
  pub operations_write : Files.Outcome
  pub opening : Audit.Opening

-- The end of a run that does not serve, or the server.
pub data Run : Type 0 where
  exited : Exit → Run
  serving : Server → Run

module _ (g : Program) where
  -- `envOr`
  abbrev pub env_or : (name fallback : Text) → Text
  env_or name fallback = let v = g.environment name in if v != [] then v else fallback

  abbrev pub state_dir : Text
  state_dir = env_or (codes "CONTROL_CENTER_STATE_DIR") (codes "/var/lib/control-center")

  abbrev pub log_dir : Text
  log_dir = env_or (codes "CONTROL_CENTER_LOG_DIR") (codes "/var/log/control-center")

  abbrev info_of : Text → Exit
  info_of field =
      if field == codes "version"
      then succeed (line g.info.version)
      else if field == codes "commit"
      then succeed (line g.info.commit)
      else if field == codes "built-at"
      then succeed (line g.info.built_at)
      else if field == []
      then succeed (build g.info)
      else fail 2

  -- `buildInfo`
  unfoldable pub build_info : List Text → Exit
  build_info args = elim (g.flags.field args) [ err n ↦ fail n | ok field ↦ info_of field ]

  abbrev id_of : Option Text → Exit
  id_of none = fail 2
  id_of (some id) = succeed (line id)

  abbrev manifest_field : Text → Manifest → Exit
  manifest_field field m =
      if field == codes "release-id"
      then id_of (release_id m)
      else if field == codes "version"
      then succeed (line m.version)
      else if field == codes "commit"
      then succeed (line m.commit)
      else fail 2

  abbrev pub verify_request : VerifyFlags → Verify.Request
  verify_request f = record {
    manifest_path = f.manifest;
    signature_path = f.signature;
    public_key_path = f.public_key;
    artifact_path = f.artifact;
    expected_os = g.crypto.go_os;
    expected_arch = g.crypto.go_arch;
    current_state_schema = schema_version;
  }

  abbrev verified : Text → Result Manifest.Error Manifest → Exit
  verified field (err e) = fail 1
  verified field (ok m) = manifest_field field m

  abbrev verify_with : Files → VerifyFlags → Exit
  verify_with fs f =
      if f.manifest == [] || f.signature == [] || f.public_key == [] || f.artifact == []
      then fail 2
      else verified (or_text f.field (codes "release-id"))
          (verify g.platform g.formats g.crypto (verify_request f) fs)

  -- `verifyRelease`
  unfoldable pub verify_release : List Text → Files → Exit
  verify_release args fs = elim (g.flags.verify args) [ err n ↦ fail n | ok f ↦ verify_with fs f ]

  abbrev compared : Result Version.Error ℤ → Exit
  compared (err e) = fail 1
  compared (ok n) = succeed (number n)

  abbrev compare_with : CompareFlags → Exit
  compare_with f =
      if f.target == []
      then fail 2
      else compared (compare_versions (or_text f.current g.info.version) f.target)

  -- `compareVersion`
  unfoldable pub compare_version : List Text → Exit
  compare_version args = elim (g.flags.compare args) [ err n ↦ fail n | ok f ↦ compare_with f ]

  abbrev pub created_message : Text
  created_message =
      codes "Initial administrator created. Bootstrap credentials: "
      ++ g.platform.path_join state_dir (codes "bootstrap-admin.secret")

  abbrev pub bootstrapped : Result Document.Error (Text × Bool) × Document.World → Exit × Files
  bootstrapped (err e, w) = (fail 1, w.files)
  bootstrapped (ok (secret, true), w) = (succeed (line created_message), w.files)
  bootstrapped (ok (secret, false), w) = (
    succeed (line (codes "Administrator bootstrap skipped: state already contains users.")),
    w.files,
  )

  abbrev bootstrap_in :
      Occasion → (username : Text) → Result Load.Error Document.Store → Files → Exit × Files
  bootstrap_in o username (err e) fs = (fail 1, fs)
  bootstrap_in o username (ok store) fs = bootstrapped (
      bootstrap_admin g.platform g.encoder o.writes o.raw o.salt o.now username
        (record { store = store; files = fs }))

  -- `bootstrapAdmin`
  unfoldable pub bootstrap : Occasion → List Text → Files → Exit × Files
  bootstrap o args fs = elim (g.flags.username args) [
    | err n ↦ (fail n, fs)
    | ok username ↦
        bootstrap_in o (or_text username (codes "admin"))
          (open_store g.platform g.decoder o.state_made state_dir fs) fs
  ]

  abbrev with_audit :
      Occasion → Document.Store → Operations.Store → Result Audit.Error Text × Files → Run × Files
  with_audit o store ops (err e, fs) = (exited (fail 1), fs)
  with_audit o store ops (ok path, fs) = (serving (new_server o.now store ops path fs), fs)

  abbrev with_operations :
      Occasion → Document.Store → Result Operations.Error Operations.Store × Files → Run × Files
  with_operations o store (err e, fs) = (exited (fail 1), fs)
  with_operations o store (ok ops, fs) =
      with_audit o store ops (open_audit g.platform o.opening log_dir fs)

  abbrev with_state : Occasion → Files → Result Load.Error Document.Store → Run × Files
  with_state o fs (err e) = (exited (fail 1), fs)
  with_state o fs (ok store) = with_operations o store (
      Operations.open_store g.platform g.codec o.operations_write o.operations_made o.now state_dir
        fs)

  -- The part of `main` that opens the stores and makes the server.
  unfoldable pub start : Occasion → Files → Run × Files
  start o fs = with_state o fs (open_store g.platform g.decoder o.state_made state_dir fs)

  abbrev and_files : Files → Exit → Run × Files
  and_files fs e = (exited e, fs)

  abbrev bootstrap_run : Exit × Files → Run × Files
  bootstrap_run (e, fs) = (exited e, fs)

  -- `main`, on the arguments after the program's name.
  unfoldable pub main : Occasion → List Text → Files → Run × Files
  main o [] fs = start o fs
  main o (command ∷ args) fs =
      if command == codes "bootstrap-admin"
      then bootstrap_run (bootstrap o args fs)
      else if command == codes "build-info"
      then and_files fs (build_info args)
      else if command == codes "verify-release"
      then and_files fs (verify_release args fs)
      else if command == codes "compare-version"
      then and_files fs (compare_version args)
      else start o fs
