-- ===== src/Tests/Records.antt =====
-- internal/operations
use srv_deployment.Prelude.{
  ◌≡◌, refl, ◌≢◌, true, false, ◌&&◌, ◌||◌, none, some, List, [], ◌∷◌, arith, leb, ◌==◌, Text,
  Text_discrete, codes, if◌then◌else◌, length, ℕ_discrete, ok, text_eq, nat_eq, int_eq,
}
use srv_deployment.Dict
use srv_deployment.Dict.{Dict}
use srv_deployment.Files.{file, read_file, atomic_write}
use srv_deployment.Platform.{ascii}
use srv_deployment.Operations.{
  Record, Store, World, Codec, records, status_running, status_succeeded, status_failed,
  max_records, schema_version, running, persist_locked, finish, prune, interrupt, interrupt_all,
  any_running, open_store, read_document, supported,
}
use srv_deployment.Operations.Invariant.{
  IsValid, Call, starts, finishes, after_call, run_calls, run_calls-IsValid,
}
use srv_deployment.Operations.Restart.{ReadsBack, result_of, open_store-after_call}
use srv_deployment.Operations.Lifecycle.{
  get-finish, terminal, map_option, cut_off, after_restart, open_store_lem,
}
use srv_deployment.Operations.Pruning.{length-prune}
use srv_deployment.Tests.Fixtures.{temp_file}

abbrev job : Record
job =
    running (codes "op1") (codes "rbac.user.create") (codes "root") (codes "admin") (codes "carol")
      5

abbrev pub codec : Codec
codec = record {
  encode = λ d. some (codes "operations");
  decode =
      λ b f. some (record { schema = schema_version; records = some ((codes "op1", job) ∷ []) });
}

abbrev world : World
world = record {
  store = record {
    path = codes "d/operations.json";
    doc = record { schema = schema_version; records = (codes "op1", job) ∷ [] };
  };
  files = (codes "d/operations.json", file (codes "old")) ∷ [];
}

held : Dict.get (records world) (codes "op1") ≡ some job
unfolding Dict.get Text_discrete ℕ_discrete
held = refl

abbrev done : World
done = (finish codec (temp_file (codes ".tmp")) 9 (codes "op1") status_succeeded [] world).1

get-finish_example :
    Dict.get (records done) (codes "op1")
    ≡ some (
        if ◌==◌ {A = Text} (codes "op1") (codes "op1")
          && (job.status == status_running
              && (status_succeeded == status_succeeded || status_succeeded == status_failed))
        then terminal codec (temp_file (codes ".tmp")) status_succeeded 9 [] job
        else job)
get-finish_example =
    get-finish codec (temp_file (codes ".tmp")) 9 (codes "op1") status_succeeded [] (codes "op1")
      job world held

abbrev reopened : Store
reopened = record {
  path = codes "d/operations.json";
  doc = record { schema = schema_version; records = (codes "op1", cut_off 30 job) ∷ [] };
}

open_run :
    (open_store ascii codec (temp_file (codes ".tmp")) true 30 (codes "d") world.files).0
    ≡ ok reopened
unfolding open_store read_file interrupt interrupt_all any_running persist_locked atomic_write
    Dict.get Dict.put Dict.remove Text_discrete ℕ_discrete
open_run = refl

open_store_example :
    (d : Dict Record) × (supported (read_document codec (read_file world.files reopened.path))
      ≡ ok d)
    × (any_running reopened.doc.records ≡ false)
    × ((k : Text) (r : Record)
        → Dict.get d k ≡ some r
        → r.status ≡ codes "running"
        → Dict.get reopened.doc.records k ≡ some (cut_off 30 r))
    × ((k : Text) (r : Record)
        → Dict.get d k ≡ some r
        → r.status ≢ codes "running"
        → Dict.get reopened.doc.records k ≡ some r)
    × ((k : Text) → Dict.get d k ≡ none → Dict.get reopened.doc.records k ≡ none)
open_store_example =
    open_store_lem ascii codec (temp_file (codes ".tmp")) true 30 (codes "d") world.files reopened
      open_run

world-IsValid : IsValid (records world)
unfolding Dict.get
world-IsValid = record { keyed = ((refl, tt), (refl, tt)); bounded = omega arith }

length-prune_example :
    length (prune (records world))
    ≡ (if leb (length (records world)) max_records then length (records world) else max_records)
length-prune_example = length-prune (records world) world-IsValid.keyed

-- The operation ends, and the server starts again.
abbrev ended_job : Record
ended_job = terminal codec (temp_file (codes ".tmp")) status_succeeded 9 [] job

abbrev ended_codec : Codec
ended_codec = record codec {
  decode = λ b f.
      some (record { schema = schema_version; records = some ((codes "op1", ended_job) ∷ []) });
}

abbrev ending : Call
ending = finishes (temp_file (codes ".tmp")) 9 (codes "op1") status_succeeded []

abbrev restarted : Store
restarted = record {
  path = codes "d/operations.json";
  doc = record { schema = schema_version; records = (codes "op1", ended_job) ∷ [] };
}

-- Everything that a call and the opening of a store compute with.
calls : Unit {0}
unfolding finish open_store read_file interrupt interrupt_all any_running persist_locked
    atomic_write Dict.get Dict.put Dict.remove Text_discrete ℕ_discrete
calls = tt

ending_run : result_of ended_codec ending world ≡ ok ended_job
unfolding calls
ending_run = refl

restart_run :
    (open_store ascii ended_codec
      (temp_file (codes ".tmp"))
      true
      30
      (codes "d")
      (after_call ended_codec ending world).files).0
    ≡ ok restarted
unfolding calls
restart_run = refl

ended_back : ReadsBack ended_codec (after_call ended_codec ending world).store.doc
unfolding calls
ended_back = record { back = λ b e. refl }

no_temp : Dict.get world.files (codes ".tmp") ≡ none
unfolding calls
no_temp = refl

open_store-after_call_example :
    Dict.get restarted.doc.records (codes "op1")
    ≡ map_option
        (after_restart 30)
        (Dict.get (records (after_call ended_codec ending world)) (codes "op1"))
open_store-after_call_example =
    open_store-after_call ascii ended_codec ending (temp_file (codes ".tmp")) true 30 (codes "d")
      world ended_job restarted no_temp (λ e. cc) refl ended_back refl ending_run restart_run
      (codes "op1")

-- A second operation starts before the first one ends.
abbrev two_calls : List Call
two_calls =
    starts (temp_file (codes ".tmp")) 7 (codes "op2") (codes "rbac.user.block") (codes "root")
      (codes "admin") (codes "carol")
    ∷ ending
    ∷ []

run_calls-IsValid_example : IsValid (records (run_calls codec two_calls world))
run_calls-IsValid_example = run_calls-IsValid codec two_calls world world-IsValid
