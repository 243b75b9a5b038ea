-- ===== src/Operations.antt =====
-- internal/operations/store.go: the record of each operation, in memory and in one file.

pub mod Lifecycle
pub mod Listed
pub mod Pruning
pub mod Invariant
pub mod Started
pub mod Restart
use srv_deployment.Prelude.{
  ℕ, ◌-◌, Bool, true, false, not, ◌||◌, Option, none, some, List, [], ◌∷◌, ◌++◌, map, ltb, leb,
  ◌==◌, ◌!=◌, Text, codes, if◌then◌else◌, length, take, ℤ, pos, pos_part, ltb_ℤ, leb_ℤ, Result, ok,
  err, or_fail, text_eq, nat_eq, int_eq,
}
use srv_deployment.Dict
use srv_deployment.Dict.{Dict}
use srv_deployment.Exec.{Exec, ◌>>=◌, ◌>>◌, pure, lift, gets, modify, check}
use srv_deployment.Files
use srv_deployment.Files.{Files, Outcome, Read, content, not_exist, unreadable, read_file}
use srv_deployment.Platform.{Platform}
use srv_deployment.Sort.{sort}
use srv_deployment.State.Listing.{values}

abbrev pub schema_version : ℤ
schema_version = pos 1

abbrev pub max_records : ℕ
max_records = 1000

-- `type Status string`
abbrev pub Status : Type 0
Status = Text

abbrev pub status_running : Status
status_running = codes "running"

abbrev pub status_succeeded : Status
status_succeeded = codes "succeeded"

abbrev pub status_failed : Status
status_failed = codes "failed"

abbrev pub status_interrupted : Status
status_interrupted = codes "interrupted"

pub record Record : Type 0 where
  pub id : Text
  pub kind : Text
  pub actor : Text
  pub role : Text
  pub target : Text
  pub status : Status
  pub started_at : ℕ
  pub finished_at : Option ℕ
  pub error_code : Text

pub record Document : Type 0 where
  pub schema : ℤ
  pub records : Dict Record

pub record Store : Type 0 where
  pub path : Text
  pub doc : Document

pub record World : Type 0 where
  pub store : Store
  pub files : Files

pub data Error : Type 0 where
  directory_required create_directory decode_operations read_operations unsupported_schema
        fields_required already_exists status_invalid not_found already_terminal encode_failed
        write_failed :
      Error

-- `json.MarshalIndent` of the document, and `json.Unmarshal` into the document given; `none` for an
-- error. A nil map of the file is `none`.
pub record DocumentFile : Type 0 where
  pub schema : ℤ
  pub records : Option (Dict Record)

pub record Codec : Type 0 where
  pub encode : Document → Option Text
  pub decode : Text → DocumentFile → Option DocumentFile

abbrev pub records : World → Dict Record
records w = w.store.doc.records

abbrev pub set_records : Dict Record → World → World
set_records d w = record w {
  store = record (w.store) { doc = record (w.store.doc) { records = d } };
}

-- `atomicWrite` of this package: that of internal/state, with another name of the temporary file.
abbrev pub atomic_write : Outcome → Text → Text → Files → Bool × Files
atomic_write = Files.atomic_write

unfoldable pub persist_locked : Codec → Outcome → Exec Error World Unit
persist_locked c o = do
  store ← gets (λ w. w.store)
  b ← lift (or_fail (c.encode store.doc) encode_failed)
  files ← gets (λ w. w.files)
  let written = atomic_write o store.path (b ++ 10 ∷ []) files
  modify (λ w. record w { files = written.1 })
  check written.0 write_failed

-- `StartedAt.Before`
abbrev pub before : Record → Record → Bool
before a b = ltb a.started_at b.started_at

-- `for i := 0; i < remove; i++ { delete(s.doc.Records, all[i].ID) }`
unfoldable pub delete_all : List Record → Dict Record → Dict Record
delete_all [] d = d
delete_all (r ∷ rs) d = delete_all rs (Dict.remove d r.id)

unfoldable pub prune : Dict Record → Dict Record
prune d =
    if leb (length d) max_records
    then d
    else let all = sort before (values d) in
      let remove = length all - max_records in delete_all (take remove all) d

abbrev pub running : (id kind actor role target : Text) → ℕ → Record
running id kind actor role target now = record {
  id = id;
  kind = kind;
  actor = actor;
  role = role;
  target = target;
  status = status_running;
  started_at = now;
  finished_at = none;
  error_code = [];
}

module _ (c : Codec) (o : Outcome) where
  -- `Start`; a failing write takes the new record back.
  abbrev undo : Text → Result Error Unit × World → Result Error Unit × World
  undo id (ok u, w) = (ok u, w)
  undo id (err e, w) = (err e, set_records (Dict.remove (records w) id) w)

  unfoldable pub start : (now : ℕ) (id kind actor role target : Text) → Exec Error World Record
  start now id kind actor role target = do
    check (not (id == [] || kind == [] || actor == [])) fields_required
    existing ← gets (λ w. Dict.get (records w) id)
    check (elim existing [ none ↦ true | some r ↦ false ]) already_exists
    let rec = running id kind actor role target now
    modify (λ w. set_records (Dict.put (records w) id rec) w)
    modify (λ w. set_records (prune (records w)) w)
    (λ w. undo id (persist_locked c o w))
    pure rec

  unfoldable pub finish :
      (now : ℕ) (id : Text) (status : Status) (error_code : Text) → Exec Error World Record
  finish now id status error_code = do
    check (status == status_succeeded || status == status_failed) status_invalid
    existing ← gets (λ w. Dict.get (records w) id)
    rec ← lift (or_fail existing not_found)
    check (rec.status == status_running) already_terminal
    let rec' = record rec { status = status; finished_at = some now; error_code = error_code }
    modify (λ w. set_records (Dict.put (records w) id rec') w)
    persist_locked c o
    pure rec'

-- `List`
unfoldable pub list_records : ℤ → Store → List Record
list_records limit s =
    let n = if leb_ℤ limit (pos 0) || ltb_ℤ (pos 500) limit then 100 else pos_part limit in
    take n (sort (λ a b. ltb b.started_at a.started_at) (values s.doc.records))

unfoldable pub count : Store → ℕ
count s = length s.doc.records

-- The loop of `Open` over the records, and whether it changed one.
unfoldable pub interrupt : ℕ → Record → Record
interrupt now r =
    if r.status == status_running
    then record r {
      status = status_interrupted;
      finished_at = some now;
      error_code = codes "process_restarted";
    }
    else r

unfoldable pub interrupt_all : ℕ → Dict Record → Dict Record
interrupt_all now d = map (λ e. (e.0, interrupt now e.1)) d

unfoldable pub any_running : Dict Record → Bool
any_running [] = false
any_running ((k, r) ∷ d) = r.status == status_running || any_running d

abbrev pub new_file : DocumentFile
new_file = record { schema = schema_version; records = some [] }

abbrev pub read_document : Codec → Read → Result Error DocumentFile
read_document c (content b) = or_fail (c.decode b new_file) decode_operations
read_document c not_exist = ok new_file
read_document c unreadable = err read_operations

abbrev pub or_empty : Option (Dict Record) → Dict Record
or_empty none = []
or_empty (some d) = d

-- The loop and the write after it; the store is returned with the files.
abbrev pub opened :
    Codec → Outcome → (now : ℕ) → Text → Dict Record → Files → Result Error Unit × World
opened c o now path d fs =
    let w : World = record {
      store = record {
        path = path;
        doc = record { schema = schema_version; records = interrupt_all now d };
      };
      files = fs;
    } in
    if any_running d then persist_locked c o w else (ok tt, w)

abbrev pub supported : Result Error DocumentFile → Result Error (Dict Record)
supported (err e) = err e
supported (ok f) =
    if f.schema != schema_version then err unsupported_schema else ok (or_empty f.records)

abbrev pub store_of : Result Error Unit × World → Result Error Store × Files
store_of (ok u, w) = (ok w.store, w.files)
store_of (err e, w) = (err e, w.files)

abbrev pub open_with :
    Codec → Outcome → ℕ → Text → Files → Result Error (Dict Record) → Result Error Store × Files
open_with c o now path fs (err e) = (err e, fs)
open_with c o now path fs (ok d) = store_of (opened c o now path d fs)

-- `Open`; `made` says whether `os.MkdirAll` succeeds.
unfoldable pub open_store :
    Platform → Codec → Outcome → (made : Bool) (now : ℕ) → Text → Files → Result Error Store × Files
open_store p c o made now dir fs =
    if dir == []
    then (err directory_required, fs)
    else if not made
    then (err create_directory, fs)
    else let path = p.path_join dir (codes "operations.json") in
      open_with c o now path fs (supported (read_document c (read_file fs path)))
