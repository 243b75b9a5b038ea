-- ===== src/Operations/Lifecycle.antt =====
-- The life of a record: it runs until it is finished once, or until a restart interrupts it.
use srv_deployment.Prelude.{
  ℕ, ◌≡◌, refl, ap, ◌∙◌, ◌≢◌, inl, inr, Bool, false, ◌&&◌, ◌||◌, Option, none, some, [], ◌∷◌, arith,
  ◌==◌, Text, codes, Option-cases, if◌then◌else◌, Result, ok, err, text_eq, nat_eq, int_eq,
}
use srv_deployment.Dict
use srv_deployment.Dict.{Dict, get-put, get-remove}
use srv_deployment.Files.{Files, Outcome, read_file}
use srv_deployment.Platform.{Platform}
use srv_deployment.Operations.{
  Record, World, Store, Error, Codec, Status, status_running, status_succeeded, status_failed,
  records, set_records, persist_locked, finish, interrupt, interrupt_all, any_running,
  schema_version, opened, store_of, open_with, open_store, supported, read_document,
}

module _ (c : Codec) (o : Outcome) where
  pub records-persist_locked : (w : World) → records (persist_locked c o w).1 ≡ records w
  unfolding persist_locked
  records-persist_locked w = ground arith

  abbrev pub terminal : Status → ℕ → Text → Record → Record
  terminal status now error_code r = record r {
    status = status;
    finished_at = some now;
    error_code = error_code;
  }

  -- What `Finish` does to each record, however its write ends: it changes only the record with its id,
  -- only if that is running, and only to a terminal status, which it is then given. A record that has
  -- ended is never changed again.
  pub get-finish :
      (now : ℕ) (id : Text) (status : Status) (error_code other : Text) (r : Record) (w : World)
      → Dict.get (records w) other ≡ some r
      → Dict.get (records (finish c o now id status error_code w).1) other
        ≡ some (
            if id == other
              && (r.status == status_running
                  && (status == status_succeeded || status == status_failed))
            then terminal status now error_code r
            else r)
  unfolding finish
  get-finish now id status error_code other r w h = elim (Option-cases (Dict.get (records w) id)) [
    | inl e ↦ ground arith
    | inr (found, e) ↦
        let found' = terminal status now error_code found in
        ground (
          arith,
          records-persist_locked (set_records (Dict.put (records w) id found') w),
          get-put (records w) id other found',
        )
  ]

abbrev pub map_option : (Record → Record) → Option Record → Option Record
map_option f none = none
map_option f (some r) = some (f r)

get-interrupt_all :
    (now : ℕ) (d : Dict Record) (k : Text)
    → Dict.get (interrupt_all now d) k ≡ map_option (interrupt now) (Dict.get d k)
unfolding interrupt_all Dict.get
get-interrupt_all now [] k = refl
get-interrupt_all now ((j, r) ∷ d) k = ground (arith, get-interrupt_all now d k)

any_running-interrupt_all : (now : ℕ) (d : Dict Record) → any_running (interrupt_all now d) ≡ false
unfolding interrupt_all any_running interrupt
any_running-interrupt_all now [] = refl
any_running-interrupt_all now ((j, r) ∷ d) = ground (arith, any_running-interrupt_all now d)

pub store-persist_locked :
    (c : Codec) (o : Outcome) (w : World) → (persist_locked c o w).1.store ≡ w.store
unfolding persist_locked
store-persist_locked c o w = ground arith

abbrev interrupted : ℕ → Text → Dict Record → Store
interrupted now path d = record {
  path = path;
  doc = record { schema = schema_version; records = interrupt_all now d };
}

store_of-opened :
    (c : Codec) (o : Outcome) (now : ℕ) (path : Text) (d : Dict Record) (fs : Files) (s : Store)
    → (store_of (opened c o now path d fs)).0 ≡ ok s
    → s ≡ interrupted now path d
store_of-opened c o now path d fs s h =
    ground (arith, store-persist_locked c o (record { store = interrupted now path d; files = fs }))

open_with-eq-ok :
    (c : Codec) (o : Outcome) (now : ℕ) (path : Text) (fs : Files) (r : Result Error (Dict Record))
    (s : Store)
    → (open_with c o now path fs r).0 ≡ ok s
    → (d : Dict Record) × (r ≡ ok d) × (s ≡ interrupted now path d)
open_with-eq-ok c o now path fs (err e) s h = absurd (ground arith)
open_with-eq-ok c o now path fs (ok d) s h = (d, refl, store_of-opened c o now path d fs s h)

-- What `Open` has read, and what it makes of it.
pub open_store-interrupted :
    (p : Platform) (c : Codec) (o : Outcome) (made : Bool) (now : ℕ) (dir : Text) (fs : Files)
    (s : Store)
    → (open_store p c o made now dir fs).0 ≡ ok s
    → (d : Dict Record) × (supported (read_document c (read_file fs s.path)) ≡ ok d)
      × (any_running s.doc.records ≡ false)
      × ((k : Text) → Dict.get s.doc.records k ≡ map_option (interrupt now) (Dict.get d k))
open_store-interrupted p c o made now dir fs s h =
    let path = p.path_join dir (codes "operations.json") in
    let opens : (open_with c o now path fs (supported (read_document c (read_file fs path)))).0
        ≡ ok s =
      (unfold open_store in ground arith) in
    let (d, loads, e) =
      open_with-eq-ok c o now path fs (supported (read_document c (read_file fs path))) s opens in
    (
      d,
      ap (λ (x : Store). supported (read_document c (read_file fs x.path))) e ∙ loads,
      ap (λ (x : Store). any_running x.doc.records) e ∙ any_running-interrupt_all now d,
      λ k. ap (λ (x : Store). Dict.get x.doc.records k) e ∙ get-interrupt_all now d k,
    )

abbrev pub cut_off : ℕ → Record → Record
cut_off now r = record r {
  status = codes "interrupted";
  finished_at = some now;
  error_code = codes "process_restarted";
}

-- A record after a restart at the time `now`: cut off if it was running.
abbrev pub after_restart : ℕ → Record → Record
after_restart now r = if r.status == codes "running" then cut_off now r else r

interrupt-after_restart : (now : ℕ) (r : Record) → interrupt now r ≡ after_restart now r
unfolding interrupt
interrupt-after_restart now r = refl

pub map_option-interrupt :
    (now : ℕ) (found : Option Record)
    → map_option (interrupt now) found ≡ map_option (after_restart now) found
map_option-interrupt now none = refl
map_option-interrupt now (some r) = ap some (interrupt-after_restart now r)

-- A store that opens has no running record. Each one that the file has as running is now interrupted,
-- has ended at the time given, has the error code `process_restarted`, and is otherwise as it was; each
-- other one is as it stands in the file; and there are no records but those of the file.
pub open_store_lem :
    (p : Platform) (c : Codec) (o : Outcome) (made : Bool) (now : ℕ) (dir : Text) (fs : Files)
    (s : Store)
    → (open_store p c o made now dir fs).0 ≡ ok s
    → (d : Dict Record) × (supported (read_document c (read_file fs s.path)) ≡ ok d)
      × (any_running s.doc.records ≡ false)
      × ((k : Text) (r : Record)
          → Dict.get d k ≡ some r
          → r.status ≡ codes "running"
          → Dict.get s.doc.records k ≡ some (cut_off now r))
      × ((k : Text) (r : Record)
          → Dict.get d k ≡ some r
          → r.status ≢ codes "running"
          → Dict.get s.doc.records k ≡ some r)
      × ((k : Text) → Dict.get d k ≡ none → Dict.get s.doc.records k ≡ none)
open_store_lem p c o made now dir fs s h =
    let (d, loads, none_runs, kept) = open_store-interrupted p c o made now dir fs s h in
    let of_file : (k : Text)
        → Dict.get s.doc.records k ≡ map_option (after_restart now) (Dict.get d k) =
      (λ k. kept k ∙ map_option-interrupt now (Dict.get d k)) in
    (
      d,
      loads,
      none_runs,
      λ k r there runs. ground (arith, of_file k),
      λ k r there rests. ground (arith, of_file k),
      λ k new. ground (arith, of_file k),
    )

pub path-open_store :
    (p : Platform) (c : Codec) (o : Outcome) (made : Bool) (now : ℕ) (dir : Text) (fs : Files)
    (s : Store)
    → (open_store p c o made now dir fs).0 ≡ ok s
    → s.path ≡ p.path_join dir (codes "operations.json")
path-open_store p c o made now dir fs s h =
    let path = p.path_join dir (codes "operations.json") in
    let opens : (open_with c o now path fs (supported (read_document c (read_file fs path)))).0
        ≡ ok s =
      (unfold open_store in ground arith) in
    let (d, loads, e) =
      open_with-eq-ok c o now path fs (supported (read_document c (read_file fs path))) s opens in
    ap (λ (x : Store). x.path) e
