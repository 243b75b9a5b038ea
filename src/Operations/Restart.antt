-- ===== src/Operations/Restart.antt =====
-- A restart after a call of `Start` or `Finish`.
use srv_deployment.Prelude.{
  ℕ, ◌≡◌, sym, ap, ◌∙◌, ◌≢◌, inl, inr, Bool, none, some, [], ◌∷◌, ◌++◌, arith, Text, codes,
  Option-cases, Result, ok,
}
use srv_deployment.Dict
use srv_deployment.Dict.{Dict}
use srv_deployment.Files.{Outcome, read_file}
use srv_deployment.Files.Atomic.{atomic_write_lem}
use mathlib.Core.Path.{subst}
use srv_deployment.Operations.{
  Record, Document, Store, World, Error, Codec, Status, records, set_records, running, prune, start,
  finish, persist_locked, read_document, supported, new_file, open_store, schema_version,
}
use srv_deployment.Operations.Invariant.{Call, starts, finishes, after_call}
use srv_deployment.Operations.Lifecycle.{
  store-persist_locked, path-open_store, terminal, map_option, map_option-interrupt, after_restart,
  open_store-interrupted,
}
use srv_deployment.Platform.{Platform}

-- What the JSON codec reads back of a document, with the newline that is written after it.
pub record ReadsBack (c : Codec) (d : Document) : Type 0 where
  pub back :
      (b : Text)
      → c.encode d ≡ some b
      → c.decode (b ++ 10 ∷ []) new_file
        ≡ some (record { schema = d.schema; records = some d.records })

-- The file of the records, with a new name of the temporary one.
abbrev pub IsSaved : Codec → World → Type 0
IsSaved c w = supported (read_document c (read_file w.files w.store.path)) ≡ ok (records w)

module _ (c : Codec) (o : Outcome) where
  persisted :
      (w : World)
      → Dict.get w.files o.temp ≡ none
      → o.temp ≢ w.store.path
      → w.store.doc.schema ≡ schema_version
      → ReadsBack c w.store.doc
      → (persist_locked c o w).0 ≡ ok tt
      → IsSaved c (persist_locked c o w).1
  unfolding persist_locked read_file
  persisted w new apart schema reads h = elim (Option-cases (c.encode w.store.doc)) [
    | inl failed ↦ absurd (ground arith)
    | inr (b, encoded) ↦
        let (result, left, temporary) =
          atomic_write_lem o w.store.path (b ++ 10 ∷ []) w.files new apart in
        ground (arith, encoded, result, left w.store.path apart, reads.back b encoded, schema)
  ]

  module _ (w : World) (new : Dict.get w.files o.temp ≡ none) (apart : o.temp ≢ w.store.path)
      (schema : w.store.doc.schema ≡ schema_version) where
    saved :
        (d : Dict Record)
        → ReadsBack c (set_records d w).store.doc
        → (persist_locked c o (set_records d w)).0 ≡ ok tt
        → IsSaved c (persist_locked c o (set_records d w)).1
    saved d reads = persisted (set_records d w) new apart schema reads

    start-IsSaved :
        (now : ℕ) (id kind actor role target : Text) (rec : Record)
        → ReadsBack c (start c o now id kind actor role target w).1.store.doc
        → (start c o now id kind actor role target w).0 ≡ ok rec
        → IsSaved c (start c o now id kind actor role target w).1
    unfolding start
    start-IsSaved now id kind actor role target rec reads h =
        let d = prune (Dict.put (records w) id (running id kind actor role target now)) in
        let left : (start c o now id kind actor role target w).1.store.doc
            ≡ (set_records d w).store.doc =
          grind (arith, store-persist_locked c o (set_records d w)) in
        let saved_ = saved d (subst (ReadsBack c) left reads) in grind (arith, saved_)

    finish-IsSaved :
        (now : ℕ) (id : Text) (status : Status) (error_code : Text) (rec : Record)
        → ReadsBack c (finish c o now id status error_code w).1.store.doc
        → (finish c o now id status error_code w).0 ≡ ok rec
        → IsSaved c (finish c o now id status error_code w).1
    unfolding finish
    finish-IsSaved now id status error_code rec reads h =
        elim (Option-cases (Dict.get (records w) id)) [
          | inl none_there ↦ absurd (ground arith)
          | inr (found, there) ↦
              let d = Dict.put (records w) id (terminal c o status now error_code found) in
              let left : (finish c o now id status error_code w).1.store.doc
                  ≡ (set_records d w).store.doc =
                grind (arith, there, store-persist_locked c o (set_records d w)) in
              let saved_ = saved d (subst (ReadsBack c) left reads) in grind (arith, there, saved_)
        ]

-- What a call returns.
abbrev pub result_of : Codec → Call → World → Result Error Record
result_of c (starts o now id kind actor role target) w =
    (start c o now id kind actor role target w).0
result_of c (finishes o now id status error_code) w = (finish c o now id status error_code w).0

abbrev pub write_of : Call → Outcome
write_of (starts o now id kind actor role target) = o
write_of (finishes o now id status error_code) = o

path-after_call : (c : Codec) (x : Call) (w : World) → (after_call c x w).store.path ≡ w.store.path
unfolding start finish persist_locked
path-after_call c (starts o now id kind actor role target) w = grind arith
path-after_call c (finishes o now id status error_code) w = grind arith

after_call-IsSaved :
    (c : Codec) (x : Call) (w : World) (rec : Record)
    → Dict.get w.files (write_of x).temp ≡ none
    → (write_of x).temp ≢ w.store.path
    → w.store.doc.schema ≡ schema_version
    → ReadsBack c (after_call c x w).store.doc
    → result_of c x w ≡ ok rec
    → IsSaved c (after_call c x w)
after_call-IsSaved c (starts o now id kind actor role target) w rec new apart schema reads h =
    start-IsSaved c o w new apart schema now id kind actor role target rec reads h
after_call-IsSaved c (finishes o now id status error_code) w rec new apart schema reads h =
    finish-IsSaved c o w new apart schema now id status error_code rec reads h

-- A call of `Start` or `Finish` that returns no error is durable: a store that is opened afterwards on the
-- same directory has exactly the records that the call left in memory, of which those that were running
-- are interrupted, as of the time of the restart, with the error code `process_restarted`. (The name of the temporary file is new, the schema is the supported one, and the JSON
-- that is written is read back.)
pub open_store-after_call :
    (p : Platform) (c : Codec) (x : Call) (o : Outcome) (made : Bool) (now : ℕ) (dir : Text)
    (w : World) (rec : Record) (s : Store)
    → Dict.get w.files (write_of x).temp ≡ none
    → (write_of x).temp ≢ w.store.path
    → w.store.doc.schema ≡ schema_version
    → ReadsBack c (after_call c x w).store.doc
    → w.store.path ≡ p.path_join dir (codes "operations.json")
    → result_of c x w ≡ ok rec
    → (open_store p c o made now dir (after_call c x w).files).0 ≡ ok s
    → (k : Text)
    → Dict.get s.doc.records k
      ≡ map_option (after_restart now) (Dict.get (records (after_call c x w)) k)
open_store-after_call p c x o made now dir w rec s new apart schema reads there h opens k =
    let after = after_call c x w in
    let (d, loads, none_runs, kept) =
      open_store-interrupted p c o made now dir after.files s opens in
    let same : after.store.path ≡ s.path =
      path-after_call c x w
      ∙ there
      ∙ sym (path-open_store p c o made now dir after.files s opens) in
    let is_saved = after_call-IsSaved c x w rec new apart schema reads h in
    let both : ok d ≡ ok (records after) =
      sym loads
      ∙ ap (λ path. supported (read_document c (read_file after.files path))) (sym same)
      ∙ is_saved in
    let one : d ≡ records after = cc both in
    kept k
    ∙ map_option-interrupt now (Dict.get d k)
    ∙ ap (λ (z : Dict Record). map_option (after_restart now) (Dict.get z k)) one
