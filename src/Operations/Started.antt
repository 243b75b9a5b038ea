-- ===== src/Operations/Started.antt =====
-- The record of an id that `Start` and `Finish` leave.
use srv_deployment.Prelude.{ℕ, ◌≡◌, ◌≢◌, ◌⊎◌, Option, none, some, arith, Text, Result, ok, err}
use srv_deployment.Dict
use srv_deployment.Dict.{Dict, get-put, get-remove}
use srv_deployment.Files.{Outcome}
use srv_deployment.Operations.{
  Record, World, Error, Codec, Status, records, set_records, status_running, running, prune, start,
  finish,
}
use srv_deployment.Operations.Lifecycle.{records-persist_locked}
use srv_deployment.Operations.Pruning.{get-delete_all}

get-prune :
    (d : Dict Record) (k : Text)
    → (Dict.get (prune d) k ≡ none) ⊎ (Dict.get (prune d) k ≡ Dict.get d k)
unfolding prune
get-prune d k = grind (arith, get-delete_all)

-- What `Start` returns, and the record of its id that it leaves.
abbrev pub IsTracked : Result Error Record → Option Record → Type 0
IsTracked (err x) found = found ≡ none
IsTracked (ok rec) none = Unit
IsTracked (ok rec) (some found) = found.status ≡ status_running

module _ (c : Codec) (o : Outcome) where
  -- A failing `Start` of a new id leaves no record of it, and one that succeeds a running record, unless
  -- it has pruned that at once.
  pub start-IsTracked :
      (now : ℕ) (id kind actor role target : Text) (w : World)
      → Dict.get (records w) id ≡ none
      → IsTracked
          (start c o now id kind actor role target w).0
          (Dict.get (records (start c o now id kind actor role target w).1) id)
  unfolding start
  start-IsTracked now id kind actor role target w h =
      let rec = running id kind actor role target now in
      let d = Dict.put (records w) id rec in
      ground (
        arith,
        get-prune d id,
        get-put (records w) id id rec,
        get-remove (prune d) id id,
        records-persist_locked c o (set_records (prune d) w),
      )

  pub get-finish-none :
      (now : ℕ) (id : Text) (status : Status) (error_code : Text) (w : World)
      → Dict.get (records w) id ≡ none
      → Dict.get (records (finish c o now id status error_code w).1) id ≡ none
  unfolding finish
  get-finish-none now id status error_code w h = grind arith

  -- The record of another id is kept, or pruned.
  pub get-start-other :
      (now : ℕ) (id kind actor role target other : Text) (w : World)
      → id ≢ other
      → (Dict.get (records (start c o now id kind actor role target w).1) other ≡ none)
        ⊎ (Dict.get (records (start c o now id kind actor role target w).1) other
            ≡ Dict.get (records w) other)
  unfolding start
  get-start-other now id kind actor role target other w h =
      let rec = running id kind actor role target now in
      let d = Dict.put (records w) id rec in
      ground (
        arith,
        get-prune d other,
        get-put (records w) id other rec,
        get-remove (prune d) id other,
        records-persist_locked c o (set_records (prune d) w),
      )

  pub get-finish-other :
      (now : ℕ) (id : Text) (status : Status) (error_code other : Text) (w : World)
      → id ≢ other
      → Dict.get (records (finish c o now id status error_code w).1) other
        ≡ Dict.get (records w) other
  unfolding finish
  get-finish-other now id status error_code other w h =
      grind (arith, get-put, records-persist_locked)

  -- A running record of the id is there after a failing `Start` only if it was there before.
  pub get-start-err :
      (now : ℕ) (id kind actor role target : Text) (w : World) (failed : Error) (rec : Record)
      → (start c o now id kind actor role target w).0 ≡ err failed
      → Dict.get (records (start c o now id kind actor role target w).1) id ≡ some rec
      → Dict.get (records w) id ≡ some rec
  unfolding start
  get-start-err now id kind actor role target w failed rec x y =
      let d = Dict.put (records w) id (running id kind actor role target now) in
      let gone : Dict.get (Dict.remove (prune d) id) id ≡ none =
        ground (arith, get-remove (prune d) id id) in
      grind (arith, gone, records-persist_locked c o (set_records (prune d) w))
