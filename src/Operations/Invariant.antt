-- ===== src/Operations/Invariant.antt =====
-- What holds of the records after every operation.
use srv_deployment.Prelude.{
  ℕ, ◌-◌, ◌≤◌, ◌≡◌, refl, inl, inr, some, List, [], ◌∷◌, arith, Text, Option-cases, length, take,
}
use srv_deployment.Dict
use srv_deployment.Dict.{Dict, IsMap, put-IsMap, remove-IsMap}
use srv_deployment.Files.{Outcome}
use srv_deployment.Operations.{
  Record, World, Codec, Status, max_records, records, set_records, running, delete_all, prune,
  start, finish,
}
use srv_deployment.Operations.Lifecycle.{records-persist_locked, terminal}
use srv_deployment.Operations.Listed.{AreRecords, IsKeyed, oldest_first}
use srv_deployment.Operations.Pruning.{length-prune}

-- Each record stands under its id, each id once, and there are at most a thousand.
pub record IsValid (d : Dict Record) : Type 0 where
  pub keyed : AreRecords d
  pub bounded : length d ≤ max_records

put-IsKeyed :
    (d : Dict Record) (k : Text) (r : Record) → r.id ≡ k → IsKeyed d → IsKeyed (Dict.put d k r)
unfolding Dict.put
put-IsKeyed [] k r e h = (e, tt)
put-IsKeyed ((j, q) ∷ d) k r e h = ground (arith, put-IsKeyed d k r e h.1)

remove-IsKeyed : (d : Dict Record) (k : Text) → IsKeyed d → IsKeyed (Dict.remove d k)
unfolding Dict.remove
remove-IsKeyed [] k h = tt
remove-IsKeyed ((j, q) ∷ d) k h = ground (arith, remove-IsKeyed d k h.1)

put-AreRecords :
    (d : Dict Record) (k : Text) (r : Record)
    → r.id ≡ k
    → AreRecords d
    → AreRecords (Dict.put d k r)
put-AreRecords d k r e h = (put-IsMap d k r h.0, put-IsKeyed d k r e h.1)

remove-AreRecords : (d : Dict Record) (k : Text) → AreRecords d → AreRecords (Dict.remove d k)
remove-AreRecords d k h = (remove-IsMap d k h.0, remove-IsKeyed d k h.1)

delete_all-AreRecords :
    (rs : List Record) (d : Dict Record) → AreRecords d → AreRecords (delete_all rs d)
unfolding delete_all
delete_all-AreRecords [] d h = h
delete_all-AreRecords (r ∷ rs) d h =
    delete_all-AreRecords rs (Dict.remove d r.id) (remove-AreRecords d r.id h)

prune-IsValid : (d : Dict Record) → AreRecords d → IsValid (prune d)
unfolding prune
prune-IsValid d h = record {
  keyed = ground (arith, delete_all-AreRecords (take (length all - max_records) all) d h);
  bounded = ground (arith, length-prune d h);
}
  where
    all : List Record
    all = oldest_first d

length-remove-le : (d : Dict Record) (k : Text) → length (Dict.remove d k) ≤ length d
unfolding Dict.remove
length-remove-le [] k = omega arith
length-remove-le ((j, q) ∷ d) k = ground (arith, length-remove-le d k)

remove-IsValid : (d : Dict Record) (k : Text) → IsValid d → IsValid (Dict.remove d k)
remove-IsValid d k h = record {
  keyed = remove-AreRecords d k h.keyed;
  bounded = omega (arith, length-remove-le d k, h.bounded);
}

length-put_old :
    (d : Dict Record) (k : Text) (r q : Record)
    → Dict.get d k ≡ some q
    → length (Dict.put d k r) ≡ length d
unfolding Dict.put Dict.get
length-put_old [] k r q h = absurd (cc)
length-put_old ((j, v) ∷ d) k r q h = ground (arith, length-put_old d k r q)

get-IsKeyed :
    (d : Dict Record) (k : Text) (r : Record) → IsKeyed d → Dict.get d k ≡ some r → r.id ≡ k
unfolding Dict.get
get-IsKeyed [] k r h e = absurd (cc)
get-IsKeyed ((j, q) ∷ d) k r h e = ground (arith, get-IsKeyed d k r h.1)

module _ (c : Codec) (o : Outcome) where
  -- `Start` keeps the records well formed and at most a thousand, however it ends.
  pub start-IsValid :
      (now : ℕ) (id kind actor role target : Text) (w : World)
      → IsValid (records w)
      → IsValid (records (start c o now id kind actor role target w).1)
  unfolding start
  start-IsValid now id kind actor role target w h =
      let added = Dict.put (records w) id (running id kind actor role target now) in
      let pruned =
        prune-IsValid added
          (put-AreRecords (records w) id (running id kind actor role target now) refl h.keyed) in
      let taken_back = remove-IsValid (prune added) id pruned in
      ground (arith, records-persist_locked c o (set_records (prune added) w))

  -- `Finish` keeps the records well formed and at most a thousand, however it ends.
  pub finish-IsValid :
      (now : ℕ) (id : Text) (status : Status) (error_code : Text) (w : World)
      → IsValid (records w)
      → IsValid (records (finish c o now id status error_code w).1)
  unfolding finish
  finish-IsValid now id status error_code w h = elim (Option-cases (Dict.get (records w) id)) [
    | inl e ↦ ground arith
    | inr (r, e) ↦
        let r' = terminal c o status now error_code r in
        let written =
          put-AreRecords (records w) id r' (get-IsKeyed (records w) id r h.keyed.1 e) h.keyed in
        ground (
          arith,
          records-persist_locked c o (set_records (Dict.put (records w) id r') w),
          length-put_old (records w) id r' r e,
        )
  ]

-- A call of one of the two methods that change the records, with the way its write ends.
pub data Call : Type 0 where
  starts : Outcome → (now : ℕ) (id kind actor role target : Text) → Call
  finishes : Outcome → (now : ℕ) (id : Text) (status : Status) (error_code : Text) → Call

abbrev pub after_call : Codec → Call → World → World
after_call c (starts o now id kind actor role target) w =
    (start c o now id kind actor role target w).1
after_call c (finishes o now id status error_code) w = (finish c o now id status error_code w).1

unfoldable pub run_calls : Codec → List Call → World → World
run_calls c [] w = w
run_calls c (x ∷ calls) w = run_calls c calls (after_call c x w)

-- No sequence of calls of `Start` and `Finish`, however their writes end, leaves a key twice, a record
-- under another key than its id, or more than a thousand records, where there was none before.
pub run_calls-IsValid :
    (c : Codec) (calls : List Call) (w : World)
    → IsValid (records w)
    → IsValid (records (run_calls c calls w))
unfolding run_calls
run_calls-IsValid c [] w h = h
run_calls-IsValid c (starts o now id kind actor role target ∷ calls) w h =
    run_calls-IsValid c calls (after_call c (starts o now id kind actor role target) w)
      (start-IsValid c o now id kind actor role target w h)
run_calls-IsValid c (finishes o now id status error_code ∷ calls) w h =
    run_calls-IsValid c calls (after_call c (finishes o now id status error_code) w)
      (finish-IsValid c o now id status error_code w h)
