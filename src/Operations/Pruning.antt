-- ===== src/Operations/Pruning.antt =====
-- Pruning keeps the newest thousand records.
use srv_deployment.Prelude.{
  ℕ, zero, suc, ◌+◌, ◌-◌, ◌≤◌, ◌≡◌, refl, true, false, none, some, List, [], ◌∷◌, arith, leb, Text,
  if◌then◌else◌, length, take, length-take_of_le,
}
use srv_deployment.Dict
use srv_deployment.Dict.{Dict, IsMap, get-remove, remove-IsMap}
use srv_deployment.Sort.{sort, insert, IsSorted, IsAtMost, sort-IsSorted, IsWeakOrder}
use srv_deployment.State.Listing.{values}
use srv_deployment.Operations.{Record, before, delete_all, prune, max_records}
use srv_deployment.Operations.Listed.{
  AreRecords, AllIn, has_id, AreDistinct, oldest_first, IsListing-oldest_first,
}

remove_absent : (d : Dict Record) (k : Text) → Dict.get d k ≡ none → Dict.remove d k ≡ d
unfolding Dict.get Dict.remove
remove_absent [] k h = refl
remove_absent ((j, r) ∷ d) k h = ground (arith, remove_absent d k)

length-remove :
    (d : Dict Record) (k : Text) (r : Record)
    → IsMap d
    → Dict.get d k ≡ some r
    → length (Dict.remove d k) + 1 ≡ length d
unfolding Dict.get Dict.remove
length-remove [] k r m h = ground arith
length-remove ((j, q) ∷ d) k r m h = ground (arith, length-remove d k r m.1, remove_absent d k)

AllIn-remove :
    (d : Dict Record) (k : Text) (rs : List Record)
    → has_id k rs ≡ false
    → AllIn d rs
    → AllIn (Dict.remove d k) rs
unfolding AllIn has_id
AllIn-remove d k [] h a = tt
AllIn-remove d k (r ∷ rs) h a =
    (ground (arith, get-remove d k r.id), AllIn-remove d k rs (ground arith) a.1)

length-delete_all :
    (rs : List Record) (d : Dict Record)
    → IsMap d
    → AllIn d rs
    → AreDistinct rs
    → length (delete_all rs d) + length rs ≡ length d
unfolding delete_all AllIn
length-delete_all [] d m a s = omega arith
length-delete_all (r ∷ rs) d m a s = omega (
  arith,
  length-remove d r.id r m a.0,
  length-delete_all rs (Dict.remove d r.id) (remove-IsMap d r.id m) (AllIn-remove d r.id rs s.0 a.1)
      s.1,
)

pub get-delete_all :
    (rs : List Record) (d : Dict Record) (k : Text)
    → Dict.get (delete_all rs d) k ≡ (if has_id k rs then none else Dict.get d k)
unfolding delete_all has_id
get-delete_all [] d k = refl
get-delete_all (r ∷ rs) d k =
    ground (arith, get-delete_all rs (Dict.remove d r.id) k, get-remove d r.id k)

AllIn-take : (n : ℕ) (d : Dict Record) (rs : List Record) → AllIn d rs → AllIn d (take n rs)
unfolding AllIn
AllIn-take zero d rs h = tt
AllIn-take (suc n) d [] h = tt
AllIn-take (suc n) d (r ∷ rs) h = (h.0, AllIn-take n d rs h.1)

has_id-take :
    (n : ℕ) (k : Text) (rs : List Record) → has_id k rs ≡ false → has_id k (take n rs) ≡ false
unfolding has_id
has_id-take zero k rs h = refl
has_id-take (suc n) k [] h = refl
has_id-take (suc n) k (r ∷ rs) h = ground (arith, has_id-take n k rs)

AreDistinct-take : (n : ℕ) (rs : List Record) → AreDistinct rs → AreDistinct (take n rs)
AreDistinct-take zero rs h = tt
AreDistinct-take (suc n) [] h = tt
AreDistinct-take (suc n) (r ∷ rs) h = (has_id-take n r.id rs h.0, AreDistinct-take n rs h.1)

length-insert : (r : Record) (rs : List Record) → length (insert before r rs) ≡ suc (length rs)
unfolding insert
length-insert r [] = refl
length-insert r (q ∷ rs) = ground (arith, length-insert r rs)

length-oldest_first : (d : Dict Record) → length (oldest_first d) ≡ length d
unfolding sort
length-oldest_first [] = refl
length-oldest_first ((k, r) ∷ d) =
    omega (arith, length-insert r (oldest_first d), length-oldest_first d)

-- After pruning there are at most a thousand records: as many as before, or exactly a thousand.
pub length-prune :
    (d : Dict Record)
    → AreRecords d
    → length (prune d) ≡ (if leb (length d) max_records then length d else max_records)
unfolding prune
length-prune d h =
    let all = oldest_first d in
    let l = IsListing-oldest_first d h in
    let n = length all - max_records in
    ground (
      arith,
      length-delete_all (take n all) d h.0 (AllIn-take n d all l.held)
          (AreDistinct-take n all l.distinct),
      length-take_of_le n all (omega arith),
      length-oldest_first d,
    )

-- Where two records are under consideration: the one that a sorted list has among its first comes
-- no later than the one that is not among them.
IsAtMost-held :
    (d : Dict Record) (x : Record) (rs : List Record) (k : Text) (q : Record)
    → IsAtMost before x rs
    → AllIn d rs
    → has_id k rs ≡ true
    → Dict.get d k ≡ some q
    → x.started_at ≤ q.started_at
unfolding AllIn has_id
IsAtMost-held d x [] k q s a i h = cc
IsAtMost-held d x (r ∷ rs) k q s a i h = ground (arith, IsAtMost-held d x rs k q s.1 a.1)

first_no_later :
    (n : ℕ) (d : Dict Record) (rs : List Record) (k j : Text) (r q : Record)
    → IsSorted before rs
    → AllIn d rs
    → has_id k (take n rs) ≡ true
    → has_id j (take n rs) ≡ false
    → has_id j rs ≡ true
    → Dict.get d k ≡ some r
    → Dict.get d j ≡ some q
    → r.started_at ≤ q.started_at
unfolding AllIn has_id
first_no_later zero d rs k j r q s a i i' i'' h h' = absurd (cc)
first_no_later (suc n) d [] k j r q s a i i' i'' h h' = absurd (cc)
first_no_later (suc n) d (x ∷ rs) k j r q s a i i' i'' h h' =
    ground (arith, IsAtMost-held d x rs j q s.0 a.1, first_no_later n d rs k j r q s.1 a.1)

before-IsWeakOrder : IsWeakOrder before
before-IsWeakOrder = record { asymm = λ x y h. ground arith; trans = λ x y z h k. ground arith }

-- Pruning removes the oldest: a record that it removes did not start after one that it keeps, and
-- what it keeps is unchanged.
pub prune-oldest :
    (d : Dict Record) (k j : Text) (r q : Record)
    → AreRecords d
    → Dict.get d k ≡ some r
    → Dict.get (prune d) k ≡ none
    → Dict.get (prune d) j ≡ some q
    → (Dict.get d j ≡ some q) × (r.started_at ≤ q.started_at)
unfolding prune
prune-oldest d k j r q h held gone kept =
    let all = oldest_first d in
    let l = IsListing-oldest_first d h in
    let n = length all - max_records in
    (
      ground (arith, get-delete_all (take n all) d j),
      ground (
        arith,
        get-delete_all (take n all) d k,
        get-delete_all (take n all) d j,
        l.complete j,
        first_no_later n d all k j r q (sort-IsSorted before-IsWeakOrder (values d)) l.held,
      ),
    )
