-- ===== src/Operations/Listed.antt =====
-- The records of a map, listed oldest first.
use srv_deployment.Prelude.{
  ◌≡◌, refl, ◌∙◌, Bool, true, false, ◌||◌, none, some, List, [], ◌∷◌, arith, ◌==◌, Text, text_eq,
  nat_eq, int_eq,
}
use srv_deployment.Dict
use srv_deployment.Dict.{Dict, IsMap, get-remove, remove-IsMap}
use srv_deployment.Sort.{sort, insert}
use srv_deployment.State.Listing.{values}
use srv_deployment.Operations.{Record, before}

-- Each record stands under its own id, and each id once.
abbrev pub IsKeyed : Dict Record → Type 0
IsKeyed [] = Unit
IsKeyed ((k, r) ∷ d) = (r.id ≡ k) × IsKeyed d

abbrev pub AreRecords : Dict Record → Type 0
AreRecords d = IsMap d × IsKeyed d

-- Every record of the list is the one that the map holds under its id.
unfoldable pub AllIn : Dict Record → List Record → Type 0
AllIn d [] = Unit
AllIn d (r ∷ rs) = (Dict.get d r.id ≡ some r) × AllIn d rs

unfoldable pub has_id : Text → List Record → Bool
has_id k [] = false
has_id k (r ∷ rs) = r.id == k || has_id k rs

abbrev pub AreDistinct : List Record → Type 0
AreDistinct [] = Unit
AreDistinct (r ∷ rs) = (has_id r.id rs ≡ false) × AreDistinct rs

-- All of these hold of the sorted list of a map's records.
pub record IsListing (d : Dict Record) (rs : List Record) : Type 0 where
  pub held : AllIn d rs
  pub distinct : AreDistinct rs
  pub complete : (k : Text) → has_id k rs ≡ (elim (Dict.get d k) [ none ↦ false | some r ↦ true ])

has_id-insert :
    (k : Text) (r : Record) (rs : List Record)
    → has_id k (insert before r rs) ≡ (r.id == k || has_id k rs)
unfolding has_id insert
has_id-insert k r [] = refl
has_id-insert k r (q ∷ rs) = ground (arith, has_id-insert k r rs)

AllIn-insert :
    (d : Dict Record) (r : Record) (rs : List Record)
    → Dict.get d r.id ≡ some r
    → AllIn d rs
    → AllIn d (insert before r rs)
unfolding AllIn insert
AllIn-insert d r [] h k = (h, tt)
AllIn-insert d r (q ∷ rs) h k = ground (arith, AllIn-insert d r rs h k.1)

AreDistinct-insert :
    (r : Record) (rs : List Record)
    → has_id r.id rs ≡ false
    → AreDistinct rs
    → AreDistinct (insert before r rs)
unfolding has_id insert
AreDistinct-insert r [] h k = (refl, tt)
AreDistinct-insert r (q ∷ rs) h k = ground (arith, AreDistinct-insert r rs, has_id-insert q.id r rs)

AllIn-cons :
    (k : Text) (r : Record) (d : Dict Record) (rs : List Record)
    → Dict.get d k ≡ none
    → AllIn d rs
    → AllIn ((k, r) ∷ d) rs
unfolding AllIn Dict.get
AllIn-cons k r d [] h a = tt
AllIn-cons k r d (q ∷ rs) h a = (ground arith, AllIn-cons k r d rs h a.1)

has_id-values :
    (d : Dict Record) (k : Text)
    → IsKeyed d
    → has_id k (values d) ≡ (elim (Dict.get d k) [ none ↦ false | some r ↦ true ])
unfolding has_id Dict.get
has_id-values [] k h = refl
has_id-values ((j, r) ∷ d) k h = ground (arith, has_id-values d k h.1)

has_id-sort : (rs : List Record) (k : Text) → has_id k (sort before rs) ≡ has_id k rs
unfolding has_id sort
has_id-sort [] k = refl
has_id-sort (r ∷ rs) k = ground (arith, has_id-insert k r (sort before rs), has_id-sort rs k)

AllIn-sort : (d : Dict Record) (rs : List Record) → AllIn d rs → AllIn d (sort before rs)
unfolding AllIn sort
AllIn-sort d [] h = tt
AllIn-sort d (r ∷ rs) h = AllIn-insert d r (sort before rs) h.0 (AllIn-sort d rs h.1)

AreDistinct-sort : (rs : List Record) → AreDistinct rs → AreDistinct (sort before rs)
unfolding sort
AreDistinct-sort [] h = tt
AreDistinct-sort (r ∷ rs) h =
    AreDistinct-insert r (sort before rs) (has_id-sort rs r.id ∙ h.0) (AreDistinct-sort rs h.1)

AllIn-values : (d : Dict Record) → AreRecords d → AllIn d (values d)
unfolding AllIn Dict.get
AllIn-values [] h = tt
AllIn-values ((k, r) ∷ d) (m, i) =
    (ground arith, AllIn-cons k r d (values d) m.0 (AllIn-values d (m.1, i.1)))

AreDistinct-values : (d : Dict Record) → AreRecords d → AreDistinct (values d)
unfolding has_id
AreDistinct-values [] h = tt
AreDistinct-values ((k, r) ∷ d) (m, i) =
    (ground (arith, has_id-values d r.id i.1), AreDistinct-values d (m.1, i.1))

abbrev pub oldest_first : Dict Record → List Record
oldest_first d = sort before (values d)

pub IsListing-oldest_first : (d : Dict Record) → AreRecords d → IsListing d (oldest_first d)
IsListing-oldest_first d h = record {
  held = AllIn-sort d (values d) (AllIn-values d h);
  distinct = AreDistinct-sort (values d) (AreDistinct-values d h);
  complete = λ k. has_id-sort (values d) k ∙ has_id-values d k h.1;
}
