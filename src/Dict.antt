-- ===== src/Dict.antt =====
-- Go's `map[string]V`.
use srv_deployment.Prelude.{
  ◌≡◌, refl, Bool, Option, none, some, List, [], ◌∷◌, arith, ◌==◌, Text, if◌then◌else◌, text_eq,
  nat_eq, int_eq,
}

abbrev pub Dict {ℓ} : Type ℓ → Type ℓ
Dict V = List (Text × V)

module _ {ℓ} {V : Type ℓ} where
  unfoldable pub get : Dict V → Text → Option V
  get [] k = none
  get ((j, v) ∷ d) k = if j == k then some v else get d k

  unfoldable pub put : Dict V → Text → V → Dict V
  put [] k v = (k, v) ∷ []
  put ((j, w) ∷ d) k v = if j == k then (k, v) ∷ d else (j, w) ∷ put d k v

  unfoldable pub remove : Dict V → Text → Dict V
  remove [] k = []
  remove ((j, w) ∷ d) k = if j == k then remove d k else (j, w) ∷ remove d k

  pub get-put :
      (d : Dict V) (k j : Text) (v : V) → get (put d k v) j ≡ (if k == j then some v else get d j)
  unfolding get put
  get-put [] k j v = refl
  get-put ((i, w) ∷ d) k j v = ground (arith, get-put d k j v)

  pub get-remove :
      (d : Dict V) (k j : Text) → get (remove d k) j ≡ (if k == j then none else get d j)
  unfolding get remove
  get-remove [] k j = ground arith
  get-remove ((i, w) ∷ d) k j = ground (arith, get-remove d k j)

  -- Each key stands once, as in a map.
  abbrev pub IsMap : Dict V → Type ℓ
  IsMap [] = Unit
  IsMap ((k, v) ∷ d) = (get d k ≡ none) × IsMap d

  pub put-IsMap : (d : Dict V) (k : Text) (v : V) → IsMap d → IsMap (put d k v)
  unfolding get put
  put-IsMap [] k v h = (refl, tt)
  put-IsMap ((j, w) ∷ d) k v h = ground (arith, put-IsMap d k v h.1, get-put d k j v)

  pub remove-IsMap : (d : Dict V) (k : Text) → IsMap d → IsMap (remove d k)
  unfolding get remove
  remove-IsMap [] k h = tt
  remove-IsMap ((j, w) ∷ d) k h = ground (arith, remove-IsMap d k h.1, get-remove d k j)

  -- `for k, v := range d { if test(v) { delete(d, k) } }`
  unfoldable pub delete_where : (V → Bool) → Dict V → Dict V
  delete_where test [] = []
  delete_where test ((k, v) ∷ d) =
      let rest = delete_where test d in if test v then rest else (k, v) ∷ rest

  abbrev pub unless : (V → Bool) → Option V → Option V
  unless test none = none
  unless test (some v) = if test v then none else some v

  pub get-delete_where :
      (test : V → Bool) (d : Dict V) (k : Text)
      → IsMap d
      → get (delete_where test d) k ≡ unless test (get d k)
  unfolding get delete_where
  get-delete_where test [] k h = refl
  get-delete_where test ((j, v) ∷ d) k h = ground (arith, get-delete_where test d k h.1)

  pub delete_where-IsMap : (test : V → Bool) (d : Dict V) → IsMap d → IsMap (delete_where test d)
  unfolding get delete_where
  delete_where-IsMap test [] h = tt
  delete_where-IsMap test ((j, v) ∷ d) h =
      ground (arith, delete_where-IsMap test d h.1, get-delete_where test d j h.1)
