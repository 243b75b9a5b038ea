-- ===== src/Sort.antt =====
-- `sort.Slice`: one order of the elements that the comparison allows. The sort is stable here, which
-- `sort.Slice` does not promise; the elements of a map come in any order, and so do equal ones.
use mathlib.Core.List.{Perm}
use mathlib.Core.List.Perm
use srv_deployment.Prelude.{
  ◌≡◌, inl, inr, Bool, true, false, List, [], ◌∷◌, arith, Bool-cases, if◌then◌else◌,
}

module _ {A : Type 0} (less : A → A → Bool) where
  unfoldable pub insert : A → List A → List A
  insert x [] = x ∷ []
  insert x (y ∷ ys) = let rest = insert x ys in if less y x then y ∷ rest else x ∷ y ∷ ys

  unfoldable pub sort : List A → List A
  sort [] = []
  sort (x ∷ xs) = insert x (sort xs)

  insert-perm : (x : A) (ys : List A) → Perm (insert x ys) (x ∷ ys)
  unfolding insert
  insert-perm x [] = Perm.refl (x ∷ [])
  insert-perm x (y ∷ ys) = elim (Bool-cases (less y x)) [
    | inl e ↦ rw e (Perm.trans (Perm.cons y (insert-perm x ys)) (Perm.swap x y ys))
    | inr e ↦ rw e (Perm.refl (x ∷ y ∷ ys))
  ]

  pub sort-perm : (xs : List A) → Perm (sort xs) xs
  unfolding sort
  sort-perm [] = Perm.refl []
  sort-perm (x ∷ xs) = Perm.trans (insert-perm x (sort xs)) (Perm.cons x (sort-perm xs))

  -- No element is before one that it is less than.
  abbrev pub IsAtMost : A → List A → Type 0
  IsAtMost x [] = Unit
  IsAtMost x (y ∷ ys) = (less y x ≡ false) × IsAtMost x ys

  abbrev pub IsSorted : List A → Type 0
  IsSorted [] = Unit
  IsSorted (x ∷ xs) = IsAtMost x xs × IsSorted xs

pub record IsWeakOrder {A : Type 0} (less : A → A → Bool) : Type 0 where
  pub asymm : (x y : A) → less x y ≡ true → less y x ≡ false
  pub trans : (x y z : A) → less y x ≡ false → less z y ≡ false → less z x ≡ false

module _ {A : Type 0} {less : A → A → Bool} (o : IsWeakOrder less) where
  IsAtMost-trans :
      (x y : A) (ys : List A) → less y x ≡ false → IsAtMost less y ys → IsAtMost less x ys
  IsAtMost-trans x y [] h k = tt
  IsAtMost-trans x y (z ∷ zs) h k = (o.trans x y z h k.0, IsAtMost-trans x y zs h k.1)

  IsAtMost-insert :
      (x y : A) (ys : List A)
      → less y x ≡ false
      → IsAtMost less x ys
      → IsAtMost less x (insert less y ys)
  unfolding insert
  IsAtMost-insert x y [] h k = (h, tt)
  IsAtMost-insert x y (z ∷ zs) h k = ground (arith, IsAtMost-insert x y zs h k.1)

  insert-IsSorted : (x : A) (ys : List A) → IsSorted less ys → IsSorted less (insert less x ys)
  unfolding insert
  insert-IsSorted x [] h = (tt, tt)
  insert-IsSorted x (y ∷ ys) (h, hs) = elim (Bool-cases (less y x)) [
    | inl e ↦ rw e (IsAtMost-insert y x ys (o.asymm y x e) h, insert-IsSorted x ys hs)
    | inr e ↦ rw e ((e, IsAtMost-trans x y ys e h), (h, hs))
  ]

  pub sort-IsSorted : (xs : List A) → IsSorted less (sort less xs)
  unfolding sort
  sort-IsSorted [] = tt
  sort-IsSorted (x ∷ xs) = insert-IsSorted x (sort less xs) (sort-IsSorted xs)
