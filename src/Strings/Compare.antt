-- ===== src/Strings/Compare.antt =====
-- Go's `<` on strings.
use srv_deployment.Prelude.{
  ◌≡◌, refl, inl, inr, Bool, true, false, [], ◌∷◌, arith, ltb, Text, Bool-cases, if◌then◌else◌,
}
use srv_deployment.Sort.{IsWeakOrder}

-- `a < b` on strings: bytewise.
unfoldable pub text_lt : Text → Text → Bool
text_lt [] [] = false
text_lt [] (y ∷ ys) = true
text_lt (x ∷ xs) [] = false
text_lt (x ∷ xs) (y ∷ ys) = if ltb x y then true else if ltb y x then false else text_lt xs ys

pub text_lt-asymm : (a b : Text) → text_lt a b ≡ true → text_lt b a ≡ false
unfolding text_lt
text_lt-asymm [] [] h = refl
text_lt-asymm [] (y ∷ ys) h = refl
text_lt-asymm (x ∷ xs) [] h = ground arith
text_lt-asymm (x ∷ xs) (y ∷ ys) h = ground (arith, text_lt-asymm xs ys)

pub text_lt-total : (a b : Text) → text_lt a b ≡ false → text_lt b a ≡ false → a ≡ b
unfolding text_lt
text_lt-total [] [] h k = refl
text_lt-total [] (y ∷ ys) h k = ground arith
text_lt-total (x ∷ xs) [] h k = ground arith
text_lt-total (x ∷ xs) (y ∷ ys) h k = ground (arith, text_lt-total xs ys)

pub text_lt_trans : (a b c : Text) → text_lt a b ≡ true → text_lt b c ≡ true → text_lt a c ≡ true
unfolding text_lt
text_lt_trans [] [] c h k = ground arith
text_lt_trans [] (y ∷ ys) [] h k = ground arith
text_lt_trans [] (y ∷ ys) (z ∷ zs) h k = refl
text_lt_trans (x ∷ xs) [] c h k = ground arith
text_lt_trans (x ∷ xs) (y ∷ ys) [] h k = ground arith
text_lt_trans (x ∷ xs) (y ∷ ys) (z ∷ zs) h k = ground (arith, text_lt_trans xs ys zs)

text_lt-not_trans : (a b c : Text) → text_lt b a ≡ false → text_lt c b ≡ false → text_lt c a ≡ false
text_lt-not_trans a b c h k = elim (Bool-cases (text_lt c a)) [
  | inr e ↦ e
  | inl e ↦ elim (Bool-cases (text_lt a b)) [
    | inl f ↦ cc (text_lt_trans c a b e f)
    | inr f ↦ let same = text_lt-total a b f h in cc
  ]
]

pub text_lt-IsWeakOrder : IsWeakOrder text_lt
text_lt-IsWeakOrder = record { asymm = text_lt-asymm; trans = text_lt-not_trans }
