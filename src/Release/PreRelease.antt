-- ===== src/Release/PreRelease.antt =====
-- The comparison of prerelease identifiers is a strict total order.
use srv_deployment.Prelude.{◌≡◌, refl, ◌⊎◌, List, [], ◌∷◌, arith, Text, pos, neg, minus_one}
use srv_deployment.Release.Order.{IsOrder}
use srv_deployment.Release.Identifier.{compare_identifier-IsOrder, compare_identifier}
use srv_deployment.Release.Version.{compare_identifiers, compare_pre}

identifier : IsOrder compare_identifier
identifier = compare_identifier-IsOrder

identifiers-sign :
    (a b : List Text)
    → (compare_identifiers a b ≡ minus_one)
      ⊎ (compare_identifiers a b ≡ pos 0)
      ⊎ (compare_identifiers a b ≡ pos 1)
unfolding compare_identifiers
identifiers-sign [] [] = ground arith
identifiers-sign [] (b ∷ bs) = ground arith
identifiers-sign (a ∷ as') [] = ground arith
identifiers-sign (a ∷ as') (b ∷ bs) = ground (arith, identifiers-sign as' bs, identifier.sign a b)

identifiers-flip : (a b : List Text) → compare_identifiers b a ≡ neg (compare_identifiers a b)
unfolding compare_identifiers
identifiers-flip [] [] = refl
identifiers-flip [] (b ∷ bs) = refl
identifiers-flip (a ∷ as') [] = refl
identifiers-flip (a ∷ as') (b ∷ bs) =
    ground (arith, identifiers-flip as' bs, identifier.flip a b, identifier.sign a b)

identifiers-eq : (a b : List Text) → compare_identifiers a b ≡ pos 0 → a ≡ b
unfolding compare_identifiers
identifiers-eq [] [] h = refl
identifiers-eq [] (b ∷ bs) h = ground arith
identifiers-eq (a ∷ as') [] h = ground arith
identifiers-eq (a ∷ as') (b ∷ bs) h =
    ground (arith, identifiers-eq as' bs, identifier.eq_of_zero a b, identifier.sign a b)

identifiers_trans :
    (a b c : List Text)
    → compare_identifiers a b ≡ minus_one
    → compare_identifiers b c ≡ minus_one
    → compare_identifiers a c ≡ minus_one
unfolding compare_identifiers
identifiers_trans [] [] c h k = ground arith
identifiers_trans [] (b ∷ bs) [] h k = ground arith
identifiers_trans [] (b ∷ bs) (c ∷ cs) h k = refl
identifiers_trans (a ∷ as') [] c h k = ground arith
identifiers_trans (a ∷ as') (b ∷ bs) [] h k = ground arith
identifiers_trans (a ∷ as') (b ∷ bs) (c ∷ cs) h k = ground (
  arith,
  identifiers_trans as' bs cs,
  identifier.trans a b c,
  identifier.eq_of_zero a b,
  identifier.eq_of_zero b c,
  identifier.sign a b,
  identifier.sign b c,
)

pre-sign :
    (a b : List Text)
    → (compare_pre a b ≡ minus_one) ⊎ (compare_pre a b ≡ pos 0) ⊎ (compare_pre a b ≡ pos 1)
unfolding compare_pre
pre-sign [] [] = ground arith
pre-sign [] (b ∷ bs) = ground arith
pre-sign (a ∷ as') [] = ground arith
pre-sign (a ∷ as') (b ∷ bs) = identifiers-sign (a ∷ as') (b ∷ bs)

pre-flip : (a b : List Text) → compare_pre b a ≡ neg (compare_pre a b)
unfolding compare_pre
pre-flip [] [] = refl
pre-flip [] (b ∷ bs) = refl
pre-flip (a ∷ as') [] = refl
pre-flip (a ∷ as') (b ∷ bs) = identifiers-flip (a ∷ as') (b ∷ bs)

pre-eq : (a b : List Text) → compare_pre a b ≡ pos 0 → a ≡ b
unfolding compare_pre
pre-eq [] [] h = refl
pre-eq [] (b ∷ bs) h = ground arith
pre-eq (a ∷ as') [] h = ground arith
pre-eq (a ∷ as') (b ∷ bs) h = identifiers-eq (a ∷ as') (b ∷ bs) h

pre_trans :
    (a b c : List Text)
    → compare_pre a b ≡ minus_one
    → compare_pre b c ≡ minus_one
    → compare_pre a c ≡ minus_one
unfolding compare_pre
pre_trans [] [] c h k = ground arith
pre_trans [] (b ∷ bs) c h k = ground arith
pre_trans (a ∷ as') [] [] h k = ground arith
pre_trans (a ∷ as') [] (c ∷ cs) h k = ground arith
pre_trans (a ∷ as') (b ∷ bs) [] h k = refl
pre_trans (a ∷ as') (b ∷ bs) (c ∷ cs) h k = identifiers_trans (a ∷ as') (b ∷ bs) (c ∷ cs) h k

pub compare_pre-IsOrder : IsOrder compare_pre
compare_pre-IsOrder = record {
  sign = pre-sign;
  flip = pre-flip;
  eq_of_zero = pre-eq;
  trans = pre_trans;
}
