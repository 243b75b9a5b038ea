-- ===== src/Release/Identifier.antt =====
-- The identifiers of a version: `isDigits`, `compareNumericIdentifier`, and the comparison of two
-- prerelease identifiers.
use srv_deployment.Prelude.{
  ℕ, Bool, true, false, not, ◌&&◌, [], ◌∷◌, arith, ltb, leb, Text, if◌then◌else◌, length, ℤ, pos,
  minus_one,
}
use srv_deployment.Strings.Compare.{text_lt, text_lt-asymm, text_lt-total, text_lt_trans}
use srv_deployment.Release.Order.{IsOrder}

abbrev pub is_digit : ℕ → Bool
is_digit r = leb b'0' r && leb r b'9'

unfoldable pub all_digits : Text → Bool
all_digits [] = true
all_digits (r ∷ s) = is_digit r && all_digits s

unfoldable pub is_digits : Text → Bool
is_digits [] = false
is_digits (r ∷ s) = all_digits (r ∷ s)

unfoldable pub compare_text : Text → Text → ℤ
compare_text a b = if text_lt a b then minus_one else if text_lt b a then pos 1 else pos 0

unfoldable pub compare_numeric_identifier : Text → Text → ℤ
compare_numeric_identifier a b =
    if ltb (length a) (length b)
    then minus_one
    else if ltb (length b) (length a)
    then pos 1
    else if text_lt a b
    then minus_one
    else if text_lt b a
    then pos 1
    else pos 0

-- One round of the loop over the prerelease identifiers; 0 goes on with the next round.
unfoldable pub compare_identifier : Text → Text → ℤ
compare_identifier a b =
    let a_numeric = is_digits a in
    let b_numeric = is_digits b in
    if a_numeric && b_numeric
    then compare_numeric_identifier a b
    else if a_numeric && not b_numeric
    then minus_one
    else if not a_numeric && b_numeric
    then pos 1
    else compare_text a b

pub compare_text-IsOrder : IsOrder compare_text
unfolding compare_text
compare_text-IsOrder = record {
  sign = λ a b. ground arith;
  flip = λ a b. ground (arith, text_lt-asymm a b, text_lt-asymm b a);
  eq_of_zero = λ a b h. ground (arith, text_lt-total a b);
  trans = λ a b c h k. ground (arith, text_lt_trans a b c);
}

pub compare_numeric_identifier-IsOrder : IsOrder compare_numeric_identifier
unfolding compare_numeric_identifier
compare_numeric_identifier-IsOrder = record {
  sign = λ a b. ground arith;
  flip = λ a b. ground (arith, text_lt-asymm a b, text_lt-asymm b a);
  eq_of_zero = λ a b h. ground (arith, text_lt-total a b);
  trans = λ a b c h k. ground (arith, text_lt_trans a b c);
}

pub compare_identifier-IsOrder : IsOrder compare_identifier
unfolding compare_identifier
compare_identifier-IsOrder = record {
  sign = λ a b. ground (arith, n.sign a b, t.sign a b);
  flip = λ a b. ground (arith, n.flip a b, t.flip a b);
  eq_of_zero = λ a b h. ground (arith, n.eq_of_zero a b, t.eq_of_zero a b);
  trans = λ a b c h k. ground (arith, n.trans a b c, t.trans a b c);
}
  where
    n : IsOrder compare_numeric_identifier
    n = compare_numeric_identifier-IsOrder

    t : IsOrder compare_text
    t = compare_text-IsOrder
