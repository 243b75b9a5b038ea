-- ===== src/Release/Value.antt =====
-- `compareNumericIdentifier` compares the numbers that the digits denote.
use srv_deployment.Prelude.{
  ℕ, zero, suc, ◌+◌, ◌-◌, ◌*◌, ◌^◌, ◌≤◌, ◌<◌, ◌≡◌, refl, sym, ap, true, [], ◌∷◌, arith, ltb, Text,
  if◌then◌else◌, length, dec_lt, ℤ, pos, minus_one,
}
use srv_deployment.Strings.Compare.{text_lt}
use srv_deployment.Release.Identifier.{is_digit, all_digits, compare_numeric_identifier}
use srv_deployment.Release.Pattern.{is_canonical}

-- The number that digits denote.
unfoldable pub value : Text → ℕ
value [] = 0
value (c ∷ s) = (c - b'0') * 10 ^ length s + value s

abbrev pub compare_nat : ℕ → ℕ → ℤ
compare_nat m n = if ltb m n then minus_one else if ltb n m then pos 1 else pos 0

weighted : (d e w : ℕ) → d < e → d * w + w ≤ e * w
weighted d zero w h = absurd (omega arith)
weighted d (suc e) w h = elim (dec_lt d e) [
  | yes lt ↦ grind (arith, weighted d e w lt)
  | no ge ↦ (let same : d ≡ e = omega (arith, ge) in rw same (omega arith))
]

pow-le : (m n : ℕ) → m ≤ n → 10 ^ m ≤ 10 ^ n
pow-le m zero h = grind arith
pow-le m (suc n) h = elim (dec_lt n m) [
  | yes gt ↦ (let same : m ≡ suc n = omega arith in rw same (omega arith))
  | no le ↦ grind (arith, pow-le m n (omega (arith, le)))
]

value-lt : (s : Text) → all_digits s ≡ true → value s < 10 ^ length s
unfolding value all_digits
value-lt [] h = omega arith
value-lt (c ∷ s) h = grind (arith, weighted (c - 48) 10 (10 ^ length s), value-lt s)

-- A number of several digits does not start with 0.
canonical-le :
    (c d : ℕ) (s : Text)
    → is_canonical (c ∷ d ∷ s) ≡ true
    → all_digits (c ∷ d ∷ s) ≡ true
    → 10 ^ length (d ∷ s) ≤ value (c ∷ d ∷ s)
unfolding value all_digits is_canonical
canonical-le c d s h k = grind (arith, weighted 0 (c - 48) (10 ^ length (d ∷ s)))

shorter-lt :
    (a b : Text)
    → all_digits a ≡ true
    → all_digits b ≡ true
    → is_canonical a ≡ true
    → is_canonical b ≡ true
    → length a < length b
    → value a < value b
unfolding is_canonical
shorter-lt a [] ha hb ca cb h = absurd (omega arith)
shorter-lt [] (d ∷ []) ha hb ca cb h = absurd (cc)
shorter-lt (c ∷ a) (d ∷ []) ha hb ca cb h = absurd (omega arith)
shorter-lt a (d ∷ e ∷ b) ha hb ca cb h = omega (
  arith,
  value-lt a ha,
  canonical-le d e b cb hb,
  pow-le (length a) (length (e ∷ b)) (omega arith),
)

split_digits :
    (c : ℕ) (s : Text) → all_digits (c ∷ s) ≡ true → (is_digit c ≡ true) × (all_digits s ≡ true)
unfolding all_digits
split_digits c s h = (ground arith, ground arith)

text_lt-value :
    (a b : Text)
    → all_digits a ≡ true
    → all_digits b ≡ true
    → length a ≡ length b
    → text_lt a b ≡ ltb (value a) (value b)
unfolding text_lt value all_digits
text_lt-value [] [] ha hb h = refl
text_lt-value [] (d ∷ b) ha hb h = absurd (omega arith)
text_lt-value (c ∷ a) [] ha hb h = absurd (omega arith)
text_lt-value (c ∷ a) (d ∷ b) ha hb h =
    let same : length a ≡ length b = omega (arith, h) in
    let (c_digit, a_digits) = split_digits c a ha in
    let (d_digit, b_digits) = split_digits d b hb in
    let w = 10 ^ length b in
    let small : value a < w = rw (sym (ap (λ n. 10 ^ n) same)) (value-lt a a_digits) in
    rw (same, text_lt-value a b a_digits b_digits same)
      (ground (
        arith,
        small,
        value-lt b b_digits,
        weighted (c - 48) (d - 48) w,
        weighted (d - 48) (c - 48) w,
      ))

-- Numbers without leading zeros are compared by their values.
pub compare_numeric_identifier-value :
    (a b : Text)
    → all_digits a ≡ true
    → all_digits b ≡ true
    → is_canonical a ≡ true
    → is_canonical b ≡ true
    → compare_numeric_identifier a b ≡ compare_nat (value a) (value b)
unfolding compare_numeric_identifier
compare_numeric_identifier-value a b ha hb ca cb = grind (
  arith,
  shorter-lt a b ha hb ca cb,
  shorter-lt b a hb ha cb ca,
  text_lt-value a b ha hb,
  text_lt-value b a hb ha,
)
