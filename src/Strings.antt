-- ===== src/Strings.antt =====
-- What the program uses of Go's `strings`, `strconv` and `encoding/base64`.
pub mod Split
pub mod Base64
pub mod Compare
use srv_deployment.Prelude.{
  ℕ, ◌+◌, ◌-◌, ◌*◌, ◌^◌, ◌≡◌, refl, Bool, true, false, ◌&&◌, Option, none, some, List, [], ◌∷◌, ltb,
  leb, ◌==◌, Text, codes, if◌then◌else◌, ℤ, pos, negsuc, neg, text_eq, nat_eq, int_eq,
}

-- `strings.Split(s, sep)` for a separator of one byte
abbrev pub prepend : ℕ → List Text → List Text
prepend c [] = (c ∷ []) ∷ []
prepend c (p ∷ ps) = (c ∷ p) ∷ ps

unfoldable pub split : ℕ → Text → List Text
split sep [] = [] ∷ []
split sep (c ∷ s) = let parts = split sep s in if c == sep then [] ∷ parts else prepend c parts

unfoldable pub all_chars : (ℕ → Bool) → Text → Bool
all_chars p [] = true
all_chars p (r ∷ s) = p r && all_chars p s

-- `strings.TrimPrefix` where `strings.HasPrefix` holds, and `none` where it does not.
unfoldable pub cut_prefix : Text → Text → Option Text
cut_prefix [] s = some s
cut_prefix (c ∷ prefix) [] = none
cut_prefix (c ∷ prefix) (d ∷ s) = let rest = cut_prefix prefix s in if c == d then rest else none

-- `strconv.Atoi`: an optional sign and digits, in the range of an int64; `none` for an error.
digits_value : ℕ → Text → Option ℕ
digits_value n [] = some n
digits_value n (c ∷ s) =
    let rest = digits_value (n * 10 + (c - b'0')) s in
    if leb b'0' c && leb c b'9' then rest else none

unsigned : Text → Option ℕ
unsigned [] = none
unsigned (c ∷ s) = digits_value 0 (c ∷ s)

abbrev signed : Bool → Option ℕ → Option ℤ
signed negative none = none
signed false (some n) = if ltb n (2 ^ 63) then some (pos n) else none
signed true (some n) = if leb n (2 ^ 63) then some (neg (pos n)) else none

unfoldable pub atoi : Text → Option ℤ
unfolding unsigned digits_value
atoi [] = none
atoi (c ∷ s) =
    if c == b'-'
    then signed true (unsigned s)
    else if c == b'+'
    then signed false (unsigned s)
    else signed false (unsigned (c ∷ s))

atoi_run :
    (atoi (codes "600000") ≡ some (pos 600000))
    × (atoi (codes "-12") ≡ some (negsuc 11))
    × (atoi (codes "1x") ≡ none)
unfolding atoi
atoi_run = (refl, refl, refl)
