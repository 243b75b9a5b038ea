-- ===== src/Strings/Base64.antt =====
-- `encoding/base64` without padding, and its round trip.
pub mod RoundTrip
use srv_deployment.Prelude.{
  ℕ, ◌+◌, ◌-◌, ◌*◌, ◌/◌, ◌%◌, ◌<◌, ◌&&◌, ◌||◌, Option, none, some, List, [], ◌∷◌, ltb, leb, ◌==◌,
  Text, if◌then◌else◌, text_eq, nat_eq, int_eq,
}

-- The last two digits of the alphabet: `+/`, or `-_` in the alphabet for URLs.
pub record Alphabet : Type 0 where
  pub d62 : ℕ
  pub d63 : ℕ

abbrev pub std : Alphabet
std = record { d62 = b'+'; d63 = b'/' }

abbrev pub url : Alphabet
url = record { d62 = b'-'; d63 = b'_' }

unfoldable pub digit : Alphabet → ℕ → ℕ
digit a n =
    if ltb n 26
    then n + b'A'
    else if ltb n 52
    then n - 26 + b'a'
    else if ltb n 62
    then n - 52 + b'0'
    else if n == 62
    then a.d62
    else a.d63

pub value : Alphabet → ℕ → Option ℕ
value a c =
    if leb b'A' c && leb c b'Z'
    then some (c - b'A')
    else if leb b'a' c && leb c b'z'
    then some (c - b'a' + 26)
    else if leb b'0' c && leb c b'9'
    then some (c - b'0' + 52)
    else if c == a.d62
    then some 62
    else if c == a.d63
    then some 63
    else none

-- `EncodeToString`
unfoldable pub encode : Alphabet → Text → Text
encode a [] = []
encode a (x ∷ []) = digit a (x / 4) ∷ digit a (x % 4 * 16) ∷ []
encode a (x ∷ y ∷ []) = digit a (x / 4) ∷ digit a (x % 4 * 16 + y / 16) ∷ digit a (y % 16 * 4) ∷ []
encode a (x ∷ y ∷ z ∷ s) =
    digit a (x / 4)
    ∷ digit a (x % 4 * 16 + y / 16)
    ∷ digit a (y % 16 * 4 + z / 64)
    ∷ digit a (z % 64)
    ∷ encode a s

-- The values of the digits; line breaks are skipped, any other byte is an error.
values : Alphabet → Text → Option (List ℕ)
values a [] = some []
values a (c ∷ s) =
    let rest = values a s in
    if c == 10 || c == 13 then rest else elim (value a c) [
      | none ↦ none
      | some v ↦ elim rest [ none ↦ none | some vs ↦ some (v ∷ vs) ]
    ]

-- The bytes; the spare bits of the last digit are ignored.
bytes : List ℕ → Option Text
bytes [] = some []
bytes (p ∷ []) = none
bytes (p ∷ q ∷ []) = some ((p * 4 + q / 16) ∷ [])
bytes (p ∷ q ∷ r ∷ []) = some ((p * 4 + q / 16) ∷ (q % 16 * 16 + r / 4) ∷ [])
bytes (p ∷ q ∷ r ∷ t ∷ vs) = elim (bytes vs) [
  | none ↦ none
  | some s ↦ some ((p * 4 + q / 16) ∷ (q % 16 * 16 + r / 4) ∷ (r % 4 * 64 + t) ∷ s)
]

abbrev then_bytes : Option (List ℕ) → Option Text
then_bytes none = none
then_bytes (some vs) = bytes vs

-- `DecodeString`
unfoldable pub decode : Alphabet → Text → Option Text
unfolding value values bytes
decode a s = then_bytes (values a s)

abbrev pub IsBytes : Text → Type 0
IsBytes [] = Unit
IsBytes (c ∷ s) = (c < 256) × IsBytes s
