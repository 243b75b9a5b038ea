-- ===== src/Strings/Base64/RoundTrip.antt =====
-- Decoding undoes encoding, on all bytes.
use srv_deployment.Prelude.{
  ℕ, ◌+◌, ◌*◌, ◌/◌, ◌%◌, ◌<◌, ◌≡◌, refl, ◌≢◌, true, some, List, [], ◌∷◌, map, arith, Text,
}
use srv_deployment.Strings.Split.{lacks}
use srv_deployment.Strings.Base64.{
  Alphabet, std, url, digit, value, values, bytes, encode, decode, IsBytes,
}

sextets : Text → List ℕ
sextets [] = []
sextets (x ∷ []) = (x / 4) ∷ (x % 4 * 16) ∷ []
sextets (x ∷ y ∷ []) = (x / 4) ∷ (x % 4 * 16 + y / 16) ∷ (y % 16 * 4) ∷ []
sextets (x ∷ y ∷ z ∷ s) =
    (x / 4) ∷ (x % 4 * 16 + y / 16) ∷ (y % 16 * 4 + z / 64) ∷ (z % 64) ∷ sextets s

abbrev AreSextets : List ℕ → Type 0
AreSextets [] = Unit
AreSextets (v ∷ vs) = (v < 64) × AreSextets vs

sextets-small : (s : Text) → IsBytes s → AreSextets (sextets s)
unfolding sextets
sextets-small [] h = tt
sextets-small (x ∷ []) h = omega arith
sextets-small (x ∷ y ∷ []) h = omega arith
sextets-small (x ∷ y ∷ z ∷ s) (hx, (hy, (hz, hs))) =
    (omega arith, (omega arith, (omega arith, (omega arith, sextets-small s hs))))

encode-sextets : (a : Alphabet) (s : Text) → encode a s ≡ map (digit a) (sextets s)
unfolding sextets encode
encode-sextets a [] = refl
encode-sextets a (x ∷ []) = refl
encode-sextets a (x ∷ y ∷ []) = refl
encode-sextets a (x ∷ y ∷ z ∷ s) = rw (encode-sextets a s)

bytes-sextets : (s : Text) → IsBytes s → bytes (sextets s) ≡ some s
unfolding sextets bytes
bytes-sextets [] h = refl
bytes-sextets (x ∷ []) h = ground arith
bytes-sextets (x ∷ y ∷ []) h = ground arith
bytes-sextets (x ∷ y ∷ z ∷ s) (hx, (hy, (hz, hs))) = rw (bytes-sextets s hs) (ground arith)

-- An alphabet whose last two digits differ from the others and are no line breaks.
pub record IsSound (a : Alphabet) : Type 0 where
  pub value-digit : (n : ℕ) → n < 64 → value a (digit a n) ≡ some n
  pub no_break : (n : ℕ) → n < 64 → (digit a n ≢ 10) × (digit a n ≢ 13)

pub std-IsSound : IsSound std
unfolding value digit
std-IsSound = record { value-digit = λ n h. ground arith; no_break = λ n h. ground arith }

pub url-IsSound : IsSound url
unfolding value digit
url-IsSound = record { value-digit = λ n h. ground arith; no_break = λ n h. ground arith }

values-digits :
    {a : Alphabet} (sound : IsSound a) (vs : List ℕ)
    → AreSextets vs
    → values a (map (digit a) vs) ≡ some vs
unfolding values
values-digits sound [] h = refl
values-digits sound (v ∷ vs) (hv, hvs) =
    ground (arith, sound.value-digit v hv, sound.no_break v hv, values-digits sound vs hvs)

-- Decoding an encoded text gives its bytes back.
pub decode-encode :
    {a : Alphabet} (sound : IsSound a) (s : Text) → IsBytes s → decode a (encode a s) ≡ some s
unfolding decode
decode-encode {a} sound s h =
    rw (encode-sextets a s, values-digits sound (sextets s) (sextets-small s h)) (bytes-sextets s h)

lacks-digits : (vs : List ℕ) → AreSextets vs → lacks b'$' (map (digit std) vs) ≡ true
unfolding lacks digit
lacks-digits [] h = refl
lacks-digits (v ∷ vs) (hv, hvs) = ground (arith, lacks-digits vs hvs)

-- A dollar sign never stands in an encoded text.
pub lacks-encode : (s : Text) → IsBytes s → lacks b'$' (encode std s) ≡ true
lacks-encode s h = rw (encode-sextets std s) (lacks-digits (sextets s) (sextets-small s h))
