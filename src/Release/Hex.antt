-- ===== src/Release/Hex.antt =====
-- `hex.EncodeToString`
use srv_deployment.Prelude.{
  ℕ, ◌+◌, ◌-◌, ◌/◌, ◌%◌, ◌<◌, ◌≡◌, refl, [], ◌∷◌, arith, ltb, Text, if◌then◌else◌,
}
use srv_deployment.Strings.Base64.{IsBytes}

abbrev digit : ℕ → ℕ
digit n = if ltb n 10 then b'0' + n else b'a' + (n - 10)

unfoldable pub hex_encode : Text → Text
hex_encode [] = []
hex_encode (c ∷ s) = digit (c / 16) ∷ digit (c % 16) ∷ hex_encode s

digit-inj : (m n : ℕ) → m < 16 → n < 16 → digit m ≡ digit n → m ≡ n
digit-inj m n hm hn h = ground arith

byte-inj :
    (c d : ℕ)
    → c < 256
    → d < 256
    → digit (c / 16) ≡ digit (d / 16)
    → digit (c % 16) ≡ digit (d % 16)
    → c ≡ d
byte-inj c d hc hd h k =
    let high = digit-inj (c / 16) (d / 16) (omega arith) (omega arith) h in
    let low = digit-inj (c % 16) (d % 16) (omega arith) (omega arith) k in omega (arith, high, low)

-- Two texts of bytes with the same digits are the same.
pub hex_encode_inj : (s t : Text) → IsBytes s → IsBytes t → hex_encode s ≡ hex_encode t → s ≡ t
unfolding hex_encode
hex_encode_inj [] [] hs ht e = refl
hex_encode_inj [] (d ∷ t) hs ht e = absurd (cc)
hex_encode_inj (c ∷ s) [] hs ht e = absurd (cc)
hex_encode_inj (c ∷ s) (d ∷ t) hs ht e = ground (arith, byte-inj c d, hex_encode_inj s t)
