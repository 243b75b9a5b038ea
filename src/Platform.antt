-- ===== src/Platform.antt =====
-- What the program takes from Go's standard library and this development does not define: letter
-- case and blanks of Unicode, cryptography. Each is a parameter; the laws that a proof relies on are
-- fields of the records below, and `ascii` shows that the laws of text can be met.
use srv_deployment.Strings.Base64.{IsBytes}
use srv_deployment.Prelude.{
  ℕ, zero, suc, ◌+◌, ◌<◌, ◌≡◌, refl, Bool, ◌&&◌, ◌||◌, [], ◌∷◌, ◌++◌, map, arith, leb, ◌==◌, Text,
  if◌then◌else◌, length, text_eq, nat_eq, int_eq,
}

pub record Platform : Type 0 where
  -- strings.ToLower, strings.TrimSpace, strings.EqualFold
  pub to_lower : Text → Text
  pub trim_space : Text → Text
  pub equal_fold : Text → Text → Bool
  -- hmac.New(sha256.New, key), with the message; sha256.Sum256
  pub hmac_sha256 : Text → Text → Text
  -- filepath.Join
  pub path_join : Text → Text → Text
  pub sha256 : Text → Text

abbrev pub lower_char : ℕ → ℕ
lower_char c = if leb b'A' c && leb c b'Z' then c + 32 else c

abbrev pub is_blank : ℕ → Bool
is_blank c = c == 32 || leb 9 c && leb c 13

abbrev pub IsAscii : Text → Type 0
IsAscii [] = Unit
IsAscii (c ∷ s) = (c < 128) × IsAscii s

unfoldable pub trim_left : Text → Text
trim_left [] = []
trim_left (c ∷ s) = let rest = trim_left s in if is_blank c then rest else c ∷ s

unfoldable pub trim_right : Text → Text
trim_right [] = []
trim_right (c ∷ s) = let rest = trim_right s in if rest == [] && is_blank c then [] else c ∷ rest

-- What the Go documentation says of these functions on ASCII text.
pub record TextLaws (p : Platform) : Type 0 where
  pub to_lower_ascii : (s : Text) → IsAscii s → p.to_lower s ≡ map lower_char s
  pub trim_space_ascii : (s : Text) → IsAscii s → p.trim_space s ≡ trim_right (trim_left s)

-- A SHA-256 code is 32 bytes.
pub record HashLaws (p : Platform) : Type 0 where
  pub hmac_size : (key message : Text) → length (p.hmac_sha256 key message) ≡ 32
  pub hmac_bytes : (key message : Text) → IsBytes (p.hmac_sha256 key message)

-- The platform of the tests: the functions on text as they are on ASCII, an HMAC that is always zero,
-- and a digest that is the message.
abbrev zeros : ℕ → Text
zeros zero = []
zeros (suc n) = 0 ∷ zeros n

abbrev pub ascii : Platform
ascii = record {
  to_lower = map lower_char;
  trim_space = λ s. trim_right (trim_left s);
  equal_fold = λ s t. map lower_char s == map lower_char t;
  hmac_sha256 = λ key message. zeros 32;
  path_join = λ dir name. dir ++ b'/' ∷ name;
  sha256 = λ s. s;
}

pub ascii-TextLaws : TextLaws ascii
ascii-TextLaws = record { to_lower_ascii = λ s h. refl; trim_space_ascii = λ s h. refl }

pub ascii-HashLaws : HashLaws ascii
ascii-HashLaws = record { hmac_size = λ key message. refl; hmac_bytes = λ key message. omega arith }
