-- ===== src/State/Password.antt =====
-- internal/state/password.go: PBKDF2 over HMAC-SHA-256, and the text that stores a password.
mod Key
pub mod Verification
use Prim.Native.Nat.{bit_xor}
use srv_deployment.Prelude.{
  ℕ, zero, suc, ◌+◌, ◌-◌, ◌/◌, ◌%◌, ◌^◌, Bool, false, not, ◌&&◌, ◌||◌, Option, none, some, List, [],
  ◌∷◌, ◌++◌, ltb, leb, ◌==◌, Text, codes, length, take, ℤ, pos, Result, ok, guard, or_fail, text_eq,
  nat_eq, int_eq, ◌>>=◌, ◌>>◌,
}
use srv_deployment.Strings.{split, cut_prefix, atoi}
use srv_deployment.Strings.Base64.{std, encode, decode}
use srv_deployment.Platform.{Platform}

abbrev pub password_algorithm : Text
password_algorithm = codes "pbkdf2-sha256"

abbrev pub password_iterations : ℕ
password_iterations = 600000

abbrev pub password_salt_bytes : ℕ
password_salt_bytes = 16

abbrev pub password_key_bytes : ℕ
password_key_bytes = 32

pub data Error : Type 0 where
  too_short too_long salt_failed : Error

unfoldable pub validate_password : Text → Result Error Unit
validate_password password = do
  let n = length password
  guard (not (ltb n 12)) too_short
  guard (not (ltb 1024 n)) too_long

module _ (p : Platform) where
  -- t[j] ^= u[j] for each j
  pub xor_all : Text → Text → Text
  xor_all [] u = []
  xor_all (x ∷ t) [] = x ∷ t
  xor_all (x ∷ t) (y ∷ u) = bit_xor x y ∷ xor_all t u

  -- The rounds of the inner loop that are left.
  pub iterate : ℕ → Text → Text → Text → Text
  iterate zero password u t = t
  iterate (suc n) password u t =
      let v = p.hmac_sha256 password u in iterate n password v (xor_all t v)

  abbrev pub counter : ℕ → Text
  counter block =
      (block / 2 ^ 24 % 256) ∷ (block / 2 ^ 16 % 256) ∷ (block / 2 ^ 8 % 256) ∷ (block % 256) ∷ []

  pub derive_block : Text → Text → ℕ → ℕ → Text
  derive_block password salt iterations block =
      let u = p.hmac_sha256 password (salt ++ counter block) in
      iterate (iterations - 1) password u u

  -- The rounds of the loop over the blocks that are left.
  pub derive_blocks : Text → Text → ℕ → ℕ → ℕ → Text → Text
  derive_blocks password salt iterations zero block out = out
  derive_blocks password salt iterations (suc n) block out =
      derive_blocks password salt iterations n (block + 1)
        (out ++ derive_block password salt iterations block)

  -- sha256.Size is 32.
  unfoldable pub pbkdf2_sha256 : Text → Text → ℕ → ℕ → Text
  unfolding derive_blocks derive_block iterate xor_all
  pbkdf2_sha256 password salt iterations key_len =
      let blocks = (key_len + 32 - 1) / 32 in
      take key_len (derive_blocks password salt iterations blocks 1 [])

  -- `salt` is what `rand.Read` gives, `none` for its error.
  unfoldable pub hash_password : Option Text → Text → Result Error Text
  hash_password salt password = do
    validate_password password
    salt ← or_fail salt salt_failed
    let key = pbkdf2_sha256 password salt password_iterations password_key_bytes
    ok (
        b'$' ∷ password_algorithm
        ++ b'$' ∷ codes "i=600000"
        ++ b'$' ∷ encode std salt
        ++ b'$' ∷ encode std key)

  abbrev verify_key : Text → ℕ → Option Text → Option Text → Bool
  verify_key password iterations (some salt) (some expected) =
      leb 16 (length salt)
      && length expected == password_key_bytes
      && pbkdf2_sha256 password salt iterations (length expected) == expected
  verify_key password iterations _ _ = false

  abbrev verify_iterations : Text → Option ℤ → Text → Text → Bool
  verify_iterations password (some (pos iterations)) salt key =
      not (ltb iterations 100000 || ltb 5000000 iterations)
      && verify_key password iterations (decode std salt) (decode std key)
  verify_iterations password _ salt key = false

  abbrev verify_parameter : Text → Option Text → Text → Text → Bool
  verify_parameter password none salt key = false
  verify_parameter password (some digits) salt key =
      verify_iterations password (atoi digits) salt key

  abbrev verify_parts : Text → List Text → Bool
  verify_parts password (part₀ ∷ part₁ ∷ part₂ ∷ part₃ ∷ part₄ ∷ []) =
      part₁ == password_algorithm
      && verify_parameter password (cut_prefix (codes "i=") part₂) part₃ part₄
  verify_parts password _ = false

  unfoldable pub verify_password : Text → Text → Bool
  verify_password password encoded = verify_parts password (split b'$' encoded)
