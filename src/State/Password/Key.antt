-- ===== src/State/Password/Key.antt =====
-- A derived key has the length that was asked for.
use Prim.Native.Nat.{bit_xor}
use srv_deployment.Prelude.{
  ℕ, zero, suc, ◌+◌, ◌-◌, ◌*◌, ◌/◌, ◌≤◌, ◌<◌, ◌≡◌, refl, Bool, true, false, [], ◌∷◌, ◌++◌, arith,
  ltb, Text, if◌then◌else◌, length, take, length-append, length-take_of_le,
}
use srv_deployment.Strings.Base64.{IsBytes}
use srv_deployment.Platform.{Platform, HashLaws}
use srv_deployment.State.Password.{
  pbkdf2_sha256, xor_all, iterate, derive_block, derive_blocks, counter,
}

-- A test that passes on every number up to a bound.
passes : (test : ℕ → Bool) (bound : ℕ) → Bool
passes test zero = true
passes test (suc last) = let before = passes test last in if test last then before else false

passes-at :
    (test : ℕ → Bool) (bound : ℕ) → passes test bound ≡ true → (i : ℕ) → i < bound → test i ≡ true
unfolding passes
passes-at test zero all i below = absurd (omega arith)
passes-at test (suc last) all i below = grind (arith, passes-at test last)

is_byte_xor : ℕ → ℕ → Bool
is_byte_xor x y = ltb (bit_xor x y) 256

bytes_xor : passes (λ x. passes (is_byte_xor x) 256) 256 ≡ true
unfolding passes is_byte_xor
bytes_xor = refl

bit_xor-lt : (x y : ℕ) → x < 256 → y < 256 → bit_xor x y < 256
unfolding is_byte_xor
bit_xor-lt x y hx hy =
    let row = passes-at (λ x. passes (is_byte_xor x) 256) 256 bytes_xor x hx in
    let cell = passes-at (is_byte_xor x) 256 row y hy in ground arith

-- A text of so many bytes.
abbrev pub IsKey : ℕ → Text → Type 0
IsKey n t = (length t ≡ n) × IsBytes t

IsBytes-append : (s t : Text) → IsBytes s → IsBytes t → IsBytes (s ++ t)
IsBytes-append [] t h k = k
IsBytes-append (c ∷ s) t h k = (h.0, IsBytes-append s t h.1 k)

IsBytes-take : (n : ℕ) (s : Text) → IsBytes s → IsBytes (take n s)
IsBytes-take zero s h = tt
IsBytes-take (suc n) [] h = tt
IsBytes-take (suc n) (c ∷ s) h = (h.0, IsBytes-take n s h.1)

IsKey-append : {m n : ℕ} (s t : Text) → IsKey m s → IsKey n t → IsKey (m + n) (s ++ t)
IsKey-append s t h k = (omega (arith, length-append s t, h.0, k.0), IsBytes-append s t h.1 k.1)

IsKey-take : (n : ℕ) (s : Text) → n ≤ length s → IsBytes s → IsKey n (take n s)
IsKey-take n s h k = (length-take_of_le n s h, IsBytes-take n s k)

module _ {p : Platform} (laws : HashLaws p) where
  xor_all-IsKey : (n : ℕ) (t u : Text) → IsKey n t → IsBytes u → IsKey n (xor_all p t u)
  unfolding xor_all
  xor_all-IsKey n [] u h k = h
  xor_all-IsKey n (x ∷ t) [] h k = h
  xor_all-IsKey zero (x ∷ t) (y ∷ u) h k = absurd (omega arith)
  xor_all-IsKey (suc n) (x ∷ t) (y ∷ u) (size, (hx, ht)) (hy, hu) =
      let (size', bytes') = xor_all-IsKey n t u (omega arith, ht) hu in
      (omega arith, (bit_xor-lt x y hx hy, bytes'))

  iterate-IsKey : (n : ℕ) (password u t : Text) → IsKey 32 t → IsKey 32 (iterate p n password u t)
  unfolding iterate
  iterate-IsKey zero password u t h = h
  iterate-IsKey (suc n) password u t h =
      iterate-IsKey n password _ _ (xor_all-IsKey 32 t _ h (laws.hmac_bytes password u))

  derive_block-IsKey :
      (password salt : Text) (iterations block : ℕ)
      → IsKey 32 (derive_block p password salt iterations block)
  unfolding derive_block
  derive_block-IsKey password salt iterations block =
      let message = salt ++ counter p block in
      iterate-IsKey (iterations - 1) password (p.hmac_sha256 password message)
        (p.hmac_sha256 password message)
        (laws.hmac_size password message, laws.hmac_bytes password message)

  derive_blocks-IsKey :
      (password salt : Text) (iterations n block : ℕ) (m : ℕ) (out : Text)
      → IsKey m out
      → IsKey (n * 32 + m) (derive_blocks p password salt iterations n block out)
  unfolding derive_blocks
  derive_blocks-IsKey password salt iterations zero block m out h = (omega arith, h.1)
  derive_blocks-IsKey password salt iterations (suc n) block m out h =
      let b = derive_block-IsKey password salt iterations block in
      let rest =
        derive_blocks-IsKey password salt iterations n (block + 1) (m + 32)
          (out ++ derive_block p password salt iterations block)
          (IsKey-append out (derive_block p password salt iterations block) h b) in
      (omega (arith, rest.0), rest.1)

  -- Whatever the number of iterations, the key is as long as asked for, and made of bytes.
  pub pbkdf2_sha256-IsKey :
      (password salt : Text) (iterations key_len : ℕ)
      → IsKey key_len (pbkdf2_sha256 p password salt iterations key_len)
  unfolding pbkdf2_sha256
  pbkdf2_sha256-IsKey password salt iterations key_len =
      let h =
        derive_blocks-IsKey password salt iterations ((key_len + 32 - 1) / 32) 1 0 [] (refl, tt) in
      IsKey-take key_len _ (omega (arith, h.0)) h.1
