-- ===== src/State/Password/Verification.antt =====
-- A stored password verifies exactly the passwords that derive its key.
use srv_deployment.Prelude.{
  ◌≤◌, ◌≡◌, refl, ap, ◌∙◌, ◌≢◌, Option, none, some, [], ◌∷◌, ◌++◌, arith, ◌==◌, Text, codes, length,
  ok, >>=-eq-ok, text_eq, nat_eq, int_eq,
}
use srv_deployment.Strings.{split, cut_prefix, atoi}
use srv_deployment.Strings.Split.{lacks, split-append, split_last}
use srv_deployment.Strings.Base64.{std, encode, IsBytes}
use srv_deployment.Strings.Base64.RoundTrip.{std-IsSound, decode-encode, lacks-encode}
use srv_deployment.Platform.{Platform, HashLaws}
use srv_deployment.State.Password.Key.{pbkdf2_sha256-IsKey}
use srv_deployment.State.Password.{
  password_algorithm, pbkdf2_sha256, hash_password, verify_password, validate_password,
  password_iterations, password_key_bytes,
}

abbrev pub key_of : Platform → Text → Text → Text
key_of p password salt = pbkdf2_sha256 p password salt password_iterations password_key_bytes

-- The stored text falls into its five parts.
split_stored :
    (salt key : Text)
    → IsBytes salt
    → IsBytes key
    → split b'$' (
        b'$' ∷ password_algorithm
        ++ b'$' ∷ codes "i=600000"
        ++ b'$' ∷ encode std salt
        ++ b'$' ∷ encode std key)
      ≡ [] ∷ password_algorithm ∷ codes "i=600000" ∷ encode std salt ∷ encode std key ∷ []
unfolding lacks
split_stored salt key hs hk =
    split-append b'$' [] _ refl
    ∙ ap (◌∷◌ []) (
        split-append b'$' password_algorithm _ refl
        ∙ ap (◌∷◌ password_algorithm) (
            split-append b'$' (codes "i=600000") _ refl
            ∙ ap (◌∷◌ (codes "i=600000")) (
                split-append b'$' (encode std salt) _ (lacks-encode salt hs)
                ∙ ap (◌∷◌ (encode std salt))
                    (split_last b'$' (encode std key) (lacks-encode key hk)))))

abbrev stored_text : Text → Text → Text
stored_text salt key =
    b'$' ∷ password_algorithm
    ++ b'$' ∷ codes "i=600000"
    ++ b'$' ∷ encode std salt
    ++ b'$' ∷ encode std key

-- What verification does with the text that a salt and a key are stored in.
verify_stored :
    (p : Platform) (other salt key : Text)
    → IsBytes salt
    → IsBytes key
    → 16 ≤ length salt
    → length key ≡ password_key_bytes
    → verify_password p other (stored_text salt key) ≡ (key_of p other salt == key)
unfolding verify_password cut_prefix atoi
verify_stored p other salt key hs hk size size' =
    rw (split_stored salt key hs hk)
      (ground (arith, decode-encode std-IsSound salt hs, decode-encode std-IsSound key hk))

module _ {p : Platform} (laws : HashLaws p) where
  -- A password that was hashed with a salt of 16 bytes or more: verifying any password against the
  -- stored text succeeds exactly when it derives the same key from that salt. (An HMAC is 32 bytes.)
  pub verify_password-hash_password :
      (salt password stored other : Text)
      → IsBytes salt
      → 16 ≤ length salt
      → hash_password p (some salt) password ≡ ok stored
      → verify_password p other stored ≡ (key_of p other salt == key_of p password salt)
  unfolding hash_password
  verify_password-hash_password salt password stored other hs size h =
      let (_, valid, e) = >>=-eq-ok (validate_password password) _ h in
      let (size', bytes) =
        pbkdf2_sha256-IsKey laws password salt password_iterations password_key_bytes in
      let same : stored_text salt (key_of p password salt) ≡ stored = cc in
      rw (← same) (verify_stored p other salt (key_of p password salt) hs bytes size size')

-- A stored text is never empty.
pub hash_password-ne-nil :
    (p : Platform) (salt : Option Text) (password stored : Text)
    → hash_password p salt password ≡ ok stored
    → stored ≢ []
unfolding hash_password
hash_password-ne-nil p none password stored h = ground arith
hash_password-ne-nil p (some salt) password stored h =
    let (_, valid, e) = >>=-eq-ok (validate_password password) _ h in
    λ (empty : stored ≡ []). ground arith
