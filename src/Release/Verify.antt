-- ===== src/Release/Verify.antt =====
-- `Verify`: when an update is accepted.
use srv_deployment.Prelude.{
  ◌≡◌, refl, sym, ap, ◌∙◌, ◌↔◌, inl, inr, Bool, true, not, ◌&&◌, ◌||◌, Option, none, some, [],
  arith, ◌==◌, Text, Option-cases, if◌then◌else◌, length, ℤ, pos, ◌≤ℤ◌, ltb_ℤ, Result, ok, guard,
  or_fail, >>=-eq-ok, text_eq, nat_eq, int_eq, ◌>>=◌, ◌>>◌,
}
use srv_deployment.Files.{Files, Read, content, not_exist, unreadable, read_file}
use srv_deployment.Platform.{Platform}
use srv_deployment.Strings.Base64.{IsBytes}
use srv_deployment.Release.Hex.{hex_encode, hex_encode_inj}
use srv_deployment.Release.Manifest.{
  Manifest, Formats, Error, decode, read_manifest, read_signature, read_public_key, invalid_pem,
  parse_public_key, not_ed25519, signature_mismatch, platform_mismatch, incompatible_schema,
  read_artifact, size_mismatch, digest_mismatch,
}

-- What `x509.ParsePKIXPublicKey` returns: an Ed25519 key, or one of another kind.
pub data PublicKey : Type 0 where
  ed25519_key : Text → PublicKey
  other_key : PublicKey

-- `pem.Decode` (the bytes of a block, and the rest), `x509.ParsePKIXPublicKey`, `ed25519.Verify` (key,
-- message, signature), and the platform that the program runs on.
pub record Crypto : Type 0 where
  pub pem_decode : Text → Option (Text × Text)
  pub parse_pkix : Text → Option PublicKey
  pub ed25519_verify : Text → Text → Text → Bool
  pub go_os : Text
  pub go_arch : Text

-- The paths and the expectations that `Verify` is called with.
pub record Request : Type 0 where
  pub manifest_path : Text
  pub signature_path : Text
  pub public_key_path : Text
  pub artifact_path : Text
  pub expected_os : Text
  pub expected_arch : Text
  pub current_state_schema : ℤ

abbrev pub bytes_of : Read → Option Text
bytes_of (content b) = some b
bytes_of not_exist = none
bytes_of unreadable = none

abbrev ed25519_of : PublicKey → Option Text
ed25519_of (ed25519_key k) = some k
ed25519_of other_key = none

-- `if expected == "" { expected = own }`
abbrev pub expected_or : Text → Text → Text
expected_or expected own = if expected == [] then own else expected

module _ (p : Platform) (f : Formats) (g : Crypto) where
  abbrev only_block : Option (Text × Text) → Option Text
  only_block none = none
  only_block (some (block, rest)) = if p.trim_space rest == [] then some block else none

  -- From `pem.Decode` to the key.
  unfoldable pub public_key_of : Text → Result Error Text
  public_key_of pem = do
    block ← or_fail (only_block (g.pem_decode pem)) invalid_pem
    key ← or_fail (g.parse_pkix block) parse_public_key
    or_fail (ed25519_of key) not_ed25519

  -- From the first read to the manifest.
  unfoldable pub signed_manifest : Request → Files → Result Error Manifest
  signed_manifest r fs = do
    manifest_bytes ← or_fail (bytes_of (read_file fs r.manifest_path)) read_manifest
    sig ← or_fail (bytes_of (read_file fs r.signature_path)) read_signature
    pem ← or_fail (bytes_of (read_file fs r.public_key_path)) read_public_key
    key ← public_key_of pem
    guard (length sig == 64 && g.ed25519_verify key manifest_bytes sig) signature_mismatch
    decode f manifest_bytes

  -- The comparisons of the manifest with the request and the artifact. Opening the artifact and
  -- hashing it may fail; both errors are `read_artifact`.
  unfoldable pub check_artifact : Request → Files → Manifest → Result Error Unit
  check_artifact r fs m = do
    guard
        (m.os == expected_or r.expected_os g.go_os
          && m.arch == expected_or r.expected_arch g.go_arch)
        platform_mismatch
    guard
        (not (
          ltb_ℤ r.current_state_schema m.state_schema_min
          || ltb_ℤ m.state_schema_max r.current_state_schema))
        incompatible_schema
    artifact ← or_fail (bytes_of (read_file fs r.artifact_path)) read_artifact
    guard (m.artifact.size == pos (length artifact)) size_mismatch
    guard (hex_encode (p.sha256 artifact) == m.artifact.sha256) digest_mismatch

  unfoldable pub verify : Request → Files → Result Error Manifest
  verify r fs = do m ← signed_manifest r fs; check_artifact r fs m; ok m

  -- A manifest that is signed: the bytes that it is read from carry a signature of the key.
  pub record IsSigned (r : Request) (fs : Files) (m : Manifest) : Type 0 where
    pub manifest_bytes : Text
    pub sig : Text
    pub pem : Text
    pub key : Text
    pub manifest_read : read_file fs r.manifest_path ≡ content manifest_bytes
    pub sig_read : read_file fs r.signature_path ≡ content sig
    pub pem_read : read_file fs r.public_key_path ≡ content pem
    pub key_parsed : public_key_of pem ≡ ok key
    pub sig_size : length sig ≡ 64
    pub signed : g.ed25519_verify key manifest_bytes sig ≡ true
    pub decoded : decode f manifest_bytes ≡ ok m

  -- The artifact, the platform and the schema are those that the manifest states.
  pub record IsDescribed (r : Request) (fs : Files) (m : Manifest) : Type 0 where
    pub artifact : Text
    pub artifact_read : read_file fs r.artifact_path ≡ content artifact
    pub os_expected : m.os ≡ expected_or r.expected_os g.go_os
    pub arch_expected : m.arch ≡ expected_or r.expected_arch g.go_arch
    pub schema_from : m.state_schema_min ≤ℤ r.current_state_schema
    pub schema_to : r.current_state_schema ≤ℤ m.state_schema_max
    pub size : m.artifact.size ≡ pos (length artifact)
    pub digest : hex_encode (p.sha256 artifact) ≡ m.artifact.sha256

  pub bytes_of-eq-some : (x : Read) {b : Text} → bytes_of x ≡ some b → x ≡ content b
  bytes_of-eq-some (content c) h = grind arith
  bytes_of-eq-some not_exist h = absurd (cc)
  bytes_of-eq-some unreadable h = absurd (cc)

  bytes_of-eq-ok : (x : Read) (e : Error) {b : Text} → or_fail (bytes_of x) e ≡ ok b → x ≡ content b
  bytes_of-eq-ok (content c) e h = grind arith
  bytes_of-eq-ok not_exist e h = absurd (cc)
  bytes_of-eq-ok unreadable e h = absurd (cc)

  IsSigned-of :
      (r : Request) (fs : Files) (m : Manifest) → signed_manifest r fs ≡ ok m → IsSigned r fs m
  unfolding signed_manifest
  IsSigned-of r fs m h =
      let (manifest_bytes, a1, h1) =
        >>=-eq-ok (or_fail (bytes_of (read_file fs r.manifest_path)) read_manifest) _ h in
      let (sig, a2, h2) =
        >>=-eq-ok (or_fail (bytes_of (read_file fs r.signature_path)) read_signature) _ h1 in
      let (pem, a3, h3) =
        >>=-eq-ok (or_fail (bytes_of (read_file fs r.public_key_path)) read_public_key) _ h2 in
      let (key, a4, h4) = >>=-eq-ok (public_key_of pem) _ h3 in
      record {
        manifest_bytes = manifest_bytes;
        sig = sig;
        pem = pem;
        key = key;
        manifest_read = bytes_of-eq-ok (read_file fs r.manifest_path) _ a1;
        sig_read = bytes_of-eq-ok (read_file fs r.signature_path) _ a2;
        pem_read = bytes_of-eq-ok (read_file fs r.public_key_path) _ a3;
        key_parsed = a4;
        sig_size = ground arith;
        signed = ground arith;
        decoded = ground arith;
      }

  signed_manifest-of :
      (r : Request) (fs : Files) (m : Manifest) → IsSigned r fs m → signed_manifest r fs ≡ ok m
  unfolding signed_manifest
  signed_manifest-of r fs m s =
      rw (s.manifest_read, s.sig_read, s.pem_read, s.key_parsed, s.signed)
        (ground (arith, s.sig_size, s.decoded))

  IsDescribed-of :
      (r : Request) (fs : Files) (m : Manifest) → check_artifact r fs m ≡ ok tt → IsDescribed r fs m
  unfolding check_artifact
  IsDescribed-of r fs m h = elim (Option-cases (bytes_of (read_file fs r.artifact_path))) [
    | inl e ↦ absurd (ground (arith, e))
    | inr (artifact, e) ↦ record {
      artifact = artifact;
      artifact_read = bytes_of-eq-ok (read_file fs r.artifact_path) read_artifact (rw e refl);
      os_expected = ground (arith, e);
      arch_expected = ground (arith, e);
      schema_from = ground (arith, e);
      schema_to = ground (arith, e);
      size = ground (arith, e);
      digest = ground (arith, e);
    }
  ]

  check_artifact-of :
      (r : Request) (fs : Files) (m : Manifest) → IsDescribed r fs m → check_artifact r fs m ≡ ok tt
  unfolding check_artifact
  check_artifact-of r fs m d =
      rw (d.artifact_read, d.digest)
        (ground (arith, d.os_expected, d.arch_expected, d.schema_from, d.schema_to, d.size))

  -- `Verify` returns a manifest exactly if it is decoded from bytes that carry a signature of the
  -- key, and the artifact, the platform and the schema are those that the manifest states.
  pub verify_iff :
      (r : Request) (fs : Files) (m : Manifest)
      → (verify r fs ≡ ok m) ↔ (IsSigned r fs m × IsDescribed r fs m)
  unfolding verify
  verify_iff r fs m = (
    λ h.
        let (n, signed, h1) = >>=-eq-ok (signed_manifest r fs) _ h in
        let (u, accepted, h2) = >>=-eq-ok (check_artifact r fs n) _ h1 in
        let same : n ≡ m = grind arith in
        (IsSigned-of r fs m (signed ∙ ap ok same), IsDescribed-of r fs m (rw (sym same) accepted)),
    λ (s, d). rw (signed_manifest-of r fs m s, check_artifact-of r fs m d) refl,
  )

  -- Two artifacts that are accepted with the same manifest have the same size and the same SHA-256
  -- (which is a text of bytes), whatever the requests and the files.
  pub verify_same :
      ((s : Text) → IsBytes (p.sha256 s))
      → (r r' : Request) (fs fs' : Files) (m : Manifest) → verify r fs ≡ ok m
      → verify r' fs' ≡ ok m
      → (a : Text) × (b : Text) × (read_file fs r.artifact_path ≡ content a)
        × (read_file fs' r'.artifact_path ≡ content b)
        × (length a ≡ length b)
        × (p.sha256 a ≡ p.sha256 b)
  verify_same bytes r r' fs fs' m h k =
      let (s, d) = (verify_iff r fs m).0 h in
      let (s', d') = (verify_iff r' fs' m).0 k in
      (
        d.artifact,
        d'.artifact,
        d.artifact_read,
        d'.artifact_read,
        ground (arith, d.size, d'.size),
        hex_encode_inj (p.sha256 d.artifact) (p.sha256 d'.artifact) (bytes d.artifact)
            (bytes d'.artifact) (d.digest ∙ sym d'.digest),
      )
