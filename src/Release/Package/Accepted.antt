-- ===== src/Release/Package/Accepted.antt =====
-- What is packaged is accepted.
use srv_deployment.Prelude.{
  ◌≡◌, refl, sym, ap, ◌∙◌, inl, inr, true, some, [], ◌∷◌, ◌++◌, arith, Text, codes, Option-cases,
  length, pos, ok, Result-cases,
}
use srv_deployment.Files.{Files, content, read_file}
use srv_deployment.Platform.{Platform}
use srv_deployment.Release.Manifest.{Manifest, Formats, end_of_file, decode, validate}
use srv_deployment.Release.Package.{Package, Tool, Flags, manifest_of, private_key_of, packaged}
use srv_deployment.Release.Verify.{
  bytes_of-eq-some, Crypto, Request, bytes_of, expected_or, public_key_of, verify, verify_iff,
}

-- The three files of a package and a public key stand where `Verify` is asked to read them.
pub record IsUnpacked (r : Request) (fs : Files) (k : Package) (pem : Text) : Type 0 where
  pub manifest_at : read_file fs r.manifest_path ≡ content k.manifest
  pub signature_at : read_file fs r.signature_path ≡ content k.signature
  pub artifact_at : read_file fs r.artifact_path ≡ content k.artifact
  pub pem_at : read_file fs r.public_key_path ≡ content pem

module _ (p : Platform) (f : Formats) (g : Crypto) (t : Tool) where
  -- Signatures of the private key are those of the public key, and 64 bytes.
  pub record IsPair (key public : Text) : Type 0 where
    pub size : (message : Text) → length (t.ed25519_sign key message) ≡ 64
    pub verifies :
        (message : Text) → g.ed25519_verify public message (t.ed25519_sign key message) ≡ true

  -- The JSON of a manifest is read back.
  abbrev pub ReadsBack : Manifest → Type 0
  ReadsBack m =
      (b : Text)
      → t.marshal m ≡ some b
      → (f.first_value (b ++ 10 ∷ []) ≡ some m) × (f.second_value (b ++ 10 ∷ []) ≡ end_of_file)

  -- The parts of a package.
  packaged-eq-ok :
      (flags : Flags) (fs : Files) (k : Package)
      → packaged p f g t flags fs ≡ ok k
      → (pem : Text) × (key : Text) × (b : Text) × (read_file fs flags.binary ≡ content k.artifact)
        × (validate f (manifest_of p f g t flags k.artifact) ≡ ok tt)
        × (t.marshal (manifest_of p f g t flags k.artifact) ≡ some b)
        × (k.manifest ≡ b ++ 10 ∷ [])
        × (read_file fs flags.private_key ≡ content pem)
        × (private_key_of p f g t pem ≡ ok key)
        × (k.signature ≡ t.ed25519_sign key k.manifest)
  unfolding packaged
  packaged-eq-ok flags fs k h = elim (Option-cases (bytes_of (read_file fs flags.binary))) [
    | inl a ↦ absurd (ground (arith, a))
    | inr (artifact, a) ↦
        let m = manifest_of p f g t flags artifact in
        elim (Option-cases (t.marshal m)) [
          | inl c ↦ absurd (ground (arith, a, c))
          | inr (b, c) ↦ elim (Option-cases (bytes_of (read_file fs flags.private_key))) [
            | inl d ↦ absurd (ground (arith, a, c, d))
            | inr (pem, d) ↦ elim (Result-cases (private_key_of p f g t pem)) [
              | inl (_, e) ↦ absurd (ground (arith, a, c, d, e))
              | inr (key, e) ↦
                  let same : artifact ≡ k.artifact = ground (arith, a, c, d, e) in
                  (
                    pem,
                    key,
                    b,
                    bytes_of-eq-some p f g (read_file fs flags.binary) (a ∙ ap some same),
                    rw (sym same) (ground (arith, a, c, d, e)),
                    rw (sym same) c,
                    ground (arith, a, c, d, e),
                    bytes_of-eq-some p f g (read_file fs flags.private_key) d,
                    e,
                    ground (arith, a, c, d, e),
                  )
            ]
          ]
        ]
  ]

  -- A package that the release tool makes is accepted: where its three files and a public key that fits
  -- the private key stand where `Verify` reads them, and Linux, the architecture of the package and the
  -- state schema 1 are asked for, `Verify` returns the manifest that was packaged. (The JSON of the
  -- manifest is read back.)
  pub verify-packaged :
      (flags : Flags) (fs fs' : Files) (k : Package) (r : Request)
      (pem secret_pem key public : Text)
      → packaged p f g t flags fs ≡ ok k
      → read_file fs flags.private_key ≡ content secret_pem
      → private_key_of p f g t secret_pem ≡ ok key
      → public_key_of p f g pem ≡ ok public
      → IsPair key public
      → ReadsBack (manifest_of p f g t flags k.artifact)
      → IsUnpacked r fs' k pem
      → expected_or r.expected_os g.go_os ≡ codes "linux"
      → expected_or r.expected_arch g.go_arch ≡ flags.arch
      → r.current_state_schema ≡ pos 1
      → verify p f g r fs' ≡ ok (manifest_of p f g t flags k.artifact)
  unfolding manifest_of decode
  verify-packaged flags fs fs' k r pem secret_pem key public h secret_at key_of public_of pair back
        at os arch schema =
      let (
        pem', key', b, artifact_at, valid, marshalled, manifest_is, private_at, private_of, signed,
      ) =
        packaged-eq-ok flags fs k h in
      let same_pem : pem' ≡ secret_pem = ground (arith, private_at, secret_at) in
      let same_key : key' ≡ key = ground (arith, private_of, key_of, same_pem) in
      let m = manifest_of p f g t flags k.artifact in
      let sig : k.signature ≡ t.ed25519_sign key k.manifest =
        signed ∙ ap (λ z. t.ed25519_sign z k.manifest) same_key in
      (verify_iff p f g r fs' m).1 (
        record {
          manifest_bytes = k.manifest;
          sig = k.signature;
          pem = pem;
          key = public;
          manifest_read = at.manifest_at;
          sig_read = at.signature_at;
          pem_read = at.pem_at;
          key_parsed = public_of;
          sig_size = rw sig (pair.size k.manifest);
          signed = rw sig (pair.verifies k.manifest);
          decoded = ground (arith, manifest_is, valid, back b marshalled);
        },
        record {
          artifact = k.artifact;
          artifact_read = at.artifact_at;
          os_expected = sym os;
          arch_expected = sym arch;
          schema_from = ground (arith, schema);
          schema_to = ground (arith, schema);
          size = refl;
          digest = refl;
        },
      )
