-- ===== src/Tests/Packages.antt =====
-- cmd/release-tool: a package of one binary.
use srv_deployment.Prelude.{
  ◌≡◌, refl, none, some, [], ◌∷◌, ◌++◌, arith, ◌==◌, Text, Text_discrete, codes, if◌then◌else◌,
  ℕ_discrete, ok, text_eq, nat_eq, int_eq,
}
use srv_deployment.Dict
use srv_deployment.Files.{Files, file, read_file, content}
use srv_deployment.Platform.{trim_left, trim_right}
use srv_deployment.Release.Hex.{hex_encode}
use srv_deployment.Release.Manifest.{Formats, validate, is_commit, is_digest}
use srv_deployment.Release.Package.{
  Tool, Flags, Package, ed25519_key, manifest_of, private_key_of, packaged,
}
use srv_deployment.Release.Package.Accepted.{ReadsBack, verify-packaged}
use srv_deployment.Release.Verify.{Crypto, public_key_of, verify}
use srv_deployment.Tests.Releases.{comparison}
use srv_deployment.Tests.Updates.{binary, manifest, formats, crypto, host, request}

abbrev line_formats : Formats
line_formats = record formats {
  first_value = λ b. if b == codes "manifest" ++ 10 ∷ [] then some manifest else none;
}

-- The same signature for every message.
abbrev signature : Text
signature = codes "0123456789abcdef0123456789abcdef0123456789abcdef0123456789abcdef"

abbrev signing : Crypto
signing = record crypto { ed25519_verify = λ key message sig. sig == signature }

abbrev tool : Tool
tool = record {
  marshal = λ m. some (codes "manifest");
  parse_pkcs8 = λ s. some (ed25519_key s);
  ed25519_sign = λ key message. signature;
  add = λ w n m t c. some (w ++ c);
  close = λ w. some w;
}

abbrev flags : Flags
flags = record {
  binary = codes "control-center";
  version = codes "1.2.0";
  channel = codes "beta";
  commit = codes "abc1234";
  arch = codes "amd64";
  private_key = codes "private.pem";
  output = codes "out.tar.gz";
  built_at = codes "2024-01-01T00:00:00Z";
}

abbrev build_files : Files
build_files =
    (codes "control-center", file binary) ∷ (codes "private.pem", file (codes "private")) ∷ []

abbrev made : Package
made = record { manifest = codes "manifest" ++ 10 ∷ []; signature = signature; artifact = binary }

abbrev unpacked : Files
unpacked =
    (codes "m", file made.manifest)
    ∷ (codes "k", file (codes "key"))
    ∷ (codes "s", file made.signature)
    ∷ (codes "a", file made.artifact)
    ∷ []

manifest_made : manifest_of host line_formats signing tool flags binary ≡ manifest
unfolding manifest_of hex_encode
manifest_made = refl

packaged_run : packaged host line_formats signing tool flags build_files ≡ ok made
unfolding comparison packaged private_key_of manifest_of validate is_commit is_digest read_file
    hex_encode trim_left trim_right Dict.get
packaged_run = refl

public_key_read : public_key_of host line_formats signing (codes "key") ≡ ok (codes "key")
unfolding public_key_of trim_left trim_right Text_discrete
public_key_read = refl

private_key_read :
    private_key_of host line_formats signing tool (codes "private") ≡ ok (codes "private")
unfolding private_key_of trim_left trim_right Text_discrete
private_key_read = refl

private_key_at : read_file build_files (codes "private.pem") ≡ content (codes "private")
unfolding read_file Dict.get Text_discrete ℕ_discrete
private_key_at = refl

reads_back :
    ReadsBack host line_formats signing tool
      (manifest_of host line_formats signing tool flags binary)
unfolding manifest_of hex_encode Text_discrete ℕ_discrete
reads_back b e = let same : b ≡ codes "manifest" = ground arith in rw same (refl, refl)

verify-packaged_example :
    verify host line_formats signing request unpacked
    ≡ ok (manifest_of host line_formats signing tool flags binary)
unfolding manifest_of read_file Dict.get hex_encode Text_discrete ℕ_discrete
verify-packaged_example =
    verify-packaged host line_formats signing tool flags build_files unpacked made request
      (codes "key") (codes "private") (codes "private") (codes "key") packaged_run private_key_at
      private_key_read public_key_read (record { size = λ m. refl; verifies = λ m. refl })
      reads_back
      (record { manifest_at = refl; signature_at = refl; artifact_at = refl; pem_at = refl }) refl
      refl refl
