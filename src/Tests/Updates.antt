-- ===== src/Tests/Updates.antt =====
-- internal/release: a manifest and its artifact.
use srv_deployment.Prelude.{
  ◌%◌, ◌≤◌, ◌<◌, ◌≡◌, refl, ◌↔◌, true, none, some, [], ◌∷◌, ◌++◌, map, arith, ◌==◌, Text, codes,
  if◌then◌else◌, length, take, pos, ok, text_eq, nat_eq, int_eq,
}
use srv_deployment.Files.{Files, file, content, read_file}
use srv_deployment.Dict.{Dict}
use srv_deployment.Dict
use srv_deployment.Platform.{Platform, ascii, trim_left, trim_right}
use srv_deployment.Strings.Base64.{IsBytes}
use srv_deployment.Strings.{all_chars}
use srv_deployment.Release.Hex.{hex_encode}
use srv_deployment.Release.Manifest.{
  Manifest, Formats, end_of_file, is_hex, is_commit, is_digest, validate, release_id, decode,
}
use srv_deployment.Release.Verify.{
  Crypto, ed25519_key, Request, public_key_of, signed_manifest, check_artifact, verify, IsSigned,
  IsDescribed, verify_iff, verify_same,
}
use srv_deployment.Release.Identity.{release_id-none_iff}
use srv_deployment.Tests.Releases.{comparison}

abbrev pub binary : Text
binary = codes "0123456789abcdef0123456789abcdef"

-- A manifest of a commit of seven characters.
abbrev pub manifest : Manifest
manifest = record {
  schema = pos 1;
  product = codes "Control Center";
  version = codes "1.2.0";
  channel = codes "beta";
  commit = codes "abc1234";
  built_at = codes "2024-01-01T00:00:00Z";
  os = codes "linux";
  arch = codes "amd64";
  state_schema_min = pos 1;
  state_schema_max = pos 1;
  artifact = record {
    name = codes "control-center";
    sha256 = codes "3031323334353637383961626364656630313233343536373839616263646566";
    size = pos 32;
  };
}

abbrev pub formats : Formats
formats = record {
  is_rfc3339 = λ s. s == codes "2024-01-01T00:00:00Z";
  first_value = λ b. if b == codes "manifest" then some manifest else none;
  second_value = λ b. end_of_file;
}

-- A signature is the message and the key, padded to 64 bytes.
abbrev pub crypto : Crypto
crypto = record {
  pem_decode = λ s. some (s, []);
  parse_pkix = λ s. some (ed25519_key s);
  ed25519_verify = λ key message sig. take (length (message ++ key)) sig == message ++ key;
  go_os = codes "linux";
  go_arch = codes "amd64";
}

-- A digest that is the message, as bytes.
abbrev pub host : Platform
host = record ascii { sha256 = map (λ c. c % 256) }

digest-IsBytes : (s : Text) → IsBytes (host.sha256 s)
digest-IsBytes [] = tt
digest-IsBytes (c ∷ s) = (omega arith, digest-IsBytes s)

abbrev pub request : Request
request = record {
  manifest_path = codes "m";
  signature_path = codes "s";
  public_key_path = codes "k";
  artifact_path = codes "a";
  expected_os = [];
  expected_arch = codes "amd64";
  current_state_schema = pos 1;
}

abbrev update : Files
update =
    (codes "m", file (codes "manifest"))
    ∷ (codes "k", file (codes "key"))
    ∷ (codes "s", file (codes "manifestkey-----------------------------------------------------"))
    ∷ (codes "a", file binary)
    ∷ []

pub manifest_valid : validate formats manifest ≡ ok tt
unfolding comparison validate is_commit is_digest
manifest_valid = refl

release_id-none_iff_example :
    ((release_id manifest ≡ none) ↔ (7 < 12))
    × (7 ≤ 7)
    × ((commit : Text)
        → all_chars is_hex commit ≡ true
        → 7 ≤ length commit
        → length commit ≤ 64
        → validate formats (record manifest { commit = commit }) ≡ ok tt)
release_id-none_iff_example = release_id-none_iff formats manifest manifest_valid

update_accepted : verify host formats crypto request update ≡ ok manifest
unfolding comparison verify signed_manifest check_artifact public_key_of read_file decode validate
    is_commit is_digest hex_encode trim_left trim_right Dict.get
update_accepted = refl

verify_iff_example : (verify host formats crypto request update ≡ ok manifest) ↔ (
    IsSigned host formats crypto request update manifest
    × IsDescribed host formats crypto request update manifest)
verify_iff_example = verify_iff host formats crypto request update manifest

-- The same manifest and artifact for another request.
abbrev native : Request
native = record request { expected_os = codes "linux"; expected_arch = [] }

native_accepted : verify host formats crypto native update ≡ ok manifest
unfolding comparison verify signed_manifest check_artifact public_key_of read_file decode validate
    is_commit is_digest hex_encode trim_left trim_right Dict.get
native_accepted = refl

verify_same_example :
    (a : Text) × (b : Text) × (read_file update request.artifact_path ≡ content a)
    × (read_file update native.artifact_path ≡ content b)
    × (length a ≡ length b)
    × (host.sha256 a ≡ host.sha256 b)
verify_same_example =
    verify_same host formats crypto digest-IsBytes request native update update manifest
      update_accepted native_accepted
