-- ===== src/Release/Package.antt =====
-- cmd/release-tool/main.go: how a release is packaged, and that `Verify` accepts it.
pub mod Output
pub mod Accepted
pub mod Command
use srv_deployment.Prelude.{
  ℕ, Bool, not, ◌||◌, Option, none, some, [], ◌∷◌, ◌++◌, ◌==◌, Text, codes, if◌then◌else◌, length,
  pos, Result, ok, err, guard, or_fail, text_eq, nat_eq, int_eq, ◌>>=◌, ◌>>◌,
}
use srv_deployment.Files.{Files, Read, content, not_exist, unreadable, read_file, file}
use srv_deployment.Dict
use srv_deployment.Platform.{Platform}
use srv_deployment.Release.Hex.{hex_encode}
use srv_deployment.Release.Manifest.{
  Manifest, Formats, Error, Trailing, end_of_file, manifest_schema, validate, decode,
}
use srv_deployment.Release.Manifest
use srv_deployment.Release.Verify.{
  Crypto, Request, bytes_of, expected_or, public_key_of, verify, IsSigned, IsDescribed, verify_iff,
}

-- What `x509.ParsePKCS8PrivateKey` returns: an Ed25519 key, or one of another kind.
pub data PrivateKey : Type 0 where
  ed25519_key : Text → PrivateKey
  other_key : PrivateKey

-- `json.MarshalIndent` of a manifest, `x509.ParsePKCS8PrivateKey`, `ed25519.Sign` (key, message), and
-- `tar.Writer` over `gzip.Writer`, as the bytes that the file has after a header and its content are written,
-- and after both are closed; `none` for an error.
pub record Tool : Type 0 where
  pub marshal : Manifest → Option Text
  pub parse_pkcs8 : Text → Option PrivateKey
  pub ed25519_sign : Text → Text → Text
  pub add : (written name : Text) (mode modified : ℕ) (content : Text) → Option Text
  pub close : Text → Option Text

-- The flags of `package`, with the defaults of the source.
pub record Flags : Type 0 where
  pub binary : Text
  pub version : Text
  pub channel : Text
  pub commit : Text
  pub arch : Text
  pub private_key : Text
  pub output : Text
  pub built_at : Text

-- How the calls of `writePackage` end; `left` is what the file holds when it returns early.
pub record Outcome : Type 0 where
  pub made : Bool
  pub created : Bool
  pub left : Text
  pub synced : Bool

pub data Failure : Type 0 where
  usage read_binary marshal_manifest read_private_key invalid_pem parse_private_key not_ed25519
        make_directory create_output write_output close_output sync_output :
      Failure
  invalid : Manifest.Error → Failure

-- The three files of a package.
pub record Package : Type 0 where
  pub manifest : Text
  pub signature : Text
  pub artifact : Text

abbrev fail_with : {A : Type 0} → Result Manifest.Error A → Result Failure A
fail_with (ok a) = ok a
fail_with (err e) = err (invalid e)

abbrev ed25519_of : PrivateKey → Option Text
ed25519_of (ed25519_key k) = some k
ed25519_of other_key = none

module _ (p : Platform) (f : Formats) (g : Crypto) (t : Tool) where
  -- The manifest of an artifact.
  unfoldable pub manifest_of : Flags → (artifact : Text) → Manifest
  manifest_of flags artifact = record {
    schema = manifest_schema;
    product = codes "Control Center";
    version = flags.version;
    channel = flags.channel;
    commit = flags.commit;
    built_at = flags.built_at;
    os = codes "linux";
    arch = flags.arch;
    state_schema_min = pos 1;
    state_schema_max = pos 1;
    artifact = record {
      name = codes "control-center";
      sha256 = hex_encode (p.sha256 artifact);
      size = pos (length artifact);
    };
  }

  abbrev only_block : Option (Text × Text) → Option Text
  only_block none = none
  only_block (some (block, rest)) = if p.trim_space rest == [] then some block else none

  -- From `pem.Decode` to the key.
  unfoldable pub private_key_of : Text → Result Failure Text
  private_key_of pem = do
    block ← or_fail (only_block (g.pem_decode pem)) invalid_pem
    key ← or_fail (t.parse_pkcs8 block) parse_private_key
    or_fail (ed25519_of key) not_ed25519

  -- From the test of the flags to the signature.
  unfoldable pub packaged : Flags → Files → Result Failure Package
  packaged flags fs = do
    guard
        (not (
          flags.binary == []
          || flags.version == []
          || flags.commit == []
          || flags.arch == []
          || flags.private_key == []
          || flags.output == []))
        usage
    artifact ← or_fail (bytes_of (read_file fs flags.binary)) read_binary
    let m = manifest_of flags artifact
    fail_with (validate f m)
    b ← or_fail (t.marshal m) marshal_manifest
    let manifest = b ++ 10 ∷ []
    pem ← or_fail (bytes_of (read_file fs flags.private_key)) read_private_key
    key ← private_key_of pem
    ok (record {
      manifest = manifest;
      signature = t.ed25519_sign key manifest;
      artifact = artifact;
    })
