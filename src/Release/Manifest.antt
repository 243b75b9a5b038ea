-- ===== src/Release/Manifest.antt =====
-- The manifest of a release: `Validate`, `ReleaseID` and `Decode`.
use srv_deployment.Prelude.{
  ℕ, Bool, true, false, not, ◌&&◌, ◌||◌, Option, none, some, ◌∷◌, ◌++◌, leb, ◌==◌, ◌!=◌, Text,
  codes, if◌then◌else◌, length, take, ℤ, pos, ltb_ℤ, leb_ℤ, Result, ok, err, guard, or_fail,
  text_eq, nat_eq, int_eq, ◌>>=◌, ◌>>◌,
}
use srv_deployment.Strings.{all_chars}
use srv_deployment.Release.Identifier.{is_digit}
use srv_deployment.Release.Version.{parse_sem_ver}
use srv_deployment.Release.Version

abbrev pub manifest_schema : ℤ
manifest_schema = pos 1

pub record Artifact : Type 0 where
  pub name : Text
  pub sha256 : Text
  pub size : ℤ

pub record Manifest : Type 0 where
  pub schema : ℤ
  pub product : Text
  pub version : Text
  pub channel : Text
  pub commit : Text
  pub built_at : Text
  pub os : Text
  pub arch : Text
  pub state_schema_min : ℤ
  pub state_schema_max : ℤ
  pub artifact : Artifact

pub data Error : Type 0 where
  unsupported_manifest_schema product_mismatch invalid_version invalid_built_at invalid_channel
        invalid_commit unsupported_os unsupported_arch invalid_schema_range invalid_artifact
        decode_manifest multiple_values trailing_data read_manifest read_signature read_public_key
        invalid_pem parse_public_key not_ed25519 signature_mismatch platform_mismatch
        incompatible_schema read_artifact size_mismatch digest_mismatch :
      Error

-- What a second `dec.Decode` finds after the first value: `io.EOF`, a value, or another error.
pub data Trailing : Type 0 where
  end_of_file : Trailing
  another_value : Trailing
  not_json : Trailing

-- `time.Parse(time.RFC3339, s)` succeeds; a `json.Decoder` that disallows unknown fields on the bytes
-- of a manifest, `none` for an error, and what it finds after it.
pub record Formats : Type 0 where
  pub is_rfc3339 : Text → Bool
  pub first_value : Text → Option Manifest
  pub second_value : Text → Trailing

-- `[0-9a-f]`
abbrev pub is_hex : ℕ → Bool
is_hex r = is_digit r || leb b'a' r && leb r b'f'

-- `commitRE`: `^[0-9a-f]{7,64}$`
unfoldable pub is_commit : Text → Bool
is_commit s = leb 7 (length s) && leb (length s) 64 && all_chars is_hex s

-- `digestRE`: `^[0-9a-f]{64}$`
unfoldable pub is_digest : Text → Bool
is_digest s = length s == 64 && all_chars is_hex s

abbrev parsed : {A : Type 0} → Result Version.Error A → Bool
parsed (ok v) = true
parsed (err e) = false

unfoldable pub validate : Formats → Manifest → Result Error Unit
validate f m = do
  guard (m.schema == manifest_schema) unsupported_manifest_schema
  guard (m.product == codes "Control Center") product_mismatch
  guard (parsed (parse_sem_ver m.version)) invalid_version
  guard (f.is_rfc3339 m.built_at) invalid_built_at
  guard (m.channel == codes "beta" || m.channel == codes "stable") invalid_channel
  guard (is_commit m.commit) invalid_commit
  guard (m.os == codes "linux") unsupported_os
  guard (m.arch == codes "amd64" || m.arch == codes "arm64") unsupported_arch
  guard (not (ltb_ℤ m.state_schema_min (pos 1) || ltb_ℤ m.state_schema_max m.state_schema_min))
      invalid_schema_range
  guard
      (not (
        m.artifact.name != codes "control-center"
        || not (is_digest m.artifact.sha256)
        || leb_ℤ m.artifact.size (pos 0)))
      invalid_artifact

-- `s[:n]`, which panics on a shorter string
abbrev pub prefix : ℕ → Text → Option Text
prefix n s = if leb n (length s) then some (take n s) else none

infixl 5 ◌>>?◌
abbrev ◌>>?◌ : {A B : Type 0} → Option A → (A → Option B) → Option B
none >>? g = none
some a >>? g = g a

-- `ReleaseID`; `none` for a panic.
unfoldable pub release_id : Manifest → Option Text
release_id m = prefix 12 m.commit >>? λ commit.
    prefix 12 m.artifact.sha256 >>? λ digest. some (m.version ++ b'-' ∷ commit ++ b'-' ∷ digest)

abbrev no_more : Trailing → Result Error Unit
no_more end_of_file = ok tt
no_more another_value = err multiple_values
no_more not_json = err trailing_data

unfoldable pub decode : Formats → Text → Result Error Manifest
decode f b = do
  m ← or_fail (f.first_value b) decode_manifest
  no_more (f.second_value b)
  validate f m
  ok m
