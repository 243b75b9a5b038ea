-- ===== src/Release/Identity.antt =====
-- `ReleaseID` of the manifests that `Validate` accepts.
use srv_deployment.Prelude.{◌≤◌, ◌<◌, ◌≡◌, ◌↔◌, true, none, arith, Text, length, ok}
use srv_deployment.Strings.{all_chars}
use srv_deployment.Release.Manifest.{
  Manifest, Formats, validate, is_hex, is_commit, is_digest, release_id,
}

validate-is_commit : (f : Formats) (m : Manifest) → validate f m ≡ ok tt → is_commit m.commit ≡ true
unfolding validate
validate-is_commit f m h = ground arith

validate-is_digest :
    (f : Formats) (m : Manifest) → validate f m ≡ ok tt → is_digest m.artifact.sha256 ≡ true
unfolding validate
validate-is_digest f m h = ground arith

-- A valid manifest has no release id, since taking it panics, exactly when its commit has fewer than
-- twelve characters; and its validity rules none of these out from seven on, since it stays valid with
-- any commit of seven to 64 lowercase hexadecimal digits.
pub release_id-none_iff :
    (f : Formats) (m : Manifest)
    → validate f m ≡ ok tt
    → ((release_id m ≡ none) ↔ (length m.commit < 12))
      × (7 ≤ length m.commit)
      × ((commit : Text)
          → all_chars is_hex commit ≡ true
          → 7 ≤ length commit
          → length commit ≤ 64
          → validate f (record m { commit = commit }) ≡ ok tt)
unfolding release_id is_commit is_digest validate
release_id-none_iff f m h = (
  (λ none_. ground (arith, validate-is_digest f m h), λ short. ground arith),
  ground (arith, validate-is_commit f m h),
  λ commit hex least most. ground arith,
)
