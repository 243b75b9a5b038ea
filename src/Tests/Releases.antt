-- ===== src/Tests/Releases.antt =====
-- internal/release
use srv_deployment.Prelude.{
  ◌≡◌, refl, ◌↔◌, ◌⊎◌, [], arith, Text, Text_discrete, codes, ℕ_discrete, pos, minus_one, ok, err,
}
use srv_deployment.Release.Identifier.{
  all_digits, is_digits, compare_text, compare_numeric_identifier, compare_identifier,
}
use srv_deployment.Release.Pattern.{
  span, is_canonical, numeric_group, expect, optional_group, find_submatch,
}
use srv_deployment.Release.Order.{or_else}
use srv_deployment.Release.Value.{value, compare_nat}
use srv_deployment.Release.Numbers.{compare_versions-value}
use srv_deployment.Release.Precedence.{
  compare_versions-flip, compare_versions_trans, compare_versions-zero_iff,
}
use srv_deployment.Release.Version.{
  SemVersion, invalid_semantic_version, validate_identifier, validate_each, validate_identifiers,
  parse_sem_ver, compare_identifiers, compare_pre, compare_sem_ver, compare_versions,
}
use srv_deployment.Strings.{all_chars, split}
use srv_deployment.Strings.Compare.{text_lt}

unfoldable pub comparison : Unit {0}
unfolding compare_versions parse_sem_ver find_submatch numeric_group expect optional_group
    is_canonical span split all_chars validate_identifiers validate_each validate_identifier
    all_digits is_digits compare_sem_ver compare_pre compare_identifiers compare_identifier
    compare_text compare_numeric_identifier text_lt Text_discrete ℕ_discrete
comparison = tt

abbrev candidate : Text
candidate = codes "1.0.0-rc.1+build.7"

abbrev stable : Text
stable = codes "1.0.0"

abbrev beta : Text
beta = codes "1.0.0-beta.11"

candidate-stable : compare_versions candidate stable ≡ ok minus_one
unfolding comparison
candidate-stable = refl

beta-candidate : compare_versions beta candidate ≡ ok minus_one
unfolding comparison
beta-candidate = refl

incomplete : compare_versions (codes "1.0") stable ≡ err (invalid_semantic_version (codes "1.0"))
unfolding comparison
incomplete = refl

leading_zero :
    compare_versions (codes "1.0.0-01") stable ≡ err (invalid_semantic_version (codes "1.0.0-01"))
unfolding comparison
leading_zero = refl

compare_versions-flip_example :
    (compare_versions stable candidate ≡ ok (pos 1))
    × ((minus_one ≡ minus_one) ⊎ (minus_one ≡ pos 0) ⊎ (minus_one ≡ pos 1))
compare_versions-flip_example = compare_versions-flip candidate stable minus_one candidate-stable

compare_versions_trans_example : compare_versions beta stable ≡ ok minus_one
compare_versions_trans_example =
    compare_versions_trans beta candidate stable minus_one minus_one beta-candidate candidate-stable
      (omega arith) (omega arith)

compare_versions-zero_iff_example :
    (compare_versions stable (codes "1.0.0+x") ≡ ok (pos 0))
    ↔ ((v : SemVersion) × (parse_sem_ver stable ≡ ok v) × (parse_sem_ver (codes "1.0.0+x") ≡ ok v))
compare_versions-zero_iff_example = compare_versions-zero_iff stable (codes "1.0.0+x")

abbrev parsed : Text → SemVersion
parsed minor = record { major = codes "1"; minor = minor; patch = codes "0"; pre = [] }

ten : parse_sem_ver (codes "1.10.0") ≡ ok (parsed (codes "10"))
unfolding comparison
ten = refl

nine : parse_sem_ver (codes "1.9.0") ≡ ok (parsed (codes "9"))
unfolding comparison
nine = refl

compare_versions-value_example :
    compare_versions (codes "1.10.0") (codes "1.9.0")
    ≡ ok (
        or_else (compare_nat (value (codes "1")) (value (codes "1"))) (
          or_else
            (compare_nat (value (codes "10")) (value (codes "9")))
            (or_else (compare_nat (value (codes "0")) (value (codes "0"))) (compare_pre [] []))))
compare_versions-value_example =
    compare_versions-value (codes "1.10.0") (codes "1.9.0") (parsed (codes "10"))
      (parsed (codes "9")) ten nine
