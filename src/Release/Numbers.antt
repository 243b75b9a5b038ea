-- ===== src/Release/Numbers.antt =====
-- The numbers of a version, and how `CompareVersions` compares them.
use srv_deployment.Prelude.{◌≡◌, refl, inl, inr, arith, Text, Option-cases, ok}
use srv_deployment.Release.Order.{or_else}
use srv_deployment.Release.Identifier.{compare_numeric_identifier}
use srv_deployment.Release.Pattern.{IsNumeral, find_submatch, find_submatch-IsNumeral}
use srv_deployment.Release.Value.{value, compare_nat, compare_numeric_identifier-value}
use srv_deployment.Release.Version.{
  SemVersion, parse_sem_ver, compare_pre, compare_sem_ver, compare_versions,
}

abbrev HasNumerals : SemVersion → Type 0
HasNumerals v = IsNumeral v.major × IsNumeral v.minor × IsNumeral v.patch

parse_sem_ver-HasNumerals : (s : Text) (v : SemVersion) → parse_sem_ver s ≡ ok v → HasNumerals v
unfolding parse_sem_ver
parse_sem_ver-HasNumerals s v h = elim (Option-cases (find_submatch s)) [
  | inl e ↦ absurd (ground (arith, e))
  | inr (m, e) ↦
      let (major, minor, patch) = find_submatch-IsNumeral s m e in
      (ground (arith, e, major), ground (arith, e, minor), ground (arith, e, patch))
]

numerals-value :
    (a b : Text)
    → IsNumeral a
    → IsNumeral b
    → compare_numeric_identifier a b ≡ compare_nat (value a) (value b)
numerals-value a b ha hb = compare_numeric_identifier-value a b ha.0 hb.0 ha.1 hb.1

-- The order of two versions that parse: the first of their major, minor and patch numbers that
-- differ as numbers decides, and after these the prerelease identifiers.
pub compare_versions-value :
    (a b : Text) (av bv : SemVersion)
    → parse_sem_ver a ≡ ok av
    → parse_sem_ver b ≡ ok bv
    → compare_versions a b
      ≡ ok (
          or_else (compare_nat (value av.major) (value bv.major)) (
            or_else (compare_nat (value av.minor) (value bv.minor)) (
              or_else (compare_nat (value av.patch) (value bv.patch)) (compare_pre av.pre bv.pre))))
unfolding compare_versions compare_sem_ver
compare_versions-value a b av bv h k =
    let (major, minor, patch) = parse_sem_ver-HasNumerals a av h in
    let (major', minor', patch') = parse_sem_ver-HasNumerals b bv k in
    rw
      (
        h,
        k,
        numerals-value av.major bv.major major major',
        numerals-value av.minor bv.minor minor minor',
        numerals-value av.patch bv.patch patch patch',
      )
      refl
