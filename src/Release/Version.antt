-- ===== src/Release/Version.antt =====
-- Semantic versions: `parseSemVer`, `validateIdentifiers` and `CompareVersions`.
use srv_deployment.Prelude.{
  Bool, true, false, not, ◌&&◌, List, [], ◌∷◌, ◌==◌, ◌!=◌, Text, ℤ, pos, minus_one, Result, ok, err,
  ◌>>=◌, ◌>>◌, guard, or_fail, text_eq, nat_eq, int_eq,
}
use srv_deployment.Strings.{split, all_chars}
use srv_deployment.Release.Order.{or_else}
use srv_deployment.Release.Pattern.{is_identifier_char, find_submatch}
use srv_deployment.Release.Identifier.{all_digits, compare_numeric_identifier, compare_identifier}

pub record SemVersion : Type 0 where
  pub major : Text
  pub minor : Text
  pub patch : Text
  pub pre : List Text

pub data Error : Type 0 where
  empty_identifier invalid_identifier_character leading_zero : Error
  invalid_semantic_version : Text → Error

abbrev has_leading_zero : Text → Bool
has_leading_zero [] = false
has_leading_zero (c ∷ []) = false
has_leading_zero (c ∷ d ∷ s) = c == b'0'

-- One round of the loop of `validateIdentifiers`.
unfoldable pub validate_identifier : Bool → Text → Result Error Unit
validate_identifier prerelease part = do
  guard (part != []) empty_identifier
  guard (all_chars is_identifier_char part) invalid_identifier_character
  guard (not (prerelease && has_leading_zero part && all_digits part)) leading_zero

unfoldable pub validate_each : Bool → List Text → Result Error Unit
validate_each prerelease [] = ok tt
validate_each prerelease (part ∷ parts) =
    validate_identifier prerelease part >> validate_each prerelease parts

unfoldable pub validate_identifiers : Text → Bool → Result Error (List Text)
validate_identifiers [] prerelease = ok []
validate_identifiers (c ∷ s) prerelease = do
  let parts = split b'.' (c ∷ s)
  validate_each prerelease parts >>= λ _. ok parts

-- `if err != nil { return semVersion{}, fmt.Errorf("invalid semantic version: %s", s) }`
abbrev or_invalid : {A : Type 0} → Text → Result Error A → Result Error A
or_invalid s (ok a) = ok a
or_invalid s (err e) = err (invalid_semantic_version s)

unfoldable pub parse_sem_ver : Text → Result Error SemVersion
parse_sem_ver s = do
  matches ← or_fail (find_submatch s) (invalid_semantic_version s)
  pre ← or_invalid s (validate_identifiers matches.pre true)
  or_invalid s (validate_identifiers matches.build false) >>= λ _.
      ok (record { major = matches.major; minor = matches.minor; patch = matches.patch; pre = pre })

-- The loop over both lists of prerelease identifiers, up to the longer one.
unfoldable pub compare_identifiers : List Text → List Text → ℤ
compare_identifiers [] [] = pos 0
compare_identifiers [] (b ∷ bs) = minus_one
compare_identifiers (a ∷ as') [] = pos 1
compare_identifiers (a ∷ as') (b ∷ bs) =
    or_else (compare_identifier a b) (compare_identifiers as' bs)

-- A version with no prerelease comes after those with one.
unfoldable pub compare_pre : List Text → List Text → ℤ
compare_pre [] [] = pos 0
compare_pre [] (b ∷ bs) = pos 1
compare_pre (a ∷ as') [] = minus_one
compare_pre (a ∷ as') (b ∷ bs) = compare_identifiers (a ∷ as') (b ∷ bs)

-- `CompareVersions` after both versions are parsed.
unfoldable pub compare_sem_ver : SemVersion → SemVersion → ℤ
compare_sem_ver av bv = or_else (compare_numeric_identifier av.major bv.major) (
    or_else (compare_numeric_identifier av.minor bv.minor)
      (or_else (compare_numeric_identifier av.patch bv.patch) (compare_pre av.pre bv.pre)))

unfoldable pub compare_versions : Text → Text → Result Error ℤ
compare_versions a b = do av ← parse_sem_ver a; bv ← parse_sem_ver b; ok (compare_sem_ver av bv)
