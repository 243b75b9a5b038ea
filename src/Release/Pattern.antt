-- ===== src/Release/Pattern.antt =====
-- `versionRE`, as a matcher by hand: the byte that follows a group in the pattern never belongs to
-- the group, so that no backtracking is needed.
use srv_deployment.Prelude.{
  ℕ, ◌≡◌, refl, sym, ap, Bool, true, false, ◌&&◌, ◌||◌, Option, none, some, [], ◌∷◌, arith, leb,
  ◌==◌, ◌!=◌, Text, if◌then◌else◌, text_eq, nat_eq, int_eq,
}
use srv_deployment.Release.Identifier.{is_digit, all_digits}

-- The five groups of a match, `""` for a group that takes no part in it.
pub record Matches : Type 0 where
  pub major : Text
  pub minor : Text
  pub patch : Text
  pub pre : Text
  pub build : Text

-- The longest prefix whose bytes pass a test, and the rest.
unfoldable pub span : (ℕ → Bool) → Text → Text × Text
span p [] = ([], [])
span p (c ∷ s) = let (taken, rest) = span p s in if p c then (c ∷ taken, rest) else ([], c ∷ s)

abbrev pub is_alphanumeric : ℕ → Bool
is_alphanumeric r = is_digit r || leb b'A' r && leb r b'Z' || leb b'a' r && leb r b'z'

-- `[0-9A-Za-z-]`
abbrev pub is_identifier_char : ℕ → Bool
is_identifier_char r = is_alphanumeric r || r == b'-'

-- `[0-9A-Za-z.-]`
abbrev pub is_group_char : ℕ → Bool
is_group_char r = is_identifier_char r || r == b'.'

-- `0|[1-9][0-9]*`, on a run of digits
unfoldable pub is_canonical : Text → Bool
is_canonical [] = false
is_canonical (c ∷ []) = true
is_canonical (c ∷ d ∷ s) = c != b'0'

-- `(0|[1-9][0-9]*)`: what follows it in the pattern is no digit, so that it takes all of them.
unfoldable pub numeric_group : Text → Option (Text × Text)
numeric_group s =
    let (digits, rest) = span is_digit s in
    if is_canonical digits then some (digits, rest) else none

unfoldable pub expect : ℕ → Text → Option Text
expect c [] = none
expect c (d ∷ s) = if d == c then some s else none

-- `(?:-([0-9A-Za-z.-]+))?` and `(?:\+([0-9A-Za-z.-]+))?`
abbrev pub group_or_skip : Text → Text × Text → Text × Text
group_or_skip s ([], rest) = ([], s)
group_or_skip s (c ∷ group, rest) = (c ∷ group, rest)

unfoldable pub optional_group : ℕ → Text → Text × Text
optional_group mark [] = ([], [])
optional_group mark (c ∷ s) =
    if c == mark then group_or_skip (c ∷ s) (span is_group_char s) else ([], c ∷ s)

infixl 5 ◌>>=◌
abbrev ◌>>=◌ : {A B : Type 0} → Option A → (A → Option B) → Option B
none >>= f = none
some a >>= f = f a

abbrev at_end : Text → Matches → Option Matches
at_end [] m = some m
at_end (c ∷ s) m = none

-- `versionRE.FindStringSubmatch(s)`
unfoldable pub find_submatch : Text → Option Matches
find_submatch s = do
  (major, s₁) ← numeric_group s
  s₂ ← expect b'.' s₁
  (minor, s₃) ← numeric_group s₂
  s₄ ← expect b'.' s₃
  (patch, s₅) ← numeric_group s₄
  let (pre, s₆) = optional_group b'-' s₅
  let (build, s₇) = optional_group b'+' s₆
  at_end s₇ (record { major = major; minor = minor; patch = patch; pre = pre; build = build })

>>=-eq-some :
    {A B : Type 0} (m : Option A) (f : A → Option B) {b : B}
    → (m >>= f) ≡ some b
    → (a : A) × (m ≡ some a) × (f a ≡ some b)
>>=-eq-some none f h = absurd (cc)
>>=-eq-some (some a) f h = (a, refl, h)

-- A number of the pattern.
abbrev pub IsNumeral : Text → Type 0
IsNumeral s = (all_digits s ≡ true) × (is_canonical s ≡ true)

span-digits : (s : Text) → all_digits (span is_digit s).0 ≡ true
unfolding span all_digits
span-digits [] = refl
span-digits (c ∷ s) = ground (arith, span-digits s)

numeric_group-IsNumeral : (s : Text) (g : Text × Text) → numeric_group s ≡ some g → IsNumeral g.0
unfolding numeric_group
numeric_group-IsNumeral s g h = let digits = span-digits s in (ground (arith, digits), ground arith)

at_end-eq-some : (s : Text) (m : Matches) {n : Matches} → at_end s m ≡ some n → m ≡ n
at_end-eq-some [] m h = grind arith
at_end-eq-some (c ∷ s) m h = absurd (cc)

pub find_submatch-IsNumeral :
    (s : Text) (m : Matches)
    → find_submatch s ≡ some m
    → IsNumeral m.major × IsNumeral m.minor × IsNumeral m.patch
unfolding find_submatch
find_submatch-IsNumeral s m h =
    let (g, e, h1) = >>=-eq-some (numeric_group s) _ h in
    let (s2, e2, h2) = >>=-eq-some (expect b'.' g.1) _ h1 in
    let (g3, e3, h3) = >>=-eq-some (numeric_group s2) _ h2 in
    let (s4, e4, h4) = >>=-eq-some (expect b'.' g3.1) _ h3 in
    let (g5, e5, h5) = >>=-eq-some (numeric_group s4) _ h4 in
    let at = at_end-eq-some _ _ h5 in
    (
      rw (sym (ap (λ m. m.major) at)) (numeric_group-IsNumeral s g e),
      rw (sym (ap (λ m. m.minor) at)) (numeric_group-IsNumeral s2 g3 e3),
      rw (sym (ap (λ m. m.patch) at)) (numeric_group-IsNumeral s4 g5 e5),
    )
