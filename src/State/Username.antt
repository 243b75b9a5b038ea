-- ===== src/State/Username.antt =====
-- `usernameRE` and `normalizeUsername` (internal/state/store.go).
use srv_deployment.Prelude.{
  ℕ, ◌≡◌, refl, Bool, true, false, ◌&&◌, ◌||◌, Option, none, some, [], ◌∷◌, map, arith, leb, ◌==◌,
  Text, if◌then◌else◌, length, text_eq, nat_eq, int_eq,
}
use srv_deployment.Strings.{all_chars}
use srv_deployment.Platform.{Platform, TextLaws, IsAscii, trim_left, trim_right, lower_char}

abbrev is_lower : ℕ → Bool
is_lower c = leb b'a' c && leb c b'z'

-- `[a-z0-9._-]`
abbrev is_name_char : ℕ → Bool
is_name_char c = is_lower c || leb b'0' c && leb c b'9' || c == b'.' || c == b'_' || c == b'-'

-- `^[a-z][a-z0-9._-]{2,63}$`
unfoldable pub is_username : Text → Bool
is_username [] = false
is_username (c ∷ s) =
    is_lower c && all_chars is_name_char s && leb 2 (length s) && leb (length s) 63

-- `none` for the error "username must match …"
unfoldable pub normalize_username : Platform → Text → Option Text
normalize_username p username =
    let name = p.to_lower (p.trim_space username) in if is_username name then some name else none

-- A username that is accepted matches the pattern.
pub normalize_username-is_username :
    (p : Platform) (u v : Text) → normalize_username p u ≡ some v → is_username v ≡ true
unfolding normalize_username
normalize_username-is_username p u v h = ground arith

name_chars-IsAscii : (s : Text) → all_chars is_name_char s ≡ true → IsAscii s
unfolding all_chars
name_chars-IsAscii [] h = tt
name_chars-IsAscii (c ∷ s) h = (ground arith, name_chars-IsAscii s (ground arith))

trim_right-name : (s : Text) → all_chars is_name_char s ≡ true → trim_right s ≡ s
unfolding all_chars trim_right
trim_right-name [] h = refl
trim_right-name (c ∷ s) h = ground (arith, trim_right-name s)

lower-name : (s : Text) → all_chars is_name_char s ≡ true → map lower_char s ≡ s
unfolding all_chars
lower-name [] h = refl
lower-name (c ∷ s) h = ground (arith, lower-name s)

is_username-name_chars : (v : Text) → is_username v ≡ true → all_chars is_name_char v ≡ true
unfolding is_username all_chars
is_username-name_chars [] h = ground arith
is_username-name_chars (c ∷ s) h = ground arith

trim-name : (v : Text) → is_username v ≡ true → trim_right (trim_left v) ≡ v
unfolding trim_left is_username
trim-name [] h = ground arith
trim-name (c ∷ s) h = ground (arith, trim_right-name (c ∷ s) (is_username-name_chars (c ∷ s) h))

-- An accepted username is its own normal form.
pub normalize_username_idem :
    {p : Platform} (laws : TextLaws p) (u v : Text)
    → normalize_username p u ≡ some v
    → normalize_username p v ≡ some v
unfolding normalize_username
normalize_username_idem {p} laws u v h =
    let named = normalize_username-is_username p u v h in
    let chars = is_username-name_chars v named in
    let ascii = name_chars-IsAscii v chars in
    rw (
      laws.trim_space_ascii v ascii,
      trim-name v named,
      laws.to_lower_ascii v ascii,
      lower-name v chars,
      named,
    )
