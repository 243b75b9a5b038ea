-- ===== src/Auth/Limiter.antt =====
-- `LoginLimiter` (internal/auth/rate.go). A time is a number of nanoseconds, 0 for the zero `Time`.
pub mod Window
use srv_deployment.Prelude.{
  ℕ, zero, suc, ◌+◌, ◌-◌, ◌^◌, Bool, true, ◌||◌, Option, none, some, [], ltb, ◌==◌, Text,
  if◌then◌else◌, ℤ, pos, negsuc, ltb_ℤ, text_eq, nat_eq, int_eq,
}
use srv_deployment.Dict
use srv_deployment.Dict.{Dict}

pub record RateEntry : Type 0 where
  pub count : ℤ
  pub reset : ℕ

pub record LoginLimiter : Type 0 where
  pub entries : Dict RateEntry
  pub limit : ℤ
  pub window : ℕ

unfoldable pub new_login_limiter : ℤ → ℕ → LoginLimiter
new_login_limiter limit window = record { entries = []; limit = limit; window = window }

-- A missing key reads as the zero entry.
abbrev pub entry_of : Option RateEntry → RateEntry
entry_of none = record { count = pos 0; reset = 0 }
entry_of (some e) = e

-- `e.Reset.IsZero() || now.After(e.Reset)`
abbrev pub is_over : RateEntry → ℕ → Bool
is_over e now = e.reset == 0 || ltb e.reset now

-- `count++` on an int64
abbrev pub next_count : ℤ → ℤ
next_count (pos n) = if n == 2 ^ 63 - 1 then negsuc (2 ^ 63 - 1) else pos (n + 1)
next_count (negsuc zero) = pos 0
next_count (negsuc (suc n)) = negsuc n

unfoldable pub allowed : Text → ℕ → LoginLimiter → Bool × LoginLimiter
allowed key now l =
    let e = entry_of (Dict.get l.entries key) in
    if is_over e now
    then (true, record l { entries = Dict.remove l.entries key })
    else (ltb_ℤ e.count l.limit, l)

unfoldable pub failure : Text → ℕ → LoginLimiter → LoginLimiter
failure key now l =
    let found = entry_of (Dict.get l.entries key) in
    let e = if is_over found now then record { count = pos 0; reset = now + l.window } else found in
    record l { entries = Dict.put l.entries key (record e { count = next_count e.count }) }

unfoldable pub success : Text → LoginLimiter → LoginLimiter
success key l = record l { entries = Dict.remove l.entries key }
