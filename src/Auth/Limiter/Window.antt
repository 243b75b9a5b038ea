-- ===== src/Auth/Limiter/Window.antt =====
-- A window of failures locks a key out, and only that key, until the window ends.
use srv_deployment.Prelude.{
  ℕ, ◌+◌, ◌^◌, ◌≤◌, ◌<◌, ◌≡◌, refl, ◌∙◌, ◌≢◌, true, some, List, [], ◌∷◌, arith, ltb, Text,
  if◌then◌else◌, length, pos, ltb_ℤ,
}
use srv_deployment.Dict
use srv_deployment.Dict.{get-put, get-remove}
use srv_deployment.Auth.Limiter.{
  LoginLimiter, RateEntry, entry_of, is_over, allowed, failure, success,
}

-- Failures of one key, at the times given.
abbrev pub failures : Text → List ℕ → LoginLimiter → LoginLimiter
failures key [] l = l
failures key (t ∷ ts) l = failures key ts (failure key t l)

abbrev pub AllAtMost : ℕ → List ℕ → Type 0
AllAtMost n [] = Unit
AllAtMost n (t ∷ ts) = (t ≤ n) × AllAtMost n ts

abbrev pub entry : Text → LoginLimiter → RateEntry
entry key l = entry_of (Dict.get l.entries key)

failures-count :
    (key : Text) (ts : List ℕ) (l : LoginLimiter) (n reset : ℕ)
    → Dict.get l.entries key ≡ some (record { count = pos n; reset = reset })
    → 0 < reset
    → AllAtMost reset ts
    → n + length ts < 2 ^ 63
    → (Dict.get (failures key ts l).entries key
        ≡ some (record { count = pos (n + length ts); reset = reset }))
      × ((failures key ts l).limit ≡ l.limit)
unfolding failure
failures-count key [] l n reset h live early small = (rw h (ground arith), refl)
failures-count key (t ∷ ts) l n reset h live (first, early) small =
    let e = get-put l.entries key key (record { count = pos (n + 1); reset = reset }) in
    let step : Dict.get (failure key t l).entries key
        ≡ some (record { count = pos (n + 1); reset = reset }) =
      ground (arith, h, e) in
    let (found, same) =
      failures-count key ts (failure key t l) (n + 1) reset step live early (omega arith) in
    (found ∙ ground arith, same)

module _ (key : Text) (t : ℕ) (ts : List ℕ) (l : LoginLimiter) where
  -- A first failure with no window open for the key, and more while the window that it opens lasts
  -- (fewer than 2^63 in all). Up to the end of the window the key is allowed exactly if the failures
  -- are fewer than the limit; after it the key is allowed again.
  pub allowed-failures :
      is_over (entry key l) t ≡ true
      → 0 < t + l.window
      → AllAtMost (t + l.window) ts
      → 1 + length ts < 2 ^ 63
      → (now : ℕ)
      → (allowed key now (failures key (t ∷ ts) l)).0
        ≡ (if ltb (t + l.window) now then true else ltb_ℤ (pos (1 + length ts)) l.limit)
  unfolding failure allowed
  allowed-failures over positive early small now =
      let start : RateEntry = record { count = pos 1; reset = t + l.window } in
      let first : Dict.get (failure key t l).entries key ≡ some start =
        ground (arith, get-put l.entries key key start) in
      let (found, same) =
        failures-count key ts (failure key t l) 1 (t + l.window) first positive early small in
      ground (arith, found, same)

module _ (key : Text) (t : ℕ) (l : LoginLimiter) where
  -- Failures and successes of one key do not change whether another key is allowed.
  allowed-other :
      (other : Text)
      → key ≢ other
      → (now : ℕ)
      → ((allowed other now (failure key t l)).0 ≡ (allowed other now l).0)
        × ((allowed other now (success key l)).0 ≡ (allowed other now l).0)
        × ((allowed other now (allowed key t l).1).0 ≡ (allowed other now l).0)
  unfolding failure success allowed
  allowed-other other apart now = (
    grind (arith, get-put),
    ground (arith, get-remove l.entries key other),
    ground (arith, get-remove l.entries key other),
  )

-- A success ends the window: the key is allowed, whatever its failures.
pub allowed-success :
    (key : Text) (now : ℕ) (l : LoginLimiter) → (allowed key now (success key l)).0 ≡ true
unfolding success allowed
allowed-success key now l = ground (arith, get-remove l.entries key key)
