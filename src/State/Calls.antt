-- ===== src/State/Calls.antt =====
-- The methods that change a user, as calls with their arguments, and their results without the user
-- that two of them return.
use srv_deployment.Prelude.{
  ℕ, ◌≡◌, refl, Bool, true, false, not, Option, arith, Text, Result, ok, err,
}
use srv_deployment.Platform.{Platform}
use srv_deployment.State.Document.{
  World, Error, encode_failed, persist_secrets, persist_state, persist_bootstrap, Encoder, Writes,
  write, persist_locked,
}
use srv_deployment.State.Store.{create_user, set_blocked, change_password}

pub data Call : Type 0 where
  creates : (salt : Option Text) (now : ℕ) (username pass role : Text) → Call
  blocks : (username : Text) (blocked : Bool) → Call
  changes : (salt : Option Text) (now : ℕ) (username old new : Text) → Call

abbrev pub drop_value : {A : Type 0} → Result Error A → Result Error Unit
drop_value (ok a) = ok tt
drop_value (err e) = err e

abbrev forget : {A : Type 0} → Result Error A × World → Result Error Unit × World
forget (r, w) = (drop_value r, w)

pub drop_value-eq-ok :
    {A : Type 0} (r : Result Error A) → drop_value r ≡ ok tt → (a : A) × (r ≡ ok a)
drop_value-eq-ok (ok a) h = (a, refl)
drop_value-eq-ok (err e) h = absurd (cc)

abbrev pub is_persist : Error → Bool
is_persist encode_failed = true
is_persist persist_secrets = true
is_persist persist_state = true
is_persist persist_bootstrap = true
is_persist _ = false

abbrev fails_early : {A : Type 0} → Result Error A → Bool
fails_early (ok a) = false
fails_early (err e) = not (is_persist e)

module _ (p : Platform) (c : Encoder) (o : Writes) where
  unfoldable pub run : Call → World → Result Error Unit × World
  run (creates salt now username pass role) w =
      forget (create_user p c o salt now username pass role w)
  run (blocks username blocked) w = forget (set_blocked p c o username blocked w)
  run (changes salt now username old new) w = change_password p c o salt now username old new w

  persist_fails_late : (w : World) → fails_early (persist_locked c o w).0 ≡ false
  unfolding persist_locked write
  persist_fails_late w = ground arith

  early_unchanged :
      (call : Call) (w : World) → fails_early (run call w).0 ≡ true → (run call w).1 ≡ w
  unfolding run create_user set_blocked change_password
  early_unchanged (creates salt now username pass role) w h = grind (arith, persist_fails_late)
  early_unchanged (blocks username blocked) w h = grind (arith, persist_fails_late)
  early_unchanged (changes salt now username old new) w h = grind (arith, persist_fails_late)

  -- A call of `CreateUser`, `SetBlocked` or `ChangePassword` that returns an error other than one of
  -- persisting has changed nothing, neither in memory nor on disk.
  pub refused_unchanged :
      (call : Call) (w : World) (e : Error)
      → (run call w).0 ≡ err e
      → is_persist e ≡ false
      → (run call w).1 ≡ w
  refused_unchanged call w e h k = early_unchanged call w (rw (h, k) refl)
