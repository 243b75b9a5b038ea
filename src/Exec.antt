-- ===== src/Exec.antt =====
-- A method that changes shared state and may return an error: what was changed before the error
-- stays changed, so that the state comes back beside the error.
use srv_deployment.Prelude.{Bool, true, false, Result, ok, err}

abbrev pub Exec : Type 0 → Type 0 → Type 0 → Type 0
Exec E S A = S → Result E A × S

module _ {E S A B : Type 0} where
  abbrev pub continue : Result E A → (A → Exec E S B) → Exec E S B
  continue (ok a) f s = f a s
  continue (err e) f s = (err e, s)

  infixl 5 ◌>>=◌
  abbrev pub ◌>>=◌ : Exec E S A → (A → Exec E S B) → Exec E S B
  ◌>>=◌ m f s = continue (m s).0 f (m s).1

module _ {E S B : Type 0} where
  infixl 5 ◌>>◌
  abbrev pub ◌>>◌ : Exec E S Unit → Exec E S B → Exec E S B
  m >> n = m >>= λ _. n

module _ {E S A : Type 0} where
  abbrev pub pure : A → Exec E S A
  pure a s = (ok a, s)

  abbrev pub raise : E → Exec E S A
  raise e s = (err e, s)

  abbrev pub lift : Result E A → Exec E S A
  lift r s = (r, s)

  abbrev pub gets : (S → A) → Exec E S A
  gets f s = (ok (f s), s)

module _ {E S : Type 0} where
  abbrev pub modify : (S → S) → Exec E S Unit
  modify f s = (ok tt, f s)

  -- `if !test { return e }`
  abbrev pub check : Bool → E → Exec E S Unit
  check true e s = (ok tt, s)
  check false e s = (err e, s)
