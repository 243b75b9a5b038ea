-- ===== src/Prelude/Tests.antt =====
-- Boolean tests, an equality test by instances, the conditional, and case splits that keep an equation.
use Prim.Native.Nat.{ℕ, compare, Ordering}
use mathlib.Core.Path.{◌≡◌, refl}
use mathlib.Core.Logic.{◌⊎◌, inl, inr}
use mathlib.Core.Bool.{Bool, true, false, not}
use mathlib.Core.Option.{Option, none, some}
use mathlib.Core.List.{List, [], ◌∷◌, nil≢cons, cons≢nil, head-eq_of_cons-eq, tail-eq_of_cons-eq}
use Prim.Native.Char.{code}
use Prim.Native.String.{String}
use native.Mathlib.Decide.{ℕ_discrete}

abbrev pub ltb : ℕ → ℕ → Bool
ltb a b = elim (compare a b) [ Ordering.lt ↦ true | _ ↦ false ]

abbrev pub leb : ℕ → ℕ → Bool
leb a b = elim (compare a b) [ Ordering.gt ↦ false | _ ↦ true ]

infix 1 if◌then◌else◌
abbrev pub if◌then◌else◌ {ℓ} : {A : Type ℓ} → Bool → A → A → A
if true then x else y = x
if false then x else y = y

pub Bool-cases : (b : Bool) → (b ≡ true) ⊎ (b ≡ false)
Bool-cases true = inl refl
Bool-cases false = inr refl

pub Option-cases {ℓ} : {A : Type ℓ} (o : Option A) → (o ≡ none) ⊎ ((a : A) × (o ≡ some a))
Option-cases none = inl refl
Option-cases (some a) = inr (a, refl)

-- Go's `string`: its bytes.
abbrev pub Text : Type 0
Text = List ℕ

discrete_cons :
    {c d : ℕ} {s t : Text} → Dec (c ≡ d) → Dec (s ≡ t) → Dec (◌≡◌ {A = Text} (c ∷ s) (d ∷ t))
discrete_cons (yes p) (yes q) = yes (λ i. p i ∷ q i)
discrete_cons (yes p) (no q) = no (λ e. q (tail-eq_of_cons-eq e))
discrete_cons (no p) _ = no (λ e. p (head-eq_of_cons-eq e))

unfoldable pub Text_discrete : Discrete Text
unfolding ℕ_discrete discrete_cons
Text_discrete [] [] = yes refl
Text_discrete [] (d ∷ t) = no nil≢cons
Text_discrete (c ∷ s) [] = no cons≢nil
Text_discrete (c ∷ s) (d ∷ t) = discrete_cons (ℕ_discrete c d) (Text_discrete s t)

-- An interface of Go's `==`, with one operator for every type that has an instance.
pub record Eq (A : Type 0) : Type 0 where
  pub beq : A → A → Bool

infix 50 ◌==◌ ◌!=◌
abbrev pub ◌==◌ : {A : Type 0} ⦃e : Eq A⦄ → A → A → Bool
◌==◌ ⦃e⦄ = e.beq

abbrev pub ◌!=◌ : {A : Type 0} ⦃e : Eq A⦄ → A → A → Bool
◌!=◌ ⦃e⦄ a b = not (e.beq a b)

instance abbrev pub nat_eq : Eq ℕ
nat_eq = record { beq = λ a b. elim (compare a b) [ Ordering.eq ↦ true | _ ↦ false ] }

instance abbrev pub text_eq : Eq Text
text_eq = record { beq = λ a b. elim (Text_discrete a b) [ yes _ ↦ true | no _ ↦ false ] }

-- The bytes of an ASCII literal.
abbrev pub codes : String → Text
codes String.[] = []
codes (String.◌∷◌ c s) = code c ∷ codes s
