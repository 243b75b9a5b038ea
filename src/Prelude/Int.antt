-- ===== src/Prelude/Int.antt =====
-- Go's `int`, as an integer: `negsuc n` is -(n + 1).
use srv_deployment.Prelude.Tests.{ltb, leb, Eq}
use Prim.Native.Nat.{ℕ, zero, suc, ◌+◌, ◌≤◌, compare, Ordering}
use mathlib.Core.Bool.{Bool, false}

pub data ℤ : Type 0 where
  pos : ℕ → ℤ
  negsuc : ℕ → ℤ

abbrev pub pos_part : ℤ → ℕ
pos_part (pos n) = n
pos_part (negsuc n) = 0

abbrev pub neg_part : ℤ → ℕ
neg_part (pos n) = 0
neg_part (negsuc n) = suc n

abbrev pub neg : ℤ → ℤ
neg (pos zero) = pos 0
neg (pos (suc n)) = negsuc n
neg (negsuc n) = pos (suc n)

infix 50 ◌≤ℤ◌
abbrev pub ◌≤ℤ◌ : ℤ → ℤ → Type 0
a ≤ℤ b = pos_part a + neg_part b ≤ pos_part b + neg_part a

abbrev pub ltb_ℤ : ℤ → ℤ → Bool
ltb_ℤ a b = ltb (pos_part a + neg_part b) (pos_part b + neg_part a)

abbrev pub leb_ℤ : ℤ → ℤ → Bool
leb_ℤ a b = leb (pos_part a + neg_part b) (pos_part b + neg_part a)

abbrev pub eqb_ℤ : ℤ → ℤ → Bool
eqb_ℤ (pos m) (pos n) = elim (compare m n) [ Ordering.eq ↦ Bool.true | _ ↦ false ]
eqb_ℤ (negsuc m) (negsuc n) = elim (compare m n) [ Ordering.eq ↦ Bool.true | _ ↦ false ]
eqb_ℤ _ _ = false

instance abbrev pub int_eq : Eq ℤ
int_eq = record { beq = eqb_ℤ }

abbrev pub minus_one : ℤ
minus_one = negsuc 0
