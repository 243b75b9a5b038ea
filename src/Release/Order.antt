-- ===== src/Release/Order.antt =====
-- Three-way comparisons: when one is a strict total order, and how two of them combine.
use srv_deployment.Prelude.{
  ◌≡◌, ◌⊎◌, arith, ◌!=◌, if◌then◌else◌, ℤ, pos, neg, ◌≤ℤ◌, minus_one, text_eq, nat_eq, int_eq,
}

pub record IsOrder {A : Type 0} (cmp : A → A → ℤ) : Type 0 where
  pub sign : (a b : A) → (cmp a b ≡ minus_one) ⊎ (cmp a b ≡ pos 0) ⊎ (cmp a b ≡ pos 1)
  pub flip : (a b : A) → cmp b a ≡ neg (cmp a b)
  pub eq_of_zero : (a b : A) → cmp a b ≡ pos 0 → a ≡ b
  pub trans : (a b c : A) → cmp a b ≡ minus_one → cmp b c ≡ minus_one → cmp a c ≡ minus_one

-- `if cmp != 0 { return cmp }`, and the code that follows.
abbrev pub or_else : ℤ → ℤ → ℤ
or_else c d = if c != pos 0 then c else d

module _ {A : Type 0} {cmp : A → A → ℤ} (o : IsOrder cmp) where
  pub cmp_self : (a : A) → cmp a a ≡ pos 0
  cmp_self a = ground (arith, o.flip a a, o.sign a a)

  -- Where a step is at most, so is the chain, and it is an equality only if both steps are.
  pub cmp-le_trans :
      (a b c : A) → cmp a b ≤ℤ pos 0 → cmp b c ≤ℤ pos 0 → cmp a c ≡ or_else (cmp a b) (cmp b c)
  cmp-le_trans a b c h k =
      ground (arith, o.sign a b, o.sign b c, o.eq_of_zero a b, o.eq_of_zero b c, o.trans a b c)

-- Two comparisons, the first deciding where it can.
abbrev pub lex : {A B : Type 0} → (A → A → ℤ) → (B → B → ℤ) → A × B → A × B → ℤ
lex cmp cmp' x y = or_else (cmp x.0 y.0) (cmp' x.1 y.1)

pub lex-IsOrder :
    {A B : Type 0} {cmp : A → A → ℤ} {cmp' : B → B → ℤ}
    → IsOrder cmp
    → IsOrder cmp'
    → IsOrder (lex cmp cmp')
lex-IsOrder o o' = record {
  sign = λ x y. ground (arith, o.sign x.0 y.0, o'.sign x.1 y.1);
  flip = λ x y. ground (arith, o.flip x.0 y.0, o'.flip x.1 y.1, o.sign x.0 y.0, o'.sign x.1 y.1);
  eq_of_zero = λ x y h. ground (arith, o.eq_of_zero x.0 y.0, o'.eq_of_zero x.1 y.1, o.sign x.0 y.0);
  trans = λ x y z h k. ground (
    arith,
    o.sign x.0 y.0,
    o.sign y.0 z.0,
    o.eq_of_zero x.0 y.0,
    o.eq_of_zero y.0 z.0,
    o.trans x.0 y.0 z.0,
    o'.trans x.1 y.1 z.1,
  );
}
