-- ===== src/Release/Precedence.antt =====
-- `CompareVersions` orders versions by precedence: a total order on what `parseSemVer` keeps.
use srv_deployment.Prelude.{
  ◌≡◌, ap, ap₂, ◌∙◌, ◌↔◌, ◌⊎◌, List, arith, Text, ℤ, pos, neg, ◌≤ℤ◌, minus_one, ok, >>=-eq-ok,
}
use srv_deployment.Release.Order.{IsOrder, cmp_self, cmp-le_trans, lex, lex-IsOrder, or_else}
use srv_deployment.Release.Identifier.{
  compare_numeric_identifier, compare_numeric_identifier-IsOrder,
}
use srv_deployment.Release.Version.{
  SemVersion, parse_sem_ver, compare_pre, compare_sem_ver, compare_versions,
}
use srv_deployment.Release.PreRelease.{compare_pre-IsOrder}

abbrev parts : SemVersion → Text × (Text × (Text × List Text))
parts v = (v.major, (v.minor, (v.patch, v.pre)))

numbers : IsOrder compare_numeric_identifier
numbers = compare_numeric_identifier-IsOrder

by_parts : IsOrder (
    lex compare_numeric_identifier
      (lex compare_numeric_identifier (lex compare_numeric_identifier compare_pre)))
by_parts = lex-IsOrder numbers (lex-IsOrder numbers (lex-IsOrder numbers compare_pre-IsOrder))

pub compare_sem_ver-IsOrder : IsOrder compare_sem_ver
unfolding compare_sem_ver
compare_sem_ver-IsOrder = record {
  sign = λ a b. by_parts.sign (parts a) (parts b);
  flip = λ a b. by_parts.flip (parts a) (parts b);
  eq_of_zero = λ a b h.
      let p = by_parts.eq_of_zero (parts a) (parts b) h in
      λ i. record { major = (p i).0; minor = (p i).1.0; patch = (p i).1.1.0; pre = (p i).1.1.1 };
  trans = λ a b c. by_parts.trans (parts a) (parts b) (parts c);
}

order : IsOrder compare_sem_ver
order = compare_sem_ver-IsOrder

compare_versions-eq-ok :
    (a b : Text) {c : ℤ}
    → compare_versions a b ≡ ok c
    → (av : SemVersion) × (bv : SemVersion) × (parse_sem_ver a ≡ ok av)
      × (parse_sem_ver b ≡ ok bv)
      × (compare_sem_ver av bv ≡ c)
unfolding compare_versions
compare_versions-eq-ok a b h =
    let (av, p, h') = >>=-eq-ok (parse_sem_ver a) _ h in
    let (bv, q, h'') = >>=-eq-ok (parse_sem_ver b) _ h' in (av, bv, p, q, cc)

compare_versions_of_parsed :
    (a b : Text) {av bv : SemVersion}
    → parse_sem_ver a ≡ ok av
    → parse_sem_ver b ≡ ok bv
    → compare_versions a b ≡ ok (compare_sem_ver av bv)
unfolding compare_versions
compare_versions_of_parsed a b p q = rw (p, q)

-- Swapping two versions that compare swaps the sign of the result, which is -1, 0 or 1.
pub compare_versions-flip :
    (a b : Text) (c : ℤ)
    → compare_versions a b ≡ ok c
    → (compare_versions b a ≡ ok (neg c)) × ((c ≡ minus_one) ⊎ (c ≡ pos 0) ⊎ (c ≡ pos 1))
compare_versions-flip a b c h =
    let (av, bv, p, q, e) = compare_versions-eq-ok a b h in
    ground (arith, compare_versions_of_parsed b a q p, order.flip av bv, order.sign av bv)

-- The order is transitive: if a is at most b, and b at most c, then a and c compare, as the first of
-- the two results that is not 0.
pub compare_versions_trans :
    (a b c : Text) (x y : ℤ)
    → compare_versions a b ≡ ok x
    → compare_versions b c ≡ ok y
    → x ≤ℤ pos 0
    → y ≤ℤ pos 0
    → compare_versions a c ≡ ok (or_else x y)
compare_versions_trans a b c x y h k hx hy =
    let (av, bv, p, q, e) = compare_versions-eq-ok a b h in
    let (bv', cv, q', r, e') = compare_versions-eq-ok b c k in
    let same : bv ≡ bv' = cc in
    let e'' : compare_sem_ver bv cv ≡ y = cc in
    let chain = cmp-le_trans order av bv cv (rw e hx) (rw e'' hy) in
    compare_versions_of_parsed a c p r ∙ ap ok (chain ∙ ap₂ or_else e e'')

-- Two versions compare as equal exactly when they parse to the same numbers and prerelease
-- identifiers, whatever their build metadata.
pub compare_versions-zero_iff :
    (a b : Text)
    → (compare_versions a b ≡ ok (pos 0))
      ↔ ((v : SemVersion) × (parse_sem_ver a ≡ ok v) × (parse_sem_ver b ≡ ok v))
compare_versions-zero_iff a b = (
  λ h.
      let (av, bv, p, q, e) = compare_versions-eq-ok a b h in
      (av, p, rw (order.eq_of_zero av bv e) q),
  λ (v, p, q). compare_versions_of_parsed a b p q ∙ ap ok (cmp_self order v),
)
