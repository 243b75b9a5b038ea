-- ===== src/State/Listing.antt =====
-- `ListUsers` (internal/state/store.go).
use mathlib.Core.List.{Perm}
use srv_deployment.Prelude.{
  ℕ, ◌<◌, ◌≡◌, refl, sym, ap, ap₂, inl, inr, Bool, false, List, [], ◌∷◌, ◌++◌, map, arith, ltb,
  Text, Bool-cases,
}
use srv_deployment.Dict.{Dict}
use srv_deployment.Strings.Compare.{text_lt, text_lt-IsWeakOrder}
use srv_deployment.Sort.{sort, sort-perm, sort-IsSorted, IsAtMost, IsSorted, IsWeakOrder}
use srv_deployment.State.Document.{User, Store}

abbrev pub values {ℓ} : {V : Type ℓ} → Dict V → List V
values d = map (λ e. e.1) d

abbrev by_username : User → User → Bool
by_username a b = text_lt a.username b.username

unfoldable pub list_users : Store → List User
list_users s = sort by_username (values s.doc.users)

by_username-IsWeakOrder : IsWeakOrder by_username
by_username-IsWeakOrder = record {
  asymm = λ x y. text_lt-IsWeakOrder.asymm x.username y.username;
  trans = λ x y z. text_lt-IsWeakOrder.trans x.username y.username z.username;
}

-- `a` is a prefix of `b`, or the first byte in which they differ is less in `a`.
abbrev StartsBelow : Text → Text → Type 0
StartsBelow [] b = Unit
StartsBelow (x ∷ a) [] = ⊥
StartsBelow (x ∷ a) (y ∷ b) = x < y

abbrev Precedes : Text → Text → Type 0
Precedes a b =
    (common : Text) × (x : Text) × (y : Text) × (a ≡ common ++ x)
    × (b ≡ common ++ y)
    × StartsBelow x y

-- The usernames ascend: each one precedes all that follow it.
abbrev AllFollow : User → List User → Type 0
AllFollow u [] = Unit
AllFollow u (v ∷ rest) = Precedes u.username v.username × AllFollow u rest

abbrev pub Ascends : List User → Type 0
Ascends [] = Unit
Ascends (u ∷ rest) = AllFollow u rest × Ascends rest

Precedes-cons : {x y : ℕ} {a b : Text} → x ≡ y → Precedes a b → Precedes (x ∷ a) (y ∷ b)
Precedes-cons {x = x} same (common, u, v, p, q, below) =
    (x ∷ common, u, v, ap (λ z. x ∷ z) p, ap₂ (λ z rest. z ∷ rest) (sym same) q, below)

text_lt-Precedes : (a b : Text) → text_lt b a ≡ false → Precedes a b
unfolding text_lt
text_lt-Precedes [] b h = ([], [], b, refl, refl, tt)
text_lt-Precedes (x ∷ a) [] h = absurd (cc (h))
text_lt-Precedes (x ∷ a) (y ∷ b) h = elim (Bool-cases (ltb x y)) [
  | inl less ↦ ([], x ∷ a, y ∷ b, refl, refl, ground arith)
  | inr e ↦
      let same : x ≡ y = ground arith in Precedes-cons same (text_lt-Precedes a b (ground arith))
]

IsAtMost-AllFollow : (u : User) (rest : List User) → IsAtMost by_username u rest → AllFollow u rest
IsAtMost-AllFollow u [] h = tt
IsAtMost-AllFollow u (v ∷ rest) h =
    (text_lt-Precedes u.username v.username h.0, IsAtMost-AllFollow u rest h.1)

IsSorted-Ascends : (all : List User) → IsSorted by_username all → Ascends all
IsSorted-Ascends [] h = tt
IsSorted-Ascends (u ∷ rest) h = (IsAtMost-AllFollow u rest h.0, IsSorted-Ascends rest h.1)

-- The list holds each user once, and the usernames ascend in the order of their bytes: one precedes
-- another when it is a prefix of it, or when the first byte in which they differ is the smaller one.
pub list_users_lem : (s : Store) → Perm (list_users s) (values s.doc.users) × Ascends (list_users s)
unfolding list_users
list_users_lem s = (
  sort-perm by_username (values s.doc.users),
  IsSorted-Ascends (sort by_username (values s.doc.users))
      (sort-IsSorted by_username-IsWeakOrder (values s.doc.users)),
)
