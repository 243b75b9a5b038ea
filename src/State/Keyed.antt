-- ===== src/State/Keyed.antt =====
-- Each user stands under its own name, in the name's normal form.
use srv_deployment.Prelude.{
  ℕ, ◌≡◌, refl, ap, ap₂, ◌∙◌, inl, inr, Bool, true, false, Option, some, [], ◌∷◌, arith, Text,
  Option-cases, ok,
}
use srv_deployment.Dict
use srv_deployment.Dict.{Dict, get-put}
use srv_deployment.Platform.{Platform, TextLaws}
use srv_deployment.State.Admins.{
  Step, creates, blocks, changes, bootstraps, Reach, here, next, users-persist_locked,
}
use srv_deployment.State.Document.{User, Store, World, Encoder, Writes, role_admin}
use srv_deployment.State.Inversion.{set_blocked-eq-ok, updated}
use srv_deployment.State.Store.{
  users, new_user, bootstrap_admin, create_user, set_blocked, change_password, get_user,
  verify_credentials,
}
use srv_deployment.State.Username.{normalize_username, normalize_username_idem}

abbrev pub IsKeyed : Platform → Dict User → Type 0
IsKeyed p d =
    (name : Text) (u : User)
    → Dict.get d name ≡ some u
    → (u.username ≡ name) × (normalize_username p name ≡ some name)

put-IsKeyed :
    (p : Platform) (d : Dict User) (name : Text) (u : User)
    → u.username ≡ name
    → normalize_username p name ≡ some name
    → IsKeyed p d
    → IsKeyed p (Dict.put d name u)
put-IsKeyed p d name u h k keyed n v e = ground (arith, get-put d name n u, keyed n v)

pub nil-IsKeyed : (p : Platform) → IsKeyed p []
unfolding Dict.get
nil-IsKeyed p n v e = absurd (ground (arith, e))

pub cons-IsKeyed :
    (p : Platform) (d : Dict User) (u : User)
    → normalize_username p u.username ≡ some u.username
    → IsKeyed p d
    → IsKeyed p ((u.username, u) ∷ d)
unfolding Dict.get
cons-IsKeyed p d u k keyed n v e = ground (arith, keyed n v)

module _ {p : Platform} (laws : TextLaws p) (c : Encoder) (o : Writes) where
  pub create_user-IsKeyed :
      (salt : Option Text) (now : ℕ) (username pass role : Text) (w : World)
      → IsKeyed p (users w)
      → IsKeyed p (users (create_user p c o salt now username pass role w).1)
  unfolding create_user
  create_user-IsKeyed salt now username pass role w keyed =
      elim (Option-cases (normalize_username p username)) [
        | inl e ↦ λ n v f. ground (arith, e, keyed n v)
        | inr (name, e) ↦
            let written =
              put-IsKeyed p (users w) name (new_user name role now) refl
                (normalize_username_idem laws username name e) keyed in
            λ n v f. grind (arith, e, keyed n v, written n v, users-persist_locked c o)
      ]

  pub set_blocked-IsKeyed :
      (username : Text) (blocked : Bool) (w : World)
      → IsKeyed p (users w)
      → IsKeyed p (users (set_blocked p c o username blocked w).1)
  unfolding set_blocked
  set_blocked-IsKeyed username blocked w keyed =
      elim (Option-cases (normalize_username p username)) [
        | inl e ↦ λ n v f. ground (arith, e, keyed n v)
        | inr (name, e) ↦ elim (Option-cases (Dict.get (users w) name)) [
          | inl g ↦ λ n v f. ground (arith, e, g, keyed n v)
          | inr (u, g) ↦
              let at = keyed name u g in
              let written =
                put-IsKeyed p (users w) name (record u { blocked = blocked }) at.0 at.1 keyed in
              λ n v f. grind (arith, e, g, keyed n v, written n v, users-persist_locked c o)
        ]
      ]

  pub change_password-IsKeyed :
      (salt : Option Text) (now : ℕ) (username old new : Text) (w : World)
      → IsKeyed p (users w)
      → IsKeyed p (users (change_password p c o salt now username old new w).1)
  unfolding change_password
  change_password-IsKeyed salt now username old new w keyed =
      elim (Option-cases (normalize_username p username)) [
        | inl e ↦ λ n v f. ground (arith, e, keyed n v)
        | inr (name, e) ↦ elim (Option-cases (Dict.get (users w) name)) [
          | inl g ↦ λ n v f. grind (arith, e, g, keyed n v)
          | inr (u, g) ↦
              let at = keyed name u g in
              let written =
                put-IsKeyed p (users w) name
                  (record u { must_change_password = false; password_changed_at = now }) at.0 at.1
                  keyed in
              λ n v f. grind (arith, e, g, keyed n v, written n v, users-persist_locked c o)
        ]
      ]

  pub bootstrap_admin-IsKeyed :
      (raw salt : Option Text) (now : ℕ) (username : Text) (w : World)
      → IsKeyed p (users w)
      → IsKeyed p (users (bootstrap_admin p c o raw salt now username w).1)
  unfolding bootstrap_admin
  bootstrap_admin-IsKeyed raw salt now username w keyed =
      elim (Option-cases (normalize_username p username)) [
        | inl e ↦ λ n v f. ground (arith, e, keyed n v)
        | inr (name, e) ↦
            let admin = record (new_user name role_admin now) { must_change_password = true } in
            let written =
              put-IsKeyed p (users w) name admin refl (normalize_username_idem laws username name e)
                keyed in
            λ n v f. grind (arith, e, keyed n v, written n v, users-persist_locked c o)
      ]

Step-IsKeyed :
    {p : Platform} {c : Encoder} {v w : World}
    → TextLaws p
    → Step p c v w
    → IsKeyed p (users v)
    → IsKeyed p (users w)
Step-IsKeyed laws (creates o salt now username pass role w) k =
    create_user-IsKeyed laws _ o salt now username pass role w k
Step-IsKeyed laws (blocks o username blocked w) k =
    set_blocked-IsKeyed laws _ o username blocked w k
Step-IsKeyed laws (changes o salt now username old new w) k =
    change_password-IsKeyed laws _ o salt now username old new w k
Step-IsKeyed laws (bootstraps o raw salt now username w) k =
    bootstrap_admin-IsKeyed laws _ o raw salt now username w k

-- Where each user stands under its own name and the names are in normal form, no sequence of calls of
-- the methods that change the store ends that, however their writes end.
pub Reach-IsKeyed :
    {p : Platform} {c : Encoder} {v w : World}
    → TextLaws p
    → Reach p c v w
    → IsKeyed p (users v)
    → IsKeyed p (users w)
Reach-IsKeyed laws here k = k
Reach-IsKeyed laws (next r st) k = Step-IsKeyed laws st (Reach-IsKeyed laws r k)

-- The user that has logged in is the one under its name, and is not blocked.
pub get_user-verify_credentials :
    (p : Platform) (username pass : Text) (s : Store) (u : User)
    → IsKeyed p s.doc.users
    → verify_credentials p username pass s ≡ some u
    → (get_user p u.username s ≡ some u) × (u.blocked ≡ false)
unfolding get_user verify_credentials
get_user-verify_credentials p username pass s u keyed h =
    elim (Option-cases (normalize_username p username)) [
      | inl e ↦ absurd (ground (arith, e))
      | inr (name, e) ↦ elim (Option-cases (Dict.get s.doc.users name)) [
        | inl f ↦ absurd (ground (arith, e, f))
        | inr (v, f) ↦
            let at = keyed name v f in
            let same : v ≡ u = ground (arith, e, f) in
            (ground (arith, e, f, at.0, at.1, same), ground (arith, e, f, same))
      ]
    ]

-- `SetBlocked` has stored the user that it returns, under its name.
pub set_blocked-stored :
    (p : Platform) (c : Encoder) (o : Writes) (username : Text) (blocked : Bool) (w : World)
    (v : User)
    → IsKeyed p (users w)
    → (set_blocked p c o username blocked w).0 ≡ ok v
    → (Dict.get (users (set_blocked p c o username blocked w).1) v.username ≡ some v)
      × (v.blocked ≡ blocked)
set_blocked-stored p c o username blocked w v keyed h =
    let (key, old, normal, found, is_v, done, after) =
      set_blocked-eq-ok p c o username blocked w v h in
    let named : v.username ≡ key = ap (λ (u : User). u.username) is_v ∙ (keyed key old found).0 in
    let written : users (set_blocked p c o username blocked w).1 ≡ Dict.put (users w) key v =
      ap users after ∙ users-persist_locked c o (updated key v w) in
    (
      ap₂ (λ (d : Dict User) (k : Text). Dict.get d k) written named
          ∙ ground (arith, get-put (users w) key key v),
      ap (λ (u : User). u.blocked) is_v,
    )
