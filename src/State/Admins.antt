-- ===== src/State/Admins.antt =====
-- The last active administrator is never blocked.
use srv_deployment.Prelude.{
  ℕ, ◌+◌, ◌≡◌, refl, ap, Bool, true, Option, none, some, [], ◌∷◌, arith, ltb, Text, if◌then◌else◌,
}
use srv_deployment.Dict
use srv_deployment.Dict.{Dict}
use srv_deployment.Platform.{Platform}
use srv_deployment.State.Document.{
  User, Store, World, Encoder, Writes, persist_locked, sync_revision,
}
use srv_deployment.State.Store.{
  users, is_active_admin, active_admins, has_active_admin, ready, has_users, bootstrap_admin,
  create_user, change_password, set_blocked,
}

abbrev one_if : Bool → ℕ
one_if b = if b then 1 else 0

abbrev one_if_active : Option User → ℕ
one_if_active none = 0
one_if_active (some u) = one_if (is_active_admin u)

-- Writing one entry changes the count by the entries before and after.
active_admins-put :
    (d : Dict User) (name : Text) (u : User)
    → active_admins (Dict.put d name u) + one_if_active (Dict.get d name)
      ≡ active_admins d + one_if (is_active_admin u)
unfolding active_admins Dict.put Dict.get
active_admins-put [] name u = ground arith
active_admins-put ((j, v) ∷ d) name u = ground (arith, active_admins-put d name u)

has_active_admin_iff : (d : Dict User) → has_active_admin d ≡ ltb 0 (active_admins d)
unfolding has_active_admin active_admins
has_active_admin_iff [] = refl
has_active_admin_iff ((j, v) ∷ d) = ground (arith, has_active_admin_iff d)

has_users_of_active : (d : Dict User) → has_active_admin d ≡ true → has_users d ≡ true
unfolding has_active_admin
has_users_of_active [] h = h
has_users_of_active (e ∷ d) h = refl

module _ (c : Encoder) (o : Writes) where
  pub store-persist_locked : (w : World) → (persist_locked c o w).1.store ≡ (sync_revision w).store
  unfolding persist_locked
  store-persist_locked w = ground arith

  pub users-persist_locked : (w : World) → users (persist_locked c o w).1 ≡ users w
  users-persist_locked w = ap (λ (s : Store). s.doc.users) (store-persist_locked w)

module _ (p : Platform) (c : Encoder) (o : Writes) where
  pub create_user-keeps :
      (salt : Option Text) (now : ℕ) (username pass role : Text) (w : World)
      → has_active_admin (users w) ≡ true
      → has_active_admin (users (create_user p c o salt now username pass role w).1) ≡ true
  unfolding create_user
  create_user-keeps salt now username pass role w h =
      grind (arith, users-persist_locked c o, active_admins-put, has_active_admin_iff)

  pub set_blocked-keeps :
      (username : Text) (blocked : Bool) (w : World)
      → has_active_admin (users w) ≡ true
      → has_active_admin (users (set_blocked p c o username blocked w).1) ≡ true
  unfolding set_blocked
  set_blocked-keeps username blocked w h =
      grind (arith, users-persist_locked c o, active_admins-put, has_active_admin_iff)

  pub change_password-keeps :
      (salt : Option Text) (now : ℕ) (username old new : Text) (w : World)
      → has_active_admin (users w) ≡ true
      → has_active_admin (users (change_password p c o salt now username old new w).1) ≡ true
  unfolding change_password
  change_password-keeps salt now username old new w h =
      grind (arith, users-persist_locked c o, active_admins-put, has_active_admin_iff)

  -- A store that has users is left as it is, and its files too.
  pub bootstrap_admin-has_users :
      (raw salt : Option Text) (now : ℕ) (username : Text) (w : World)
      → has_users (users w) ≡ true
      → (bootstrap_admin p c o raw salt now username w).1 ≡ w
  unfolding bootstrap_admin
  bootstrap_admin-has_users raw salt now username w h = ground arith

  bootstrap_admin-keeps :
      (raw salt : Option Text) (now : ℕ) (username : Text) (w : World)
      → has_active_admin (users w) ≡ true
      → has_active_admin (users (bootstrap_admin p c o raw salt now username w).1) ≡ true
  bootstrap_admin-keeps raw salt now username w h =
      rw (bootstrap_admin-has_users raw salt now username w (has_users_of_active (users w) h)) h

-- One call of a method, with any arguments, randomness, clock and outcome of its writes.
pub data Step (p : Platform) (c : Encoder) : World → World → Type 0 where
  creates :
      (o : Writes) (salt : Option Text) (now : ℕ) (username pass role : Text) (w : World)
      → Step p c w (create_user p c o salt now username pass role w).1
  blocks :
      (o : Writes) (username : Text) (blocked : Bool) (w : World)
      → Step p c w (set_blocked p c o username blocked w).1
  changes :
      (o : Writes) (salt : Option Text) (now : ℕ) (username old new : Text) (w : World)
      → Step p c w (change_password p c o salt now username old new w).1
  bootstraps :
      (o : Writes) (raw salt : Option Text) (now : ℕ) (username : Text) (w : World)
      → Step p c w (bootstrap_admin p c o raw salt now username w).1

pub data Reach (p : Platform) (c : Encoder) (w : World) : World → Type 0 where
  here : Reach p c w w
  next : {v u : World} → Reach p c w v → Step p c v u → Reach p c w u

Step-keeps :
    {p : Platform} {c : Encoder} {v w : World}
    → Step p c v w
    → has_active_admin (users v) ≡ true
    → has_active_admin (users w) ≡ true
Step-keeps (creates o salt now username pass role w) h =
    create_user-keeps _ _ o salt now username pass role w h
Step-keeps (blocks o username blocked w) h = set_blocked-keeps _ _ o username blocked w h
Step-keeps (changes o salt now username old new w) h =
    change_password-keeps _ _ o salt now username old new w h
Step-keeps (bootstraps o raw salt now username w) h =
    bootstrap_admin-keeps _ _ o raw salt now username w h

Reach-keeps :
    {p : Platform} {c : Encoder} {v w : World}
    → Reach p c v w
    → has_active_admin (users v) ≡ true
    → has_active_admin (users w) ≡ true
Reach-keeps here h = h
Reach-keeps (next r st) h = Step-keeps st (Reach-keeps r h)

-- A store that is ready stays ready: no sequence of calls of the methods that change it, whatever
-- their arguments and however their writes end, leaves it with no active administrator.
pub ready-Reach :
    {p : Platform} {c : Encoder} {v w : World}
    → Reach p c v w
    → (ready v.store).0 ≡ true
    → (ready w.store).0 ≡ true
unfolding ready
ready-Reach {v} {w} r h = ground (arith, Reach-keeps r)
