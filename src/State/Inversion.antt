-- ===== src/State/Inversion.antt =====
-- What a successful call has done: the guards that it passed, and the world that it wrote.
use srv_deployment.Prelude.{
  ℕ, ◌≡◌, sym, inl, inr, Bool, true, false, Option, none, some, ◌++◌, arith, Text, codes,
  Bool-cases, Option-cases, ok, Result-cases,
}
use srv_deployment.Dict
use srv_deployment.Platform.{Platform}
use srv_deployment.State.Document.{User, World, Encoder, Writes, persist_locked, write}
use srv_deployment.Files.{atomic_write}
use srv_deployment.Strings.Base64.{url, encode}
use srv_deployment.State.Document.{role_admin, newline}
use srv_deployment.State.Password.{hash_password, verify_password}
use srv_deployment.State.Store.{
  users, passwords, set_user, set_password, bump_revision, new_user, hash_of, create_user,
  change_password, set_blocked, bootstrap_admin, has_users,
}
use srv_deployment.State.Username.{normalize_username}

-- The world with a user and a password written, before it is persisted.
abbrev pub created : Text → Text → User → World → World
created name hash u w = bump_revision (set_password name hash (set_user name u w))

abbrev pub changed : Text → Text → User → World → World
changed name hash u w = bump_revision (set_user name u (set_password name hash w))

abbrev pub updated : Text → User → World → World
updated name u w = bump_revision (set_user name u w)

abbrev pub after_change : User → ℕ → User
after_change u now = record u { must_change_password = false; password_changed_at = now }

abbrev pub without_bootstrap : World → World
without_bootstrap w = record w { files = Dict.remove w.files w.store.bootstrap_path }

module _ (p : Platform) (c : Encoder) (o : Writes) where
  pub create_user-eq-ok :
      (salt : Option Text) (now : ℕ) (username pass role : Text) (w : World) (u : User)
      → (create_user p c o salt now username pass role w).0 ≡ ok u
      → (name : Text) × (hash : Text) × (normalize_username p username ≡ some name)
        × (hash_password p salt pass ≡ ok hash)
        × (Dict.get (users w) name ≡ none)
        × (u ≡ new_user name role now)
        × ((persist_locked c o (created name hash u w)).0 ≡ ok tt)
        × ((create_user p c o salt now username pass role w).1
            ≡ (persist_locked c o (created name hash u w)).1)
  unfolding create_user
  create_user-eq-ok salt now username pass role w u h =
      elim (Option-cases (normalize_username p username)) [
        | inl e ↦ absurd (ground arith)
        | inr (name, e) ↦ elim (Result-cases (hash_password p salt pass)) [
          | inl (_, f) ↦ absurd (ground arith)
          | inr (hash, f) ↦
              (name, hash, e, f, ground arith, ground arith, ground arith, ground arith)
        ]
      ]

  pub set_blocked-eq-ok :
      (username : Text) (blocked : Bool) (w : World) (u' : User)
      → (set_blocked p c o username blocked w).0 ≡ ok u'
      → (name : Text) × (u : User) × (normalize_username p username ≡ some name)
        × (Dict.get (users w) name ≡ some u)
        × (u' ≡ record u { blocked = blocked })
        × ((persist_locked c o (updated name u' w)).0 ≡ ok tt)
        × ((set_blocked p c o username blocked w).1 ≡ (persist_locked c o (updated name u' w)).1)
  unfolding set_blocked
  set_blocked-eq-ok username blocked w u' h = elim (Option-cases (normalize_username p username)) [
    | inl e ↦ absurd (ground arith)
    | inr (name, e) ↦ elim (Option-cases (Dict.get (users w) name)) [
      | inl f ↦ absurd (ground arith)
      | inr (u, f) ↦ (name, u, e, f, ground arith, ground arith, ground arith)
    ]
  ]

  pub change_password-eq-ok :
      (salt : Option Text) (now : ℕ) (username old new : Text) (w : World)
      → (change_password p c o salt now username old new w).0 ≡ ok tt
      → (name : Text) × (hash : Text) × (u : User) × (normalize_username p username ≡ some name)
        × (hash_password p salt new ≡ ok hash)
        × (Dict.get (users w) name ≡ some u)
        × (u.blocked ≡ false)
        × (verify_password p old (hash_of (Dict.get (passwords w) name)) ≡ true)
        × ((persist_locked c o (changed name hash (after_change u now) w)).0 ≡ ok tt)
        × ((change_password p c o salt now username old new w).1
            ≡ without_bootstrap (persist_locked c o (changed name hash (after_change u now) w)).1)
  unfolding change_password
  change_password-eq-ok salt now username old new w h =
      elim (Option-cases (normalize_username p username)) [
        | inl e ↦ absurd (ground arith)
        | inr (name, e) ↦ elim (Result-cases (hash_password p salt new)) [
          | inl (_, f) ↦ absurd (ground arith)
          | inr (hash, f) ↦ elim (Option-cases (Dict.get (users w) name)) [
            | inl g ↦ absurd (ground arith)
            | inr (u, g) ↦
                (name, hash, u, e, f, g, ground arith, ground arith, ground arith, ground arith)
          ]
        ]
      ]

-- What `BootstrapAdmin` writes for the administrator to read.
abbrev pub bootstrap_text : (name secret : Text) → Text
bootstrap_text name secret =
    codes "username=" ++ name ++ newline ++ codes "password=" ++ secret ++ newline

abbrev pub first_admin : Text → ℕ → User
first_admin name now = record (new_user name role_admin now) { must_change_password = true }

pub bootstrap_admin-eq-ok :
    (p : Platform) (c : Encoder) (o : Writes) (raw salt : Option Text) (now : ℕ) (username : Text)
    (w : World) (secret : Text)
    → (bootstrap_admin p c o raw salt now username w).0 ≡ ok (secret, true)
    → (name : Text) × (hash : Text) × (v : World) × (normalize_username p username ≡ some name)
      × (has_users (users w) ≡ false)
      × (hash_password p salt secret ≡ ok hash)
      × (persist_locked c o (created name hash (first_admin name now) w) ≡ (ok tt, v))
      × ((atomic_write o.bootstrap_write v.store.bootstrap_path
            (bootstrap_text name secret)
            v.files).0
          ≡ true)
      × ((bootstrap_admin p c o raw salt now username w).1 ≡ record v {
        files =
            (atomic_write o.bootstrap_write v.store.bootstrap_path
              (bootstrap_text name secret)
              v.files).1;
      })
unfolding bootstrap_admin write
bootstrap_admin-eq-ok p c o raw salt now username w secret h =
    elim (Option-cases (normalize_username p username)) [
      | inl e ↦ absurd (ground arith)
      | inr (name, e) ↦ elim (Option-cases raw) [
        | inl f ↦ absurd (ground arith)
        | inr (bytes, f) ↦ elim (Result-cases (hash_password p salt (encode url bytes))) [
          | inl (_, k) ↦ absurd (ground arith)
          | inr (hash, k) ↦
              let x = persist_locked c o (created name hash (first_admin name now) w) in
              elim (Bool-cases (has_users (users w))) [
                | inl m ↦ absurd (ground arith)
                | inr m ↦ elim (Result-cases x.0) [
                  | inl (_, n) ↦ absurd (ground arith)
                  | inr (_, n) ↦
                      let same : encode url bytes ≡ secret = ground (arith, e, f, k, m, n) in
                      (
                        name,
                        hash,
                        x.1,
                        e,
                        m,
                        rw (sym same) k,
                        ground (arith, n),
                        rw (sym same) (ground (arith, e, f, k, m, n)),
                        rw (sym same) (ground (arith, e, f, k, m, n)),
                      )
                ]
              ]
        ]
      ]
    ]
