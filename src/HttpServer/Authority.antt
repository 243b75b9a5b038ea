-- ===== src/HttpServer/Authority.antt =====
-- Who may change the store.
use srv_deployment.Prelude.{
  ◌≡◌, refl, sym, ap, ◌∙◌, ◌≢◌, ◌⊎◌, inl, inr, true, false, some, arith, Text, Text_discrete, codes,
  Bool-cases, Option-cases, ℕ_discrete, ok, Result-cases,
}
use srv_deployment.Auth.Sessions.{lookup}
use srv_deployment.State.Store.{get_user}
use srv_deployment.Auth.Sessions.{Session}
use srv_deployment.State.Document.{User, role_admin}
use srv_deployment.HttpServer.Guards.{valid_origin, valid_mutation, has_permission}
use srv_deployment.HttpServer.Request.{Request, Response}
use srv_deployment.HttpServer.Server.{Server, Host, Moment, Handler, current_session}
use srv_deployment.HttpServer.Handlers
use srv_deployment.HttpServer.Handlers.{get_session}
use srv_deployment.HttpServer.Reports.{
  get_health, get_readiness, get_version, get_system_status, get_users, get_operations, get_audit,
  get_summary,
}
use srv_deployment.HttpServer.Routes.{
  Route, health, readiness, version, login, session, logout, password, status, users, create,
  operations, audit, summary, export, not_found, elsewhere, blocked, route, require_auth,
  require_permission, handle, with_id, serve,
}
use srv_deployment.HttpServer.Effects.{
  store-audit_event, store-current_session, store-login, store-logout, store-export_diagnostics,
  store-get_session,
}

-- The request has the cookie of a session, whose user is there, not blocked, and in the role of the
-- session.
pub record IsAuthenticated (h : Host) (e : Moment) (r : Request) (s : Server) (sess : Session)
    (u : User) : Type 0 where
  pub token : Text
  pub cookie : r.cookie ≡ some token
  pub looked_up : (lookup h.platform token e.lookup_at s.sessions).0 ≡ some sess
  pub known : get_user h.platform sess.username s.store ≡ some u
  pub unblocked : u.blocked ≡ false
  pub same_role : u.role ≡ sess.role

-- The request comes from an allowed origin and has the CSRF token of the session.
abbrev pub IsGenuine : Host → Request → Session → Type 0
IsGenuine h r sess = (valid_origin h.platform h.net r ≡ true) × (r.csrf_token ≡ sess.csrf)

module _ (h : Host) (e : Moment) (r : Request) where
  pub IsAuthenticated-current_session :
      (s : Server) (sess : Session) (u : User)
      → (current_session h e r s).0 ≡ ok (some (sess, u))
      → IsAuthenticated h e r s sess u
  unfolding current_session
  IsAuthenticated-current_session s sess u x = elim (Option-cases r.cookie) [
    | inl f ↦ absurd (ground (arith, f))
    | inr (token, f) ↦ elim (Option-cases (lookup h.platform token e.lookup_at s.sessions).0) [
      | inl g ↦ absurd (ground (arith, f, g))
      | inr (sess', g) ↦ elim (Option-cases (get_user h.platform sess'.username s.store)) [
        | inl k ↦ absurd (ground (arith, f, g, k))
        | inr (u', k) ↦
            let same : sess' ≡ sess = grind (arith, f, g, k) in
            let same_user : u' ≡ u = grind (arith, f, g, k) in
            record {
              token = token;
              cookie = f;
              looked_up = g ∙ ap some same;
              known =
                  ap (λ (z : Session). get_user h.platform z.username s.store) (sym same)
                  ∙ k
                  ∙ ap some same_user;
              unblocked = rw (sym same_user) (grind (arith, f, g, k));
              same_role = rw (sym same, sym same_user) (grind (arith, f, g, k));
            }
      ]
    ]
  ]

  IsGenuine-valid_mutation :
      (sess : Session) → valid_mutation h.platform h.net r sess ≡ true → IsGenuine h r sess
  unfolding valid_mutation
  IsGenuine-valid_mutation sess x = ground arith

  create_user-IsGenuine :
      (sess : Session) (u : User) (s : Server)
      → (Handlers.create_user h e r sess u s).1.store ≢ s.store
      → IsGenuine h r sess
  unfolding Handlers.create_user
  create_user-IsGenuine sess u s x = elim (Bool-cases (valid_mutation h.platform h.net r sess)) [
    | inl y ↦ IsGenuine-valid_mutation sess y
    | inr y ↦ absurd (x (grind (arith, y, store-audit_event)))
  ]

  set_blocked-IsGenuine :
      (sess : Session) (u : User) (target : Text) (s : Server)
      → (Handlers.set_blocked h e r sess u target s).1.store ≢ s.store
      → IsGenuine h r sess
  unfolding Handlers.set_blocked
  set_blocked-IsGenuine sess u target s x =
      elim (Bool-cases (valid_mutation h.platform h.net r sess)) [
        | inl y ↦ IsGenuine-valid_mutation sess y
        | inr y ↦ absurd (x (grind (arith, y, store-audit_event)))
      ]

  change_password-IsGenuine :
      (sess : Session) (u : User) (s : Server)
      → (Handlers.change_password h e r sess u s).1.store ≢ s.store
      → IsGenuine h r sess
  unfolding Handlers.change_password
  change_password-IsGenuine sess u s x =
      elim (Bool-cases (valid_mutation h.platform h.net r sess)) [
        | inl y ↦ IsGenuine-valid_mutation sess y
        | inr y ↦ absurd (x (grind (arith, y, store-audit_event)))
      ]

  -- Where the store changes behind `requireAuth`, there is a session, and it is `next` that changes it.
  require_auth-changes :
      (next : Session → User → Handler Response) (s : Server)
      → (require_auth h e r next s).1.store ≢ s.store
      → (sess : Session) × (u : User) × IsAuthenticated h e r s sess u
        × (t : Server) × ((next sess u t).1.store ≢ t.store)
  unfolding require_auth
  require_auth-changes next s x = elim (Result-cases (current_session h e r s).0) [
    | inl (refused, y) ↦ absurd (x (grind (arith, y, store-current_session)))
    | inr (found, y) ↦ elim (Option-cases found) [
      | inl z ↦ absurd (x (grind (arith, y, z, store-current_session)))
      | inr ((sess, u), z) ↦
          let t = (current_session h e r s).1 in
          let found_is : (current_session h e r s).0 ≡ ok (some (sess, u)) = y ∙ ap ok z in
          (
            sess,
            u,
            IsAuthenticated-current_session s sess u found_is,
            t,
            λ same. x (grind (arith, found_is, same, store-current_session)),
          )
    ]
  ]

  require_permission-changes :
      (permission : Text) (next : Session → User → Handler Response) (s : Server)
      → (require_permission h e r permission next s).1.store ≢ s.store
      → (sess : Session) × (u : User) × IsAuthenticated h e r s sess u
        × (has_permission u.role permission ≡ true)
        × (t : Server) × ((next sess u t).1.store ≢ t.store)
  unfolding require_permission
  require_permission-changes permission next s x =
      let (sess, u, found, t, changes) = require_auth-changes _ s x in
      elim (Bool-cases (has_permission u.role permission)) [
        | inl y ↦ (sess, u, found, y, t, λ same. changes (grind (arith, y, same)))
        | inr y ↦ absurd (changes (grind (arith, y)))
      ]

  only_admins :
      (u : User) → has_permission u.role (codes "rbac.users.write") ≡ true → u.role ≡ role_admin
  unfolding has_permission Text_discrete ℕ_discrete
  only_admins u x = ground arith

  handle-changes :
      (x : Route) (s : Server)
      → (handle h e r x s).1.store ≢ s.store
      → (sess : Session) × (u : User) × IsAuthenticated h e r s sess u
        × IsGenuine h r sess
        × ((u.role ≡ role_admin) ⊎ (x ≡ password))
  unfolding handle get_health get_readiness get_version get_system_status get_users get_operations
      get_audit get_summary
  handle-changes health s x = absurd (x refl)
  handle-changes readiness s x = absurd (x refl)
  handle-changes version s x = absurd (x refl)
  handle-changes login s x = absurd (x (store-login h e r s))
  handle-changes session s x = absurd (x (store-get_session h e r s))
  handle-changes logout s x =
      let (sess, u, found, t, changes) = require_auth-changes _ s x in
      absurd (changes (store-logout h e r sess u t))
  handle-changes password s x =
      let (sess, u, found, t, changes) = require_auth-changes _ s x in
      (sess, u, found, change_password-IsGenuine sess u t changes, inr refl)
  handle-changes status s x = absurd ((require_permission-changes _ _ s x).5 refl)
  handle-changes users s x = absurd ((require_permission-changes _ _ s x).5 refl)
  handle-changes create s x =
      let (sess, u, found, may, t, changes) = require_permission-changes _ _ s x in
      (sess, u, found, create_user-IsGenuine sess u t changes, inl (only_admins u may))
  handle-changes (blocked name) s x =
      let (sess, u, found, may, t, changes) = require_permission-changes _ _ s x in
      (sess, u, found, set_blocked-IsGenuine sess u name t changes, inl (only_admins u may))
  handle-changes operations s x = absurd ((require_permission-changes _ _ s x).5 refl)
  handle-changes audit s x = absurd ((require_permission-changes _ _ s x).5 refl)
  handle-changes summary s x = absurd ((require_permission-changes _ _ s x).5 refl)
  handle-changes export s x =
      let (sess, u, found, may, t, changes) = require_permission-changes _ _ s x in
      absurd (changes (store-export_diagnostics h e r sess u t))
  handle-changes not_found s x = absurd (x refl)
  handle-changes elsewhere s x = absurd (x refl)

-- A request that changes the users or their passwords has the cookie of a session that is found, whose
-- user is there, in the role of the session and not blocked; it comes from an allowed origin and has the
-- CSRF token of that session; and the user is an administrator, or the request is one to change the
-- password.
pub changes-serve :
    (h : Host) (e : Moment) (r : Request) (s : Server)
    → (serve h e r s).1.store ≢ s.store
    → (sess : Session) × (u : User) × IsAuthenticated h e (with_id e r) s sess u
      × IsGenuine h (with_id e r) sess
      × ((u.role ≡ role_admin) ⊎ (route r.method r.segments ≡ password))
unfolding serve
changes-serve h e r s x =
    handle-changes h e (with_id e r) (route r.method r.segments) s (λ same. x (grind (arith, same)))
