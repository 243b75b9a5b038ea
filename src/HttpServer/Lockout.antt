-- ===== src/HttpServer/Lockout.antt =====
-- A user that is blocked is out at once.
use srv_deployment.Prelude.{
  ◌≡◌, refl, sym, ap, ap₂, ◌∙◌, ◌≢◌, ◌⊎◌, inl, inr, true, none, some, arith, Text, codes,
  Option-cases, if◌then◌else◌, ok, err, Result-cases,
}
use mathlib.Core.Path.{subst}
use srv_deployment.Dict
use srv_deployment.Dict.{Dict}
use srv_deployment.Platform.{TextLaws}
use srv_deployment.State.Document
use srv_deployment.State.Keyed.{IsKeyed, set_blocked-stored, set_blocked-IsKeyed}
use srv_deployment.State.Store
use srv_deployment.State.Store.{get_user}
use srv_deployment.State.Username.{normalize_username}
use srv_deployment.HttpServer.Authority.{IsAuthenticated, IsAuthenticated-current_session}
use srv_deployment.Auth.Sessions.{Session}
use srv_deployment.State.Document.{User, role_admin, role_viewer}
use srv_deployment.HttpServer.Request.{
  Request, Response, PublicUser, public_user, user, write_json, decode_json, BlockRequest,
}
use srv_deployment.HttpServer.Server.{
  Server, Host, Moment, Handler, begin_operation, current_session,
}
use srv_deployment.HttpServer.Handlers
use srv_deployment.HttpServer.Handlers.{get_session}
use srv_deployment.HttpServer.Routes.{
  blocked, route, require_auth, require_permission, handle, answered, with_id, serve,
}
use srv_deployment.HttpServer.Effects.{
  answered-state, audit_event-ok, begin_operation-answers, finish_operation-ok, store-audit_event,
  store-current_session, store-begin_operation, store-finish_operation,
}

-- The user is there, under its name, and blocked.
abbrev pub IsBlocked : Text → Document.Store → Type 0
IsBlocked name s = (u : User) × (Dict.get s.doc.users name ≡ some u) × (u.blocked ≡ true)

module _ (h : Host) (e : Moment) (r : Request) where
  -- Whoever is authenticated is another user.
  IsAuthenticated-ne-blocked :
      (s : Server) (name : Text) (sess : Session) (u : User)
      → IsKeyed h.platform s.store.doc.users
      → IsBlocked name s.store
      → IsAuthenticated h e r s sess u
      → u.username ≢ name
  unfolding get_user
  IsAuthenticated-ne-blocked s name sess u keyed (v, at, blocked_) a same =
      elim (Option-cases (normalize_username h.platform sess.username)) [
        | inl x ↦ absurd (ground (arith, a.known, x))
        | inr (key, x) ↦
            let found : Dict.get s.store.doc.users key ≡ some u = ground (arith, a.known, x) in
            let named = keyed key u found in
            ground (arith, found, named.0, same, at, blocked_, a.unblocked)
      ]

  abbrev block_kind : BlockRequest → Text
  block_kind in_ = if in_.blocked then codes "rbac.user.block" else codes "rbac.user.unblock"

  IsKeyed-subst :
      {a b : Document.Store}
      → IsKeyed h.platform a.doc.users
      → a ≡ b
      → IsKeyed h.platform b.doc.users
  IsKeyed-subst keyed same =
      subst (λ (t : Document.Store). IsKeyed h.platform t.doc.users) same keyed

  module _ (sess : Session) (u : User) (name : Text) (s : Server) where
    -- What the call of the store is given.
    abbrev block_world : BlockRequest → Document.World
    block_world in_ =
        let b = (begin_operation h e r u (block_kind in_) name s).1 in
        record { store = b.store; files = b.files }

    store-set_blocked_undecoded :
        decode_json h.bodies h.bodies.block r.body ≡ none
        → (Handlers.set_blocked h e r sess u name s).1.store ≡ s.store
    unfolding Handlers.set_blocked
    store-set_blocked_undecoded f = grind (arith, f, store-audit_event)

    set_blocked-IsBlocked :
        (pu : PublicUser)
        → IsKeyed h.platform s.store.doc.users
        → (answered (Handlers.set_blocked h e r sess u name s)).0 ≡ write_json 200 (user pu)
        → pu.blocked ≡ true
        → IsBlocked pu.username (Handlers.set_blocked h e r sess u name s).1.store
    unfolding Handlers.set_blocked public_user
    set_blocked-IsBlocked pu keyed x y =
        elim (Option-cases (decode_json h.bodies h.bodies.block r.body)) [
          | inl f ↦ absurd (grind (arith, f, audit_event-ok))
          | inr (in_, f) ↦
              let kind =
                if in_.blocked then codes "rbac.user.block" else codes "rbac.user.unblock" in
              let b = (begin_operation h e r u kind name s).1 in
              let w : Document.World = record { store = b.store; files = b.files } in
              let c = Store.set_blocked h.platform h.encoder e.state_writes name in_.blocked w in
              elim (Result-cases c.0) [
                | inl (failed, g) ↦ absurd (
                    grind
                      (arith, f, g, audit_event-ok, begin_operation-answers, finish_operation-ok))
                | inr (v, g) ↦
                    let same : Store.users w ≡ s.store.doc.users =
                      ap (λ (t : Document.Store). t.doc.users)
                        (store-begin_operation h e r u kind name s) in
                    let (at, is_blocked) =
                      set_blocked-stored h.platform h.encoder e.state_writes name in_.blocked w v
                        (subst (λ (d : Dict User). IsKeyed h.platform d) (sym same) keyed) g in
                    let answer : public_user v ≡ pu =
                      grind (
                        arith, f, g, audit_event-ok, begin_operation-answers, finish_operation-ok,
                      ) in
                    let left : (Handlers.set_blocked h e r sess u name s).1.store ≡ c.1.store =
                      grind (
                        arith, f, g, audit_event-ok, begin_operation-answers,
                        store-finish_operation,
                      ) in
                    (
                      v,
                      ap₂ (λ (t : Document.Store) (k : Text). Dict.get t.doc.users k) left
                            (sym (ap (λ (z : PublicUser). z.username) answer))
                          ∙ at,
                      ap (λ (z : PublicUser). z.blocked) answer ∙ y,
                    )
              ]
        ]

    -- Whatever becomes of the request, the store is the one before or the one of the call.
    store-set_blocked :
        (in_ : BlockRequest)
        → decode_json h.bodies h.bodies.block r.body ≡ some in_
        → ((Handlers.set_blocked h e r sess u name s).1.store ≡ s.store)
          ⊎ ((Handlers.set_blocked h e r sess u name s).1.store
              ≡ (Store.set_blocked h.platform h.encoder e.state_writes name in_.blocked
                  (block_world in_)).1.store)
    unfolding Handlers.set_blocked
    store-set_blocked in_ f = grind (
      arith, f, audit_event-ok, begin_operation-answers, store-audit_event, store-begin_operation,
      store-finish_operation,
    )

    IsKeyed-set_blocked :
        TextLaws h.platform
        → IsKeyed h.platform s.store.doc.users
        → IsKeyed h.platform (Handlers.set_blocked h e r sess u name s).1.store.doc.users
    IsKeyed-set_blocked laws keyed =
        elim (Option-cases (decode_json h.bodies h.bodies.block r.body)) [
          | inl f ↦ IsKeyed-subst keyed (sym (store-set_blocked_undecoded f))
          | inr (in_, f) ↦ elim (store-set_blocked in_ f) [
            | inl same ↦ IsKeyed-subst keyed (sym same)
            | inr after ↦
                IsKeyed-subst
                  (set_blocked-IsKeyed laws h.encoder e.state_writes name in_.blocked
                    (block_world in_)
                    (IsKeyed-subst keyed
                      (sym (store-begin_operation h e r u (block_kind in_) name s))))
                  (sym after)
          ]
        ]

  current_session-ne-err : (s : Server) (x : Response) → (current_session h e r s).0 ≢ err x
  unfolding current_session
  current_session-ne-err s x y = grind arith

  -- A success behind `requirePermission` is one of the handler.
  require_permission-success :
      (permission : Text) (next : Session → User → Handler Response) (s : Server)
      (response : Response)
      → (answered (require_permission h e r permission next s)).0 ≡ response
      → response.status ≡ 200
      → (sess : Session) × (u : User) × ((answered (next sess u (current_session h e r s).1)).0
          ≡ response)
        × ((require_permission h e r permission next s).1
            ≡ (next sess u (current_session h e r s).1).1)
  unfolding require_permission require_auth
  require_permission-success permission next s response x y =
      elim (Result-cases (current_session h e r s).0) [
        | inl (refused, z) ↦ absurd (current_session-ne-err s refused z)
        | inr (found, z) ↦ elim (Option-cases found) [
          | inl f ↦ absurd (grind (arith, z, f))
          | inr ((sess, u), f) ↦ (sess, u, grind (arith, z, f), grind (arith, z, f))
        ]
      ]

-- Once an administrator has blocked a user, with success, a request that has a session is another
-- user's: whatever its cookie and however long the session would have lasted, `currentSession` does not
-- return the blocked user. (Each user of the store stands
-- under its own name, in normal form; lowering and trimming an ASCII text is as documented.)
pub lockout :
    (h : Host) (e e' : Moment) (r r' : Request) (s : Server) (name : Text) (pu : PublicUser)
    (sess : Session) (u : User)
    → TextLaws h.platform
    → IsKeyed h.platform s.store.doc.users
    → route r.method r.segments ≡ blocked name
    → (serve h e r s).0 ≡ write_json 200 (user pu)
    → pu.blocked ≡ true
    → (current_session h e' r' (serve h e r s).1).0 ≡ ok (some (sess, u))
    → u.username ≢ pu.username
unfolding serve handle
lockout h e e' r r' s name pu sess u laws keyed at answer is_blocked found =
    let rr = with_id e r in
    let x =
      require_permission h e rr (codes "rbac.users.write")
        (λ sess u. Handlers.set_blocked h e rr sess u name) s in
    let plain : serve h e r s ≡ answered x = rw at refl in
    let (admin_sess, admin, answer', after) =
      require_permission-success h e rr (codes "rbac.users.write")
        (λ sess u. Handlers.set_blocked h e rr sess u name) s (write_json 200 (user pu))
        (sym (ap (λ (z : Response × Server). z.0) plain) ∙ answer) refl in
    let t = (current_session h e rr s).1 in
    let same = store-current_session h e rr s in
    let keyed_t = IsKeyed-subst h e rr keyed (sym same) in
    let state : (Handlers.set_blocked h e rr admin_sess admin name t).1 ≡ (serve h e r s).1 =
      sym after ∙ sym (answered-state x) ∙ sym (ap (λ (z : Response × Server). z.1) plain) in
    IsAuthenticated-ne-blocked h e' r' (serve h e r s).1 pu.username sess u
      (subst (λ (z : Server). IsKeyed h.platform z.store.doc.users) state
        (IsKeyed-set_blocked h e rr admin_sess admin name t laws keyed_t))
      (subst (λ (z : Server). IsBlocked pu.username z.store) state
        (set_blocked-IsBlocked h e rr admin_sess admin name t pu keyed_t answer' is_blocked))
      (IsAuthenticated-current_session h e' r' (serve h e r s).1 sess u found)
