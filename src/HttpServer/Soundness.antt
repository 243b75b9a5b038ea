-- ===== src/HttpServer/Soundness.antt =====
-- What holds of a server however many requests it has served.
use srv_deployment.Prelude.{◌≡◌, sym, true, List, arith, Text}
use srv_deployment.HttpServer.Effects.{store-begin_operation, store-finish_operation}
use srv_deployment.HttpServer.Kept.{IsKept, serve_all-keeps}
use srv_deployment.HttpServer.Request.{Request}
use srv_deployment.HttpServer.Routes.{serve_all}
use srv_deployment.HttpServer.Server.{
  Server, Host, Moment, id, audit_event, begin_operation, finish_operation,
}
use mathlib.Core.Path.{subst}
use srv_deployment.Operations
use srv_deployment.Operations.{Record}
use srv_deployment.Operations.Invariant.{IsValid, start-IsValid, finish-IsValid}
use srv_deployment.Platform.{Platform, TextLaws}
use srv_deployment.State.Admins.{create_user-keeps, set_blocked-keeps, change_password-keeps}
use srv_deployment.State.Document
use srv_deployment.State.Document.{User}
use srv_deployment.State.Keyed.{
  IsKeyed, create_user-IsKeyed, set_blocked-IsKeyed, change_password-IsKeyed,
}
use srv_deployment.State.Store.{has_active_admin, ready}

-- The server is ready, each user stands under its own name, in normal form, and the records of the
-- operations are well formed and at most a thousand.
abbrev pub IsSound : Platform → Server → Type 0
IsSound p s =
    ((ready s.store).0 ≡ true) × IsKeyed p s.store.doc.users × IsValid s.operations.doc.records

abbrev operations_world : Server → Operations.World
operations_world s = record { store = s.operations; files = s.files }

abbrev state_world : Server → Document.World
state_world s = record { store = s.store; files = s.files }

ready-has_active_admin :
    (s : Document.Store) → (ready s).0 ≡ true → has_active_admin s.doc.users ≡ true
unfolding ready
ready-has_active_admin s x = ground arith

has_active_admin-ready :
    (s : Document.Store) → has_active_admin s.doc.users ≡ true → (ready s).0 ≡ true
unfolding ready
has_active_admin-ready s x = ground arith

module _ (h : Host) (laws : TextLaws h.platform) (e : Moment) (r : Request) where
  begin_operation-IsValid :
      (u : User) (kind target : Text) (s : Server)
      → IsValid s.operations.doc.records
      → IsValid (begin_operation h e r u kind target s).1.operations.doc.records
  unfolding begin_operation
  begin_operation-IsValid u kind target s x = ground (
    arith,
    start-IsValid h.codec e.start_write e.start_at (id h e r) kind u.username u.role target
        (operations_world s) x,
  )

  finish_operation-IsValid :
      (u : User) (kind target st code : Text) (s : Server)
      → IsValid s.operations.doc.records
      → IsValid (finish_operation h e r u kind target st code s).1.operations.doc.records
  unfolding finish_operation audit_event
  finish_operation-IsValid u kind target st code s x = ground (
    arith,
    finish-IsValid h.codec e.finish_write e.finish_at (id h e r) st code (operations_world s) x,
  )

  same_store :
      (s t : Server)
      → t.store ≡ s.store
      → ((ready s.store).0 ≡ true) × IsKeyed h.platform s.store.doc.users
      → ((ready t.store).0 ≡ true) × IsKeyed h.platform t.store.doc.users
  same_store s t same x =
      subst (λ (z : Document.Store). ((ready z).0 ≡ true) × IsKeyed h.platform z.doc.users)
        (sym same) x

  pub IsSound-IsKept : IsKept h e r (IsSound h.platform)
  unfolding audit_event
  IsSound-IsKept = record {
    logs = λ actor role action target result code s x. x;
    begins = λ u kind target s (a, k, v).
        let (a', k') =
          same_store s (begin_operation h e r u kind target s).1
            (store-begin_operation h e r u kind target s) (a, k) in
        (a', k', begin_operation-IsValid u kind target s v);
    finishes = λ u kind target st code s (a, k, v).
        let (a', k') =
          same_store s (finish_operation h e r u kind target st code s).1
            (store-finish_operation h e r u kind target st code s) (a, k) in
        (a', k', finish_operation-IsValid u kind target st code s v);
    sessions = λ s m x. x;
    limits = λ s l x. x;
    creates = λ username pass role s (a, k, v). (
      has_active_admin-ready _ (
          create_user-keeps h.platform h.encoder e.state_writes e.salt e.change_at username pass
            role (state_world s) (ready-has_active_admin s.store a)),
      create_user-IsKeyed laws h.encoder e.state_writes e.salt e.change_at username pass role
          (state_world s) k,
      v,
    );
    blocks = λ username b s (a, k, v). (
      has_active_admin-ready _ (
          set_blocked-keeps h.platform h.encoder e.state_writes username b (state_world s)
            (ready-has_active_admin s.store a)),
      set_blocked-IsKeyed laws h.encoder e.state_writes username b (state_world s) k,
      v,
    );
    changes = λ username old new s (a, k, v). (
      has_active_admin-ready _ (
          change_password-keeps h.platform h.encoder e.state_writes e.salt e.change_at username old
            new (state_world s) (ready-has_active_admin s.store a)),
      change_password-IsKeyed laws h.encoder e.state_writes e.salt e.change_at username old new
          (state_world s) k,
      v,
    );
  }

-- A server that is ready stays ready: no sequence of requests, whatever they hold and whatever fails
-- while they are served, leaves it with no active administrator, with a user under another name than its
-- own, or with records of operations that are not well formed or more than a thousand. (Lowering and
-- trimming an ASCII text is as documented.)
IsSound-serve_all :
    (h : Host) (requests : List (Moment × Request)) (s : Server)
    → TextLaws h.platform
    → IsSound h.platform s
    → IsSound h.platform (serve_all h requests s)
IsSound-serve_all h requests s laws x =
    serve_all-keeps h (IsSound h.platform) (λ e r. IsSound-IsKept h laws e r) requests s x
