-- ===== src/Tests/Requests.antt =====
-- internal/httpserver: the requests of a browser, and of an administrator.
use srv_deployment.Prelude.{
  ◌≡◌, refl, ap, ◌≢◌, ◌⊎◌, true, none, some, List, [], ◌∷◌, ◌++◌, arith, Text, Text_discrete, codes,
  ℕ_discrete, pos, ok,
}
use srv_deployment.Auth.Limiter.{new_login_limiter}
use srv_deployment.Auth.Sessions.{Session, lookup, revoke_user}
use srv_deployment.Diagnostics.{Archive, build, build_secrets}
use srv_deployment.Dict
use srv_deployment.Files.{atomic_write}
use srv_deployment.HttpServer.Authority.{IsAuthenticated, IsGenuine, changes-serve}
use srv_deployment.HttpServer.Guards.{
  valid_origin, valid_mutation, client_ip, operation_id, new_operation_id, has_permission,
}
use srv_deployment.HttpServer.Handlers
use srv_deployment.HttpServer.Lockout.{lockout}
use srv_deployment.HttpServer.Soundness.{IsSound}
use srv_deployment.HttpServer.Recorded.{status_of}
use srv_deployment.HttpServer.Request.{
  Request, Response, Bodies, decode_json, PublicUser, public_user, user, write_json, page,
}
use srv_deployment.HttpServer.Routes.{
  route, blocked, password, handle, require_auth, require_permission, serve, with_id,
}
use srv_deployment.HttpServer.Server.{
  Server, Host, Moment, begin_operation, finish_operation, audit_event, current_session,
}
use srv_deployment.Operations
use srv_deployment.Platform.{ascii, ascii-TextLaws, trim_left, trim_right}
use srv_deployment.Process.{Process, development}
use srv_deployment.Release.Hex.{hex_encode}
use srv_deployment.Release.Manifest.{end_of_file}
use srv_deployment.State.Document
use srv_deployment.State.Document.{User, Store, role_admin, role_viewer, schema_version}
use srv_deployment.State.Keyed.{IsKeyed, nil-IsKeyed, cons-IsKeyed}
use srv_deployment.State.Store
use srv_deployment.State.Store.{verify_credentials}
use srv_deployment.State.Username.{normalize_username, is_username}
use srv_deployment.Strings.{all_chars}
use srv_deployment.Tests.Audits.{json, outcome}
use srv_deployment.Tests.Fixtures.{
  root_user, viewer_user, second_admin, store, encoder, good_writes, temp_file, salt, long_password,
}
use srv_deployment.Tests.Records.{codec}

abbrev bodies : Bodies
bodies = record {
  login = λ b. some (record { username = codes "Carol"; password = long_password });
  change_password = λ b. none;
  create_user = λ b. none;
  block = λ b. some (record { blocked = true });
  second_value = λ b. end_of_file;
}

abbrev pub process : Process
process = record {
  pid = 1;
  go_version = codes "go";
  go_os = codes "linux";
  go_arch = codes "amd64";
  goroutines = 4;
}

abbrev pub archive : Archive
archive = record { marshal = λ c. some []; add = λ b n m c. some (b ++ c); close = λ b. some b }

abbrev pub host : Host
host = record {
  platform = ascii;
  net = record { parse_url = λ o. some (codes "https", o); split_host_port = λ a. none };
  bodies = bodies;
  encoder = encoder;
  codec = codec;
  json = json;
  archive = archive;
  info = development;
  answer = λ r. write_json 200 (page []);
}

abbrev pub moment : Moment
moment = record {
  id_bytes = some (codes "A");
  formatted_time = codes "now";
  lookup_at = 50;
  allowed_at = 50;
  failure_at = 50;
  session_at = 50;
  start_at = 50;
  change_at = 50;
  finish_at = 51;
  audit_at = 51;
  now = 51;
  token_bytes = some (codes "abc");
  csrf_bytes = some (codes "xyz");
  salt = some salt;
  start_write = temp_file (codes ".tmp-4");
  finish_write = temp_file (codes ".tmp-5");
  state_writes = good_writes;
  audit_write = outcome;
  process = process;
}

abbrev session_of : User → Session
session_of u = record {
  username = u.username;
  role = u.role;
  csrf = codes "csrf";
  expires_at = 100;
}

abbrev pub server : Server
server = record {
  store = store;
  operations = record {
    path = codes "d/operations.json";
    doc = record { schema = Operations.schema_version; records = [] };
  };
  audit_path = codes "audit.jsonl";
  sessions = record {
    sessions = (codes "r", session_of root_user) ∷ (codes "v", session_of viewer_user) ∷ [];
    ttl = 100;
  };
  limiter = new_login_limiter (pos 5) 300;
  started_at = 0;
  files = [];
}

abbrev pub request : (method : Text) (segments : List Text) → Text → Request
request method segments token = record {
  method = method;
  segments = segments;
  limit = [];
  host = codes "control";
  remote_addr = codes "10.0.0.9";
  cookie = some token;
  origin = [];
  csrf_token = codes "csrf";
  operation_header = [];
  body = [];
}

abbrev pub block_viewer : Request
block_viewer =
    request (codes "POST")
      (codes "api"
        ∷ codes "v1"
        ∷ codes "rbac"
        ∷ codes "users"
        ∷ codes "viewer"
        ∷ codes "blocked"
        ∷ [])
      (codes "r")

abbrev served : Response × Server
served = serve host moment block_viewer server

-- Everything that a request of an administrator computes with.
unfoldable pub requests : Unit {0}
unfolding serve route handle require_permission require_auth current_session begin_operation
    finish_operation audit_event Handlers.set_blocked valid_origin valid_mutation client_ip
    operation_id new_operation_id has_permission hex_encode lookup Store.set_blocked Store.get_user
    Store.active_admins trim_left trim_right decode_json public_user Dict.get Dict.put Dict.remove
    Dict.delete_where normalize_username is_username all_chars Operations.start Operations.finish
    Operations.persist_locked atomic_write Document.persist_locked Document.write revoke_user
    Text_discrete ℕ_discrete
requests = tt

at_blocked : route block_viewer.method block_viewer.segments ≡ blocked (codes "viewer")
unfolding requests
at_blocked = refl

abbrev blocked_viewer : PublicUser
blocked_viewer = public_user (record viewer_user { blocked = true })

block_run : served.0 ≡ write_json 200 (user blocked_viewer)
unfolding requests
block_run = refl

-- A blank before the own name passes the test for it, and the name is trimmed only in the store: the
-- administrator blocks itself.
abbrev pub block_self : Request
block_self =
    request (codes "POST")
      (codes "api"
        ∷ codes "v1"
        ∷ codes "rbac"
        ∷ codes "users"
        ∷ codes " root"
        ∷ codes "blocked"
        ∷ [])
      (codes "r")

self_block_run :
    (serve host moment block_self server).0
    ≡ write_json 200 (user (public_user (record root_user { blocked = true })))
unfolding requests
self_block_run = refl

block_changes : served.1.store ≢ store
unfolding requests
block_changes e = absurd (omega (arith, ap (λ (s : Store). s.doc.revision) e))

store_ready : (Store.ready store).0 ≡ true
unfolding Store.ready Store.has_active_admin Text_discrete ℕ_discrete
store_ready = refl

changes-serve_example :
    (sess : Session) × (u : User) × IsAuthenticated host moment
      (with_id moment block_viewer)
      server
      sess
      u
    × IsGenuine host (with_id moment block_viewer) sess
    × ((u.role ≡ role_admin) ⊎ (route block_viewer.method block_viewer.segments ≡ password))
changes-serve_example = changes-serve host moment block_viewer server block_changes

pub no_record : status_of host moment (with_id moment block_viewer) server ≡ none
unfolding requests
no_record = refl

pub keyed : IsKeyed ascii store.doc.users
unfolding Dict.get requests
keyed =
    let viewers = (viewer_user.username, viewer_user) ∷ [] in
    cons-IsKeyed ascii ((second_admin.username, second_admin) ∷ viewers) root_user refl (
      cons-IsKeyed ascii viewers second_admin refl
        (cons-IsKeyed ascii [] viewer_user refl (nil-IsKeyed ascii)))

pub server-IsSound : IsSound ascii server
unfolding Dict.get
server-IsSound = (store_ready, keyed, record { keyed = (tt, tt); bounded = omega arith })

-- Afterwards the cookie of the administrator is good.
abbrev ask : Request
ask =
    request (codes "GET") (codes "api" ∷ codes "v1" ∷ codes "auth" ∷ codes "session" ∷ [])
      (codes "r")

still_in :
    (current_session host moment ask served.1).0 ≡ ok (some (session_of root_user, root_user))
unfolding requests
still_in = refl

lockout_example : root_user.username ≢ blocked_viewer.username
unfolding public_user
lockout_example =
    lockout host moment moment block_viewer ask server (codes "viewer") blocked_viewer
      (session_of root_user) root_user ascii-TextLaws keyed at_blocked block_run refl still_in

-- Two stores that differ in a password.
abbrev other_store : Document.Store
other_store = record store {
  secrets = record {
    schema = schema_version;
    revision = 7;
    passwords = (codes "root", codes "hash") ∷ [];
  };
}

build_secrets_example :
    build archive 51 json development process 0
      (codes "id")
      store
      (codes "audit.jsonl")
      server.files
      server.operations
    ≡ build archive 51 json development process 0
        (codes "id")
        other_store
        (codes "audit.jsonl")
        server.files
        server.operations
build_secrets_example =
    build_secrets archive 51 json development process 0 (codes "id") store other_store
      (codes "audit.jsonl") server.files server.files server.operations refl refl
