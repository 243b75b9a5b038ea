-- ===== src/HttpServer/Request.antt =====
-- What a handler reads of a request and what it answers.
use srv_deployment.Prelude.{
  ℕ, ◌*◌, Bool, true, false, Option, none, some, List, [], Text, if◌then◌else◌, take, ℤ, minus_one,
}
use srv_deployment.Audit.{AuditEvent}
use srv_deployment.Operations.{Record}
use srv_deployment.Release.Manifest.{Trailing, end_of_file}
use srv_deployment.Process.{BuildInfo, Process}
use srv_deployment.State.Document
use srv_deployment.State.Document.{User, Role}

-- `segments` are the unescaped segments of the path after its first slash. The headers and the
-- parameter of the query are `""` where they are missing; `cookie` is the value of `cc_session`.
pub record Request : Type 0 where
  pub method : Text
  pub segments : List Text
  pub limit : Text
  pub host : Text
  pub remote_addr : Text
  pub cookie : Option Text
  pub origin : Text
  pub csrf_token : Text
  pub operation_header : Text
  pub body : Text

pub record LoginRequest : Type 0 where
  pub username : Text
  pub password : Text

pub record ChangePasswordRequest : Type 0 where
  pub current_password : Text
  pub new_password : Text

pub record CreateUserRequest : Type 0 where
  pub username : Text
  pub password : Text
  pub role : Role

pub record BlockRequest : Type 0 where
  pub blocked : Bool

-- A `json.Decoder` that disallows unknown fields, on the bytes of a body: the first value of each
-- type, `none` for an error, and what a second `Decode` finds.
pub record Bodies : Type 0 where
  pub login : Text → Option LoginRequest
  pub change_password : Text → Option ChangePasswordRequest
  pub create_user : Text → Option CreateUserRequest
  pub block : Text → Option BlockRequest
  pub second_value : Text → Trailing

abbrev is_end : Trailing → Bool
is_end end_of_file = true
is_end _ = false

abbrev if_alone : {A : Type 0} → Bool → Option A → Option A
if_alone alone none = none
if_alone alone (some a) = if alone then some a else none

-- `decodeJSON`: at most 64 KiB of the body are read, which hold a single value.
unfoldable pub decode_json : {A : Type 0} → Bodies → (Text → Option A) → Text → Option A
decode_json bodies first body =
    let read = take (64 * 1024) body in if_alone (is_end (bodies.second_value read)) (first read)

-- `publicUser`
pub record PublicUser : Type 0 where
  pub username : Text
  pub role : Role
  pub blocked : Bool
  pub must_change_password : Bool
  pub created_at : ℕ
  pub password_changed_at : ℕ

unfoldable pub public_user : User → PublicUser
public_user u = record {
  username = u.username;
  role = u.role;
  blocked = u.blocked;
  must_change_password = u.must_change_password;
  created_at = u.created_at;
  password_changed_at = u.password_changed_at;
}

-- The envelope of an answer; `message` is the text of an error, `failure` the error of the store whose
-- text is sent; an uptime is the time from `started_at` to `now`.
pub data Body : Type 0 where
  error : (code message operation_id : Text) → Body
  failure : (code : Text) → Document.Error → (operation_id : Text) → Body
  health : (time : ℕ) → Body
  readiness : (detail : Text) (ready : Bool) → Body
  version : BuildInfo → (state_schema operations_schema : ℤ) → Body
  logged_in : PublicUser → (csrf_token : Text) → Body
  logged_out : Body
  password_changed : Body
  system_status :
      PublicUser
      → (ready : Bool) (detail : Text) → Process
      → (started_at now operation_count : ℕ) → Body
  users : List PublicUser → Body
  user : PublicUser → Body
  operations : List Record → Body
  events : List AuditEvent → Body
  summary :
      (version : Text) (ready : Bool) (detail : Text) (operation_count : ℕ)
      (audit_readable audit_has_events : Bool) (started_at now : ℕ)
      → Body
  bundle : Text → Body
  page : Text → Body

-- `setSessionCookie` and `clearSessionCookie`, of the cookie `cc_session`; `max_age` is -1 for one that is
-- deleted.
pub record Cookie : Type 0 where
  pub value : Text
  pub max_age : ℤ
  pub http_only : Bool
  pub secure : Bool
  pub same_site_strict : Bool

pub record Response : Type 0 where
  pub status : ℕ
  pub cookie : Option Cookie
  pub body : Body

abbrev pub session_cookie : Text → ℤ → Cookie
session_cookie token max_age = record {
  value = token;
  max_age = max_age;
  http_only = true;
  secure = true;
  same_site_strict = true;
}

abbrev pub cleared : Cookie
cleared = session_cookie [] minus_one

abbrev pub write_json : ℕ → Body → Response
write_json status body = record { status = status; cookie = none; body = body }

abbrev pub with_cookie : Cookie → Response → Response
with_cookie c r = record r { cookie = some c }

abbrev pub write_error : ℕ → (code message operation_id : Text) → Response
write_error status code message operation_id = write_json status (error code message operation_id)
