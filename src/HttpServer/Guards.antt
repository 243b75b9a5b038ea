-- ===== src/HttpServer/Guards.antt =====
-- What a handler asks of a request: its origin, its CSRF token, its address, its limit, its operation;
-- and of a role, its permissions.
use srv_deployment.Prelude.{
  inl, inr, Bool, true, false, not, ◌&&◌, ◌||◌, Option, none, some, [], arith, ◌==◌, ◌!=◌, Text,
  codes, Option-cases, if◌then◌else◌, ℤ, pos, ◌≤ℤ◌, ltb_ℤ, text_eq, nat_eq, int_eq,
}
use srv_deployment.Auth.Sessions.{Session}
use srv_deployment.Platform.{Platform}
use srv_deployment.Release.Hex.{hex_encode}
use srv_deployment.State.Document.{Role, role_admin, role_viewer}
use srv_deployment.Strings.{atoi}
use srv_deployment.HttpServer.Request.{Request}

-- `url.Parse`, as scheme and host, and the host of `net.SplitHostPort`; `none` for an error.
pub record Net : Type 0 where
  pub parse_url : Text → Option (Text × Text)
  pub split_host_port : Text → Option Text

-- `hasPermission`
unfoldable pub has_permission : Role → Text → Bool
has_permission role permission =
    if role == role_admin
    then true
    else if role == role_viewer
    then permission == codes "system.read"
    else false

module _ (p : Platform) (n : Net) where
  abbrev same_host : Text → Option (Text × Text) → Bool
  same_host host none = false
  same_host host (some (scheme, origin_host)) =
      if origin_host == []
      then false
      else p.equal_fold origin_host host && (scheme == codes "https" || scheme == codes "http")

  -- `validOrigin`
  unfoldable pub valid_origin : Request → Bool
  valid_origin r =
      let origin = p.trim_space r.origin in
      if origin == [] then true else same_host r.host (n.parse_url origin)

  -- `validMutation`
  unfoldable pub valid_mutation : Request → Session → Bool
  valid_mutation r sess =
      if not (valid_origin r)
      then false
      else p.trim_space r.csrf_token != [] && r.csrf_token == sess.csrf

abbrev pub or_text : Option Text → Text → Text
or_text none t = t
or_text (some s) t = s

-- `clientIP`
unfoldable pub client_ip : Net → Request → Text
client_ip n r = or_text (n.split_host_port r.remote_addr) r.remote_addr

abbrev limited : ℤ → Option ℤ → ℤ
limited fallback none = fallback
limited fallback (some n) =
    if ltb_ℤ n (pos 1) then fallback else if ltb_ℤ (pos 500) n then pos 500 else n

-- `queryLimit`
unfoldable pub query_limit : Request → ℤ → ℤ
query_limit r fallback = if r.limit == [] then fallback else limited fallback (atoi r.limit)

-- `operationID`
unfoldable pub operation_id : Platform → Request → Text
operation_id p r = let v = p.trim_space r.operation_header in if v != [] then v else codes "unknown"

-- `newOperationID`: sixteen random bytes, or the time, formatted, where they cannot be read.
unfoldable pub new_operation_id : Option Text → (time : Text) → Text
new_operation_id none time = time
new_operation_id (some b) time = hex_encode b

-- `queryLimit` of the lists: whatever the query says, from 1 to 500.
pub query_limit_bounds :
    (r : Request) → (pos 1 ≤ℤ query_limit r (pos 100)) × (query_limit r (pos 100) ≤ℤ pos 500)
unfolding query_limit
query_limit_bounds r = elim (Option-cases (atoi r.limit)) [
  | inl e ↦ ground (arith, e)
  | inr (n, e) ↦ ground (arith, e)
]
