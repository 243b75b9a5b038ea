-- ===== src/Audit.antt =====
-- internal/observability/audit.go: the audit log, one JSON text a line.
pub mod Recent
use srv_deployment.Prelude.{
  ℕ, zero, suc, ◌-◌, ◌*◌, ◌^◌, Bool, true, false, not, ◌||◌, Option, none, some, List, [], ◌∷◌,
  ◌++◌, ltb, leb, ◌==◌, ◌!=◌, Text, codes, if◌then◌else◌, length, drop, ℤ, pos, pos_part, ltb_ℤ,
  leb_ℤ, Result, ok, err, or_fail, text_eq, nat_eq, int_eq,
}
use srv_deployment.Dict
use srv_deployment.Exec.{Exec, ◌>>=◌, ◌>>◌, pure, lift, gets, modify, check}
use srv_deployment.Files.{Files, Read, content, not_exist, unreadable, file, read_file}
use srv_deployment.Platform.{Platform}
use srv_deployment.Strings.{split}

abbrev pub max_read_bytes : ℕ
max_read_bytes = 2 * 2 ^ 20

-- The second argument of `scanner.Buffer`.
abbrev pub max_line_bytes : ℕ
max_line_bytes = 256 * 1024

-- The zero time is 0.
pub record AuditEvent : Type 0 where
  pub time : ℕ
  pub operation_id : Text
  pub actor : Text
  pub role : Text
  pub action : Text
  pub target : Text
  pub result : Text
  pub remote_ip : Text
  pub error_code : Text

pub data Error : Type 0 where
  directory_required create_directory chmod_failed close_failed fields_required marshal_failed
        open_failed write_failed sync_failed token_too_long :
      Error

-- `json.Marshal` of an event and `json.Unmarshal` of a line; `none` for an error.
pub record Json : Type 0 where
  pub marshal : AuditEvent → Option Text
  pub unmarshal : Text → Option AuditEvent

-- How the calls of one `Append` end; `written` is what a failing `Write` adds to the file.
pub record Outcome : Type 0 where
  pub opened : Bool
  pub written_all : Bool
  pub written : Text
  pub synced : Bool

-- `os.OpenFile` with `O_CREATE|O_APPEND`, as the text that the file then has.
abbrev open_text : Bool → Read → Result Error Text
open_text false r = err open_failed
open_text true (content b) = ok b
open_text true not_exist = ok []
open_text true unreadable = err open_failed

-- How the calls of `OpenAudit` end.
pub record Opening : Type 0 where
  pub made : Bool
  pub opened : Bool
  pub chmodded : Bool
  pub closed : Bool

-- `OpenAudit`, with the path of the log that it returns.
unfoldable pub open_audit : Platform → Opening → (dir : Text) → Exec Error Files Text
open_audit p o dir = do
  check (p.trim_space dir != []) directory_required
  check o.made create_directory
  let path = p.path_join dir (codes "audit.jsonl")
  found ← gets (λ fs. read_file fs path)
  old ← lift (open_text o.opened found)
  modify (λ fs. Dict.put fs path (file old))
  check o.chmodded chmod_failed
  check o.closed close_failed
  pure path

-- `if event.Time.IsZero() { event.Time = time.Now().UTC() }`
abbrev pub stamped : ℕ → AuditEvent → AuditEvent
stamped now e = if e.time == 0 then record e { time = now } else e

module _ (p : Platform) (j : Json) where
  unfoldable pub append : Outcome → (now : ℕ) (path : Text) → AuditEvent → Exec Error Files Unit
  append o now path e = do
    check (not (p.trim_space e.action == [] || p.trim_space e.result == [])) fields_required
    b ← lift (or_fail (j.marshal (stamped now e)) marshal_failed)
    found ← gets (λ fs. read_file fs path)
    old ← lift (open_text o.opened found)
    let added = if o.written_all then b ++ 10 ∷ [] else o.written
    modify (λ fs. Dict.put fs path (file (old ++ added)))
    check o.written_all write_failed
    check o.synced sync_failed

-- `bufio.ScanLines`: the text after the last newline is a line if it is not empty.
abbrev pub complete : List Text → List Text
complete [] = []
complete (l ∷ []) = if l == [] then [] else l ∷ []
complete (l ∷ m ∷ ls) = l ∷ complete (m ∷ ls)

-- A carriage return at the end of a line is dropped.
unfoldable pub drop_cr : Text → Text
drop_cr [] = []
drop_cr (c ∷ []) = if c == 13 then [] else c ∷ []
drop_cr (c ∷ d ∷ s) = c ∷ drop_cr (d ∷ s)

-- The tokens of `Scan` up to a line that does not fit the buffer, and whether there is one.
unfoldable pub scan : List Text → List Text × Bool
scan [] = ([], false)
scan (l ∷ ls) =
    let (tokens, too_long) = scan ls in
    if leb max_line_bytes (length l) then ([], true) else (drop_cr l ∷ tokens, too_long)

-- `events = append(events, event)`, and the cut to the last `limit` of them.
abbrev pub keep : ℕ → List AuditEvent → AuditEvent → List AuditEvent
keep limit events e =
    let all = events ++ e ∷ [] in
    if ltb limit (length all) then drop (length all - limit) all else all

abbrev keep_some : ℕ → List AuditEvent → Option AuditEvent → List AuditEvent
keep_some limit events none = events
keep_some limit events (some e) = keep limit events e

abbrev pub reverse : List AuditEvent → List AuditEvent
reverse [] = []
reverse (e ∷ es) = reverse es ++ e ∷ []

-- `if start > 0 { _ = scanner.Scan() }`
abbrev skip_first : ℕ → List Text → List Text
skip_first zero tokens = tokens
skip_first (suc n) tokens = drop 1 tokens

abbrev pub limit_of : ℤ → ℕ
limit_of limit = if leb_ℤ limit (pos 0) || ltb_ℤ (pos 500) limit then 100 else pos_part limit

module _ (j : Json) where
  -- The loop over the tokens.
  unfoldable pub collect : ℕ → List AuditEvent → List Text → List AuditEvent
  collect limit events [] = events
  collect limit events (t ∷ ts) = collect limit (keep_some limit events (j.unmarshal t)) ts

  abbrev pub events_of : ℕ → ℕ → List Text × Bool → Result Error (List AuditEvent)
  events_of limit start (tokens, true) = err token_too_long
  events_of limit start (tokens, false) = ok (reverse (collect limit [] (skip_first start tokens)))

  abbrev recent_of : ℕ → Read → Result Error (List AuditEvent)
  recent_of limit not_exist = ok []
  recent_of limit unreadable = err open_failed
  recent_of limit (content b) =
      let start = length b - max_read_bytes in
      events_of limit start (scan (complete (split 10 (drop start b))))

  -- `Recent`; an error in reading a file that was opened is `open_failed`, too.
  unfoldable pub recent : ℤ → (path : Text) → Files → Result Error (List AuditEvent)
  recent limit path fs = recent_of (limit_of limit) (read_file fs path)
