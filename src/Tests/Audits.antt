-- ===== src/Tests/Audits.antt =====
-- internal/observability
use srv_deployment.Prelude.{
  ℕ, ◌≡◌, refl, true, some, [], ◌∷◌, ◌++◌, arith, ◌==◌, Text, Text_discrete, codes, if◌then◌else◌,
  ℕ_discrete, pos, ok, text_eq, nat_eq, int_eq,
}
use srv_deployment.Dict
use srv_deployment.Files.{Files, file, content, read_file}
use srv_deployment.Platform.{ascii, trim_left, trim_right}
use srv_deployment.Strings.Split.{lacks}
use srv_deployment.Audit.{
  AuditEvent, Json, Outcome, stamped, append, drop_cr, reverse, limit_of, recent,
}
use srv_deployment.Audit.Recent.{IsLine, latest, recent-append}

abbrev event : (action : Text) (time : ℕ) → AuditEvent
event action time = record {
  time = time;
  operation_id = [];
  actor = codes "root";
  role = codes "admin";
  action = action;
  target = [];
  result = codes "ok";
  remote_ip = [];
  error_code = [];
}

abbrev login : AuditEvent
login = event (codes "login") 3

abbrev block : AuditEvent
block = event (codes "block") 0

-- Only these two events are written and read.
abbrev pub json : Json
json = record {
  marshal = λ e. some e.action;
  unmarshal = λ b. if b == codes "login" then some login else some (stamped 9 block);
}

abbrev pub outcome : Outcome
outcome = record { opened = true; written_all = true; written = []; synced = true }

abbrev log : Files
log = (codes "audit.jsonl", file (codes "login" ++ 10 ∷ [])) ∷ []

log_found : read_file log (codes "audit.jsonl") ≡ content (codes "login" ++ 10 ∷ [])
unfolding read_file Dict.get Text_discrete ℕ_discrete
log_found = refl

login-IsLine : IsLine json login (codes "login")
unfolding lacks drop_cr Text_discrete ℕ_discrete
login-IsLine = record {
  marshalled = refl;
  one_line = refl;
  no_return = refl;
  short = omega arith;
  read_back = refl;
}

block-IsLine : IsLine json (stamped 9 block) (codes "block")
unfolding lacks drop_cr Text_discrete ℕ_discrete
block-IsLine = record {
  marshalled = refl;
  one_line = refl;
  no_return = refl;
  short = omega arith;
  read_back = refl;
}

append_run : (append ascii json outcome 9 (codes "audit.jsonl") block log).0 ≡ ok tt
unfolding append read_file trim_left trim_right Dict.get Dict.put Text_discrete ℕ_discrete
append_run = refl

recent-append_example :
    recent json
      (pos 1)
      (codes "audit.jsonl")
      (append ascii json outcome 9 (codes "audit.jsonl") block log).1
    ≡ ok (reverse (latest (limit_of (pos 1)) (login ∷ stamped 9 block ∷ [])))
recent-append_example =
    recent-append json ascii outcome 9 (codes "audit.jsonl") (codes "login" ++ 10 ∷ [])
      (codes "block") (login ∷ []) block log log_found (codes "login", [], refl, login-IsLine, refl)
      block-IsLine (omega arith) append_run (pos 1)
