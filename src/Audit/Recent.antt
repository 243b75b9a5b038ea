-- ===== src/Audit/Recent.antt =====
-- `Recent` lists what `Append` has logged.
use srv_deployment.Prelude.{
  ℕ, zero, suc, ◌+◌, ◌-◌, ◌≤◌, ◌<◌, ◌≡◌, refl, sym, ap, ◌∙◌, true, false, some, List, [], ◌∷◌, ◌++◌,
  arith, Text, Text_discrete, length, drop, ℤ, ok, length-append,
}
use srv_deployment.Dict.{get-put}
use srv_deployment.Files.{Files, content, read_file}
use srv_deployment.Platform.{Platform}
use mathlib.Core.List.{append_assoc, append-nil}
use srv_deployment.Strings.{split}
use srv_deployment.Strings.Split.{lacks, split-append}
use srv_deployment.Audit.{
  max_read_bytes, max_line_bytes, AuditEvent, Json, Outcome, stamped, append, complete, drop_cr,
  scan, keep, reverse, limit_of, collect, recent,
}

-- The last events of a list, at most so many.
abbrev pub latest : ℕ → List AuditEvent → List AuditEvent
latest n es = drop (length es - n) es

length-drop : (n : ℕ) (es : List AuditEvent) → length (drop n es) ≡ length es - n
length-drop zero es = omega arith
length-drop (suc n) [] = omega arith
length-drop (suc n) (e ∷ es) = omega (arith, length-drop n es)

drop-append :
    (n : ℕ) (es fs : List AuditEvent) → n ≤ length es → drop n (es ++ fs) ≡ drop n es ++ fs
drop-append zero es fs h = refl
drop-append (suc n) [] fs h = absurd (omega arith)
drop-append (suc n) (e ∷ es) fs h = drop-append n es fs (omega arith)

drop_nil : (n : ℕ) → drop {A = AuditEvent} n [] ≡ []
drop_nil zero = refl
drop_nil (suc n) = refl

suc_add : (n m : ℕ) → suc n + m ≡ suc (n + m)
suc_add n m = omega arith

drop-drop : (m n : ℕ) (es : List AuditEvent) → drop m (drop n es) ≡ drop (n + m) es
drop-drop m zero es = grind arith
drop-drop m (suc n) [] = grind (arith, drop_nil m, drop_nil (suc n + m))
drop-drop m (suc n) (e ∷ es) = rw (suc_add n m) (drop-drop m n es)

keep-latest :
    (n : ℕ) (es : List AuditEvent) (e : AuditEvent)
    → 0 < n
    → keep n (latest n es) e ≡ latest n (es ++ e ∷ [])
keep-latest n es e h =
    let k = length es - n in
    grind (
      arith,
      length-append (drop k es) (e ∷ []),
      length-append es (e ∷ []),
      length-drop k es,
      drop-append k es (e ∷ []) (omega arith),
      drop-append (length es + 1 - n) es (e ∷ []),
      drop-drop (length (drop k es) + 1 - n) k (es ++ e ∷ []),
    )

complete-cons : (l rest : Text) → complete (l ∷ split 10 rest) ≡ l ∷ complete (split 10 rest)
unfolding split
complete-cons l [] = grind arith
complete-cons l (c ∷ rest) = ground arith

module _ (j : Json) where
  -- One event and its line: a JSON text with no newline, that fits the buffer and is read back.
  pub record IsLine (e : AuditEvent) (l : Text) : Type 0 where
    pub marshalled : j.marshal e ≡ some l
    pub one_line : lacks 10 l ≡ true
    pub no_return : drop_cr l ≡ l
    pub short : length l < max_line_bytes
    pub read_back : j.unmarshal l ≡ some e

  -- A text is the log of some events.
  abbrev pub IsLog : Text → List AuditEvent → Type 0
  IsLog b [] = b ≡ []
  IsLog b (e ∷ es) = (l : Text) × (rest : Text) × (b ≡ l ++ 10 ∷ rest) × IsLine e l × IsLog rest es

  IsLog-append :
      (b l : Text) (es : List AuditEvent) (e : AuditEvent)
      → IsLog b es
      → IsLine e l
      → IsLog (b ++ (l ++ 10 ∷ [])) (es ++ e ∷ [])
  IsLog-append b l [] e log line = (l, [], ap (λ b. b ++ (l ++ 10 ∷ [])) log, line, refl)
  IsLog-append b l (f ∷ es) e (k, rest, eq, first, log) line = (
    k,
    rest ++ (l ++ 10 ∷ []),
    ap (λ b. b ++ (l ++ 10 ∷ [])) eq ∙ append_assoc k (10 ∷ rest) (l ++ 10 ∷ []),
    first,
    IsLog-append rest l es e log line,
  )

  abbrev AreTokens : List AuditEvent → List Text → Type 0
  AreTokens [] ts = ts ≡ []
  AreTokens (e ∷ es) [] = ⊥
  AreTokens (e ∷ es) (t ∷ ts) = (j.unmarshal t ≡ some e) × AreTokens es ts

  scan-IsLog :
      (b : Text) (es : List AuditEvent)
      → IsLog b es
      → (ts : List Text) × (scan (complete (split 10 b)) ≡ (ts, false)) × AreTokens es ts
  unfolding scan split Text_discrete
  scan-IsLog b [] log = ([], rw log refl, refl)
  scan-IsLog b (e ∷ es) (l, rest, eq, line, log) =
      let (ts, scanned, read) = scan-IsLog rest es log in
      (
        l ∷ ts,
        rw (eq, split-append 10 l rest line.one_line, complete-cons l rest)
            (ground (arith, scanned, line.short, line.no_return)),
        (line.read_back, read),
      )

  collect-tokens :
      (n : ℕ) (before es : List AuditEvent) (ts : List Text)
      → 0 < n
      → AreTokens es ts
      → collect j n (latest n before) ts ≡ latest n (before ++ es)
  unfolding collect
  collect-tokens n before [] ts h t = rw (t, append-nil before) refl
  collect-tokens n before (e ∷ es) [] h t = absurd t
  collect-tokens n before (e ∷ es) (x ∷ ts) h (first, t) = rw first (
      rw (keep-latest n before e h) (
        collect-tokens n (before ++ e ∷ []) es ts h t
        ∙ ap (latest n) (append_assoc before (e ∷ []) es)))

  -- The log of some events lists the last ones, newest first, where the file is one that is read
  -- whole; `limit` is replaced by 100 unless it is from 1 to 500.
  recent-IsLog :
      (limit : ℤ) (path b : Text) (es : List AuditEvent) (fs : Files)
      → read_file fs path ≡ content b
      → IsLog b es
      → length b ≤ max_read_bytes
      → recent j limit path fs ≡ ok (reverse (latest (limit_of limit) es))
  unfolding recent
  recent-IsLog limit path b es fs found log small =
      let (ts, scanned, read) = scan-IsLog b es log in
      let whole : length b - max_read_bytes ≡ 0 = omega arith in
      let n = limit_of limit in
      let start = drop_nil (0 - n) in
      rw (found, whole, scanned)
        (ap ok (
          ap reverse (
            ap (λ a. collect j n a ts) (sym start)
            ∙ collect-tokens n [] es ts (ground arith) read)))

  -- An event that `Append` logged, without an error, is listed first, before the latest of the others,
  -- for any limit (100 unless it is from 1 to 500). The file was the log of these others before it,
  -- the JSON of each event is one line that is read back, and the file is one that is read whole.
  pub recent-append :
      (p : Platform) (o : Outcome) (now : ℕ) (path b l : Text) (es : List AuditEvent)
      (e : AuditEvent) (fs : Files)
      → read_file fs path ≡ content b
      → IsLog b es
      → IsLine (stamped now e) l
      → length b + length l < max_read_bytes
      → (append p j o now path e fs).0 ≡ ok tt
      → (limit : ℤ)
      → recent j limit path (append p j o now path e fs).1
        ≡ ok (reverse (latest (limit_of limit) (es ++ stamped now e ∷ [])))
  unfolding append read_file
  recent-append p o now path b l es e fs found log line small done limit =
      recent-IsLog limit path (b ++ (l ++ 10 ∷ [])) (es ++ stamped now e ∷ [])
        (append p j o now path e fs).1 (grind (arith, get-put, found, line.marshalled))
        (IsLog-append b l es (stamped now e) log line)
        (omega (arith, length-append b (l ++ 10 ∷ []), length-append l (10 ∷ [])))
