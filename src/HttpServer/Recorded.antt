-- ===== src/HttpServer/Recorded.antt =====
-- The record of an operation that a request starts, and what `Finish` leaves of it.
use srv_deployment.Prelude.{
  ℕ, ◌≡◌, ◌⊎◌, inl, inr, Option, none, some, arith, ltb, Text, Option-cases, if◌then◌else◌, Result,
  ok, err,
}
use srv_deployment.Dict
use srv_deployment.Operations
use srv_deployment.Operations.{
  Record, status_running, status_succeeded, status_failed, records, finish,
}
use srv_deployment.Operations.Lifecycle.{get-finish}
use srv_deployment.Operations.Started.{get-finish-none}
use srv_deployment.HttpServer.Server.{id}
use srv_deployment.HttpServer.Request.{Request, Response}
use srv_deployment.HttpServer.Server.{Server, Host, Moment}

-- The status of a record that may not be there.
abbrev pub status_option : Option Record → Option Operations.Status
status_option none = none
status_option (some rec) = some rec.status

-- The status of the record with an id.
abbrev pub status_at : Text → Server → Option Operations.Status
status_at key s = status_option (Dict.get s.operations.doc.records key)

-- There is no record, or one with the status.
abbrev pub IsNoneOr : Operations.Status → Option Operations.Status → Type 0
IsNoneOr st found = (found ≡ none) ⊎ (found ≡ some st)

-- A status of 300 or more is an error.
abbrev pub expected : ℕ → Operations.Status
expected code = if ltb code 300 then status_succeeded else status_failed

module _ (h : Host) (e : Moment) (r : Request) where
  -- The status of the record that has the id of the request.
  abbrev pub status_of : Server → Option Operations.Status
  status_of s = status_at (id h e r) s

  abbrev pub world_of : Server → Operations.World
  world_of s = record { store = s.operations; files = s.files }

  abbrev pub status_answered : Result Response Response → ℕ
  status_answered (ok response) = response.status
  status_answered (err response) = response.status

  pub finish-IsNoneOr :
      (st code : Text) (s : Server)
      → (st ≡ status_succeeded) ⊎ (st ≡ status_failed)
      → IsNoneOr status_running (status_of s)
      → IsNoneOr st (
          status_option (
            Dict.get
              (records
                (finish h.codec e.finish_write e.finish_at (id h e r) st code (world_of s)).1)
              (id h e r)))
  finish-IsNoneOr st code s terminal x =
      let w = world_of s in
      elim (Option-cases (Dict.get s.operations.doc.records (id h e r))) [
        | inl y ↦
            ground
              (arith, get-finish-none h.codec e.finish_write e.finish_at (id h e r) st code w y)
        | inr (rec, y) ↦
            let still : rec.status ≡ status_running = ground arith in
            ground (
              arith,
              get-finish h.codec e.finish_write e.finish_at (id h e r) st code (id h e r) rec w y,
            )
      ]
