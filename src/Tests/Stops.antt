-- ===== src/Tests/Stops.antt =====
-- cmd/control-center: a first start, a request, and a signal while it is served.
use srv_deployment.Prelude.{true, List, [], ◌∷◌, ◌++◌, Text, codes}
use srv_deployment.Audit.{open_audit}
use srv_deployment.ControlCenter
use srv_deployment.ControlCenter.{state_dir, log_dir}
use srv_deployment.ControlCenter.Serving.{Happening, handles, signalled, polls}
use srv_deployment.HttpServer.Routes.{with_id}
use srv_deployment.HttpServer.Server.{Server, new_server, id}
use srv_deployment.HttpServer.Stepwise.Interleaved.{idle}
use srv_deployment.HttpServer.Stepwise.Pool.{Pool, Event, arrives, advances, run_events}
use srv_deployment.Operations
use srv_deployment.Platform.{ascii}
use srv_deployment.Tests.Fixtures.{temp_file}
use srv_deployment.Tests.Records.{codec}
use srv_deployment.Tests.Requests.{host, moment}
use srv_deployment.Tests.SignIns
use srv_deployment.Tests.Starts.{program, occasion, first_store, directory}

abbrev first_server : Server
first_server =
    new_server 9 first_store
      (record {
        path = directory ++ codes "/operations.json";
        doc = record { schema = Operations.schema_version; records = [] };
      })
      (directory ++ codes "/audit.jsonl")
      (open_audit ascii occasion.opening (log_dir program)
        (Operations.open_store ascii codec (temp_file (codes ".tmp-9")) true 9 (state_dir program)
          []).1).1

abbrev three_calls : List Event
three_calls = advances 0 ∷ advances 0 ∷ advances 0 ∷ []

-- The request comes after the signal, on a connection that is open.
abbrev happenings : List Happening
happenings =
    signalled
    ∷ handles (arrives moment SignIns.log_in)
    ∷ handles (advances 0)
    ∷ handles (advances 0)
    ∷ handles (advances 0)
    ∷ polls
    ∷ handles (advances 0)
    ∷ polls
    ∷ []

abbrev left : Pool
left =
    run_events host (arrives moment SignIns.log_in ∷ three_calls ++ advances 0 ∷ [])
      (idle first_server)

-- The id of the request.
abbrev request_id : Text
request_id = id host moment (with_id moment SignIns.log_in)
