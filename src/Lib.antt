-- ===== src/Lib.antt =====
-- Control Center: the server that administers a deployment.
--
-- The program (Go) is one process. internal/state keeps the users and their passwords in two JSON
-- files; internal/auth keeps, in memory, the sessions and the count of failed logins of a key;
-- internal/operations keeps a record of each administrative operation in a JSON file;
-- internal/release reads and compares versions and release manifests; internal/httpserver serves
-- requests over these parts, internal/observability keeps the audit log and internal/diagnostics
-- makes a bundle of them all. cmd/ holds the two commands.
--
-- What is modelled, and where:
--   * Files: the file system as a map of paths, and `atomicWrite` of internal/state/store.go and of
--     internal/operations/store.go. An `Outcome` says which of the calls in it fail, with the removal
--     of the temporary file.
--   * State: internal/state/store.go and internal/state/password.go. State/Document has the
--     documents and `persistLocked`, State/Load `load` and `Open`, State/Username
--     `normalizeUsername`, State/Store the methods of `Store`, State/Listing `ListUsers`,
--     State/Password the hashing of passwords. The other files are proofs, named for what they show.
--   * Auth: internal/auth/rate.go (Auth/Limiter) and internal/auth/sessions.go (Auth/Sessions).
--   * Operations: internal/operations/store.go.
--   * Release: internal/release/release.go. Release/Pattern has `versionRE`, Release/Identifier and
--     Release/Version the parser and `CompareVersions`, Release/Manifest the manifest with `Validate`,
--     `ReleaseID` and `Decode`, Release/Verify `Verify`; Release/Hex has encoding/hex.
--   * Release/Package: cmd/release-tool/main.go, the command `package`, `writePackage` and, in
--     Release/Package/Command, `main` with its exit statuses.
--   * Audit: internal/observability/audit.go.
--   * HttpServer: internal/httpserver/server.go. HttpServer/Request has what a handler reads and
--     answers, HttpServer/Guards the checks of a request (`validOrigin`, `validMutation`,
--     `hasPermission`, `clientIP`, `queryLimit`), HttpServer/Server the record `Server` with `New` and the
--     helpers of the handlers, HttpServer/Handlers and HttpServer/Reports the handlers, HttpServer/Routes
--     the routes, `requireAuth`, `requirePermission` and `serve` with the middleware.
--     HttpServer/Stepwise/Requests has the same handlers call by call, HttpServer/Stepwise/Protocol the
--     order of the calls, and HttpServer/Stepwise/Pool the requests that run at the same time. The other
--     files are proofs.
--   * Diagnostics: internal/diagnostics/bundle.go. Process: internal/buildinfo/buildinfo.go.
--   * ControlCenter: cmd/control-center/main.go, the commands, and `main` up to the making of the server;
--     ControlCenter/Serving has `main` from there to the end of the process.
--   * Strings, Sort, Dict, Exec: what the code takes from strings, strconv, encoding/base64, sort and
--     from maps, and methods that return an error beside a state that has changed.
--   * Platform: what else the code takes from Go's library (Unicode case and blanks, HMAC, SHA-256,
--     paths), as the fields of a record that a proof takes as a parameter, with their laws.
--
-- How it is modelled. A method is a function from its arguments and the state to its result and the
-- new state. A mutex is held through each method, so that a method is one step and concurrent calls
-- are sequences of steps. Time is a natural number and an argument; random bytes are an argument,
-- `none` where reading them fails. JSON is a parameter (`Encoder`, `Decoder`, `Codec`,
-- `Formats`, `Json`, `Bodies`), and so are PEM, keys and signatures (`Crypto`, `Tool`), archives
-- (`Archive`, `Tool`), URLs (`Net`) and flag sets (`Flags`). A string is the
-- list of its bytes. Go's `int` and `uint64` wrap around where the code adds to them. A map is a list
-- of pairs in which a key may be put once; where Go iterates over a map in no particular order, the
-- model uses the list's order, and the theorems do not depend on it, but for records that `sort.Slice`
-- finds equal, which Go may leave in another order.
--
-- A handler runs over the record `Server`, which holds the stores, the sessions, the limiter and the files;
-- a return after an answer is written early raises that answer. `Host` has what a server takes from
-- elsewhere, `Moment` what one request meets: the clock at each of its calls, random bytes, and how its
-- writes end. As one step a request is `serve`, and a run of the server is a list of requests, each with
-- its moment (`serve_all`).
--
-- Requests run at the same time, each in a goroutine of its own. A handler is then the sequence of its
-- calls of the stores, the sessions, the limiter and the audit log (`Steps`), each of which is one step, since
-- each component holds its mutex through a call. A `Pool` is the server with what is left of each request;
-- an `Event` is a request that arrives or the next call of one that is there, and a run is any list of
-- events. A process that serves ends as the `Happening`s of ControlCenter/Serving say: a signal, an error of
-- the listener, or the end of the time that `Shutdown` has.
--
-- No recursion here needs fuel: each loop of the code runs over a list or up to a number.
--
-- Not modelled: the log; response headers that are constants; the static files, and the cleaning of paths and
-- redirections of `ServeMux` (one parameter, `answer`); the waiting for a mutex; the timeouts of
-- `http.Server`; the permissions of files; what `fsync` promises after a crash.
pub mod Audit
pub mod Auth
pub mod ControlCenter
pub mod Diagnostics
pub mod Dict
pub mod Exec
pub mod Files
pub mod HttpServer
pub mod Operations
pub mod Platform
pub mod Prelude
pub mod Process
pub mod Release
pub mod Sort
pub mod State
pub mod Strings
pub mod Tests
