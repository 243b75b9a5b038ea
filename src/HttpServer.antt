-- ===== src/HttpServer.antt =====
-- internal/httpserver/server.go: the handlers of the API over the stores, the sessions, the limiter and
-- the audit log.
pub mod Request
pub mod Guards
pub mod Server
pub mod Handlers
pub mod Reports
pub mod Routes
mod Effects
pub mod Stepwise
mod Kept
pub mod Soundness
pub mod Lockout
pub mod SignIn
pub mod Throttle
pub mod Recorded
pub mod Authority
