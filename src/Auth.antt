-- ===== src/Auth.antt =====
-- internal/auth: the limit on failed logins, and sessions.
pub mod Limiter
pub mod Sessions
