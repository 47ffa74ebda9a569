-- ===== src/Auth.antt =====
-- The session of a signed-in user: frontend/lib/auth-session.ts and session-bootstrap.ts.
pub mod Session
pub mod Refresh
pub mod Bootstrap
pub mod Cookie
pub mod Request
