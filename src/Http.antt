-- ===== src/Http.antt =====
-- Requests, responses and their failures: frontend/lib/request-failure.ts.
pub mod Response
pub mod Failure
pub mod Problem
pub mod Cache
