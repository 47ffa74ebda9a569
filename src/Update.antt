-- ===== src/Update.antt =====
-- The change to a new build: frontend/lib/service-worker-update.ts and
-- frontend/lib/build-version-guard.ts.
pub mod Build
pub mod Guard
pub mod Recovery
