-- ===== src/Outbox.antt =====
-- The review outbox: frontend/lib/review-outbox.ts and frontend/components/review-outbox-runtime.tsx.
pub mod Payload
pub mod Endpoint
pub mod Record
pub mod Queue
pub mod Sync
pub mod Intercept
pub mod Run
