-- ===== src/Navigation.antt =====
-- frontend/lib/navigation.ts, and the slugs of frontend/lib/scenarios.ts.
pub mod Target
pub mod Path
pub mod Url
pub mod Stored
pub mod History
pub mod Tabs
