-- ===== src/Tests.antt =====
-- The theorems at concrete inputs, and small runs of the definitions. Nothing here models a file of
-- the program.
mod Outbox
mod Http
mod Auth
mod Recorder
mod Lesson
mod Handoff
mod Learning
mod Navigation
mod Tabs
mod Update
mod Requests
mod Calendar
mod Catalog
