-- ===== src/Calendar.antt =====
-- The study reminder in a calendar: frontend/lib/calendar-reminder.ts. The settings and the next
-- occurrence, the lines of the file, and the search for the changes of a time zone's offset.
pub mod Settings
pub mod Occurrence
pub mod Lines
pub mod Escape
pub mod Transition
