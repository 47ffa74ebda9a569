-- ===== src/Lesson.antt =====
-- The active lesson: the step to the next item (frontend/lib/lesson-flow.ts) and the result that is
-- kept for the screen after the last item (frontend/lib/lesson-result.ts), with the way from the Learn
-- screen (frontend/lib/lesson-composition-handoff.ts).
pub mod Handoff
pub mod Flow
pub mod Result
