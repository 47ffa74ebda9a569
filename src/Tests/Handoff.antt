-- ===== src/Tests/Handoff.antt =====
-- The way of a lesson from the Learn screen at concrete inputs.
use lexi_go.Common.{[], ◌∷◌, true, false, codes}
use lexi_go.Learning.{phrase}
use lexi_go.Lesson.Handoff.{Handoff, mark_learn_lesson_handoff, phrases_only_notice}
use lexi_go.Lesson.Handoff.Notice.{track_all, Notices, mark-Notices}

abbrev before_lesson : Handoff
before_lesson = record {
  learn_handoff_active = false;
  tracks_word = true;
  tracks_phrase = false;
  resolved_notice = codes "old";
  resolution_generation = 4;
}

mark-Notices_example :
    Notices
      (codes "mixed")
      (codes "backend")
      phrases_only_notice
      (track_all (phrase ∷ phrase ∷ []) (mark_learn_lesson_handoff before_lesson))
mark-Notices_example =
    mark-Notices before_lesson (phrase ∷ phrase ∷ []) (codes "mixed") (codes "backend")
