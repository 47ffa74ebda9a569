-- ===== src/Lesson/Result/Types.antt =====
-- The types of frontend/lib/lesson-result.ts.
use lexi_go.Common.{ℕ, Bool, Option, List, Text}
use lexi_go.Json.{ℤ}
use lexi_go.Lesson.Flow.{ReviewRating}

pub data AnswerMode : Type 0 where
  study : AnswerMode
  recall : AnswerMode
  choice : AnswerMode
  listening : AnswerMode

pub data SessionKind : Type 0 where
  study_session : SessionKind
  review_session : SessionKind
  remediation_session : SessionKind

pub record LessonResultJudgement : Type 0 where
  pub mode : AnswerMode
  pub correct : Option Bool

pub record ObjectiveEvidence : Type 0 where
  pub attempted : ℕ
  pub correct : ℕ
  pub unavailable : ℕ

pub record LessonResultEvidence : Type 0 where
  pub recall : ObjectiveEvidence
  pub recognition : ObjectiveEvidence
  pub reviewed : ℕ
  pub total : ℕ

pub record LessonResultConfidence : Type 0 where
  pub known : ℕ
  pub almost : ℕ
  pub again : ℕ

pub record LessonResultSnapshot : Type 0 where
  pub user_id : Text
  pub lesson_id : Text
  pub source : Text
  pub study_mode : AnswerMode
  pub session_kind : Option SessionKind
  pub lesson_size : Text
  pub topic : Text
  pub completed_at : Text
  pub item_ids : List ℕ
  pub item_count : ℕ
  pub evidence : LessonResultEvidence
  pub confidence : LessonResultConfidence
  pub skipped : ℕ
  pub due_now : ℕ
  pub next_due_at : Option Text
  pub daily_goal : ℕ
  pub reviews_before : Option ℕ
  pub reviews_after : Option ℕ
  pub objective_reviews_today : Option ℕ
  pub objective_successful_today : Option ℕ
  pub current_streak : Option ℕ
  pub daily_goal_reached : Bool
  pub daily_goal_just_reached : Bool
  pub sync_pending : Bool

-- A counter of the input, where it is not `null` or `undefined`.
pub data Counter : Type 0 where
  finite : ℤ → Counter
  not_finite : Counter

pub record BuildInput : Type 0 where
  pub user_id : Text
  pub lesson_id : Text
  pub source : Text
  pub study_mode : AnswerMode
  pub session_kind : Option SessionKind
  pub lesson_size : Text
  pub topic : Option Text
  pub completed_at : Option Text
  pub item_ids : List ℤ
  pub judgements : List LessonResultJudgement
  pub ratings : List ReviewRating
  pub skipped : ℤ
  pub due_now : ℤ
  pub next_due_at : Option Text
  pub daily_goal : ℤ
  pub reviews_before : Option Counter
  pub reviews_after : Option Counter
  pub objective_reviews_today : Option Counter
  pub objective_successful_today : Option Counter
  pub current_streak : Option Counter
  pub sync_pending : Bool
