-- ===== src/Lesson/Result.antt =====
-- The result of a lesson, kept in the session storage for the screen after it:
-- frontend/lib/lesson-result.ts. Counters are integers; `parse_date` is `Date.parse` where it is
-- finite, in milliseconds. A raw text of the storage is the value that it spells in JSON, or a text
-- that is not JSON.
pub mod Types
pub mod Encode
pub mod Snapshot
pub mod Written
pub mod Celebration
use lexi_go.Common.{
  ℕ, suc, ◌+◌, ◌-◌, ◌/◌, max, Bool, true, false, not, ◌&&◌, ◌||◌, Option, none, some, List, [], ◌∷◌,
  ◌++◌, Text, codes, text_eq, ltb, leb, ◌==◌, if◌then◌else◌, length, filter, any, take, trim,
  is_nonempty, is_some,
}
use lexi_go.Common.Sort.{sort_by}
use lexi_go.Json.{ℤ, pos, negsuc}
use lexi_go.Lesson.Flow.{ReviewRating, is_known, is_almost, is_again}
pub use Types.*

-- `Math.max(0, z)`.
abbrev pub at_least_zero : ℤ → ℕ
at_least_zero (pos n) = n
at_least_zero (negsuc n) = 0

abbrev pub normalize_nullable_counter : Option Counter → Option ℕ
normalize_nullable_counter none = none
normalize_nullable_counter (some (finite z)) = some (at_least_zero z)
normalize_nullable_counter (some not_finite) = none

abbrev pub same_mode : AnswerMode → AnswerMode → Bool
same_mode study study = true
same_mode recall recall = true
same_mode choice choice = true
same_mode listening listening = true
same_mode _ _ = false

abbrev pub is_right : Option Bool → Bool
is_right (some true) = true
is_right _ = false

unfoldable pub objective_evidence : List LessonResultJudgement → AnswerMode → ObjectiveEvidence
objective_evidence values mode =
    let relevant = filter (λ e. same_mode e.mode mode) values in
    let objective = filter (λ e. is_some e.correct) relevant in
    record {
      attempted = length objective;
      correct = length (filter (λ e. is_right e.correct) objective);
      unavailable = length relevant - length objective;
    }

unfoldable pub build_lesson_result_evidence : List LessonResultJudgement → ℕ → LessonResultEvidence
build_lesson_result_evidence values item_count = record {
  recall = objective_evidence values recall;
  recognition = objective_evidence values choice;
  reviewed = length values;
  total = item_count;
}

pub data OutcomeState : Type 0 where
  empty : OutcomeState
  study_only : OutcomeState
  partial : OutcomeState
  skipped_items : OutcomeState
  complete : OutcomeState

abbrev pub is_study : AnswerMode → Bool
is_study study = true
is_study _ = false

unfoldable pub lesson_result_outcome_state : LessonResultSnapshot → OutcomeState
lesson_result_outcome_state s =
    if s.evidence.reviewed == 0
    then empty
    else if ltb 0 s.skipped
    then skipped_items
    else if ltb 0 (s.evidence.recall.unavailable + s.evidence.recognition.unavailable)
    then partial
    else if is_study s.study_mode
        || (s.evidence.recall.attempted + s.evidence.recognition.attempted == 0)
    then study_only
    else complete

-- `[...new Set(xs)]`: the first of equal numbers stays.
abbrev pub insert_new : List ℕ → List ℕ → List ℕ
insert_new seen [] = []
insert_new seen (x ∷ xs) =
    let rest = insert_new (x ∷ seen) xs in
    if any (λ y. y == x) seen then insert_new seen xs else x ∷ rest

abbrev pub positive_ids : List ℤ → List ℕ
positive_ids [] = []
positive_ids (pos n ∷ zs) = if ltb 0 n then n ∷ positive_ids zs else positive_ids zs
positive_ids (negsuc n ∷ zs) = positive_ids zs

abbrev pub reaches : Option ℕ → ℕ → Bool
reaches none goal = false
reaches (some n) goal = ltb 0 goal && leb goal n

abbrev pub is_below : Option ℕ → ℕ → Bool
is_below none goal = false
is_below (some n) goal = ltb n goal

abbrev pub trimmed : Option Text → Text
trimmed none = []
trimmed (some s) = trim s

abbrev pub get_text : Text → Option Text → Text
get_text d none = d
get_text d (some s) = s

-- `now_text` is `new Date().toISOString()`.
module _ (parse_date : Text → Option ℕ) (now_text : Text) where
  abbrev pub dated : Text → Option Text
  dated s = if is_nonempty s && is_some (parse_date s) then some s else none

  abbrev pub normalize_next_due_at : Option Text → Option Text
  normalize_next_due_at none = none
  normalize_next_due_at (some s) = dated (trim s)

  unfoldable pub build_lesson_result_snapshot : BuildInput → LessonResultSnapshot
  build_lesson_result_snapshot input =
      let before = normalize_nullable_counter input.reviews_before in
      let after = normalize_nullable_counter input.reviews_after in
      let goal = at_least_zero input.daily_goal in
      record {
        user_id = input.user_id;
        lesson_id = input.lesson_id;
        source = input.source;
        study_mode = input.study_mode;
        session_kind = input.session_kind;
        lesson_size = input.lesson_size;
        topic = trimmed input.topic;
        completed_at = get_text now_text input.completed_at;
        item_ids = insert_new [] (positive_ids input.item_ids);
        item_count = length input.item_ids;
        evidence = build_lesson_result_evidence input.judgements (length input.item_ids);
        confidence = record {
          known = length (filter is_known input.ratings);
          almost = length (filter is_almost input.ratings);
          again = length (filter is_again input.ratings);
        };
        skipped = at_least_zero input.skipped;
        due_now = at_least_zero input.due_now;
        next_due_at = normalize_next_due_at input.next_due_at;
        daily_goal = goal;
        reviews_before = before;
        reviews_after = after;
        objective_reviews_today = normalize_nullable_counter input.objective_reviews_today;
        objective_successful_today = normalize_nullable_counter input.objective_successful_today;
        current_streak = normalize_nullable_counter input.current_streak;
        daily_goal_reached = reaches after goal;
        daily_goal_just_reached = reaches after goal && is_below before goal;
        sync_pending = input.sync_pending;
      }

pub data Continuation : Type 0 where
  checking : Continuation
  daily_goal : Continuation
  next : Text → ℕ → ℕ → Continuation
  due : ℕ → Continuation
  home : Continuation
  sync_pending : Continuation

abbrev pub or_text : Text → Text → Text
or_text [] d = d
or_text (c ∷ s) d = c ∷ s

-- `Math.round(n / 2)`.
abbrev pub round_half : ℕ → ℕ
round_half n = (n + 1) / 2

-- A positive `estimatedMinutes` is a whole number of minutes.
abbrev pub estimated : Option ℕ → ℕ → ℕ
estimated none total = max 1 (round_half total)
estimated (some m) total = max 1 m

abbrev pub continuation_after : Option ℕ → Option Text → Option ℕ → Continuation
continuation_after none title minutes = checking
continuation_after (some total) title minutes =
    if ltb 0 total
    then next (or_text (trimmed title) (codes "Следующий учебный блок")) total
        (estimated minutes total)
    else home

unfoldable pub resolve_lesson_result_continuation :
    LessonResultSnapshot → Option ℕ → Option Text → Option ℕ → Continuation
resolve_lesson_result_continuation s preview_total next_title minutes =
    if s.sync_pending
    then sync_pending
    else if s.daily_goal_just_reached
    then daily_goal
    else if ltb 0 s.due_now
    then due s.due_now
    else continuation_after preview_total next_title minutes

pub data RecommendedAction : Type 0 where
  next_lesson : RecommendedAction
  due_review : RecommendedAction
  go_home : RecommendedAction
  no_action : RecommendedAction

unfoldable pub lesson_result_recommended_action : Continuation → RecommendedAction
lesson_result_recommended_action (next title items minutes) = next_lesson
lesson_result_recommended_action (due n) = due_review
lesson_result_recommended_action checking = no_action
lesson_result_recommended_action daily_goal = go_home
lesson_result_recommended_action home = go_home
lesson_result_recommended_action sync_pending = go_home

abbrev pub same_numbers : List ℕ → List ℕ → Bool
same_numbers [] [] = true
same_numbers [] (y ∷ ys) = false
same_numbers (x ∷ xs) [] = false
same_numbers (x ∷ xs) (y ∷ ys) = (x == y) && same_numbers xs ys

unfoldable pub is_distinct_lesson_result_candidate : LessonResultSnapshot → Text → List ℕ → Bool
is_distinct_lesson_result_candidate s id item_ids =
    if not (is_nonempty id) || text_eq id s.lesson_id
    then false
    else not (same_numbers (sort_by (λ n. n) s.item_ids) (sort_by (λ n. n) item_ids))
