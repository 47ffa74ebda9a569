-- ===== src/Tests/Lesson.antt =====
-- The lesson at concrete answers: frontend/lib/lesson-flow.ts and lesson-result.ts.
use lexi_go.Common.{
  ℕ, true, false, Option, none, some, List, [], ◌∷◌, Text, codes, ◌≡◌, refl, arith,
}
use lexi_go.Json.{pos, negsuc, int}
use lexi_go.Lesson.Flow.{LessonAdvanceInput, again, known}
use lexi_go.Lesson.Flow.Walk.{item, finished, Reply, in_order, replies_from, walk, walk-in_order}
use lexi_go.Lesson.Result.{
  recall, choice, BuildInput, finite, not_finite, LessonResultSnapshot,
  build_lesson_result_snapshot,
}
use lexi_go.Lesson.Result.Encode.{snapshot_value}
use lexi_go.Lesson.Result.Snapshot.{
  read_lesson_result_snapshot, write_lesson_result_snapshot, claim_daily_goal_celebration,
}
use lexi_go.Lesson.Result.Written.{IsConsistent, read-write-build}

abbrev advance : LessonAdvanceInput
advance = record {
  current_index = 1;
  item_count = 3;
  review_persisted = true;
  review_saving = false;
  server_completed = false;
  server_next_index = some (int (pos 2));
}

abbrev replies : List Reply
replies = record (in_order 3 0) { persisted = false } ∷ in_order 3 0 ∷ in_order 3 1 ∷ []

walk-in_order_example : (walk 3 (item 1) (replies_from 3 1 2)).0 ≡ finished
walk-in_order_example = walk-in_order 3 1 2 (omega arith) (omega arith)

abbrev parse_date : Text → Option ℕ
parse_date [] = none
parse_date (c ∷ s) = some 100000000

abbrev day : Text
day = codes "1970-01-02T03:46:40.000Z"

abbrev input : BuildInput
input = record {
  user_id = codes "u";
  lesson_id = codes "l";
  source = codes "mixed";
  study_mode = recall;
  session_kind = none;
  lesson_size = codes "10";
  topic = some (codes " travel ");
  completed_at = some day;
  item_ids = pos 4 ∷ pos 4 ∷ negsuc 0 ∷ [];
  judgements =
      (record { mode = recall; correct = some true })
      ∷ (record { mode = choice; correct = none })
      ∷ [];
  ratings = known ∷ again ∷ [];
  skipped = negsuc 2;
  due_now = pos 5;
  next_due_at = some (codes "  ");
  daily_goal = pos 10;
  reviews_before = some (finite (pos 9));
  reviews_after = some (finite (pos 11));
  objective_reviews_today = some (finite (pos 8));
  objective_successful_today = some not_finite;
  current_streak = none;
  sync_pending = false;
}

abbrev snapshot : LessonResultSnapshot
snapshot = build_lesson_result_snapshot parse_date day input

input-IsConsistent : IsConsistent parse_date day input
input-IsConsistent = record { mode = tt; judged = omega arith; objective = tt }

read-write-build_example :
    let written = write_lesson_result_snapshot snapshot [] in
    read_lesson_result_snapshot parse_date (codes "u") 100000001 written
    ≡ (written, some (snapshot_value snapshot))
read-write-build_example =
    read-write-build parse_date day input 100000001 [] input-IsConsistent refl

granted : (claim_daily_goal_celebration snapshot []).1 ≡ true
unfolding claim_daily_goal_celebration build_lesson_result_snapshot
granted = refl

named : (snapshot.lesson_id ≡ codes "l")
unfolding build_lesson_result_snapshot
named = refl
