-- ===== src/Lesson/Flow.antt =====
-- The step from an item of a lesson to the next one, and the summary: frontend/lib/lesson-flow.ts.
pub mod Walk
use lexi_go.Common.{
  ℕ, suc, ◌+◌, ◌-◌, Bool, true, false, not, ◌&&◌, ◌||◌, Option, none, some, List, [], ◌∷◌, Text,
  codes, ltb, leb, ◌==◌, if◌then◌else◌, length, filter, max,
}
use lexi_go.Json.{ℤ, pos, negsuc, Number, int, fraction, infinite, nan}

pub data ReviewRating : Type 0 where
  again : ReviewRating
  almost : ReviewRating
  known : ReviewRating

pub data BlockReason : Type 0 where
  saving : BlockReason
  review_required : BlockReason
  completion_not_confirmed : BlockReason
  server_position_missing : BlockReason
  server_position_invalid : BlockReason

pub data LessonAdvanceDecision : Type 0 where
  blocked : BlockReason → LessonAdvanceDecision
  next : ℕ → LessonAdvanceDecision
  results : LessonAdvanceDecision

-- `label`; the labels of a blocked step are in the screen's language.
unfoldable pub can_advance : LessonAdvanceDecision → Bool
can_advance (blocked r) = false
can_advance (next i) = true
can_advance results = true

-- The position in the lesson and the number of its items are integers, the first not negative.
pub record LessonAdvanceInput : Type 0 where
  pub current_index : ℕ
  pub item_count : ℕ
  pub review_persisted : Bool
  pub review_saving : Bool
  pub server_completed : Bool
  pub server_next_index : Option Number

-- A number that is the integer `n`.
abbrev is_integer : ℕ → Number → Bool
is_integer n (int (pos k)) = k == n
is_integer n (int (negsuc k)) = false
is_integer n (fraction z k) = false
is_integer n (infinite b) = false
is_integer n nan = false

abbrev pub check_position : LessonAdvanceInput → Option Number → LessonAdvanceDecision
check_position input none = blocked server_position_missing
check_position input (some p) =
    if is_integer (input.current_index + 1) p && ltb (input.current_index + 1) input.item_count
    then next (input.current_index + 1)
    else blocked server_position_invalid

unfoldable pub decide_lesson_advance : LessonAdvanceInput → LessonAdvanceDecision
decide_lesson_advance input =
    if input.review_saving
    then blocked saving
    else if not input.review_persisted
    then blocked review_required
    else if leb (input.item_count - 1) input.current_index
    then (if not input.server_completed then blocked completion_not_confirmed else results)
    else check_position input input.server_next_index

-- `none` for `null`; the index is a number of any kind.
unfoldable pub resolve_active_lesson_index : Number → ℕ → Bool → Option ℕ
resolve_active_lesson_index (int (pos i)) item_count reviewed =
    if leb item_count i then none else if reviewed then none else some i
resolve_active_lesson_index _ item_count reviewed = none

abbrev pub is_known : ReviewRating → Bool
is_known known = true
is_known _ = false

abbrev pub is_almost : ReviewRating → Bool
is_almost almost = true
is_almost _ = false

abbrev pub is_again : ReviewRating → Bool
is_again again = true
is_again _ = false

pub record LessonResultSummary : Type 0 where
  pub known : ℕ
  pub almost : ℕ
  pub again : ℕ
  pub reviewed : ℕ
  pub skipped : ℕ

-- The values of `ratings`; `Math.max(0, …)` is the subtraction of ℕ.
unfoldable pub summarize_persisted_lesson : List ReviewRating → ℕ → LessonResultSummary
summarize_persisted_lesson values item_count =
    let known = length (filter is_known values) in
    let almost = length (filter is_almost values) in
    let again = length (filter is_again values) in
    let reviewed = known + almost + again in
    record {
      known = known;
      almost = almost;
      again = again;
      reviewed = reviewed;
      skipped = item_count - reviewed;
    }
