-- ===== src/Outbox/Payload.antt =====
-- The review payload of frontend/lib/review-outbox.ts: its types and its decoder.
pub mod Written
pub mod Encode
use lexi_go.Common.{
  ℕ, zero, suc, ◌≤◌, ◌<◌, Bool, true, false, not, ◌&&◌, ◌||◌, Option, none, some, List, [], ◌∷◌,
  ◌++◌, Text, codes, text_eq, text_eq_iff, leb, ltb, ◌==◌, if◌then◌else◌, ◌≡◌, refl, is_some,
  length, arith,
}
use lexi_go.Common.Characters.{characters}
use lexi_go.Json.{
  ℤ, pos, negsuc, Number, int, fraction, infinite, nan, Value, undefined, null, bool, num, str, arr,
  obj, Fields, end, field, get_field, safe_integer, max_safe_integer,
}

pub data LessonReviewRating : Type 0 where
  again almost known : LessonReviewRating

pub data LessonReviewAnswerMode : Type 0 where
  study recall choice : LessonReviewAnswerMode

pub record LessonReviewPayload : Type 0 where
  pub lesson_version : ℕ
  pub rating : LessonReviewRating
  pub response_ms : Option ℕ
  pub answer_mode : LessonReviewAnswerMode
  pub submitted_answer : Option Text
  pub correct : Option Bool
  pub answer_revealed : Option Bool
  pub timezone_offset_minutes : ℤ

-- The `Option` monad: `none` is the decoder's `return null`.
infixl 5 ◌>>=◌ ◌>>◌
abbrev pub ◌>>=◌ {ℓ κ} : {A : Type ℓ} {B : Type κ} → Option A → (A → Option B) → Option B
none >>= f = none
some a >>= f = f a

abbrev pub ◌>>◌ {ℓ} : {B : Type ℓ} → Option (Unit {0}) → Option B → Option B
m >> k = m >>= λ _. k

abbrev pub guard : Bool → Option (Unit {0})
guard true = some tt
guard false = none

abbrev pub max_submitted_answer_characters : ℕ
max_submitted_answer_characters = 500

-- `isFiniteInteger(x) && x > 0`, with the number.
unfoldable pub positive_integer : Value → Option ℕ
positive_integer v = elim (safe_integer v) [
  | none ↦ none
  | some z ↦ elim z [ pos n ↦ if ltb 0 n then some n else none | negsuc n ↦ none ]
]

-- `isFiniteInteger(x) && x >= 0`, with the number.
unfoldable pub natural_integer : Value → Option ℕ
natural_integer v = elim (safe_integer v) [
  | none ↦ none
  | some z ↦ elim z [ pos n ↦ some n | negsuc n ↦ none ]
]

unfoldable pub is_rating : Value → Option LessonReviewRating
is_rating (str s) =
    if text_eq s (codes "again")
    then some again
    else if text_eq s (codes "almost")
    then some almost
    else if text_eq s (codes "known")
    then some known
    else none
is_rating _ = none

unfoldable pub is_answer_mode : Value → Option LessonReviewAnswerMode
is_answer_mode (str s) =
    if text_eq s (codes "study")
    then some study
    else if text_eq s (codes "recall")
    then some recall
    else if text_eq s (codes "choice")
    then some choice
    else none
is_answer_mode _ = none

-- A field that may be left out: `none` where it is there and refused.
abbrev pub optional {ℓ} : {A : Type ℓ} → (Value → Option A) → Value → Option (Option A)
optional read undefined = some none
optional read v = elim (read v) [ none ↦ none | some a ↦ some (some a) ]

-- `Array.from(value).length` counts characters: two surrogates are one.
unfoldable pub submitted_answer_text : Value → Option Text
submitted_answer_text (str s) =
    if leb (length (characters s)) max_submitted_answer_characters then some s else none
submitted_answer_text _ = none

unfoldable pub boolean : Value → Option Bool
boolean (bool b) = some b
boolean _ = none

abbrev is_study : LessonReviewAnswerMode → Bool
is_study study = true
is_study recall = false
is_study choice = false

-- The last two guards: a study review carries no answer and no judgement, and an answer that the
-- server is to judge carries no judgement of the client's.
unfoldable pub answer_allowed : LessonReviewAnswerMode → Option Text → Option Bool → Bool
answer_allowed mode submitted correct =
    not (is_study mode && (is_some submitted || is_some correct))
    && not (is_some submitted && is_some correct)

unfoldable pub parse_fields : Fields → Option LessonReviewPayload
parse_fields fs = do
  lesson_version ← positive_integer (get_field (codes "lessonVersion") fs)
  rating ← is_rating (get_field (codes "rating") fs)
  answer_mode ← is_answer_mode (get_field (codes "answerMode") fs)
  timezone ← safe_integer (get_field (codes "timezoneOffsetMinutes") fs)
  response_ms ← optional natural_integer (get_field (codes "responseMs") fs)
  submitted ← optional submitted_answer_text (get_field (codes "submittedAnswer") fs)
  correct ← optional boolean (get_field (codes "correct") fs)
  revealed ← optional boolean (get_field (codes "answerRevealed") fs)
  guard (answer_allowed answer_mode submitted correct)
  some (record {
    lesson_version = lesson_version;
    rating = rating;
    response_ms = response_ms;
    answer_mode = answer_mode;
    submitted_answer = submitted;
    correct = correct;
    answer_revealed = revealed;
    timezone_offset_minutes = timezone;
  })

unfoldable pub parse_lesson_review_payload : Value → Option LessonReviewPayload
parse_lesson_review_payload (obj fs) = parse_fields fs
parse_lesson_review_payload _ = none
