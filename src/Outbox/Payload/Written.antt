-- ===== src/Outbox/Payload/Written.antt =====
-- The object that the decoder of frontend/lib/review-outbox.ts builds, as the runtime stores it, and
-- what reading it again gives.
use lexi_go.Common.{
  ℕ, ◌≤◌, ◌<◌, Bool, true, false, Option, none, some, Text, codes, text_eq, ◌≡◌, refl, length,
  arith, text_eq_self,
}
use lexi_go.Common.Characters.{characters}
use lexi_go.Json.{
  pos, int, Value, undefined, bool, num, str, obj, Fields, end, field, get_field, safe_integer,
  max_safe_integer,
}
use lexi_go.Outbox.Payload.{
  LessonReviewRating, again, almost, known, LessonReviewAnswerMode, study, recall, choice,
  LessonReviewPayload, positive_integer, natural_integer, is_rating, is_answer_mode, optional,
  submitted_answer_text, boolean, answer_allowed, parse_fields, parse_lesson_review_payload,
  max_submitted_answer_characters,
}

abbrev rating_text : LessonReviewRating → Text
rating_text again = codes "again"
rating_text almost = codes "almost"
rating_text known = codes "known"

abbrev mode_text : LessonReviewAnswerMode → Text
mode_text study = codes "study"
mode_text recall = codes "recall"
mode_text choice = codes "choice"

-- `...(x === undefined ? {} : { key: x })`.
abbrev spread {ℓ} : {A : Type ℓ} → Text → (A → Value) → Option A → Fields → Fields
spread k write none rest = rest
spread k write (some a) rest = field k (write a) rest

unfoldable pub payload_value : LessonReviewPayload → Value
payload_value p = obj (
    field (codes "lessonVersion") (num (int (pos p.lesson_version))) (
      field (codes "rating") (str (rating_text p.rating)) (
        spread (codes "responseMs") (λ n. num (int (pos n))) p.response_ms
          (field (codes "answerMode") (str (mode_text p.answer_mode)) (
            spread (codes "submittedAnswer") str p.submitted_answer (
              spread (codes "correct") bool p.correct (
                spread (codes "answerRevealed") bool p.answer_revealed (
                  field (codes "timezoneOffsetMinutes") (num (int p.timezone_offset_minutes))
                    end))))))))

abbrev pub Holds {ℓ κ} : {A : Type ℓ} → (A → Type κ) → Option A → Type κ
Holds P none = Unit
Holds P (some a) = P a

abbrev pub IsResponse : ℕ → Type 0
IsResponse n = n ≤ max_safe_integer

abbrev pub IsAnswer : Text → Type 0
IsAnswer s = length (characters s) ≤ max_submitted_answer_characters

pub record IsValid (p : LessonReviewPayload) : Type 0 where
  pub positive : 0 < p.lesson_version
  pub version_safe : p.lesson_version ≤ max_safe_integer
  pub response_safe : Holds IsResponse p.response_ms
  pub answer_short : Holds IsAnswer p.submitted_answer
  pub timezone_safe :
      safe_integer (num (int p.timezone_offset_minutes)) ≡ some p.timezone_offset_minutes
  pub consistent : answer_allowed p.answer_mode p.submitted_answer p.correct ≡ true

positive_integer_of :
    (n : ℕ) → 0 < n → n ≤ max_safe_integer → positive_integer (num (int (pos n))) ≡ some n
unfolding positive_integer safe_integer
positive_integer_of n h k = ground arith

rating_of : (r : LessonReviewRating) → is_rating (str (rating_text r)) ≡ some r
unfolding is_rating
rating_of again = refl
rating_of almost = refl
rating_of known = refl

mode_of : (m : LessonReviewAnswerMode) → is_answer_mode (str (mode_text m)) ≡ some m
unfolding is_answer_mode
mode_of study = refl
mode_of recall = refl
mode_of choice = refl

skip {ℓ} :
    {A : Type ℓ} (k j : Text) (write : A → Value) (o : Option A) (rest : Fields)
    → text_eq j k ≡ false
    → get_field k (spread j write o rest) ≡ get_field k rest
skip k j write none rest h = refl
skip k j write (some a) rest h = rw h

-- A field that is spread in, or is missing in what follows, reads back.
module _ (k : Text) (rest : Fields) (missing : get_field k rest ≡ undefined) where
  optional_number :
      (o : Option ℕ)
      → Holds (λ n. n ≤ max_safe_integer) o
      → optional natural_integer (get_field k (spread k (λ n. num (int (pos n))) o rest)) ≡ some o
  unfolding natural_integer safe_integer
  optional_number none h = rw missing
  optional_number (some n) h = rw (text_eq_self k) (ground arith)

  optional_answer :
      (o : Option Text)
      → Holds (λ s. length (characters s) ≤ max_submitted_answer_characters) o
      → optional submitted_answer_text (get_field k (spread k str o rest)) ≡ some o
  unfolding submitted_answer_text
  optional_answer none h = rw missing
  optional_answer (some s) h = rw (text_eq_self k) (ground arith)

  optional_flag : (o : Option Bool) → optional boolean (get_field k (spread k bool o rest)) ≡ some o
  unfolding boolean
  optional_flag none = rw missing
  optional_flag (some b) = rw (text_eq_self k)

-- Decoding the object that a valid payload is stored as gives the payload back.
pub parse-payload_value :
    (p : LessonReviewPayload) → IsValid p → parse_lesson_review_payload (payload_value p) ≡ some p
unfolding parse_lesson_review_payload parse_fields payload_value
parse-payload_value p v = simp (
  skip, optional_number, optional_answer, optional_flag, positive_integer_of, rating_of, mode_of,
  v.timezone_safe, v.consistent, v.response_safe, v.answer_short, v.positive, v.version_safe,
)
