-- ===== src/Outbox/Payload/Encode.antt =====
-- What the decoder of frontend/lib/review-outbox.ts returns, and that the stored body decodes to it.
use lexi_go.Common.{
  ◌≤◌, ◌<◌, Bool, true, false, Option, none, some, codes, ◌≡◌, refl, length, arith, subst,
}
use lexi_go.Common.Characters.{characters}
use lexi_go.Json.{
  pos, negsuc, int, Value, undefined, num, str, obj, Fields, get_field, safe_integer,
  max_safe_integer,
}
use lexi_go.Outbox.Payload.{
  LessonReviewPayload, positive_integer, natural_integer, is_rating, is_answer_mode, optional,
  submitted_answer_text, boolean, answer_allowed, parse_fields, parse_lesson_review_payload,
  max_submitted_answer_characters, guard, ◌>>=◌, ◌>>◌,
}
use lexi_go.Outbox.Payload.Written.{
  payload_value, Holds, IsResponse, IsAnswer, IsValid, parse-payload_value,
}

-- A postcondition of a decoder, passed through a `do` block.
Holds-bind {ℓ κ ι υ} :
    {A : Type ℓ} {B : Type κ} (P : B → Type ι) (Q : A → Type υ) (m : Option A) (f : A → Option B)
    → Holds Q m
    → ((a : A) → Q a → Holds P (f a))
    → Holds P (m >>= f)
Holds-bind P Q none f h k = tt
Holds-bind P Q (some a) f h k = k a h

Holds-guard {ℓ κ} :
    {B : Type ℓ} (P : B → Type κ) (t : Bool) (k : Option B)
    → (t ≡ true → Holds P k)
    → Holds P (guard t >> k)
Holds-guard P true k h = h refl
Holds-guard P false k h = tt

Holds-any {ℓ} : {A : Type ℓ} (m : Option A) → Holds (λ _. Unit {0}) m
Holds-any none = tt
Holds-any (some a) = tt

safe_integer-IsSafe :
    (v : Value) → Holds (λ z. safe_integer (num (int z)) ≡ some z) (safe_integer v)
unfolding safe_integer
safe_integer-IsSafe (num (int (pos n))) = ground arith
safe_integer-IsSafe (num (int (negsuc n))) = ground arith
safe_integer-IsSafe v = tt

positive_bounds : (v : Value) → Holds (λ n. (0 < n) × (n ≤ max_safe_integer)) (positive_integer v)
unfolding positive_integer safe_integer
positive_bounds (num (int (pos n))) = ground arith
positive_bounds (num (int (negsuc n))) = ground arith
positive_bounds v = tt

natural_bound : (v : Value) → Holds (λ n. n ≤ max_safe_integer) (natural_integer v)
unfolding natural_integer safe_integer
natural_bound (num (int (pos n))) = ground arith
natural_bound (num (int (negsuc n))) = ground arith
natural_bound v = tt

answer_bound :
    (v : Value)
    → Holds (λ s. length (characters s) ≤ max_submitted_answer_characters) (submitted_answer_text v)
unfolding submitted_answer_text
answer_bound (str t) = ground arith
answer_bound v = tt

optional-Holds {ℓ κ} :
    {A : Type ℓ} (P : A → Type κ) (read : Value → Option A)
    → ((v : Value) → Holds P (read v))
    → (v : Value) → Holds (Holds P) (optional read v)
optional-Holds P read sound undefined = tt
optional-Holds P read sound v =
    elim (read v)
        as (λ o. Holds P o → Holds (Holds P) (elim o [ none ↦ none | some a ↦ some (some a) ])) [
          | none ↦ λ _. tt
          | some a ↦ λ h. h
        ]
      (sound v)

-- What the decoder returns is valid.
pub parse_fields-IsValid : (fs : Fields) → Holds IsValid (parse_fields fs)
unfolding parse_fields
parse_fields-IsValid fs =
    Holds-bind IsValid _ (positive_integer _) _ (positive_bounds _) λ version a.
      Holds-bind IsValid _ (is_rating _) _ (Holds-any _) λ rating _.
        Holds-bind IsValid _ (is_answer_mode _) _ (Holds-any _) λ mode _.
          Holds-bind IsValid _ (safe_integer _) _ (safe_integer-IsSafe _) λ zone b.
            Holds-bind IsValid (Holds IsResponse)
              (optional natural_integer (get_field (codes "responseMs") fs)) _
              (optional-Holds IsResponse natural_integer natural_bound
                (get_field (codes "responseMs") fs))
              λ response c.
                Holds-bind IsValid (Holds IsAnswer)
                  (optional submitted_answer_text (get_field (codes "submittedAnswer") fs)) _
                  (optional-Holds IsAnswer submitted_answer_text answer_bound
                    (get_field (codes "submittedAnswer") fs))
                  λ answer d.
                    Holds-bind IsValid (λ _. Unit {0})
                      (optional boolean (get_field (codes "correct") fs)) _
                      (Holds-any (optional boolean (get_field (codes "correct") fs)))
                      λ correct _.
                        Holds-bind IsValid (λ _. Unit {0})
                          (optional boolean (get_field (codes "answerRevealed") fs)) _
                          (Holds-any (optional boolean (get_field (codes "answerRevealed") fs)))
                          λ revealed _.
                            Holds-guard IsValid (answer_allowed mode answer correct)
                              (some (record {
                                lesson_version = version;
                                rating = rating;
                                response_ms = response;
                                answer_mode = mode;
                                submitted_answer = answer;
                                correct = correct;
                                answer_revealed = revealed;
                                timezone_offset_minutes = zone;
                              }))
                              λ e. record {
                                positive = a.0;
                                version_safe = a.1;
                                response_safe = c;
                                answer_short = d;
                                timezone_safe = b;
                                consistent = e;
                              }

parse-Holds : (v : Value) → Holds IsValid (parse_lesson_review_payload v)
unfolding parse_lesson_review_payload
parse-Holds (obj fs) = parse_fields-IsValid fs
parse-Holds v = tt

Holds-eq {ℓ κ} : {A : Type ℓ} (P : A → Type κ) (m : Option A) (a : A) → Holds P m → m ≡ some a → P a
Holds-eq P none a h e = cc
Holds-eq P (some b) a h e = subst P (cc) h

pub parse-IsValid :
    (v : Value) (p : LessonReviewPayload) → parse_lesson_review_payload v ≡ some p → IsValid p
parse-IsValid v p = Holds-eq IsValid _ p (parse-Holds v)

-- Whatever the decoder accepts, the object that it builds decodes to the same payload, so the body
-- that is stored and sent stands for the payload that was read.
pub parse-payload_value-parse :
    (v : Value) (p : LessonReviewPayload)
    → parse_lesson_review_payload v ≡ some p
    → IsValid p × (parse_lesson_review_payload (payload_value p) ≡ some p)
parse-payload_value-parse v p h = (parse-IsValid v p h, parse-payload_value p (parse-IsValid v p h))
