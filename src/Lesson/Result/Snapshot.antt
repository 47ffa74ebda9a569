-- ===== src/Lesson/Result/Snapshot.antt =====
-- The snapshot as JSON, the checks of `readLessonResultSnapshot`, and the storage.
use lexi_go.Common.{
  ℕ, ◌+◌, Bool, true, false, not, ◌&&◌, ◌||◌, Option, none, some, [], ◌∷◌, ◌++◌, Text, codes,
  text_eq, ltb, leb, ◌==◌, if◌then◌else◌, is_nonempty, trim, is_some, take,
}
use lexi_go.Common.Store.{get, put, delete}
use lexi_go.Json.{
  pos, int, fraction, Value, undefined, null, bool, num, str, arr, obj, Items, nil, cons, Fields,
  end, get_field, Raw, plain, json, Storage,
}
use lexi_go.Lesson.Result.{LessonResultSnapshot}
use lexi_go.Lesson.Result.Encode.{snapshot_value}

abbrev fields_of : Value → Fields
fields_of (obj fs) = fs
fields_of _ = end

abbrev is_record : Value → Bool
is_record (obj fs) = true
is_record _ = false

abbrev is_string : Value → Bool
is_string (str s) = true
is_string _ = false

abbrev is_boolean : Value → Bool
is_boolean (bool b) = true
is_boolean _ = false

abbrev is_text : Text → Value → Bool
is_text t (str s) = text_eq s t
is_text t _ = false

abbrev is_null : Value → Bool
is_null null = true
is_null _ = false

abbrev is_finite_non_negative : Value → Bool
is_finite_non_negative (num (int (pos n))) = true
is_finite_non_negative (num (fraction (pos n) k)) = true
is_finite_non_negative _ = false

abbrev pub is_nullable_finite_non_negative : Value → Bool
is_nullable_finite_non_negative v = is_null v || is_finite_non_negative v

abbrev pub is_answer_mode : Value → Bool
is_answer_mode v =
    is_text (codes "study") v || is_text (codes "recall") v || is_text (codes "choice") v

abbrev pub is_session_kind : Value → Bool
is_session_kind v =
    is_text (codes "study") v || is_text (codes "review") v || is_text (codes "remediation") v

abbrev is_missing : Value → Bool
is_missing undefined = true
is_missing _ = false

abbrev is_version : Value → Bool
is_version (num (int (pos n))) = n == 2
is_version _ = false

abbrev is_positive_integer : Value → Bool
is_positive_integer (num (int (pos n))) = ltb 0 n
is_positive_integer _ = false

abbrev pub every_positive : Items → Bool
every_positive nil = true
every_positive (cons v vs) = is_positive_integer v && every_positive vs

abbrev is_item_ids : Value → Bool
is_item_ids (arr vs) = every_positive vs
is_item_ids _ = false

-- `a > b`, of numbers that are finite and not negative.
abbrev pub is_greater : Value → Value → Bool
is_greater (num (int (pos a))) (num (int (pos b))) = ltb b a
is_greater (num (int (pos a))) (num (fraction (pos b) k)) = ltb b a
is_greater (num (fraction (pos a) j)) (num (int (pos b))) = leb b a
is_greater (num (fraction (pos a) j)) (num (fraction (pos b) k)) = ltb b a || ((a == b) && ltb k j)
is_greater _ _ = false

abbrev pub objective_is_valid : Value → Bool
objective_is_valid v =
    let e = fields_of v in
    is_record v
    && is_finite_non_negative (get_field (codes "attempted") e)
    && is_finite_non_negative (get_field (codes "correct") e)
    && is_finite_non_negative (get_field (codes "unavailable") e)
    && not (is_greater (get_field (codes "correct") e) (get_field (codes "attempted") e))

abbrev pub activity_is_valid : Value → Bool
activity_is_valid v =
    let a = fields_of v in
    is_record v
    && is_finite_non_negative (get_field (codes "reviewed") a)
    && is_finite_non_negative (get_field (codes "total") a)
    && not (is_greater (get_field (codes "reviewed") a) (get_field (codes "total") a))

abbrev pub evidence_is_valid : Value → Bool
evidence_is_valid v =
    is_record v
    && objective_is_valid (get_field (codes "recall") (fields_of v))
    && objective_is_valid (get_field (codes "recognition") (fields_of v))
    && activity_is_valid (get_field (codes "activity") (fields_of v))

abbrev pub confidence_is_valid : Value → Bool
confidence_is_valid v =
    let c = fields_of v in
    is_record v
    && is_finite_non_negative (get_field (codes "known") c)
    && is_finite_non_negative (get_field (codes "almost") c)
    && is_finite_non_negative (get_field (codes "again") c)

abbrev pub lesson_result_storage_key : Text → Text
lesson_result_storage_key user_id = codes "lexigo.lesson-result.v2." ++ user_id

abbrev pub max_age_ms : ℕ
max_age_ms = 86400000

abbrev pub in_time : ℕ → Option ℕ → Bool
in_time now none = false
in_time now (some at) = not (ltb (max_age_ms + at) now) && not (ltb (60000 + now) at)

module _ (parse_date : Text → Option ℕ) where
  abbrev pub is_nullable_timestamp : Value → Bool
  is_nullable_timestamp null = true
  is_nullable_timestamp (str s) = is_nonempty (trim s) && is_some (parse_date s)
  is_nullable_timestamp _ = false

  abbrev pub identity_is_valid : Text → Fields → Bool
  identity_is_valid user_id p =
      is_version (get_field (codes "version") p)
      && is_text user_id (get_field (codes "userId") p)
      && is_string (get_field (codes "lessonId") p)
      && is_string (get_field (codes "source") p)
      && is_answer_mode (get_field (codes "studyMode") p)
      && (is_missing (get_field (codes "sessionKind") p)
          || is_session_kind (get_field (codes "sessionKind") p))
      && is_string (get_field (codes "lessonSize") p)
      && is_string (get_field (codes "topic") p)
      && is_string (get_field (codes "completedAt") p)
      && is_item_ids (get_field (codes "itemIds") p)
      && is_finite_non_negative (get_field (codes "itemCount") p)

  abbrev pub counters_are_valid : Fields → Bool
  counters_are_valid p =
      is_finite_non_negative (get_field (codes "skipped") p)
      && is_finite_non_negative (get_field (codes "dueNow") p)
      && is_nullable_timestamp (get_field (codes "nextDueAt") p)
      && is_finite_non_negative (get_field (codes "dailyGoal") p)
      && is_nullable_finite_non_negative (get_field (codes "reviewsBefore") p)
      && is_nullable_finite_non_negative (get_field (codes "reviewsAfter") p)
      && is_nullable_finite_non_negative (get_field (codes "objectiveReviewsToday") p)
      && is_nullable_finite_non_negative (get_field (codes "objectiveSuccessfulToday") p)
      && is_nullable_finite_non_negative (get_field (codes "currentStreak") p)
      && not (
          is_greater (get_field (codes "objectiveSuccessfulToday") p)
            (get_field (codes "objectiveReviewsToday") p))
      && is_boolean (get_field (codes "dailyGoalReached") p)
      && is_boolean (get_field (codes "dailyGoalJustReached") p)
      && is_boolean (get_field (codes "syncPending") p)

  -- `is_greater` is false where one of the two is `null`.
  unfoldable pub snapshot_is_valid : Text → Fields → Bool
  snapshot_is_valid user_id p =
      identity_is_valid user_id p
      && evidence_is_valid (get_field (codes "evidence") p)
      && confidence_is_valid (get_field (codes "confidence") p)
      && counters_are_valid p

  abbrev pub completed_date : Value → Option ℕ
  completed_date (str s) = parse_date s
  completed_date _ = none

  -- The checks of a value that `JSON.parse` returns.
  unfoldable pub accepts : Text → ℕ → Value → Bool
  unfolding snapshot_is_valid
  accepts user_id now (obj p) =
      snapshot_is_valid user_id p
      && in_time now (completed_date (get_field (codes "completedAt") p))
  accepts user_id now _ = false

  abbrev pub read_raw : Text → ℕ → Storage → Option Raw → Storage × Option Value
  read_raw user_id now storage none = (storage, none)
  read_raw user_id now storage (some (plain [])) = (storage, none)
  read_raw user_id now storage (some (plain (c ∷ s))) =
      (delete (lesson_result_storage_key user_id) storage, none)
  read_raw user_id now storage (some (json v)) =
      if accepts user_id now v
      then (storage, some v)
      else (delete (lesson_result_storage_key user_id) storage, none)

  -- The snapshot is the parsed value itself.
  unfoldable pub read_lesson_result_snapshot : Text → ℕ → Storage → Storage × Option Value
  read_lesson_result_snapshot user_id now storage =
      read_raw user_id now storage (get (lesson_result_storage_key user_id) storage)

unfoldable pub write_lesson_result_snapshot : LessonResultSnapshot → Storage → Storage
write_lesson_result_snapshot s storage =
    put (lesson_result_storage_key s.user_id) (json (snapshot_value s)) storage

unfoldable pub clear_lesson_result_snapshot : Text → Storage → Storage
clear_lesson_result_snapshot user_id storage = delete (lesson_result_storage_key user_id) storage

-- `snapshot.completedAt.slice(0, 10)` is the day.
abbrev pub daily_goal_celebration_key : LessonResultSnapshot → Text
daily_goal_celebration_key s =
    codes "lexigo.lesson-result.daily-goal.v2." ++ s.user_id ++ codes "." ++ take 10 s.completed_at

abbrev pub is_claimed : Option Raw → Bool
is_claimed none = false
is_claimed (some (plain s)) = is_nonempty s
is_claimed (some (json v)) = true

abbrev pub claim_key : Bool → Text → Text → Storage → Storage × Bool
claim_key false key lesson_id storage = (storage, false)
claim_key true key lesson_id storage =
    if is_claimed (get key storage)
    then (storage, false)
    else (put key (plain lesson_id) storage, true)

unfoldable pub claim_daily_goal_celebration : LessonResultSnapshot → Storage → Storage × Bool
claim_daily_goal_celebration s storage =
    claim_key s.daily_goal_just_reached (daily_goal_celebration_key s) s.lesson_id storage
