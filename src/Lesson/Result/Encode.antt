-- ===== src/Lesson/Result/Encode.antt =====
-- The snapshot of frontend/lib/lesson-result.ts as the JSON value that is written.
use lexi_go.Common.{ℕ, Option, none, some, List, [], ◌∷◌, Text, codes}
use lexi_go.Json.{
  pos, int, Value, null, bool, num, str, arr, obj, Items, nil, cons, Fields, end, field,
}
use lexi_go.Lesson.Result.{
  AnswerMode, study, recall, choice, listening, SessionKind, study_session, review_session,
  remediation_session, ObjectiveEvidence, LessonResultEvidence, LessonResultConfidence,
  LessonResultSnapshot,
}

abbrev pub mode_text : AnswerMode → Text
mode_text study = codes "study"
mode_text recall = codes "recall"
mode_text choice = codes "choice"
mode_text listening = codes "listening"

abbrev pub kind_text : SessionKind → Text
kind_text study_session = codes "study"
kind_text review_session = codes "review"
kind_text remediation_session = codes "remediation"

abbrev pub number : ℕ → Value
number n = num (int (pos n))

abbrev pub nullable {ℓ} : {A : Type ℓ} → (A → Value) → Option A → Value
nullable f none = null
nullable f (some a) = f a

abbrev pub numbers : List ℕ → Items
numbers [] = nil
numbers (n ∷ ns) = cons (number n) (numbers ns)

abbrev pub objective_value : ObjectiveEvidence → Value
objective_value e = obj (
    field (codes "attempted") (number e.attempted) (
      field (codes "correct") (number e.correct)
        (field (codes "unavailable") (number e.unavailable) end)))

abbrev pub evidence_value : LessonResultEvidence → Value
evidence_value e = obj (
    field (codes "recall") (objective_value e.recall) (
      field (codes "recognition") (objective_value e.recognition) (
        field (codes "activity")
          (obj (
            field (codes "reviewed") (number e.reviewed)
              (field (codes "total") (number e.total) end)))
          end)))

abbrev pub confidence_value : LessonResultConfidence → Value
confidence_value c = obj (
    field (codes "known") (number c.known)
      (field (codes "almost") (number c.almost) (field (codes "again") (number c.again) end)))

abbrev pub with_kind : Option SessionKind → Fields → Fields
with_kind none rest = rest
with_kind (some k) rest = field (codes "sessionKind") (str (kind_text k)) rest

abbrev pub snapshot_fields : Option SessionKind → LessonResultSnapshot → Fields
snapshot_fields kind s = field (codes "version") (number 2) (
    field (codes "userId") (str s.user_id) (
      field (codes "lessonId") (str s.lesson_id) (
        field (codes "source") (str s.source) (
          field (codes "studyMode") (str (mode_text s.study_mode)) (
            with_kind kind (
              field (codes "lessonSize") (str s.lesson_size) (
                field (codes "topic") (str s.topic) (
                  field (codes "completedAt") (str s.completed_at) (
                    field (codes "itemIds") (arr (numbers s.item_ids)) (
                      field (codes "itemCount") (number s.item_count) (
                        field (codes "evidence") (evidence_value s.evidence) (
                          field (codes "confidence") (confidence_value s.confidence) (
                            field (codes "skipped") (number s.skipped) (
                              field (codes "dueNow") (number s.due_now) (
                                field (codes "nextDueAt") (nullable str s.next_due_at) (
                                  field (codes "dailyGoal") (number s.daily_goal) (
                                    field (codes "reviewsBefore") (nullable number s.reviews_before)
                                      (field (codes "reviewsAfter")
                                        (nullable number s.reviews_after)
                                        (field (codes "objectiveReviewsToday")
                                          (nullable number s.objective_reviews_today)
                                          (field (codes "objectiveSuccessfulToday")
                                            (nullable number s.objective_successful_today)
                                            (field (codes "currentStreak")
                                              (nullable number s.current_streak)
                                              (field (codes "dailyGoalReached")
                                                (bool s.daily_goal_reached)
                                                (field (codes "dailyGoalJustReached")
                                                  (bool s.daily_goal_just_reached)
                                                  (field (codes "syncPending") (bool s.sync_pending)
                                                    end))))))))))))))))))))))))

-- What `JSON.stringify` writes of a snapshot.
unfoldable pub snapshot_value : LessonResultSnapshot → Value
snapshot_value s = obj (snapshot_fields s.session_kind s)
