-- ===== src/Lesson/Result/Written.antt =====
-- A snapshot that is built and written is read back.
use lexi_go.Common.{
  ℕ, zero, suc, ◌≤◌, ◌<◌, true, false, ◌&&◌, Option, none, some, List, [], ◌∷◌, Text, codes,
  text_eq_self, ◌==◌, is_nonempty, ◌≡◌, refl, arith, Bool-cases, inl, inr, length, is_some, trim,
  length-filter-le, any, All,
}
use lexi_go.Common.Trim.{is_nonempty-trim-trim}
use lexi_go.Common.Store.{get-put_self}
use lexi_go.Json.{Storage, json, ℤ, pos, negsuc, str, get_field}
use lexi_go.Lesson.Result.{
  AnswerMode, study, recall, choice, listening, SessionKind, study_session, review_session,
  remediation_session, LessonResultJudgement, ObjectiveEvidence, LessonResultEvidence,
  LessonResultSnapshot, BuildInput, normalize_nullable_counter, objective_evidence,
  build_lesson_result_evidence, insert_new, positive_ids, normalize_next_due_at, dated,
  build_lesson_result_snapshot, is_right, get_text,
}
use lexi_go.Lesson.Result.Encode.{
  snapshot_value, snapshot_fields, mode_text, kind_text, evidence_value, objective_value, nullable,
  number, numbers,
}
use lexi_go.Lesson.Result.Snapshot.{
  snapshot_is_valid, in_time, accepts, read_lesson_result_snapshot, write_lesson_result_snapshot,
  lesson_result_storage_key, identity_is_valid, counters_are_valid, completed_date,
  is_nullable_timestamp, is_nullable_finite_non_negative, evidence_is_valid, objective_is_valid,
  is_answer_mode, every_positive, is_session_kind, is_greater,
}

abbrev IsReadableMode : AnswerMode → Type 0
IsReadableMode listening = ⊥
IsReadableMode _ = Unit

abbrev AtMost : Option ℕ → Option ℕ → Type 0
AtMost (some a) (some b) = a ≤ b
AtMost _ _ = Unit

is_answer_mode-mode_text :
    (m : AnswerMode) → IsReadableMode m → is_answer_mode (str (mode_text m)) ≡ true
is_answer_mode-mode_text study h = refl
is_answer_mode-mode_text recall h = refl
is_answer_mode-mode_text choice h = refl
is_answer_mode-mode_text listening h = absurd h

is_session_kind-kind_text : (k : SessionKind) → is_session_kind (str (kind_text k)) ≡ true
is_session_kind-kind_text study_session = refl
is_session_kind-kind_text review_session = refl
is_session_kind-kind_text remediation_session = refl

every_positive-numbers : (ns : List ℕ) → All (λ n. 0 < n) ns → every_positive (numbers ns) ≡ true
every_positive-numbers [] h = refl
every_positive-numbers (n ∷ ns) h = ground (arith, every_positive-numbers ns)

objective-valid :
    (e : ObjectiveEvidence)
    → e.correct ≤ e.attempted
    → objective_is_valid (objective_value e) ≡ true
objective-valid e h = ground arith

evidence-valid :
    (e : LessonResultEvidence)
    → e.recall.correct ≤ e.recall.attempted
    → e.recognition.correct ≤ e.recognition.attempted
    → e.reviewed ≤ e.total
    → evidence_is_valid (evidence_value e) ≡ true
evidence-valid e a b c =
    rw (objective-valid e.recall a, objective-valid e.recognition b) (ground arith)

module _ (parse_date : Text → Option ℕ) where
  abbrev IsDue : Option Text → Type 0
  IsDue none = Unit
  IsDue (some s) = (is_nonempty (trim s) ≡ true) × (is_some (parse_date s) ≡ true)

  -- What the reader asks of the numbers and the dates.
  pub record Readable (s : LessonResultSnapshot) : Type 0 where
    pub mode : IsReadableMode s.study_mode
    pub ids : All (λ n. 0 < n) s.item_ids
    pub recall_correct : s.evidence.recall.correct ≤ s.evidence.recall.attempted
    pub choice_correct : s.evidence.recognition.correct ≤ s.evidence.recognition.attempted
    pub activity : s.evidence.reviewed ≤ s.evidence.total
    pub due : IsDue s.next_due_at
    pub objective : AtMost s.objective_successful_today s.objective_reviews_today

  identity-valid :
      (kind : Option SessionKind) (s : LessonResultSnapshot)
      → Readable s
      → identity_is_valid parse_date s.user_id (snapshot_fields kind s) ≡ true
  identity-valid none s h =
      rw
        (
          text_eq_self s.user_id,
          is_answer_mode-mode_text s.study_mode h.mode,
          every_positive-numbers s.item_ids h.ids,
        )
        refl
  identity-valid (some k) s h =
      rw
        (
          text_eq_self s.user_id,
          is_answer_mode-mode_text s.study_mode h.mode,
          every_positive-numbers s.item_ids h.ids,
          is_session_kind-kind_text k,
        )
        refl

  due-valid : (o : Option Text) → IsDue o → is_nullable_timestamp parse_date (nullable str o) ≡ true
  due-valid none h = refl
  due-valid (some s) h = rw (h.0, h.1) refl

  nullable-valid : (o : Option ℕ) → is_nullable_finite_non_negative (nullable number o) ≡ true
  nullable-valid none = refl
  nullable-valid (some n) = refl

  objective-AtMost :
      (a b : Option ℕ) → AtMost a b → is_greater (nullable number a) (nullable number b) ≡ false
  objective-AtMost none b h = refl
  objective-AtMost (some a) none h = refl
  objective-AtMost (some a) (some b) h = ground arith

  counters-valid :
      (kind : Option SessionKind) (s : LessonResultSnapshot)
      → Readable s
      → counters_are_valid parse_date (snapshot_fields kind s) ≡ true
  counters-valid none s h =
      rw
        (
          due-valid s.next_due_at h.due,
          nullable-valid s.reviews_before,
          nullable-valid s.reviews_after,
          nullable-valid s.objective_reviews_today,
          nullable-valid s.objective_successful_today,
          nullable-valid s.current_streak,
          objective-AtMost s.objective_successful_today s.objective_reviews_today h.objective,
        )
        refl
  counters-valid (some k) s h =
      rw
        (
          due-valid s.next_due_at h.due,
          nullable-valid s.reviews_before,
          nullable-valid s.reviews_after,
          nullable-valid s.objective_reviews_today,
          nullable-valid s.objective_successful_today,
          nullable-valid s.current_streak,
          objective-AtMost s.objective_successful_today s.objective_reviews_today h.objective,
        )
        refl

  Readable-valid :
      (kind : Option SessionKind) (s : LessonResultSnapshot)
      → Readable s
      → snapshot_is_valid parse_date s.user_id (snapshot_fields kind s) ≡ true
  unfolding snapshot_is_valid
  Readable-valid none s h =
      rw
        (
          identity-valid none s h,
          counters-valid none s h,
          evidence-valid s.evidence h.recall_correct h.choice_correct h.activity,
        )
        refl
  Readable-valid (some k) s h =
      rw
        (
          identity-valid (some k) s h,
          counters-valid (some k) s h,
          evidence-valid s.evidence h.recall_correct h.choice_correct h.activity,
        )
        refl

  completed_date-fields :
      (kind : Option SessionKind) (s : LessonResultSnapshot)
      → completed_date parse_date (get_field (codes "completedAt") (snapshot_fields kind s))
        ≡ parse_date s.completed_at
  completed_date-fields none s = refl
  completed_date-fields (some k) s = refl

  -- A snapshot that is readable and was completed within the last day, a clock that is a minute behind
  -- included, is read back as it was written, and reading leaves the storage as it is.
  pub read-write :
      (s : LessonResultSnapshot) (now : ℕ) (storage : Storage)
      → Readable s
      → in_time now (parse_date s.completed_at) ≡ true
      → read_lesson_result_snapshot parse_date s.user_id now
          (write_lesson_result_snapshot s storage)
        ≡ (write_lesson_result_snapshot s storage, some (snapshot_value s))
  unfolding read_lesson_result_snapshot write_lesson_result_snapshot accepts snapshot_value
  read-write s now storage h t =
      rw
        (
          get-put_self (lesson_result_storage_key s.user_id) (json (snapshot_value s)) storage,
          Readable-valid s.session_kind s h,
          completed_date-fields s.session_kind s,
          t,
        )
        refl

insert_new-positive :
    (seen xs : List ℕ) → All (λ n. 0 < n) xs → All (λ n. 0 < n) (insert_new seen xs)
insert_new-positive seen [] h = tt
insert_new-positive seen (x ∷ xs) h = elim (Bool-cases (any (λ y. y == x) seen)) [
  | inl old ↦ rw old (insert_new-positive seen xs h.1)
  | inr new ↦ rw new (h.0, insert_new-positive (x ∷ seen) xs h.1)
]

positive_ids-positive : (zs : List ℤ) → All (λ n. 0 < n) (positive_ids zs)
positive_ids-positive [] = tt
positive_ids-positive (pos zero ∷ zs) = positive_ids-positive zs
positive_ids-positive (pos (suc n) ∷ zs) = ground (arith, positive_ids-positive zs)
positive_ids-positive (negsuc n ∷ zs) = positive_ids-positive zs

correct-attempted :
    (values : List LessonResultJudgement) (mode : AnswerMode)
    → (objective_evidence values mode).correct ≤ (objective_evidence values mode).attempted
unfolding objective_evidence
correct-attempted values mode = length-filter-le (λ e. is_right e.correct) _

module _ (parse_date : Text → Option ℕ) (now_text : Text) where
  dated-IsDue :
      (s : Text)
      → is_nonempty (trim s) ≡ is_nonempty s
      → IsDue parse_date (dated parse_date now_text s)
  dated-IsDue s e = elim (Bool-cases (is_nonempty s && is_some (parse_date s))) [
    | inl fit ↦ rw fit (ground arith, ground arith)
    | inr unfit ↦ rw unfit tt
  ]

  normalize_next_due_at-IsDue :
      (o : Option Text) → IsDue parse_date (normalize_next_due_at parse_date now_text o)
  normalize_next_due_at-IsDue none = tt
  normalize_next_due_at-IsDue (some s) = dated-IsDue (trim s) (is_nonempty-trim-trim s)

  -- The judgements are of items of the lesson, and the objective reviews that succeeded are
  -- among the objective reviews.
  pub record IsConsistent (input : BuildInput) : Type 0 where
    pub mode : IsReadableMode input.study_mode
    pub judged : length input.judgements ≤ length input.item_ids
    pub objective :
        AtMost
          (normalize_nullable_counter input.objective_successful_today)
          (normalize_nullable_counter input.objective_reviews_today)

  build-Readable :
      (input : BuildInput)
      → IsConsistent input
      → Readable parse_date (build_lesson_result_snapshot parse_date now_text input)
  unfolding build_lesson_result_snapshot build_lesson_result_evidence
  build-Readable input c = record {
    mode = c.mode;
    ids =
        insert_new-positive [] (positive_ids input.item_ids) (positive_ids-positive input.item_ids);
    recall_correct = correct-attempted input.judgements recall;
    choice_correct = correct-attempted input.judgements choice;
    activity = c.judged;
    due = normalize_next_due_at-IsDue input.next_due_at;
    objective = c.objective;
  }

  -- A result that is built from the answers of a lesson and written is read back as it was, and
  -- reading leaves the storage alone. No more answers were judged than the lesson has items, the
  -- objective successes are at most the objective reviews where both are given, the mode is not
  -- listening, and the result is read within a day after the lesson's end or a minute before it.
  pub read-write-build :
      (input : BuildInput) (now : ℕ) (storage : Storage)
      → IsConsistent input
      → in_time now (parse_date (get_text now_text input.completed_at)) ≡ true
      → let s = build_lesson_result_snapshot parse_date now_text input in
        let written = write_lesson_result_snapshot s storage in
        read_lesson_result_snapshot parse_date input.user_id now written
        ≡ (written, some (snapshot_value s))
  unfolding build_lesson_result_snapshot
  read-write-build input now storage c t =
      read-write parse_date (build_lesson_result_snapshot parse_date now_text input) now storage
        (build-Readable input c) t
