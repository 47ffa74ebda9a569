-- ===== src/Learning/Answer/Judged.antt =====
-- Which answers are accepted.
use lexi_go.Common.{
  ◌≡◌, refl, sym, ap, subst, ◌∙◌, Bool, true, false, not, ◌&&◌, ◌||◌, List, [], ◌∷◌, map, Text,
  text_eq, text_eq_self, eq_of_text_eq, is_nonempty, has, trim, arith, Bool-cases, inl, inr,
}
use lexi_go.Common.Trim.{true-ne-false, and_right, and_both, or_right}
use lexi_go.Learning.{LearningItem}
use lexi_go.Learning.Answer.{
  Letters, normalize_answer, candidates, is_new, keep_new, accepted_answers_for_item, is_exact,
  is_normal, AnswerJudgement, judge_from, judge_learning_answer,
}

-- No text of the list occurs twice.
abbrev pub all_distinct : List Text → Bool
all_distinct [] = true
all_distinct (s ∷ ss) = not (has ss s) && all_distinct ss

module _ (letters : Letters) where
  abbrev pub normal_forms : List Text → List Text
  normal_forms cs = map (normalize_answer letters) cs

  other_form :
      (n m : Text) (seen : List Text)
      → has seen n ≡ true
      → is_new seen m ≡ true
      → text_eq n m ≡ false
  other_form n m seen h new = elim (Bool-cases (text_eq n m)) [
    | inl same ↦
        let e : n ≡ m = eq_of_text_eq n m same in
        let unseen : not (has seen m) ≡ true = and_right (is_nonempty m) _ new in
        absurd (true-ne-false (sym (sym unseen ∙ ap (λ k. not (has seen k)) (sym e) ∙ ap not h)))
    | inr k ↦ k
  ]

  keep_new-new :
      (seen : List Text) (c : Text) (cs : List Text)
      → is_new seen (normalize_answer letters c) ≡ true
      → keep_new letters seen (c ∷ cs) ≡ c ∷ keep_new letters (normalize_answer letters c ∷ seen) cs
  unfolding keep_new
  keep_new-new seen c cs h =
      ap
        (λ b. elim b [
          | true ↦ c ∷ keep_new letters (normalize_answer letters c ∷ seen) cs
          | false ↦ keep_new letters seen cs
        ])
        h

  keep_new-old :
      (seen : List Text) (c : Text) (cs : List Text)
      → is_new seen (normalize_answer letters c) ≡ false
      → keep_new letters seen (c ∷ cs) ≡ keep_new letters seen cs
  unfolding keep_new
  keep_new-old seen c cs h =
      ap
        (λ b. elim b [
          | true ↦ c ∷ keep_new letters (normalize_answer letters c ∷ seen) cs
          | false ↦ keep_new letters seen cs
        ])
        h

  -- A form that was seen is not among those that are kept.
  keep_new-unseen :
      (n : Text) (seen cs : List Text)
      → has seen n ≡ true
      → has (normal_forms (keep_new letters seen cs)) n ≡ false
  unfolding keep_new
  keep_new-unseen n seen [] h = refl
  keep_new-unseen n seen (c ∷ cs) h = elim (Bool-cases (is_new seen (normalize_answer letters c))) [
    | inl new ↦
        let m : Text = normalize_answer letters c in
        let rest : has (normal_forms (keep_new letters (m ∷ seen) cs)) n ≡ false =
          keep_new-unseen n (m ∷ seen) cs (ground (arith, h)) in
        rw (keep_new-new seen c cs new, other_form n m seen h new, rest) refl
    | inr old ↦ rw (keep_new-old seen c cs old) (keep_new-unseen n seen cs h)
  ]

  keep_new-distinct :
      (seen cs : List Text) → all_distinct (normal_forms (keep_new letters seen cs)) ≡ true
  unfolding keep_new
  keep_new-distinct seen [] = refl
  keep_new-distinct seen (c ∷ cs) = elim (Bool-cases (is_new seen (normalize_answer letters c))) [
    | inl new ↦
        let m : Text = normalize_answer letters c in
        let self : has (m ∷ seen) m ≡ true = rw (text_eq_self m) refl in
        let unseen : has (normal_forms (keep_new letters (m ∷ seen) cs)) m ≡ false =
          keep_new-unseen m (m ∷ seen) cs self in
        rw (keep_new-new seen c cs new, unseen) (keep_new-distinct (m ∷ seen) cs)
    | inr old ↦ rw (keep_new-old seen c cs old) (keep_new-distinct seen cs)
  ]

  -- A form that is not empty is kept exactly when it stands in the list and was not seen.
  has-keep_new :
      (n : Text) (seen cs : List Text)
      → is_new seen n ≡ true
      → has (normal_forms (keep_new letters seen cs)) n ≡ has (normal_forms cs) n
  unfolding keep_new
  has-keep_new n seen [] h = refl
  has-keep_new n seen (c ∷ cs) h = elim (Bool-cases (text_eq n (normalize_answer letters c))) [
    | inl same ↦
        let e : normalize_answer letters c ≡ n =
          sym (eq_of_text_eq n (normalize_answer letters c) same) in
        let new : is_new seen (normalize_answer letters c) ≡ true = ap (is_new seen) e ∙ h in
        rw (keep_new-new seen c cs new, same) refl
    | inr differs ↦ elim (Bool-cases (is_new seen (normalize_answer letters c))) [
      | inl new ↦
          let m : Text = normalize_answer letters c in
          let still : is_new (m ∷ seen) n ≡ true = rw differs h in
          let rest : has (normal_forms (keep_new letters (m ∷ seen) cs)) n
              ≡ has (normal_forms cs) n =
            has-keep_new n (m ∷ seen) cs still in
          rw (keep_new-new seen c cs new, differs, rest) refl
      | inr old ↦ rw (keep_new-old seen c cs old, differs) (has-keep_new n seen cs h)
    ]
  ]

  -- The normal forms of the accepted answers are all different, and a text that is not empty is one
  -- of them exactly when it is the normal form of a candidate.
  pub accepted_answers_for_item-distinct :
      (item : LearningItem)
      → (all_distinct (normal_forms (accepted_answers_for_item letters item)) ≡ true)
        × ((n : Text)
            → is_nonempty n ≡ true
            → has (normal_forms (accepted_answers_for_item letters item)) n
              ≡ has (normal_forms (candidates item)) n)
  unfolding accepted_answers_for_item
  accepted_answers_for_item-distinct item = (
    keep_new-distinct [] (candidates item),
    λ n h. has-keep_new n [] (candidates item) (and_both _ _ h refl),
  )

  judge_from-normal :
      (trimmed n : Text) (cs : List Text)
      → has (normal_forms cs) n ≡ true
      → (judge_from letters trimmed n cs).correct ≡ true
  unfolding judge_from
  judge_from-normal trimmed n [] h = h
  judge_from-normal trimmed n (c ∷ cs) h = elim (Bool-cases (is_exact letters trimmed c)) [
    | inl exact ↦ rw exact refl
    | inr k ↦ elim (Bool-cases (is_normal letters n c)) [
      | inl same ↦ rw (k, same) refl
      | inr differs ↦
          let rest : has (normal_forms cs) n ≡ true = rw differs at h in
          rw (k, differs) (judge_from-normal trimmed n cs rest)
    ]
  ]

  -- What was matched is one of the answers and equals the submitted one, but for the case of its
  -- letters or but for its normal form.
  abbrev pub IsMatch : Text → Text → List Text → AnswerJudgement → Type 0
  IsMatch trimmed n cs j =
      (has cs j.matched_answer ≡ true)
      × ((is_exact letters trimmed j.matched_answer || is_normal letters n j.matched_answer) ≡ true)

  judge_from-IsMatch :
      (trimmed n : Text) (cs : List Text)
      → (judge_from letters trimmed n cs).correct ≡ true
      → IsMatch trimmed n cs (judge_from letters trimmed n cs)
  unfolding judge_from
  judge_from-IsMatch trimmed n [] h = absurd (true-ne-false h)
  judge_from-IsMatch trimmed n (c ∷ cs) h = elim (Bool-cases (is_exact letters trimmed c)) [
    | inl exact ↦ rw exact (rw (text_eq_self c) refl, rw exact refl)
    | inr k ↦ elim (Bool-cases (is_normal letters n c)) [
      | inl same ↦ rw (k, same) (rw (text_eq_self c) refl, rw (k, same) refl)
      | inr differs ↦
          let e : judge_from letters trimmed n (c ∷ cs) ≡ judge_from letters trimmed n cs =
            rw (k, differs) refl in
          let (listed, matches) =
            judge_from-IsMatch trimmed n cs (ap (λ j. j.correct) (sym e) ∙ h) in
          subst (IsMatch trimmed n (c ∷ cs)) (sym e) (or_right _ _ listed, matches)
    ]
  ]

  -- An answer whose normal form is not empty and is that of a candidate of the item is accepted: the
  -- candidates that `acceptedAnswersForItem` leaves out, since an earlier one has their normal form,
  -- lose no answer.
  pub judge_learning_answer-correct :
      (item : LearningItem) (submitted : Text)
      → let n = normalize_answer letters (trim submitted) in
        is_nonempty n ≡ true
        → has (normal_forms (candidates item)) n ≡ true
        → (judge_learning_answer letters item submitted).correct ≡ true
  unfolding judge_learning_answer
  judge_learning_answer-correct item submitted some_text listed =
      let n : Text = normalize_answer letters (trim submitted) in
      let kept : has (normal_forms (accepted_answers_for_item letters item)) n ≡ true =
        (accepted_answers_for_item-distinct item).1 n some_text ∙ listed in
      rw some_text
        (judge_from-normal (trim submitted) n (accepted_answers_for_item letters item) kept)

  -- An answer that is judged correct has a normal form that is not empty, and the matched answer is
  -- an accepted one of the item, equal to the submitted answer but for the case of its letters or in
  -- its normal form.
  pub judge_learning_answer-IsMatch :
      (item : LearningItem) (submitted : Text)
      → (judge_learning_answer letters item submitted).correct ≡ true
      → let n = normalize_answer letters (trim submitted) in
        (is_nonempty n ≡ true)
        × IsMatch
            (trim submitted)
            n
            (accepted_answers_for_item letters item)
            (judge_learning_answer letters item submitted)
  unfolding judge_learning_answer
  judge_learning_answer-IsMatch item submitted h =
      elim (Bool-cases (is_nonempty (normalize_answer letters (trim submitted)))) [
        | inl some_text ↦
            let n : Text = normalize_answer letters (trim submitted) in
            let answers : List Text = accepted_answers_for_item letters item in
            let e : judge_learning_answer letters item submitted
                ≡ judge_from letters (trim submitted) n answers =
              rw some_text refl in
            (
              some_text,
              subst (IsMatch (trim submitted) n answers) (sym e)
                  (judge_from-IsMatch (trim submitted) n answers (ap (λ j. j.correct) (sym e) ∙ h)),
            )
        | inr no_text ↦
            let e : (judge_learning_answer letters item submitted).correct ≡ false =
              rw no_text refl in
            absurd (true-ne-false (sym e ∙ h))
      ]
