-- ===== src/Learning/Answer.antt =====
-- The answers that an item accepts and the judgement of a submitted one, from
-- frontend/lib/learning.ts. What Unicode says of a character is the record `Letters`.
pub mod Judged
use lexi_go.Common.{
  ℕ, Bool, true, false, not, ◌&&◌, ◌||◌, Option, none, some, List, [], ◌∷◌, ◌++◌, map, Text, codes,
  text_eq, ◌==◌, leb, if◌then◌else◌, is_nonempty, trim, get_or, has, filter,
}
use lexi_go.Common.Characters.{characters}
use lexi_go.Learning.{LearningItem, is_word, exercise_answer}

-- `toLocaleLowerCase("ru-RU")` of a text, and whether one character is a letter or a number.
pub record Letters : Type 0 where
  pub lower : Text → Text
  pub is_letter_or_number : Text → Bool

abbrev is_apostrophe : Text → Bool
is_apostrophe c = has ((39 ∷ []) ∷ (8217 ∷ []) ∷ (700 ∷ []) ∷ []) c

module _ (letters : Letters) where
  abbrev pub folded : Text → Text
  folded c = let l = letters.lower c in if text_eq l (1105 ∷ []) then 1077 ∷ [] else l

  abbrev pub spaced_out : Text → Bool → Text
  spaced_out normalized pending =
      if pending && is_nonempty normalized then normalized ++ 32 ∷ [] else normalized

  -- The text so far and `spacePending` after one character.
  abbrev pub normalize_step : Text → Text → Bool → Text × Bool
  normalize_step c normalized pending =
      if letters.is_letter_or_number c
      then (spaced_out normalized pending ++ c, false)
      else if is_apostrophe c
      then (normalized, pending)
      else (normalized, is_nonempty normalized)

  unfoldable pub normalize_from : List Text → Text → Bool → Text
  normalize_from [] normalized pending = normalized
  normalize_from (c ∷ cs) normalized pending =
      let (text, space) = normalize_step (folded c) normalized pending in
      normalize_from cs text space

  unfoldable pub normalize_answer : Text → Text
  unfolding normalize_from
  normalize_answer value = trim (normalize_from (characters (trim value)) [] false)

abbrev is_separator : ℕ → Bool
is_separator c = (c == 44) || (c == 59) || (c == 47)

abbrev push_unit : ℕ → List Text → List Text
push_unit c [] = (c ∷ []) ∷ []
push_unit c (s ∷ ss) = (c ∷ s) ∷ ss

-- `s.split(/[,;/]/)`.
abbrev pub split_separators : Text → List Text
split_separators [] = [] ∷ []
split_separators (c ∷ s) =
    let rest = split_separators s in if is_separator c then [] ∷ rest else push_unit c rest

-- With more than one alternative.
abbrev with_alternatives : Text → List Text → List Text
with_alternatives trimmed (a ∷ b ∷ rest) = trimmed ∷ a ∷ b ∷ rest
with_alternatives trimmed few = trimmed ∷ []

unfoldable pub canonical_translation_candidates : Text → List Text
canonical_translation_candidates value =
    let trimmed = trim value in
    if is_nonempty trimmed
    then with_alternatives trimmed (filter is_nonempty (map trim (split_separators trimmed)))
    else []

unfoldable pub candidates : LearningItem → List Text
unfolding canonical_translation_candidates exercise_answer
candidates item =
    (if is_word item
      then canonical_translation_candidates (exercise_answer item)
      else exercise_answer item ∷ [])
    ++ get_or item.accepted_answers []

pub data AnswerJudgementReason : Type 0 where
  accepted_exact : AnswerJudgementReason
  accepted_normalized : AnswerJudgementReason
  rejected_no_answer : AnswerJudgementReason
  rejected_no_match : AnswerJudgementReason

pub record AnswerJudgement : Type 0 where
  pub correct : Bool
  pub reason : AnswerJudgementReason
  pub matched_answer : Text

abbrev pub is_new : List Text → Text → Bool
is_new seen normalized = is_nonempty normalized && not (has seen normalized)

module _ (letters : Letters) where
  -- `candidates.filter(...)` with its set of the normal forms that were seen.
  unfoldable pub keep_new : List Text → List Text → List Text
  keep_new seen [] = []
  keep_new seen (c ∷ cs) = elim (is_new seen (normalize_answer letters c)) [
    | true ↦ c ∷ keep_new (normalize_answer letters c ∷ seen) cs
    | false ↦ keep_new seen cs
  ]

  unfoldable pub accepted_answers_for_item : LearningItem → List Text
  unfolding candidates keep_new
  accepted_answers_for_item item = keep_new [] (candidates item)

  abbrev pub is_exact : Text → Text → Bool
  is_exact trimmed candidate = text_eq (letters.lower trimmed) (letters.lower (trim candidate))

  abbrev pub is_normal : Text → Text → Bool
  is_normal normalized candidate = text_eq normalized (normalize_answer letters candidate)

  unfoldable pub judge_from : Text → Text → List Text → AnswerJudgement
  judge_from trimmed normalized [] = record {
    correct = false;
    reason = rejected_no_match;
    matched_answer = [];
  }
  judge_from trimmed normalized (c ∷ cs) =
      let rest = judge_from trimmed normalized cs in
      if is_exact trimmed c
      then record { correct = true; reason = accepted_exact; matched_answer = c }
      else if is_normal normalized c
      then record { correct = true; reason = accepted_normalized; matched_answer = c }
      else rest

  unfoldable pub judge_learning_answer : LearningItem → Text → AnswerJudgement
  unfolding judge_from accepted_answers_for_item
  judge_learning_answer item submitted =
      let trimmed = trim submitted in
      let normalized = normalize_answer letters trimmed in
      if is_nonempty normalized
      then judge_from trimmed normalized (accepted_answers_for_item item)
      else record { correct = false; reason = rejected_no_answer; matched_answer = [] }
