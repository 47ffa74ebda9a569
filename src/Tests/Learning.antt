-- ===== src/Tests/Learning.antt =====
-- Items, answers and options at concrete inputs.
use lexi_go.Common.{
  ℕ, ◌+◌, ◌≡◌, refl, Bool, true, false, ◌&&◌, ◌||◌, none, some, List, [], ◌∷◌, ◌++◌, map, Text,
  codes, text_eq, leb, if◌then◌else◌, is_nonempty, trim, trim_start,
}
use lexi_go.Learning.{
  LearningItem, ItemKind, word, phrase, ItemSection, noun, verb, phrases, mixed, prepare_word_items,
  exercise_answer, infer_cloze_answer, round_robin, round_robin_from,
}
use lexi_go.Learning.Order.{count, is_studied, count-prepare_word_items}
use lexi_go.Learning.Cloze.{infer_cloze_answer-append}
use lexi_go.Learning.Answer.{
  Letters, normalize_answer, normalize_from, canonical_translation_candidates, candidates, keep_new,
  accepted_answers_for_item, judge_from, judge_learning_answer, accepted_normalized,
}
use lexi_go.Learning.Answer.Judged.{
  IsMatch, judge_learning_answer-correct, judge_learning_answer-IsMatch,
}
use lexi_go.Learning.Options.{hash, hash_from}

abbrev item : Text → ItemKind → ItemSection → Text → LearningItem
item id kind section answer = record {
  id = id;
  word_id = none;
  kind = kind;
  slug = none;
  prompt = [];
  answer = answer;
  phonetic = [];
  part_of_speech = [];
  section = section;
  topic = [];
  aliases = none;
  accepted_answers = none;
  examples = [];
  note = [];
  status = [];
  selection_reason = none;
  cloze = none;
  cloze_answer = none;
}

abbrev house : LearningItem
house = item (codes "1") word noun (codes "home, House ")

abbrev go : LearningItem
go = item (codes "2") word verb (codes "move")

abbrev car : LearningItem
car = item (codes "3") word noun (codes "car")

abbrev some_items : List LearningItem
some_items = house ∷ car ∷ item (codes "4") phrase phrases (codes "text") ∷ go ∷ []

mixed_order : prepare_word_items some_items mixed ≡ house ∷ go ∷ car ∷ []
unfolding prepare_word_items round_robin round_robin_from
mixed_order = refl

count-prepare_word_items_example :
    count (λ x. text_eq x.answer (codes "car")) (prepare_word_items some_items mixed)
    ≡ count (λ x. is_studied x && text_eq x.answer (codes "car")) some_items
count-prepare_word_items_example =
    count-prepare_word_items (λ x. text_eq x.answer (codes "car")) some_items

infer_cloze_answer-append_example :
    infer_cloze_answer
      (codes "the " ++ (codes " fast " ++ codes " car"))
      (some (codes "the " ++ (codes "___" ++ codes " car")))
    ≡ trim (codes " fast ")
infer_cloze_answer-append_example =
    infer_cloze_answer-append (codes "the ") (codes " car") (codes " fast ") (codes "___")
      (codes "__") (codes "__") refl refl refl refl

abbrev lower_letter : ℕ → ℕ
lower_letter c = if leb 65 c && leb c 90 then c + 32 else c

abbrev is_small : Text → Bool
is_small (c ∷ []) = (leb 97 c && leb c 122) || (leb 48 c && leb c 57)
is_small _ = false

abbrev ascii : Letters
ascii = record { lower = map lower_letter; is_letter_or_number = is_small }

folded_answer : normalize_answer ascii (codes " Don't -- GO ") ≡ codes "dont go"
unfolding normalize_answer normalize_from trim trim_start
folded_answer = refl

judged :
    judge_learning_answer ascii house (codes " house!")
    ≡ record { correct = true; reason = accepted_normalized; matched_answer = codes "House" }
unfolding judge_learning_answer judge_from accepted_answers_for_item keep_new candidates
    canonical_translation_candidates exercise_answer normalize_answer normalize_from trim trim_start
judged = refl

judge_learning_answer-correct_example :
    (judge_learning_answer ascii house (codes " house!")).correct ≡ true
unfolding candidates canonical_translation_candidates exercise_answer normalize_answer
    normalize_from trim trim_start
judge_learning_answer-correct_example =
    judge_learning_answer-correct ascii house (codes " house!") refl refl

judge_learning_answer-IsMatch_example :
    (is_nonempty (normalize_answer ascii (trim (codes " house!"))) ≡ true)
    × IsMatch ascii
        (trim (codes " house!"))
        (normalize_answer ascii (trim (codes " house!")))
        (accepted_answers_for_item ascii house)
        (judge_learning_answer ascii house (codes " house!"))
unfolding judge_learning_answer judge_from accepted_answers_for_item keep_new candidates
    canonical_translation_candidates exercise_answer normalize_answer normalize_from trim trim_start
judge_learning_answer-IsMatch_example =
    judge_learning_answer-IsMatch ascii house (codes " house!") refl

-- `hash` of the empty text and of `a`, the offset and the test value of FNV-1a.
hash_empty : hash [] ≡ 2166136261
unfolding hash hash_from
hash_empty = refl

hash_a : hash (codes "a") ≡ 3826002220
unfolding hash hash_from
hash_a = refl
