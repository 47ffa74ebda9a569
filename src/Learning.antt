-- ===== src/Learning.antt =====
-- Items of a lesson, their order and the answer that an exercise asks for, from
-- frontend/lib/learning.ts.
pub mod Order
pub mod Answer
pub mod Options
pub mod Cloze
use mathlib.Core.List.{reverse}
use lexi_go.Common.{
  ℕ, zero, suc, ◌+◌, ◌-◌, Bool, true, false, not, ◌&&◌, Option, none, some, List, [], ◌∷◌, ◌++◌,
  map, Text, codes, text_eq, ◌==◌, if◌then◌else◌, is_nonempty, starts_with, trim, get_or, has,
  length, take, drop, filter, any,
}

pub data ItemKind : Type 0 where
  word : ItemKind
  phrase : ItemKind

-- With the section `phrase` of an item.
pub data ItemSection : Type 0 where
  noun : ItemSection
  verb : ItemSection
  adjective : ItemSection
  other : ItemSection
  phrases : ItemSection

pub data WordCollection : Type 0 where
  daily_life : WordCollection
  travel : WordCollection
  data_engineering : WordCollection
  backend : WordCollection
  academic_technical_english : WordCollection

pub data WordSection : Type 0 where
  mixed : WordSection
  nouns : WordSection
  verbs : WordSection
  adjectives : WordSection
  collection : WordCollection → WordSection

pub data LessonSize : Type 0 where
  sized : ℕ → LessonSize
  whole : LessonSize

abbrev pub word_collection_topics : WordCollection → Text
word_collection_topics daily_life = codes "Daily Life"
word_collection_topics travel = codes "Travel"
word_collection_topics data_engineering = codes "Data Engineering"
word_collection_topics backend = codes "Backend Development"
word_collection_topics academic_technical_english = codes "academic-technical-english"

pub record LearningItem : Type 0 where
  pub id : Text
  pub word_id : Option ℕ
  pub kind : ItemKind
  pub slug : Option Text
  pub prompt : Text
  pub answer : Text
  pub phonetic : Text
  pub part_of_speech : Text
  pub section : ItemSection
  pub topic : Text
  pub aliases : Option (List Text)
  pub accepted_answers : Option (List Text)
  pub examples : List Text
  pub note : Text
  pub status : Text
  pub selection_reason : Option Text
  pub cloze : Option Text
  pub cloze_answer : Option Text

abbrev pub is_word : LearningItem → Bool
is_word item = elim item.kind [ word ↦ true | phrase ↦ false ]

abbrev pub section_code : ItemSection → ℕ
section_code noun = 0
section_code verb = 1
section_code adjective = 2
section_code other = 3
section_code phrases = 4

-- A word of the section.
abbrev pub is_word_of : ItemSection → LearningItem → Bool
is_word_of part item = is_word item && (section_code item.section == section_code part)

module _ {ℓ} {A : Type ℓ} where
  -- One round of the loop: what it pushes, and what is left. A group with its index stands for the
  -- items that it still has.
  abbrev pub heads : List (List A) → List A
  heads [] = []
  heads ([] ∷ groups) = heads groups
  heads ((x ∷ xs) ∷ groups) = x ∷ heads groups

  abbrev pub tails : List (List A) → List (List A)
  tails [] = []
  tails ([] ∷ groups) = [] ∷ tails groups
  tails ((x ∷ xs) ∷ groups) = xs ∷ tails groups

  abbrev pub after_round : List A → List A → List A
  after_round [] rest = []
  after_round (x ∷ xs) rest = (x ∷ xs) ++ rest

  -- The first argument is fuel.
  unfoldable pub round_robin_from : ℕ → List (List A) → List A
  round_robin_from zero groups = []
  round_robin_from (suc n) groups =
      let rest = round_robin_from n (tails groups) in after_round (heads groups) rest

  abbrev pub total : List (List A) → ℕ
  total [] = 0
  total (xs ∷ groups) = length xs + total groups

  unfoldable pub round_robin : List (List A) → List A
  unfolding round_robin_from
  round_robin groups = round_robin_from (suc (total groups)) groups

abbrev pub part_order : List ItemSection
part_order = noun ∷ verb ∷ adjective ∷ other ∷ []

unfoldable pub prepare_word_items : List LearningItem → WordSection → List LearningItem
unfolding round_robin
prepare_word_items items (collection c) =
    filter (λ item. is_word item && text_eq item.topic (word_collection_topics c)) items
prepare_word_items items nouns = filter (is_word_of noun) items
prepare_word_items items verbs = filter (is_word_of verb) items
prepare_word_items items adjectives = filter (is_word_of adjective) items
prepare_word_items items mixed =
    round_robin (map (λ part. filter (is_word_of part) items) part_order)

abbrev pub take_lesson_block : List LearningItem → LessonSize → List LearningItem
take_lesson_block items (sized n) = take n items
take_lesson_block items whole = items

-- A text up to its first `_`.
abbrev pub until_blank : Text → Text
until_blank [] = []
until_blank (c ∷ s) = let rest = until_blank s in if c == 95 then [] else c ∷ rest

abbrev pub ends_with : Text → Text → Bool
ends_with p s = starts_with (reverse p) (reverse s)

-- `prompt.slice(from, to)`, empty where `to` is not after `from`.
abbrev pub slice : ℕ → ℕ → Text → Text
slice from to s = take (to - from) (drop from s)

abbrev pub between : Text → Text → Text → Text
between prompt prefix suffix =
    if starts_with prefix prompt && ends_with suffix prompt
    then trim (slice (length prefix) (length prompt - length suffix) prompt)
    else []

unfoldable pub infer_cloze_answer : Text → Option Text → Text
infer_cloze_answer prompt none = []
infer_cloze_answer prompt (some cloze) =
    if any (λ c. c == 95) cloze
    then between prompt (until_blank cloze) (reverse (until_blank (reverse cloze)))
    else []

-- `a || b` on strings.
abbrev pub or_else : Text → Text → Text
or_else [] b = b
or_else (c ∷ s) b = c ∷ s

abbrev pub has_cloze : LearningItem → Bool
has_cloze item = not (is_word item) && is_nonempty (get_or item.cloze [])

unfoldable pub exercise_answer : LearningItem → Text
unfolding infer_cloze_answer
exercise_answer item =
    if has_cloze item
    then or_else (trim (get_or item.cloze_answer []))
        (or_else (infer_cloze_answer item.prompt item.cloze) (trim item.answer))
    else trim item.answer
