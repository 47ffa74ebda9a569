-- ===== src/Learning/Order.antt =====
-- The items that a section's lesson is made of.
use lexi_go.Common.{
  ℕ, zero, suc, ◌+◌, ◌<◌, ◌≡◌, refl, sym, ap, ◌∙◌, Bool, ◌&&◌, ◌||◌, List, [], ◌∷◌, ◌++◌, ◌==◌,
  if◌then◌else◌, length, filter, map, arith, inl, inr, ◌⊎◌,
}
use lexi_go.Learning.{
  LearningItem, ItemSection, noun, verb, adjective, other, phrases, section_code, mixed, is_word,
  is_word_of, part_order, heads, tails, after_round, round_robin_from, round_robin, total,
  prepare_word_items,
}

module _ {ℓ} {A : Type ℓ} (q : A → Bool) where
  -- How many items of a list pass a test.
  abbrev pub count : List A → ℕ
  count [] = 0
  count (x ∷ xs) = (if q x then 1 else 0) + count xs

  abbrev pub count_all : List (List A) → ℕ
  count_all [] = 0
  count_all (xs ∷ groups) = count xs + count_all groups

  count-append : (xs ys : List A) → count (xs ++ ys) ≡ count xs + count ys
  count-append [] ys = omega arith
  count-append (x ∷ xs) ys = omega (arith, count-append xs ys)

  count-heads :
      (groups : List (List A)) → count (heads groups) + count_all (tails groups) ≡ count_all groups
  count-heads [] = omega arith
  count-heads ([] ∷ groups) = omega (arith, count-heads groups)
  count-heads ((x ∷ xs) ∷ groups) = omega (arith, count-heads groups)

  no_heads : (groups : List (List A)) → heads groups ≡ [] → count_all groups ≡ 0
  no_heads [] h = refl
  no_heads ([] ∷ groups) h = omega (arith, no_heads groups h)
  no_heads ((x ∷ xs) ∷ groups) h = ground arith

module _ {ℓ} {A : Type ℓ} where
  total-tails :
      (groups : List (List A)) → length (heads groups) + total (tails groups) ≡ total groups
  total-tails [] = omega arith
  total-tails ([] ∷ groups) = omega (arith, total-tails groups)
  total-tails ((x ∷ xs) ∷ groups) = omega (arith, total-tails groups)

  empty_or_longer : (xs : List A) → (xs ≡ []) ⊎ (0 < length xs)
  empty_or_longer [] = inl refl
  empty_or_longer (x ∷ xs) = inr (omega arith)

  count-after_round :
      (q : A → Bool) (xs rest : List A)
      → 0 < length xs
      → count q (after_round xs rest) ≡ count q xs + count q rest
  count-after_round q [] rest h = omega arith
  count-after_round q (x ∷ xs) rest h = count-append q (x ∷ xs) rest

  -- Enough fuel: every round but the last takes an item.
  count-round_robin_from :
      (q : A → Bool) (n : ℕ) (groups : List (List A))
      → total groups < n
      → count q (round_robin_from n groups) ≡ count_all q groups
  unfolding round_robin_from
  count-round_robin_from q zero groups h = omega arith
  count-round_robin_from q (suc n) groups h = elim (empty_or_longer (heads groups)) [
    | inl none_left ↦ rw none_left (sym (no_heads q groups none_left))
    | inr some_left ↦
        let ih : count q (round_robin_from n (tails groups)) ≡ count_all q (tails groups) =
          count-round_robin_from q n (tails groups) (omega (arith, total-tails groups)) in
        count-after_round q (heads groups) (round_robin_from n (tails groups)) some_left
        ∙ ap (λ k. count q (heads groups) + k) ih
        ∙ count-heads q groups
  ]

  pub count-round_robin :
      (q : A → Bool) (groups : List (List A)) → count q (round_robin groups) ≡ count_all q groups
  unfolding round_robin
  count-round_robin q groups = count-round_robin_from q (suc (total groups)) groups (omega arith)

  count-filter : (q p : A → Bool) (xs : List A) → count q (filter p xs) ≡ count (λ x. p x && q x) xs
  count-filter q p [] = refl
  count-filter q p (x ∷ xs) = ground (arith, count-filter q p xs)

-- A word of one of the four sections.
abbrev pub is_studied : LearningItem → Bool
is_studied item =
    is_word_of noun item
    || is_word_of verb item
    || is_word_of adjective item
    || is_word_of other item

abbrev one : Bool → ℕ
one b = if b then 1 else 0

-- The four sections exclude each other.
one_section :
    (w b : Bool) (s : ItemSection)
    → let part : ItemSection → Bool = λ p. w && (section_code s == section_code p) in
      one (part noun && b)
        + (one (part verb && b) + (one (part adjective && b) + one (part other && b)))
      ≡ one ((part noun || part verb || part adjective || part other) && b)
one_section w b noun = ground arith
one_section w b verb = ground arith
one_section w b adjective = ground arith
one_section w b other = ground arith
one_section w b phrases = ground arith

count-parts :
    (q : LearningItem → Bool) (items : List LearningItem)
    → count (λ x. is_word_of noun x && q x) items
        + (count (λ x. is_word_of verb x && q x) items
            + (count (λ x. is_word_of adjective x && q x) items
                + (count (λ x. is_word_of other x && q x) items + 0)))
      ≡ count (λ x. is_studied x && q x) items
count-parts q [] = omega arith
count-parts q (x ∷ xs) = omega (arith, one_section (is_word x) (q x) x.section, count-parts q xs)

-- A mixed lesson has every word of the four sections as often as the items have it, and nothing
-- else: for every test, as many of its items pass it as words of the four sections do.
pub count-prepare_word_items :
    (q : LearningItem → Bool) (items : List LearningItem)
    → count q (prepare_word_items items mixed) ≡ count (λ x. is_studied x && q x) items
unfolding prepare_word_items
count-prepare_word_items q items =
    count-round_robin q (map (λ part. filter (is_word_of part) items) part_order)
    ∙ parts
    ∙ count-parts q items
  where
    parts :
        count_all q (map (λ part. filter (is_word_of part) items) part_order)
        ≡ count (λ x. is_word_of noun x && q x) items
          + (count (λ x. is_word_of verb x && q x) items
              + (count (λ x. is_word_of adjective x && q x) items
                  + (count (λ x. is_word_of other x && q x) items + 0)))
    parts =
        rw
          (
            count-filter q (is_word_of noun) items,
            count-filter q (is_word_of verb) items,
            count-filter q (is_word_of adjective) items,
            count-filter q (is_word_of other) items,
          )
          refl
