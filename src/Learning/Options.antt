-- ===== src/Learning/Options.antt =====
-- The options of a choice, from frontend/lib/learning.ts.
pub mod Shown
use lexi_go.Common.{
  ℕ, zero, suc, ◌+◌, ◌-◌, ◌*◌, ◌/◌, ◌%◌, Bool, true, false, not, ◌&&◌, List, [], ◌∷◌, ◌++◌, map,
  Text, codes, text_eq, ◌==◌, if◌then◌else◌, is_nonempty, has, take, filter,
}
use lexi_go.Common.Sort.{sort_by}
use lexi_go.Learning.{LearningItem, exercise_answer}

-- `a ^ b` on the last bits of two numbers, as many as the first argument says.
abbrev xor_bits : ℕ → ℕ → ℕ → ℕ
xor_bits zero a b = 0
xor_bits (suc n) a b =
    let rest = xor_bits n (a / 2) (b / 2) in (if (a % 2) == (b % 2) then 0 else 1) + 2 * rest

-- The loop of `hash`. Both operators work modulo 2 ^ 32, and `>>> 0` at the end reads the bits as a
-- natural number; here the number is natural all the time.
unfoldable pub hash_from : ℕ → Text → ℕ
hash_from result [] = result
hash_from result (c ∷ s) = hash_from ((xor_bits 32 result c * 16777619) % 4294967296) s

unfoldable pub hash : Text → ℕ
unfolding hash_from
hash value = hash_from 2166136261 value

-- `new Set(xs)` as the list of its elements.
unfoldable pub distinct_from : List Text → List Text → List Text
distinct_from seen [] = []
distinct_from seen (x ∷ xs) = elim (has seen x) [
  | true ↦ distinct_from seen xs
  | false ↦ x ∷ distinct_from (x ∷ seen) xs
]

abbrev pub is_alternative : Text → Text → Bool
is_alternative correct answer = is_nonempty answer && not (text_eq answer correct)

unfoldable pub alternatives : LearningItem → List LearningItem → List Text
unfolding distinct_from exercise_answer
alternatives current pool =
    distinct_from [] (filter (is_alternative (exercise_answer current)) (map exercise_answer pool))

abbrev pub alternative_key : LearningItem → Text → ℕ
alternative_key current answer = hash (current.id ++ codes ":" ++ answer)

abbrev pub option_key : LearningItem → Text → ℕ
option_key current answer = hash (current.id ++ codes ":option:" ++ answer)

-- `count - 1` stops at 0, as `Math.max(0, count - 1)` does.
unfoldable pub build_answer_options : LearningItem → List LearningItem → ℕ → List Text
unfolding alternatives hash exercise_answer
build_answer_options current pool count = sort_by (option_key current) (
    exercise_answer current
    ∷ take (count - 1) (sort_by (alternative_key current) (alternatives current pool)))
