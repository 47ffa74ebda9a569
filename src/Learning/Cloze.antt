-- ===== src/Learning/Cloze.antt =====
-- The answer that a gap stands for.
use mathlib.Core.List.{append_assoc, reverse, reverse_aux, reverse-append, reverse-reverse}
use lexi_go.Common.{
  ◌-◌, ◌≡◌, refl, sym, ap, ◌∙◌, Bool, true, not, ◌&&◌, some, [], ◌∷◌, ◌++◌, Text, ◌==◌, starts_with,
  trim, length, length-append, take, drop, all, any, arith, Bool-cases, inl, inr,
}
use lexi_go.Common.Trim.{true-ne-false, and_right}
use lexi_go.Learning.{until_blank, ends_with, slice, between, infer_cloze_answer}

abbrev pub has_no_blank : Text → Bool
has_no_blank s = all (λ c. not (c == 95)) s

until_blank-append : (s t : Text) → has_no_blank s ≡ true → until_blank (s ++ 95 ∷ t) ≡ s
until_blank-append [] t h = refl
until_blank-append (c ∷ s) t h = elim (Bool-cases (c == 95)) [
  | inl blank ↦ absurd (true-ne-false (rw blank at h))
  | inr k ↦
      let rest : has_no_blank s ≡ true = and_right (not (c == 95)) _ h in
      rw (k, until_blank-append s t rest) refl
]

has_no_blank-reverse_aux :
    (s t : Text) → has_no_blank (reverse_aux s t) ≡ (has_no_blank s && has_no_blank t)
has_no_blank-reverse_aux [] t = refl
has_no_blank-reverse_aux (c ∷ s) t = ground (arith, has_no_blank-reverse_aux s (c ∷ t))

has_no_blank-reverse : (s : Text) → has_no_blank s ≡ true → has_no_blank (reverse s) ≡ true
has_no_blank-reverse s h = ground (arith, has_no_blank-reverse_aux s [])

has_blank : (s t : Text) → any (λ c. c == 95) (s ++ 95 ∷ t) ≡ true
has_blank [] t = refl
has_blank (c ∷ s) t = ground (arith, has_blank s t)

starts_with-append : (s t : Text) → starts_with s (s ++ t) ≡ true
starts_with-append [] t = refl
starts_with-append (c ∷ s) t = ground (arith, starts_with-append s t)

ends_with-append : (s t : Text) → ends_with t (s ++ t) ≡ true
ends_with-append s t = rw (reverse-append s t) (starts_with-append (reverse t) (reverse s))

drop-append : (s t : Text) → drop (length s) (s ++ t) ≡ t
drop-append [] t = refl
drop-append (c ∷ s) t = drop-append s t

take-append : (s t : Text) → take (length s) (s ++ t) ≡ s
take-append [] t = refl
take-append (c ∷ s) t = ap (λ r. c ∷ r) (take-append s t)

slice-between :
    (p a s : Text) → slice (length p) (length (p ++ (a ++ s)) - length s) (p ++ (a ++ s)) ≡ a
slice-between p a s =
    ap (λ n. take n (drop (length p) (p ++ (a ++ s)))) width
    ∙ ap (take (length a)) (drop-append p (a ++ s))
    ∙ take-append a s
  where
    width : length (p ++ (a ++ s)) - length s - length p ≡ length a
    width = omega (arith, length-append p (a ++ s), length-append a s)

between-append : (p a s : Text) → between (p ++ (a ++ s)) p s ≡ trim a
between-append p a s =
    let front : starts_with p (p ++ (a ++ s)) ≡ true = starts_with-append p (a ++ s) in
    let back : ends_with s (p ++ (a ++ s)) ≡ true =
      ap (ends_with s) (sym (append_assoc p a s)) ∙ ends_with-append (p ++ a) s in
    let mid : slice (length p) (length (p ++ (a ++ s)) - length s) (p ++ (a ++ s)) ≡ a =
      slice-between p a s in
    rw (front, back, mid) refl

-- The answer of a phrase with a gap, in the phrase without it: where the text before the gap and the
-- text after it have no `_`, and the gap begins and ends with one, what the phrase has in the gap's
-- place is the answer, without the white space around it.
pub infer_cloze_answer-append :
    (before after answer gap front back : Text)
    → has_no_blank before ≡ true
    → has_no_blank after ≡ true
    → gap ≡ 95 ∷ front
    → reverse gap ≡ 95 ∷ back
    → infer_cloze_answer (before ++ (answer ++ after)) (some (before ++ (gap ++ after)))
      ≡ trim answer
unfolding infer_cloze_answer
infer_cloze_answer-append before after answer gap front back h k begins ends =
    let there : any (λ c. c == 95) (before ++ (gap ++ after)) ≡ true =
      ap (λ g. any (λ c. c == 95) (before ++ (g ++ after))) begins
      ∙ has_blank before (front ++ after) in
    let prefix : until_blank (before ++ (gap ++ after)) ≡ before =
      ap (λ g. until_blank (before ++ (g ++ after))) begins
      ∙ until_blank-append before (front ++ after) h in
    let suffix : reverse (until_blank (reverse (before ++ (gap ++ after)))) ≡ after =
      let turned : reverse (before ++ (gap ++ after))
          ≡ reverse after ++ 95 ∷ (back ++ reverse before) =
        reverse-append before (gap ++ after)
        ∙ ap (λ r. r ++ reverse before) (reverse-append gap after)
        ∙ append_assoc (reverse after) (reverse gap) (reverse before)
        ∙ ap (λ g. reverse after ++ (g ++ reverse before)) ends in
      ap (λ r. reverse (until_blank r)) turned
      ∙ ap reverse (
          until_blank-append (reverse after) (back ++ reverse before)
            (has_no_blank-reverse after k))
      ∙ reverse-reverse after in
    rw (there, prefix, suffix) (between-append before answer after)
