-- ===== src/Update/Build/Again.antt =====
-- Normalizing a build's name a second time.
use lexi_go.Common.{
  ℕ, zero, suc, ◌≤◌, ◌≡◌, refl, ap, ◌∙◌, Bool, true, false, ◌&&◌, not, [], ◌∷◌, Text, ◌==◌,
  if◌then◌else◌, is_nonempty, is_space, take, length, all, trim, arith, Bool-cases, inl, inr,
}
use lexi_go.Common.Trim.{trim-no_space, true-ne-false, and_left, and_right, and_both}
use lexi_go.Navigation.Path.Segments.{all_mono}
use lexi_go.Update.Build.{
  is_build_char, replace_runs, strip_start, strip_end, or_local, build_characters,
  normalize_build_id,
}

abbrev are_build_chars : Text → Bool
are_build_chars s = all is_build_char s

-- A name's first character stands and is no dash.
abbrev begins : Text → Bool
begins [] = false
begins (c ∷ s) = not (c == 45)

abbrev begins_or_empty : Text → Bool
begins_or_empty [] = true
begins_or_empty (c ∷ s) = not (c == 45)

module _ (r : Text) (h : are_build_chars r ≡ true) where
  if-are_build_chars : (x : Bool) → are_build_chars (if x then r else 45 ∷ r) ≡ true
  if-are_build_chars true = h
  if-are_build_chars false = h

replace_runs-are_build_chars : (b : Bool) (s : Text) → are_build_chars (replace_runs b s) ≡ true
unfolding replace_runs
replace_runs-are_build_chars b [] = refl
replace_runs-are_build_chars b (c ∷ s) = elim (Bool-cases (is_build_char c)) [
  | inl kept ↦ rw kept (rw kept (replace_runs-are_build_chars false s))
  | inr k ↦ rw k (if-are_build_chars (replace_runs true s) (replace_runs-are_build_chars true s) b)
]

strip_start-are_build_chars :
    (s : Text) → are_build_chars s ≡ true → are_build_chars (strip_start s) ≡ true
unfolding strip_start
strip_start-are_build_chars [] h = refl
strip_start-are_build_chars (c ∷ s) h = elim (Bool-cases (c == 45)) [
  | inl dash ↦ rw dash (strip_start-are_build_chars s (and_right _ _ h))
  | inr k ↦ rw k h
]

begins-strip_start : (s : Text) → begins_or_empty (strip_start s) ≡ true
unfolding strip_start
begins-strip_start [] = refl
begins-strip_start (c ∷ s) = elim (Bool-cases (c == 45)) [
  | inl dash ↦ rw dash (begins-strip_start s)
  | inr k ↦ rw k (rw k refl)
]

strip_end-are_build_chars :
    (s : Text) → are_build_chars s ≡ true → are_build_chars (strip_end s) ≡ true
unfolding strip_end
strip_end-are_build_chars [] h = refl
strip_end-are_build_chars (c ∷ s) h =
    elim (Bool-cases ((c == 45) && not (is_nonempty (strip_end s)))) [
      | inl gone ↦ rw gone refl
      | inr k ↦ rw k (and_both _ _ (and_left _ _ h) (strip_end-are_build_chars s (and_right _ _ h)))
    ]

strip_end-begins : (c : ℕ) (s : Text) → (c == 45) ≡ false → strip_end (c ∷ s) ≡ c ∷ strip_end s
unfolding strip_end
strip_end-begins c s h = rw h refl

begins-strip_end : (s : Text) → begins_or_empty s ≡ true → begins_or_empty (strip_end s) ≡ true
unfolding strip_end
begins-strip_end [] h = refl
begins-strip_end (c ∷ s) h = elim (Bool-cases (c == 45)) [
  | inl dash ↦ absurd (true-ne-false (rw dash at h))
  | inr k ↦ rw k (rw k refl)
]

take-are_build_chars :
    (n : ℕ) (s : Text) → are_build_chars s ≡ true → are_build_chars (take n s) ≡ true
take-are_build_chars zero s h = refl
take-are_build_chars (suc n) [] h = refl
take-are_build_chars (suc n) (c ∷ s) h =
    and_both _ _ (and_left _ _ h) (take-are_build_chars n s (and_right _ _ h))

length-take-le : (n : ℕ) (s : Text) → length (take n s) ≤ n
length-take-le zero s = omega arith
length-take-le (suc n) [] = omega arith
length-take-le (suc n) (c ∷ s) = omega (arith, length-take-le n s)

take_all : (n : ℕ) (s : Text) → length s ≤ n → take n s ≡ s
take_all zero [] h = refl
take_all zero (c ∷ s) h = absurd (omega arith)
take_all (suc n) [] h = refl
take_all (suc n) (c ∷ s) h = ap (λ r. c ∷ r) (take_all n s (omega arith))

length-strip_end-le : (s : Text) → length (strip_end s) ≤ length s
unfolding strip_end
length-strip_end-le [] = omega arith
length-strip_end-le (c ∷ s) = elim (Bool-cases ((c == 45) && not (is_nonempty (strip_end s)))) [
  | inl gone ↦ rw gone (omega arith)
  | inr k ↦ rw k (omega (arith, length-strip_end-le s))
]

-- A normal name: at most 80 letters, digits, dots, dashes and underscores, the first no dash.
pub record IsName (s : Text) : Type 0 where
  pub chars : are_build_chars s ≡ true
  pub head : begins s ≡ true
  pub short : length s ≤ 80

or_local-IsName :
    (s : Text)
    → are_build_chars s ≡ true
    → begins_or_empty s ≡ true
    → length s ≤ 80
    → IsName (or_local s)
or_local-IsName [] c b l = record { chars = refl; head = refl; short = omega arith }
or_local-IsName (x ∷ s) c b l = record { chars = c; head = b; short = l }

begins-take : (n : ℕ) (s : Text) → begins_or_empty s ≡ true → begins_or_empty (take n s) ≡ true
begins-take zero s h = refl
begins-take (suc n) [] h = refl
begins-take (suc n) (c ∷ s) h = h

pub normalize_build_id-IsName : (s : Text) → IsName (normalize_build_id s)
unfolding normalize_build_id
normalize_build_id-IsName s =
    let runs = replace_runs false (trim s) in
    let chars : are_build_chars (strip_end (strip_start runs)) ≡ true =
      strip_end-are_build_chars (strip_start runs)
        (strip_start-are_build_chars runs (replace_runs-are_build_chars false (trim s))) in
    or_local-IsName (take 80 (build_characters s))
      (take-are_build_chars 80 (build_characters s) chars)
      (begins-take 80 (build_characters s)
        (begins-strip_end (strip_start runs) (begins-strip_start runs)))
      (length-take-le 80 (build_characters s))

build_char-not_space : (c : ℕ) → is_build_char c ≡ true → not (is_space c) ≡ true
build_char-not_space c h = ground arith

replace_runs-kept : (s : Text) → are_build_chars s ≡ true → replace_runs false s ≡ s
unfolding replace_runs
replace_runs-kept [] h = refl
replace_runs-kept (c ∷ s) h =
    let kept : is_build_char c ≡ true = and_left _ _ h in
    rw kept (ap (λ r. c ∷ r) (replace_runs-kept s (and_right _ _ h)))

strip_start-kept : (s : Text) → begins s ≡ true → strip_start s ≡ s
unfolding strip_start
strip_start-kept [] h = refl
strip_start-kept (c ∷ s) h = elim (Bool-cases (c == 45)) [
  | inl dash ↦ absurd (true-ne-false (rw dash at h))
  | inr k ↦ rw k refl
]

or_local-strip_end : (s : Text) → begins s ≡ true → or_local (strip_end s) ≡ strip_end s
unfolding strip_end
or_local-strip_end [] h = absurd (true-ne-false h)
or_local-strip_end (c ∷ s) h = elim (Bool-cases (c == 45)) [
  | inl dash ↦ absurd (true-ne-false (rw dash at h))
  | inr k ↦ rw k refl
]

-- On a normal name only the dashes at the end are taken off.
pub normalize_build_id-of_name : (s : Text) → IsName s → normalize_build_id s ≡ strip_end s
unfolding normalize_build_id
normalize_build_id-of_name s n =
    let trimmed : trim s ≡ s =
      trim-no_space s
        (all_mono is_build_char (λ c. not (is_space c)) build_char-not_space s n.chars) in
    let short : length (strip_end s) ≤ 80 = omega (arith, length-strip_end-le s, n.short) in
    rw (trimmed, replace_runs-kept s n.chars, strip_start-kept s n.head)
      (ap or_local (take_all 80 (strip_end s) short) ∙ or_local-strip_end s n.head)

-- The cut after 80 characters comes last: a second normalization takes off the dashes at which the
-- first one cut, and changes nothing else.
pub normalize-normalize_build_id :
    (s : Text) → normalize_build_id (normalize_build_id s) ≡ strip_end (normalize_build_id s)
normalize-normalize_build_id s =
    normalize_build_id-of_name (normalize_build_id s) (normalize_build_id-IsName s)
