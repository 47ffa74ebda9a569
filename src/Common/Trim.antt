-- ===== src/Common/Trim.antt =====
-- `trim`: it is idempotent, it keeps a text without white space, and its result is not empty exactly
-- when the text has a character that is not white space.
use Prim.Native.Nat.{ℕ}
use mathlib.Core.Path.{◌≡◌, refl, sym, ap, ◌∙◌}
use mathlib.Core.Logic.{inl, inr}
use mathlib.Core.Bool.{Bool, true, false, not, ◌&&◌, ◌||◌}
use mathlib.Core.List.{[], ◌∷◌, ◌++◌, reverse, reverse_aux, reverse-append, reverse-reverse}
use native.Mathlib.Omega.{arith}
use lexi_go.Common.Tests.{Bool-cases}
use lexi_go.Common.Lists.{any, all}
use lexi_go.Common.Texts.{Text, is_nonempty, is_space, trim, trim_start}

pub and_left : (a b : Bool) → (a && b) ≡ true → a ≡ true
and_left a b h = ground arith

pub and_right : (a b : Bool) → (a && b) ≡ true → b ≡ true
and_right a b h = ground arith

pub or_right : (a b : Bool) → b ≡ true → (a || b) ≡ true
or_right a b h = ground arith

pub and_both : (a b : Bool) → a ≡ true → b ≡ true → (a && b) ≡ true
and_both a b h k = ground arith

pub true-ne-false : ◌≡◌ {A = Bool} false true → ⊥
true-ne-false h = cc

abbrev pub has_ink : Text → Bool
has_ink s = any (λ c. not (is_space c)) s

has_ink-reverse_aux : (s t : Text) → has_ink (reverse_aux s t) ≡ (has_ink s || has_ink t)
has_ink-reverse_aux [] t = refl
has_ink-reverse_aux (c ∷ s) t = ground (arith, has_ink-reverse_aux s (c ∷ t))

has_ink-reverse : (s : Text) → has_ink (reverse s) ≡ has_ink s
has_ink-reverse s = ground (arith, has_ink-reverse_aux s [])

has_ink-trim_start : (s : Text) → has_ink (trim_start s) ≡ has_ink s
unfolding trim_start
has_ink-trim_start [] = refl
has_ink-trim_start (c ∷ s) = elim (Bool-cases (is_space c)) [
  | inl space ↦ rw space (has_ink-trim_start s)
  | inr ink ↦ rw ink (rw ink refl)
]

is_nonempty-trim_start : (s : Text) → is_nonempty (trim_start s) ≡ has_ink s
unfolding trim_start
is_nonempty-trim_start [] = refl
is_nonempty-trim_start (c ∷ s) = elim (Bool-cases (is_space c)) [
  | inl space ↦ rw space (is_nonempty-trim_start s)
  | inr ink ↦ rw ink refl
]

is_nonempty-reverse_aux :
    (s t : Text) → is_nonempty (reverse_aux s t) ≡ (is_nonempty s || is_nonempty t)
is_nonempty-reverse_aux [] t = refl
is_nonempty-reverse_aux (c ∷ s) t = ground (arith, is_nonempty-reverse_aux s (c ∷ t))

is_nonempty-reverse : (s : Text) → is_nonempty (reverse s) ≡ is_nonempty s
is_nonempty-reverse s = ground (arith, is_nonempty-reverse_aux s [])

has_ink-trim : (s : Text) → has_ink (trim s) ≡ has_ink s
unfolding trim
has_ink-trim s =
    has_ink-reverse (trim_start (reverse (trim_start s)))
    ∙ has_ink-trim_start (reverse (trim_start s))
    ∙ has_ink-reverse (trim_start s)
    ∙ has_ink-trim_start s

pub is_nonempty-trim : (s : Text) → is_nonempty (trim s) ≡ has_ink s
unfolding trim
is_nonempty-trim s =
    is_nonempty-reverse (trim_start (reverse (trim_start s)))
    ∙ is_nonempty-trim_start (reverse (trim_start s))
    ∙ has_ink-reverse (trim_start s)
    ∙ has_ink-trim_start s

pub is_nonempty-trim-trim : (s : Text) → is_nonempty (trim (trim s)) ≡ is_nonempty (trim s)
is_nonempty-trim-trim s = is_nonempty-trim (trim s) ∙ has_ink-trim s ∙ sym (is_nonempty-trim s)

trim_start_idem : (s : Text) → trim_start (trim_start s) ≡ trim_start s
unfolding trim_start
trim_start_idem [] = refl
trim_start_idem (c ∷ s) = elim (Bool-cases (is_space c)) [
  | inl space ↦ rw space (trim_start_idem s)
  | inr ink ↦ rw ink (rw ink refl)
]

trim_start-append_ink :
    (s : Text) (c : ℕ) → is_space c ≡ false → trim_start (s ++ c ∷ []) ≡ trim_start s ++ c ∷ []
unfolding trim_start
trim_start-append_ink [] c h = rw h refl
trim_start-append_ink (d ∷ s) c h = elim (Bool-cases (is_space d)) [
  | inl space ↦ rw space (trim_start-append_ink s c h)
  | inr ink ↦ rw ink refl
]

abbrev trim_end : Text → Text
trim_end s = reverse (trim_start (reverse s))

trim_end-cons_ink : (c : ℕ) (s : Text) → is_space c ≡ false → trim_end (c ∷ s) ≡ c ∷ trim_end s
trim_end-cons_ink c s h =
    ap (λ r. reverse (trim_start r)) (reverse-append (c ∷ []) s)
    ∙ ap reverse (trim_start-append_ink (reverse s) c h)
    ∙ reverse-append (trim_start (reverse s)) (c ∷ [])

trim_end_idem : (s : Text) → trim_end (trim_end s) ≡ trim_end s
trim_end_idem s =
    ap (λ r. reverse (trim_start r)) (reverse-reverse (trim_start (reverse s)))
    ∙ ap reverse (trim_start_idem (reverse s))

trim_start-trim_end : (s : Text) → trim_start (trim_end (trim_start s)) ≡ trim_end (trim_start s)
unfolding trim_start
trim_start-trim_end [] = refl
trim_start-trim_end (c ∷ s) = elim (Bool-cases (is_space c)) [
  | inl space ↦ rw space (trim_start-trim_end s)
  | inr ink ↦ rw (ink, trim_end-cons_ink c s ink) (rw ink refl)
]

pub trim-trim : (s : Text) → trim (trim s) ≡ trim s
unfolding trim
trim-trim s = ap trim_end (trim_start-trim_end s) ∙ trim_end_idem (trim_start s)

abbrev pub no_space : Text → Bool
no_space s = all (λ c. not (is_space c)) s

trim_start-no_space : (s : Text) → no_space s ≡ true → trim_start s ≡ s
unfolding trim_start
trim_start-no_space [] h = refl
trim_start-no_space (c ∷ s) h = elim (Bool-cases (is_space c)) [
  | inl space ↦ absurd (true-ne-false (rw space at h))
  | inr ink ↦ rw ink refl
]

no_space-reverse_aux :
    (s t : Text) → no_space s ≡ true → no_space t ≡ true → no_space (reverse_aux s t) ≡ true
no_space-reverse_aux [] t h k = k
no_space-reverse_aux (c ∷ s) t h k =
    no_space-reverse_aux s (c ∷ t) (and_right _ _ h) (and_both _ _ (and_left _ _ h) k)

pub trim-no_space : (s : Text) → no_space s ≡ true → trim s ≡ s
unfolding trim
trim-no_space s h =
    ap trim_end (trim_start-no_space s h)
    ∙ ap reverse (trim_start-no_space (reverse s) (no_space-reverse_aux s [] h refl))
    ∙ reverse-reverse s
