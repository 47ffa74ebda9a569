-- ===== src/Common/Decimal.antt =====
-- `String(n)` and `Number(digits)` on the natural numbers.
use mathlib.Core.Bool.{Bool, true, ◌&&◌}
use mathlib.Core.List.{[], ◌∷◌, ◌++◌}
use mathlib.Core.Path.{◌≡◌, refl, sym, ap, ◌∙◌}
use mathlib.Core.Logic.{inl, inr}
use Prim.Native.Nat.{ℕ, zero, suc, ◌+◌, ◌-◌, ◌*◌, ◌/◌, ◌%◌, ◌<◌}
use native.Mathlib.Omega.{arith}
use lexi_go.Common.Tests.{ltb, leb, if◌then◌else◌, Bool-cases}
use lexi_go.Common.Lists.{all}
use lexi_go.Common.Texts.{Text}

abbrev pub is_digit : ℕ → Bool
is_digit c = leb 48 c && leb c 57

-- The most significant digit first; the fuel bounds the number of digits.
unfoldable pub digits_of : ℕ → ℕ → Text
digits_of zero n = []
digits_of (suc fuel) n =
    let rest = digits_of fuel (n / 10) in
    if ltb n 10 then (48 + n) ∷ [] else rest ++ (48 + n % 10) ∷ []

unfoldable pub show : ℕ → Text
unfolding digits_of
show n = digits_of (suc n) n

unfoldable pub value_from : ℕ → Text → ℕ
value_from acc [] = acc
value_from acc (c ∷ s) = value_from (acc * 10 + (c - 48)) s

abbrev pub value : Text → ℕ
value s = value_from 0 s

value_from-append :
    (acc : ℕ) (s : Text) (c : ℕ) → value_from acc (s ++ c ∷ []) ≡ value_from acc s * 10 + (c - 48)
unfolding value_from
value_from-append acc [] c = refl
value_from-append acc (d ∷ s) c = value_from-append (acc * 10 + (d - 48)) s c

value-digits_of : (fuel n : ℕ) → n < fuel → value (digits_of fuel n) ≡ n
unfolding digits_of value_from
value-digits_of zero n h = absurd (omega arith)
value-digits_of (suc fuel) n h = elim (Bool-cases (ltb n 10)) [
  | inl small ↦ rw small (omega arith)
  | inr big ↦
      rw (big, value_from-append 0 (digits_of fuel (n / 10)) (48 + n % 10))
        (ground (arith, value-digits_of fuel (n / 10)))
]

-- Reading the digits of a number gives the number.
pub value-show : (n : ℕ) → value (show n) ≡ n
unfolding show
value-show n = value-digits_of (suc n) n (omega arith)

pub show-injective : (m n : ℕ) → show m ≡ show n → m ≡ n
show-injective m n e = sym (value-show m) ∙ ap value e ∙ value-show n

module _ (p : ℕ → Bool) where
  pub all-append : (s t : Text) → all p s ≡ true → all p t ≡ true → all p (s ++ t) ≡ true
  all-append [] t h k = k
  all-append (c ∷ s) t h k = ground (arith, all-append s t)

digit-mod : (n : ℕ) → is_digit (48 + n % 10) ≡ true
digit-mod n = ground arith

all-digits_of : (fuel n : ℕ) → all is_digit (digits_of fuel n) ≡ true
unfolding digits_of
all-digits_of zero n = refl
all-digits_of (suc fuel) n = elim (Bool-cases (ltb n 10)) [
  | inl small ↦ rw small (ground arith)
  | inr big ↦ rw big (
      all-append is_digit (digits_of fuel (n / 10)) _ (all-digits_of fuel (n / 10))
        (ground (arith, digit-mod n)))
]

pub all-show : (n : ℕ) → all is_digit (show n) ≡ true
unfolding show
all-show n = all-digits_of (suc n) n

nonempty_append : (s : Text) (c : ℕ) → (d : ℕ) × (t : Text) × (s ++ c ∷ [] ≡ d ∷ t)
nonempty_append [] c = (c, [], refl)
nonempty_append (x ∷ s) c = (x, s ++ c ∷ [], refl)

pub show-cons : (n : ℕ) → (d : ℕ) × (t : Text) × (show n ≡ d ∷ t)
unfolding show digits_of
show-cons n = elim (Bool-cases (ltb n 10)) [
  | inl small ↦ (48 + n, [], rw small)
  | inr big ↦ rw big (nonempty_append (digits_of n (n / 10)) (48 + n % 10))
]
