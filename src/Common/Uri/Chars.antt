-- ===== src/Common/Uri/Chars.antt =====
-- What `encodeURIComponent` writes: characters that stand for themselves, and the percent sign.
use lexi_go.Common.Decimal.{all-append}
use lexi_go.Common.Lists.{all, All}
use lexi_go.Common.Texts.{Text, is_nonempty}
use lexi_go.Common.Tests.{Bool-cases, ◌==◌}
use lexi_go.Common.Uri.{
  is_unreserved, is_high, is_low, combine, utf8, hex, escape, prefix, encode_from,
  encode_uri_component,
}
use lexi_go.Common.Uri.Round.{
  AreUnits, IsWaiting, utf8-lt, combine-IsScalar, prefix-eq-some, none-ne-some,
}
use Prim.Native.Nat.{ℕ, ◌/◌, ◌%◌, ◌<◌}
use mathlib.Core.Bool.{Bool, true, ◌||◌}
use mathlib.Core.Option.{Option, none, some}
use mathlib.Core.Path.{◌≡◌, refl, subst}
use mathlib.Core.Logic.{inl, inr}
use mathlib.Core.List.{List, [], ◌∷◌, ◌++◌}
use native.Mathlib.Omega.{arith}

abbrev pub is_uri_char : ℕ → Bool
is_uri_char c = is_unreserved c || (c == 37)

abbrev pub IsSafe : Text → Type 0
IsSafe t = (all is_uri_char t ≡ true) × (is_nonempty t ≡ true)

hex-is_uri_char : (n : ℕ) → n < 16 → is_uri_char (hex n) ≡ true
hex-is_uri_char n h = ground arith

all-escape : (bs : List ℕ) → All (λ b. b < 256) bs → all is_uri_char (escape bs) ≡ true
all-escape [] h = refl
all-escape (b ∷ bs) h =
    rw
      (
        hex-is_uri_char (b / 16) (omega arith),
        hex-is_uri_char (b % 16) (omega arith),
        all-escape bs h.1,
      )
      refl

nonempty-escape : (c : ℕ) (r : Text) → is_nonempty (escape (utf8 c) ++ r) ≡ true
nonempty-escape c r = ground arith

IsSafe-escape :
    (c : ℕ) (r : Text) → c < 1114112 → all is_uri_char r ≡ true → IsSafe (escape (utf8 c) ++ r)
IsSafe-escape c r h k = (
  all-append is_uri_char (escape (utf8 c)) r (all-escape (utf8 c) (utf8-lt c h)) k,
  nonempty-escape c r,
)

module _ (o : Option Text) (t : Text)
    (safe : (r : Text) → o ≡ some r → all is_uri_char r ≡ true) where
  IsSafe-prefix-escape : (c : ℕ) → c < 1114112 → prefix (escape (utf8 c)) o ≡ some t → IsSafe t
  IsSafe-prefix-escape c h e =
      let p : (r : Text) × (o ≡ some r) × (t ≡ escape (utf8 c) ++ r) = prefix-eq-some _ o t e in
      rw p.2 (IsSafe-escape c p.0 h (safe p.0 p.1))

  IsSafe-prefix-plain : (c : ℕ) → is_unreserved c ≡ true → prefix (c ∷ []) o ≡ some t → IsSafe t
  IsSafe-prefix-plain c h e =
      let p : (r : Text) × (o ≡ some r) × (t ≡ c ∷ r) = prefix-eq-some (c ∷ []) o t e in
      rw (p.2, h) (safe p.0 p.1, refl)

-- All characters are safe; and there is one if there is one to write.
abbrev Written : Option ℕ → Text → Text → Type 0
Written none [] t = all is_uri_char t ≡ true
Written none (c ∷ s) t = IsSafe t
Written (some h) s t = IsSafe t

all_of_Written : (p : Option ℕ) (s t : Text) → Written p s t → all is_uri_char t ≡ true
all_of_Written none [] t w = w
all_of_Written none (c ∷ s) t w = w.0
all_of_Written (some h) s t w = w.0

encode_from-Written :
    (p : Option ℕ) (s t : Text)
    → AreUnits s
    → IsWaiting p
    → encode_from p s ≡ some t
    → Written p s t
unfolding encode_from
encode_from-Written none [] t u w e =
    let q : [] ≡ t = cc in subst (λ (x : Text). all is_uri_char x ≡ true) q refl
encode_from-Written (some h) [] t u w e = cc
encode_from-Written none (c ∷ s) t u w e = elim (Bool-cases (is_unreserved c)) [
  | inl free ↦
      IsSafe-prefix-plain (encode_from none s) t
        (λ r k. all_of_Written none s r (encode_from-Written none s r u.1 tt k)) c free
        (rw free at e)
  | inr k ↦ elim (Bool-cases (is_low c)) [
    | inl low ↦ absurd (none-ne-some (rw (k, low) at e))
    | inr k2 ↦ elim (Bool-cases (is_high c)) [
      | inl high ↦ encode_from-Written (some c) s t u.1 high (rw (k, k2, high) at e)
      | inr k3 ↦
          IsSafe-prefix-escape (encode_from none s) t
            (λ r k. all_of_Written none s r (encode_from-Written none s r u.1 tt k)) c
            (omega (arith, u.0)) (rw (k, k2, k3) at e)
    ]
  ]
]
encode_from-Written (some h) (c ∷ s) t u w e = elim (Bool-cases (is_low c)) [
  | inl low ↦
      IsSafe-prefix-escape (encode_from none s) t
        (λ r k. all_of_Written none s r (encode_from-Written none s r u.1 tt k)) (combine h c)
        ((combine-IsScalar h c w low).0) (rw low at e)
  | inr k ↦ absurd (none-ne-some (rw k at e))
]

pub encode_uri_component-IsSafe :
    (s t : Text) → AreUnits s → is_nonempty s ≡ true → encode_uri_component s ≡ some t → IsSafe t
unfolding encode_uri_component
encode_uri_component-IsSafe [] t u h e = cc
encode_uri_component-IsSafe (c ∷ s) t u h e = encode_from-Written none (c ∷ s) t u tt e
