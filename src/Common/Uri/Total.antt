-- ===== src/Common/Uri/Total.antt =====
-- `encodeURIComponent` throws only at a surrogate that stands alone.
use lexi_go.Common.Texts.{Text}
use lexi_go.Common.Tests.{Bool-cases, if◌then◌else◌}
use lexi_go.Common.Uri.{
  is_unreserved, is_high, is_low, combine, utf8, escape, prefix, encode_from, encode_uri_component,
}
use lexi_go.Common.Uri.Round.{AreUnits}
use Prim.Native.Nat.{ℕ}
use mathlib.Core.Bool.{Bool, true, false}
use mathlib.Core.Option.{Option, none, some}
use mathlib.Core.Path.{◌≡◌, refl}
use mathlib.Core.Logic.{inl, inr}
use mathlib.Core.List.{[], ◌∷◌, ◌++◌}
use native.Mathlib.Omega.{arith}

unfoldable pub pairs_from : Option ℕ → Text → Bool
pairs_from none [] = true
pairs_from (some h) [] = false
pairs_from none (c ∷ s) =
    let rest = pairs_from none s in
    let paired = pairs_from (some c) s in
    if is_low c then false else if is_high c then paired else rest
pairs_from (some h) (c ∷ s) = let rest = pairs_from none s in if is_low c then rest else false

-- `s.isWellFormed()`: the surrogates of a text stand in pairs.
unfoldable pub is_well_formed : Text → Bool
unfolding pairs_from
is_well_formed s = pairs_from none s

-- Code units whose surrogates stand in pairs.
abbrev pub IsWritable : Text → Type 0
IsWritable d = AreUnits d × (is_well_formed d ≡ true)

abbrev IsWritten : Option Text → Type 0
IsWritten o = (t : Text) × (o ≡ some t)

prefix-IsWritten : (s : Text) (o : Option Text) → IsWritten o → IsWritten (prefix s o)
prefix-IsWritten s none w = absurd (cc (w.1))
prefix-IsWritten s (some t) w = (s ++ t, refl)

free_not_surrogate : (c : ℕ) → is_unreserved c ≡ true → (is_low c ≡ false) × (is_high c ≡ false)
free_not_surrogate c h = (ground arith, ground arith)

true-ne-false : ◌≡◌ {A = Bool} false true → ⊥
true-ne-false e = cc

encode_from-IsWritten :
    (p : Option ℕ) (s : Text) → pairs_from p s ≡ true → IsWritten (encode_from p s)
unfolding encode_from pairs_from
encode_from-IsWritten none [] h = ([], refl)
encode_from-IsWritten (some k) [] h = absurd (true-ne-false h)
encode_from-IsWritten none (c ∷ s) h = elim (Bool-cases (is_unreserved c)) [
  | inl free ↦
      let n : (is_low c ≡ false) × (is_high c ≡ false) = free_not_surrogate c free in
      rw free (
        prefix-IsWritten (c ∷ []) (encode_from none s)
          (encode_from-IsWritten none s (rw (n.0, n.1) at h)))
  | inr k ↦ rw k (elim (Bool-cases (is_low c)) [
    | inl low ↦ absurd (true-ne-false (rw low at h))
    | inr k2 ↦ rw k2 (elim (Bool-cases (is_high c)) [
      | inl high ↦ rw high (encode_from-IsWritten (some c) s (rw (k2, high) at h))
      | inr k3 ↦ rw k3 (
          prefix-IsWritten (escape (utf8 c)) (encode_from none s)
            (encode_from-IsWritten none s (rw (k2, k3) at h)))
    ])
  ])
]
encode_from-IsWritten (some k) (c ∷ s) h = elim (Bool-cases (is_low c)) [
  | inl low ↦ rw low (
      prefix-IsWritten (escape (utf8 (combine k c))) (encode_from none s)
        (encode_from-IsWritten none s (rw low at h)))
  | inr k2 ↦ absurd (true-ne-false (rw k2 at h))
]

pub encode_uri_component_total :
    (s : Text) → is_well_formed s ≡ true → (t : Text) × (encode_uri_component s ≡ some t)
unfolding encode_uri_component is_well_formed
encode_uri_component_total s h = encode_from-IsWritten none s h
