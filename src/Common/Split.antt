-- ===== src/Common/Split.antt =====
-- `split` and `join` with a separator of one character.
use Prim.Native.Nat.{ℕ}
use mathlib.Core.Path.{◌≡◌, refl, sym, ap, ◌∙◌}
use mathlib.Core.Logic.{inl, inr}
use mathlib.Core.Bool.{Bool, true, not}
use mathlib.Core.List.{List, [], ◌∷◌, ◌++◌}
use native.Mathlib.Omega.{arith}
use lexi_go.Common.Tests.{◌==◌, ==_iff, if◌then◌else◌, Bool-cases}
use lexi_go.Common.Lists.{all}
use lexi_go.Common.Texts.{Text}
use lexi_go.Common.Trim.{true-ne-false, and_right}

abbrev push_front : ℕ → List Text → List Text
push_front c [] = (c ∷ []) ∷ []
push_front c (s ∷ ss) = (c ∷ s) ∷ ss

-- `s.split(separator)` for a separator of one character.
unfoldable pub split_on : ℕ → Text → List Text
split_on sep [] = [] ∷ []
split_on sep (c ∷ s) =
    let rest = split_on sep s in if c == sep then [] ∷ rest else push_front c rest

-- `parts.join(separator)`.
abbrev pub join_with : ℕ → List Text → Text
join_with sep [] = []
join_with sep (s ∷ []) = s
join_with sep (s ∷ t ∷ ss) = s ++ sep ∷ join_with sep (t ∷ ss)

abbrev pub lacks : ℕ → Text → Bool
lacks sep s = all (λ c. not (c == sep)) s

pub split_on-lacks : (sep : ℕ) (s : Text) → lacks sep s ≡ true → split_on sep s ≡ s ∷ []
unfolding split_on
split_on-lacks sep [] h = refl
split_on-lacks sep (c ∷ s) h = elim (Bool-cases (c == sep)) [
  | inl same ↦ absurd (true-ne-false (rw same at h))
  | inr k ↦
      let rest : lacks sep s ≡ true = and_right _ _ h in rw (k, split_on-lacks sep s rest) refl
]

pub split_on-append :
    (sep : ℕ) (s t : Text) → lacks sep s ≡ true → split_on sep (s ++ sep ∷ t) ≡ s ∷ split_on sep t
unfolding split_on
split_on-append sep [] t h = rw (self sep) refl
  where
    self : (c : ℕ) → (c == c) ≡ true
    self c = ground arith
split_on-append sep (c ∷ s) t h = elim (Bool-cases (c == sep)) [
  | inl same ↦ absurd (true-ne-false (rw same at h))
  | inr k ↦
      let rest : lacks sep s ≡ true = and_right _ _ h in rw (k, split_on-append sep s t rest) refl
]

split_on-cons : (sep : ℕ) (s : Text) → (p : Text) × (ps : List Text) × (split_on sep s ≡ p ∷ ps)
unfolding split_on
split_on-cons sep [] = ([], [], refl)
split_on-cons sep (c ∷ s) =
    let (p, ps, e) = split_on-cons sep s in
    elim (Bool-cases (c == sep)) [
      | inl same ↦ ([], p ∷ ps, rw (same, e) refl)
      | inr k ↦ (c ∷ p, ps, rw (k, e) refl)
    ]

pub join_with-split_on : (sep : ℕ) (s : Text) → join_with sep (split_on sep s) ≡ s
unfolding split_on
join_with-split_on sep [] = refl
join_with-split_on sep (c ∷ s) =
    let (p, ps, e) = split_on-cons sep s in
    let ih : join_with sep (p ∷ ps) ≡ s = ap (join_with sep) (sym e) ∙ join_with-split_on sep s in
    elim (Bool-cases (c == sep)) [
      | inl same ↦
          rw (same, e) (ap (λ r. sep ∷ r) ih ∙ ap (λ x. x ∷ s) (sym ((==_iff c sep).0 same)))
      | inr k ↦ rw (k, e) (join_push c p ps ∙ ap (λ r. c ∷ r) ih)
    ]
  where
    join_push :
        (x : ℕ) (p : Text) (ps : List Text)
        → join_with sep ((x ∷ p) ∷ ps) ≡ x ∷ join_with sep (p ∷ ps)
    join_push x p [] = refl
    join_push x p (q ∷ qs) = refl
