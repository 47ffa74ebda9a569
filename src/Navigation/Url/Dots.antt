-- ===== src/Navigation/Url/Dots.antt =====
-- The paths of `routePath` as a browser leaves them: it takes out the segments of dots.
use mathlib.Core.List.{append_assoc, reverse, reverse_aux, reverse-reverse}
use lexi_go.Common.{
  ◌≡◌, refl, sym, ap, subst, ◌∙◌, Bool, true, false, not, ◌&&◌, Option, none, some, List, [], ◌∷◌,
  ◌++◌, Text, codes, text_eq, text_eq_iff, all, has, is_nonempty, arith, Bool-cases, inl, inr,
}
use lexi_go.Common.Decimal.{is_digit}
use lexi_go.Common.Split.{
  split_on, join_with, lacks, split_on-lacks, split_on-append, join_with-split_on,
}
use lexi_go.Common.Trim.{true-ne-false, and_left, and_right, and_both}
use lexi_go.Common.Uri.{prefix, decode_uri_component, tokens, read, hex_value}
use lexi_go.Common.Uri.Chars.{is_uri_char}
use lexi_go.Common.Uri.Total.{IsWritable}
use lexi_go.Navigation.Target.{AppView}
use lexi_go.Navigation.Target.Normal.{IsNormalText, OptionIs}
use lexi_go.Navigation.Path.{
  is_scenario_slug, slug_from, is_digits, safe_decode_path_segment, encoded_path_segment, route_for,
}
use lexi_go.Navigation.Path.Segments.{
  SegmentOf, segment_of, all_mono, is_inner, uri_char-is_inner, digit-is_uri_char,
}
use lexi_go.Navigation.Path.Routes.{active-IsNormalText, active-IsWritable}
use lexi_go.Navigation.Url.{
  single_dots, double_dots, shorten, is_single_dot, is_double_dot, resolved, without_dots,
}

abbrev is_plain : Text → Bool
is_plain s = not (is_double_dot s) && not (is_single_dot s)

neither : (a b : Bool) → (not a && not b) ≡ true → (a ≡ false) × (b ≡ false)
neither a b h = (ground arith, ground arith)

not_dots : (s : Text) → is_plain s ≡ true → (is_double_dot s ≡ false) × (is_single_dot s ≡ false)
not_dots s h = neither (is_double_dot s) (is_single_dot s) h

resolved-plain :
    (done ss : List Text) → all is_plain ss ≡ true → resolved done ss ≡ reverse_aux ss done
unfolding resolved
resolved-plain done [] h = refl
resolved-plain done (s ∷ []) h =
    let (double, single) = not_dots s (and_left (is_plain s) true h) in rw (double, single) refl
resolved-plain done (s ∷ t ∷ rest) h =
    let (double, single) = not_dots s (and_left (is_plain s) (all is_plain (t ∷ rest)) h) in
    let later =
      resolved-plain (s ∷ done) (t ∷ rest) (and_right (is_plain s) (all is_plain (t ∷ rest)) h) in
    ap
      (λ b. elim b [
        | true ↦ resolved (shorten done) (t ∷ rest)
        | false ↦ elim (is_single_dot s) [
          | true ↦ resolved done (t ∷ rest)
          | false ↦ resolved (s ∷ done) (t ∷ rest)
        ]
      ])
      double
    ∙ ap (λ b. elim b [ true ↦ resolved done (t ∷ rest) | false ↦ resolved (s ∷ done) (t ∷ rest) ])
        single
    ∙ later

without_dots-plain :
    (path : Text) → all is_plain (split_on 47 path) ≡ true → without_dots (47 ∷ path) ≡ 47 ∷ path
unfolding without_dots
without_dots-plain path h =
    ap (λ ss. 47 ∷ join_with 47 (reverse ss)) (resolved-plain [] (split_on 47 path) h)
    ∙ ap (λ ss. 47 ∷ join_with 47 ss) (reverse-reverse (split_on 47 path))
    ∙ ap (λ s. 47 ∷ s) (join_with-split_on 47 path)

without_dots-segments :
    (a s : Text)
    → lacks 47 a ≡ true
    → lacks 47 s ≡ true
    → is_plain a ≡ true
    → is_plain s ≡ true
    → without_dots (47 ∷ (a ++ 47 ∷ s)) ≡ 47 ∷ (a ++ 47 ∷ s)
without_dots-segments a s h k p q =
    let parts : split_on 47 (a ++ 47 ∷ s) ≡ a ∷ s ∷ [] =
      split_on-append 47 a s h ∙ ap (λ r. a ∷ r) (split_on-lacks 47 s k) in
    without_dots-plain (a ++ 47 ∷ s) (ap (all is_plain) parts ∙ both)
  where
    both : all is_plain (a ∷ s ∷ []) ≡ true
    both = and_both (is_plain a) (is_plain s && true) p (and_both (is_plain s) true q refl)

-- A text with a property that no form of dots has is none of them.
has-without :
    (p : Text → Bool) (s : Text) (forms : List Text)
    → p s ≡ true
    → all (λ f. not (p f)) forms ≡ true
    → has forms s ≡ false
has-without p s [] h k = refl
has-without p s (f ∷ forms) h k =
    let later = has-without p s forms h (and_right (not (p f)) (all (λ g. not (p g)) forms) k) in
    elim (Bool-cases (text_eq s f)) [
      | inl same ↦
          let e : p f ≡ true = sym (ap p ((text_eq_iff s f).0 same)) ∙ h in
          let no : not (p f) ≡ true = and_left (not (p f)) (all (λ g. not (p g)) forms) k in
          absurd (true-ne-false (sym (ap not e) ∙ no))
      | inr other ↦ rw (other, later) refl
    ]

plain_of :
    (p : Text → Bool) (s : Text)
    → p s ≡ true
    → all (λ f. not (p f)) single_dots ≡ true
    → all (λ f. not (p f)) double_dots ≡ true
    → is_plain s ≡ true
plain_of p s h k l = rw (has-without p s single_dots h k, has-without p s double_dots h l) refl

-- The text of a detail that a browser takes for a directory.
abbrev pub is_dots : Text → Bool
is_dots s = has (codes "." ∷ codes ".." ∷ []) s

abbrev pub has_dots : AppView → Option Text → Bool
has_dots AppView.lesson (some d) = is_dots d
has_dots AppView.phrases (some d) = is_dots d
has_dots _ _ = false

segment-is_plain : (d : Text) (s : SegmentOf d) → is_dots d ≡ false → is_plain s.segment ≡ true
unfolding safe_decode_path_segment decode_uri_component tokens read hex_value
segment-is_plain d s h =
    plain_of (λ f. not (is_dots (safe_decode_path_segment f))) s.segment
      (ap (λ t. not (is_dots t)) s.raw ∙ ap not h) refl refl

abbrev IsUndotted : Option Text → Type 0
IsUndotted none = Unit
IsUndotted (some path) = without_dots path ≡ path

segment-IsUndotted :
    (a d : Text)
    → lacks 47 a ≡ true
    → is_plain a ≡ true
    → IsNormalText d
    → IsWritable d
    → is_dots d ≡ false
    → IsUndotted (prefix (47 ∷ (a ++ 47 ∷ [])) (encoded_path_segment d))
segment-IsUndotted a d l p h w n =
    let s : SegmentOf d = segment_of d h w in
    let joined : (47 ∷ (a ++ 47 ∷ [])) ++ s.segment ≡ 47 ∷ (a ++ 47 ∷ s.segment) =
      ap (λ r. 47 ∷ r) (append_assoc a (47 ∷ []) s.segment) in
    subst IsUndotted (sym (ap (prefix (47 ∷ (a ++ 47 ∷ []))) s.written ∙ ap some joined)) (
      without_dots-segments a s.segment l
        (all_mono is_uri_char is_inner uri_char-is_inner s.segment s.safe.0) p
        (segment-is_plain d s n))

digits-IsUndotted : (d : Text) → is_digits d ≡ true → IsUndotted (some (codes "/words/" ++ d))
digits-IsUndotted d h =
    without_dots-segments (codes "words") d refl
      (all_mono is_digit is_inner (λ c k. uri_char-is_inner c (digit-is_uri_char c k)) d
        (and_right (is_nonempty d) (all is_digit d) h))
      refl (plain_of is_digits d h refl refl)

slug-not_dots : (d : Text) → is_scenario_slug d ≡ true → is_dots d ≡ false
unfolding is_scenario_slug slug_from
slug-not_dots d h = has-without is_scenario_slug d (codes "." ∷ codes ".." ∷ []) h refl

route_for-IsUndotted :
    (v : AppView) (d : Option Text)
    → OptionIs IsNormalText d
    → OptionIs IsWritable d
    → has_dots v d ≡ false
    → IsUndotted (route_for v d)
unfolding route_for without_dots resolved split_on
route_for-IsUndotted AppView.home d h w n = refl
route_for-IsUndotted AppView.learn d h w n = refl
route_for-IsUndotted AppView.progress d h w n = refl
route_for-IsUndotted AppView.profile d h w n = refl
route_for-IsUndotted AppView.onboarding d h w n = refl
route_for-IsUndotted AppView.lesson none h w n =
    segment-IsUndotted (codes "lesson") (codes "active") refl refl active-IsNormalText
      active-IsWritable refl
route_for-IsUndotted AppView.lesson (some d) h w n =
    segment-IsUndotted (codes "lesson") d refl refl h w n
route_for-IsUndotted AppView.scenario none h w n = refl
route_for-IsUndotted AppView.scenario (some d) h w n = elim (Bool-cases (is_scenario_slug d)) [
  | inl slug ↦
      rw slug (segment-IsUndotted (codes "scenarios") d refl refl h w (slug-not_dots d slug))
  | inr k ↦ rw k refl
]
route_for-IsUndotted AppView.library none h w n = refl
route_for-IsUndotted AppView.library (some d) h w n = elim (Bool-cases (is_digits d)) [
  | inl digits ↦ rw digits (digits-IsUndotted d digits)
  | inr k ↦ rw k refl
]
route_for-IsUndotted AppView.phrases none h w n = refl
route_for-IsUndotted AppView.phrases (some d) h w n =
    segment-IsUndotted (codes "phrases") d refl refl h w n

-- The browser leaves the path of a target as it is, unless its detail is a directory's.
pub without_dots-route_for :
    (v : AppView) (d : Option Text) (path : Text)
    → OptionIs IsNormalText d
    → OptionIs IsWritable d
    → has_dots v d ≡ false
    → route_for v d ≡ some path
    → without_dots path ≡ path
without_dots-route_for v d path h w n e = subst IsUndotted e (route_for-IsUndotted v d h w n)
