-- ===== src/Navigation/Path/Segments.antt =====
-- Paths that end in a segment which `encodeURIComponent` writes: they are normal and are read back.
use lexi_go.Common.{
  ℕ, ◌≡◌, refl, ap, ◌∙◌, Bool, true, not, some, [], ◌∷◌, ◌++◌, Text, codes, text_eq, ◌==◌,
  is_nonempty, all, is_space, trim, get_or, arith, Bool-cases, inl, inr,
}
use lexi_go.Common.Decimal.{is_digit, all-append}
use lexi_go.Common.Trim.{no_space, trim-no_space, true-ne-false}
use lexi_go.Common.Uri.{encode_uri_component}
use lexi_go.Common.Uri.Round.{decode-encode_uri_component}
use lexi_go.Common.Uri.Chars.{is_uri_char, IsSafe, encode_uri_component-IsSafe}
use lexi_go.Common.Uri.Total.{IsWritable, encode_uri_component_total}
use lexi_go.Navigation.Target.{normalized_string}
use lexi_go.Navigation.Target.Normal.{IsNormalText, normalized_string-eq}
use lexi_go.Navigation.Path.{
  strip_slashes, normalize_pathname, safe_decode_path_segment, encoded_path_segment, is_segment,
  decoded, or_root,
}

module _ (p q : ℕ → Bool) (step : (c : ℕ) → p c ≡ true → q c ≡ true) where
  pub all_mono : (s : Text) → all p s ≡ true → all q s ≡ true
  all_mono [] h = refl
  all_mono (c ∷ s) h = elim (Bool-cases (p c)) [
    | inl now ↦ rw (step c now) (all_mono s (rw now at h))
    | inr not_now ↦ absurd (true-ne-false (rw not_now at h))
  ]

abbrev pub is_inner : ℕ → Bool
is_inner c = not (c == 47)

uri_char-not_space : (c : ℕ) → is_uri_char c ≡ true → not (is_space c) ≡ true
uri_char-not_space c h = ground arith

pub uri_char-is_inner : (c : ℕ) → is_uri_char c ≡ true → is_inner c ≡ true
uri_char-is_inner c h = ground arith

pub uri_char-not_query : (c : ℕ) → is_uri_char c ≡ true → not (c == 63) ≡ true
uri_char-not_query c h = ground arith

-- No character is a question mark.
abbrev pub no_query : Text → Bool
no_query s = all (λ c. not (c == 63)) s

pub no_query-route : (p s : Text) → no_query p ≡ true → IsSafe s → no_query (p ++ s) ≡ true
no_query-route p s clean safe =
    all-append (λ c. not (c == 63)) p s clean
      (all_mono is_uri_char (λ c. not (c == 63)) uri_char-not_query s safe.0)

pub digit-is_uri_char : (c : ℕ) → is_digit c ≡ true → is_uri_char c ≡ true
digit-is_uri_char c h = ground arith

nonempty-append : (p s : Text) → is_nonempty s ≡ true → is_nonempty (p ++ s) ≡ true
nonempty-append [] s h = h
nonempty-append (c ∷ p) s h = refl

strip_slashes-inner : (s : Text) → all is_inner s ≡ true → strip_slashes s ≡ s
unfolding strip_slashes
strip_slashes-inner [] h = refl
strip_slashes-inner (c ∷ s) h = elim (Bool-cases (c == 47)) [
  | inl slash ↦ absurd (true-ne-false (rw slash at h))
  | inr k ↦ rw k (ap (λ r. c ∷ r) (strip_slashes-inner s (rw k at h)))
]

strip_slashes-append :
    (p s : Text) → is_nonempty s ≡ true → strip_slashes s ≡ s → strip_slashes (p ++ s) ≡ p ++ s
unfolding strip_slashes
strip_slashes-append [] s n h = h
strip_slashes-append (c ∷ p) s n h = elim (Bool-cases (c == 47)) [
  | inl slash ↦ rw (slash, strip_slashes-append p s n h, nonempty-append p s n) refl
  | inr k ↦ rw (k, strip_slashes-append p s n h) refl
]

or_root-nonempty : (s : Text) → is_nonempty s ≡ true → or_root s ≡ s
or_root-nonempty [] h = absurd (true-ne-false h)
or_root-nonempty (c ∷ s) h = refl

no_space-append : (p s : Text) → no_space p ≡ true → no_space s ≡ true → no_space (p ++ s) ≡ true
no_space-append p s h k = all-append (λ c. not (is_space c)) p s h k

-- A path that ends in a segment which `encodeURIComponent` writes is normal.
module _ (p s : Text) (clean : no_space p ≡ true) (safe : IsSafe s) where
  pub normalize_pathname-route : normalize_pathname (p ++ s) ≡ p ++ s
  unfolding normalize_pathname
  normalize_pathname-route =
      let trimmed : trim (p ++ s) ≡ p ++ s = trim-no_space (p ++ s) (
        no_space-append p s clean
          (all_mono is_uri_char (λ c. not (is_space c)) uri_char-not_space s safe.0)) in
      let full : is_nonempty (p ++ s) ≡ true = nonempty-append p s safe.1 in
      let stripped : strip_slashes (p ++ s) ≡ p ++ s =
        strip_slashes-append p s safe.1
          (strip_slashes-inner s (all_mono is_uri_char is_inner uri_char-is_inner s safe.0)) in
      elim (Bool-cases (text_eq (p ++ s) (codes "/"))) [
        | inl root ↦ rw (trimmed, or_root-nonempty (p ++ s) full, root) refl
        | inr k ↦
            rw (trimmed, or_root-nonempty (p ++ s) full, k, stripped)
              (or_root-nonempty (p ++ s) full)
      ]

pub is_segment-safe : (s : Text) → IsSafe s → is_segment s ≡ true
is_segment-safe s safe = rw (safe.1, all_mono is_uri_char is_inner uri_char-is_inner s safe.0) refl

encoded_path_segment-eq :
    (d : Text) → IsNormalText d → encoded_path_segment d ≡ encode_uri_component d
unfolding encoded_path_segment
encoded_path_segment-eq d h = rw (normalized_string-eq d h) refl

-- The segment that a detail becomes.
pub record SegmentOf (d : Text) : Type 0 where
  pub segment : Text
  pub written : encoded_path_segment d ≡ some segment
  pub safe : IsSafe segment
  pub raw : safe_decode_path_segment segment ≡ d
  pub read_back : decoded segment ≡ some d

pub segment_of : (d : Text) → IsNormalText d → IsWritable d → SegmentOf d
unfolding safe_decode_path_segment
segment_of d h w =
    let (t, e) = encode_uri_component_total d w.1 in
    record {
      segment = t;
      written = encoded_path_segment-eq d h ∙ e;
      safe = encode_uri_component-IsSafe d t w.0 h.nonempty e;
      raw = ap (λ o. get_or o []) (decode-encode_uri_component d t w.0 e);
      read_back =
          ap (λ o. normalized_string (get_or o [])) (decode-encode_uri_component d t w.0 e)
          ∙ normalized_string-eq d h;
    }
