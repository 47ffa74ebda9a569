-- ===== src/Auth/Cookie/Header.antt =====
-- Reading a cookie from the header that its name and value stand in.
use lexi_go.Common.{
  ◌≡◌, refl, ap, ◌∙◌, Bool, true, false, not, List, [], ◌∷◌, ◌++◌, Text, text_eq, ◌==◌,
  if◌then◌else◌, is_space, trim, trim_start, All,
}
use lexi_go.Common.Split.{split_on, lacks, split_on-lacks, split_on-append, join_with-split_on}
use lexi_go.Common.Decimal.{all-append}
use lexi_go.Common.Trim.{no_space, trim-no_space}
use lexi_go.Auth.Cookie.{part_value, value_in, cookie_value, decoded_or_empty}

-- A cookie as it stands in the header: no space, no semicolon, and no equals sign in the name.
pub record IsCookie (e : Text × Text) : Type 0 where
  pub name_space : no_space e.0 ≡ true
  pub name_end : lacks 59 e.0 ≡ true
  pub name_equals : lacks 61 e.0 ≡ true
  pub value_space : no_space e.1 ≡ true
  pub value_end : lacks 59 e.1 ≡ true

abbrev pub cookie_text : Text × Text → Text
cookie_text e = e.0 ++ 61 ∷ e.1

-- The header of a list of cookies: `name=value; name=value`.
abbrev pub header_of : List (Text × Text) → Text
header_of [] = []
header_of (e ∷ []) = cookie_text e
header_of (e ∷ f ∷ es) = cookie_text e ++ 59 ∷ 32 ∷ header_of (f ∷ es)

-- The value of the first cookie with the name, decoded.
abbrev pub first_value : Text → List (Text × Text) → Text
first_value name [] = []
first_value name (e ∷ es) = if text_eq e.0 name then decoded_or_empty e.1 else first_value name es

part_value-cookie :
    (name : Text) (e : Text × Text) (otherwise : Text)
    → IsCookie e
    → part_value name (split_on 61 (cookie_text e)) otherwise
      ≡ (if text_eq e.0 name then decoded_or_empty e.1 else otherwise)
part_value-cookie name e otherwise c =
    ap (λ ps. part_value name ps otherwise) (split_on-append 61 e.0 e.1 c.name_equals)
    ∙ ap (λ v. if text_eq e.0 name then decoded_or_empty v else otherwise)
        (join_with-split_on 61 e.1)

cookie_text-no_space : (e : Text × Text) → IsCookie e → no_space (cookie_text e) ≡ true
cookie_text-no_space e c =
    all-append (λ x. not (is_space x)) e.0 (61 ∷ e.1) c.name_space c.value_space

cookie_text-lacks : (e : Text × Text) → IsCookie e → lacks 59 (cookie_text e) ≡ true
cookie_text-lacks e c = all-append (λ x. not (x == 59)) e.0 (61 ∷ e.1) c.name_end c.value_end

trim-after_space : (s : Text) → trim (32 ∷ s) ≡ trim s
unfolding trim trim_start
trim-after_space s = refl

-- The parts of a header, the first of which has a space before it or not.
abbrev spaced : Bool → Text → Text
spaced true s = 32 ∷ s
spaced false s = s

trim-spaced : (b : Bool) (s : Text) → no_space s ≡ true → trim (spaced b s) ≡ s
trim-spaced true s h = trim-after_space s ∙ trim-no_space s h
trim-spaced false s h = trim-no_space s h

spaced-lacks : (b : Bool) (s : Text) → lacks 59 s ≡ true → lacks 59 (spaced b s) ≡ true
spaced-lacks true s h = h
spaced-lacks false s h = h

spaced-append : (b : Bool) (s t : Text) → spaced b (s ++ t) ≡ spaced b s ++ t
spaced-append true s t = refl
spaced-append false s t = refl

value_in-header :
    (name : Text) (b : Bool) (e : Text × Text) (es : List (Text × Text))
    → All IsCookie (e ∷ es)
    → value_in name (split_on 59 (spaced b (header_of (e ∷ es)))) ≡ first_value name (e ∷ es)
unfolding value_in
value_in-header name b e [] h =
    ap (value_in name) (
      split_on-lacks 59 (spaced b (cookie_text e))
        (spaced-lacks b (cookie_text e) (cookie_text-lacks e h.0)))
    ∙ ap (λ s. part_value name (split_on 61 s) [])
        (trim-spaced b (cookie_text e) (cookie_text-no_space e h.0))
    ∙ part_value-cookie name e [] h.0
value_in-header name b e (f ∷ es) h =
    ap (λ s. value_in name (split_on 59 s))
      (spaced-append b (cookie_text e) (59 ∷ 32 ∷ header_of (f ∷ es)))
    ∙ ap (value_in name) (
        split_on-append 59 (spaced b (cookie_text e)) (32 ∷ header_of (f ∷ es))
          (spaced-lacks b (cookie_text e) (cookie_text-lacks e h.0)))
    ∙ ap
        (λ s.
          part_value name (split_on 61 s) (value_in name (split_on 59 (32 ∷ header_of (f ∷ es)))))
        (trim-spaced b (cookie_text e) (cookie_text-no_space e h.0))
    ∙ ap (λ r. part_value name (split_on 61 (cookie_text e)) r) (value_in-header name true f es h.1)
    ∙ part_value-cookie name e (first_value name (f ∷ es)) h.0

empty_header : (name : Text) → text_eq [] name ≡ false → cookie_value [] name ≡ []
unfolding cookie_value trim trim_start
empty_header name n = rw n refl

-- On the header of any list of cookies, `cookieValue` gives the decoded value of the first cookie
-- with the name, and the empty text where there is none or it cannot be decoded.
pub cookie_value-header_of :
    (name : Text) (es : List (Text × Text))
    → All IsCookie es
    → text_eq [] name ≡ false
    → cookie_value (header_of es) name ≡ first_value name es
unfolding cookie_value
cookie_value-header_of name [] h n = empty_header name n
cookie_value-header_of name (e ∷ es) h n = value_in-header name false e es h
