-- ===== src/Outbox/Endpoint/Decoded.antt =====
-- What the endpoint decoder returns, and the paths that it reads back.
use lexi_go.Common.{
  ℕ, zero, suc, ◌≤◌, ◌<◌, Bool, true, false, ◌&&◌, ◌||◌, Option, none, some, [], ◌∷◌, ◌++◌, Text,
  codes, leb, ltb, ◌==◌, ◌≡◌, refl, length, arith, map, all, Bool-cases, Option-cases, inl, inr,
}
use lexi_go.Common.Decimal.{is_digit, value, show, value-show, all-show, show-cons}
use lexi_go.Json.{max_safe_integer}
use lexi_go.Outbox.Endpoint.{
  ReviewEndpoint, lower, strip, is_id_char, take_id, take_digits, ends_review, match_word,
  match_here, match_endpoint, parse_lesson_review_endpoint,
}

-- A lesson id as the decoder returns it: 36 characters of `[0-9a-f-]`, in lower case.
abbrev is_lower_id_char : ℕ → Bool
is_lower_id_char c = is_digit c || (leb b'a' c && leb c b'f') || (c == b'-')

pub record IsLessonId (id : Text) : Type 0 where
  pub size : length id ≡ 36
  pub chars : all is_lower_id_char id ≡ true

lower-id_char : (c : ℕ) → is_id_char c ≡ true → is_lower_id_char (lower c) ≡ true
lower-id_char c h = ground arith

take_id-lower :
    (n : ℕ) (s : Text) {g rest : Text}
    → take_id n s ≡ some (g, rest)
    → (length (map lower g) ≡ n) × (all is_lower_id_char (map lower g) ≡ true)
unfolding take_id
take_id-lower zero s {g} {rest} h = ground arith
take_id-lower (suc n) [] h = absurd (ground arith)
take_id-lower (suc n) (c ∷ s) {g} {rest} h = elim (Bool-cases (is_id_char c)) [
  | inr e ↦ absurd (ground arith)
  | inl e ↦ elim (Option-cases (take_id n s)) [
    | inl f ↦ absurd (ground arith)
    | inr ((g', r'), f) ↦
        let here : c ∷ g' ≡ g = ground arith in
        let (size, chars) = take_id-lower n s f in
        rw (← here) (omega arith, ground (arith, lower-id_char c))
  ]
]

match_here-IsLessonId :
    (s : Text) {id digits : Text} → match_here s ≡ some (id, digits) → IsLessonId (map lower id)
unfolding match_here match_word
match_here-IsLessonId s {id} {digits} h = elim (Option-cases (strip (codes "/api/v1/lessons/") s)) [
  | inl e ↦ absurd (ground arith)
  | inr (after, e) ↦ elim (Option-cases (take_id 36 after)) [
    | inl f ↦ absurd (ground arith)
    | inr ((g, rest), f) ↦ elim (Option-cases (strip (codes "/words/") rest)) [
      | inl k ↦ absurd (ground arith)
      | inr (word, k) ↦
          let here : g ≡ id = ground arith in
          let (size, chars) = take_id-lower 36 after f in
          rw (← here) (record { size = size; chars = chars })
    ]
  ]
]

match_endpoint-IsLessonId :
    (s : Text) {id digits : Text} → match_endpoint s ≡ some (id, digits) → IsLessonId (map lower id)
unfolding match_endpoint
match_endpoint-IsLessonId [] h = match_here-IsLessonId [] h
match_endpoint-IsLessonId (c ∷ s) {id} {digits} h = elim (Option-cases (match_here (c ∷ s))) [
  | inl e ↦ match_endpoint-IsLessonId s {digits = digits} (ground arith)
  | inr (m, e) ↦ match_here-IsLessonId (c ∷ s) {digits = digits} (ground arith)
]

-- An endpoint that is decoded has a lesson id of 36 lower-case characters of `[0-9a-f-]`, and a
-- positive word id in the range of the safe integers.
pub parse_lesson_review_endpoint-bounds :
    (pathname : Option Text) (e : ReviewEndpoint)
    → parse_lesson_review_endpoint pathname ≡ some e
    → IsLessonId e.lesson_id × (0 < e.word_id) × (e.word_id ≤ max_safe_integer)
unfolding parse_lesson_review_endpoint
parse_lesson_review_endpoint-bounds none e h = absurd (ground arith)
parse_lesson_review_endpoint-bounds (some path) e h = elim (Option-cases (match_endpoint path)) [
  | inl f ↦ absurd (ground arith)
  | inr ((id, digits), f) ↦
      let is_id = match_endpoint-IsLessonId path f in
      elim (Bool-cases (ltb 0 (value digits) && leb (value digits) max_safe_integer)) [
        | inr t ↦ absurd (ground arith)
        | inl t ↦
            let here : record { lesson_id = map lower id; word_id = value digits } ≡ e =
              ground arith in
            rw (← here) (is_id, ground arith, ground arith)
      ]
]

take_id-append :
    (id rest : Text)
    → all is_lower_id_char id ≡ true
    → take_id (length id) (id ++ rest) ≡ some (id, rest)
unfolding take_id
take_id-append [] rest h = refl
take_id-append (c ∷ id) rest h = ground (arith, take_id-append id rest)

take_digits-append :
    (s : Text) (c : ℕ) (rest : Text)
    → all is_digit s ≡ true
    → is_digit c ≡ false
    → take_digits (s ++ c ∷ rest) ≡ (s, c ∷ rest)
unfolding take_digits
take_digits-append [] c rest h k = ground arith
take_digits-append (d ∷ s) c rest h k = ground (arith, take_digits-append s c rest)

map-lower : (id : Text) → all is_lower_id_char id ≡ true → map lower id ≡ id
map-lower [] h = refl
map-lower (c ∷ id) h = ground (arith, map-lower id)

-- The path that the client writes for a review.
abbrev pub review_path : Text → ℕ → Text
review_path id word =
    codes "/api/v1/lessons/" ++ (id ++ (codes "/words/" ++ (show word ++ codes "/review")))

match_word-review :
    (id : Text) (word : ℕ) → match_word id (show word ++ codes "/review") ≡ some (id, show word)
unfolding match_word ends_review strip
match_word-review id word =
    let (d, t, e) = show-cons word in
    rw (take_digits-append (show word) b'/' (codes "review") (all-show word) refl, e) refl

match_here-review_path :
    (id : Text) (word : ℕ) → IsLessonId id → match_here (review_path id word) ≡ some (id, show word)
unfolding match_here strip
match_here-review_path id word v =
    let rest = codes "/words/" ++ (show word ++ codes "/review") in
    let taken : take_id 36 (id ++ rest) ≡ some (id, rest) =
      rw (v.size) at (take_id-append id rest v.chars) in
    rw (taken, match_here) (match_word-review id word)

match_review_path :
    (id : Text) (word : ℕ)
    → IsLessonId id
    → match_endpoint (review_path id word) ≡ some (id, show word)
unfolding match_endpoint
match_review_path id word v = rw (match_here-review_path id word v, match_endpoint) refl

-- The path of a review, with a lesson id of 36 lower-case characters and a positive safe word id,
-- is decoded to that lesson and that word.
pub parse-review_path :
    (id : Text) (word : ℕ)
    → IsLessonId id
    → 0 < word
    → word ≤ max_safe_integer
    → parse_lesson_review_endpoint (some (review_path id word))
      ≡ some (record { lesson_id = id; word_id = word })
unfolding parse_lesson_review_endpoint
parse-review_path id word v h k =
    rw (match_review_path id word v, parse_lesson_review_endpoint)
      (ground (arith, value-show word, map-lower id v.chars))
