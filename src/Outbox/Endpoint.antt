-- ===== src/Outbox/Endpoint.antt =====
-- The review endpoint of frontend/lib/review-outbox.ts: `REVIEW_ENDPOINT_PATTERN` as a matcher, the
-- decoder over the pathname that `new URL(value, origin).pathname` gives, and the operation key.
pub mod Decoded
pub mod Key
use lexi_go.Common.{
  ℕ, zero, suc, ◌+◌, ◌-◌, ◌*◌, ◌≤◌, ◌<◌, Bool, true, false, not, ◌&&◌, ◌||◌, Option, none, some,
  List, [], ◌∷◌, ◌++◌, Text, codes, leb, ltb, ◌==◌, if◌then◌else◌, ◌≡◌, refl, length, arith, map,
}
use lexi_go.Common.Decimal.{is_digit, value, show}
use lexi_go.Json.{max_safe_integer}

pub record ReviewEndpoint : Type 0 where
  pub lesson_id : Text
  pub word_id : ℕ

-- `toLowerCase` on the characters of the pattern.
abbrev pub lower : ℕ → ℕ
lower c = if leb b'A' c && leb c b'Z' then c + 32 else c

-- A literal under the flag `i`: what follows it.
unfoldable pub strip : Text → Text → Option Text
strip [] s = some s
strip (c ∷ p) [] = none
strip (c ∷ p) (d ∷ s) = if lower c == lower d then strip p s else none

-- `[0-9a-f-]` under the flag `i`.
abbrev pub is_id_char : ℕ → Bool
is_id_char c = is_digit c || (leb b'a' (lower c) && leb (lower c) b'f') || (c == b'-')

-- `([0-9a-f-]{n})`: the group, and what follows it.
unfoldable pub take_id : ℕ → Text → Option (Text × Text)
take_id zero s = some ([], s)
take_id (suc n) [] = none
take_id (suc n) (c ∷ s) =
    if is_id_char c
    then elim (take_id n s) [ none ↦ none | some (g, rest) ↦ some (c ∷ g, rest) ]
    else none

-- `(\d*)`, as long as it can be: no digit can begin what the pattern wants next.
unfoldable pub take_digits : Text → Text × Text
take_digits [] = ([], [])
take_digits (c ∷ s) =
    if is_digit c then (let (g, rest) = take_digits s in (c ∷ g, rest)) else ([], c ∷ s)

-- `\/review\/?$`.
unfoldable pub ends_review : Text → Bool
ends_review s = elim (strip (codes "/review") s) [
  | none ↦ false
  | some rest ↦ elim rest [
    | [] ↦ true
    | c ∷ more ↦ (c == b'/') && elim more [ [] ↦ true | _ ∷ _ ↦ false ]
  ]
]

-- `(\d+)` wants a digit.
match_group : Text → Text × Text → Option (Text × Text)
match_group id ([], rest) = none
match_group id (c ∷ digits, rest) = if ends_review rest then some (id, c ∷ digits) else none

match_word : Text → Text → Option (Text × Text)
unfolding match_group
match_word id s = match_group id (take_digits s)

-- The pattern with its match at the start of the text: the two groups.
unfoldable pub match_here : Text → Option (Text × Text)
unfolding match_word
match_here s = elim (strip (codes "/api/v1/lessons/") s) [
  | none ↦ none
  | some after ↦ elim (take_id 36 after) [
    | none ↦ none
    | some (id, rest) ↦ elim (strip (codes "/words/") rest) [
      | none ↦ none
      | some word ↦ match_word id word
    ]
  ]
]

-- The pattern is not anchored on the left: the first place where it matches.
unfoldable pub match_endpoint : Text → Option (Text × Text)
match_endpoint [] = match_here []
match_endpoint (c ∷ s) = elim (match_here (c ∷ s)) [ none ↦ match_endpoint s | some m ↦ some m ]

-- Over the pathname; `none` for the pathname where `new URL` throws.
unfoldable pub parse_lesson_review_endpoint : Option Text → Option ReviewEndpoint
parse_lesson_review_endpoint none = none
parse_lesson_review_endpoint (some pathname) = elim (match_endpoint pathname) [
  | none ↦ none
  | some (id, digits) ↦
      if ltb 0 (value digits) && leb (value digits) max_safe_integer
      then some (record { lesson_id = map lower id; word_id = value digits })
      else none
]

unfoldable pub review_operation_key : Text → ReviewEndpoint → ℕ → Text
review_operation_key user_id endpoint lesson_version =
    ((user_id ++ b':' ∷ endpoint.lesson_id) ++ b':' ∷ show endpoint.word_id)
    ++ b':' ∷ show lesson_version
