-- ===== src/Common/Uri.antt =====
-- `encodeURIComponent` and `decodeURIComponent` of the language, on texts of code units. `none` is
-- the `URIError` that they throw.
pub mod Round
pub mod Chars
pub mod Total
use lexi_go.Common.Lists.{all}
use lexi_go.Common.Texts.{Text, codes}
use lexi_go.Common.Tests.{◌==◌, ltb, leb, if◌then◌else◌}
use Prim.Native.Nat.{ℕ, zero, suc, ◌+◌, ◌-◌, ◌*◌, ◌/◌, ◌%◌}
use mathlib.Core.Bool.{Bool, true, false, not, ◌&&◌, ◌||◌}
use mathlib.Core.Option
use mathlib.Core.Option.{Option, none, some}
use mathlib.Core.List.{List, [], ◌∷◌, ◌++◌}

-- The characters that are written as they are.
abbrev pub is_unreserved : ℕ → Bool
is_unreserved c =
    (leb 65 c && leb c 90)
    || (leb 97 c && leb c 122)
    || (leb 48 c && leb c 57)
    || (c == 45)
    || (c == 95)
    || (c == 46)
    || (c == 33)
    || (c == 126)
    || (leb 39 c && leb c 42)

abbrev pub is_high : ℕ → Bool
is_high c = leb 55296 c && leb c 56319

abbrev pub is_low : ℕ → Bool
is_low c = leb 56320 c && leb c 57343

-- The code point of a pair of surrogates.
abbrev pub combine : ℕ → ℕ → ℕ
combine h l = 65536 + (h - 55296) * 1024 + (l - 56320)

abbrev pub units : ℕ → Text
units c =
    if ltb c 65536 then c ∷ [] else (55296 + (c - 65536) / 1024) ∷ (56320 + (c - 65536) % 1024) ∷ []

-- UTF-8.
abbrev pub utf8 : ℕ → List ℕ
utf8 c =
    if ltb c 128
    then c ∷ []
    else if ltb c 2048
    then (192 + c / 64) ∷ (128 + c % 64) ∷ []
    else if ltb c 65536
    then (224 + c / 4096) ∷ (128 + c / 64 % 64) ∷ (128 + c % 64) ∷ []
    else (240 + c / 262144) ∷ (128 + c / 4096 % 64) ∷ (128 + c / 64 % 64) ∷ (128 + c % 64) ∷ []

abbrev pub hex : ℕ → ℕ
hex n = if ltb n 10 then 48 + n else 55 + n

abbrev pub escape : List ℕ → Text
escape [] = []
escape (b ∷ bs) = 37 ∷ hex (b / 16) ∷ hex (b % 16) ∷ escape bs

abbrev pub prefix : Text → Option Text → Option Text
prefix s none = none
prefix s (some t) = some (s ++ t)

-- The first argument is a high surrogate that waits for the low one.
unfoldable pub encode_from : Option ℕ → Text → Option Text
encode_from none [] = some []
encode_from (some h) [] = none
encode_from none (c ∷ s) =
    let rest = encode_from none s in
    let paired = encode_from (some c) s in
    if is_unreserved c
    then prefix (c ∷ []) rest
    else if is_low c
    then none
    else if is_high c
    then paired
    else prefix (escape (utf8 c)) rest
encode_from (some h) (c ∷ s) =
    let rest = encode_from none s in
    if is_low c then prefix (escape (utf8 (combine h c))) rest else none

unfoldable pub encode_uri_component : Text → Option Text
unfolding encode_from
encode_uri_component s = encode_from none s

unfoldable pub hex_value : ℕ → Option ℕ
hex_value c =
    if leb 48 c && leb c 57
    then some (c - 48)
    else if leb 65 c && leb c 70
    then some (c - 55)
    else if leb 97 c && leb c 102
    then some (c - 87)
    else none

-- A character as it stands, or the byte of an escape.
pub data Token : Type 0 where
  plain : ℕ → Token
  byte : ℕ → Token

-- What has been read of an escape: nothing, the percent sign, or its first digit too.
pub data Pending : Type 0 where
  idle : Pending
  percent : Pending
  digit : ℕ → Pending

abbrev pub push_token : Token → Option (List Token) → Option (List Token)
push_token t none = none
push_token t (some ts) = some (t ∷ ts)

unfoldable pub tokens : Pending → Text → Option (List Token)
tokens idle [] = some []
tokens percent [] = none
tokens (digit h) [] = none
tokens idle (c ∷ s) =
    let escaped = tokens percent s in
    let rest = tokens idle s in if c == 37 then escaped else push_token (plain c) rest
tokens percent (c ∷ s) = elim (hex_value c) [ none ↦ none | some h ↦ tokens (digit h) s ]
tokens (digit h) (c ∷ s) = elim (hex_value c) [
  | none ↦ none
  | some l ↦ push_token (byte (16 * h + l)) (tokens idle s)
]

-- The bytes still missing of a code point, less one, its bits so far, and the least code point that
-- needs as many bytes.
pub data Expect : Type 0 where
  ready : Expect
  more : ℕ → ℕ → ℕ → Expect

abbrev pub is_continuation : ℕ → Bool
is_continuation b = leb 128 b && ltb b 192

abbrev pub is_scalar : ℕ → ℕ → Bool
is_scalar low c = leb low c && ltb c 1114112 && not (leb 55296 c && leb c 57343)

unfoldable pub read : Expect → List Token → Option Text
read ready [] = some []
read (more n v low) [] = none
read ready (plain c ∷ ts) = prefix (c ∷ []) (read ready ts)
read (more n v low) (plain c ∷ ts) = none
read ready (byte b ∷ ts) =
    let one = read ready ts in
    let two = read (more 0 (b - 192) 128) ts in
    let three = read (more 1 (b - 224) 2048) ts in
    let four = read (more 2 (b - 240) 65536) ts in
    if ltb b 128
    then prefix (b ∷ []) one
    else if ltb b 192
    then none
    else if ltb b 224
    then two
    else if ltb b 240
    then three
    else if ltb b 248
    then four
    else none
read (more zero v low) (byte b ∷ ts) =
    let rest = read ready ts in
    let c = v * 64 + (b - 128) in
    if is_continuation b && is_scalar low c then prefix (units c) rest else none
read (more (suc n) v low) (byte b ∷ ts) =
    let rest = read (more n (v * 64 + (b - 128)) low) ts in if is_continuation b then rest else none

abbrev pub read_tokens : Option (List Token) → Option Text
read_tokens none = none
read_tokens (some ts) = read ready ts

unfoldable pub decode_uri_component : Text → Option Text
unfolding tokens read
decode_uri_component s = read_tokens (tokens idle s)
