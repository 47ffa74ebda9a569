-- ===== src/Json.antt =====
-- Values as `JSON.parse` returns them, and the guards that the frontend's decoders share
-- (`isRecord`, `isFiniteInteger` and their like in frontend/lib).
use lexi_go.Common.{
  ℕ, List, Bool, true, false, Option, none, some, Text, text_eq, leb, ltb, if◌then◌else◌,
}

-- `negsuc n` is -(n + 1).
pub data ℤ : Type 0 where
  pos : ℕ → ℤ
  negsuc : ℕ → ℤ

-- A JavaScript number: an integer, a fraction by its floor and a mark that tells the fractions
-- over one floor apart and orders them, an infinity (`infinite true` is -∞), or NaN.
pub data Number : Type 0 where
  int : ℤ → Number
  fraction : ℤ → ℕ → Number
  infinite : Bool → Number
  nan : Number

mutual
  pub data Value : Type 0 where
    undefined : Value
    null : Value
    bool : Bool → Value
    num : Number → Value
    str : Text → Value
    arr : Items → Value
    obj : Fields → Value

  pub data Items : Type 0 where
    nil : Items
    cons : Value → Items → Items

  pub data Fields : Type 0 where
    end : Fields
    field : Text → Value → Fields → Fields

-- `value.key`: `undefined` where the key is missing.
abbrev pub get_field : Text → Fields → Value
get_field k end = undefined
get_field k (field j v fs) = if text_eq j k then v else get_field k fs

abbrev pub is_undefined : Value → Bool
is_undefined undefined = true
is_undefined _ = false

-- 2 ^ 53 - 1, `Number.MAX_SAFE_INTEGER`.
abbrev pub max_safe_integer : ℕ
max_safe_integer = 9007199254740991

-- The integer of a value, if it is a number for which `Number.isSafeInteger` holds.
unfoldable pub safe_integer : Value → Option ℤ
safe_integer (num (int (pos n))) = if leb n max_safe_integer then some (pos n) else none
safe_integer (num (int (negsuc n))) = if ltb n max_safe_integer then some (negsuc n) else none
safe_integer _ = none

-- A text of `localStorage` or `sessionStorage`: what `JSON.stringify` writes of a value, which
-- `JSON.parse` reads back, or any other text, at which `JSON.parse` throws.
pub data Raw : Type 0 where
  plain : Text → Raw
  json : Value → Raw

abbrev pub Storage : Type 0
Storage = List (Text × Raw)
