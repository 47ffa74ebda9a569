-- ===== src/Auth/Session.antt =====
-- The session types of frontend/lib/auth-session.ts, and `isSessionPayload`.
use lexi_go.Common.{
  Bool, true, false, Option, none, some, Text, codes, ltb, if◌then◌else◌, is_nonempty, trim,
}
use lexi_go.Json.{
  pos, negsuc, Number, int, fraction, infinite, nan, Value, num, str, obj, Fields, get_field,
}

pub record User : Type 0 where
  pub id : Text
  pub email : Text
  pub display_name : Text
  pub created_at : Text

pub record AccessTokens : Type 0 where
  pub access_token : Text
  pub token_type : Text
  pub expires_in : Number

pub record Session : Type 0 where
  pub user : User
  pub tokens : AccessTokens

infixl 5 ◌>>=◌
abbrev ◌>>=◌ {ℓ κ} : {A : Type ℓ} {B : Type κ} → Option A → (A → Option B) → Option B
none >>= f = none
some a >>= f = f a

abbrev text : Value → Option Text
text (str s) = some s
text _ = none

-- `isNonEmptyString`.
abbrev non_empty_text : Value → Option Text
non_empty_text (str s) = if is_nonempty (trim s) then some s else none
non_empty_text _ = none

abbrev fields : Value → Option Fields
fields (obj fs) = some fs
fields _ = none

-- A finite number above 0; a fraction is above its floor.
unfoldable pub is_positive : Number → Bool
is_positive (int (pos n)) = ltb 0 n
is_positive (int (negsuc n)) = false
is_positive (fraction (pos n) k) = true
is_positive (fraction (negsuc n) k) = false
is_positive (infinite b) = false
is_positive nan = false

abbrev positive_number : Value → Option Number
positive_number (num n) = if is_positive n then some n else none
positive_number _ = none

-- `is_date` says of which texts `Date.parse` makes a finite number.
module _ (is_date : Text → Bool) where
  abbrev date_text : Value → Option Text
  date_text v = do s ← non_empty_text v; if is_date s then some s else none

  -- The session of a payload that `isSessionPayload` accepts.
  unfoldable pub session_payload : Value → Option Session
  session_payload v = do
    fs ← fields v
    user ← fields (get_field (codes "user") fs)
    tokens ← fields (get_field (codes "tokens") fs)
    id ← non_empty_text (get_field (codes "id") user)
    email ← non_empty_text (get_field (codes "email") user)
    display_name ← text (get_field (codes "displayName") user)
    created_at ← date_text (get_field (codes "createdAt") user)
    access_token ← non_empty_text (get_field (codes "accessToken") tokens)
    token_type ← non_empty_text (get_field (codes "tokenType") tokens)
    expires_in ← positive_number (get_field (codes "expiresIn") tokens)
    some (record {
      user = record {
        id = id;
        email = email;
        display_name = display_name;
        created_at = created_at;
      };
      tokens = record {
        access_token = access_token;
        token_type = token_type;
        expires_in = expires_in;
      };
    })
