-- ===== src/Http/Response.antt =====
-- Responses and the replies of `fetch`, as the frontend reads them. The body is the JSON value that
-- it spells, `none` where it spells none.
use lexi_go.Common.{ℕ, Bool, ◌&&◌, Option, Text, leb, ltb}
use lexi_go.Json.{Value}

pub record Response : Type 0 where
  pub status : ℕ
  pub status_text : Text
  pub body : Option Value

-- `response.ok`.
abbrev pub is_ok : Response → Bool
is_ok r = leb 200 r.status && ltb r.status 300

-- The promise of `fetch`: it is fulfilled, or rejected with a message.
pub data Reply : Type 0 where
  answered : Response → Reply
  rejected : Text → Reply
