-- ===== src/Auth/Request.antt =====
-- Requests with a session, from frontend/lib/authorized-json.ts. What `fetchWithTimeout` does with a
-- request is an argument, a function of the headers that it gets.
pub mod Tokens
use lexi_go.Common.{
  ℕ, ◌-◌, Bool, true, false, not, ◌&&◌, Option, none, some, List, [], ◌∷◌, ◌++◌, map, Text, codes,
  text_eq, leb, ◌==◌, if◌then◌else◌, is_nonempty, has, get_or,
}
use lexi_go.Common.Store.{put}
use lexi_go.Auth.Session.{Session}
use lexi_go.Auth.Refresh.{RefreshEnd, success, refresh_error, RefreshReply, threw, responded}
use lexi_go.Http.Failure.{
  RequestFailure, failure_from_response, decode_json, Decoded, decoded, refused, Thrown, failure,
}
use lexi_go.Http.Response.{Response, is_ok}
use lexi_go.Json.{Value}

-- A header's name is kept in lower case, as `Headers` does.
abbrev pub RequestHeaders : Type 0
RequestHeaders = List (Text × Text)

pub record RequestInit : Type 0 where
  pub method : Option Text
  pub headers : RequestHeaders
  pub body : Option Text

abbrev upper : ℕ → ℕ
upper c = if leb 97 c && leb c 122 then c - 32 else c

-- `(init.method ?? "GET").toUpperCase()`; methods are ASCII.
abbrev pub method_of : RequestInit → Text
method_of init = map upper (get_or init.method (codes "GET"))

abbrev safe_methods : List Text
safe_methods = codes "GET" ∷ codes "HEAD" ∷ codes "OPTIONS" ∷ []

abbrev pub set_when : Bool → Text → Text → RequestHeaders → RequestHeaders
set_when test name value headers = if test then put name value headers else headers

abbrev is_present : Option Text → Bool
is_present none = false
is_present (some body) = is_nonempty body

abbrev pub content_headers : RequestInit → RequestHeaders
content_headers init =
    set_when (is_present init.body) (codes "content-type") (codes "application/json")
      (put (codes "accept") (codes "application/json") init.headers)

abbrev pub with_token : Text → RequestHeaders → RequestHeaders
with_token token headers =
    set_when (is_nonempty token) (codes "authorization") (codes "Bearer " ++ token) headers

abbrev pub needs_csrf : RequestInit → Text → Bool
needs_csrf init csrf = not (has safe_methods (method_of init)) && is_nonempty csrf

-- `csrf` is what `csrfTokenFromCookie` reads; an empty token counts as missing.
unfoldable pub request_headers : RequestInit → Text → Text → RequestHeaders
request_headers init token csrf =
    set_when (needs_csrf init csrf) (codes "x-csrf-token") csrf
      (with_token token (content_headers init))

-- A value, `undefined` for a response without content, or what was thrown.
pub data JsonEnd : Type 0 where
  value : Value → JsonEnd
  no_content : JsonEnd
  failed : Thrown → JsonEnd

unfoldable pub decoded_end : Decoded → JsonEnd
decoded_end (decoded v) = value v
decoded_end (refused f) = failed (failure f)

unfoldable pub json_end : Text → (Value → Bool) → RefreshReply → JsonEnd
unfolding decoded_end
json_end path validator (threw t) = failed t
json_end path validator (responded r a b c) =
    if not (is_ok r)
    then failed (failure (failure_from_response r a b c))
    else if r.status == 204
    then no_content
    else decoded_end (decode_json r validator (path ++ codes " response"))

unfoldable pub request_json :
    Text → RequestInit → Text → Text → (Value → Bool) → (RequestHeaders → RefreshReply) → JsonEnd
unfolding json_end request_headers
request_json path init token csrf validator fetch =
    json_end path validator (fetch (request_headers init token csrf))

-- The data with the session that is active by then, or what was thrown; and the access tokens of
-- the requests that were made, in their order.
pub record AuthorizedEnd : Type 0 where
  pub active_session : Session
  pub result : JsonEnd
  pub tokens : List Text

abbrev pub token_of : Session → Text
token_of s = s.tokens.access_token

-- A failure of a request with the status 401.
abbrev pub is_unauthorized : JsonEnd → Bool
is_unauthorized (failed (failure f)) = f.status == 401
is_unauthorized _ = false

-- The second request has its own cookie and network.
pub record Circumstance : Type 0 where
  pub csrf : Text
  pub fetch : RequestHeaders → RefreshReply

module _ (path : Text) (init : RequestInit) (validator : Value → Bool) where
  abbrev pub request_with : Circumstance → Session → JsonEnd
  request_with c s = request_json path init (token_of s) c.csrf validator c.fetch

  abbrev pub after_refresh : Session → Circumstance → RefreshEnd → AuthorizedEnd
  after_refresh current second (success s) = record {
    active_session = s;
    result = request_with second s;
    tokens = token_of current ∷ token_of s ∷ [];
  }
  after_refresh current second (refresh_error e) = record {
    active_session = current;
    result = failed (failure e);
    tokens = token_of current ∷ [];
  }

  -- `refresh` is the end of `refreshSession`, if it is called.
  unfoldable pub authorized_json :
      Session → Circumstance → RefreshEnd → Circumstance → AuthorizedEnd
  unfolding request_json
  authorized_json current first refresh second =
      if is_unauthorized (request_with first current)
      then after_refresh current second refresh
      else record {
        active_session = current;
        result = request_with first current;
        tokens = token_of current ∷ [];
      }
