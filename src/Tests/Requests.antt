-- ===== src/Tests/Requests.antt =====
-- Cookies and requests with a session at concrete inputs.
use lexi_go.Common.{◌≡◌, refl, Bool, true, none, some, List, [], ◌∷◌, Text, codes, trim, trim_start}
use lexi_go.Common.Uri.{decode_uri_component, tokens, read, hex_value}
use lexi_go.Json.{Value, obj, end}
use lexi_go.Auth.Session.{Session}
use lexi_go.Auth.Refresh.{RefreshReply, responded, success}
use lexi_go.Auth.Cookie.{cookie_value}
use lexi_go.Auth.Cookie.Header.{header_of, first_value, cookie_value-header_of}
use lexi_go.Auth.Request.{RequestInit, request_headers, authorized_json, json_end}
use lexi_go.Auth.Request.Tokens.{reached, authorized_json-server}
use lexi_go.Http.Failure.{decode_json}
use lexi_go.Tests.Auth.{session}

abbrev some_cookies : List (Text × Text)
some_cookies = (codes "theme", codes "dark") ∷ (codes "lexigo_csrf", codes "a%3Db=c") ∷ []

cookie_value-header_of_example :
    cookie_value (header_of some_cookies) (codes "lexigo_csrf")
    ≡ first_value (codes "lexigo_csrf") some_cookies
cookie_value-header_of_example =
    cookie_value-header_of (codes "lexigo_csrf") some_cookies
      (
        record {
          name_space = refl;
          name_end = refl;
          name_equals = refl;
          value_space = refl;
          value_end = refl;
        },
        (
          record {
            name_space = refl;
            name_end = refl;
            name_equals = refl;
            value_space = refl;
            value_end = refl;
          },
          tt,
        ),
      )
      refl

read_cookie :
    cookie_value (codes "theme=dark; lexigo_csrf=a%3Db=c") (codes "lexigo_csrf") ≡ codes "a=b=c"
unfolding cookie_value trim trim_start decode_uri_component tokens read hex_value
read_cookie = refl

abbrev an_init : RequestInit
an_init = record { method = some (codes "put"); headers = []; body = some (codes "{}") }

abbrev headers_sent : List (Text × Text)
headers_sent =
    (codes "accept", codes "application/json")
    ∷ (codes "content-type", codes "application/json")
    ∷ (codes "authorization", codes "Bearer t")
    ∷ (codes "x-csrf-token", codes "c")
    ∷ []

sent : request_headers an_init (codes "t") (codes "c") ≡ headers_sent
unfolding request_headers
sent = refl

abbrev a_reply : RefreshReply
a_reply =
    responded (record { status = 200; status_text = codes "OK"; body = some (obj end) }) none none
      none

abbrev old_session : Session
old_session = record session { tokens = record session.tokens { access_token = codes "old" } }

authorized_json-server_example :
    let accepts_all : Value → Bool = λ v. true in
    let here = reached (codes "/api/v1/me") an_init accepts_all (codes "t") a_reply (codes "c") in
    let e =
      authorized_json
        (codes "/api/v1/me")
        an_init
        accepts_all
        old_session
        here
        (success session)
        here in
    (e.result ≡ json_end (codes "/api/v1/me") accepts_all a_reply)
    × (e.active_session ≡ session)
    × (e.tokens ≡ codes "old" ∷ codes "t" ∷ [])
unfolding json_end decode_json
authorized_json-server_example =
    authorized_json-server (codes "/api/v1/me") an_init (λ v. true) (codes "t") a_reply old_session
      session (codes "c") (codes "c") refl refl refl refl
