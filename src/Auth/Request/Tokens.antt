-- ===== src/Auth/Request/Tokens.antt =====
-- Which token goes with which request.
use lexi_go.Common.{
  ◌≡◌, refl, ap, ◌∙◌, Bool, true, false, Option, none, some, [], ◌∷◌, ◌++◌, Text, codes, text_eq,
  text_eq_self, if◌then◌else◌, is_nonempty, Bool-cases, inl, inr,
}
use lexi_go.Common.Store.{get, get-put, get-put_self}
use lexi_go.Auth.Session.{Session}
use lexi_go.Auth.Refresh.{success, refresh_error, RefreshReply, responded}
use lexi_go.Http.Failure.{RequestFailure, failure, failure_from_response}
use lexi_go.Json.{Value}
use lexi_go.Auth.Request.{
  RequestHeaders, RequestInit, request_headers, set_when, content_headers, with_token, needs_csrf,
  failed, request_json, json_end, token_of, is_unauthorized, Circumstance, request_with,
  authorized_json,
}

-- The headers carry the access token, whatever the caller has put under that name.
get-set_when_other :
    (b : Bool) (name key v : Text) (h : RequestHeaders)
    → text_eq name key ≡ false
    → get key (set_when b name v h) ≡ get key h
get-set_when_other true name key v h e = get-put name key v h ∙ rw e refl
get-set_when_other false name key v h e = refl

get-with_token :
    (token : Text) (headers : RequestHeaders)
    → is_nonempty token ≡ true
    → get (codes "authorization") (with_token token headers) ≡ some (codes "Bearer " ++ token)
get-with_token token headers h =
    rw h (get-put_self (codes "authorization") (codes "Bearer " ++ token) headers)

pub get-request_headers :
    (init : RequestInit) (token csrf : Text)
    → is_nonempty token ≡ true
    → get (codes "authorization") (request_headers init token csrf)
      ≡ some (codes "Bearer " ++ token)
unfolding request_headers
get-request_headers init token csrf h =
    get-set_when_other (needs_csrf init csrf) (codes "x-csrf-token") (codes "authorization") csrf
      (with_token token (content_headers init)) refl
    ∙ get-with_token token (content_headers init) h

-- The reply of a server to a request that it does not accept.
abbrev pub unauthorized_reply : RefreshReply
unauthorized_reply =
    responded (record { status = 401; status_text = codes "Unauthorized"; body = none }) none none
      none

abbrev answer_to : Text → RefreshReply → Option Text → RefreshReply
answer_to live reply none = unauthorized_reply
answer_to live reply (some v) =
    if text_eq v (codes "Bearer " ++ live) then reply else unauthorized_reply

-- A server that accepts one access token.
abbrev pub server : Text → RefreshReply → RequestHeaders → RefreshReply
server live reply headers = answer_to live reply (get (codes "authorization") headers)

module _ (path : Text) (init : RequestInit) (validator : Value → Bool) (live : Text)
    (reply : RefreshReply) where
  abbrev pub reached : Text → Circumstance
  reached csrf = record { csrf = csrf; fetch = server live reply }

  request_with-server :
      (csrf : Text) (s : Session)
      → is_nonempty (token_of s) ≡ true
      → request_with path init validator (reached csrf) s
        ≡ json_end path validator (if text_eq (token_of s) live then reply else unauthorized_reply)
  unfolding request_json
  request_with-server csrf s h =
      ap (λ o. json_end path validator (answer_to live reply o))
        (get-request_headers init (token_of s) csrf h)

  unauthorized_end : is_unauthorized (json_end path validator unauthorized_reply) ≡ true
  unfolding json_end failure_from_response
  unauthorized_end = refl

  -- Against a server that accepts one access token, a request with an old session and a refresh that
  -- gets that token ends as the server's own reply does: at once where the session's token is
  -- accepted already, and else by a second request with the refreshed session, which is active then.
  pub authorized_json-server :
      (current s : Session) (csrf csrf' : Text)
      → is_nonempty (token_of current) ≡ true
      → is_nonempty live ≡ true
      → token_of s ≡ live
      → is_unauthorized (json_end path validator reply) ≡ false
      → let e =
          authorized_json path init validator current (reached csrf) (success s) (reached csrf') in
        let accepted = text_eq (token_of current) live in
        (e.result ≡ json_end path validator reply)
        × (e.active_session ≡ (if accepted then current else s))
        × (e.tokens
            ≡ (if accepted then token_of current ∷ [] else token_of current ∷ token_of s ∷ []))
  unfolding authorized_json
  authorized_json-server current s csrf csrf' h k own good =
      let first = request_with-server csrf current h in
      let second : request_with path init validator (reached csrf') s
          ≡ json_end path validator reply =
        request_with-server csrf' s (ap is_nonempty own ∙ k)
        ∙ ap (λ b. json_end path validator (if b then reply else unauthorized_reply))
            (ap (λ t. text_eq t live) own ∙ text_eq_self live) in
      elim (Bool-cases (text_eq (token_of current) live)) [
        | inl accepted ↦
            let e1 : request_with path init validator (reached csrf) current
                ≡ json_end path validator reply =
              first
              ∙ ap (λ b. json_end path validator (if b then reply else unauthorized_reply))
                  accepted in
            rw (e1, good, accepted) (refl, refl, refl)
        | inr other ↦
            let e1 : request_with path init validator (reached csrf) current
                ≡ json_end path validator unauthorized_reply =
              first
              ∙ ap (λ b. json_end path validator (if b then reply else unauthorized_reply)) other in
            rw (e1, unauthorized_end, other) (second, refl, refl)
      ]

  -- A refresh that fails ends the request, and no second one is made.
  pub authorized_json-refresh_error :
      (current : Session) (csrf : Text) (f : RequestFailure) (second : Circumstance)
      → is_nonempty (token_of current) ≡ true
      → text_eq (token_of current) live ≡ false
      → let e =
          authorized_json path init validator current (reached csrf) (refresh_error f) second in
        (e.result ≡ failed (failure f)) × (e.tokens ≡ token_of current ∷ [])
  unfolding authorized_json
  authorized_json-refresh_error current csrf f second h other =
      let e1 : request_with path init validator (reached csrf) current
          ≡ json_end path validator unauthorized_reply =
        request_with-server csrf current h
        ∙ ap (λ b. json_end path validator (if b then reply else unauthorized_reply)) other in
      rw (e1, unauthorized_end) (refl, refl)
