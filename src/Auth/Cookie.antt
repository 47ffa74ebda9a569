-- ===== src/Auth/Cookie.antt =====
-- Cookies, the address of an expired session and the restore of a session, from
-- frontend/lib/auth-session.ts.
pub mod Header
use lexi_go.Common.{
  ℕ, Bool, true, false, ◌||◌, Option, none, some, List, [], ◌∷◌, ◌++◌, Text, codes, text_eq, ◌==◌,
  if◌then◌else◌, is_nonempty, starts_with, trim, get_or,
}
use lexi_go.Common.Split.{split_on, join_with}
use lexi_go.Common.Store.{delete}
use lexi_go.Common.Uri.{decode_uri_component}
use lexi_go.Json.{Storage}
use lexi_go.Auth.Refresh.{RefreshEnd, perform_refresh, restore_retry_delays_ms}
use lexi_go.Navigation.Url.{SearchParams, Params, set_param, Location}
use lexi_go.Navigation.Stored.{Faults}

abbrev pub decoded_or_empty : Text → Text
decoded_or_empty value = get_or (decode_uri_component value) []

-- `otherwise` is what the rest of the loop returns.
abbrev pub part_value : Text → List Text → Text → Text
part_value name [] otherwise = otherwise
part_value name (raw_name ∷ raw_value) otherwise =
    if text_eq raw_name name then decoded_or_empty (join_with 61 raw_value) else otherwise

unfoldable pub value_in : Text → List Text → Text
unfolding split_on
value_in name [] = []
value_in name (part ∷ parts) = part_value name (split_on 61 (trim part)) (value_in name parts)

unfoldable pub cookie_value : Text → Text → Text
unfolding value_in split_on
cookie_value header name = value_in name (split_on 59 header)

abbrev pub csrf_cookie_name : Text
csrf_cookie_name = codes "lexigo_csrf"

unfoldable pub csrf_token_from_cookie : Text → Text
unfolding cookie_value
csrf_token_from_cookie header = cookie_value header csrf_cookie_name

abbrev pub is_focused_authenticated_path : Text → Bool
is_focused_authenticated_path pathname =
    starts_with (codes "/lesson/") pathname || starts_with (codes "/scenarios/") pathname

abbrev pub expired_params : Text → Location → Params
expired_params reason current =
    if is_focused_authenticated_path current.pathname
    then set_param (codes "return_to") (current.pathname ++ current.search)
        ((codes "session", reason) ∷ [])
    else (codes "session", reason) ∷ []

-- The browser splits the current address in its parts.
unfoldable pub expired_session_url : SearchParams → Location → Text → Text
expired_session_url browser current reason =
    codes "/profile?" ++ browser.text (expired_params reason current)

abbrev pub legacy_session_key : Text
legacy_session_key = codes "lexigo.session.v1"

abbrev remove_legacy : Faults → Storage → Storage
remove_legacy faults storage =
    if faults.remove_item legacy_session_key then storage else delete legacy_session_key storage

-- `localStorage` and `sessionStorage`, each by itself.
unfoldable pub clear_legacy_auth_storage : Faults → Faults → Storage → Storage → Storage × Storage
clear_legacy_auth_storage local session local_storage session_storage =
    (remove_legacy local local_storage, remove_legacy session session_storage)

-- The two storages afterwards, and `none` where there is no CSRF cookie: then no request is made.
-- `attempts` are the ends of the attempts of one refresh.
unfoldable pub restore_session :
    Option (List ℕ)
    → Faults
    → Faults
    → Storage
    → Storage
    → Text
    → (ℕ → RefreshEnd)
    → (Storage × Storage) × Option RefreshEnd
unfolding csrf_token_from_cookie clear_legacy_auth_storage
restore_session retry_delays_ms local session local_storage session_storage header attempts = (
  clear_legacy_auth_storage local session local_storage session_storage,
  if is_nonempty (csrf_token_from_cookie header)
      then some (perform_refresh true (get_or retry_delays_ms restore_retry_delays_ms) attempts 0).0
      else none,
)
