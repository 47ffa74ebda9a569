-- ===== src/Auth/Refresh.antt =====
-- The refresh of the session, from frontend/lib/auth-session.ts: one attempt, the loop of retries,
-- and the promise that concurrent callers share. The replies of the network are an argument.
pub mod Retry
pub mod Flight
use lexi_go.Common.{
  ℕ, suc, ◌+◌, ◌≤◌, ◌<◌, Bool, true, false, not, ◌&&◌, ◌||◌, Option, none, some, List, [], ◌∷◌,
  ◌++◌, Text, codes, text_eq, leb, ltb, ◌==◌, if◌then◌else◌, is_nonempty, is_some,
}
use lexi_go.Auth.Session.{Session, session_payload}
use lexi_go.Http.Failure.{
  RequestFailureKind, unauthorized, forbidden, offline, timeout, malformed, server, client, unknown,
  RequestFailure, failure_from_response, decode_json, decoded, refused, Decoded, Thrown,
  to_request_failure,
}
use lexi_go.Http.Response.{Response, is_ok}
use lexi_go.Json.{Value}

-- The end of a refresh: a session, or a `SessionRefreshError`.
pub data RefreshEnd : Type 0 where
  success : Session → RefreshEnd
  refresh_error : RequestFailure → RefreshEnd

-- The constructor of `SessionRefreshError`.
abbrev pub session_refresh_error : ℕ → Text → RequestFailureKind → Text → RequestFailure
session_refresh_error status message kind code = record {
  kind = kind;
  message = message;
  status = status;
  code = code;
  field = [];
  correlation_id = [];
}

abbrev is_transient_kind : RequestFailureKind → Bool
is_transient_kind offline = true
is_transient_kind timeout = true
is_transient_kind server = true
is_transient_kind unknown = true
is_transient_kind _ = false

abbrev pub is_conflict : RequestFailure → Bool
is_conflict e = text_eq e.code (codes "refresh_conflict")

unfoldable pub is_retryable_session_refresh_error : RequestFailure → Bool
is_retryable_session_refresh_error e = is_conflict e || is_transient_kind e.kind

abbrev is_rejecting_kind : RequestFailureKind → Bool
is_rejecting_kind unauthorized = true
is_rejecting_kind forbidden = true
is_rejecting_kind _ = false

unfoldable pub is_definitive_session_refresh_error : RequestFailure → Bool
is_definitive_session_refresh_error e = is_rejecting_kind e.kind

-- What `fetchWithTimeout` does with the request for a refresh, with the request-id headers.
pub data RefreshReply : Type 0 where
  threw : Thrown → RefreshReply
  responded : Response → Option Text → Option Text → Option Text → RefreshReply

abbrev default_code : Text
default_code = codes "session_refresh_failed"

module _ (is_date : Text → Bool) where
  abbrev session_or_fail : Response → Option Session → RefreshEnd
  session_or_fail r (some s) = success s
  session_or_fail r none =
      refresh_error
        (session_refresh_error r.status (codes "Session response") malformed default_code)

  decoded_end : Response → Decoded → RefreshEnd
  decoded_end r (decoded v) = session_or_fail r (session_payload is_date v)
  decoded_end r (refused f) =
      refresh_error (session_refresh_error r.status f.message f.kind default_code)

  reply_end : RefreshReply → RefreshEnd
  unfolding decoded_end
  reply_end (threw t) =
      let f = to_request_failure t in
      refresh_error (session_refresh_error f.status f.message f.kind f.code)
  reply_end (responded r a b c) =
      if not (is_ok r)
      then (let f = failure_from_response r a b c in
          refresh_error (session_refresh_error r.status f.message f.kind f.code))
      else decoded_end r
          (decode_json r (λ v. is_some (session_payload is_date v)) (codes "Session response"))

  unfoldable pub perform_refresh_attempt : Text → RefreshReply → RefreshEnd
  unfolding reply_end
  perform_refresh_attempt csrf reply =
      if not (is_nonempty csrf)
      then refresh_error
          (session_refresh_error 401 (codes "Session marker is missing") unauthorized default_code)
      else reply_end reply

unfoldable pub should_retry : Bool → RefreshEnd → Bool
should_retry transient (success s) = false
should_retry transient (refresh_error e) =
    is_retryable_session_refresh_error e && (is_conflict e || transient)

-- The loop over `attempt`, from the attempt `i` on, with the delays left; what it returns or throws,
-- and the delays that it has waited.
unfoldable pub perform_refresh : Bool → List ℕ → (ℕ → RefreshEnd) → ℕ → RefreshEnd × List ℕ
perform_refresh transient [] attempts i = (attempts i, [])
perform_refresh transient (d ∷ ds) attempts i =
    let rest = perform_refresh transient ds attempts (suc i) in
    if should_retry transient (attempts i) then (rest.0, d ∷ rest.1) else (attempts i, [])

abbrev pub conflict_retry_delays_ms : List ℕ
conflict_retry_delays_ms = 100 ∷ 300 ∷ []

abbrev pub restore_retry_delays_ms : List ℕ
restore_retry_delays_ms = 150 ∷ 500 ∷ 1500 ∷ []

-- The module's `activeRefresh`: the number of the refresh that runs; the refreshes started and the
-- sessions reported by the event are counted beside it.
pub record Refresher : Type 0 where
  pub active_refresh : Option ℕ
  pub started : ℕ
  pub reported : List Session

share_or_start : Option ℕ → Refresher → Refresher × ℕ
share_or_start (some p) m = (m, p)
share_or_start none m =
    (record m { active_refresh = some m.started; started = m.started + 1 }, m.started)

-- `refreshSession`: the refresh whose promise the caller gets.
unfoldable pub refresh_session : Refresher → Refresher × ℕ
unfolding share_or_start
refresh_session m = share_or_start m.active_refresh m

-- `then` and `finally` of the running refresh.
unfoldable pub settle_refresh : RefreshEnd → Refresher → Refresher
settle_refresh (success s) m = record m { active_refresh = none; reported = m.reported ++ s ∷ [] }
settle_refresh (refresh_error e) m = record m { active_refresh = none }

-- Where a caller is sent when its refresh ends: the reason of the redirect, if there is one.
unfoldable pub redirect_reason : Bool → RefreshEnd → Option Text
redirect_reason redirect (success s) = none
redirect_reason false (refresh_error e) = none
redirect_reason true (refresh_error e) = elim e.kind [
  | unauthorized ↦ some (codes "expired")
  | forbidden ↦ some (codes "forbidden")
  | _ ↦ none
]
