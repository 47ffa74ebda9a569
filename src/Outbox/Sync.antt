-- ===== src/Outbox/Sync.antt =====
-- The synchronisation of frontend/components/review-outbox-runtime.tsx: `syncPendingReviews` with
-- `refreshSummary` and `sendQueuedReview`. What the network, the store and the clock answer is an
-- argument; the records of one run are handled one after another, as its `for` loop awaits them.
pub mod Handled
pub mod Order
pub mod Acknowledged
use lexi_go.Common.{
  ℕ, suc, ◌+◌, ◌≤◌, ◌<◌, Bool, true, false, not, ◌&&◌, ◌||◌, Option, none, some, List, [], ◌∷◌,
  ◌++◌, Text, codes, text_eq, leb, ltb, ◌==◌, if◌then◌else◌, filter, is_nonempty, is_some,
}
use lexi_go.Common.Decimal.{show}
use lexi_go.Auth.Session.{Session}
use lexi_go.Http.Response.{Response, Reply, answered, rejected}
use lexi_go.Json.{Value, undefined, null, bool, num, str, arr, obj, Fields, get_field}
use lexi_go.Outbox.Payload.{LessonReviewPayload}
use lexi_go.Outbox.Queue.{
  ReviewStore, Changes, update_lesson_review, list_lesson_reviews, review_outbox_summary,
  empty_summary, prune_synced_lesson_reviews,
}
use lexi_go.Outbox.Queue.Listing.{is_pending}
use lexi_go.Outbox.Record.{
  ReviewOutboxState, pending, failed, synced, ReviewOutboxRecord, ReviewOutboxSummary,
  ReviewResponseDisposition, retry, refresh_session, review_response_disposition,
}

pub record ErrorPayload : Type 0 where
  pub code : Text
  pub message : Text

abbrev text_or : Value → Text → Text
text_or (str s) d = s
text_or _ d = d

abbrev error_source : Fields → Value → Fields
error_source fs (obj nested) = nested
error_source fs _ = fs

abbrev http_code : ℕ → Text
http_code status = codes "http_" ++ show status

error_of_body : Response → Option Value → ErrorPayload
error_of_body r (some (obj fs)) =
    let source = error_source fs (get_field (codes "error") fs) in
    record {
      code = text_or (get_field (codes "code") source) (http_code r.status);
      message = text_or (get_field (codes "message") source) r.status_text;
    }
error_of_body r _ = record { code = http_code r.status; message = r.status_text }

unfoldable pub response_error : Response → ErrorPayload
unfolding error_of_body
response_error r = error_of_body r r.body

-- A request as `sendQueuedReview` makes it: the headers that vary, and the body.
pub record QueuedRequest : Type 0 where
  pub endpoint : Text
  pub authorization : Text
  pub idempotency_key : Text
  pub csrf_token : Option Text
  pub body : LessonReviewPayload

abbrev pub queued_request : Text → ReviewOutboxRecord → Session → QueuedRequest
queued_request csrf r session = record {
  endpoint = r.endpoint;
  authorization = codes "Bearer " ++ session.tokens.access_token;
  idempotency_key = r.idempotency_key;
  csrf_token = if is_nonempty csrf then some csrf else none;
  body = r.request_body;
}

-- `refreshSession({ redirectOnInvalid: false })`.
pub data Refreshed : Type 0 where
  refreshed : Session → Refreshed
  refresh_failed : Text → Refreshed

-- What happens around one record: the reply to its request, the refresh and the second reply where
-- the code asks for them, whether the store takes the update, and the time of the update.
pub record Attempt : Type 0 where
  pub csrf : Text
  pub first : Reply
  pub refresh : Refreshed
  pub second : Reply
  pub stored : Bool
  pub now : ℕ

-- The variables of the loop, with the requests sent so far.
pub record Progress : Type 0 where
  pub store : ReviewStore
  pub session_ref : Option Session
  pub active_user_id : Text
  pub active_session : Session
  pub synchronized : ℕ
  pub requests : List QueuedRequest

abbrev pub sent : Text → ReviewOutboxRecord → Progress → Progress
sent csrf r p = record p { requests = p.requests ++ queued_request csrf r p.active_session ∷ [] }

abbrev pub settled : ReviewOutboxRecord → ReviewOutboxState → ErrorPayload → Changes
settled r status e = record {
  status = some status;
  attempts = some (r.attempts + 1);
  last_error_code = some e.code;
  last_error_message = some e.message;
}

-- `await updateLessonReview(…)`; the second part is false where it throws, which ends the loop.
unfoldable pub written : ReviewOutboxRecord → Changes → Attempt → Progress → Progress × Bool
written r c a p =
    if a.stored
    then (record p { store = (update_lesson_review r.operation_key c a.now p.store).0 }, true)
    else (p, false)

abbrev pub no_error : ErrorPayload
no_error = record { code = []; message = [] }

abbrev pub count_synchronized : Progress × Bool → Progress × Bool
count_synchronized (p, true) = (record p { synchronized = p.synchronized + 1 }, true)
count_synchronized (p, false) = (p, false)

-- `break` after an update, whether or not the update throws.
abbrev pub stop : Progress × Bool → Progress × Bool
stop (p, b) = (p, false)

settle_as :
    ReviewResponseDisposition → ReviewOutboxRecord → Attempt → Response → Progress → Progress × Bool
unfolding written
settle_as ReviewResponseDisposition.synced r a response p =
    count_synchronized (written r (settled r synced no_error) a p)
settle_as ReviewResponseDisposition.failed r a response p =
    stop (written r (settled r failed (response_error response)) a p)
settle_as _ r a response p = stop (written r (settled r pending (response_error response)) a p)

-- The rest of the loop's body once there is a response; the second part says whether the loop goes on.
unfoldable pub settle : ReviewOutboxRecord → Attempt → Response → Progress → Progress × Bool
unfolding settle_as
settle r a response p = settle_as (review_response_disposition response.status) r a response p

-- The `catch` of the session refresh.
unfoldable pub refresh_error : ReviewOutboxRecord → Attempt → Text → Progress → Progress × Bool
unfolding written
refresh_error r a message p = stop (
    written r
      (settled r pending (record { code = codes "session_refresh_failed"; message = message })) a p)

second_reply : ReviewOutboxRecord → Attempt → Reply → Progress → Progress × Bool
unfolding settle refresh_error
second_reply r a (answered response) p = settle r a response p
second_reply r a (rejected message) p = refresh_error r a message p

abbrev pub adopted : Session → Progress → Progress
adopted s p = record p { active_session = s; session_ref = some s; active_user_id = s.user.id }

-- The branch of the status 401.
unfoldable pub after_refresh : ReviewOutboxRecord → Attempt → Refreshed → Progress → Progress × Bool
unfolding second_reply refresh_error
after_refresh r a (refresh_failed message) p = refresh_error r a message p
after_refresh r a (refreshed s) p =
    let p' = adopted s p in
    if not (text_eq s.user.id r.user_id)
    then (p', false)
    else second_reply r a a.second (sent a.csrf r p')

first_reply : ReviewOutboxRecord → Attempt → Reply → Progress → Progress × Bool
unfolding after_refresh settle
first_reply r a (rejected message) p = (p, false)
first_reply r a (answered response) p =
    if response.status == 401 then after_refresh r a a.refresh p else settle r a response p

-- The body of `for (const record of records)`.
unfoldable pub sync_record : ReviewOutboxRecord → Attempt → Progress → Progress × Bool
unfolding first_reply
sync_record r a p = first_reply r a a.first (sent a.csrf r p)

-- The loop. It rests where nothing more is known of the environment.
unfoldable pub sync_loop : List ReviewOutboxRecord → List Attempt → Progress → Progress
sync_loop [] attempts p = p
sync_loop (r ∷ rs) [] p = p
sync_loop (r ∷ rs) (a ∷ attempts) p =
    let next = sync_record r a p in
    let rest = sync_loop rs attempts next.0 in if next.1 then rest else next.0
