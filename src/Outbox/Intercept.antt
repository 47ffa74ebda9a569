-- ===== src/Outbox/Intercept.antt =====
-- The intercepted `fetch` of frontend/components/review-outbox-runtime.tsx for the review of a word:
-- the review is stored before it is sent. What the store, the network and the clock answer is an
-- argument; a prune that the store refuses is one at the time 0, which removes nothing. The other
-- branches of the interception pass the request on, or follow the session.
pub mod Kept
use lexi_go.Common.{
  ℕ, ◌+◌, Bool, true, false, not, ◌&&◌, ◌||◌, Option, none, some, List, [], ◌∷◌, Text, codes,
  text_eq, ◌==◌, if◌then◌else◌, is_nonempty, is_some,
}
use lexi_go.Auth.Session.{Session}
use lexi_go.Http.Response.{Response, Reply, answered, rejected}
use lexi_go.Json.{ℤ, pos, negsuc, Value}
use lexi_go.Outbox.Endpoint.{ReviewEndpoint, parse_lesson_review_endpoint}
use lexi_go.Outbox.Payload.{
  LessonReviewPayload, LessonReviewRating, again, almost, known, LessonReviewAnswerMode, study,
  recall, choice, parse_lesson_review_payload,
}
use lexi_go.Outbox.Queue.{
  ReviewStore, EnqueueInput, enqueue_lesson_review, update_lesson_review,
  prune_synced_lesson_reviews, Changes,
}
use lexi_go.Outbox.Record.{
  ReviewOutboxState, pending, failed, synced, ReviewOutboxRecord, ReviewResponseDisposition,
  review_response_disposition,
}
use lexi_go.Outbox.Sync.{ErrorPayload, response_error, settled, no_error}

-- One call: the request, and what happens around it.
pub record ReviewCall : Type 0 where
  pub url : Text
  pub pathname : Option Text
  pub token : Text
  -- The value that the body spells, if it spells one.
  pub body : Option Value
  pub online : Bool
  pub uuid : Text
  pub enqueues : Bool
  pub enqueued_at : ℕ
  pub pruned_at : ℕ
  pub reply : Reply
  -- Whether the update after the response, and the one in the `catch`, are taken.
  pub updates : Bool
  pub updates_again : Bool
  -- The message of an update that is refused, and whether the network is there in the `catch`.
  pub update_error : Text
  pub online_later : Bool
  pub updated_at : ℕ
  pub pruned_again_at : ℕ

pub data Answer : Type 0 where
  passed : Answer
  storage_failed : Answer
  conflict : Answer
  queued : Answer
  responded : Response → Answer
  thrown : Answer

-- The session and the store after the call, its answer, and what was sent: the request with its own
-- body and the record's idempotency key.
pub record Outcome : Type 0 where
  pub session : Option Session
  pub store : ReviewStore
  pub answer : Answer
  pub sent_key : Option Text
  pub sent_body : Option Value

-- `JSON.stringify` of two payloads gives one text exactly when they are the same.
abbrev rating_number : LessonReviewRating → ℕ
rating_number again = 0
rating_number almost = 1
rating_number known = 2

abbrev mode_number : LessonReviewAnswerMode → ℕ
mode_number study = 0
mode_number recall = 1
mode_number choice = 2

abbrev same_option {ℓ} : {A : Type ℓ} → (A → A → Bool) → Option A → Option A → Bool
same_option eq none none = true
same_option eq (some a) (some b) = eq a b
same_option eq _ _ = false

abbrev same_bool : Bool → Bool → Bool
same_bool true b = b
same_bool false b = not b

abbrev same_integer : ℤ → ℤ → Bool
same_integer (pos a) (pos b) = a == b
same_integer (negsuc a) (negsuc b) = a == b
same_integer _ _ = false

unfoldable pub same_payload : LessonReviewPayload → LessonReviewPayload → Bool
same_payload p q =
    (p.lesson_version == q.lesson_version)
    && (rating_number p.rating == rating_number q.rating)
    && same_option (λ a b. a == b) p.response_ms q.response_ms
    && (mode_number p.answer_mode == mode_number q.answer_mode)
    && same_option text_eq p.submitted_answer q.submitted_answer
    && same_option same_bool p.correct q.correct
    && same_option same_bool p.answer_revealed q.answer_revealed
    && same_integer p.timezone_offset_minutes q.timezone_offset_minutes

abbrev pub pruned : ℕ → ReviewStore → ReviewStore
pruned now store = (prune_synced_lesson_reviews now store).0

abbrev pub updated : ReviewCall → ReviewOutboxRecord → Changes → ReviewStore → ReviewStore
updated c r changes store = (update_lesson_review r.operation_key changes c.updated_at store).0

abbrev pub network_error : ReviewCall → Text → ErrorPayload
network_error c message = record {
  code = if c.online_later then codes "network_request_failed" else codes "network_offline";
  message = message;
}

-- The `catch` around the sending.
abbrev pub send_failed : ReviewCall → Text → ReviewOutboxRecord → ReviewStore → ReviewStore × Answer
send_failed c message r store =
    if c.updates_again
    then (
      pruned c.pruned_again_at (updated c r (settled r pending (network_error c message)) store),
      queued,
    )
    else (store, thrown)

abbrev pub settle_response :
    ReviewResponseDisposition
    → ReviewCall
    → ReviewOutboxRecord
    → Response
    → ReviewStore
    → ReviewStore × Answer
settle_response ReviewResponseDisposition.synced c r response store =
    if c.updates
    then (
      pruned c.pruned_again_at (updated c r (settled r synced no_error) store),
      responded response,
    )
    else send_failed c c.update_error r store
settle_response ReviewResponseDisposition.failed c r response store =
    if c.updates
    then (
      pruned c.pruned_again_at (updated c r (settled r failed (response_error response)) store),
      responded response,
    )
    else send_failed c c.update_error r store
settle_response ReviewResponseDisposition.retry c r response store =
    if c.updates
    then (
      pruned c.pruned_again_at (updated c r (settled r pending (response_error response)) store),
      queued,
    )
    else send_failed c c.update_error r store
settle_response ReviewResponseDisposition.refresh_session c r response store =
    (pruned c.pruned_again_at store, responded response)

abbrev pub send : Reply → ReviewCall → ReviewOutboxRecord → ReviewStore → ReviewStore × Answer
send (rejected message) c r store = send_failed c message r store
send (answered response) c r store =
    settle_response (review_response_disposition response.status) c r response store

abbrev pub review_input : Session → ReviewEndpoint → LessonReviewPayload → ReviewCall → EnqueueInput
review_input s e p c = record {
  user_id = s.user.id;
  endpoint = c.url;
  review_endpoint = e;
  payload = p;
  request_body = p;
}

-- Once the review is stored; the store has been pruned by `refreshSummary`.
abbrev pub stored_review :
    LessonReviewPayload
    → ReviewCall
    → ReviewOutboxRecord
    → ReviewStore
    → ReviewStore × Answer × Option Text
stored_review p c r store =
    let reply = send c.reply c r store in
    if not (same_payload r.request_body p)
    then (store, conflict, none)
    else if not c.online
    then (store, queued, none)
    else (reply.0, reply.1, some r.idempotency_key)

abbrev pub keep_review :
    Session
    → ReviewEndpoint
    → LessonReviewPayload
    → ReviewCall
    → ReviewStore
    → ReviewStore × Answer × Option Text
keep_review s e p c store =
    let (after, r) = enqueue_lesson_review (review_input s e p c) c.uuid c.enqueued_at store in
    if c.enqueues
    then stored_review p c r (pruned c.pruned_at after)
    else (store, storage_failed, none)

-- The session takes the access token that the request carries.
abbrev pub with_token : Text → Session → Session
with_token token s =
    if is_nonempty token && not (text_eq token s.tokens.access_token)
    then record s { tokens = record s.tokens { access_token = token } }
    else s

abbrev pub read_payload : Option Value → Option LessonReviewPayload
read_payload none = none
read_payload (some v) = parse_lesson_review_payload v

abbrev pub review_outcome :
    Option LessonReviewPayload → Session → ReviewEndpoint → ReviewCall → ReviewStore → Outcome
review_outcome none s e c store = record {
  session = some (with_token c.token s);
  store = store;
  answer = passed;
  sent_key = none;
  sent_body = none;
}
review_outcome (some p) s e c store =
    let r = keep_review s e p c store in
    record {
      session = some (with_token c.token s);
      store = r.0;
      answer = r.1;
      sent_key = r.2;
      sent_body = if is_some r.2 then c.body else none;
    }

abbrev pub review_for : Option Session → Option ReviewEndpoint → ReviewCall → ReviewStore → Outcome
review_for (some s) (some e) c store = review_outcome (read_payload c.body) s e c store
review_for session endpoint c store = record {
  session = session;
  store = store;
  answer = passed;
  sent_key = none;
  sent_body = none;
}

-- `interceptedFetch` for a `POST` that is none of the session's and does not start a lesson.
unfoldable pub intercept_review : Option Session → ReviewCall → ReviewStore → Outcome
intercept_review session c store =
    review_for session (parse_lesson_review_endpoint c.pathname) c store
