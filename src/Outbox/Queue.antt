-- ===== src/Outbox/Queue.antt =====
-- The operations of the outbox on its object store, from frontend/lib/review-outbox.ts. Each is one
-- read-write transaction: it happens whole, or it rejects and the store is as before. The store is
-- kept in the order in which the keys came.
pub mod Enqueue
pub mod Update
pub mod Listing
pub mod Prune
pub mod Contract
pub mod Refines
use lexi_go.Common.{
  ℕ, suc, ◌+◌, ◌-◌, ◌≤◌, ◌<◌, Bool, true, false, ◌&&◌, Option, none, some, List, [], ◌∷◌, Text,
  text_eq, leb, ltb, if◌then◌else◌, filter, length, get_or,
}
use lexi_go.Common.Sort.{sort_by}
use lexi_go.Common.Store.{get, put, delete}
use lexi_go.Outbox.Endpoint.{ReviewEndpoint, review_operation_key}
use lexi_go.Outbox.Payload.{LessonReviewPayload}
use lexi_go.Outbox.Record.{
  ReviewOutboxState, pending, failed, synced, ReviewOutboxRecord, ReviewOutboxSummary, Entry, valid,
  foreign, synced_retention_ms,
}

abbrev pub ReviewStore : Type 0
ReviewStore = List (Text × Entry)

pub record EnqueueInput : Type 0 where
  pub user_id : Text
  pub endpoint : Text
  pub review_endpoint : ReviewEndpoint
  pub payload : LessonReviewPayload
  pub request_body : LessonReviewPayload

abbrev pub input_key : EnqueueInput → Text
input_key input =
    review_operation_key input.user_id input.review_endpoint input.payload.lesson_version

unfoldable pub new_record : EnqueueInput → Text → ℕ → ReviewOutboxRecord
new_record input uuid now = record {
  operation_key = input_key input;
  idempotency_key = uuid;
  user_id = input.user_id;
  endpoint = input.endpoint;
  lesson_id = input.review_endpoint.lesson_id;
  word_id = input.review_endpoint.word_id;
  lesson_version = input.payload.lesson_version;
  request_body = input.request_body;
  status = pending;
  attempts = 0;
  created_at = now;
  updated_at = now;
  last_error_code = [];
  last_error_message = [];
}

-- The handler of `store.get(key)`: what it found decides.
enqueue_found :
    Text → ReviewOutboxRecord → ReviewStore → Option Entry → ReviewStore × ReviewOutboxRecord
enqueue_found key fresh store (some (valid existing)) = (store, existing)
enqueue_found key fresh store _ = (put key (valid fresh) store, fresh)

-- `uuid` is what `createUUID()` gives, `now` is the clock.
unfoldable pub enqueue_lesson_review :
    EnqueueInput → Text → ℕ → ReviewStore → ReviewStore × ReviewOutboxRecord
unfolding new_record enqueue_found
enqueue_lesson_review input uuid now store =
    enqueue_found (input_key input) (new_record input uuid now) store (get (input_key input) store)

-- `Partial<Pick<ReviewOutboxRecord, …>>`.
pub record Changes : Type 0 where
  pub status : Option ReviewOutboxState
  pub attempts : Option ℕ
  pub last_error_code : Option Text
  pub last_error_message : Option Text

abbrev pub apply_changes : ReviewOutboxRecord → Changes → ℕ → ReviewOutboxRecord
apply_changes r c now = record r {
  status = get_or c.status r.status;
  attempts = get_or c.attempts r.attempts;
  last_error_code = get_or c.last_error_code r.last_error_code;
  last_error_message = get_or c.last_error_message r.last_error_message;
  updated_at = now;
}

-- The handler of `store.get(key)`; `store.put(next)` writes under the record's own key.
update_found : Changes → ℕ → ReviewStore → Option Entry → ReviewStore × Option ReviewOutboxRecord
update_found changes now store (some (valid r)) =
    let next = apply_changes r changes now in (put next.operation_key (valid next) store, some next)
update_found changes now store _ = (store, none)

unfoldable pub update_lesson_review :
    Text → Changes → ℕ → ReviewStore → ReviewStore × Option ReviewOutboxRecord
unfolding update_found
update_lesson_review key changes now store = update_found changes now store (get key store)

-- `filter(isReviewOutboxRecord)`.
abbrev pub records : ReviewStore → List ReviewOutboxRecord
records [] = []
records ((k, valid r) ∷ m) = r ∷ records m
records ((k, foreign) ∷ m) = records m

abbrev pub owned_by : Text → ReviewOutboxRecord → Bool
owned_by user r = text_eq r.user_id user

unfoldable pub list_lesson_reviews : Text → ReviewStore → List ReviewOutboxRecord
list_lesson_reviews user store =
    sort_by (λ r. r.created_at) (filter (owned_by user) (records store))

-- The later of two times; the empty text is before every time.
abbrev pub later : Option ℕ → ℕ → Option ℕ
later none t = some t
later (some s) t = if ltb s t then some t else some s

abbrev pub count_record : ReviewOutboxSummary → ReviewOutboxState → ℕ → ReviewOutboxSummary
count_record s pending t = record s { pending = s.pending + 1 }
count_record s failed t = record s { failed = s.failed + 1 }
count_record s synced t = record s {
  synced = s.synced + 1;
  latest_synced_at = later s.latest_synced_at t;
}

unfoldable pub summarize : ReviewOutboxSummary → List ReviewOutboxRecord → ReviewOutboxSummary
summarize s [] = s
summarize s (r ∷ rs) = summarize (count_record s r.status r.updated_at) rs

abbrev pub empty_summary : ReviewOutboxSummary
empty_summary = record { pending = 0; failed = 0; synced = 0; latest_synced_at = none }

unfoldable pub review_outbox_summary : Text → ReviewStore → ReviewOutboxSummary
unfolding summarize
review_outbox_summary user store = summarize empty_summary (list_lesson_reviews user store)

abbrev pub is_synced : ReviewOutboxState → Bool
is_synced synced = true
is_synced pending = false
is_synced failed = false

-- `now - updated >= SYNCED_RETENTION_MS`; a time ahead of `now` gives 0 here and a negative
-- difference there, and neither reaches the retention.
abbrev pub is_expired : ℕ → ReviewOutboxRecord → Bool
is_expired now r = is_synced r.status && leb synced_retention_ms (now - r.updated_at)

abbrev pub delete_all : List ReviewOutboxRecord → ReviewStore → ReviewStore
delete_all [] store = store
delete_all (r ∷ rs) store = delete_all rs (delete r.operation_key store)

-- The store without the expired records, and how many they were.
unfoldable pub prune_synced_lesson_reviews : ℕ → ReviewStore → ReviewStore × ℕ
prune_synced_lesson_reviews now store =
    let expired = filter (is_expired now) (records store) in
    (delete_all expired store, length expired)
