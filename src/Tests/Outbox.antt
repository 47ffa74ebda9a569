-- ===== src/Tests/Outbox.antt =====
-- The outbox at concrete records: frontend/lib/review-outbox.ts and
-- frontend/components/review-outbox-runtime.tsx.
use lexi_go.Common.{
  ℕ, true, none, some, List, [], ◌∷◌, ◌++◌, Text, codes, ◌≡◌, refl, arith, ◌&&◌, ◌==◌, ◌⊎◌,
}
use lexi_go.Common.Sort.{IsSorted}
use lexi_go.Outbox.Queue.Listing.{tally}
use lexi_go.Auth.Session.{Session}
use lexi_go.Http.Response.{Response, answered, rejected}
use lexi_go.Json.{pos, negsuc, int, Value, num, str, obj, end, field, safe_integer}
use lexi_go.Outbox.Payload.{
  LessonReviewPayload, known, recall, parse_lesson_review_payload, parse_fields, positive_integer,
  is_rating, is_answer_mode, natural_integer, boolean, answer_allowed,
}
use lexi_go.Outbox.Payload.Written.{IsValid, payload_value}
use lexi_go.Outbox.Payload.Encode.{parse-payload_value-parse}
use lexi_go.Outbox.Endpoint.{ReviewEndpoint}
use lexi_go.Outbox.Endpoint.Decoded.{IsLessonId, review_path, parse-review_path}
use lexi_go.Outbox.Record.{ReviewOutboxRecord, pending, synced, valid}
use lexi_go.Outbox.Queue.{ReviewStore, records, EnqueueInput, enqueue_lesson_review, Changes}
use lexi_go.Outbox.Queue.Enqueue.{enqueue_again}
use lexi_go.Outbox.Queue.Update.{IsWellKeyed}
use lexi_go.Outbox.Queue.Contract.{Op, view, Replays}
use lexi_go.Outbox.Queue.Refines.{run, run-refines}
use lexi_go.Outbox.Intercept.{ReviewCall, intercept_review, review_input}
use lexi_go.Outbox.Intercept.Kept.{Reported, intercept-Reported}
use lexi_go.Outbox.Run.{sync_run, pending_reviews}
use lexi_go.Outbox.Run.Listed.{is_own_pending, sync_run-Marks}
use lexi_go.Outbox.Sync.{Attempt, Progress, QueuedRequest, refreshed, sync_loop}
use lexi_go.Outbox.Sync.Acknowledged.{Marks}
use lexi_go.Outbox.Sync.Order.{Sends, sync_loop-Sends}

abbrev lesson_id : Text
lesson_id = codes "0a1b2c3d-0000-4000-8000-00000000000f"

abbrev other_lesson : Text
other_lesson = codes "0a1b2c3d-0000-4000-8000-00000000000e"

abbrev payload : LessonReviewPayload
payload = record {
  lesson_version = 2;
  rating = known;
  response_ms = some 900;
  answer_mode = recall;
  submitted_answer = none;
  correct = some true;
  answer_revealed = none;
  timezone_offset_minutes = negsuc 179;
}

abbrev payload_fields : Value
payload_fields = obj (
    field (codes "lessonVersion") (num (int (pos 2))) (
      field (codes "rating") (str (codes "known")) (
        field (codes "responseMs") (num (int (pos 900))) (
          field (codes "answerMode") (str (codes "recall")) (
            field (codes "correct") (Value.bool true)
              (field (codes "timezoneOffsetMinutes") (num (int (negsuc 179))) end))))))

parsed : parse_lesson_review_payload payload_fields ≡ some payload
unfolding parse_lesson_review_payload parse_fields positive_integer safe_integer is_rating
    is_answer_mode natural_integer boolean answer_allowed
parsed = refl

parse-payload_value-parse_example :
    IsValid payload × (parse_lesson_review_payload (payload_value payload) ≡ some payload)
parse-payload_value-parse_example = parse-payload_value-parse payload_fields payload parsed

abbrev endpoint : ReviewEndpoint
endpoint = record { lesson_id = lesson_id; word_id = 7 }

lesson_id-IsLessonId : IsLessonId lesson_id
lesson_id-IsLessonId = record { size = refl; chars = refl }

abbrev input : EnqueueInput
input = record {
  user_id = codes "u";
  endpoint = codes "/review";
  review_endpoint = endpoint;
  payload = payload;
  request_body = payload;
}

abbrev later_input : EnqueueInput
later_input = record input { request_body = record payload { response_ms = none } }

enqueue_again_example :
    let first = enqueue_lesson_review input (codes "a") 100 [] in
    enqueue_lesson_review later_input (codes "b") 200 first.0 ≡ first
enqueue_again_example = enqueue_again input later_input (codes "a") (codes "b") 100 200 [] refl

abbrev queued : Text → Text → ℕ → ReviewOutboxRecord
queued key lesson at = record {
  operation_key = key;
  idempotency_key = codes "id-" ++ key;
  user_id = codes "u";
  endpoint = codes "/review";
  lesson_id = lesson;
  word_id = 7;
  lesson_version = 2;
  request_body = payload;
  status = pending;
  attempts = 0;
  created_at = at;
  updated_at = at;
  last_error_code = [];
  last_error_message = [];
}

abbrev one : ReviewOutboxRecord
one = queued (codes "k1") lesson_id 100

abbrev two : ReviewOutboxRecord
two = queued (codes "k2") other_lesson 200

abbrev done_record : ReviewOutboxRecord
done_record = record (queued (codes "k3") lesson_id 50) { status = synced }

abbrev store : ReviewStore
store = (codes "k1", valid one) ∷ (codes "k2", valid two) ∷ (codes "k3", valid done_record) ∷ []

abbrev changes : Changes
changes = record {
  status = some synced;
  attempts = none;
  last_error_code = none;
  last_error_message = none;
}

abbrev ops : List Op
ops =
    Op.enqueue input (codes "id") 5
    ∷ Op.update (codes "k2") changes 300
    ∷ Op.prune 700000000
    ∷ Op.enqueue later_input (codes "other") 6
    ∷ []

run-refines_example :
    IsWellKeyed (run ops store).0
    × Replays ops (view store) (run ops store).1 (view (run ops store).0)
run-refines_example = run-refines ops store ((refl, refl, (refl, refl, (refl, refl, tt))))

abbrev session : Session
session = record {
  user = record {
    id = codes "u";
    email = codes "u@example.org";
    display_name = [];
    created_at = [];
  };
  tokens = record {
    access_token = codes "t";
    token_type = codes "Bearer";
    expires_in = int (pos 900);
  };
}

abbrev reply : ℕ → Response
reply status = record { status = status; status_text = []; body = none }

-- The first request is answered by 401, the one after the refresh by 200; the next by 503.
abbrev attempts : List Attempt
attempts =
    (record {
      csrf = codes "c";
      first = answered (reply 401);
      refresh = refreshed session;
      second = answered (reply 200);
      stored = true;
      now = 300;
    })
    ∷ (record {
      csrf = codes "c";
      first = answered (reply 503);
      refresh = refreshed session;
      second = rejected [];
      stored = true;
      now = 400;
    })
    ∷ []

abbrev progress : Progress
progress = record {
  store = store;
  session_ref = some session;
  active_user_id = codes "u";
  active_session = session;
  synchronized = 0;
  requests = [];
}

abbrev pending_records : List ReviewOutboxRecord
pending_records = one ∷ two ∷ []

sync_run-Marks_example :
    IsSorted (λ r. r.created_at) (pending_reviews session store)
    × (tally (λ r. r.attempts == 0) (pending_reviews session store)
        ≡ tally (λ r. is_own_pending session r && (r.attempts == 0)) (records store))
    × (n : ℕ) × ((sync_run session attempts store).synchronized ≡ n)
    × Marks (sync_run session attempts store).store (pending_reviews session store) n
sync_run-Marks_example =
    sync_run-Marks session attempts store (λ r. r.attempts == 0)
      ((refl, refl, (refl, refl, (refl, refl, tt))))

sync_loop-Sends_example :
    (qs : List QueuedRequest) × ((sync_loop pending_records attempts progress).requests ≡ [] ++ qs)
    × Sends pending_records qs
sync_loop-Sends_example = sync_loop-Sends pending_records attempts progress

-- The review is sent and answered by 503.
abbrev call : ReviewCall
call = record {
  url = codes "/review";
  pathname = some (review_path lesson_id 7);
  token = codes "t";
  body = some payload_fields;
  online = true;
  uuid = codes "a";
  enqueues = true;
  enqueued_at = 100;
  pruned_at = 101;
  reply = answered (reply 503);
  updates = true;
  updates_again = true;
  update_error = [];
  online_later = true;
  updated_at = 102;
  pruned_again_at = 103;
}

intercept-Reported_example :
    let o = intercept_review (some session) call [] in
    let r =
      (enqueue_lesson_review (review_input session endpoint payload call) (codes "a") 100 []).1 in
    Reported r payload (o.store, o.answer, o.sent_key)
    × (o.sent_key ≡ none ⊎ (o.sent_body ≡ call.body))
intercept-Reported_example =
    intercept-Reported session endpoint payload call []
      (parse-review_path lesson_id 7 lesson_id-IsLessonId (omega arith) (omega arith)) parsed
      (omega arith) refl tt tt
