-- ===== src/Outbox/Record.antt =====
-- The records of the outbox and the reading of a response, from frontend/lib/review-outbox.ts.
-- Times are milliseconds since the epoch, which `toISOString` and `Date.parse` only respell; the
-- stored request body is the payload that it spells.
use lexi_go.Common.{ℕ, ◌&&◌, ◌||◌, Option, Text, leb, ltb, ◌==◌, if◌then◌else◌}
use lexi_go.Outbox.Payload.{LessonReviewPayload}

pub data ReviewOutboxState : Type 0 where
  pending failed synced : ReviewOutboxState

pub record ReviewOutboxRecord : Type 0 where
  pub operation_key : Text
  pub idempotency_key : Text
  pub user_id : Text
  pub endpoint : Text
  pub lesson_id : Text
  pub word_id : ℕ
  pub lesson_version : ℕ
  pub request_body : LessonReviewPayload
  pub status : ReviewOutboxState
  pub attempts : ℕ
  pub created_at : ℕ
  pub updated_at : ℕ
  pub last_error_code : Text
  pub last_error_message : Text

-- `latest_synced_at` is `none` for the empty text.
pub record ReviewOutboxSummary : Type 0 where
  pub pending : ℕ
  pub failed : ℕ
  pub synced : ℕ
  pub latest_synced_at : Option ℕ

pub data ReviewResponseDisposition : Type 0 where
  synced retry failed refresh_session : ReviewResponseDisposition

unfoldable pub review_response_disposition : ℕ → ReviewResponseDisposition
review_response_disposition status =
    if leb 200 status && ltb status 300
    then ReviewResponseDisposition.synced
    else if status == 401
    then refresh_session
    else if (status == 408) || (status == 425) || (status == 429) || leb 500 status
    then retry
    else ReviewResponseDisposition.failed

-- What an object store holds: a record, or a value that `isReviewOutboxRecord` refuses.
pub data Entry : Type 0 where
  valid : ReviewOutboxRecord → Entry
  foreign : Entry

-- 24 hours, in milliseconds.
abbrev pub synced_retention_ms : ℕ
synced_retention_ms = 86400000
