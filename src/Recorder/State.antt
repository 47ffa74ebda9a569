-- ===== src/Recorder/State.antt =====
-- The state of the class `PronunciationRecorder` of frontend/lib/pronunciation-recorder.ts, its
-- constructor and its private helpers.
use lexi_go.Common.{
  ℕ, ◌+◌, min, max, Bool, false, not, ◌&&◌, Option, none, some, List, [], ◌∷◌, Text, codes, ◌==◌,
  if◌then◌else◌, is_some, get_or, filter,
}

pub data RecorderState : Type 0 where
  unsupported idle requesting recording stopping recorded denied error : RecorderState

pub data ErrorCode : Type 0 where
  permission_denied recording_failed not_supported : ErrorCode

pub record Recording : Type 0 where
  pub url : ℕ
  pub mime_type : Text
  pub size : ℕ
  pub duration_ms : ℕ

pub record Snapshot : Type 0 where
  pub state : RecorderState
  pub recording : Option Recording
  pub error_code : Option ErrorCode

-- Which of the browser's functions are there. `is_mime_type_supported` may throw: `none`.
pub record Dependencies : Type 0 where
  pub get_user_media : Bool
  pub create_recorder : Bool
  pub is_mime_type_supported : Option (Text → Option Bool)
  pub create_object_url : Bool
  pub revoke_object_url : Bool

pub record Recorder : Type 0 where
  pub dependencies : Dependencies
  pub max_duration_ms : ℕ
  pub snapshot : Snapshot
  pub stream : Option ℕ
  pub recorder : Option ℕ
  pub chunks : List ℕ
  pub started_at : ℕ
  pub timeout : Bool
  pub recording_url : Option ℕ
  pub lifecycle : ℕ
  pub permission_request_pending : Bool
  pub disposed : Bool
  pub stop_promise : Bool
  -- The browser's side: streams whose tracks run, URLs not revoked, and the next number to give.
  pub live_streams : List ℕ
  pub live_urls : List ℕ
  pub fresh : ℕ

abbrev pub recorder_max_duration_ms : ℕ
recorder_max_duration_ms = 30000

abbrev pub recording_mime_types : List Text
recording_mime_types =
    codes "audio/webm;codecs=opus"
    ∷ codes "audio/webm"
    ∷ codes "audio/mp4"
    ∷ codes "audio/ogg;codecs=opus"
    ∷ []

abbrev first_supported : (Text → Option Bool) → List Text → Option Text
first_supported probe [] = none
first_supported probe (m ∷ ms) = if get_or (probe m) false then some m else first_supported probe ms

unfoldable pub select_recording_mime_type : Option (Text → Option Bool) → Option Text
select_recording_mime_type none = none
select_recording_mime_type (some probe) = first_supported probe recording_mime_types

abbrev pub is_supported : Dependencies → Bool
is_supported d =
    d.get_user_media
    && d.create_recorder
    && is_some d.is_mime_type_supported
    && d.create_object_url
    && d.revoke_object_url

-- The constructor; `none` where `maxDurationMs` is not given.
unfoldable pub new_recorder : Dependencies → Option ℕ → Recorder
new_recorder d max_duration = record {
  dependencies = d;
  max_duration_ms =
      max 1000 (min recorder_max_duration_ms (get_or max_duration recorder_max_duration_ms));
  snapshot =
      if is_supported d
      then record { state = idle; recording = none; error_code = none }
      else record { state = unsupported; recording = none; error_code = some not_supported };
  stream = none;
  recorder = none;
  chunks = [];
  started_at = 0;
  timeout = false;
  recording_url = none;
  lifecycle = 0;
  permission_request_pending = false;
  disposed = false;
  stop_promise = false;
  live_streams = [];
  live_urls = [];
  fresh = 0;
}

abbrev pub publish : RecorderState → Option Recording → Option ErrorCode → Recorder → Recorder
publish s r e m = record m { snapshot = record { state = s; recording = r; error_code = e } }

abbrev pub publish_error : Recorder → Recorder
publish_error m = publish error m.snapshot.recording (some recording_failed) m

abbrev pub without : ℕ → List ℕ → List ℕ
without n = filter (λ k. not (k == n))

-- `stopMediaStream`.
abbrev pub stop_media_stream : Option ℕ → Recorder → Recorder
stop_media_stream none m = m
stop_media_stream (some s) m = record m { live_streams = without s m.live_streams }

-- A URL is given up even where the browser has no function to revoke it, or that function throws.
abbrev revoke : Option ℕ → Recorder → Recorder
revoke none m = m
revoke (some url) m = record m { recording_url = none; live_urls = without url m.live_urls }

unfoldable pub revoke_recording_url : Recorder → Recorder
revoke_recording_url m = revoke m.recording_url m

-- `cancelTimeout`, `detachRecorder`, the tracks of the stream stopped, the stream and the chunks
-- dropped.
abbrev pub release : Recorder → Recorder
release m = record (stop_media_stream m.stream m) {
  timeout = false;
  recorder = none;
  stream = none;
  chunks = [];
}

abbrev pub resolve_pending_stop : Recorder → Recorder
resolve_pending_stop m = record m { stop_promise = false }

unfoldable pub fail_active_recording : Recorder → Recorder
fail_active_recording m =
    resolve_pending_stop (publish_error (release (record m { lifecycle = m.lifecycle + 1 })))
