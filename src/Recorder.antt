-- ===== src/Recorder.antt =====
-- The pronunciation recorder: the class `PronunciationRecorder` of
-- frontend/lib/pronunciation-recorder.ts as a state machine. A method, a handler of the browser's
-- recorder or the end of the permission request is one step; `await` in `startRecording` splits it
-- into `start_recording` and `permission_granted` or `permission_refused`. Streams, recorders and
-- object URLs are numbers; the state counts those that are in use.
pub mod State
pub mod Resources
pub mod Phase
pub mod Url
use lexi_go.Common.{
  ℕ, suc, ◌+◌, ◌-◌, ◌≤◌, ◌<◌, min, max, Bool, true, false, not, ◌&&◌, ◌||◌, Option, none, some,
  List, [], ◌∷◌, ◌++◌, Text, codes, leb, ltb, ◌==◌, if◌then◌else◌, is_some, get_or, filter,
}
unfoldable pub use State.*

-- The rest of `startRecording`, with the media type that was selected.
abbrev pub start_with : Option Text → Recorder → Recorder × Option (ℕ × Text)
start_with none m = (publish unsupported none (some not_supported) m, none)
start_with (some mime) m =
    let token = m.lifecycle + 1 in
    let m' = record (publish requesting m.snapshot.recording none m) {
      lifecycle = token;
      permission_request_pending = true;
    } in
    if m.dependencies.get_user_media
    then (m', some (token, mime))
    else (publish_error (record m' { permission_request_pending = false }), none)

abbrev pub start_free : Bool → Recorder → Recorder × Option (ℕ × Text)
start_free true m = (m, none)
start_free false m = start_with (select_recording_mime_type m.dependencies.is_mime_type_supported) m

abbrev pub start_from : RecorderState → Recorder → Recorder × Option (ℕ × Text)
start_from unsupported m = (m, none)
start_from _ m = start_free (m.permission_request_pending || is_some m.recorder) m

-- `startRecording` up to its `await`. The second part is what the rest of the method holds: its
-- token and its media type; `none` where the method has returned.
unfoldable pub start_recording : Recorder → Recorder × Option (ℕ × Text)
start_recording m = if m.disposed then (publish_error m, none) else start_from m.snapshot.state m

-- The rest where the request is refused, with what `isPermissionDenied` says of the error.
unfoldable pub permission_refused : ℕ → Bool → Recorder → Recorder
permission_refused token was_denied m =
    let m' = record m { permission_request_pending = false } in
    if not (token == m.lifecycle) || m.disposed
    then m'
    else if was_denied
    then publish denied m.snapshot.recording (some permission_denied) m'
    else publish_error m'

-- What the browser does with a stream that is granted: whether `createRecorder` and `start` return,
-- and the time.
pub record Grant : Type 0 where
  pub creates : Bool
  pub starts : Bool
  pub now : ℕ

-- The browser opens a stream.
abbrev pub open_stream : Recorder → Recorder
open_stream m = record m {
  live_streams = m.fresh ∷ m.live_streams;
  fresh = m.fresh + 1;
  permission_request_pending = false;
}

abbrev pub attach : ℕ → ℕ → Recorder → Recorder
attach s now m = record (revoke_recording_url m) {
  stream = some s;
  recorder = some s;
  chunks = [];
  started_at = now;
}

-- The rest where the request is granted.
unfoldable pub permission_granted : ℕ → Grant → Recorder → Recorder
unfolding revoke_recording_url fail_active_recording
permission_granted token g m =
    let s = m.fresh in
    let m' = open_stream m in
    if not (token == m.lifecycle) || m.disposed
    then stop_media_stream (some s) m'
    else if not (g.creates && m.dependencies.create_recorder)
    then publish_error (stop_media_stream (some s) m')
    else if g.starts
    then record (publish recording none none (attach s g.now m')) { timeout = true }
    else fail_active_recording (attach s g.now m')

-- The guard of the three handlers that `startRecording` gives its recorder.
abbrev pub is_current : ℕ → ℕ → Recorder → Bool
is_current token s m = (token == m.lifecycle) && elim m.recorder [ none ↦ false | some k ↦ k == s ]

unfoldable pub on_data_available : ℕ → ℕ → ℕ → Recorder → Recorder
on_data_available token s size m =
    if not (is_current token s m) || (size == 0)
    then m
    else record m { chunks = m.chunks ++ size ∷ [] }

unfoldable pub on_error : ℕ → ℕ → Recorder → Recorder
unfolding fail_active_recording
on_error token s m = if is_current token s m then fail_active_recording m else m

abbrev pub total : List ℕ → ℕ
total [] = 0
total (n ∷ ns) = n + total ns

-- `finishRecording`, with whether `createObjectURL` returns, and the time.
unfoldable pub finish_recording : Text → Bool → ℕ → Recorder → Recorder
finish_recording mime makes_url now m =
    let duration = min m.max_duration_ms (now - m.started_at) in
    let size = total m.chunks in
    let m' = release m in
    if size == 0
    then resolve_pending_stop (publish_error m')
    else if not (makes_url && m.dependencies.create_object_url)
    then resolve_pending_stop (publish_error m')
    else resolve_pending_stop (
        publish recorded
          (some (record { url = m.fresh; mime_type = mime; size = size; duration_ms = duration }))
          none
          (record m' {
            recording_url = some m.fresh;
            live_urls = m.fresh ∷ m.live_urls;
            fresh = m.fresh + 1;
          }))

unfoldable pub on_stop : ℕ → ℕ → Text → Bool → ℕ → Recorder → Recorder
unfolding finish_recording
on_stop token s mime makes_url now m =
    if is_current token s m then finish_recording mime makes_url now m else m

abbrev pub is_recording : RecorderState → Bool
is_recording recording = true
is_recording _ = false

-- `stopRecording`, which the timeout calls too, with whether `recorder.stop()` returns.
unfoldable pub stop_recording : Bool → Recorder → Recorder
unfolding fail_active_recording
stop_recording stops m =
    if not (is_some m.recorder) || not (is_recording m.snapshot.state)
    then m
    else if m.stop_promise
    then m
    else let m' = record (publish stopping none none m) { stop_promise = true } in
      if stops then m' else fail_active_recording m'

-- The promise that `stopRecording` returns: settled with a snapshot at once, or the stop promise,
-- which the end of the recording settles.
pub data StopReply : Type 0 where
  settled_with : Snapshot → StopReply
  when_stopped : StopReply

unfoldable pub stop_reply : Recorder → StopReply
stop_reply m =
    if not (is_some m.recorder) || not (is_recording m.snapshot.state)
    then settled_with m.snapshot
    else when_stopped

unfoldable pub cancel : Recorder → Recorder
unfolding revoke_recording_url
cancel m = publish idle none none (
    revoke_recording_url
      (resolve_pending_stop (release (record m { lifecycle = m.lifecycle + 1 }))))

unfoldable pub clear_recording : Recorder → Recorder
unfolding revoke_recording_url
clear_recording m =
    let m' = revoke_recording_url m in
    if is_some m.snapshot.recording then publish idle none none m' else m'

unfoldable pub dispose : Recorder → Recorder
unfolding cancel
dispose m = if m.disposed then m else record (cancel m) { disposed = true }

-- One step of the recorder's life. A step of the browser's may come with any token.
pub data Event : Type 0 where
  start : Event
  refuse : ℕ → Bool → Event
  grant : ℕ → Grant → Event
  data_available : ℕ → ℕ → ℕ → Event
  recorder_error : ℕ → ℕ → Event
  recorder_stop : ℕ → ℕ → Text → Bool → ℕ → Event
  timeout_stop : Bool → Event
  stop : Bool → Event
  cancelled : Event
  clear : Event
  disposed_of : Event

-- The browser answers only a request that is pending, and runs the timeout's callback only while it
-- is not cancelled.
unfoldable pub step : Recorder → Event → Recorder
unfolding start_recording permission_refused permission_granted on_data_available on_error on_stop
    stop_recording cancel clear_recording dispose
step m start = (start_recording m).0
step m (refuse token was_denied) =
    if m.permission_request_pending then permission_refused token was_denied m else m
step m (grant token g) = if m.permission_request_pending then permission_granted token g m else m
step m (data_available token s size) = on_data_available token s size m
step m (recorder_error token s) = on_error token s m
step m (recorder_stop token s mime makes_url now) = on_stop token s mime makes_url now m
step m (timeout_stop stops) = if m.timeout then stop_recording stops m else m
step m (stop stops) = stop_recording stops m
step m cancelled = cancel m
step m clear = clear_recording m
step m disposed_of = dispose m

unfoldable pub run : Recorder → List Event → Recorder
run m [] = m
run m (e ∷ es) = run (step m e) es
