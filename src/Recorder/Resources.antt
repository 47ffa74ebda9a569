-- ===== src/Recorder/Resources.antt =====
-- The recorder owns what it opened: no stream, URL, timer or stop promise is left behind.
use lexi_go.Common.{
  Bool-cases, inl, inr, ◌||◌, if◌then◌else◌, refl, ℕ, ◌<◌, Bool, true, false, Option, none, some,
  List, [], ◌∷◌, Text, ◌≡◌, arith, is_some,
}
use lexi_go.Recorder.{
  start_with, start_free, start_from, publish_error, requesting, idle, recorded, denied, error,
  select_recording_mime_type, unsupported, Recorder, RecorderState, recording, stopping, Event,
  start, refuse, grant, data_available, recorder_error, recorder_stop, timeout_stop, stop,
  cancelled, clear, disposed_of, step, run, new_recorder, Dependencies, Grant, start_recording,
  permission_refused, permission_granted, on_data_available, on_error, on_stop, stop_recording,
  cancel, clear_recording, dispose, fail_active_recording, finish_recording, revoke_recording_url,
}

abbrev pub owned : Option ℕ → List ℕ
owned none = []
owned (some n) = n ∷ []

abbrev pub is_active : RecorderState → Bool
is_active recording = true
is_active stopping = true
is_active _ = false

abbrev pub is_stopping : RecorderState → Bool
is_stopping stopping = true
is_stopping _ = false

abbrev Below : ℕ → Option ℕ → Type 0
Below n none = Unit
Below n (some k) = k < n

pub record Inv (m : Recorder) : Type 0 where
  pub streams : m.live_streams ≡ owned m.stream
  pub urls : m.live_urls ≡ owned m.recording_url
  pub paired : m.recorder ≡ m.stream
  pub stream_known : Below m.fresh m.stream
  pub url_known : Below m.fresh m.recording_url
  pub active : is_active m.snapshot.state ≡ is_some m.recorder
  pub timed : m.timeout ≡ true → is_some m.recorder ≡ true
  pub promised : m.stop_promise ≡ true → is_stopping m.snapshot.state ≡ true
  pub exclusive : m.permission_request_pending ≡ true → is_some m.recorder ≡ false
  pub blank : is_some m.recorder ≡ true → (m.snapshot.recording ≡ none) × (m.recording_url ≡ none)
  pub quiet : m.disposed ≡ true → is_some m.recorder ≡ false

new_recorder-Inv : (d : Dependencies) (limit : Option ℕ) → Inv (new_recorder d limit)
unfolding new_recorder
new_recorder-Inv d limit = ground arith

publish_error-Inv : (m : Recorder) → is_some m.recorder ≡ false → Inv m → Inv (publish_error m)
publish_error-Inv m f v = ground arith

start_with-Inv :
    (o : Option Text) (m : Recorder)
    → (m.permission_request_pending || is_some m.recorder) ≡ false
    → Inv m
    → Inv (start_with o m).0
start_with-Inv none m f v = ground arith
start_with-Inv (some mime) m f v = elim (Bool-cases m.dependencies.get_user_media) [
  | inl present ↦ rw present (ground arith)
  | inr absent ↦ rw absent (ground arith)
]

start_free-Inv :
    (b : Bool) (m : Recorder)
    → (m.permission_request_pending || is_some m.recorder) ≡ b
    → Inv m
    → Inv (start_free b m).0
start_free-Inv true m f v = v
start_free-Inv false m f v =
    start_with-Inv (select_recording_mime_type m.dependencies.is_mime_type_supported) m f v

start_from-Inv : (s : RecorderState) (m : Recorder) → Inv m → Inv (start_from s m).0
start_from-Inv unsupported m v = v
start_from-Inv idle m v =
    start_free-Inv (m.permission_request_pending || is_some m.recorder) m refl v
start_from-Inv requesting m v =
    start_free-Inv (m.permission_request_pending || is_some m.recorder) m refl v
start_from-Inv recording m v =
    start_free-Inv (m.permission_request_pending || is_some m.recorder) m refl v
start_from-Inv stopping m v =
    start_free-Inv (m.permission_request_pending || is_some m.recorder) m refl v
start_from-Inv recorded m v =
    start_free-Inv (m.permission_request_pending || is_some m.recorder) m refl v
start_from-Inv denied m v =
    start_free-Inv (m.permission_request_pending || is_some m.recorder) m refl v
start_from-Inv error m v =
    start_free-Inv (m.permission_request_pending || is_some m.recorder) m refl v

start-Inv : (m : Recorder) → Inv m → Inv (start_recording m).0
unfolding start_recording
start-Inv m v = begin m.disposed refl
  where
    begin :
        (b : Bool)
        → m.disposed ≡ b
        → Inv (if b then (publish_error m, none) else start_from m.snapshot.state m).0
    begin true gone = publish_error-Inv m (v.quiet gone) v
    begin false open' = start_from-Inv m.snapshot.state m v

refused-Inv :
    (m : Recorder) (token : ℕ) (b : Bool)
    → m.permission_request_pending ≡ true
    → Inv m
    → Inv (permission_refused token b m)
unfolding permission_refused
refused-Inv m token b p v = ground arith

fail-Inv : (m : Recorder) → Inv m → Inv (fail_active_recording m)
unfolding fail_active_recording
fail-Inv m v = ground arith

revoke-Inv : (m : Recorder) → Inv m → Inv (revoke_recording_url m)
unfolding revoke_recording_url
revoke-Inv m v = ground arith

finish-Inv :
    (m : Recorder) (mime : Text) (b : Bool) (now : ℕ)
    → is_some m.recorder ≡ true
    → Inv m
    → Inv (finish_recording mime b now m)
unfolding finish_recording
finish-Inv m mime b now p v = ground arith

stop-Inv : (m : Recorder) (b : Bool) → Inv m → Inv (stop_recording b m)
unfolding stop_recording
stop-Inv m b v = ground arith

cancel-Inv : (m : Recorder) → Inv m → Inv (cancel m)
unfolding cancel
cancel-Inv m v = ground arith

granted-Inv :
    (m : Recorder) (token : ℕ) (g : Grant)
    → m.permission_request_pending ≡ true
    → Inv m
    → Inv (permission_granted token g m)
unfolding permission_granted
granted-Inv m token g p v = ground arith

clear-Inv : (m : Recorder) → Inv m → Inv (clear_recording m)
unfolding clear_recording
clear-Inv m v = ground arith

stopped-Inv :
    (m : Recorder) (token k : ℕ) (mime : Text) (b : Bool) (now : ℕ)
    → Inv m
    → Inv (on_stop token k mime b now m)
unfolding on_stop
stopped-Inv m token k mime b now v = ground (arith, finish-Inv m mime b now)

-- Every step keeps the recorder's ownership: the streams whose tracks run are the one it holds, the
-- URLs that are not revoked are the one it holds, a recorder exists exactly in the states `recording`
-- and `stopping`, the timeout and the stop promise only beside it, and none once disposed.
pub step-Inv : (m : Recorder) (e : Event) → Inv m → Inv (step m e)
unfolding step on_data_available on_error dispose
step-Inv m start v = start-Inv m v
step-Inv m (refuse token b) v = ground (arith, refused-Inv m token b)
step-Inv m (grant token g) v = ground (arith, granted-Inv m token g)
step-Inv m (data_available token k size) v = ground arith
step-Inv m (recorder_error token k) v = ground (arith, fail-Inv m v)
step-Inv m (recorder_stop token k mime b now) v = stopped-Inv m token k mime b now v
step-Inv m (timeout_stop b) v = ground (arith, stop-Inv m b v)
step-Inv m (stop b) v = stop-Inv m b v
step-Inv m cancelled v = cancel-Inv m v
step-Inv m clear v = clear-Inv m v
step-Inv m disposed_of v = ground (arith, cancel-Inv m v)

run-Inv : (m : Recorder) (es : List Event) → Inv m → Inv (run m es)
unfolding run
run-Inv m [] v = v
run-Inv m (e ∷ es) v = run-Inv (step m e) es (step-Inv m e v)

-- After any history of a new recorder, what runs or is kept alive in the browser is what the
-- recorder holds.
pub run-new_recorder-Inv :
    (d : Dependencies) (limit : Option ℕ) (es : List Event) → Inv (run (new_recorder d limit) es)
run-new_recorder-Inv d limit es = run-Inv _ es (new_recorder-Inv d limit)

record Closed (m : Recorder) : Type 0 where
  inv : Inv m
  gone : m.disposed ≡ true
  blank_url : m.recording_url ≡ none

dispose-Closed : (m : Recorder) → m.disposed ≡ false → Inv m → Closed (dispose m)
unfolding dispose cancel revoke_recording_url
dispose-Closed m h v = ground (arith, cancel-Inv m v)

step-Closed : (m : Recorder) (e : Event) → Closed m → Closed (step m e)
unfolding step start_recording permission_refused permission_granted on_data_available on_error
    on_stop stop_recording cancel clear_recording dispose revoke_recording_url
step-Closed m e c = ground (arith, step-Inv m e c.inv)

run-Closed : (m : Recorder) (es : List Event) → Closed m → Closed (run m es)
unfolding run
run-Closed m [] c = c
run-Closed m (e ∷ es) c = run-Closed (step m e) es (step-Closed m e c)

Closed-released : (m : Recorder) → Closed m → (m.live_streams ≡ []) × (m.live_urls ≡ [])
Closed-released m c = ground arith

-- Once a recorder that keeps the ownership of what it opened, and is not disposed yet, is disposed,
-- no stream runs and no object URL is kept, then and after any later steps: a permission that is
-- granted late is given back.
pub run-dispose_released :
    (m : Recorder) (es : List Event)
    → m.disposed ≡ false
    → Inv m
    → ((run (dispose m) es).live_streams ≡ []) × ((run (dispose m) es).live_urls ≡ [])
run-dispose_released m es h v = Closed-released _ (run-Closed (dispose m) es (dispose-Closed m h v))
