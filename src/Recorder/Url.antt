-- ===== src/Recorder/Url.antt =====
-- Whether the recording that a snapshot shows can be played.
use lexi_go.Common.{ℕ, true, false, Option, none, some, [], ◌≡◌, arith}
use lexi_go.Recorder.{
  Recorder, Recording, Event, start, grant, step, Grant, start_recording, permission_refused,
  permission_granted, on_data_available, on_error, on_stop, stop_recording, cancel, clear_recording,
  dispose, revoke_recording_url, finish_recording, fail_active_recording,
}
use lexi_go.Recorder.Resources.{Inv}

-- The recording of the snapshot, if there is one, has the URL that the recorder holds.
abbrev pub Shows : Option Recording → Option ℕ → Type 0
Shows none url = Unit
Shows (some r) url = url ≡ some r.url

abbrev pub IsPlayable : Recorder → Type 0
IsPlayable m = Shows m.snapshot.recording m.recording_url

abbrev pub StartsIfGranted : Event → Type 0
StartsIfGranted (grant token g) = g.starts ≡ true
StartsIfGranted _ = Unit

-- Every step of a recorder that keeps the ownership of what it opened keeps the recording of the
-- snapshot playable, but for a grant after which the browser's `start` throws.
pub step-IsPlayable :
    (m : Recorder) (e : Event) → StartsIfGranted e → Inv m → IsPlayable m → IsPlayable (step m e)
unfolding step start_recording permission_refused permission_granted on_data_available on_error
    on_stop stop_recording cancel clear_recording dispose revoke_recording_url finish_recording
    fail_active_recording
step-IsPlayable m start h v p = ground arith
step-IsPlayable m (grant token g) h v p = ground arith
step-IsPlayable m e h v p = ground arith

-- Where a recorder that is not disposed shows a recording under the URL that it holds, the new
-- recording that it asked for is granted and created, and the browser's `start` throws, the
-- snapshot still shows the recording of before, whose URL has been revoked.
pub granted_shows_revoked :
    (m : Recorder) (token : ℕ) (g : Grant) (r : Recording)
    → Inv m
    → m.snapshot.recording ≡ some r
    → m.recording_url ≡ some r.url
    → m.disposed ≡ false
    → token ≡ m.lifecycle
    → m.dependencies.create_recorder ≡ true
    → g.creates ≡ true
    → g.starts ≡ false
    → let q = permission_granted token g m in
      (q.snapshot.recording ≡ some r) × (q.live_urls ≡ []) × (¬ IsPlayable q)
unfolding permission_granted revoke_recording_url fail_active_recording
granted_shows_revoked m token g r v shown url open' same present creates fails = ground arith
