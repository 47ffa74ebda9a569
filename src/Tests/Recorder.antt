-- ===== src/Tests/Recorder.antt =====
-- The recorder in concrete histories: frontend/lib/pronunciation-recorder.ts.
use lexi_go.Common.{true, false, none, some, List, [], ◌∷◌, Text, codes, ◌≡◌, refl}
use lexi_go.Recorder.{
  Recorder, Recording, Dependencies, Grant, Event, start, grant, data_available, recorder_stop,
  stop, step, run, new_recorder, start_recording, permission_granted, on_data_available, on_stop,
  stop_recording, finish_recording, revoke_recording_url, dispose, select_recording_mime_type,
}
use lexi_go.Recorder.Resources.{Inv, run-new_recorder-Inv, run-dispose_released}
use lexi_go.Recorder.Url.{IsPlayable, step-IsPlayable, granted_shows_revoked}

abbrev dependencies : Dependencies
dependencies = record {
  get_user_media = true;
  create_recorder = true;
  is_mime_type_supported = some (λ m. some true);
  create_object_url = true;
  revoke_object_url = true;
}

abbrev granted : Grant
granted = record { creates = true; starts = true; now = 100 }

abbrev mime : Text
mime = codes "audio/webm"

-- One recording is made, and another one is under way.
abbrev first_events : List Event
first_events = start ∷ grant 1 granted ∷ data_available 1 0 9 ∷ []

abbrev recording_one : Recorder
recording_one = run (new_recorder dependencies none) first_events

recording_one-Inv : Inv recording_one
recording_one-Inv = run-new_recorder-Inv dependencies none first_events

run-new_recorder-Inv_example : Inv (run (new_recorder dependencies none) first_events)
run-new_recorder-Inv_example = run-new_recorder-Inv dependencies none first_events

open_one : recording_one.disposed ≡ false
unfolding new_recorder run step start_recording permission_granted on_data_available
    revoke_recording_url select_recording_mime_type
open_one = refl

run-dispose_released_example :
    ((run (dispose recording_one) (recorder_stop 1 0 mime true 900 ∷ start ∷ [])).live_streams ≡ [])
    × ((run (dispose recording_one) (recorder_stop 1 0 mime true 900 ∷ start ∷ [])).live_urls ≡ [])
run-dispose_released_example =
    run-dispose_released recording_one (recorder_stop 1 0 mime true 900 ∷ start ∷ []) open_one
      recording_one-Inv

live_one :
    (recording_one.recorder ≡ some 0)
    × (recording_one.lifecycle ≡ 1)
    × (recording_one.dependencies ≡ dependencies)
unfolding new_recorder run step start_recording permission_granted on_data_available
    revoke_recording_url select_recording_mime_type
live_one = (refl, refl, refl)

abbrev stopping_events : List Event
stopping_events = start ∷ grant 1 granted ∷ data_available 1 0 9 ∷ stop true ∷ []

abbrev stopping_one : Recorder
stopping_one = run (new_recorder dependencies none) stopping_events

promised : stopping_one.stop_promise ≡ true
unfolding new_recorder run step start_recording permission_granted on_data_available
    revoke_recording_url select_recording_mime_type stop_recording
promised = refl

playable : IsPlayable (run (new_recorder dependencies none) [])
unfolding new_recorder run
playable = tt

step-IsPlayable_example : IsPlayable (step (run (new_recorder dependencies none) []) start)
step-IsPlayable_example =
    step-IsPlayable (run (new_recorder dependencies none) []) start tt
      (run-new_recorder-Inv dependencies none []) playable

-- A recording is shown, and another one is asked for.
abbrev shown_events : List Event
shown_events =
    start ∷ grant 1 granted ∷ data_available 1 0 9 ∷ recorder_stop 1 0 mime true 900 ∷ start ∷ []

abbrev shown : Recorder
shown = run (new_recorder dependencies none) shown_events

abbrev shown_recording : Recording
shown_recording = record { url = 1; mime_type = mime; size = 9; duration_ms = 800 }

abbrev failing : Grant
failing = record { creates = true; starts = false; now = 1000 }

shown_state :
    (shown.snapshot.recording ≡ some shown_recording)
    × (shown.recording_url ≡ some 1)
    × (shown.disposed ≡ false)
    × (2 ≡ shown.lifecycle)
    × (shown.dependencies.create_recorder ≡ true)
unfolding new_recorder run step start_recording permission_granted on_data_available
    revoke_recording_url select_recording_mime_type on_stop finish_recording
shown_state = (refl, refl, refl, refl, refl)

granted_shows_revoked_example :
    let q = permission_granted 2 failing shown in
    (q.snapshot.recording ≡ some shown_recording) × (q.live_urls ≡ []) × (¬ IsPlayable q)
granted_shows_revoked_example =
    granted_shows_revoked shown 2 failing shown_recording
      (run-new_recorder-Inv dependencies none shown_events) shown_state.0 shown_state.1
      shown_state.2 shown_state.3 shown_state.4 refl refl
