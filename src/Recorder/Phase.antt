-- ===== src/Recorder/Phase.antt =====
-- How a recording ends.
use lexi_go.Common.{
  ℕ, Bool, true, false, none, some, [], ◌∷◌, ◌≡◌, refl, arith, ◌<◌, ◌≤◌, Text, ◌-◌, min,
}
use lexi_go.Recorder.{
  Recorder, Recording, stopping, error, recorded, on_stop, stop_recording, finish_recording, total,
  stop_reply, settled_with,
}
use lexi_go.Recorder.Resources.{Inv}

-- The end of the current recorder, in a browser that can make object URLs, settles the stop promise
-- and frees the stream. It yields a recording of all the data that came, under a live URL and no
-- longer than the limit, if there was data and the URL was made, and an error otherwise.
pub on_stop_result :
    (m : Recorder) (k : ℕ) (mime : Text) (makes_url : Bool) (now : ℕ)
    → Inv m
    → m.recorder ≡ some k
    → m.dependencies.create_object_url ≡ true
    → let q = on_stop m.lifecycle k mime makes_url now m in
      (q.stop_promise ≡ false)
      × (q.live_streams ≡ [])
      × (makes_url ≡ true
          → 0 < total m.chunks
          → (r : Recording) × (q.snapshot
              ≡ record { state = recorded; recording = some r; error_code = none })
            × (q.live_urls ≡ r.url ∷ [])
            × (r.size ≡ total m.chunks)
            × (r.mime_type ≡ mime)
            × (r.duration_ms ≤ m.max_duration_ms))
      × (makes_url ≡ false → q.snapshot.state ≡ error)
      × (total m.chunks ≡ 0 → q.snapshot.state ≡ error)
unfolding on_stop finish_recording
on_stop_result m k mime makes_url now v h d = (
  ground arith,
  ground arith,
  (λ p q. (
    record {
      url = m.fresh;
      mime_type = mime;
      size = total m.chunks;
      duration_ms = min m.max_duration_ms (now - m.started_at);
    },
    ground arith,
    ground arith,
    refl,
    refl,
    ground arith,
  )),
  ground arith,
  ground arith,
)

-- While a recording is stopping, a further `stopRecording` changes nothing and is settled at once
-- with the snapshot that says `stopping`, though the stop promise is there to be shared.
pub stop_again :
    (m : Recorder) (stops : Bool)
    → Inv m
    → m.stop_promise ≡ true
    → (stop_recording stops m ≡ m)
      × (stop_reply m ≡ settled_with m.snapshot)
      × (m.snapshot.state ≡ stopping)
unfolding stop_recording stop_reply
stop_again m stops v p = ground arith
