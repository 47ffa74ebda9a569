-- ===== src/Auth/Refresh/Flight.antt =====
-- Concurrent callers share one refresh.
use lexi_go.Common.{
  ap, ◌∙◌, ℕ, ◌+◌, ◌≤◌, true, false, Option, none, some, List, [], ◌∷◌, ◌≡◌, refl, arith, is_some,
}
use lexi_go.Http.Failure.{RequestFailure}
use lexi_go.Auth.Refresh.{
  Refresher, RefreshEnd, refresh_error, share_or_start, refresh_session, settle_refresh,
  redirect_reason, is_definitive_session_refresh_error,
}

-- What happens to the module: a caller asks for a session, or the refresh that runs ends.
pub data Event : Type 0 where
  asked : Event
  ended : RefreshEnd → Event

abbrev settle : Option ℕ → RefreshEnd → Refresher → Refresher
settle none e m = m
settle (some p) e m = settle_refresh e m

unfoldable pub step : Refresher → Event → Refresher
unfolding refresh_session
step m asked = (refresh_session m).0
step m (ended e) = settle m.active_refresh e m

unfoldable pub run : Refresher → List Event → Refresher
run m [] = m
run m (e ∷ es) = run (step m e) es

abbrev pub idle : Refresher
idle = record { active_refresh = none; started = 0; reported = [] }

-- Only asking, with no refresh in between that ends.
abbrev pub AllAsked : List Event → Type 0
AllAsked [] = Unit
AllAsked (asked ∷ es) = AllAsked es
AllAsked (ended e ∷ es) = ⊥

running : (m : Refresher) (p : ℕ) → m.active_refresh ≡ some p → refresh_session m ≡ (m, p)
unfolding refresh_session
running m p h = ap (λ o. share_or_start o m) h

keeps_flight :
    (m : Refresher) (p : ℕ) (es : List Event)
    → m.active_refresh ≡ some p
    → AllAsked es
    → run m es ≡ m
unfolding run step
keeps_flight m p [] h a = refl
keeps_flight m p (asked ∷ es) h a =
    ap (λ q. run q es) (ap (λ r. r.0) (running m p h)) ∙ keeps_flight m p es h a
keeps_flight m p (ended e ∷ es) h a = absurd a

started_flight :
    (m : Refresher) (o : Option ℕ)
    → m.active_refresh ≡ o
    → let first = share_or_start o m in
      (first.0.active_refresh ≡ some first.1)
      × (first.0.started ≤ m.started + 1)
      × (is_some o ≡ true → first.0 ≡ m)
unfolding share_or_start
started_flight m none h = (refl, omega arith, λ q. cc)
started_flight m (some p) h = (h, omega arith, λ q. refl)

-- As long as callers only ask and the refresh does not end, every caller gets the same promise and
-- no other refresh is started; the first call starts one, and only if none runs.
pub refresh_session_shared :
    (m : Refresher) (es : List Event)
    → AllAsked es
    → let first = refresh_session m in
      (refresh_session (run first.0 es) ≡ first)
      × (first.0.active_refresh ≡ some first.1)
      × (first.0.started ≤ m.started + 1)
      × (is_some m.active_refresh ≡ true → first.0 ≡ m)
unfolding refresh_session
refresh_session_shared m es a =
    let first = refresh_session m in
    let (live, count, same) = started_flight m m.active_refresh refl in
    (
      ap refresh_session (keeps_flight first.0 first.1 es live a) ∙ running first.0 first.1 live,
      live,
      count,
      same,
    )

-- A caller is sent away exactly when its refresh ends with an error that ends the session and the
-- caller has not asked to stay.
pub redirect_definitive :
    (e : RequestFailure)
    → (is_some (redirect_reason true (refresh_error e)) ≡ is_definitive_session_refresh_error e)
      × (redirect_reason false (refresh_error e) ≡ none)
unfolding redirect_reason is_definitive_session_refresh_error
redirect_definitive e = ground arith
