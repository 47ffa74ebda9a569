-- ===== src/Tests/Auth.antt =====
-- The session at concrete replies: frontend/lib/auth-session.ts and session-bootstrap.ts.
use lexi_go.Common.{ℕ, zero, suc, true, none, some, [], ◌∷◌, codes, ◌≡◌, refl, arith}
use lexi_go.Json.{pos, int}
use lexi_go.Auth.Session.{Session}
use lexi_go.Http.Failure.{server}
use lexi_go.Auth.Refresh.{RefreshEnd, success, refresh_error, session_refresh_error}
use lexi_go.Auth.Refresh.Retry.{EndsAt, perform_refresh-EndsAt}
use lexi_go.Auth.Bootstrap.{
  BootstrapState, bootstrap_state, restore_bootstrapped_session, adopt_bootstrapped_session,
  invalidate_bootstrapped_session, resolved,
}
use lexi_go.Auth.Bootstrap
use lexi_go.Auth.Bootstrap.Restores.{Inv, step-Inv}
use lexi_go.Auth.Bootstrap.Stale.{run-invalidate_stale}

abbrev pub session : Session
session = record {
  user = record {
    id = codes "u";
    email = codes "u@example.org";
    display_name = [];
    created_at = [];
  };
  tokens = record {
    access_token = codes "t";
    token_type = codes "Bearer";
    expires_in = int (pos 900);
  };
}

abbrev unavailable : RefreshEnd
unavailable = refresh_error (session_refresh_error 503 [] server (codes "session_refresh_failed"))

-- The server is down at first, and then answers.
abbrev attempts : ℕ → RefreshEnd
attempts zero = unavailable
attempts (suc n) = success session

perform_refresh-EndsAt_example : (n : ℕ) × EndsAt true (150 ∷ 500 ∷ []) attempts 0 n
perform_refresh-EndsAt_example = perform_refresh-EndsAt true (150 ∷ 500 ∷ []) attempts 0

start-Inv : Inv bootstrap_state
start-Inv = record { tracked = tt; known = tt }

-- A restore is running.
abbrev restoring : BootstrapState
restoring = Bootstrap.step bootstrap_state (Bootstrap.asked (codes "c"))

restoring-Inv : Inv restoring
restoring-Inv = step-Inv bootstrap_state (Bootstrap.asked (codes "c")) start-Inv

one_started : restoring.fresh ≡ 1
unfolding Bootstrap.step restore_bootstrapped_session
one_started = refl

run-invalidate_stale_example :
    (Bootstrap.run
      (invalidate_bootstrapped_session restoring)
      (Bootstrap.restored 0 (some session) (codes "c") ∷ Bootstrap.ended 0 ∷ [])).cached_session
    ≡ none
run-invalidate_stale_example =
    run-invalidate_stale restoring
      (Bootstrap.restored 0 (some session) (codes "c") ∷ Bootstrap.ended 0 ∷ []) restoring-Inv
      (rw one_started (omega arith, (tt, tt)))

step-Inv_example : Inv (Bootstrap.step restoring Bootstrap.invalidated)
step-Inv_example = step-Inv restoring Bootstrap.invalidated restoring-Inv
