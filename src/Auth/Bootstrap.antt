-- ===== src/Auth/Bootstrap.antt =====
-- The session that the document keeps between route chunks: frontend/lib/session-bootstrap.ts. The
-- cookie that `csrfTokenFromCookie` reads is an argument of every call that reads it. A restore that
-- has been started is named by a number, and keeps the generation at which it was started.
pub mod Restores
pub mod Stale
use lexi_go.Common.{
  ℕ, suc, ◌+◌, Bool, true, false, not, Option, none, some, List, [], ◌∷◌, Text, text_eq, ◌==◌,
  if◌then◌else◌, is_nonempty, is_some, filter,
}
use lexi_go.Auth.Session.{Session}

pub record Restore : Type 0 where
  pub id : ℕ
  pub restore_generation : ℕ

pub record BootstrapState : Type 0 where
  pub cached_session : Option Session
  pub cached_csrf_token : Text
  pub active_restore : Option ℕ
  pub generation : ℕ
  -- The restores that have not ended, and the number of the next one.
  pub pending : List Restore
  pub fresh : ℕ

abbrev pub bootstrap_state : BootstrapState
bootstrap_state = record {
  cached_session = none;
  cached_csrf_token = [];
  active_restore = none;
  generation = 0;
  pending = [];
  fresh = 0;
}

abbrev pub clear_cached_session : BootstrapState → BootstrapState
clear_cached_session m = record m { cached_session = none; cached_csrf_token = [] }

abbrev pub cache_session : Text → Session → BootstrapState → BootstrapState
cache_session cookie s m = record m { cached_session = some s; cached_csrf_token = cookie }

-- The promise that a call gives back.
pub data Answer : Type 0 where
  resolved : Option Session → Answer
  promised : ℕ → Answer

abbrev pub start_restore : BootstrapState → BootstrapState × Answer
start_restore m = (
  record m {
    active_restore = some m.fresh;
    pending = (record { id = m.fresh; restore_generation = m.generation }) ∷ m.pending;
    fresh = suc m.fresh;
  },
  promised m.fresh,
)

abbrev pub share_or_restore : Option ℕ → BootstrapState → BootstrapState × Answer
share_or_restore none m = start_restore m
share_or_restore (some p) m = (m, promised p)

abbrev pub restore_with_token : Option Session → Text → BootstrapState → BootstrapState × Answer
restore_with_token none token m = share_or_restore m.active_restore m
restore_with_token (some s) token m =
    if text_eq m.cached_csrf_token token
    then (m, resolved (some s))
    else share_or_restore m.active_restore (clear_cached_session m)

abbrev pub clear_if_cached : Option Session → BootstrapState → BootstrapState
clear_if_cached none m = m
clear_if_cached (some s) m = clear_cached_session m

unfoldable pub restore_bootstrapped_session : Text → BootstrapState → BootstrapState × Answer
restore_bootstrapped_session token m =
    if is_nonempty token
    then restore_with_token m.cached_session token m
    else (clear_if_cached m.cached_session m, resolved none)

abbrev pub find_restore : ℕ → List Restore → Option Restore
find_restore p [] = none
find_restore p (r ∷ rs) = if r.id == p then some r else find_restore p rs

abbrev pub cache_restored : Option Restore → Option Session → Text → BootstrapState → BootstrapState
cache_restored none s cookie m = m
cache_restored (some r) none cookie m = m
cache_restored (some r) (some s) cookie m =
    if m.generation == r.restore_generation then cache_session cookie s m else m

-- What `then` does when the restore `p` has a session, or none.
unfoldable pub restore_then : ℕ → Option Session → Text → BootstrapState → BootstrapState
restore_then p s cookie m = cache_restored (find_restore p m.pending) s cookie m

abbrev pub is_restore : ℕ → Option ℕ → Bool
is_restore p none = false
is_restore p (some q) = p == q

abbrev pub end_restore : ℕ → List Restore → List Restore
end_restore p rs = filter (λ r. not (r.id == p)) rs

-- What `finally` does when the restore `p` has ended.
unfoldable pub restore_finally : ℕ → BootstrapState → BootstrapState
restore_finally p m = record m {
  active_restore = if is_restore p m.active_restore then none else m.active_restore;
  pending = end_restore p m.pending;
}

unfoldable pub adopt_bootstrapped_session : Session → Text → BootstrapState → BootstrapState
adopt_bootstrapped_session s cookie m =
    cache_session cookie s (record m { generation = m.generation + 1; active_restore = none })

unfoldable pub invalidate_bootstrapped_session : BootstrapState → BootstrapState
invalidate_bootstrapped_session m =
    clear_cached_session (record m { generation = m.generation + 1; active_restore = none })

pub data Event : Type 0 where
  asked : Text → Event
  restored : ℕ → Option Session → Text → Event
  ended : ℕ → Event
  adopted : Session → Text → Event
  invalidated : Event

unfoldable pub step : BootstrapState → Event → BootstrapState
step m (asked token) = (restore_bootstrapped_session token m).0
step m (restored p s cookie) = restore_then p s cookie m
step m (ended p) = restore_finally p m
step m (adopted s cookie) = adopt_bootstrapped_session s cookie m
step m invalidated = invalidate_bootstrapped_session m

unfoldable pub run : BootstrapState → List Event → BootstrapState
run m [] = m
run m (e ∷ es) = run (step m e) es
