-- ===== src/Outbox/Run.antt =====
-- One run of `syncPendingReviews` of frontend/components/review-outbox-runtime.tsx: the listing of the
-- pending reviews, the loop over them, and `refreshSummary` after it. The promise that concurrent
-- calls share is not modelled: there is one run at a time.
pub mod Listed
use lexi_go.Common.{
  ℕ, ◌<◌, Bool, true, false, not, ◌&&◌, Option, none, some, List, [], ◌∷◌, Text, if◌then◌else◌,
  filter, ltb,
}
use lexi_go.Auth.Session.{Session}
use lexi_go.Outbox.Queue.{
  ReviewStore, list_lesson_reviews, review_outbox_summary, empty_summary,
  prune_synced_lesson_reviews,
}
use lexi_go.Outbox.Queue.Listing.{is_pending}
use lexi_go.Outbox.Record.{ReviewOutboxRecord, ReviewOutboxSummary}
use lexi_go.Outbox.Sync.{Attempt, Progress, QueuedRequest, sync_loop}

abbrev summary_for : Option Session → ℕ → ReviewStore → ReviewStore × ReviewOutboxSummary
summary_for none now store = (store, empty_summary)
summary_for (some s) now store =
    let kept = (prune_synced_lesson_reviews now store).0 in
    (kept, review_outbox_summary s.user.id kept)

-- `refreshSummary`, of a store that answers.
unfoldable pub refresh_summary :
    Option Session → ℕ → ReviewStore → ReviewStore × ReviewOutboxSummary
refresh_summary session now store = summary_for session now store

abbrev pub pending_reviews : Session → ReviewStore → List ReviewOutboxRecord
pending_reviews s store = filter (λ r. is_pending r.status) (list_lesson_reviews s.user.id store)

abbrev pub start_progress : Session → ReviewStore → Progress
start_progress s store = record {
  store = store;
  session_ref = some s;
  active_user_id = s.user.id;
  active_session = s;
  synchronized = 0;
  requests = [];
}

-- The run up to its `finally`.
unfoldable pub sync_run : Session → List Attempt → ReviewStore → Progress
sync_run s attempts store = sync_loop (pending_reviews s store) attempts (start_progress s store)

pub record RunResult : Type 0 where
  pub store : ReviewStore
  pub session_ref : Option Session
  -- `none` where the summary is not set.
  pub summary : Option ReviewOutboxSummary
  pub requests : List QueuedRequest
  pub reloads : Bool

abbrev finish_run : ℕ → Progress → RunResult
finish_run now p =
    let summed = refresh_summary p.session_ref now p.store in
    record {
      store = summed.0;
      session_ref = p.session_ref;
      summary = some summed.1;
      requests = p.requests;
      reloads = ltb 0 p.synchronized;
    }

-- `now` is the time of `refreshSummary`, which runs twice where nothing is pending.
unfoldable pub sync_pending_reviews :
    Bool → List Attempt → ℕ → Option Session → ReviewStore → RunResult
sync_pending_reviews online attempts now none store = record {
  store = store;
  session_ref = none;
  summary = none;
  requests = [];
  reloads = false;
}
sync_pending_reviews false attempts now (some s) store = record {
  store = store;
  session_ref = some s;
  summary = none;
  requests = [];
  reloads = false;
}
sync_pending_reviews true attempts now (some s) store = finish_run now (sync_run s attempts store)
