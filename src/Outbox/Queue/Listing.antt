-- ===== src/Outbox/Queue/Listing.antt =====
-- The order of the queue, and what its summary counts.
use mathlib.Core.List.{Perm}
use lexi_go.Common.{
  ℕ, ◌+◌, Bool, true, false, List, [], ◌∷◌, Text, ◌≡◌, refl, arith, ◌∙◌, filter, length,
}
use lexi_go.Common.Sort.{insert, sort_by, IsSorted, sort_by-IsSorted, sort_by-perm}
use lexi_go.Outbox.Record.{
  ReviewOutboxState, pending, failed, synced, ReviewOutboxRecord, ReviewOutboxSummary,
}
use lexi_go.Outbox.Queue.{
  ReviewStore, records, owned_by, list_lesson_reviews, summarize, review_outbox_summary, is_synced,
  count_record, empty_summary,
}

-- The listing of a user's reviews is the user's records in the store, none left out and none
-- doubled, the oldest first.
pub list-IsSorted :
    (user : Text) (store : ReviewStore)
    → IsSorted (λ r. r.created_at) (list_lesson_reviews user store)
      × Perm (list_lesson_reviews user store) (filter (owned_by user) (records store))
unfolding list_lesson_reviews
list-IsSorted user store = (
  sort_by-IsSorted (λ (r : ReviewOutboxRecord). r.created_at)
      (filter (owned_by user) (records store)),
  sort_by-perm (λ (r : ReviewOutboxRecord). r.created_at) (filter (owned_by user) (records store)),
)

abbrev pub is_pending : ReviewOutboxState → Bool
is_pending pending = true
is_pending failed = false
is_pending synced = false

abbrev pub is_failed : ReviewOutboxState → Bool
is_failed failed = true
is_failed pending = false
is_failed synced = false

abbrev pub tally : (ReviewOutboxRecord → Bool) → List ReviewOutboxRecord → ℕ
tally p rs = length (filter p rs)

tally-insert :
    (p : ReviewOutboxRecord → Bool) (r : ReviewOutboxRecord) (rs : List ReviewOutboxRecord)
    → tally p (insert (λ x. x.created_at) r rs) ≡ tally p (r ∷ rs)
tally-insert p r [] = refl
tally-insert p r (x ∷ rs) = ground (arith, tally-insert p r rs)

pub tally-sort :
    (p : ReviewOutboxRecord → Bool) (rs : List ReviewOutboxRecord)
    → tally p (sort_by (λ x. x.created_at) rs) ≡ tally p rs
tally-sort p [] = refl
tally-sort p (r ∷ rs) =
    tally-insert p r (sort_by (λ x. x.created_at) rs) ∙ ground (arith, tally-sort p rs)

summarize-counts :
    (s : ReviewOutboxSummary) (rs : List ReviewOutboxRecord)
    → ((summarize s rs).pending ≡ s.pending + tally (λ r. is_pending r.status) rs)
      × ((summarize s rs).failed ≡ s.failed + tally (λ r. is_failed r.status) rs)
      × ((summarize s rs).synced ≡ s.synced + tally (λ r. is_synced r.status) rs)
unfolding summarize
summarize-counts s [] = omega arith
summarize-counts s (r ∷ rs) =
    ground (arith, summarize-counts (count_record s r.status r.updated_at) rs)

-- The summary counts the user's reviews in the store by their state.
pub summary-counts :
    (user : Text) (store : ReviewStore)
    → let mine = filter (owned_by user) (records store) in
      ((review_outbox_summary user store).pending ≡ tally (λ r. is_pending r.status) mine)
      × ((review_outbox_summary user store).failed ≡ tally (λ r. is_failed r.status) mine)
      × ((review_outbox_summary user store).synced ≡ tally (λ r. is_synced r.status) mine)
unfolding review_outbox_summary list_lesson_reviews
summary-counts user store =
    let mine = filter (owned_by user) (records store) in
    let listed = sort_by (λ r. r.created_at) mine in
    omega (
      arith,
      summarize-counts empty_summary listed,
      tally-sort (λ r. is_pending r.status) mine,
      tally-sort (λ r. is_failed r.status) mine,
      tally-sort (λ r. is_synced r.status) mine,
    )
