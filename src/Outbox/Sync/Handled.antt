-- ===== src/Outbox/Sync/Handled.antt =====
-- What the handling of one record does, in frontend/components/review-outbox-runtime.tsx.
use lexi_go.Common.{ℕ, ◌+◌, Bool, true, false, text_eq, ◌==◌, ◌≡◌, refl, inl, inr, Bool-cases}
use lexi_go.Http.Response.{Response, Reply, answered, rejected}
use lexi_go.Outbox.Record.{
  ReviewOutboxState, ReviewOutboxRecord, ReviewResponseDisposition, retry, refresh_session, pending,
  failed, synced,
}
use lexi_go.Outbox.Queue.{ReviewStore, update_lesson_review, is_synced}
use lexi_go.Outbox.Sync.{
  ErrorPayload, Refreshed, refreshed, refresh_failed, Attempt, Progress, sent, written, settle,
  settle_as, settled, no_error, stop, refresh_error, second_reply, after_refresh, first_reply,
  sync_record, adopted,
}

-- What the handling of one record does to the store, to the count and to the loop.
pub data Handled (r : ReviewOutboxRecord) (before : ReviewStore) (n : ℕ) (next : Progress × Bool)
    : Type 0 where
  acknowledged :
      (now : ℕ)
      → next.1 ≡ true
      → next.0.store
        ≡ (update_lesson_review r.operation_key (settled r synced no_error) now before).0
      → next.0.synchronized ≡ n + 1
      → Handled r before n next
  recorded :
      (s : ReviewOutboxState) (e : ErrorPayload) (now : ℕ)
      → next.1 ≡ false
      → is_synced s ≡ false
      → next.0.store ≡ (update_lesson_review r.operation_key (settled r s e) now before).0
      → next.0.synchronized ≡ n
      → Handled r before n next
  left : next.1 ≡ false → next.0.store ≡ before → next.0.synchronized ≡ n → Handled r before n next

module _ (r : ReviewOutboxRecord) (a : Attempt) where
  stop-Handled :
      (s : ReviewOutboxState) (e : ErrorPayload) (p : Progress)
      → is_synced s ≡ false
      → Handled r p.store p.synchronized (stop (written r (settled r s e) a p))
  unfolding written
  stop-Handled s e p h = elim (Bool-cases a.stored) [
    | inl t ↦ rw t (recorded s e a.now refl h refl refl)
    | inr t ↦ rw t (left refl refl refl)
  ]

  settle_as-Handled :
      (d : ReviewResponseDisposition) (response : Response) (p : Progress)
      → Handled r p.store p.synchronized (settle_as d r a response p)
  unfolding settle_as written
  settle_as-Handled ReviewResponseDisposition.synced response p = elim (Bool-cases a.stored) [
    | inl t ↦ rw t (acknowledged a.now refl refl refl)
    | inr t ↦ rw t (left refl refl refl)
  ]
  settle_as-Handled ReviewResponseDisposition.failed response p = stop-Handled failed _ p refl
  settle_as-Handled retry response p = stop-Handled pending _ p refl
  settle_as-Handled refresh_session response p = stop-Handled pending _ p refl

  second_reply-Handled :
      (reply : Reply) (p : Progress) → Handled r p.store p.synchronized (second_reply r a reply p)
  unfolding second_reply settle refresh_error
  second_reply-Handled (answered response) p = settle_as-Handled _ response p
  second_reply-Handled (rejected m) p = stop-Handled pending _ p refl

  after_refresh-Handled :
      (f : Refreshed) (p : Progress) → Handled r p.store p.synchronized (after_refresh r a f p)
  unfolding after_refresh refresh_error
  after_refresh-Handled (refresh_failed m) p = stop-Handled pending _ p refl
  after_refresh-Handled (refreshed s) p = elim (Bool-cases (text_eq s.user.id r.user_id)) [
    | inl t ↦ rw t (second_reply-Handled a.second (sent a.csrf r (adopted s p)))
    | inr t ↦ rw t (left refl refl refl)
  ]

  pub sync_record-Handled : (p : Progress) → Handled r p.store p.synchronized (sync_record r a p)
  unfolding sync_record first_reply settle
  sync_record-Handled p = first a.first
    where
      first : (f : Reply) → Handled r p.store p.synchronized (first_reply r a f (sent a.csrf r p))
      first (rejected m) = left refl refl refl
      first (answered response) = elim (Bool-cases (response.status == 401)) [
        | inl t ↦ rw t (after_refresh-Handled a.refresh (sent a.csrf r p))
        | inr t ↦ rw t (settle_as-Handled _ response (sent a.csrf r p))
      ]
