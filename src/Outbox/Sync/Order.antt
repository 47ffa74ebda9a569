-- ===== src/Outbox/Sync/Order.antt =====
-- What one run of the synchronisation sends: the queued reviews in their order.
use mathlib.Core.List.{append-nil, append_assoc}
use lexi_go.Common.{
  List, [], ◌∷◌, ◌++◌, Text, text_eq, ◌==◌, ◌≡◌, refl, arith, inl, inr, Bool-cases, ◌∙◌, ap, sym,
}
use lexi_go.Http.Response.{Response, Reply, answered, rejected}
use lexi_go.Outbox.Record.{ReviewOutboxRecord, synced, failed, pending}
use lexi_go.Outbox.Queue.{Changes}
use lexi_go.Outbox.Sync.{
  QueuedRequest, queued_request, Refreshed, refreshed, refresh_failed, Attempt, Progress, sent,
  written, settle, refresh_error, second_reply, after_refresh, first_reply, sync_record, sync_loop,
  settle_as, settled, no_error, response_error,
}

-- The request carries the record's endpoint, its idempotency key and its body.
abbrev pub IsRequestFor : ReviewOutboxRecord → QueuedRequest → Type 0
IsRequestFor r q =
    (q.endpoint ≡ r.endpoint) × (q.idempotency_key ≡ r.idempotency_key) × (q.body ≡ r.request_body)

-- The requests are for the records in their order: one for each, or two where the first was answered
-- by 401, up to a record after which nothing is sent.
pub data Sends : List ReviewOutboxRecord → List QueuedRequest → Type 0 where
  done : (rs : List ReviewOutboxRecord) → Sends rs []
  once :
      {r : ReviewOutboxRecord} {q : QueuedRequest} {rs : List ReviewOutboxRecord}
      {qs : List QueuedRequest}
      → IsRequestFor r q
      → Sends rs qs
      → Sends (r ∷ rs) (q ∷ qs)
  twice :
      {r : ReviewOutboxRecord} {q q' : QueuedRequest} {rs : List ReviewOutboxRecord}
      {qs : List QueuedRequest}
      → IsRequestFor r q
      → IsRequestFor r q'
      → Sends rs qs
      → Sends (r ∷ rs) (q ∷ q' ∷ qs)

written-requests :
    (r : ReviewOutboxRecord) (c : Changes) (a : Attempt) (p : Progress)
    → (written r c a p).0.requests ≡ p.requests
unfolding written
written-requests r c a p = ground arith

settle-requests :
    (r : ReviewOutboxRecord) (a : Attempt) (response : Response) (p : Progress)
    → (settle r a response p).0.requests ≡ p.requests
unfolding settle settle_as
settle-requests r a response p = ground (
  arith,
  written-requests r (settled r synced no_error) a p,
  written-requests r (settled r failed (response_error response)) a p,
  written-requests r (settled r pending (response_error response)) a p,
)

refresh_error-requests :
    (r : ReviewOutboxRecord) (a : Attempt) (m : Text) (p : Progress)
    → (refresh_error r a m p).0.requests ≡ p.requests
unfolding refresh_error written
refresh_error-requests r a m p = ground arith

second_reply-requests :
    (r : ReviewOutboxRecord) (a : Attempt) (reply : Reply) (p : Progress)
    → (second_reply r a reply p).0.requests ≡ p.requests
unfolding second_reply
second_reply-requests r a (answered response) p = settle-requests r a response p
second_reply-requests r a (rejected m) p = refresh_error-requests r a m p

-- What the handling of one record adds to the requests.
data Adds (r : ReviewOutboxRecord) (before after : List QueuedRequest) : Type 0 where
  one : (q : QueuedRequest) → IsRequestFor r q → after ≡ before ++ q ∷ [] → Adds r before after
  two :
      (q q' : QueuedRequest)
      → IsRequestFor r q
      → IsRequestFor r q'
      → after ≡ (before ++ q ∷ []) ++ q' ∷ []
      → Adds r before after

after_refresh-Adds :
    (r : ReviewOutboxRecord) (a : Attempt) (p : Progress) (f : Refreshed)
    → Adds r p.requests (after_refresh r a f (sent a.csrf r p)).0.requests
unfolding after_refresh
after_refresh-Adds r a p (refresh_failed m) =
    one (queued_request a.csrf r p.active_session) (refl, refl, refl)
      (refresh_error-requests r a m _)
after_refresh-Adds r a p (refreshed s) = elim (Bool-cases (text_eq s.user.id r.user_id)) [
  | inl t ↦ rw t (
      two (queued_request a.csrf r p.active_session) (queued_request a.csrf r s) (refl, refl, refl)
        (refl, refl, refl) (second_reply-requests r a a.second _))
  | inr t ↦ rw t (one (queued_request a.csrf r p.active_session) (refl, refl, refl) refl)
]

first_reply-Adds :
    (r : ReviewOutboxRecord) (a : Attempt) (p : Progress) (f : Reply)
    → Adds r p.requests (first_reply r a f (sent a.csrf r p)).0.requests
unfolding first_reply
first_reply-Adds r a p (rejected m) =
    one (queued_request a.csrf r p.active_session) (refl, refl, refl) refl
first_reply-Adds r a p (answered response) = elim (Bool-cases (response.status == 401)) [
  | inl t ↦ rw t (after_refresh-Adds r a p a.refresh)
  | inr t ↦ rw t (
      one (queued_request a.csrf r p.active_session) (refl, refl, refl)
        (settle-requests r a response _))
]

sync_record-Adds :
    (r : ReviewOutboxRecord) (a : Attempt) (p : Progress)
    → Adds r p.requests (sync_record r a p).0.requests
unfolding sync_record
sync_record-Adds r a p = first_reply-Adds r a p a.first

abbrev Sent : List ReviewOutboxRecord → List QueuedRequest → List QueuedRequest → Type 0
Sent rs before after = (qs : List QueuedRequest) × (after ≡ before ++ qs) × Sends rs qs

Adds-Sent :
    (r : ReviewOutboxRecord) (rs : List ReviewOutboxRecord)
    (before middle after : List QueuedRequest)
    → Adds r before middle
    → Sent rs middle after
    → Sent (r ∷ rs) before after
Adds-Sent r rs before middle after (one q h e) (qs, f, s) =
    (q ∷ qs, f ∙ ap (λ m. m ++ qs) e ∙ append_assoc before (q ∷ []) qs, once h s)
Adds-Sent r rs before middle after (two q q' h h' e) (qs, f, s) =
    (q ∷ q' ∷ qs, f ∙ ap (λ m. m ++ qs) e ∙ simp append_assoc, twice h h' s)

-- A run of the synchronisation sends the listed reviews in their order and skips none: each request
-- is for the next record of the list, with its stored endpoint, idempotency key and body, or once
-- more for the same record, and the run may end after any of them.
pub sync_loop-Sends :
    (rs : List ReviewOutboxRecord) (attempts : List Attempt) (p : Progress)
    → (qs : List QueuedRequest) × ((sync_loop rs attempts p).requests ≡ p.requests ++ qs)
      × Sends rs qs
unfolding sync_loop
sync_loop-Sends [] attempts p = ([], sym (append-nil p.requests), done [])
sync_loop-Sends (r ∷ rs) [] p = ([], sym (append-nil p.requests), done (r ∷ rs))
sync_loop-Sends (r ∷ rs) (a ∷ attempts) p =
    let next = sync_record r a p in
    let adds = sync_record-Adds r a p in
    elim (Bool-cases next.1) [
      | inl t ↦ rw t (Adds-Sent r rs _ _ _ adds (sync_loop-Sends rs attempts next.0))
      | inr t ↦ rw t (Adds-Sent r rs _ _ _ adds ([], sym (append-nil next.0.requests), done rs))
    ]
