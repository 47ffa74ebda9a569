-- ===== src/Outbox/Intercept/Kept.antt =====
-- What an intercepted review leaves in the store.
use lexi_go.Common.{
  ℕ, ◌+◌, ◌<◌, Bool, true, false, not, Option, none, some, Text, text_eq_self, if◌then◌else◌, ◌≡◌,
  refl, arith, sym, ap, ◌∙◌, Bool-cases, inl, inr, ◌⊎◌, subst, is_some,
}
use lexi_go.Common.Store.{get}
use lexi_go.Auth.Session.{Session}
use lexi_go.Json.{Value}
use lexi_go.Http.Response.{Response, Reply, answered, rejected}
use lexi_go.Outbox.Endpoint.{ReviewEndpoint, parse_lesson_review_endpoint}
use lexi_go.Outbox.Payload.{LessonReviewPayload}
use lexi_go.Outbox.Queue.{
  ReviewStore, EnqueueInput, input_key, enqueue_lesson_review, apply_changes, is_expired, is_synced,
}
use lexi_go.Outbox.Queue.Enqueue.{get-enqueue, IsOpen, enqueue-pending}
use lexi_go.Outbox.Queue.Update.{
  IsWellKeyed, get-update, get-HasKey, update-IsWellKeyed, enqueue-IsWellKeyed,
}
use lexi_go.Outbox.Queue.Prune.{get-prune, prune-IsWellKeyed}
use lexi_go.Outbox.Record.{
  ReviewOutboxState, pending, failed, synced, ReviewOutboxRecord, valid, synced_retention_ms,
  ReviewResponseDisposition, review_response_disposition,
}
use lexi_go.Outbox.Sync.{settled, no_error, response_error, ErrorPayload}
use lexi_go.Outbox.Intercept.{
  ReviewCall, Answer, storage_failed, conflict, queued, responded, same_payload, pruned, updated,
  network_error, send_failed, settle_response, send, review_input, stored_review, keep_review,
  read_payload, intercept_review,
}

abbrev pub state_of : ReviewResponseDisposition → ReviewOutboxState
state_of ReviewResponseDisposition.synced = synced
state_of ReviewResponseDisposition.failed = failed
state_of ReviewResponseDisposition.retry = pending
state_of ReviewResponseDisposition.refresh_session = pending

-- The state of the stored review that goes with an answer.
abbrev pub expected_state : Answer → ReviewOutboxState
expected_state (responded r) = state_of (review_response_disposition r.status)
expected_state _ = pending

-- The store has the record `r` under its key, in the state `s`, whatever its attempts and errors.
pub record Stands (r : ReviewOutboxRecord) (s : ReviewOutboxState) (store : ReviewStore)
    : Type 0 where
  pub found : ReviewOutboxRecord
  pub under : get r.operation_key store ≡ some (valid found)
  pub state : found.status ≡ s
  pub same_key : found.idempotency_key ≡ r.idempotency_key
  pub same_body : found.request_body ≡ r.request_body
  pub well_keyed : IsWellKeyed store

-- A prune keeps a record that is pending or failed, and one that was synced at its own time.
module _ (r : ReviewOutboxRecord) where
  pruned-Stands :
      (s : ReviewOutboxState) (now : ℕ) (store : ReviewStore) (h : Stands r s store)
      → is_expired now h.found ≡ false
      → Stands r s (pruned now store)
  pruned-Stands s now store h fresh = record {
    found = h.found;
    under = get-prune now r.operation_key store h.well_keyed ∙ rw (h.under, fresh) refl;
    state = h.state;
    same_key = h.same_key;
    same_body = h.same_body;
    well_keyed = prune-IsWellKeyed now store h.well_keyed;
  }

  standing :
      (s : ReviewOutboxState) (now : ℕ) (store : ReviewStore)
      → is_synced s ≡ false
      → Stands r s store
      → Stands r s (pruned now store)
  standing s now store n h = pruned-Stands s now store h (rw (h.state, n) refl)

  updated-Stands :
      (c : ReviewCall) (t s : ReviewOutboxState) (e : ErrorPayload) (store : ReviewStore)
      → Stands r t store
      → (h : Stands r s (updated c r (settled r s e) store)) × (h.found.updated_at ≡ c.updated_at)
  updated-Stands c t s e store h = (
    record {
      found = apply_changes h.found (settled r s e) c.updated_at;
      under =
          get-update r.operation_key r.operation_key (settled r s e) c.updated_at store h.well_keyed
          ∙ rw (text_eq_self r.operation_key, h.under) refl;
      state = refl;
      same_key = h.same_key;
      same_body = h.same_body;
      well_keyed =
          update-IsWellKeyed r.operation_key (settled r s e) c.updated_at store h.well_keyed;
    },
    refl,
  )

  -- The record stands as the answer says, and what was sent went under its key, with its body.
  abbrev pub Reported : LessonReviewPayload → ReviewStore × Answer × Option Text → Type 0
  Reported p (store, answer, key) =
      Stands r (expected_state answer) store
      × (key ≡ none ⊎ ((key ≡ some r.idempotency_key) × (same_payload r.request_body p ≡ true)))

  module _ (c : ReviewCall) (soon : c.pruned_again_at < c.updated_at + synced_retention_ms) where
    marked :
        (s : ReviewOutboxState) (e : ErrorPayload) (store : ReviewStore)
        → Stands r pending store
        → Stands r s (pruned c.pruned_again_at (updated c r (settled r s e) store))
    marked s e store h =
        let (up, at) = updated-Stands c pending s e store h in
        pruned-Stands s c.pruned_again_at (updated c r (settled r s e) store) up
          (young s up.found at)
      where
        young :
            (s : ReviewOutboxState) (x : ReviewOutboxRecord)
            → x.updated_at ≡ c.updated_at
            → is_expired c.pruned_again_at x ≡ false
        young s x at = ground (arith, soon)

    send_failed-Stands :
        (message : Text) (store : ReviewStore)
        → Stands r pending store
        → Stands r
            (expected_state (send_failed c message r store).1)
            (send_failed c message r store).0
    send_failed-Stands message store h = elim (Bool-cases c.updates_again) [
      | inl written ↦ rw written (marked pending (network_error c message) store h)
      | inr refused ↦ rw refused h
    ]

    answered-Stands :
        (s : ReviewOutboxState) (a : Answer) (e : ErrorPayload) (store : ReviewStore)
        → expected_state a ≡ s
        → Stands r pending store
        → let o =
            if c.updates
            then (pruned c.pruned_again_at (updated c r (settled r s e) store), a)
            else send_failed c c.update_error r store in
          Stands r (expected_state o.1) o.0
    answered-Stands s a e store same h = elim (Bool-cases c.updates) [
      | inl written ↦ rw (written, same) (marked s e store h)
      | inr refused ↦ rw refused (send_failed-Stands c.update_error store h)
    ]

    settle_response-Stands :
        (d : ReviewResponseDisposition) (response : Response) (store : ReviewStore)
        → review_response_disposition response.status ≡ d
        → Stands r pending store
        → let o = settle_response d c r response store in Stands r (expected_state o.1) o.0
    settle_response-Stands ReviewResponseDisposition.synced response store e h =
        answered-Stands synced (responded response) no_error store (ap state_of e) h
    settle_response-Stands ReviewResponseDisposition.failed response store e h =
        answered-Stands failed (responded response) (response_error response) store (ap state_of e)
          h
    settle_response-Stands ReviewResponseDisposition.retry response store e h =
        answered-Stands pending queued (response_error response) store refl h
    settle_response-Stands ReviewResponseDisposition.refresh_session response store e h =
        subst (λ s. Stands r s (pruned c.pruned_again_at store)) (sym (ap state_of e))
          (standing pending c.pruned_again_at store refl h)

    send-Stands :
        (reply : Reply) (store : ReviewStore)
        → Stands r pending store
        → Stands r (expected_state (send reply c r store).1) (send reply c r store).0
    send-Stands (rejected message) store h = send_failed-Stands message store h
    send-Stands (answered response) store h =
        settle_response-Stands (review_response_disposition response.status) response store refl h

    stored_review-Reported :
        (p : LessonReviewPayload) (store : ReviewStore)
        → Stands r pending store
        → Reported p (stored_review p c r store)
    stored_review-Reported p store h = at (same_payload r.request_body p) c.online refl
      where
        at :
            (same online : Bool)
            → same_payload r.request_body p ≡ same
            → Reported p (
                if not same
                then (store, conflict, none)
                else if not online
                then (store, queued, none)
                else (
                  (send c.reply c r store).0,
                  (send c.reply c r store).1,
                  some r.idempotency_key,
                ))
        at false online e = (h, inl refl)
        at true false e = (h, inl refl)
        at true true e = (send-Stands c.reply store h, inr (refl, e))

enqueued-Stands :
    (input : EnqueueInput) (uuid : Text) (now : ℕ) (store : ReviewStore)
    → IsWellKeyed store
    → IsOpen (get (input_key input) store)
    → let first = enqueue_lesson_review input uuid now store in Stands first.1 pending first.0
enqueued-Stands input uuid now store w o =
    let first = enqueue_lesson_review input uuid now store in
    let kept = enqueue-IsWellKeyed input uuid now store w in
    let at_key : get (input_key input) first.0 ≡ some (valid first.1) =
      get-enqueue input uuid now store (input_key input)
      ∙ rw (text_eq_self (input_key input)) refl in
    record {
      found = first.1;
      under =
          ap (λ k. get k first.0) (get-HasKey (input_key input) first.0 (valid first.1) kept at_key)
          ∙ at_key;
      state = enqueue-pending input uuid now store o;
      same_key = refl;
      same_body = refl;
      well_keyed = kept;
    }

keep_review-Reported :
    (s : Session) (e : ReviewEndpoint) (p : LessonReviewPayload) (c : ReviewCall)
    (store : ReviewStore)
    → c.pruned_again_at < c.updated_at + synced_retention_ms
    → c.enqueues ≡ true
    → IsWellKeyed store
    → IsOpen (get (input_key (review_input s e p c)) store)
    → Reported
        (enqueue_lesson_review (review_input s e p c) c.uuid c.enqueued_at store).1
        p
        (keep_review s e p c store)
keep_review-Reported s e p c store soon t w o =
    let first = enqueue_lesson_review (review_input s e p c) c.uuid c.enqueued_at store in
    let h = enqueued-Stands (review_input s e p c) c.uuid c.enqueued_at store w o in
    let kept =
      stored_review-Reported first.1 c soon p (pruned c.pruned_at first.0)
        (standing first.1 pending c.pruned_at first.0 refl h) in
    go c.enqueues t kept
  where
    go :
        (b : Bool)
        → b ≡ true
        → (let first = enqueue_lesson_review (review_input s e p c) c.uuid c.enqueued_at store in
            Reported first.1 p (stored_review p c first.1 (pruned c.pruned_at first.0)))
        → (let first = enqueue_lesson_review (review_input s e p c) c.uuid c.enqueued_at store in
            Reported first.1 p (
              if b
              then stored_review p c first.1 (pruned c.pruned_at first.0)
              else (store, storage_failed, none)))
    go true h k = k
    go false h k = absurd (ground arith)

own_body :
    (key : Option Text) (body : Option Value)
    → (key ≡ none) ⊎ ((if is_some key then body else none) ≡ body)
own_body none body = inl refl
own_body (some k) body = inr refl

-- The answer that a review gets tells the truth about the store. For a request that is a review, of
-- a session, whose key has no record yet or one that is pending, and that the store takes: after the
-- call the record of the review stands under its key, with its idempotency key and its body. It is
-- marked as synced if the answer is a response that the server accepted, as failed if the server
-- refused it, and it is pending for every other answer, so a review that is reported as queued is
-- in the queue. What was sent carried the record's idempotency key and the request's own body, and
-- the payload that this body spells is the one that was stored. The call itself lasts less than a
-- day.
pub intercept-Reported :
    (s : Session) (e : ReviewEndpoint) (p : LessonReviewPayload) (c : ReviewCall)
    (store : ReviewStore)
    → parse_lesson_review_endpoint c.pathname ≡ some e
    → read_payload c.body ≡ some p
    → c.pruned_again_at < c.updated_at + synced_retention_ms
    → c.enqueues ≡ true
    → IsWellKeyed store
    → IsOpen (get (input_key (review_input s e p c)) store)
    → let o = intercept_review (some s) c store in
      let r = (enqueue_lesson_review (review_input s e p c) c.uuid c.enqueued_at store).1 in
      Reported r p (o.store, o.answer, o.sent_key) × (o.sent_key ≡ none ⊎ (o.sent_body ≡ c.body))
unfolding intercept_review
intercept-Reported s e p c store is_review has_payload soon t w o =
    rw (is_review, has_payload)
      (keep_review-Reported s e p c store soon t w o, own_body (keep_review s e p c store).2 c.body)
