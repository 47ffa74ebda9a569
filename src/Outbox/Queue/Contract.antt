-- ===== src/Outbox/Queue/Contract.antt =====
-- The contract of the outbox that the callers of frontend/lib/review-outbox.ts rely on: what each
-- writing operation replies, and what it makes of a map from operation keys to entries.
use lexi_go.Common.{
  ℕ, ◌+◌, ◌≡◌, Bool, false, Option, none, some, List, [], ◌∷◌, ◌++◌, Text, text_eq, if◌then◌else◌,
  All, any, length, leb,
}
use lexi_go.Common.Decimal.{show}
use lexi_go.Common.Store.{get}
use lexi_go.Outbox.Record.{pending, failed, synced, ReviewOutboxRecord, Entry, valid, foreign}
use lexi_go.Outbox.Queue.{
  ReviewStore, EnqueueInput, enqueue_lesson_review, Changes, update_lesson_review,
  prune_synced_lesson_reviews,
}

-- A call of a writing operation, with what `createUUID()` and the clock give.
pub data Op : Type 0 where
  enqueue : EnqueueInput → Text → ℕ → Op
  update : Text → Changes → ℕ → Op
  prune : ℕ → Op

-- What the caller gets back: a record, or how many records a prune has removed.
pub data Reply : Type 0 where
  kept : ReviewOutboxRecord → Reply
  updated : Option ReviewOutboxRecord → Reply
  pruned : ℕ → Reply

abbrev pub kept_reply : ReviewStore × ReviewOutboxRecord → ReviewStore × Reply
kept_reply r = (r.0, kept r.1)

abbrev pub updated_reply : ReviewStore × Option ReviewOutboxRecord → ReviewStore × Reply
updated_reply r = (r.0, updated r.1)

abbrev pub pruned_reply : ReviewStore × ℕ → ReviewStore × Reply
pruned_reply r = (r.0, pruned r.1)

abbrev pub run_op : Op → ReviewStore → ReviewStore × Reply
run_op (enqueue input uuid now) store = kept_reply (enqueue_lesson_review input uuid now store)
run_op (update key changes now) store = updated_reply (update_lesson_review key changes now store)
run_op (prune now) store = pruned_reply (prune_synced_lesson_reviews now store)

-- The abstract view forgets the order of the entries.
abbrev pub Outbox : Type 0
Outbox = Text → Option Entry

abbrev pub view : ReviewStore → Outbox
view store k = get k store

-- The key of a review: its user, its lesson, its word and the version of the lesson, with colons
-- between them.
abbrev pub own_key : EnqueueInput → Text
own_key input =
    ((input.user_id ++ 58 ∷ input.review_endpoint.lesson_id)
      ++ 58 ∷ show input.review_endpoint.word_id)
    ++ 58 ∷ show input.payload.lesson_version

-- `g` is `f` with the record `r` under the key.
abbrev pub Assigned : Text → ReviewOutboxRecord → Outbox → Outbox → Type 0
Assigned key r f g = (k : Text) → g k ≡ (if text_eq key k then some (valid r) else f k)

abbrev pub HasNoRecord : Option Entry → Type 0
HasNoRecord none = Unit
HasNoRecord (some foreign) = Unit
HasNoRecord (some (valid r)) = ⊥

-- The record that an enqueue makes: pending, without an attempt or an error.
pub record IsFresh (input : EnqueueInput) (uuid : Text) (now : ℕ) (r : ReviewOutboxRecord)
    : Type 0 where
  pub operation_key : r.operation_key ≡ own_key input
  pub idempotency_key : r.idempotency_key ≡ uuid
  pub user_id : r.user_id ≡ input.user_id
  pub endpoint : r.endpoint ≡ input.endpoint
  pub lesson_id : r.lesson_id ≡ input.review_endpoint.lesson_id
  pub word_id : r.word_id ≡ input.review_endpoint.word_id
  pub lesson_version : r.lesson_version ≡ input.payload.lesson_version
  pub request_body : r.request_body ≡ input.request_body
  pub status : r.status ≡ pending
  pub attempts : r.attempts ≡ 0
  pub created_at : r.created_at ≡ now
  pub updated_at : r.updated_at ≡ now
  pub last_error_code : r.last_error_code ≡ []
  pub last_error_message : r.last_error_message ≡ []

-- A field after a change: the new value, or the old one where there is no change.
abbrev pub Becomes {ℓ} : {A : Type ℓ} → Option A → A → A → Type ℓ
Becomes none old new = new ≡ old
Becomes (some a) old new = new ≡ a

-- The record `x` after the changes to the record `r`.
pub record IsChanged (r x : ReviewOutboxRecord) (c : Changes) (now : ℕ) : Type 0 where
  pub status : Becomes c.status r.status x.status
  pub attempts : Becomes c.attempts r.attempts x.attempts
  pub last_error_code : Becomes c.last_error_code r.last_error_code x.last_error_code
  pub last_error_message : Becomes c.last_error_message r.last_error_message x.last_error_message
  pub updated_at : x.updated_at ≡ now
  pub operation_key : x.operation_key ≡ r.operation_key
  pub idempotency_key : x.idempotency_key ≡ r.idempotency_key
  pub user_id : x.user_id ≡ r.user_id
  pub endpoint : x.endpoint ≡ r.endpoint
  pub lesson_id : x.lesson_id ≡ r.lesson_id
  pub word_id : x.word_id ≡ r.word_id
  pub lesson_version : x.lesson_version ≡ r.lesson_version
  pub request_body : x.request_body ≡ r.request_body
  pub created_at : x.created_at ≡ r.created_at

-- A review that was synced 24 hours ago or before.
abbrev pub is_old_record : ℕ → ReviewOutboxRecord → Bool
is_old_record now r = elim r.status [
  | synced ↦ leb (r.updated_at + 86400000) now
  | pending ↦ false
  | failed ↦ false
]

abbrev pub is_old : ℕ → Option Entry → Bool
is_old now none = false
is_old now (some foreign) = false
is_old now (some (valid r)) = is_old_record now r

abbrev pub DistinctKeys : List Text → Type 0
DistinctKeys [] = Unit
DistinctKeys (k ∷ ks) = All (λ j. text_eq k j ≡ false) ks × DistinctKeys ks

-- What a call may reply, and what it makes of a map from keys to entries.
pub data Spec : Op → Outbox → Reply → Outbox → Type 0 where
  -- The first record under a key stays.
  enqueue_there :
      {input : EnqueueInput} {uuid : Text} {now : ℕ} {f : Outbox} {r : ReviewOutboxRecord}
      → f (own_key input) ≡ some (valid r)
      → Spec (enqueue input uuid now) f (kept r) f
  enqueue_fresh :
      {input : EnqueueInput} {uuid : Text} {now : ℕ} {f g : Outbox} {r : ReviewOutboxRecord}
      → HasNoRecord (f (own_key input))
      → IsFresh input uuid now r
      → Assigned (own_key input) r f g
      → Spec (enqueue input uuid now) f (kept r) g
  update_there :
      {key : Text} {c : Changes} {now : ℕ} {f g : Outbox} {r x : ReviewOutboxRecord}
      → f key ≡ some (valid r)
      → IsChanged r x c now
      → Assigned key x f g
      → Spec (update key c now) f (updated (some x)) g
  update_missing :
      {key : Text} {c : Changes} {now : ℕ} {f : Outbox}
      → HasNoRecord (f key)
      → Spec (update key c now) f (updated none) f
  -- The keys of the reviews that go, which are as many as the reply says.
  pruning :
      {now : ℕ} {f g : Outbox} {n : ℕ} (ks : List Text)
      → DistinctKeys ks
      → length ks ≡ n
      → ((k : Text) → any (λ j. text_eq j k) ks ≡ is_old now (f k))
      → ((k : Text) → g k ≡ (if is_old now (f k) then none else f k))
      → Spec (prune now) f (pruned n) g

-- The same calls on a map from keys to entries.
pub data Replays : List Op → Outbox → List Reply → Outbox → Type 0 where
  ended : {f : Outbox} → Replays [] f [] f
  step :
      {op : Op} {ops : List Op} {f g h : Outbox} {r : Reply} {rs : List Reply}
      → Spec op f r g
      → Replays ops g rs h
      → Replays (op ∷ ops) f (r ∷ rs) h
