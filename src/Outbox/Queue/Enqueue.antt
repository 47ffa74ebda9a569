-- ===== src/Outbox/Queue/Enqueue.antt =====
-- A review is queued once: what `enqueue_lesson_review` stores, and what it leaves alone.
use lexi_go.Common.{
  ℕ, Option, none, some, Text, text_eq, text_eq_iff, text_eq_self, if◌then◌else◌, ◌≡◌, refl, inl,
  inr, sym, Bool-cases, ◌∙◌, ap,
}
use lexi_go.Common.Store.{get, get-put}
use lexi_go.Outbox.Record.{pending, ReviewOutboxRecord, Entry, valid, foreign}
use lexi_go.Outbox.Queue.{
  ReviewStore, EnqueueInput, input_key, new_record, enqueue_found, enqueue_lesson_review,
}

get-enqueue_found :
    (key j : Text) (fresh : ReviewOutboxRecord) (store : ReviewStore) (o : Option Entry)
    → get key store ≡ o
    → let after = enqueue_found key fresh store o in
      get j after.0 ≡ (if text_eq key j then some (valid after.1) else get j store)
unfolding enqueue_found
get-enqueue_found key j fresh store none e = get-put key j _ store
get-enqueue_found key j fresh store (some foreign) e = get-put key j _ store
get-enqueue_found key j fresh store (some (valid r)) e = elim (Bool-cases (text_eq key j)) [
  | inl h ↦ rw h (ap (λ k. get k store) (sym ((text_eq_iff key j).0 h)) ∙ e)
  | inr h ↦ rw h
]

-- The record that `enqueue_lesson_review` returns is the one under the operation key afterwards,
-- and no other key changes.
pub get-enqueue :
    (input : EnqueueInput) (uuid : Text) (now : ℕ) (store : ReviewStore) (key : Text)
    → let after = enqueue_lesson_review input uuid now store in
      get key after.0
      ≡ (if text_eq (input_key input) key then some (valid after.1) else get key store)
unfolding enqueue_lesson_review
get-enqueue input uuid now store key = get-enqueue_found (input_key input) key _ store _ refl

-- A second review under the same operation key, whatever it holds, changes nothing: the record of
-- the first is returned, with its idempotency key and its body.
pub enqueue_again :
    (input again : EnqueueInput) (uuid uuid' : Text) (now now' : ℕ) (store : ReviewStore)
    → input_key again ≡ input_key input
    → let first = enqueue_lesson_review input uuid now store in
      enqueue_lesson_review again uuid' now' first.0 ≡ first
unfolding enqueue_lesson_review enqueue_found
enqueue_again input again uuid uuid' now now' store same =
    let first = enqueue_lesson_review input uuid now store in
    let stored : get (input_key again) first.0 ≡ some (valid first.1) = rw same (
      get-enqueue input uuid now store (input_key input)
      ∙ rw (text_eq_self (input_key input)) refl) in
    ap (enqueue_found (input_key again) (new_record again uuid' now') first.0) stored

-- The key has no entry, one that is not a record, or a record that is pending.
abbrev pub IsOpen : Option Entry → Type 0
IsOpen (some (valid r)) = r.status ≡ pending
IsOpen _ = Unit

enqueue_found-pending :
    (key : Text) (fresh : ReviewOutboxRecord) (store : ReviewStore) (o : Option Entry)
    → fresh.status ≡ pending
    → IsOpen o
    → (enqueue_found key fresh store o).1.status ≡ pending
unfolding enqueue_found
enqueue_found-pending key fresh store none f h = f
enqueue_found-pending key fresh store (some foreign) f h = f
enqueue_found-pending key fresh store (some (valid r)) f h = h

-- A review whose key is open is pending once it is queued.
pub enqueue-pending :
    (input : EnqueueInput) (uuid : Text) (now : ℕ) (store : ReviewStore)
    → IsOpen (get (input_key input) store)
    → (enqueue_lesson_review input uuid now store).1.status ≡ pending
unfolding enqueue_lesson_review new_record
enqueue-pending input uuid now store h =
    enqueue_found-pending (input_key input) (new_record input uuid now) store
      (get (input_key input) store) refl h
