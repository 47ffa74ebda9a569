-- ===== src/Outbox/Queue/Refines.antt =====
-- The object store of the outbox implements its contract.
use lexi_go.Common.{
  ℕ, suc, ◌+◌, ◌-◌, ◌≡◌, refl, sym, ap, subst, ◌∙◌, false, ◌&&◌, ◌||◌, Option, none, some, List, [],
  ◌∷◌, map, Text, text_eq, if◌then◌else◌, All, any, length, filter, leb, get_or, arith,
}
use lexi_go.Outbox.Endpoint.{review_operation_key}
use lexi_go.Common.Store.{get, get-put}
use lexi_go.Outbox.Record.{
  ReviewOutboxState, pending, failed, synced, ReviewOutboxRecord, Entry, valid, foreign,
  synced_retention_ms,
}
use lexi_go.Outbox.Queue.{
  ReviewStore, EnqueueInput, input_key, new_record, enqueue_found, enqueue_lesson_review, Changes,
  apply_changes, update_found, update_lesson_review, prune_synced_lesson_reviews, records,
  is_synced, is_expired,
}
use lexi_go.Outbox.Queue.Update.{IsWellKeyed, get-HasKey, enqueue-IsWellKeyed, update-IsWellKeyed}
use lexi_go.Outbox.Queue.Prune.{expired_entry, any-expired, get-prune, prune-IsWellKeyed}
use lexi_go.Outbox.Sync.Acknowledged.{Distinct}
use lexi_go.Outbox.Run.Listed.{Distinct-filter, Distinct-records}
use lexi_go.Outbox.Queue.Contract.{
  Op, Reply, kept_reply, updated_reply, pruned_reply, run_op, view, HasNoRecord, IsFresh, Becomes,
  IsChanged, is_old_record, is_old, DistinctKeys, Spec, Replays, enqueue, update, prune,
  enqueue_there, enqueue_fresh, update_there, update_missing, pruning, ended, step,
}

new_record-IsFresh :
    (input : EnqueueInput) (uuid : Text) (now : ℕ)
    → IsFresh input uuid now (new_record input uuid now)
unfolding new_record review_operation_key
new_record-IsFresh input uuid now = record {
  operation_key = refl;
  idempotency_key = refl;
  user_id = refl;
  endpoint = refl;
  lesson_id = refl;
  word_id = refl;
  lesson_version = refl;
  request_body = refl;
  status = refl;
  attempts = refl;
  created_at = refl;
  updated_at = refl;
  last_error_code = refl;
  last_error_message = refl;
}

enqueue-Spec :
    (input : EnqueueInput) (uuid : Text) (now : ℕ) (store : ReviewStore) (o : Option Entry)
    → get (input_key input) store ≡ o
    → let (after, reply) =
        kept_reply (enqueue_found (input_key input) (new_record input uuid now) store o) in
      Spec (enqueue input uuid now) (view store) reply (view after)
unfolding enqueue_found new_record review_operation_key
enqueue-Spec input uuid now store (some (valid r)) e = enqueue_there e
enqueue-Spec input uuid now store (some foreign) e =
    enqueue_fresh (subst HasNoRecord (sym e) tt) (new_record-IsFresh input uuid now)
      (λ k. get-put (input_key input) k (valid (new_record input uuid now)) store)
enqueue-Spec input uuid now store none e =
    enqueue_fresh (subst HasNoRecord (sym e) tt) (new_record-IsFresh input uuid now)
      (λ k. get-put (input_key input) k (valid (new_record input uuid now)) store)

get_or-Becomes {ℓ} : {A : Type ℓ} (o : Option A) (a : A) → Becomes o a (get_or o a)
get_or-Becomes none a = refl
get_or-Becomes (some b) a = refl

apply_changes-IsChanged :
    (r : ReviewOutboxRecord) (c : Changes) (now : ℕ) → IsChanged r (apply_changes r c now) c now
apply_changes-IsChanged r c now = record {
  status = get_or-Becomes c.status r.status;
  attempts = get_or-Becomes c.attempts r.attempts;
  last_error_code = get_or-Becomes c.last_error_code r.last_error_code;
  last_error_message = get_or-Becomes c.last_error_message r.last_error_message;
  updated_at = refl;
  operation_key = refl;
  idempotency_key = refl;
  user_id = refl;
  endpoint = refl;
  lesson_id = refl;
  word_id = refl;
  lesson_version = refl;
  request_body = refl;
  created_at = refl;
}

update-Spec :
    (key : Text) (c : Changes) (now : ℕ) (store : ReviewStore) (o : Option Entry)
    → IsWellKeyed store
    → get key store ≡ o
    → let (after, reply) = updated_reply (update_found c now store o) in
      Spec (update key c now) (view store) reply (view after)
unfolding update_found
update-Spec key c now store (some (valid r)) w e =
    let own : r.operation_key ≡ key = get-HasKey key store (valid r) w e in
    update_there e (apply_changes-IsChanged r c now) (λ k.
      get-put r.operation_key k (valid (apply_changes r c now)) store
      ∙ ap (λ j. if text_eq j k then some (valid (apply_changes r c now)) else get k store) own)
update-Spec key c now store (some foreign) w e = update_missing (subst HasNoRecord (sym e) tt)
update-Spec key c now store none w e = update_missing (subst HasNoRecord (sym e) tt)

-- The keys of the records that a prune removes.
abbrev keys : List ReviewOutboxRecord → List Text
keys rs = map (λ r. r.operation_key) rs

keys-DistinctKeys : (rs : List ReviewOutboxRecord) → Distinct rs → DistinctKeys (keys rs)
keys-DistinctKeys [] d = tt
keys-DistinctKeys (r ∷ rs) d = (apart rs d.0, keys-DistinctKeys rs d.1)
  where
    apart :
        (xs : List ReviewOutboxRecord)
        → All (λ x. text_eq r.operation_key x.operation_key ≡ false) xs
        → All (λ j. text_eq r.operation_key j ≡ false) (keys xs)
    apart [] h = tt
    apart (x ∷ xs) h = (h.0, apart xs h.1)

any-keys :
    (k : Text) (rs : List ReviewOutboxRecord)
    → any (λ j. text_eq j k) (keys rs) ≡ any (λ r. text_eq r.operation_key k) rs
any-keys k [] = refl
any-keys k (r ∷ rs) = ap (λ b. text_eq r.operation_key k || b) (any-keys k rs)

length-keys : (rs : List ReviewOutboxRecord) → length (keys rs) ≡ length rs
length-keys [] = refl
length-keys (r ∷ rs) = ap suc (length-keys rs)

is_expired-is_old : (now : ℕ) (r : ReviewOutboxRecord) → is_expired now r ≡ is_old_record now r
is_expired-is_old now r = by_status r.status
  where
    by_status :
        (s : ReviewOutboxState)
        → (is_synced s && leb synced_retention_ms (now - r.updated_at))
          ≡ elim s [ synced ↦ leb (r.updated_at + 86400000) now | pending ↦ false | failed ↦ false ]
    by_status synced = ground arith
    by_status pending = refl
    by_status failed = refl

expired_entry-is_old : (now : ℕ) (o : Option Entry) → expired_entry now o ≡ is_old now o
expired_entry-is_old now none = refl
expired_entry-is_old now (some foreign) = refl
expired_entry-is_old now (some (valid r)) = is_expired-is_old now r

prune-Spec :
    (now : ℕ) (store : ReviewStore)
    → IsWellKeyed store
    → let (after, reply) = pruned_reply (prune_synced_lesson_reviews now store) in
      Spec (prune now) (view store) reply (view after)
unfolding prune_synced_lesson_reviews
prune-Spec now store w =
    let gone = filter (is_expired now) (records store) in
    pruning (keys gone)
      (keys-DistinctKeys gone
        (Distinct-filter (is_expired now) (records store) (Distinct-records store w)))
      (length-keys gone)
      (λ k. any-keys k gone ∙ any-expired now k store w ∙ expired_entry-is_old now (get k store))
      (λ k.
        get-prune now k store w
        ∙ ap (λ b. if b then none else get k store) (expired_entry-is_old now (get k store)))

run_op-Spec :
    (op : Op) (store : ReviewStore)
    → IsWellKeyed store
    → Spec op (view store) (run_op op store).1 (view (run_op op store).0)
unfolding enqueue_lesson_review update_lesson_review
run_op-Spec (enqueue input uuid now) store w =
    enqueue-Spec input uuid now store (get (input_key input) store) refl
run_op-Spec (update key c now) store w = update-Spec key c now store (get key store) w refl
run_op-Spec (prune now) store w = prune-Spec now store w

run_op-IsWellKeyed :
    (op : Op) (store : ReviewStore) → IsWellKeyed store → IsWellKeyed (run_op op store).0
run_op-IsWellKeyed (enqueue input uuid now) store w = enqueue-IsWellKeyed input uuid now store w
run_op-IsWellKeyed (update key c now) store w = update-IsWellKeyed key c now store w
run_op-IsWellKeyed (prune now) store w = prune-IsWellKeyed now store w

-- A run of calls, with the replies in their order.
abbrev pub after_reply : Reply → ReviewStore × List Reply → ReviewStore × List Reply
after_reply r rest = (rest.0, r ∷ rest.1)

pub run : List Op → ReviewStore → ReviewStore × List Reply
run [] store = (store, [])
run (op ∷ ops) store = after_reply (run_op op store).1 (run ops (run_op op store).0)

-- Any run of enqueueLessonReview, updateLessonReview and pruneSyncedLessonReviews on a store whose
-- records stand under their own keys keeps them there, and replies and leaves what the contract says
-- of a map from keys to entries. A second review of a user for a word in one version of a lesson
-- changes nothing and gets the first one's record; a new one is pending, without an attempt or an
-- error. An update changes the given fields and the time, and replies the record, or nothing where
-- there is none. A prune removes just the reviews that were synced 24 hours ago or before, and replies
-- how many they are.
pub run-refines :
    (ops : List Op) (store : ReviewStore)
    → IsWellKeyed store
    → IsWellKeyed (run ops store).0
      × Replays ops (view store) (run ops store).1 (view (run ops store).0)
unfolding run
run-refines [] store w = (w, ended)
run-refines (op ∷ ops) store w =
    let (keyed, replays) = run-refines ops (run_op op store).0 (run_op-IsWellKeyed op store w) in
    (keyed, step (run_op-Spec op store w) replays)
