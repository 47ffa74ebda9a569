-- ===== src/Outbox/Queue/Prune.antt =====
-- What `prune_synced_lesson_reviews` removes.
use lexi_go.Common.{
  ℕ, Bool, true, false, Option, none, some, List, [], ◌∷◌, Text, text_eq, text_eq_iff,
  if◌then◌else◌, ◌≡◌, refl, arith, inl, inr, Bool-cases, ◌∙◌, any, filter,
}
use lexi_go.Common.Store.{get, delete, get-delete}
use lexi_go.Outbox.Record.{ReviewOutboxRecord, Entry, valid, foreign}
use lexi_go.Outbox.Queue.{ReviewStore, records, is_expired, delete_all, prune_synced_lesson_reviews}
use lexi_go.Outbox.Queue.Update.{IsWellKeyed, delete-IsWellKeyed}

abbrev names : Text → ReviewOutboxRecord → Bool
names k r = text_eq r.operation_key k

get-delete_all :
    (k : Text) (rs : List ReviewOutboxRecord) (store : ReviewStore)
    → get k (delete_all rs store) ≡ (if any (names k) rs then none else get k store)
get-delete_all k [] store = refl
get-delete_all k (r ∷ rs) store =
    get-delete_all k rs (delete r.operation_key store)
    ∙ ground (arith, get-delete r.operation_key k store)

-- An entry that a prune at `now` removes: a record synced at least 24 hours before.
abbrev pub expired_entry : ℕ → Option Entry → Bool
expired_entry now none = false
expired_entry now (some foreign) = false
expired_entry now (some (valid r)) = is_expired now r

unexpired :
    (now : ℕ) (j k : Text) (m : ReviewStore)
    → text_eq j k ≡ true
    → get j m ≡ none
    → expired_entry now (get k m) ≡ false
unexpired now j k m t e = let absent : get k m ≡ none = rw ((text_eq_iff j k).0 t) at e in rw absent

pub any-expired :
    (now : ℕ) (k : Text) (store : ReviewStore)
    → IsWellKeyed store
    → any (names k) (filter (is_expired now) (records store)) ≡ expired_entry now (get k store)
any-expired now k [] w = refl
any-expired now k ((j, foreign) ∷ m) w = elim (Bool-cases (text_eq j k)) [
  | inl t ↦ rw t (any-expired now k m w.2 ∙ unexpired now j k m t w.1)
  | inr t ↦ rw t (any-expired now k m w.2)
]
any-expired now k ((j, valid r) ∷ m) w = elim (Bool-cases (text_eq j k)) [
  | inl t ↦
      let rest : any (names k) (filter (is_expired now) (records m)) ≡ false =
        any-expired now k m w.2 ∙ unexpired now j k m t w.1 in
      elim (Bool-cases (is_expired now r)) [
        | inl e ↦ rw (t, e, w.0, t) refl
        | inr e ↦ rw (t, e) rest
      ]
  | inr t ↦
      let rest = any-expired now k m w.2 in
      elim (Bool-cases (is_expired now r)) [
        | inl e ↦ rw (t, e, w.0, t) rest
        | inr e ↦ rw (t, e) rest
      ]
]

-- In a store where records stand under their own keys, a prune removes the records that were synced
-- at least 24 hours ago, and nothing else: a review that is pending or has failed stays, as does
-- any other value in the store.
pub get-prune :
    (now : ℕ) (k : Text) (store : ReviewStore)
    → IsWellKeyed store
    → get k (prune_synced_lesson_reviews now store).0
      ≡ (if expired_entry now (get k store) then none else get k store)
unfolding prune_synced_lesson_reviews
get-prune now k store w =
    get-delete_all k (filter (is_expired now) (records store)) store
    ∙ rw (any-expired now k store w)

delete_all-IsWellKeyed :
    (rs : List ReviewOutboxRecord) (store : ReviewStore)
    → IsWellKeyed store
    → IsWellKeyed (delete_all rs store)
delete_all-IsWellKeyed [] store w = w
delete_all-IsWellKeyed (r ∷ rs) store w =
    delete_all-IsWellKeyed rs (delete r.operation_key store)
      (delete-IsWellKeyed r.operation_key store w)

pub prune-IsWellKeyed :
    (now : ℕ) (store : ReviewStore)
    → IsWellKeyed store
    → IsWellKeyed (prune_synced_lesson_reviews now store).0
unfolding prune_synced_lesson_reviews
prune-IsWellKeyed now store = delete_all-IsWellKeyed (filter (is_expired now) (records store)) store
