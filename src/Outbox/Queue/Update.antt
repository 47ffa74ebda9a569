-- ===== src/Outbox/Queue/Update.antt =====
-- What `update_lesson_review` may change, and the invariant of the store.
use lexi_go.Common.{
  ℕ, Option, none, some, [], ◌∷◌, Text, text_eq, text_eq_iff, if◌then◌else◌, ◌≡◌, refl, arith, inl,
  inr, sym, Bool-cases, ◌∙◌, ap,
}
use lexi_go.Common.Store.{get, put, delete, get-put, get-delete}
use lexi_go.Outbox.Record.{ReviewOutboxRecord, Entry, valid, foreign}
use lexi_go.Outbox.Queue.{
  ReviewStore, EnqueueInput, input_key, enqueue_found, enqueue_lesson_review, Changes,
  apply_changes, update_found, update_lesson_review,
}

abbrev pub HasKey : Text → Entry → Type 0
HasKey k (valid r) = r.operation_key ≡ k
HasKey k foreign = Unit

-- Each record stands under its own operation key, and each key stands once.
abbrev pub IsWellKeyed : ReviewStore → Type 0
IsWellKeyed [] = Unit
IsWellKeyed ((k, e) ∷ m) = HasKey k e × (get k m ≡ none) × IsWellKeyed m

pub get-HasKey :
    (k : Text) (store : ReviewStore) (e : Entry)
    → IsWellKeyed store
    → get k store ≡ some e
    → HasKey k e
get-HasKey k [] e w h = absurd (ground arith)
get-HasKey k ((j, x) ∷ m) e w h = elim (Bool-cases (text_eq j k)) [
  | inl t ↦
      let same : x ≡ e = ground arith in
      let here : j ≡ k = (text_eq_iff j k).0 t in rw (← same, ← here) w.0
  | inr t ↦ get-HasKey k m e w.2 (ground arith)
]

put-IsWellKeyed :
    (k : Text) (e : Entry) (store : ReviewStore)
    → HasKey k e
    → IsWellKeyed store
    → IsWellKeyed (put k e store)
put-IsWellKeyed k e [] h w = (h, refl, tt)
put-IsWellKeyed k e ((j, x) ∷ m) h w = elim (Bool-cases (text_eq j k)) [
  | inl t ↦ let here : j ≡ k = (text_eq_iff j k).0 t in rw t (h, rw (← here) (w.1), w.2)
  | inr t ↦ rw t (
    w.0,
    get-put k j e m ∙ ground (arith, text_eq_iff j k, text_eq_iff k j),
    put-IsWellKeyed k e m h w.2,
  )
]

pub delete-IsWellKeyed :
    (k : Text) (store : ReviewStore) → IsWellKeyed store → IsWellKeyed (delete k store)
delete-IsWellKeyed k [] w = tt
delete-IsWellKeyed k ((j, x) ∷ m) w = elim (Bool-cases (text_eq j k)) [
  | inl t ↦ rw t (delete-IsWellKeyed k m w.2)
  | inr t ↦ rw t (
    w.0,
    get-delete k j m ∙ ground (arith, text_eq_iff j k, text_eq_iff k j),
    delete-IsWellKeyed k m w.2,
  )
]

enqueue_found-IsWellKeyed :
    (key : Text) (fresh : ReviewOutboxRecord) (store : ReviewStore) (o : Option Entry)
    → fresh.operation_key ≡ key
    → IsWellKeyed store
    → IsWellKeyed (enqueue_found key fresh store o).0
unfolding enqueue_found
enqueue_found-IsWellKeyed key fresh store none h w = put-IsWellKeyed key (valid fresh) store h w
enqueue_found-IsWellKeyed key fresh store (some foreign) h w =
    put-IsWellKeyed key (valid fresh) store h w
enqueue_found-IsWellKeyed key fresh store (some (valid r)) h w = w

-- Queueing keeps every record under its own key, and every key single.
pub enqueue-IsWellKeyed :
    (input : EnqueueInput) (uuid : Text) (now : ℕ) (store : ReviewStore)
    → IsWellKeyed store
    → IsWellKeyed (enqueue_lesson_review input uuid now store).0
unfolding enqueue_lesson_review
enqueue-IsWellKeyed input uuid now store =
    enqueue_found-IsWellKeyed (input_key input) _ store _ refl

update_found-IsWellKeyed :
    (c : Changes) (now : ℕ) (store : ReviewStore) (o : Option Entry)
    → IsWellKeyed store
    → IsWellKeyed (update_found c now store o).0
unfolding update_found
update_found-IsWellKeyed c now store none w = w
update_found-IsWellKeyed c now store (some foreign) w = w
update_found-IsWellKeyed c now store (some (valid r)) w =
    put-IsWellKeyed r.operation_key _ store refl w

pub update-IsWellKeyed :
    (key : Text) (c : Changes) (now : ℕ) (store : ReviewStore)
    → IsWellKeyed store
    → IsWellKeyed (update_lesson_review key c now store).0
unfolding update_lesson_review
update-IsWellKeyed key c now store = update_found-IsWellKeyed c now store _

-- The entry that an update leaves under the key: a record with the changes, or what was there.
abbrev pub changed : Changes → ℕ → Option Entry → Option Entry
changed c now none = none
changed c now (some foreign) = some foreign
changed c now (some (valid r)) = some (valid (apply_changes r c now))

get-update_found :
    (key j : Text) (c : Changes) (now : ℕ) (store : ReviewStore) (o : Option Entry)
    → IsWellKeyed store
    → get key store ≡ o
    → get j (update_found c now store o).0
      ≡ (if text_eq key j then changed c now o else get j store)
unfolding update_found
get-update_found key j c now store none w e = elim (Bool-cases (text_eq key j)) [
  | inl t ↦ rw t (ap (λ k. get k store) (sym ((text_eq_iff key j).0 t)) ∙ e)
  | inr t ↦ rw t
]
get-update_found key j c now store (some foreign) w e = elim (Bool-cases (text_eq key j)) [
  | inl t ↦ rw t (ap (λ k. get k store) (sym ((text_eq_iff key j).0 t)) ∙ e)
  | inr t ↦ rw t
]
get-update_found key j c now store (some (valid r)) w e =
    let own : r.operation_key ≡ key = get-HasKey key store (valid r) w e in
    get-put r.operation_key j _ store
    ∙ ap (λ k. if text_eq k j then some (valid (apply_changes r c now)) else get j store) own

-- In a store where records stand under their own keys, an update rewrites the record under its key
-- in its status, attempts, error and time alone, and leaves every other entry.
pub get-update :
    (key j : Text) (c : Changes) (now : ℕ) (store : ReviewStore)
    → IsWellKeyed store
    → get j (update_lesson_review key c now store).0
      ≡ (if text_eq key j then changed c now (get key store) else get j store)
unfolding update_lesson_review
get-update key j c now store w = get-update_found key j c now store _ w refl
