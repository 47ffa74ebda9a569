-- ===== src/Outbox/Sync/Acknowledged.antt =====
-- What one run of the synchronisation leaves in the store.
use lexi_go.Common.{
  ℕ, zero, suc, ◌+◌, Bool, true, false, some, List, [], ◌∷◌, Text, text_eq, text_eq_iff,
  text_eq_self, ◌≡◌, refl, arith, inl, inr, ◌⊎◌, Bool-cases, ◌∙◌, All,
}
use lexi_go.Common.Store.{get}
use lexi_go.Outbox.Record.{ReviewOutboxState, ReviewOutboxRecord, pending, failed, synced, valid}
use lexi_go.Outbox.Queue.{ReviewStore, apply_changes, update_lesson_review, is_synced}
use lexi_go.Outbox.Queue.Update.{IsWellKeyed, get-update, update-IsWellKeyed}
use lexi_go.Outbox.Sync.{ErrorPayload, Attempt, Progress, settled, no_error, sync_record, sync_loop}
use lexi_go.Outbox.Sync.Handled.{Handled, acknowledged, recorded, left, sync_record-Handled}

abbrev Apart : Text → ReviewOutboxRecord → Type 0
Apart j r = text_eq r.operation_key j ≡ false

module _ (r : ReviewOutboxRecord) (before : ReviewStore) (n : ℕ) (next : Progress × Bool)
    (w : IsWellKeyed before) where
  Handled-IsWellKeyed : Handled r before n next → IsWellKeyed next.0.store
  Handled-IsWellKeyed (acknowledged now _ e _) =
      rw e (update-IsWellKeyed r.operation_key _ now before w)
  Handled-IsWellKeyed (recorded s x now _ _ e _) =
      rw e (update-IsWellKeyed r.operation_key _ now before w)
  Handled-IsWellKeyed (left _ e _) = rw e w

  get-Handled : (j : Text) → Apart j r → Handled r before n next → get j next.0.store ≡ get j before
  get-Handled j h (acknowledged now _ e _) =
      rw e (get-update r.operation_key j _ now before w ∙ rw h refl)
  get-Handled j h (recorded s x now _ _ e _) =
      rw e (get-update r.operation_key j _ now before w ∙ rw h refl)
  get-Handled j h (left _ e _) = rw e refl

-- In a store where records stand under their own keys, a run touches the entries of the listed
-- records alone.
pub get-sync_loop :
    (j : Text) (rs : List ReviewOutboxRecord) (attempts : List Attempt) (p : Progress)
    → IsWellKeyed p.store
    → All (Apart j) rs
    → get j (sync_loop rs attempts p).store ≡ get j p.store
unfolding sync_loop
get-sync_loop j [] attempts p w h = refl
get-sync_loop j (r ∷ rs) [] p w h = refl
get-sync_loop j (r ∷ rs) (a ∷ attempts) p w h =
    let next = sync_record r a p in
    let handled = sync_record-Handled r a p in
    let here = get-Handled r p.store p.synchronized next w j h.0 handled in
    elim (Bool-cases next.1) [
      | inl t ↦ rw t (
          get-sync_loop j rs attempts next.0
            (Handled-IsWellKeyed r p.store p.synchronized next w handled) h.1
          ∙ here)
      | inr t ↦ rw t here
    ]

abbrev pub Distinct : List ReviewOutboxRecord → Type 0
Distinct [] = Unit
Distinct (r ∷ rs) = All (λ x. text_eq r.operation_key x.operation_key ≡ false) rs × Distinct rs

-- The record stands in the store as it was listed.
abbrev pub Untouched : ReviewStore → ReviewOutboxRecord → Type 0
Untouched store r = get r.operation_key store ≡ some (valid r)

-- `x` is the review `r` in the state `s` with the error `e`, after one more attempt.
pub record IsSettled (r x : ReviewOutboxRecord) (s : ReviewOutboxState) (e : ErrorPayload)
    : Type 0 where
  pub status : x.status ≡ s
  pub attempts : x.attempts ≡ r.attempts + 1
  pub error_code : x.last_error_code ≡ e.code
  pub error_message : x.last_error_message ≡ e.message
  pub operation_key : x.operation_key ≡ r.operation_key
  pub idempotency_key : x.idempotency_key ≡ r.idempotency_key
  pub user_id : x.user_id ≡ r.user_id
  pub endpoint : x.endpoint ≡ r.endpoint
  pub request_body : x.request_body ≡ r.request_body
  pub created_at : x.created_at ≡ r.created_at

apply_changes-IsSettled :
    (r : ReviewOutboxRecord) (s : ReviewOutboxState) (e : ErrorPayload) (now : ℕ)
    → IsSettled r (apply_changes r (settled r s e) now) s e
apply_changes-IsSettled r s e now = record {
  status = refl;
  attempts = refl;
  error_code = refl;
  error_message = refl;
  operation_key = refl;
  idempotency_key = refl;
  user_id = refl;
  endpoint = refl;
  request_body = refl;
  created_at = refl;
}

-- Under the key of the record, the store has the review in the state `s` with the error `e`.
abbrev pub Marked : ReviewStore → ReviewOutboxState → ErrorPayload → ReviewOutboxRecord → Type 0
Marked store s e r =
    (x : ReviewOutboxRecord) × (get r.operation_key store ≡ some (valid x)) × IsSettled r x s e

abbrev pub IsUnsynced : ReviewOutboxState → Type 0
IsUnsynced pending = Unit
IsUnsynced failed = Unit
IsUnsynced synced = ⊥

is_synced-IsUnsynced : (s : ReviewOutboxState) → is_synced s ≡ false → IsUnsynced s
is_synced-IsUnsynced pending h = tt
is_synced-IsUnsynced failed h = tt
is_synced-IsUnsynced synced h = cc

-- The first `n` records are marked as synced; the next is untouched, or recorded with an attempt
-- that did not sync it; all later ones are untouched.
pub data Marks (store : ReviewStore) : List ReviewOutboxRecord → ℕ → Type 0 where
  finished : Marks store [] zero
  stopped :
      {r : ReviewOutboxRecord} {rs : List ReviewOutboxRecord}
      → Untouched store r
        ⊎ ((s : ReviewOutboxState) × (e : ErrorPayload) × IsUnsynced s × Marked store s e r)
      → All (Untouched store) rs
      → Marks store (r ∷ rs) zero
  marked :
      {r : ReviewOutboxRecord} {rs : List ReviewOutboxRecord} {n : ℕ}
      → Marked store synced (record { code = []; message = [] }) r
      → Marks store rs n
      → Marks store (r ∷ rs) (suc n)

Apart-sym :
    (r : ReviewOutboxRecord) (rs : List ReviewOutboxRecord)
    → All (λ x. text_eq r.operation_key x.operation_key ≡ false) rs
    → All (Apart r.operation_key) rs
Apart-sym r [] h = tt
Apart-sym r (x ∷ rs) h = (
  ground (
    arith,
    text_eq_iff x.operation_key r.operation_key,
    text_eq_iff r.operation_key x.operation_key,
  ),
  Apart-sym r rs h.1,
)

keep-Untouched :
    (r : ReviewOutboxRecord) (before after : ReviewStore) (rs : List ReviewOutboxRecord)
    → ((j : Text) → Apart j r → get j after ≡ get j before)
    → All (λ x. text_eq r.operation_key x.operation_key ≡ false) rs
    → All (Untouched before) rs
    → All (Untouched after) rs
keep-Untouched r before after [] same h u = tt
keep-Untouched r before after (x ∷ rs) same h u =
    (same x.operation_key h.0 ∙ u.0, keep-Untouched r before after rs same h.1 u.1)

get-settled :
    (r : ReviewOutboxRecord) (s : ReviewOutboxState) (e : ErrorPayload) (now : ℕ)
    (before : ReviewStore)
    → IsWellKeyed before
    → Untouched before r
    → get r.operation_key (update_lesson_review r.operation_key (settled r s e) now before).0
      ≡ some (valid (apply_changes r (settled r s e) now))
get-settled r s e now before w u =
    get-update r.operation_key r.operation_key (settled r s e) now before w
    ∙ rw (text_eq_self r.operation_key, u) refl

-- What a run over the listed records does: `n` of them are acknowledged, and counted.
abbrev Ran : Progress → Progress → List ReviewOutboxRecord → Type 0
Ran p q rs = (n : ℕ) × (q.synchronized ≡ p.synchronized + n) × Marks q.store rs n

stopped-Ran :
    (r : ReviewOutboxRecord) (rs : List ReviewOutboxRecord) (p : Progress) (next : Progress × Bool)
    → IsWellKeyed p.store
    → All (λ x. text_eq r.operation_key x.operation_key ≡ false) rs
    → Untouched p.store r
    → All (Untouched p.store) rs
    → next.1 ≡ false
    → Handled r p.store p.synchronized next
    → Ran p next.0 (r ∷ rs)
stopped-Ran r rs p next w d u us f (acknowledged now t e c) = cc
stopped-Ran r rs p next w d u us f (recorded s x now t h e c) =
    let rest =
      keep-Untouched r p.store next.0.store rs
        (λ j k. get-Handled r p.store p.synchronized next w j k (recorded s x now t h e c)) d us in
    (
      0,
      omega arith,
      stopped
          (inr (
            s,
            x,
            is_synced-IsUnsynced s h,
            (
              apply_changes r (settled r s x) now,
              rw e (get-settled r s x now p.store w u),
              apply_changes-IsSettled r s x now,
            ),
          ))
          rest,
    )
stopped-Ran r rs p next w d u us f (left t e c) = (0, omega arith, stopped (inl (rw e u)) (rw e us))

acknowledged-Marked :
    (r : ReviewOutboxRecord) (p : Progress) (next : Progress × Bool)
    → IsWellKeyed p.store
    → Untouched p.store r
    → next.1 ≡ true
    → Handled r p.store p.synchronized next
    → Marked next.0.store synced no_error r × (next.0.synchronized ≡ p.synchronized + 1)
acknowledged-Marked r p next w u f (acknowledged now t e c) = (
  (
    apply_changes r (settled r synced no_error) now,
    rw e (get-settled r synced no_error now p.store w u),
    apply_changes-IsSettled r synced no_error now,
  ),
  c,
)
acknowledged-Marked r p next w u f (recorded s x now t h e c) = cc
acknowledged-Marked r p next w u f (left t e c) = cc

-- A run of the synchronisation marks as synced the records of a prefix of the list, each with one
-- more attempt and no error, and counts them. The run stops at the first record that is not
-- acknowledged: that one keeps its state or records a failed attempt, and the later ones are as
-- they were. The records stand in the store as listed, under distinct keys, each under its own.
pub sync_loop-Marks :
    (rs : List ReviewOutboxRecord) (attempts : List Attempt) (p : Progress)
    → IsWellKeyed p.store
    → Distinct rs
    → All (Untouched p.store) rs
    → (n : ℕ) × ((sync_loop rs attempts p).synchronized ≡ p.synchronized + n)
      × Marks (sync_loop rs attempts p).store rs n
unfolding sync_loop
sync_loop-Marks [] attempts p w d u = (0, omega arith, finished)
sync_loop-Marks (r ∷ rs) [] p w d u = (0, omega arith, stopped (inl u.0) u.1)
sync_loop-Marks (r ∷ rs) (a ∷ attempts) p w d u =
    let next = sync_record r a p in
    let handled = sync_record-Handled r a p in
    elim (Bool-cases next.1) [
      | inr t ↦ rw t (stopped-Ran r rs p next w d.0 u.0 u.1 t handled)
      | inl t ↦
          let ((x, here, is), count) = acknowledged-Marked r p next w u.0 t handled in
          let w' = Handled-IsWellKeyed r p.store p.synchronized next w handled in
          let us =
            keep-Untouched r p.store next.0.store rs
              (λ j k. get-Handled r p.store p.synchronized next w j k handled) d.0 u.1 in
          let (n, total, marks) = sync_loop-Marks rs attempts next.0 w' d.1 us in
          let kept = get-sync_loop r.operation_key rs attempts next.0 w' (Apart-sym r rs d.0) in
          rw t (suc n, omega (arith, total, count), marked (x, kept ∙ here, is) marks)
    ]
