-- ===== src/Outbox/Run/Listed.antt =====
-- A run over the store's own listing: the records that it lists are there, under distinct keys.
use lexi_go.Common.{
  ℕ, Bool, true, false, ◌&&◌, none, some, List, [], ◌∷◌, Text, text_eq, text_eq_iff, leb, filter,
  All, ◌≡◌, refl, arith, Bool-cases, inl, inr, sym, ap, ◌∙◌,
}
use lexi_go.Common.Sort.{sort_by, insert, IsSorted, sort_by-IsSorted, filter-IsSorted}
use lexi_go.Common.Store.{get}
use lexi_go.Auth.Session.{Session}
use lexi_go.Outbox.Queue.{ReviewStore, records, owned_by, list_lesson_reviews}
use lexi_go.Outbox.Queue.Listing.{is_pending, tally, tally-sort}
use lexi_go.Outbox.Queue.Update.{IsWellKeyed}
use lexi_go.Outbox.Record.{
  ReviewOutboxState, pending, failed, synced, ReviewOutboxRecord, valid, foreign,
}
use lexi_go.Outbox.Sync.{Attempt}
use lexi_go.Outbox.Sync.Acknowledged.{Distinct, Untouched, Marks, sync_loop-Marks}
use lexi_go.Outbox.Run.{pending_reviews, start_progress, sync_run}

abbrev ApartFrom : ReviewOutboxRecord → ReviewOutboxRecord → Type 0
ApartFrom r x = text_eq r.operation_key x.operation_key ≡ false

ApartFrom-sym : (r x : ReviewOutboxRecord) → ApartFrom r x → ApartFrom x r
ApartFrom-sym r x h = elim (Bool-cases (text_eq x.operation_key r.operation_key)) [
  | inr apart ↦ apart
  | inl same ↦
      let e = sym ((text_eq_iff x.operation_key r.operation_key).0 same) in
      absurd (ground (arith, (text_eq_iff r.operation_key x.operation_key).1 e))
]

All-filter :
    (P : ReviewOutboxRecord → Type 0) (p : ReviewOutboxRecord → Bool) (rs : List ReviewOutboxRecord)
    → All P rs
    → All P (filter p rs)
All-filter P p [] h = tt
All-filter P p (r ∷ rs) h = elim (Bool-cases (p r)) [
  | inl keep ↦ rw keep (h.0, All-filter P p rs h.1)
  | inr drop ↦ rw drop (All-filter P p rs h.1)
]

pub Distinct-filter :
    (p : ReviewOutboxRecord → Bool) (rs : List ReviewOutboxRecord)
    → Distinct rs
    → Distinct (filter p rs)
Distinct-filter p [] d = tt
Distinct-filter p (r ∷ rs) d = elim (Bool-cases (p r)) [
  | inl keep ↦ rw keep (All-filter (ApartFrom r) p rs d.0, Distinct-filter p rs d.1)
  | inr drop ↦ rw drop (Distinct-filter p rs d.1)
]

module _ (key : ReviewOutboxRecord → ℕ) where
  All-insert :
      (P : ReviewOutboxRecord → Type 0) (x : ReviewOutboxRecord) (rs : List ReviewOutboxRecord)
      → P x
      → All P rs
      → All P (insert key x rs)
  All-insert P x [] p h = (p, tt)
  All-insert P x (r ∷ rs) p h = elim (Bool-cases (leb (key x) (key r))) [
    | inl first ↦ rw first (p, h)
    | inr later ↦ rw later (h.0, All-insert P x rs p h.1)
  ]

  All-sort_by :
      (P : ReviewOutboxRecord → Type 0) (rs : List ReviewOutboxRecord)
      → All P rs
      → All P (sort_by key rs)
  All-sort_by P [] h = tt
  All-sort_by P (r ∷ rs) h = All-insert P r (sort_by key rs) h.0 (All-sort_by P rs h.1)

  Distinct-insert :
      (x : ReviewOutboxRecord) (rs : List ReviewOutboxRecord)
      → All (ApartFrom x) rs
      → Distinct rs
      → Distinct (insert key x rs)
  Distinct-insert x [] a d = (tt, tt)
  Distinct-insert x (r ∷ rs) a d = elim (Bool-cases (leb (key x) (key r))) [
    | inl first ↦ rw first (a, d)
    | inr later ↦
        rw later
          (All-insert (ApartFrom r) x rs (ApartFrom-sym x r a.0) d.0, Distinct-insert x rs a.1 d.1)
  ]

  Distinct-sort_by : (rs : List ReviewOutboxRecord) → Distinct rs → Distinct (sort_by key rs)
  Distinct-sort_by [] d = tt
  Distinct-sort_by (r ∷ rs) d =
      Distinct-insert r (sort_by key rs) (All-sort_by (ApartFrom r) rs d.0)
        (Distinct-sort_by rs d.1)

All-map :
    {P Q : ReviewOutboxRecord → Type 0} (rs : List ReviewOutboxRecord)
    → ((r : ReviewOutboxRecord) → P r → Q r)
    → All P rs
    → All Q rs
All-map [] f h = tt
All-map (r ∷ rs) f h = (f r h.0, All-map rs f h.1)

-- A key without an entry is not the key of a record that is there.
absent-apart :
    (k : Text) (m : ReviewStore) (r : ReviewOutboxRecord)
    → get k m ≡ none
    → get r.operation_key m ≡ some (valid r)
    → text_eq k r.operation_key ≡ false
absent-apart k m r a h = elim (Bool-cases (text_eq k r.operation_key)) [
  | inr apart ↦ apart
  | inl same ↦ absurd (ground (arith, ap (λ j. get j m) ((text_eq_iff k r.operation_key).0 same)))
]

Untouched-records :
    (store : ReviewStore) → IsWellKeyed store → All (Untouched store) (records store)
Untouched-records [] w = tt
Untouched-records ((k, valid r) ∷ m) w = (
  rw ((text_eq_iff k r.operation_key).1 (sym w.0)) refl,
  All-map (records m) (λ x h. rw (absent-apart k m x w.1 h) h) (Untouched-records m w.2),
)
Untouched-records ((k, foreign) ∷ m) w =
    All-map (records m) (λ r h. rw (absent-apart k m r w.1 h) h) (Untouched-records m w.2)

pub Distinct-records : (store : ReviewStore) → IsWellKeyed store → Distinct (records store)
Distinct-records [] w = tt
Distinct-records ((k, foreign) ∷ m) w = Distinct-records m w.2
Distinct-records ((k, valid r) ∷ m) w = (
  All-map (records m) (λ x h. ap (λ j. text_eq j x.operation_key) w.0 ∙ absent-apart k m x w.1 h)
      (Untouched-records m w.2),
  Distinct-records m w.2,
)

tally-filter :
    (p q : ReviewOutboxRecord → Bool) (rs : List ReviewOutboxRecord)
    → tally p (filter q rs) ≡ tally (λ r. q r && p r) rs
tally-filter p q [] = refl
tally-filter p q (r ∷ rs) = ground (arith, tally-filter p q rs)

-- A pending review of the user.
abbrev pub is_own_pending : Session → ReviewOutboxRecord → Bool
is_own_pending s r =
    text_eq r.user_id s.user.id
    && elim r.status [ pending ↦ true | failed ↦ false | synced ↦ false ]

own_pending-and :
    (s : Session) (r : ReviewOutboxRecord) (b : Bool)
    → (owned_by s.user.id r && (is_pending r.status && b)) ≡ (is_own_pending s r && b)
own_pending-and s r b = status_and (text_eq r.user_id s.user.id) b r.status
  where
    status_and :
        (a b : Bool) (x : ReviewOutboxState)
        → (a && (is_pending x && b))
          ≡ (a && elim x [ pending ↦ true | failed ↦ false | synced ↦ false ] && b)
    status_and a b pending = ground arith
    status_and a b failed = ground arith
    status_and a b synced = ground arith

tally-congruent :
    (p q : ReviewOutboxRecord → Bool) (rs : List ReviewOutboxRecord)
    → ((r : ReviewOutboxRecord) → p r ≡ q r)
    → tally p rs ≡ tally q rs
tally-congruent p q [] e = refl
tally-congruent p q (r ∷ rs) e = ground (arith, e r, tally-congruent p q rs e)

tally-pending_reviews :
    (s : Session) (store : ReviewStore) (test : ReviewOutboxRecord → Bool)
    → tally test (pending_reviews s store)
      ≡ tally (λ r. is_own_pending s r && test r) (records store)
unfolding list_lesson_reviews
tally-pending_reviews s store test =
    tally-filter test (λ r. is_pending r.status)
      (sort_by (λ r. r.created_at) (filter (owned_by s.user.id) (records store)))
    ∙ tally-sort (λ r. is_pending r.status && test r) (filter (owned_by s.user.id) (records store))
    ∙ tally-filter (λ r. is_pending r.status && test r) (owned_by s.user.id) (records store)
    ∙ tally-congruent (λ r. owned_by s.user.id r && (is_pending r.status && test r))
        (λ r. is_own_pending s r && test r) (records store) (λ r. own_pending-and s r (test r))

-- A run over a store where records stand under their own keys, in whatever order they came, takes the
-- user's pending reviews, oldest first: by every test, as many of them pass it as of the user's
-- pending records in the store. It leaves a prefix of them in the state `synced`, without an error
-- and counted one by one; the review after the prefix is as it was, or is still pending or failed.
-- What is recorded has one more attempt, and keeps its keys, its address and its body. All later
-- reviews are as they were.
pub sync_run-Marks :
    (s : Session) (attempts : List Attempt) (store : ReviewStore) (test : ReviewOutboxRecord → Bool)
    → IsWellKeyed store
    → IsSorted (λ r. r.created_at) (pending_reviews s store)
      × (tally test (pending_reviews s store)
          ≡ tally (λ r. is_own_pending s r && test r) (records store))
      × (n : ℕ) × ((sync_run s attempts store).synchronized ≡ n)
      × Marks (sync_run s attempts store).store (pending_reviews s store) n
unfolding sync_run list_lesson_reviews
sync_run-Marks s attempts store test w =
    let mine = filter (owned_by s.user.id) (records store) in
    let listed = sort_by (λ r. r.created_at) mine in
    let own_pending = λ (r : ReviewOutboxRecord). is_pending r.status in
    let (n, count, marks) =
      sync_loop-Marks (filter own_pending listed) attempts (start_progress s store) w
        (Distinct-filter own_pending listed (
          Distinct-sort_by (λ r. r.created_at) mine
            (Distinct-filter (owned_by s.user.id) (records store) (Distinct-records store w))))
        (All-filter (Untouched store) own_pending listed (
          All-sort_by (λ r. r.created_at) (Untouched store) mine
            (All-filter (Untouched store) (owned_by s.user.id) (records store)
              (Untouched-records store w)))) in
    (
      filter-IsSorted (λ r. r.created_at) own_pending listed
          (sort_by-IsSorted (λ r. r.created_at) mine),
      tally-pending_reviews s store test,
      n,
      omega (arith, count),
      marks,
    )
