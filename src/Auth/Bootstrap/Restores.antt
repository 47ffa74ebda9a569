-- ===== src/Auth/Bootstrap/Restores.antt =====
-- The restores of frontend/lib/session-bootstrap.ts: the current generation has one at most.
use lexi_go.Common.{
  ℕ, ◌+◌, ◌≤◌, ◌<◌, false, Option, none, some, List, [], ◌∷◌, Text, ◌==◌, if◌then◌else◌, All,
  Bool-cases, inl, inr, text_eq, subst, ◌≡◌, refl, arith,
}
use lexi_go.Auth.Session.{Session}
use lexi_go.Auth.Bootstrap.{
  BootstrapState, Restore, restore_bootstrapped_session, restore_then, restore_finally,
  adopt_bootstrapped_session, invalidate_bootstrapped_session, Event, asked, restored, ended,
  adopted, invalidated, step, find_restore, end_restore, start_restore, share_or_restore,
  restore_with_token, clear_if_cached, clear_cached_session, is_restore, cache_restored,
}

-- A pending restore is of an earlier generation, or it is the active one.
abbrev Tracked : Option ℕ → ℕ → ℕ → Restore → Type 0
Tracked active generation fresh r =
    (r.id < fresh)
    × (r.restore_generation ≤ generation)
    × (r.restore_generation ≡ generation → active ≡ some r.id)

abbrev Below : ℕ → Option ℕ → Type 0
Below n none = Unit
Below n (some p) = p < n

pub record Inv (m : BootstrapState) : Type 0 where
  pub tracked : All (Tracked m.active_restore m.generation m.fresh) m.pending
  pub known : Below m.fresh m.active_restore

pub All-imp :
    {P Q : Restore → Type 0} (rs : List Restore) → ((r : Restore) → P r → Q r) → All P rs → All Q rs
All-imp [] f h = tt
All-imp (r ∷ rs) f h = (f r h.0, All-imp rs f h.1)

pub All-end_restore :
    {P Q : Restore → Type 0} (p : ℕ) (rs : List Restore)
    → ((r : Restore) → (r.id == p) ≡ false → P r → Q r)
    → All P rs
    → All Q (end_restore p rs)
All-end_restore p [] f h = tt
All-end_restore p (r ∷ rs) f h = elim (Bool-cases (r.id == p)) [
  | inl same ↦ rw same (All-end_restore p rs f h.1)
  | inr other ↦ rw other (f r other h.0, All-end_restore p rs f h.1)
]

some_inj : (a b : Restore) → some a ≡ some b → a ≡ b
some_inj a b e = ground arith

pub find_restore-All :
    (P : Restore → Type 0) (p : ℕ) (rs : List Restore) (r : Restore)
    → find_restore p rs ≡ some r
    → All P rs
    → P r × (r.id ≡ p)
find_restore-All P p [] r e h = ground arith
find_restore-All P p (q ∷ rs) r e h = elim (Bool-cases (q.id == p)) [
  | inl same ↦
      let found = some_inj q r (rw same at e) in
      subst (λ x. P x × (x.id ≡ p)) found (h.0, ground arith)
  | inr other ↦ let later = rw other at e in find_restore-All P p rs r later h.1
]

start-Inv : (m : BootstrapState) → m.active_restore ≡ none → Inv m → Inv (start_restore m).0
start-Inv m n v = record {
  tracked = (
    (omega arith, omega arith, λ e. refl),
    All-imp m.pending (λ r t. (omega (arith, t.0), t.1, λ e. absurd (ground (arith, t.2 e))))
        v.tracked,
  );
  known = omega arith;
}

share-Inv :
    (m : BootstrapState) (o : Option ℕ)
    → m.active_restore ≡ o
    → Inv m
    → Inv (share_or_restore o m).0
share-Inv m none n v = start-Inv m n v
share-Inv m (some p) n v = v

cache-Inv :
    (m : BootstrapState) (r : Option Restore) (s : Option Session) (cookie : Text)
    → Inv m
    → Inv (cache_restored r s cookie m)
cache-Inv m none s cookie v = v
cache-Inv m (some r) none cookie v = v
cache-Inv m (some r) (some s) cookie v = ground arith

ended-Tracked :
    (o : Option ℕ) (g n p : ℕ) (r : Restore)
    → (r.id == p) ≡ false
    → Tracked o g n r
    → Tracked (if is_restore p o then none else o) g n r
ended-Tracked o g n p r other t = (t.0, t.1, λ e. rw (t.2 e) (ground arith))

ended-known : (o : Option ℕ) (n p : ℕ) → Below n o → Below n (if is_restore p o then none else o)
ended-known none n p b = b
ended-known (some q) n p b = ground arith

finally-Inv : (m : BootstrapState) (p : ℕ) → Inv m → Inv (restore_finally p m)
unfolding restore_finally
finally-Inv m p v = record {
  tracked =
      All-end_restore p m.pending (λ r. ended-Tracked m.active_restore m.generation m.fresh p r)
        v.tracked;
  known = ended-known m.active_restore m.fresh p v.known;
}

bump-Tracked :
    (m : BootstrapState) → Inv m → All (Tracked none (m.generation + 1) m.fresh) m.pending
bump-Tracked m v =
    All-imp m.pending (λ r t. (t.0, omega (arith, t.1), λ e. absurd (omega (arith, t.1)))) v.tracked

asked-Inv :
    (m : BootstrapState) (token : Text) → Inv m → Inv (restore_bootstrapped_session token m).0
unfolding restore_bootstrapped_session
asked-Inv m [] v = clear_if_cached-Inv m.cached_session
  where
    clear_if_cached-Inv : (o : Option Session) → Inv (clear_if_cached o m)
    clear_if_cached-Inv none = v
    clear_if_cached-Inv (some s) = record { tracked = v.tracked; known = v.known }
asked-Inv m (c ∷ token) v = with_token-Inv m.cached_session
  where
    with_token-Inv : (o : Option Session) → Inv (restore_with_token o (c ∷ token) m).0
    with_token-Inv none = share-Inv m m.active_restore refl v
    with_token-Inv (some s) = elim (Bool-cases (text_eq m.cached_csrf_token (c ∷ token))) [
      | inl same ↦ rw same v
      | inr other ↦ rw other (
          share-Inv (clear_cached_session m) m.active_restore refl
            (record { tracked = v.tracked; known = v.known }))
    ]

-- Every event keeps the restores in order: each restore that has not ended belongs to an earlier
-- generation or is the active one, so the current generation never has two.
pub step-Inv : (m : BootstrapState) (e : Event) → Inv m → Inv (step m e)
unfolding step restore_then adopt_bootstrapped_session invalidate_bootstrapped_session
step-Inv m (asked token) v = asked-Inv m token v
step-Inv m (restored p s cookie) v = cache-Inv m (find_restore p m.pending) s cookie v
step-Inv m (ended p) v = finally-Inv m p v
step-Inv m (adopted s cookie) v = record { tracked = bump-Tracked m v; known = tt }
step-Inv m invalidated v = record { tracked = bump-Tracked m v; known = tt }
