-- ===== src/Auth/Bootstrap/Stale.antt =====
-- A restore that was started before a sign-in or a sign-out changes nothing afterwards, and the
-- current generation has one restore at most.
use lexi_go.Common.{
  ℕ, ◌≤◌, ◌<◌, true, false, Option, none, some, List, [], ◌∷◌, Text, ◌==◌, is_nonempty, All,
  text_eq_self, ◌≡◌, refl, arith,
}
use lexi_go.Auth.Session.{Session}
use lexi_go.Auth.Bootstrap.{
  BootstrapState, Restore, restore_bootstrapped_session, restore_then, restore_finally,
  adopt_bootstrapped_session, invalidate_bootstrapped_session, Event, asked, restored, ended,
  adopted, invalidated, step, run, find_restore, share_or_restore, restore_with_token,
  clear_if_cached, cache_restored, resolved,
}
use lexi_go.Auth.Bootstrap.Restores.{Inv, All-imp, All-end_restore, find_restore-All}

-- What can happen while nobody signs in: calls, and the ends of restores that were started before
-- the number `n`.
abbrev pub Settling : ℕ → Event → Type 0
Settling n (asked token) = Unit
Settling n (restored p s cookie) = p < n
Settling n (ended p) = Unit
Settling n (adopted s cookie) = ⊥
Settling n invalidated = Unit

abbrev Old : ℕ → ℕ → Restore → Type 0
Old n g r = r.id < n → r.restore_generation < g

record SignedOut (n : ℕ) (m : BootstrapState) : Type 0 where
  empty : m.cached_session ≡ none
  later : n ≤ m.fresh
  old : All (Old n m.generation) m.pending

share-SignedOut :
    (n : ℕ) (m : BootstrapState) (o : Option ℕ)
    → SignedOut n m
    → SignedOut n (share_or_restore o m).0
share-SignedOut n m none h = record {
  empty = h.empty;
  later = omega (arith, h.later);
  old = ((λ b. absurd (omega (arith, h.later, b))), h.old);
}
share-SignedOut n m (some p) h = h

asked-SignedOut :
    (n : ℕ) (m : BootstrapState) (token : Text)
    → SignedOut n m
    → SignedOut n (restore_bootstrapped_session token m).0
unfolding restore_bootstrapped_session
asked-SignedOut n m [] h = cleared m.cached_session h.empty
  where
    cleared : (o : Option Session) → o ≡ none → SignedOut n (clear_if_cached o m)
    cleared none e = h
    cleared (some s) e = ground arith
asked-SignedOut n m (c ∷ token) h = asking m.cached_session h.empty
  where
    asking : (o : Option Session) → o ≡ none → SignedOut n (restore_with_token o (c ∷ token) m).0
    asking none e = share-SignedOut n m m.active_restore h
    asking (some s) e = absurd (ground arith)

cached-SignedOut :
    (n p : ℕ) (m : BootstrapState) (o : Option Restore) (s : Option Session) (cookie : Text)
    → find_restore p m.pending ≡ o
    → p < n
    → SignedOut n m
    → SignedOut n (cache_restored o s cookie m)
cached-SignedOut n p m none s cookie f b h = h
cached-SignedOut n p m (some r) none cookie f b h = h
cached-SignedOut n p m (some r) (some s) cookie f b h =
    let (old, same) = find_restore-All (Old n m.generation) p m.pending r f h.old in
    let earlier = old (rw same b) in
    let other : (m.generation == r.restore_generation) ≡ false = ground arith in rw other h

step-SignedOut :
    (n : ℕ) (m : BootstrapState) (e : Event) → Settling n e → SignedOut n m → SignedOut n (step m e)
unfolding step restore_then restore_finally invalidate_bootstrapped_session
step-SignedOut n m (asked token) a h = asked-SignedOut n m token h
step-SignedOut n m (restored p s cookie) a h =
    cached-SignedOut n p m (find_restore p m.pending) s cookie refl a h
step-SignedOut n m (ended p) a h = record {
  empty = h.empty;
  later = h.later;
  old = All-end_restore p m.pending (λ r other o. o) h.old;
}
step-SignedOut n m (adopted s cookie) a h = absurd a
step-SignedOut n m invalidated a h = record {
  empty = refl;
  later = h.later;
  old = All-imp m.pending (λ r o b. omega (arith, o b)) h.old;
}

run-SignedOut :
    (n : ℕ) (m : BootstrapState) (es : List Event)
    → All (Settling n) es
    → SignedOut n m
    → SignedOut n (run m es)
unfolding run
run-SignedOut n m [] a h = h
run-SignedOut n m (e ∷ es) a h = run-SignedOut n (step m e) es a.1 (step-SignedOut n m e a.0 h)

invalidate-SignedOut :
    (m : BootstrapState) → Inv m → SignedOut m.fresh (invalidate_bootstrapped_session m)
unfolding invalidate_bootstrapped_session
invalidate-SignedOut m v = record {
  empty = refl;
  later = omega arith;
  old = All-imp m.pending (λ r t b. omega (arith, t.1)) v.tracked;
}

-- Once the cache is invalidated, in a state whose restores are in order, no restore that was
-- started before brings a session back: whatever calls and further invalidations come, whatever
-- those restores end with and however late, the cache stays empty as long as no new restore ends
-- and no session is adopted.
pub run-invalidate_stale :
    (m : BootstrapState) (es : List Event)
    → Inv m
    → All (Settling m.fresh) es
    → (run (invalidate_bootstrapped_session m) es).cached_session ≡ none
run-invalidate_stale m es v a =
    (run-SignedOut m.fresh (invalidate_bootstrapped_session m) es a
      (invalidate-SignedOut m v)).empty

-- The ends of restores that were started before the number `n`.
abbrev pub Ending : ℕ → Event → Type 0
Ending n (asked token) = ⊥
Ending n (restored p s cookie) = p < n
Ending n (ended p) = Unit
Ending n (adopted s cookie) = ⊥
Ending n invalidated = ⊥

record Adopted (n : ℕ) (s : Session) (cookie : Text) (m : BootstrapState) : Type 0 where
  kept : m.cached_session ≡ some s
  token : m.cached_csrf_token ≡ cookie
  old : All (Old n m.generation) m.pending

cached-Adopted :
    (n p : ℕ) (k : Session) (c : Text) (m : BootstrapState) (o : Option Restore)
    (s : Option Session) (cookie : Text)
    → find_restore p m.pending ≡ o
    → p < n
    → Adopted n k c m
    → Adopted n k c (cache_restored o s cookie m)
cached-Adopted n p k c m none s cookie f b h = h
cached-Adopted n p k c m (some r) none cookie f b h = h
cached-Adopted n p k c m (some r) (some s) cookie f b h =
    let (old, same) = find_restore-All (Old n m.generation) p m.pending r f h.old in
    let earlier = old (rw same b) in
    let other : (m.generation == r.restore_generation) ≡ false = ground arith in rw other h

run-Adopted :
    (n : ℕ) (k : Session) (c : Text) (m : BootstrapState) (es : List Event)
    → All (Ending n) es
    → Adopted n k c m
    → Adopted n k c (run m es)
unfolding run step restore_then restore_finally
run-Adopted n k c m [] a h = h
run-Adopted n k c m (asked token ∷ es) a h = absurd a.0
run-Adopted n k c m (restored p s cookie ∷ es) a h =
    run-Adopted n k c (step m (restored p s cookie)) es a.1
      (cached-Adopted n p k c m (find_restore p m.pending) s cookie refl a.0 h)
run-Adopted n k c m (ended p ∷ es) a h = run-Adopted n k c (step m (ended p)) es a.1 (record {
  kept = h.kept;
  token = h.token;
  old = All-end_restore p m.pending (λ r other o. o) h.old;
})
run-Adopted n k c m (adopted s cookie ∷ es) a h = absurd a.0
run-Adopted n k c m (invalidated ∷ es) a h = absurd a.0

adopt-Adopted :
    (m : BootstrapState) (s : Session) (cookie : Text)
    → Inv m
    → Adopted m.fresh s cookie (adopt_bootstrapped_session s cookie m)
unfolding adopt_bootstrapped_session
adopt-Adopted m s cookie v = record {
  kept = refl;
  token = refl;
  old = All-imp m.pending (λ r t b. omega (arith, t.1)) v.tracked;
}

-- A session that is adopted in a state whose restores are in order stays: however the restores that
-- were started before end, a call with the same cookie, one that is not empty, still gets the
-- adopted session and starts no request.
pub restore-adopt_stale :
    (m : BootstrapState) (s : Session) (cookie : Text) (es : List Event)
    → Inv m
    → is_nonempty cookie ≡ true
    → All (Ending m.fresh) es
    → let settled = run (adopt_bootstrapped_session s cookie m) es in
      restore_bootstrapped_session cookie settled ≡ (settled, resolved (some s))
unfolding restore_bootstrapped_session
restore-adopt_stale m s cookie es v c a =
    let h =
      run-Adopted m.fresh s cookie (adopt_bootstrapped_session s cookie m) es a
        (adopt-Adopted m s cookie v) in
    rw (c, h.kept, h.token, text_eq_self cookie) refl
