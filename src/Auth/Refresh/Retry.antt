-- ===== src/Auth/Refresh/Retry.antt =====
-- How often a refresh is tried, and what comes of it.
use native.Mathlib.Nat.{add-zero}
use lexi_go.Common.{
  ap, ◌∙◌, subst, ℕ, zero, suc, ◌+◌, ◌≤◌, ◌<◌, Bool, true, false, List, [], ◌∷◌, ◌≡◌, refl, arith,
  ◌⊎◌, inl, inr, Bool-cases, length, take,
}
use lexi_go.Http.Failure.{RequestFailure, client, malformed}
use lexi_go.Auth.Refresh.{
  RefreshEnd, is_retryable_session_refresh_error, is_definitive_session_refresh_error, is_conflict,
  should_retry, perform_refresh,
}

-- The refresh ends with its attempt `n`: every attempt before it was one to retry, the delays waited
-- are the first `n`, and the delays are used up or the last attempt was not one to retry.
pub record EndsAt (transient : Bool) (delays : List ℕ) (attempts : ℕ → RefreshEnd) (i n : ℕ)
    : Type 0 where
  pub bound : n ≤ length delays
  pub retried : (k : ℕ) → k < n → should_retry transient (attempts (i + k)) ≡ true
  pub result : (perform_refresh transient delays attempts i).0 ≡ attempts (i + n)
  pub waited : (perform_refresh transient delays attempts i).1 ≡ take n delays
  pub final : (n ≡ length delays) ⊎ (should_retry transient (attempts (i + n)) ≡ false)

ends_here :
    (transient : Bool) (delays : List ℕ) (attempts : ℕ → RefreshEnd) (i : ℕ)
    → perform_refresh transient delays attempts i ≡ (attempts i, [])
    → (0 ≡ length delays) ⊎ (should_retry transient (attempts i) ≡ false)
    → EndsAt transient delays attempts i 0
ends_here transient delays attempts i e f = record {
  bound = omega arith;
  retried = λ k h. absurd (omega arith);
  result = ap (λ p. p.0) e ∙ ap attempts (omega arith);
  waited = ap (λ p. p.1) e ∙ refl;
  final = rw (add-zero i) f;
}

retried_first :
    (transient : Bool) (attempts : ℕ → RefreshEnd) (i n : ℕ)
    → should_retry transient (attempts i) ≡ true
    → ((k : ℕ) → k < n → should_retry transient (attempts (suc i + k)) ≡ true)
    → (k : ℕ) → k < suc n
    → should_retry transient (attempts (i + k)) ≡ true
retried_first transient attempts i n h r zero l = rw (add-zero i) h
retried_first transient attempts i n h r (suc k) l =
    subst (λ m. should_retry transient (attempts m) ≡ true) (omega arith) (r k (omega arith))

ends_later :
    (transient : Bool) (d : ℕ) (ds : List ℕ) (attempts : ℕ → RefreshEnd) (i n : ℕ)
    → should_retry transient (attempts i) ≡ true
    → EndsAt transient ds attempts (suc i) n
    → EndsAt transient (d ∷ ds) attempts i (suc n)
unfolding perform_refresh
ends_later transient d ds attempts i n h e =
    let shift : suc i + n ≡ i + suc n = omega arith in
    record {
      bound = omega (arith, e.bound);
      retried = retried_first transient attempts i n h e.retried;
      result = rw h (e.result ∙ ap attempts shift);
      waited = rw h (ap (◌∷◌ d) e.waited);
      final = later shift e.final;
    }
  where
    later :
        suc i + n ≡ i + suc n
        → (n ≡ length ds) ⊎ (should_retry transient (attempts (suc i + n)) ≡ false)
        → (suc n ≡ length (d ∷ ds)) ⊎ (should_retry transient (attempts (i + suc n)) ≡ false)
    later shift (inl q) = inl (omega arith)
    later shift (inr q) = inr (subst (λ m. should_retry transient (attempts m) ≡ false) shift q)

-- The loop of retries ends: it makes at most one attempt more than there are delays, waits the
-- delays in order, stops at the first attempt that succeeded or is not one to retry, and returns
-- what that attempt, or the last one, gave.
pub perform_refresh-EndsAt :
    (transient : Bool) (delays : List ℕ) (attempts : ℕ → RefreshEnd) (i : ℕ)
    → (n : ℕ) × EndsAt transient delays attempts i n
unfolding perform_refresh
perform_refresh-EndsAt transient [] attempts i =
    (0, ends_here transient [] attempts i refl (inl refl))
perform_refresh-EndsAt transient (d ∷ ds) attempts i =
    elim (Bool-cases (should_retry transient (attempts i))) [
      | inl h ↦
          let (n, e) = perform_refresh-EndsAt transient ds attempts (suc i) in
          (suc n, ends_later transient d ds attempts i n h e)
      | inr h ↦ (0, ends_here transient (d ∷ ds) attempts i (rw h) (inr h))
    ]

-- An error that ends the session is never one to retry, unless the server names it a conflict; an
-- error that is neither is the server's refusal of the request or a response that cannot be read.
pub retryable_or_definitive :
    (e : RequestFailure)
    → (is_definitive_session_refresh_error e ≡ true
        → is_conflict e ≡ false
        → is_retryable_session_refresh_error e ≡ false)
      × (is_definitive_session_refresh_error e ≡ false
          → is_retryable_session_refresh_error e ≡ false
          → (e.kind ≡ client) ⊎ (e.kind ≡ malformed))
unfolding is_definitive_session_refresh_error is_retryable_session_refresh_error
retryable_or_definitive e = ground arith
