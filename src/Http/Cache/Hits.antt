-- ===== src/Http/Cache/Hits.antt =====
-- What a call of `fetchWithTimeout` returns from the cache, and what empties the cache.
use lexi_go.Common.{
  ℕ, ◌+◌, ◌<◌, all, All, inl, inr, sym, true, false, Option, none, some, List, [], Text, codes,
  text_eq, ◌≡◌, refl, arith, ap, ◌∙◌, starts_with, ◌∷◌,
}
use lexi_go.Common.Store.{get}
use lexi_go.Http.Response.{Response}
use lexi_go.Http.Cache.{
  ClientRequestDetails, ClientResourceCache, client_resource_cache_key, cached_client_resource,
  invalidate_client_resources, client_resource_cache_ttl_ms, should_cache_client_resource, FetchEnd,
  responded, failed, from_cache, Call, Rejection, rejection_result, store_response, network,
  lookup_or_fetch, with_key, call_key, fetch_with_timeout,
}
use lexi_go.Http.Cache.Source.{
  Received, IsRecent, IsKeyOf, key-IsKeyOf, no_newline, split_unique, Some, Sourced,
  Sourced-invalidate, cached-IsRecent,
}

rejection_not_cached : (f : Rejection) (r : Response) → rejection_result f ≡ from_cache r → ⊥
unfolding rejection_result
rejection_not_cached f r h = ground arith

network_not_cached :
    (key : Option Text) (c : Call) (e : FetchEnd) (cache : ClientResourceCache) (r : Response)
    → (network key c e cache).1 ≡ from_cache r
    → ⊥
unfolding network
network_not_cached key c (responded x) cache r h = cc
network_not_cached key c (failed f) cache r h = rejection_not_cached f r h

lookup-cached :
    (k : Text) (c : Call) (cache : ClientResourceCache) (o : Option Response) (r : Response)
    → (lookup_or_fetch (some k) c (cache, o)).1 ≡ from_cache r
    → o ≡ some r
unfolding lookup_or_fetch
lookup-cached k c cache none r h = absurd (network_not_cached (some k) c c.end cache r h)
lookup-cached k c cache (some x) r h = ground arith

with_key-IsRecent :
    (history : List Received) (c : Call) (z : Option Text) (cache : ClientResourceCache)
    (r : Response)
    → Sourced history cache
    → (with_key z c cache).1 ≡ from_cache r
    → (key : Text) × (z ≡ some key) × Some (IsRecent key c.now r) history
unfolding with_key cached_client_resource
with_key-IsRecent history c none cache r s h = absurd (network_not_cached none c c.end cache r h)
with_key-IsRecent history c (some k) cache r s h = (
  k,
  refl,
  cached-IsRecent history cache k c.now (get k cache) r s refl (lookup-cached k c _ _ r h),
)

from_cache-key :
    (history : List Received) (c : Call) (cache : ClientResourceCache) (r : Response)
    → Sourced history cache
    → (fetch_with_timeout c cache).1 ≡ from_cache r
    → (key : Text) × (call_key c.details ≡ some key) × Some (IsRecent key c.now r) history
unfolding fetch_with_timeout
from_cache-key history c cache r s h =
    with_key-IsRecent history c (call_key c.details) _ r
      (Sourced-invalidate history cache c.details s) h

-- An authorization holds no line feed.
abbrev pub IsHeader : ClientRequestDetails → Type 0
IsHeader d = all no_newline d.authorization ≡ true

-- The response is one that was received for a request with the authorization and the URL of `d`, less
-- than 15 seconds old at `now`, and one that may be cached.
abbrev pub IsOwnResponse : ClientRequestDetails → ℕ → Response → Received → Type 0
IsOwnResponse d now r x =
    (x.details.authorization ≡ d.authorization)
    × (x.details.href ≡ d.href)
    × (x.response ≡ r)
    × (now < x.time + client_resource_cache_ttl_ms)
    × (should_cache_client_resource x.details.pathname r ≡ true)

own_response :
    (d : ClientRequestDetails) (key : Text) (now : ℕ) (r : Response) (x : Received)
    → IsKeyOf key d
    → IsHeader d
    → IsHeader x.details
    → IsRecent key now r x
    → IsOwnResponse d now r x
own_response d key now r x own header headers (other, response, recent, cacheable) =
    let (authorization, href) =
      split_unique x.details.authorization d.authorization x.details.href d.href headers header
        (sym other.key_text ∙ own.key_text) in
    (authorization, href, response, recent, cacheable)

own_responses :
    (d : ClientRequestDetails) (key : Text) (now : ℕ) (r : Response) (history : List Received)
    → IsKeyOf key d
    → IsHeader d
    → All (λ x. IsHeader x.details) history
    → Some (IsRecent key now r) history
    → Some (IsOwnResponse d now r) history
own_responses d key now r [] own header headers h = absurd h
own_responses d key now r (x ∷ history) own header headers (inl h) =
    inl (own_response d key now r x own header headers.0 h)
own_responses d key now r (x ∷ history) own header headers (inr h) =
    inr (own_responses d key now r history own header headers.1 h)

-- A response that a call takes from the cache, one whose entries all came from the network, was
-- received less than 15 seconds before, for a request with the same authorization and the same URL,
-- and is one that may be cached. No authorization, of this call or an earlier one, holds a line feed.
pub from_cache-IsRecent :
    (history : List Received) (c : Call) (d : ClientRequestDetails) (cache : ClientResourceCache)
    (r : Response)
    → Sourced history cache
    → c.details ≡ some d
    → IsHeader d
    → All (λ x. IsHeader x.details) history
    → (fetch_with_timeout c cache).1 ≡ from_cache r
    → Some (IsOwnResponse d c.now r) history
from_cache-IsRecent history c d cache r s same header headers h =
    let (key, keyed, recent) = from_cache-key history c cache r s h in
    own_responses d key c.now r history (key-IsKeyOf key d (sym (ap call_key same) ∙ keyed)) header
      headers recent

no_key_network :
    (c : Call) (e : FetchEnd) (cache : ClientResourceCache) → (network none c e cache).0 ≡ cache
unfolding network store_response
no_key_network c (responded r) cache = refl
no_key_network c (failed f) cache = refl

write-no_key :
    (d : ClientRequestDetails)
    → text_eq d.method (codes "GET") ≡ false
    → client_resource_cache_key d ≡ none
unfolding client_resource_cache_key
write-no_key d h = rw h

-- A request that is no GET empties the cache before it is sent if it goes to the API, whatever comes
-- of it, and is itself neither served from the cache nor put there.
pub fetch-write_empties :
    (c : Call) (d : ClientRequestDetails) (cache : ClientResourceCache)
    → c.details ≡ some d
    → text_eq d.method (codes "GET") ≡ false
    → starts_with (codes "/api/v1/") d.pathname ≡ true
    → ((fetch_with_timeout c cache).0 ≡ [])
      × ((r : Response) → ¬ ((fetch_with_timeout c cache).1 ≡ from_cache r))
unfolding fetch_with_timeout with_key invalidate_client_resources
fetch-write_empties c d cache same h api =
    let none_key : call_key c.details ≡ none = ap call_key same ∙ write-no_key d h in
    let emptied : invalidate_client_resources c.details cache ≡ [] =
      ap (λ o. invalidate_client_resources o cache) same ∙ rw (h, api) refl in
    (
      rw (none_key, emptied, with_key) (no_key_network c c.end []),
      λ r e. network_not_cached none c c.end [] r (rw (none_key, emptied, with_key) at e),
    )
