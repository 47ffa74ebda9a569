-- ===== src/Http/Cache/Source.antt =====
-- Where the responses that `fetchWithTimeout` returns come from.
use lexi_go.Common.{
  ℕ, ◌+◌, ◌<◌, Bool, true, false, not, ◌||◌, Option, none, some, List, [], ◌∷◌, ◌++◌, Text, codes,
  text_eq, text_eq_iff, leb, ◌==◌, ◌≡◌, refl, arith, ◌⊎◌, inl, inr, Bool-cases, Option-cases, all,
  sym, ◌∙◌, subst, starts_with, has,
}
use lexi_go.Common.Store.{get, delete, get-put, get-delete}
use lexi_go.Http.Response.{Response}
use lexi_go.Http.Cache.{
  ClientRequestDetails, ClientResourceCacheEntry, ClientResourceCache, client_resource_cache_ttl_ms,
  client_resource_cache_key, client_resource_cache_paths, cached_entry, cached_client_resource,
  should_cache_client_resource, invalidate_client_resources, Rejection, rejection_result, FetchEnd,
  responded, failed, FetchResult, from_network, Call, store_response, network, lookup_or_fetch,
  with_key, call_key, fetch_with_timeout,
}

abbrev pub no_newline : ℕ → Bool
no_newline c = not (c == 10)

newline_inside : (s t : Text) → all no_newline (s ++ 10 ∷ t) ≡ false
newline_inside [] t = refl
newline_inside (c ∷ s) t = ground (arith, newline_inside s t)

-- A text with a line feed says where it divides, if its first part holds none, as no header does.
pub split_unique :
    (a b h k : Text)
    → all no_newline a ≡ true
    → all no_newline b ≡ true
    → a ++ 10 ∷ h ≡ b ++ 10 ∷ k
    → (a ≡ b) × (h ≡ k)
split_unique [] [] h k p q e = (refl, cc)
split_unique [] (y ∷ b) h k p q e = absurd (ground arith)
split_unique (x ∷ a) [] h k p q e = absurd (ground arith)
split_unique (x ∷ a) (y ∷ b) h k p q e =
    let (r, s) = split_unique a b h k (ground arith) (ground arith) (ground arith) in
    (ground arith, s)

-- A response that came from the network, with its request and its time.
pub record Received : Type 0 where
  pub details : ClientRequestDetails
  pub response : Response
  pub time : ℕ

-- The key is the authorization of a request for one of the two resources, a line feed, and its URL.
pub record IsKeyOf (key : Text) (d : ClientRequestDetails) : Type 0 where
  pub key_text : key ≡ d.authorization ++ 10 ∷ d.href
  pub is_get : text_eq d.method (codes "GET") ≡ true
  pub is_resource :
      has (codes "/api/v1/progress" ∷ codes "/api/v1/lessons/active" ∷ []) d.pathname ≡ true

pub key-IsKeyOf :
    (key : Text) (d : ClientRequestDetails) → client_resource_cache_key d ≡ some key → IsKeyOf key d
unfolding client_resource_cache_key
key-IsKeyOf key d h = elim (Bool-cases (text_eq d.method (codes "GET"))) [
  | inr other ↦ absurd (some_key-none (rw other at h))
  | inl get_method ↦ elim (Bool-cases (has client_resource_cache_paths d.pathname)) [
    | inr elsewhere ↦ absurd (some_key-none (rw (get_method, elsewhere) at h))
    | inl resource ↦ record {
      key_text = sym (option_text (rw (get_method, resource) at h));
      is_get = get_method;
      is_resource = resource;
    }
  ]
]
  where
    some_key-none : {k : Text} → ◌≡◌ {A = Option Text} none (some k) → ⊥
    some_key-none e = cc

    option_text : {a b : Text} → ◌≡◌ {A = Option Text} (some a) (some b) → a ≡ b
    option_text e = cc

-- The entry holds a response that was received for a request with this key, until 15 seconds after.
pub record IsFrom (key : Text) (e : ClientResourceCacheEntry) (r : Received) : Type 0 where
  pub own_key : IsKeyOf key r.details
  pub same_response : r.response ≡ e.response
  pub expiry : e.expires_at ≡ r.time + client_resource_cache_ttl_ms
  pub cacheable : should_cache_client_resource r.details.pathname r.response ≡ true

abbrev pub Some {ℓ} : {A : Type ℓ} → (A → Type 0) → List A → Type 0
Some P [] = ⊥
Some P (x ∷ xs) = P x ⊎ Some P xs

Some-map {ℓ} :
    {A : Type ℓ} (P Q : A → Type 0) → ((x : A) → P x → Q x) → (xs : List A) → Some P xs → Some Q xs
Some-map P Q f [] h = absurd h
Some-map P Q f (x ∷ xs) (inl h) = inl (f x h)
Some-map P Q f (x ∷ xs) (inr h) = inr (Some-map P Q f xs h)

-- Every entry of the cache is from a response of the history.
abbrev pub Sourced : List Received → ClientResourceCache → Type 0
Sourced history cache =
    (key : Text) (e : ClientResourceCacheEntry)
    → get key cache ≡ some e
    → Some (IsFrom key e) history

-- The history after a call: what came from the network is put in front.
abbrev pub heard : Call → Option ClientRequestDetails → FetchResult → List Received → List Received
heard c (some d) (from_network r) history =
    record { details = d; response = r; time = c.later } ∷ history
heard c _ _ history = history

Sourced-delete :
    (history : List Received) (cache : ClientResourceCache) (k : Text)
    → Sourced history cache
    → Sourced history (delete k cache)
Sourced-delete history cache k s key e h = elim (Bool-cases (text_eq k key)) [
  | inl t ↦ absurd (ground (arith, get-delete k key cache))
  | inr t ↦ s key e (ground (arith, get-delete k key cache))
]

pub Sourced-invalidate :
    (history : List Received) (cache : ClientResourceCache) (o : Option ClientRequestDetails)
    → Sourced history cache
    → Sourced history (invalidate_client_resources o cache)
unfolding invalidate_client_resources
Sourced-invalidate history cache none s = s
Sourced-invalidate history cache (some d) s =
    elim (Bool-cases
      (text_eq d.method (codes "GET") || not (starts_with (codes "/api/v1/") d.pathname))) [
        | inl t ↦ rw t s
        | inr t ↦ rw t (λ key e h. absurd (ground arith))
      ]

store_response-Sourced :
    (history : List Received) (cache : ClientResourceCache) (later : ℕ) (d : ClientRequestDetails)
    (r : Response) (k : Text)
    → client_resource_cache_key d ≡ some k
    → Sourced history cache
    → Sourced
        (record { details = d; response = r; time = later } ∷ history)
        (store_response (some k) (some d) later r cache)
unfolding store_response
store_response-Sourced history cache later d r k own s key e h =
    elim (Bool-cases (should_cache_client_resource d.pathname r)) [
      | inr t ↦ inr (s key e (ground arith))
      | inl t ↦ elim (Bool-cases (text_eq k key)) [
        | inr f ↦ inr (
            s key e (
              ground (
                arith,
                get-put k key
                    (record { expires_at = later + client_resource_cache_ttl_ms; response = r })
                    cache,
              )))
        | inl f ↦
            let entry : record { expires_at = later + client_resource_cache_ttl_ms; response = r }
                ≡ e =
              ground (
                arith,
                get-put k key
                    (record { expires_at = later + client_resource_cache_ttl_ms; response = r })
                    cache,
              ) in
            let same : k ≡ key = (text_eq_iff k key).0 f in
            rw (← entry) (
              inl (record {
                own_key = key-IsKeyOf key d (rw (← same) own);
                same_response = refl;
                expiry = refl;
                cacheable = t;
              }))
      ]
    ]

Sourced-longer :
    (history : List Received) (x : Received) (cache : ClientResourceCache)
    → Sourced history cache
    → Sourced (x ∷ history) cache
Sourced-longer history x cache s key e h = inr (s key e h)

stored-Sourced :
    (history : List Received) (cache : ClientResourceCache) (later : ℕ) (d : ClientRequestDetails)
    (r : Response) (z : Option Text)
    → client_resource_cache_key d ≡ z
    → Sourced history cache
    → Sourced
        (record { details = d; response = r; time = later } ∷ history)
        (store_response z (some d) later r cache)
unfolding store_response
stored-Sourced history cache later d r none own s = Sourced-longer history _ cache s
stored-Sourced history cache later d r (some k) own s =
    store_response-Sourced history cache later d r k own s

heard-rejection :
    (c : Call) (d : ClientRequestDetails) (f : Rejection) (history : List Received)
    → heard c (some d) (rejection_result f) history ≡ history
unfolding rejection_result
heard-rejection c d f history = ground arith

network-Sourced :
    (history : List Received) (cache : ClientResourceCache) (c : Call)
    (o : Option ClientRequestDetails) (e : FetchEnd)
    → c.details ≡ o
    → Sourced history cache
    → Sourced
        (heard c o (network (call_key o) c e cache).1 history)
        (network (call_key o) c e cache).0
unfolding network
network-Sourced history cache c none (responded r) same s = s
network-Sourced history cache c none (failed f) same s = s
network-Sourced history cache c (some d) (failed f) same s = rw (heard-rejection c d f history) s
network-Sourced history cache c (some d) (responded r) same s =
    subst
      (λ o.
        Sourced (record { details = d; response = r; time = c.later } ∷ history)
          (store_response (client_resource_cache_key d) o c.later r cache))
      (sym same) (stored-Sourced history cache c.later d r (client_resource_cache_key d) refl s)

cached-Sourced :
    (history : List Received) (cache : ClientResourceCache) (k : Text) (now : ℕ)
    (o : Option ClientResourceCacheEntry)
    → Sourced history cache
    → Sourced history (cached_entry k now cache o).0
unfolding cached_entry
cached-Sourced history cache k now none s = s
cached-Sourced history cache k now (some e) s = elim (Bool-cases (leb e.expires_at now)) [
  | inl t ↦ rw t (Sourced-delete history cache k s)
  | inr t ↦ rw t s
]

-- The response is one that was received for a request with this key, less than 15 seconds old at
-- `now`.
abbrev pub IsRecent : Text → ℕ → Response → Received → Type 0
IsRecent key now r x =
    IsKeyOf key x.details
    × (x.response ≡ r)
    × (now < x.time + client_resource_cache_ttl_ms)
    × (should_cache_client_resource x.details.pathname r ≡ true)

pub cached-IsRecent :
    (history : List Received) (cache : ClientResourceCache) (k : Text) (now : ℕ)
    (o : Option ClientResourceCacheEntry) (r : Response)
    → Sourced history cache
    → get k cache ≡ o
    → (cached_entry k now cache o).1 ≡ some r
    → Some (IsRecent k now r) history
unfolding cached_entry
cached-IsRecent history cache k now none r s e h = cc
cached-IsRecent history cache k now (some x) r s e h = elim (Bool-cases (leb x.expires_at now)) [
  | inl t ↦ absurd (ground arith)
  | inr t ↦
      let same : x.response ≡ r = ground arith in
      Some-map (IsFrom k x) (IsRecent k now r)
        (λ y f. (
          f.own_key,
          f.same_response ∙ same,
          ground (arith, f.expiry),
          rw same at (rw f.same_response at f.cacheable),
        ))
        history (s k x e)
]

lookup_or_fetch-Sourced :
    (history : List Received) (c : Call) (d : ClientRequestDetails) (k : Text)
    (cache : ClientResourceCache) (o : Option Response)
    → c.details ≡ some d
    → client_resource_cache_key d ≡ some k
    → Sourced history cache
    → Sourced
        (heard c (some d) (lookup_or_fetch (some k) c (cache, o)).1 history)
        (lookup_or_fetch (some k) c (cache, o)).0
unfolding lookup_or_fetch
lookup_or_fetch-Sourced history c d k cache none same own s =
    subst
      (λ z.
        Sourced (heard c (some d) (network z c c.end cache).1 history) (network z c c.end cache).0)
      own (network-Sourced history cache c (some d) c.end same s)
lookup_or_fetch-Sourced history c d k cache (some r) same own s =
    elim (Bool-cases c.aborted_before) [ inl t ↦ rw t s | inr t ↦ rw t s ]

fetch-details :
    (history : List Received) (c : Call) (o : Option ClientRequestDetails)
    (cache : ClientResourceCache)
    → c.details ≡ o
    → Sourced history cache
    → Sourced
        (heard c o (with_key (call_key o) c cache).1 history)
        (with_key (call_key o) c cache).0
unfolding with_key cached_client_resource
fetch-details history c none cache same s = network-Sourced history cache c none c.end same s
fetch-details history c (some d) cache same s = elim (Option-cases (client_resource_cache_key d)) [
  | inl k ↦
      rw (k, with_key)
        (subst
          (λ z.
            Sourced (heard c (some d) (network z c c.end cache).1 history)
              (network z c c.end cache).0)
          k (network-Sourced history cache c (some d) c.end same s))
  | inr (key, k) ↦
      rw (k, with_key)
        (lookup_or_fetch-Sourced history c d key _ _ same k
          (cached-Sourced history cache key c.now (get key cache) s))
]

-- Every call keeps the cache to responses that the network gave: if each entry stands under the
-- authorization and the URL, with a line feed between them, of a GET request for one of the two
-- resources, holds a response that was received for that request and may be cached, and expires 15
-- seconds after, then so does each entry after the call.
pub fetch-Sourced :
    (history : List Received) (c : Call) (cache : ClientResourceCache)
    → Sourced history cache
    → let next = fetch_with_timeout c cache in Sourced (heard c c.details next.1 history) next.0
unfolding fetch_with_timeout
fetch-Sourced history c cache s =
    fetch-details history c c.details _ refl (Sourced-invalidate history cache c.details s)
