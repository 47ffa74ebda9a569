-- ===== src/Http/Cache.antt =====
-- `fetchWithTimeout` of frontend/lib/request-failure.ts and the cache of client resources. The URL
-- and the headers of a request are as the browser parses them; what the network, the clock and the
-- caller's signal do is an argument. The cache is a `Map`, its keys in insertion order.

pub mod Source
pub mod Hits
use lexi_go.Common.{
  ℕ, ◌+◌, ◌≤◌, ◌<◌, Bool, true, false, not, ◌&&◌, ◌||◌, Option, none, some, List, [], ◌∷◌, ◌++◌,
  Text, codes, text_eq, leb, ltb, ◌==◌, if◌then◌else◌, has, starts_with,
}
use lexi_go.Common.Store.{get, put, delete}
use lexi_go.Http.Failure.{RequestFailure, new_failure, timeout, offline, unknown}
use lexi_go.Http.Response.{Response, is_ok}

pub record ClientRequestDetails : Type 0 where
  pub method : Text
  pub pathname : Text
  pub href : Text
  pub authorization : Text

pub record ClientResourceCacheEntry : Type 0 where
  pub expires_at : ℕ
  pub response : Response

abbrev pub ClientResourceCache : Type 0
ClientResourceCache = List (Text × ClientResourceCacheEntry)

abbrev pub client_resource_cache_ttl_ms : ℕ
client_resource_cache_ttl_ms = 15000

abbrev pub client_resource_cache_paths : List Text
client_resource_cache_paths = codes "/api/v1/progress" ∷ codes "/api/v1/lessons/active" ∷ []

-- The authorization and the URL with a line feed between.
abbrev pub key_of : Text → Text → Text
key_of authorization href = authorization ++ 10 ∷ href

unfoldable pub client_resource_cache_key : ClientRequestDetails → Option Text
client_resource_cache_key d =
    if not (text_eq d.method (codes "GET")) || not (has client_resource_cache_paths d.pathname)
    then none
    else some (key_of d.authorization d.href)

unfoldable pub cached_entry :
    Text
    → ℕ
    → ClientResourceCache
    → Option ClientResourceCacheEntry
    → ClientResourceCache × Option Response
cached_entry key now cache none = (cache, none)
cached_entry key now cache (some e) =
    if leb e.expires_at now then (delete key cache, none) else (cache, some e.response)

unfoldable pub cached_client_resource :
    Text → ℕ → ClientResourceCache → ClientResourceCache × Option Response
unfolding cached_entry
cached_client_resource key now cache = cached_entry key now cache (get key cache)

unfoldable pub should_cache_client_resource : Text → Response → Bool
should_cache_client_resource pathname r =
    if text_eq pathname (codes "/api/v1/progress")
    then is_ok r
    else text_eq pathname (codes "/api/v1/lessons/active") && (r.status == 404)

unfoldable pub invalidate_client_resources :
    Option ClientRequestDetails → ClientResourceCache → ClientResourceCache
invalidate_client_resources none cache = cache
invalidate_client_resources (some d) cache =
    if text_eq d.method (codes "GET") || not (starts_with (codes "/api/v1/") d.pathname)
    then cache
    else []

-- How `await fetch(…)` ends, and what holds when it rejects.
pub record Rejection : Type 0 where
  pub timed_out : Bool
  pub caller_aborted : Bool
  pub navigator_offline : Bool
  pub is_type_error : Bool

pub data FetchEnd : Type 0 where
  responded : Response → FetchEnd
  failed : Rejection → FetchEnd

pub data FetchResult : Type 0 where
  from_cache : Response → FetchResult
  from_network : Response → FetchResult
  aborted : FetchResult
  rethrown : FetchResult
  threw : RequestFailure → FetchResult

unfoldable pub rejection_result : Rejection → FetchResult
rejection_result r =
    if r.timed_out
    then threw (record (new_failure timeout (codes "Request timed out")) {
      code = codes "request_timeout";
    })
    else if r.caller_aborted
    then rethrown
    else if r.navigator_offline || r.is_type_error
    then threw (record (new_failure offline (codes "Network connection is unavailable")) {
      code = codes "network_offline";
    })
    else threw (new_failure unknown (codes "Request failed"))

-- One call: the details of its request, the caller's signal on entry, the two times at which the
-- clock is read, and the end of the request if one is made.
pub record Call : Type 0 where
  pub details : Option ClientRequestDetails
  pub aborted_before : Bool
  pub now : ℕ
  pub end : FetchEnd
  pub later : ℕ

store_response :
    Option Text
    → Option ClientRequestDetails
    → ℕ
    → Response
    → ClientResourceCache
    → ClientResourceCache
store_response (some key) (some d) later r cache =
    if should_cache_client_resource d.pathname r
    then put key (record { expires_at = later + client_resource_cache_ttl_ms; response = r }) cache
    else cache
store_response _ _ later r cache = cache

network : Option Text → Call → FetchEnd → ClientResourceCache → ClientResourceCache × FetchResult
unfolding store_response
network key c (responded r) cache = (store_response key c.details c.later r cache, from_network r)
network key c (failed f) cache = (cache, rejection_result f)

lookup_or_fetch :
    Option Text → Call → ClientResourceCache × Option Response → ClientResourceCache × FetchResult
unfolding network
lookup_or_fetch key c (cache, some r) = (cache, if c.aborted_before then aborted else from_cache r)
lookup_or_fetch key c (cache, none) = network key c c.end cache

with_key : Option Text → Call → ClientResourceCache → ClientResourceCache × FetchResult
unfolding lookup_or_fetch network
with_key none c cache = network none c c.end cache
with_key (some key) c cache = lookup_or_fetch (some key) c (cached_client_resource key c.now cache)

abbrev pub call_key : Option ClientRequestDetails → Option Text
call_key none = none
call_key (some d) = client_resource_cache_key d

unfoldable pub fetch_with_timeout : Call → ClientResourceCache → ClientResourceCache × FetchResult
unfolding with_key
fetch_with_timeout c cache =
    with_key (call_key c.details) c (invalidate_client_resources c.details cache)
