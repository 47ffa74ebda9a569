-- ===== src/Tests/Http.antt =====
-- The client's requests at concrete responses: frontend/lib/request-failure.ts.
use lexi_go.Common.{ℕ, false, none, some, List, [], codes, ◌≡◌, refl, arith}
use lexi_go.Http.Response.{Response}
use lexi_go.Http.Cache.{
  ClientRequestDetails, ClientResourceCache, Call, responded, from_cache, fetch_with_timeout,
  client_resource_cache_key, cached_client_resource, cached_entry, should_cache_client_resource,
  invalidate_client_resources,
}
use lexi_go.Http.Cache.Source.{Received, Sourced, heard, Some, fetch-Sourced}
use lexi_go.Http.Cache.Hits.{IsOwnResponse, from_cache-IsRecent}

abbrev ok : Response
ok = record { status = 200; status_text = []; body = none }

abbrev unavailable : Response
unavailable = record { status = 503; status_text = codes "down"; body = none }

abbrev progress_request : ClientRequestDetails
progress_request = record {
  method = codes "GET";
  pathname = codes "/api/v1/progress";
  href = codes "https://lexigo.test/api/v1/progress";
  authorization = codes "Bearer t";
}

abbrev review_request : ClientRequestDetails
review_request = record progress_request {
  method = codes "POST";
  pathname = codes "/api/v1/reviews";
}

abbrev call_at : ClientRequestDetails → ℕ → Call
call_at d now = record {
  details = some d;
  aborted_before = false;
  now = now;
  end = responded ok;
  later = now;
}

abbrev first_call : Call
first_call = call_at progress_request 100

abbrev second_call : Call
second_call = call_at progress_request 200

empty-Sourced : Sourced [] []
empty-Sourced key e h = ground arith

fetch-Sourced_example :
    let next = fetch_with_timeout first_call [] in
    Sourced (heard first_call (some progress_request) next.1 []) next.0
fetch-Sourced_example = fetch-Sourced [] first_call [] empty-Sourced

abbrev after : ClientResourceCache
after = (fetch_with_timeout first_call []).0

abbrev history : List Received
history = heard first_call (some progress_request) (fetch_with_timeout first_call []).1 []

hit : (fetch_with_timeout second_call after).1 ≡ from_cache ok
unfolding fetch_with_timeout client_resource_cache_key cached_client_resource cached_entry
    should_cache_client_resource invalidate_client_resources
hit = refl

from_cache-IsRecent_example : Some (IsOwnResponse progress_request 200 ok) history
unfolding fetch_with_timeout client_resource_cache_key cached_client_resource cached_entry
    should_cache_client_resource invalidate_client_resources
from_cache-IsRecent_example =
    from_cache-IsRecent history second_call progress_request after ok
      (fetch-Sourced [] first_call [] empty-Sourced) refl refl (refl, tt) hit
