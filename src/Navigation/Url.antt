-- ===== src/Navigation/Url.antt =====
-- `parseNavigation`, `navigationURL` and `canonicalURLFromLegacySearch` of
-- frontend/lib/navigation.ts, over the `URLSearchParams` of the browser.
pub mod Params
pub mod Dots
pub mod Read
use lexi_go.Common.{
  ℕ, ◌<◌, Bool, true, false, not, ◌≡◌, Option, none, some, List, [], ◌∷◌, ◌++◌, Text, codes,
  text_eq, ltb, leb, ◌==◌, if◌then◌else◌, is_nonempty, is_some, get_or, All, has,
}
use mathlib.Core.List.{reverse}
use lexi_go.Common.Split.{split_on, join_with}
use lexi_go.Common.Decimal.{show}
use lexi_go.Common.Uri.Total.{IsWritable}
use lexi_go.Json.{ℤ, pos, negsuc, Number, int, fraction, infinite, nan}
use lexi_go.Navigation.Target.{
  AppView, NavigationSource, CatalogStatus, CatalogSort, default, az, za, NavigationTarget, bare,
  source_text, status_text, sort_text, views, sources, catalog_statuses, catalog_sorts,
  normalized_string, page_of_text, ◌>>=◌,
}
use lexi_go.Navigation.Path.{normal_or_home, pathname_target, route_path}

abbrev pub Params : Type 0
Params = List (Text × Text)

-- `params.get(key)`.
unfoldable pub get_param : Text → Params → Option Text
get_param key [] = none
get_param key ((k, v) ∷ params) = if text_eq k key then some v else get_param key params

unfoldable pub delete_param : Text → Params → Params
delete_param key [] = []
delete_param key ((k, v) ∷ params) =
    let rest = delete_param key params in if text_eq k key then rest else (k, v) ∷ rest

-- `params.set(key, value)`.
unfoldable pub set_param : Text → Text → Params → Params
unfolding delete_param
set_param key value [] = (key, value) ∷ []
set_param key value ((k, v) ∷ params) =
    let rest = set_param key value params in
    if text_eq k key then (k, value) ∷ delete_param key params else (k, v) ∷ rest

-- What the browser does: `new URLSearchParams(text)` and `params.toString()`. Parameters without a
-- lone surrogate survive the way through the text, which is empty only where there are none.
pub record SearchParams : Type 0 where
  pub entries : Text → Params
  pub text : Params → Text
  pub entries-text :
      (params : Params)
      → All (λ e. IsWritable e.0 × IsWritable e.1) params
      → entries (text params) ≡ params
  pub text-nil : text [] ≡ []
  pub text-cons : (e : Text × Text) (params : Params) → is_nonempty (text (e ∷ params)) ≡ true

-- `a ?? b`.
abbrev pub or_else {ℓ} : {A : Type ℓ} → Option A → Option A → Option A
or_else none b = b
or_else (some a) b = some a

abbrev pub greater_than_one : Number → Bool
greater_than_one (int (pos n)) = ltb 1 n
greater_than_one (int (negsuc n)) = false
greater_than_one (fraction (pos n) m) = leb 1 n
greater_than_one (fraction (negsuc n) m) = false
greater_than_one (infinite negative) = not negative
greater_than_one nan = false

-- `...(page && page > 1 ? { page } : {})`.
abbrev pub kept_page : Option Number → Option Number
kept_page none = none
kept_page (some n) = if greater_than_one n then some n else none

abbrev pub page_number : Option ℕ → Option Number
page_number none = none
page_number (some n) = some (int (pos n))

abbrev pub strip_mark : Text → Text
strip_mark [] = []
strip_mark (c ∷ s) = if c == 63 then s else c ∷ s

unfoldable pub read_target : Params → NavigationTarget → NavigationTarget
unfolding get_param
read_target params from_path = record {
  view = get_or (get_param (codes "view") params >>= views) from_path.view;
  source = or_else (get_param (codes "source") params >>= sources) from_path.source;
  topic = or_else (get_param (codes "topic") params >>= normalized_string) from_path.topic;
  status = or_else (get_param (codes "status") params >>= catalog_statuses) from_path.status;
  query = or_else (get_param (codes "query") params >>= normalized_string) from_path.query;
  sort = or_else (get_param (codes "sort") params >>= catalog_sorts) from_path.sort;
  page =
      kept_page
        (or_else (page_number (get_param (codes "page") params >>= page_of_text)) from_path.page);
  detail = or_else (get_param (codes "detail") params >>= normalized_string) from_path.detail;
}

abbrev pub maybe_text {ℓ} : {A : Type ℓ} → (A → Text) → Option A → Option Text
maybe_text f none = none
maybe_text f (some a) = some (f a)

abbrev pub sort_param : Option CatalogSort → Option Text
sort_param none = none
sort_param (some default) = none
sort_param (some az) = some (sort_text az)
sort_param (some za) = some (sort_text za)

-- `String(page)` is the digits below 10 ^ 21; a normal page is a natural number.
abbrev pub page_param : Option Number → Option Text
page_param (some (int (pos n))) = if ltb 1 n then some (show n) else none
page_param _ = none

abbrev pub set_if : Text → Option Text → Params → Params
set_if key none params = params
set_if key (some value) params = set_param key value params

unfoldable pub target_params : NavigationTarget → Params
unfolding source_text status_text sort_text
target_params t = set_if (codes "page") (page_param t.page) (
    set_if (codes "sort") (sort_param t.sort) (
      set_if (codes "query") t.query (
        set_if (codes "status") (maybe_text status_text t.status) (
          set_if (codes "topic") t.topic
            (set_if (codes "source") (maybe_text source_text t.source) [])))))

abbrev pub with_query : Text → Text → Text
with_query query path = if is_nonempty query then path ++ 63 ∷ query else path

abbrev pub with_path : Text → Option Text → Option Text
with_path query none = none
with_path query (some path) = some (with_query query path)

module _ (browser : SearchParams) where
  unfoldable pub parse_navigation : Text → Text → NavigationTarget
  unfolding read_target
  parse_navigation search pathname =
      read_target (browser.entries (strip_mark search)) (pathname_target pathname)

  -- `none` is the `URIError` of a surrogate that stands alone.
  unfoldable pub navigation_url : NavigationTarget → Option Text
  unfolding target_params
  navigation_url t =
      let normalized = normal_or_home t in
      with_path (browser.text (target_params normalized)) (route_path normalized)

  -- `some url` where the search has a view, with the `URIError` inside.
  unfoldable pub canonical_url_from_legacy_search : Text → Option (Option Text)
  unfolding parse_navigation navigation_url
  canonical_url_from_legacy_search search =
      if is_some (get_param (codes "view") (browser.entries (strip_mark search)))
      then some (navigation_url (parse_navigation search (codes "/")))
      else none

-- The `pathname` and the `search` of a location.
pub record Location : Type 0 where
  pub pathname : Text
  pub search : Text

-- The path of a URL and its search, where it has no fragment.
unfoldable pub split_location : Text → Location
split_location [] = record { pathname = []; search = [] }
split_location (c ∷ s) =
    let rest = split_location s in
    if c == 63
    then record { pathname = []; search = c ∷ s }
    else record rest { pathname = c ∷ rest.pathname }

-- The segments that a browser takes for the same directory and for the one above, `.` written as
-- `%2e` included.
abbrev pub single_dots : List Text
single_dots = codes "." ∷ codes "%2e" ∷ codes "%2E" ∷ []

abbrev pub double_dots : List Text
double_dots =
    codes ".."
    ∷ codes ".%2e"
    ∷ codes ".%2E"
    ∷ codes "%2e."
    ∷ codes "%2E."
    ∷ codes "%2e%2e"
    ∷ codes "%2e%2E"
    ∷ codes "%2E%2e"
    ∷ codes "%2E%2E"
    ∷ []

abbrev pub is_single_dot : Text → Bool
is_single_dot s = has single_dots s

abbrev pub is_double_dot : Text → Bool
is_double_dot s = has double_dots s

abbrev pub shorten : List Text → List Text
shorten [] = []
shorten (s ∷ ss) = ss

-- The segments of the path so far, the last one in front, and those that follow.
unfoldable pub resolved : List Text → List Text → List Text
resolved done [] = done
resolved done (s ∷ []) =
    if is_double_dot s then [] ∷ shorten done else if is_single_dot s then [] ∷ done else s ∷ done
resolved done (s ∷ t ∷ rest) = elim (is_double_dot s) [
  | true ↦ resolved (shorten done) (t ∷ rest)
  | false ↦ elim (is_single_dot s) [
    | true ↦ resolved done (t ∷ rest)
    | false ↦ resolved (s ∷ done) (t ∷ rest)
  ]
]

-- An absolute path without the segments of dots, as the URL parser of a browser leaves it.
unfoldable pub without_dots : Text → Text
unfolding resolved
without_dots [] = codes "/"
without_dots (c ∷ path) = 47 ∷ join_with 47 (reverse (resolved [] (split_on 47 path)))

-- The location of a URL that is an absolute path with a search or without one. The URLs of
-- `navigationURL` have no backslash and no fragment, and no other characters that a browser changes.
unfoldable pub location_of : Text → Location
unfolding split_location without_dots
location_of url =
    let location = split_location url in
    record location { pathname = without_dots location.pathname }

unfoldable pub parse_navigation_location : SearchParams → Location → NavigationTarget
unfolding parse_navigation
parse_navigation_location browser location =
    parse_navigation browser location.search location.pathname
