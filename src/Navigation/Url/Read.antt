-- ===== src/Navigation/Url/Read.antt =====
-- `parseNavigation` reads back the URL that `navigationURL` writes.
use lexi_go.Common.{
  ℕ, zero, suc, ◌≤◌, ◌<◌, ◌≡◌, refl, ap, ◌∙◌, true, false, Option, none, some, [], ◌∷◌, ◌++◌, Text,
  codes, leb, lt→ltb, ◌==◌, is_nonempty, get_or, arith, Bool-cases, inl, inr,
}
use lexi_go.Common.Decimal.{show, value-show, all-show, show-cons}
use lexi_go.Common.Trim.{true-ne-false}
use lexi_go.Common.Uri.Total.{IsWritable}
use lexi_go.Json.{pos, negsuc, Number, int, fraction, infinite, nan, max_safe_integer}
use lexi_go.Navigation.Target.{
  AppView, NavigationTarget, NavigationSource, CatalogStatus, CatalogSort, default, az, za, bare,
  source_text, status_text, sources, catalog_statuses, catalog_sorts, normalized_string,
  page_of_text, ◌>>=◌,
}
use lexi_go.Navigation.Target.Normal.{
  IsNormal, IsNormalText, OptionIs, IsLaterPage, normalized_string-eq, sources-source_text,
  catalog_statuses-status_text, catalog_sorts-sort_text, normalize_navigation-target_value,
}
use lexi_go.Navigation.Path.{is_scenario_slug, is_digits, detailed, pathname_target, route_path}
use lexi_go.Navigation.Path.Segments.{no_query}
use lexi_go.Navigation.Path.Routes.{
  routed, leads_zero, ReadBack, route_path-ReadBack, route_path-IsNormal,
}
use lexi_go.Navigation.Url.{
  Params, SearchParams, or_else, kept_page, page_number, read_target, maybe_text, sort_param,
  page_param, target_params, with_query, with_path, parse_navigation, navigation_url, location_of,
  split_location, without_dots, parse_navigation_location,
}
use lexi_go.Navigation.Url.Dots.{has_dots, without_dots-route_for}
use lexi_go.Navigation.Url.Params.{
  get-view, get-source, get-topic, get-status, get-query, get-sort, get-page, get-detail,
  target_params-All, or_else-none,
}

-- The default order is not written.
abbrev pub chosen_sort : Option CatalogSort → Option CatalogSort
chosen_sort none = none
chosen_sort (some default) = none
chosen_sort (some az) = some az
chosen_sort (some za) = some za

abbrev pub IsSafePage : Number → Type 0
IsSafePage (int (pos n)) = n ≤ max_safe_integer
IsSafePage _ = ⊥

pub source_read : (o : Option NavigationSource) → (maybe_text source_text o >>= sources) ≡ o
source_read none = refl
source_read (some s) = sources-source_text s

pub status_read : (o : Option CatalogStatus) → (maybe_text status_text o >>= catalog_statuses) ≡ o
status_read none = refl
status_read (some s) = catalog_statuses-status_text s

sort_read : (o : Option CatalogSort) → (sort_param o >>= catalog_sorts) ≡ chosen_sort o
sort_read none = refl
sort_read (some default) = refl
sort_read (some az) = catalog_sorts-sort_text az
sort_read (some za) = catalog_sorts-sort_text za

pub text_read : (o : Option Text) → OptionIs IsNormalText o → (o >>= normalized_string) ≡ o
text_read none h = refl
text_read (some s) h = normalized_string-eq s h

pub page_of_text-show : (n : ℕ) → n ≤ max_safe_integer → 0 < n → page_of_text (show n) ≡ some n
unfolding page_of_text
page_of_text-show zero h k = absurd (omega arith)
page_of_text-show (suc n) h k =
    let (d, t, e) = show-cons (suc n) in
    let full : is_nonempty (show (suc n)) ≡ true = rw e refl in
    let small : leb (suc n) max_safe_integer ≡ true = ground arith in
    rw (full, all-show (suc n), value-show (suc n), small) refl

page_read :
    (o : Option Number)
    → OptionIs IsLaterPage o
    → OptionIs IsSafePage o
    → kept_page (or_else (page_number (page_param o >>= page_of_text)) none) ≡ o
page_read none h k = refl
page_read (some (int (pos n))) h k =
    rw (lt→ltb 1 n h, page_of_text-show n k (omega arith)) (rw (lt→ltb 1 n h) refl)
page_read (some (int (negsuc n))) h k = absurd h
page_read (some (fraction z m)) h k = absurd h
page_read (some (infinite b)) h k = absurd h
page_read (some nan) h k = absurd h

-- A target with the view and the detail of a path, and the rest of `t`.
abbrev pub restored : NavigationTarget → NavigationTarget → NavigationTarget
restored from t = record from {
  source = t.source;
  topic = t.topic;
  status = t.status;
  query = t.query;
  sort = chosen_sort t.sort;
  page = t.page;
}

read_target-detailed :
    (t : NavigationTarget) (v : AppView) (d : Option Text)
    → IsNormal t
    → OptionIs IsSafePage t.page
    → read_target (target_params t) (detailed v d) ≡ restored (detailed v d) t
unfolding read_target
read_target-detailed t v d h k =
    rw
      (
        get-view t,
        get-source t,
        source_read t.source,
        get-topic t,
        text_read t.topic h.topic,
        get-status t,
        status_read t.status,
        get-query t,
        text_read t.query h.query,
        get-sort t,
        sort_read t.sort,
        get-page t,
        page_read t.page h.page k,
        get-detail t,
      )
      (rw
        (
          or_else-none t.source,
          or_else-none t.topic,
          or_else-none t.status,
          or_else-none t.query,
          or_else-none (chosen_sort t.sort),
        )
        refl)

-- The detail that a path has for a view and a detail.
pub routed_detail :
    (v : AppView) (d : Option Text) → (e : Option Text) × (routed v d ≡ detailed v e)
unfolding routed
routed_detail AppView.lesson d = (some (get_or d (codes "active")), refl)
routed_detail AppView.scenario none = (none, refl)
routed_detail AppView.scenario (some d) = elim (Bool-cases (is_scenario_slug d)) [
  | inl slug ↦ (some d, rw slug refl)
  | inr k ↦ (none, rw k refl)
]
routed_detail AppView.library none = (none, refl)
routed_detail AppView.library (some d) = elim (Bool-cases (is_digits d)) [
  | inl digits ↦ (some d, rw digits refl)
  | inr k ↦ (none, rw k refl)
]
routed_detail AppView.phrases d = (d, refl)
routed_detail AppView.home d = (none, refl)
routed_detail AppView.learn d = (none, refl)
routed_detail AppView.progress d = (none, refl)
routed_detail AppView.profile d = (none, refl)
routed_detail AppView.onboarding d = (none, refl)

read_target-routed :
    (t : NavigationTarget) (v : AppView) (d : Option Text)
    → IsNormal t
    → OptionIs IsSafePage t.page
    → read_target (target_params t) (routed v d) ≡ restored (routed v d) t
read_target-routed t v d h k =
    let (e, q) = routed_detail v d in rw q (read_target-detailed t v e h k)

split_location-plain :
    (p : Text) → no_query p ≡ true → split_location p ≡ record { pathname = p; search = [] }
unfolding split_location
split_location-plain [] h = refl
split_location-plain (c ∷ p) h = elim (Bool-cases (c == 63)) [
  | inl mark ↦ absurd (true-ne-false (rw mark at h))
  | inr k ↦ rw (k, split_location-plain p (rw k at h)) refl
]

split_location-query :
    (p q : Text)
    → no_query p ≡ true
    → split_location (p ++ 63 ∷ q) ≡ record { pathname = p; search = 63 ∷ q }
unfolding split_location
split_location-query [] q h = refl
split_location-query (c ∷ p) q h = elim (Bool-cases (c == 63)) [
  | inl mark ↦ absurd (true-ne-false (rw mark at h))
  | inr k ↦ rw (k, split_location-query p q (rw k at h)) refl
]

module _ (browser : SearchParams) where
  -- The search that the browser takes from a URL with this query is read as the query.
  read_location :
      (p : Text) (params : Params)
      → no_query p ≡ true
      → without_dots p ≡ p
      → parse_navigation_location browser (location_of (with_query (browser.text params) p))
        ≡ read_target (browser.entries (browser.text params)) (pathname_target p)
  unfolding parse_navigation_location parse_navigation location_of
  read_location p params h u = by_query (browser.text params)
    where
      by_query :
          (q : Text)
          → parse_navigation_location browser (location_of (with_query q p))
            ≡ read_target (browser.entries q) (pathname_target p)
      by_query [] = rw (split_location-plain p h, u) refl
      by_query (c ∷ q) = rw (split_location-query p (c ∷ q) h, u) refl

  -- For a normal target without lone surrogates, whose page is a safe integer, whose word does not
  -- begin with 0 and whose phrase or lesson is not `.` or `..`, `navigationURL` does not throw, and the
  -- location that a browser has for its URL, dots in its path resolved, is read as the same target:
  -- only a detail that its view has no route for and the default order are left out.
  pub parse_navigation-navigation_url :
      (t : NavigationTarget)
      → IsNormal t
      → OptionIs IsWritable t.topic
      → OptionIs IsWritable t.query
      → OptionIs IsWritable t.detail
      → OptionIs IsSafePage t.page
      → leads_zero t.view t.detail ≡ false
      → has_dots t.view t.detail ≡ false
      → (url : Text) × (navigation_url browser t ≡ some url)
        × (parse_navigation_location browser (location_of url)
            ≡ restored (routed t.view t.detail) t)
  unfolding navigation_url
  parse_navigation-navigation_url t h topic query detail page z dots =
      let r : ReadBack t.view t.detail = route_path-ReadBack t h detail z in
      let query_text = browser.text (target_params t) in
      (
        with_query query_text r.path,
        ap
              (λ o.
                with_path (browser.text (target_params (get_or o (bare AppView.home))))
                  (route_path (get_or o (bare AppView.home))))
              (normalize_navigation-target_value t h)
            ∙ ap (with_path query_text) (route_path-IsNormal t h ∙ r.written),
        read_location r.path (target_params t) r.plain
              (without_dots-route_for t.view t.detail r.path h.detail detail dots r.written)
            ∙ ap (λ ps. read_target ps (pathname_target r.path))
                (browser.entries-text (target_params t) (target_params-All t topic query))
            ∙ ap (read_target (target_params t)) r.read_back
            ∙ read_target-routed t t.view t.detail h page,
      )
