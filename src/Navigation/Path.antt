-- ===== src/Navigation/Path.antt =====
-- Paths of frontend/lib/navigation.ts: `pathnameTarget`, `routePath`, `isCanonicalRoutePath`, and
-- `isScenarioSlug` of frontend/lib/scenarios.ts.
pub mod Segments
pub mod Bare
pub mod Routes
use lexi_go.Common.{
  ℕ, Bool, true, false, ◌&&◌, ◌||◌, not, Option, none, some, List, [], ◌∷◌, ◌++◌, Text, codes,
  text_eq, leb, ◌==◌, if◌then◌else◌, is_nonempty, all, any, trim, get_or, has,
}
use lexi_go.Common.Decimal.{is_digit}
use lexi_go.Common.Uri.{encode_uri_component, decode_uri_component, prefix}
use lexi_go.Navigation.Target.{
  AppView, NavigationTarget, bare, normalized_string, normalize_navigation, target_value,
}

abbrev is_slug_char : ℕ → Bool
is_slug_char c = (leb 97 c && leb c 122) || is_digit c

-- A group of `/^[a-z0-9]+(?:-[a-z0-9]+)*$/` has begun or not.
unfoldable pub slug_from : Bool → Text → Bool
slug_from started [] = started
slug_from started (c ∷ s) =
    let group = slug_from true s in
    let next = slug_from false s in
    if is_slug_char c then group else if (c == 45) && started then next else false

unfoldable pub is_scenario_slug : Text → Bool
unfolding slug_from
is_scenario_slug s = slug_from false s

-- `pathname.replace(/\/+$/, "")`.
unfoldable pub strip_slashes : Text → Text
strip_slashes [] = []
strip_slashes (c ∷ s) =
    let rest = strip_slashes s in if (c == 47) && not (is_nonempty rest) then [] else c ∷ rest

abbrev pub or_root : Text → Text
or_root [] = codes "/"
or_root (c ∷ s) = c ∷ s

unfoldable pub normalize_pathname : Text → Text
unfolding strip_slashes
normalize_pathname value =
    let pathname = or_root (trim value) in
    if text_eq pathname (codes "/") then pathname else or_root (strip_slashes pathname)

unfoldable pub safe_decode_path_segment : Text → Text
safe_decode_path_segment s = get_or (decode_uri_component s) []

abbrev encode_normalized : Option Text → Option Text
encode_normalized none = some []
encode_normalized (some s) = encode_uri_component s

-- `none` is the `URIError` of a surrogate that stands alone.
unfoldable pub encoded_path_segment : Text → Option Text
unfolding normalized_string
encoded_path_segment s = encode_normalized (normalized_string s)

abbrev strip_prefix : Text → Text → Option Text
strip_prefix [] s = some s
strip_prefix (c ∷ p) [] = none
strip_prefix (c ∷ p) (d ∷ s) = if c == d then strip_prefix p s else none

abbrev is_segment : Text → Bool
is_segment s = is_nonempty s && all (λ c. not (c == 47)) s

abbrev when : (Text → Bool) → Option Text → Option Text
when p none = none
when p (some s) = if p s then some s else none

-- The group of `/^\/name\/([^/]+)$/`, the prefix being `/name/`.
abbrev pub segment_after : Text → Text → Option Text
segment_after p s = when is_segment (strip_prefix p s)

abbrev pub is_word_id : Text → Bool
is_word_id [] = false
is_word_id (c ∷ s) = (leb 49 c && leb c 57) && all is_digit s

-- The group of `/^\/words\/([1-9]\d*)$/`.
abbrev pub word_after : Text → Option Text
word_after s = when is_word_id (strip_prefix (codes "/words/") s)

abbrev pub detailed : AppView → Option Text → NavigationTarget
detailed v d = record (bare v) { detail = d }

abbrev decoded : Text → Option Text
decoded segment = normalized_string (safe_decode_path_segment segment)

abbrev scenario_target : Option Text → NavigationTarget
scenario_target none = bare AppView.home
scenario_target (some d) =
    if is_scenario_slug d then detailed AppView.scenario (some d) else bare AppView.home

abbrev match_scenario : Option Text → NavigationTarget
match_scenario none = bare AppView.home
match_scenario (some segment) = scenario_target (decoded segment)

abbrev match_lesson : Text → Option Text → NavigationTarget
match_lesson path none = match_scenario (segment_after (codes "/scenarios/") path)
match_lesson path (some segment) = detailed AppView.lesson (decoded segment)

abbrev match_word : Text → Option Text → NavigationTarget
match_word path none = match_lesson path (segment_after (codes "/lesson/") path)
match_word path (some id) = detailed AppView.library (some id)

abbrev match_phrase : Text → Option Text → NavigationTarget
match_phrase path none = match_word path (word_after path)
match_phrase path (some segment) = detailed AppView.phrases (decoded segment)

abbrev target_of : Text → NavigationTarget
target_of path =
    if text_eq path (codes "/")
    then bare AppView.home
    else if text_eq path (codes "/learn")
    then bare AppView.learn
    else if text_eq path (codes "/phrases")
    then bare AppView.phrases
    else if text_eq path (codes "/dictionary")
    then bare AppView.library
    else if text_eq path (codes "/progress")
    then bare AppView.progress
    else if text_eq path (codes "/profile")
    then bare AppView.profile
    else if text_eq path (codes "/onboarding")
    then bare AppView.onboarding
    else if text_eq path (codes "/scenarios")
    then bare AppView.scenario
    else match_phrase path (segment_after (codes "/phrases/") path)

unfoldable pub pathname_target : Text → NavigationTarget
unfolding safe_decode_path_segment normalized_string is_scenario_slug normalize_pathname
pathname_target pathname = target_of (normalize_pathname pathname)

abbrev pub is_digits : Text → Bool
is_digits s = is_nonempty s && all is_digit s

-- `PRIMARY_PATHS` and the routes with a detail; `none` is the `URIError`.
unfoldable pub route_for : AppView → Option Text → Option Text
unfolding encoded_path_segment is_scenario_slug
route_for AppView.home d = some (codes "/")
route_for AppView.learn d = some (codes "/learn")
route_for AppView.progress d = some (codes "/progress")
route_for AppView.profile d = some (codes "/profile")
route_for AppView.onboarding d = some (codes "/onboarding")
route_for AppView.lesson d =
    prefix (codes "/lesson/") (encoded_path_segment (get_or d (codes "active")))
route_for AppView.scenario none = some (codes "/scenarios")
route_for AppView.scenario (some d) =
    if is_scenario_slug d
    then prefix (codes "/scenarios/") (encoded_path_segment d)
    else some (codes "/scenarios")
route_for AppView.library none = some (codes "/dictionary")
route_for AppView.library (some d) =
    if is_digits d then some (codes "/words/" ++ d) else some (codes "/dictionary")
route_for AppView.phrases none = some (codes "/phrases")
route_for AppView.phrases (some d) = prefix (codes "/phrases/") (encoded_path_segment d)

abbrev pub normal_or_home : NavigationTarget → NavigationTarget
normal_or_home t = get_or (normalize_navigation (target_value t)) (bare AppView.home)

unfoldable pub route_path : NavigationTarget → Option Text
unfolding route_for
route_path t = route_for (normal_or_home t).view (normal_or_home t).detail

abbrev primary_paths : List Text
primary_paths =
    codes "/"
    ∷ codes "/learn"
    ∷ codes "/phrases"
    ∷ codes "/dictionary"
    ∷ codes "/progress"
    ∷ codes "/profile"
    ∷ codes "/onboarding"
    ∷ []

abbrev is_match : Option Text → Bool
is_match none = false
is_match (some s) = true

abbrev is_scenario_match : Option Text → Bool
is_scenario_match none = false
is_scenario_match (some s) = is_scenario_slug (safe_decode_path_segment s)

abbrev is_canonical : Text → Bool
is_canonical path =
    text_eq path (codes "/")
    || text_eq path (codes "/scenarios")
    || has primary_paths path
    || is_match (segment_after (codes "/phrases/") path)
    || is_match (word_after path)
    || text_eq path (codes "/lesson/active")
    || is_scenario_match (segment_after (codes "/scenarios/") path)

unfoldable pub is_canonical_route_path : Text → Bool
unfolding safe_decode_path_segment is_scenario_slug normalize_pathname
is_canonical_route_path pathname = is_canonical (normalize_pathname pathname)
