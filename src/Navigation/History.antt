-- ===== src/Navigation/History.antt =====
-- The state that a history entry carries, frontend/lib/navigation-history.ts.
pub mod Read
pub mod State
use lexi_go.Common.{
  ℕ, suc, ◌+◌, [], Bool, true, false, ◌&&◌, not, Option, none, some, ◌∷◌, ◌++◌, Text, codes,
  text_eq, leb, ltb, ◌==◌, if◌then◌else◌, get_or,
}
use lexi_go.Common.Decimal.{show}
use lexi_go.Json.{
  ℤ, pos, negsuc, Number, int, fraction, infinite, nan, Value, undefined, null, bool, num, str, arr,
  obj, Fields, end, field, get_field,
}
use lexi_go.Navigation.Target.{
  AppView, NavigationTarget, view_text, source_text, status_text, sort_text, target_value, maybe,
}
use lexi_go.Navigation.Path.{route_path}
use lexi_go.Navigation.Url.{Params, SearchParams, set_param, set_if, maybe_text, parse_navigation}

pub record NavigationScrollPosition : Type 0 where
  pub x : Number
  pub y : Number

pub data RouteGraphHistoryOwner : Type 0 where
  dictionary home learn product : RouteGraphHistoryOwner

pub record NavigationHistoryState : Type 0 where
  pub target : NavigationTarget
  pub scroll : NavigationScrollPosition
  pub route_graph : Option RouteGraphHistoryOwner

abbrev pub owner_text : RouteGraphHistoryOwner → Text
owner_text dictionary = codes "dictionary"
owner_text home = codes "home"
owner_text learn = codes "learn"
owner_text product = codes "product"

abbrev owner_of : Text → Option RouteGraphHistoryOwner
owner_of s =
    if text_eq s (codes "dictionary")
    then some dictionary
    else if text_eq s (codes "home")
    then some home
    else if text_eq s (codes "learn")
    then some learn
    else if text_eq s (codes "product")
    then some product
    else none

abbrev owner_value : Value → Option RouteGraphHistoryOwner
owner_value (str s) = owner_of s
owner_value _ = none

unfoldable pub route_graph_owner : Value → Option RouteGraphHistoryOwner
route_graph_owner (obj fields) = owner_value (get_field (codes "lexigoRouteGraph") fields)
route_graph_owner _ = none

abbrev pub zero_number : Number
zero_number = int (pos 0)

abbrev pub safe_number : Number → Number
safe_number (int (pos n)) = int (pos n)
safe_number (int (negsuc n)) = zero_number
safe_number (fraction (pos n) m) = fraction (pos n) m
safe_number (fraction (negsuc n) m) = zero_number
safe_number (infinite negative) = zero_number
safe_number nan = zero_number

unfoldable pub safe_coordinate : Value → Number
safe_coordinate (num n) = safe_number n
safe_coordinate _ = zero_number

-- `typeof value === "string"`.
abbrev pub string_of : Value → Option Text
string_of (str s) = some s
string_of _ = none

abbrev int_eq : ℤ → ℤ → Bool
int_eq (pos a) (pos b) = a == b
int_eq (negsuc a) (negsuc b) = a == b
int_eq _ _ = false

-- `a === b` of two numbers.
abbrev pub number_eq : Number → Number → Bool
number_eq (int a) (int b) = int_eq a b
number_eq (fraction a m) (fraction b n) = int_eq a b && (m == n)
number_eq (infinite a) (infinite b) = if a then b else not b
number_eq _ _ = false

-- `value[key] === undefined || normalized[key] === value[key]`.
abbrev pub agrees : Value → Option Text → Bool
agrees undefined o = true
agrees (str s) (some t) = text_eq t s
agrees _ _ = false

abbrev pub agrees_page : Value → Option Number → Bool
agrees_page undefined o = true
agrees_page (num n) (some m) = number_eq m n
agrees_page _ _ = false

-- The coordinates may be anything.
abbrev pub base_state :
    NavigationTarget → Value → Value → Option RouteGraphHistoryOwner → NavigationHistoryState
base_state t x y owner = record {
  target = t;
  scroll = record { x = safe_coordinate x; y = safe_coordinate y };
  route_graph = owner;
}

-- `owner` is the one of the browser's present state.
unfoldable pub create_navigation_history_state :
    Option RouteGraphHistoryOwner
    → NavigationTarget
    → NavigationScrollPosition
    → NavigationHistoryState
unfolding safe_coordinate
create_navigation_history_state owner t scroll = base_state t (num scroll.x) (num scroll.y) owner

-- The state as the value that the browser keeps.
unfoldable pub state_value : NavigationHistoryState → Value
state_value s = obj (
    field (codes "lexigo") (bool true) (
      field (codes "version") (num (int (pos 1))) (
        field (codes "target") (target_value s.target) (
          field (codes "scroll")
            (obj (field (codes "x") (num s.scroll.x) (field (codes "y") (num s.scroll.y) end)))
            (field (codes "lexigoRouteGraph") (maybe (λ o. str (owner_text o)) s.route_graph)
              end)))))

abbrev is_true : Value → Bool
is_true (bool b) = b
is_true _ = false

abbrev is_version_one : Value → Bool
is_version_one (num (int (pos n))) = n == 1
is_version_one _ = false

-- `spell` is `String` on the numbers that are not natural.
module _ (browser : SearchParams) (spell : Number → Text) where
  abbrev pub number_text : Number → Text
  number_text (int (pos n)) = show n
  number_text n = spell n

  abbrev pub page_text : Value → Option Text
  page_text (num n) = some (number_text n)
  page_text _ = none

  unfoldable pub unknown_params : Text → Fields → Params
  unknown_params v fields = set_if (codes "page") (page_text (get_field (codes "page") fields)) (
      set_if (codes "detail") (string_of (get_field (codes "detail") fields)) (
        set_if (codes "sort") (string_of (get_field (codes "sort") fields)) (
          set_if (codes "query") (string_of (get_field (codes "query") fields)) (
            set_if (codes "status") (string_of (get_field (codes "status") fields)) (
              set_if (codes "topic") (string_of (get_field (codes "topic") fields)) (
                set_if (codes "source") (string_of (get_field (codes "source") fields))
                  (set_param (codes "view") v [])))))))

  abbrev pub agrees_all : Text → Fields → NavigationTarget → Bool
  agrees_all v fields t =
      text_eq (view_text t.view) v
      && agrees (get_field (codes "source") fields) (maybe_text source_text t.source)
      && agrees (get_field (codes "topic") fields) t.topic
      && agrees (get_field (codes "status") fields) (maybe_text status_text t.status)
      && agrees (get_field (codes "query") fields) t.query
      && agrees (get_field (codes "sort") fields) (maybe_text sort_text t.sort)
      && agrees (get_field (codes "detail") fields) t.detail
      && agrees_page (get_field (codes "page") fields) t.page

  -- `pathname` is where the browser is.
  abbrev pub checked : Text → Fields → NavigationTarget → Option NavigationTarget
  checked v fields t = if agrees_all v fields t then some t else none

  abbrev pub with_view : Text → Fields → Value → Option NavigationTarget
  with_view pathname fields (str v) =
      checked v fields
        (parse_navigation browser (63 ∷ browser.text (unknown_params v fields)) pathname)
  with_view pathname fields _ = none

  unfoldable pub normalize_unknown_target : Text → Value → Option NavigationTarget
  unfolding unknown_params
  normalize_unknown_target pathname (obj fields) =
      with_view pathname fields (get_field (codes "view") fields)
  normalize_unknown_target pathname _ = none

  abbrev pub with_target : Value → Fields → Option NavigationTarget → Option NavigationHistoryState
  with_target value scroll none = none
  with_target value scroll (some t) = some (
      base_state t (get_field (codes "x") scroll) (get_field (codes "y") scroll)
        (route_graph_owner value))

  abbrev pub with_scroll : Text → Fields → Value → Option NavigationHistoryState
  with_scroll pathname fields (obj scroll) =
      with_target (obj fields) scroll
        (normalize_unknown_target pathname (get_field (codes "target") fields))
  with_scroll pathname fields _ = none

  unfoldable pub read_navigation_history_state : Text → Value → Option NavigationHistoryState
  unfolding normalize_unknown_target safe_coordinate route_graph_owner
  read_navigation_history_state pathname (obj fields) =
      if is_true (get_field (codes "lexigo") fields)
        && is_version_one (get_field (codes "version") fields)
      then with_scroll pathname fields (get_field (codes "scroll") fields)
      else none
  read_navigation_history_state pathname _ = none

  -- Without a window the path is the root.
  abbrev pub browser_pathname : Option Text → Text
  browser_pathname none = codes "/"
  browser_pathname (some pathname) = pathname

  -- `none` is the `URIError` of `routePath`.
  abbrev both : Option Text → Option Text → Option Bool
  both (some a) (some b) = some (text_eq a b)
  both _ _ = none

  abbrev pub matches_current_canonical_route :
      NavigationTarget → Option NavigationTarget → Option Bool
  matches_current_canonical_route t none = some true
  matches_current_canonical_route t (some canonical) = both (route_path t) (route_path canonical)

  abbrev choose : Option Bool → NavigationTarget → Option NavigationTarget → Option NavigationTarget
  choose none t other = none
  choose (some true) t other = some t
  choose (some false) t other = other

  -- A candidate that belongs to the browser's path is taken.
  abbrev take_candidate :
      Option NavigationTarget
      → Option NavigationTarget
      → Option NavigationTarget
      → Option NavigationTarget
  take_candidate canonical none other = other
  take_candidate canonical (some t) other =
      choose (matches_current_canonical_route t canonical) t other

  abbrev is_lexigo : Value → Bool
  is_lexigo (obj fields) = is_true (get_field (codes "lexigo") fields)
  is_lexigo _ = false

  abbrev state_target : Option NavigationHistoryState → Option NavigationTarget
  state_target none = none
  state_target (some s) = some s.target

  abbrev legacy_target : Text → Value → Option NavigationTarget
  legacy_target pathname value =
      if is_lexigo value then normalize_unknown_target pathname value else none

  abbrev location_target : Option Text → Text → Option NavigationTarget
  location_target none search = none
  location_target (some pathname) search = some (parse_navigation browser search pathname)

  unfoldable pub navigation_target_from_history :
      Option Text → Value → Text → Option NavigationTarget
  unfolding read_navigation_history_state
  navigation_target_from_history window value search =
      let pathname = browser_pathname window in
      let canonical = location_target window search in
      take_candidate canonical (state_target (read_navigation_history_state pathname value)) (
        take_candidate canonical (legacy_target pathname value)
          (some (get_or canonical (parse_navigation browser search pathname))))

  abbrev scroll_of : Option NavigationHistoryState → NavigationScrollPosition
  scroll_of none = record { x = zero_number; y = zero_number }
  scroll_of (some s) = s.scroll

  unfoldable pub navigation_scroll_from_history : Text → Value → NavigationScrollPosition
  unfolding read_navigation_history_state
  navigation_scroll_from_history pathname value =
      scroll_of (read_navigation_history_state pathname value)
