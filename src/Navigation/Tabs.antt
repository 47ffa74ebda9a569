-- ===== src/Navigation/Tabs.antt =====
-- What each tab of the navigation goes back to, frontend/lib/route-tab-snapshots.ts.
pub mod Views
pub mod Remembered
use lexi_go.Common.{Bool, true, false, Option, none, some, ◌++◌, Text, codes, if◌then◌else◌}
use lexi_go.Common.Store.{get, put, delete}
use lexi_go.Json.{Number, Raw, plain, json, Storage}
use lexi_go.Navigation.Target.{AppView, NavigationTarget, bare}
use lexi_go.Navigation.Url.{SearchParams}
use lexi_go.Navigation.Stored.{Faults}
use lexi_go.Navigation.History.{
  NavigationScrollPosition, RouteGraphHistoryOwner, NavigationHistoryState, zero_number,
  create_navigation_history_state, state_value, read_navigation_history_state,
}

pub data PrimaryRouteView : Type 0 where
  home learn library progress : PrimaryRouteView

pub record RouteTabSnapshot : Type 0 where
  pub target : NavigationTarget
  pub scroll : NavigationScrollPosition

abbrev pub view_of_tab : PrimaryRouteView → AppView
view_of_tab home = AppView.home
view_of_tab learn = AppView.learn
view_of_tab library = AppView.library
view_of_tab progress = AppView.progress

-- `PRIMARY_ROUTE_VIEWS`, and the phrases as a part of the library.
abbrev pub tab_of_view : AppView → Option PrimaryRouteView
tab_of_view AppView.home = some home
tab_of_view AppView.learn = some learn
tab_of_view AppView.library = some library
tab_of_view AppView.phrases = some library
tab_of_view AppView.progress = some progress
tab_of_view AppView.profile = none
tab_of_view AppView.onboarding = none
tab_of_view AppView.lesson = none
tab_of_view AppView.scenario = none

abbrev pub route_view : NavigationTarget → Option PrimaryRouteView
route_view t = tab_of_view t.view

abbrev pub tab_eq : PrimaryRouteView → PrimaryRouteView → Bool
tab_eq home home = true
tab_eq learn learn = true
tab_eq library library = true
tab_eq progress progress = true
tab_eq _ _ = false

abbrev pub storage_key : PrimaryRouteView → Text
storage_key home = codes "lexigo.route-tab.v1.home"
storage_key learn = codes "lexigo.route-tab.v1.learn"
storage_key library = codes "lexigo.route-tab.v1.library"
storage_key progress = codes "lexigo.route-tab.v1.progress"

-- `memorySnapshots`, whose order is never read.
abbrev pub Memory : Type 0
Memory = PrimaryRouteView → Option RouteTabSnapshot

abbrev pub empty_memory : Memory
empty_memory v = none

abbrev pub set_memory : PrimaryRouteView → RouteTabSnapshot → Memory → Memory
set_memory v s memory w = if tab_eq v w then some s else memory w

pub record Tabs : Type 0 where
  pub memory : Memory
  pub storage : Storage

abbrev pub is_tab : PrimaryRouteView → Option PrimaryRouteView → Bool
is_tab v none = false
is_tab v (some w) = tab_eq w v

abbrev pub snapshot_of : NavigationHistoryState → RouteTabSnapshot
snapshot_of s = record { target = s.target; scroll = s.scroll }

abbrev pub expected : PrimaryRouteView → Option NavigationHistoryState → Option RouteTabSnapshot
expected v none = none
expected v (some s) = if is_tab v (route_view s.target) then some (snapshot_of s) else none

abbrev try_set : Bool → Faults → Text → Raw → Storage → Storage
try_set available faults key raw storage =
    if available then (if faults.set_item key then storage else put key raw storage) else storage

-- An exception of `getItem` leaves no text.
abbrev try_get : Faults → Text → Storage → Option Raw
try_get faults key storage = if faults.get_item key then none else get key storage

abbrev try_remove : Faults → Text → Storage → Storage
try_remove faults key storage = if faults.remove_item key then storage else delete key storage

abbrev remember_as : Bool → Faults → NavigationHistoryState → Option PrimaryRouteView → Tabs → Tabs
remember_as available faults state none tabs = tabs
remember_as available faults state (some v) tabs = record {
  memory = set_memory v (snapshot_of state) tabs.memory;
  storage = try_set available faults (storage_key v) (json (state_value state)) tabs.storage;
}

-- `available` says that the document has a storage.
unfoldable pub remember_route_tab :
    Bool
    → Faults
    → Option RouteGraphHistoryOwner
    → NavigationTarget
    → NavigationScrollPosition
    → Tabs
    → Tabs
remember_route_tab available faults owner target scroll tabs =
    remember_as available faults (create_navigation_history_state owner target scroll)
      (route_view target) tabs

abbrev pub start_of_tab : PrimaryRouteView → RouteTabSnapshot
start_of_tab v = record {
  target = bare (view_of_tab v);
  scroll = record { x = zero_number; y = zero_number };
}

module _ (browser : SearchParams) (spell : Number → Text) where
  -- `pathname` is where the browser is.
  unfoldable pub decode_snapshot : Text → Option Raw → PrimaryRouteView → Option RouteTabSnapshot
  decode_snapshot pathname none v = none
  decode_snapshot pathname (some (plain s)) v = none
  decode_snapshot pathname (some (json value)) v =
      expected v (read_navigation_history_state browser spell pathname value)

  abbrev remove_stale : Faults → PrimaryRouteView → Option Raw → Tabs → Tabs
  remove_stale faults v none tabs = tabs
  remove_stale faults v (some raw) tabs = record tabs {
    storage = try_remove faults (storage_key v) tabs.storage;
  }

  abbrev stored_destination :
      Faults
      → PrimaryRouteView
      → Option Raw
      → Option RouteTabSnapshot
      → Tabs
      → Tabs × RouteTabSnapshot
  stored_destination faults v raw (some s) tabs =
      (record tabs { memory = set_memory v s tabs.memory }, s)
  stored_destination faults v raw none tabs = (remove_stale faults v raw tabs, start_of_tab v)

  abbrev destination_from :
      Bool
      → Faults
      → Text
      → PrimaryRouteView
      → Option RouteTabSnapshot
      → Tabs
      → Tabs × RouteTabSnapshot
  destination_from available faults pathname v (some s) tabs = (tabs, s)
  destination_from true faults pathname v none tabs =
      let raw = try_get faults (storage_key v) tabs.storage in
      stored_destination faults v raw (decode_snapshot pathname raw v) tabs
  destination_from false faults pathname v none tabs = (tabs, start_of_tab v)

  unfoldable pub route_tab_destination :
      Bool → Faults → Text → PrimaryRouteView → Tabs → Tabs × RouteTabSnapshot
  unfolding decode_snapshot
  route_tab_destination available faults pathname v tabs =
      destination_from available faults pathname v (tabs.memory v) tabs

-- The loop ends at the first removal that throws.
abbrev remove_from : Faults → PrimaryRouteView → (Storage → Storage) → Storage → Storage
remove_from faults v rest storage =
    if faults.remove_item (storage_key v) then storage else rest (delete (storage_key v) storage)

abbrev remove_tabs : Faults → Storage → Storage
remove_tabs faults = remove_from faults home (
    remove_from faults learn
      (remove_from faults library (remove_from faults progress (λ storage. storage))))

unfoldable pub clear_route_tab_snapshots : Bool → Faults → Tabs → Tabs
clear_route_tab_snapshots available faults tabs = record {
  memory = empty_memory;
  storage = if available then remove_tabs faults tabs.storage else tabs.storage;
}
