-- ===== src/Navigation/Tabs/Views.antt =====
-- Every tab goes back to a target of its own, after whatever has happened.
use lexi_go.Common.{
  ◌≡◌, refl, ap, subst, Bool, true, false, Option, none, some, List, [], ◌∷◌, Text, Bool-cases, inl,
  inr,
}
use lexi_go.Json.{Number, Raw, plain, json, Storage}
use lexi_go.Navigation.Target.{NavigationTarget}
use lexi_go.Navigation.Target.Normal.{OptionIs}
use lexi_go.Navigation.Url.{SearchParams}
use lexi_go.Navigation.Stored.{Faults}
use lexi_go.Navigation.History.{
  NavigationScrollPosition, RouteGraphHistoryOwner, NavigationHistoryState,
  create_navigation_history_state, read_navigation_history_state,
}
use lexi_go.Navigation.Tabs.{
  PrimaryRouteView, home, learn, library, progress, RouteTabSnapshot, route_view, tab_eq, Memory,
  empty_memory, set_memory, Tabs, is_tab, snapshot_of, expected, remember_as, remember_route_tab,
  start_of_tab, decode_snapshot, stored_destination, destination_from, route_tab_destination,
  clear_route_tab_snapshots, try_get, storage_key,
}

abbrev pub BelongsTo : PrimaryRouteView → RouteTabSnapshot → Type 0
BelongsTo v s = route_view s.target ≡ some v

abbrev pub IsTabbed : Memory → Type 0
IsTabbed memory = (v : PrimaryRouteView) → OptionIs (BelongsTo v) (memory v)

eq_of_tab_eq : (v w : PrimaryRouteView) → tab_eq v w ≡ true → v ≡ w
eq_of_tab_eq home home e = refl
eq_of_tab_eq learn learn e = refl
eq_of_tab_eq library library e = refl
eq_of_tab_eq progress progress e = refl
eq_of_tab_eq home learn e = cc
eq_of_tab_eq home library e = cc
eq_of_tab_eq home progress e = cc
eq_of_tab_eq learn home e = cc
eq_of_tab_eq learn library e = cc
eq_of_tab_eq learn progress e = cc
eq_of_tab_eq library home e = cc
eq_of_tab_eq library learn e = cc
eq_of_tab_eq library progress e = cc
eq_of_tab_eq progress home e = cc
eq_of_tab_eq progress learn e = cc
eq_of_tab_eq progress library e = cc

some_of_is_tab :
    (v : PrimaryRouteView) (o : Option PrimaryRouteView) → is_tab v o ≡ true → o ≡ some v
some_of_is_tab v none e = cc
some_of_is_tab v (some w) e = ap some (eq_of_tab_eq w v e)

set_memory-IsTabbed :
    (v : PrimaryRouteView) (s : RouteTabSnapshot) (memory : Memory)
    → BelongsTo v s
    → IsTabbed memory
    → IsTabbed (set_memory v s memory)
set_memory-IsTabbed v s memory b h w = elim (Bool-cases (tab_eq v w)) [
  | inl same ↦ rw same (subst (λ x. BelongsTo x s) (eq_of_tab_eq v w same) b)
  | inr other ↦ rw other (h w)
]

expected-BelongsTo :
    (v : PrimaryRouteView) (o : Option NavigationHistoryState)
    → OptionIs (BelongsTo v) (expected v o)
expected-BelongsTo v none = tt
expected-BelongsTo v (some s) = elim (Bool-cases (is_tab v (route_view s.target))) [
  | inl own ↦ rw own (some_of_is_tab v (route_view s.target) own)
  | inr other ↦ rw other tt
]

start-BelongsTo : (v : PrimaryRouteView) → BelongsTo v (start_of_tab v)
start-BelongsTo home = refl
start-BelongsTo learn = refl
start-BelongsTo library = refl
start-BelongsTo progress = refl

remember_as-IsTabbed :
    (available : Bool) (faults : Faults) (s : NavigationHistoryState) (o : Option PrimaryRouteView)
    (tabs : Tabs)
    → route_view s.target ≡ o
    → IsTabbed tabs.memory
    → IsTabbed (remember_as available faults s o tabs).memory
remember_as-IsTabbed available faults s none tabs e h = h
remember_as-IsTabbed available faults s (some v) tabs e h =
    set_memory-IsTabbed v (snapshot_of s) tabs.memory e h

-- What can happen to the tabs of a document; a reload starts with an empty memory.
pub data TabEvent : Type 0 where
  remember :
      Bool
      → Faults
      → Option RouteGraphHistoryOwner
      → NavigationTarget
      → NavigationScrollPosition
      → TabEvent
  go : Bool → Faults → Text → PrimaryRouteView → TabEvent
  clear : Bool → Faults → TabEvent
  reload : TabEvent

module _ (browser : SearchParams) (spell : Number → Text) where
  decode-BelongsTo :
      (pathname : Text) (o : Option Raw) (v : PrimaryRouteView)
      → OptionIs (BelongsTo v) (decode_snapshot browser spell pathname o v)
  unfolding decode_snapshot
  decode-BelongsTo pathname none v = tt
  decode-BelongsTo pathname (some (plain s)) v = tt
  decode-BelongsTo pathname (some (json value)) v =
      expected-BelongsTo v (read_navigation_history_state browser spell pathname value)

  -- Both the memory that is left and the snapshot that is given.
  abbrev IsOwn : PrimaryRouteView → Tabs × RouteTabSnapshot → Type 0
  IsOwn v r = IsTabbed r.0.memory × BelongsTo v r.1

  stored_destination-IsOwn :
      (faults : Faults) (v : PrimaryRouteView) (raw : Option Raw) (o : Option RouteTabSnapshot)
      (tabs : Tabs)
      → OptionIs (BelongsTo v) o
      → IsTabbed tabs.memory
      → IsOwn v (stored_destination browser spell faults v raw o tabs)
  stored_destination-IsOwn faults v raw (some s) tabs b h =
      (set_memory-IsTabbed v s tabs.memory b h, b)
  stored_destination-IsOwn faults v none none tabs b h = (h, start-BelongsTo v)
  stored_destination-IsOwn faults v (some raw) none tabs b h = (h, start-BelongsTo v)

  destination_from-IsOwn :
      (available : Bool) (faults : Faults) (pathname : Text) (v : PrimaryRouteView)
      (o : Option RouteTabSnapshot) (tabs : Tabs)
      → OptionIs (BelongsTo v) o
      → IsTabbed tabs.memory
      → IsOwn v (destination_from browser spell available faults pathname v o tabs)
  destination_from-IsOwn available faults pathname v (some s) tabs b h = (h, b)
  destination_from-IsOwn false faults pathname v none tabs b h = (h, start-BelongsTo v)
  destination_from-IsOwn true faults pathname v none tabs b h =
      let raw = try_get faults (storage_key v) tabs.storage in
      stored_destination-IsOwn faults v raw (decode_snapshot browser spell pathname raw v) tabs
        (decode-BelongsTo pathname raw v) h

  destination-IsOwn :
      (available : Bool) (faults : Faults) (pathname : Text) (v : PrimaryRouteView) (tabs : Tabs)
      → IsTabbed tabs.memory
      → IsOwn v (route_tab_destination browser spell available faults pathname v tabs)
  unfolding route_tab_destination
  destination-IsOwn available faults pathname v tabs h =
      destination_from-IsOwn available faults pathname v (tabs.memory v) tabs (h v) h

  abbrev pub happen : TabEvent → Tabs → Tabs
  happen (remember available faults owner target scroll) tabs =
      remember_route_tab available faults owner target scroll tabs
  happen (go available faults pathname v) tabs =
      (route_tab_destination browser spell available faults pathname v tabs).0
  happen (clear available faults) tabs = clear_route_tab_snapshots available faults tabs
  happen reload tabs = record tabs { memory = empty_memory }

  abbrev pub history : List TabEvent → Tabs → Tabs
  history [] tabs = tabs
  history (e ∷ es) tabs = history es (happen e tabs)

  happen-IsTabbed :
      (e : TabEvent) (tabs : Tabs) → IsTabbed tabs.memory → IsTabbed (happen e tabs).memory
  unfolding remember_route_tab create_navigation_history_state clear_route_tab_snapshots
  happen-IsTabbed (remember available faults owner target scroll) tabs h =
      remember_as-IsTabbed available faults (create_navigation_history_state owner target scroll)
        (route_view target) tabs refl h
  happen-IsTabbed (go available faults pathname v) tabs h =
      (destination-IsOwn available faults pathname v tabs h).0
  happen-IsTabbed (clear available faults) tabs h = λ v. tt
  happen-IsTabbed reload tabs h = λ v. tt

  history-IsTabbed :
      (es : List TabEvent) (tabs : Tabs) → IsTabbed tabs.memory → IsTabbed (history es tabs).memory
  history-IsTabbed [] tabs h = h
  history-IsTabbed (e ∷ es) tabs h = history-IsTabbed es (happen e tabs) (happen-IsTabbed e tabs h)

  -- A document begins with an empty memory and any storage. After any calls of rememberRouteTab,
  -- routeTabDestination and clearRouteTabSnapshots, and any reloads, with any calls of the storage
  -- that throw, routeTabDestination gives each tab a target whose view belongs to that tab.
  pub destination-BelongsTo :
      (es : List TabEvent) (storage : Storage) (available : Bool) (faults : Faults)
      (pathname : Text) (v : PrimaryRouteView)
      → let tabs = history es (record { memory = empty_memory; storage = storage }) in
        route_view (route_tab_destination browser spell available faults pathname v tabs).1.target
        ≡ some v
  destination-BelongsTo es storage available faults pathname v =
      (destination-IsOwn available faults pathname v _
        (history-IsTabbed es (record { memory = empty_memory; storage = storage }) (λ w. tt))).1
