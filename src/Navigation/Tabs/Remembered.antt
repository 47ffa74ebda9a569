-- ===== src/Navigation/Tabs/Remembered.antt =====
-- What a tab that was remembered gives back, before and after a reload.
use lexi_go.Common.{◌≡◌, refl, ap, Bool, true, false, Option, some, Text}
use lexi_go.Common.Store.{get, get-put_self}
use lexi_go.Common.Uri.Total.{IsWritable}
use lexi_go.Json.{Number, json}
use lexi_go.Navigation.Target.{NavigationTarget}
use lexi_go.Navigation.Target.Normal.{IsNormal, OptionIs}
use lexi_go.Navigation.Path.{pathname_target}
use lexi_go.Navigation.Url.{SearchParams, or_else}
use lexi_go.Navigation.Url.Read.{IsSafePage}
use lexi_go.Navigation.Stored.{Faults}
use lexi_go.Navigation.History.{
  NavigationScrollPosition, RouteGraphHistoryOwner, create_navigation_history_state, safe_number,
  state_value,
}
use lexi_go.Navigation.History.State.{read-create_navigation_history_state}
use lexi_go.Navigation.Tabs.{
  PrimaryRouteView, home, learn, library, progress, route_view, tab_eq, empty_memory, Tabs,
  remember_route_tab, decode_snapshot, destination_from, route_tab_destination, storage_key,
}

tab_eq_self : (v : PrimaryRouteView) → tab_eq v v ≡ true
tab_eq_self home = refl
tab_eq_self learn = refl
tab_eq_self library = refl
tab_eq_self progress = refl

-- The coordinates that are kept are finite and not negative.
abbrev pub safe_scroll : NavigationScrollPosition → NavigationScrollPosition
safe_scroll p = record { x = safe_number p.x; y = safe_number p.y }

remembered_memory :
    (available : Bool) (faults : Faults) (owner : Option RouteGraphHistoryOwner)
    (t : NavigationTarget) (scroll : NavigationScrollPosition) (tabs : Tabs) (v : PrimaryRouteView)
    → route_view t ≡ some v
    → (remember_route_tab available faults owner t scroll tabs).memory v
      ≡ some (record { target = t; scroll = safe_scroll scroll })
unfolding remember_route_tab create_navigation_history_state
remembered_memory available faults owner t scroll tabs v e = rw (e, tab_eq_self v) refl

remembered_storage :
    (faults : Faults) (owner : Option RouteGraphHistoryOwner) (t : NavigationTarget)
    (scroll : NavigationScrollPosition) (tabs : Tabs) (v : PrimaryRouteView)
    → route_view t ≡ some v
    → faults.set_item (storage_key v) ≡ false
    → get (storage_key v) (remember_route_tab true faults owner t scroll tabs).storage
      ≡ some (json (state_value (create_navigation_history_state owner t scroll)))
unfolding remember_route_tab
remembered_storage faults owner t scroll tabs v e works =
    rw (e, works)
      (get-put_self (storage_key v)
        (json (state_value (create_navigation_history_state owner t scroll))) tabs.storage)

created_scroll :
    (owner : Option RouteGraphHistoryOwner) (t : NavigationTarget)
    (scroll : NavigationScrollPosition)
    → (create_navigation_history_state owner t scroll).scroll ≡ safe_scroll scroll
unfolding create_navigation_history_state
created_scroll owner t scroll = refl

module _ (browser : SearchParams) (spell : Number → Text) where
  -- In the same document the tab of a remembered target gives back that target, whether or not the
  -- storage takes it, and changes nothing.
  pub destination-remember_route_tab :
      (available : Bool) (faults : Faults) (owner : Option RouteGraphHistoryOwner)
      (t : NavigationTarget) (scroll : NavigationScrollPosition) (tabs : Tabs) (pathname : Text)
      (v : PrimaryRouteView)
      → route_view t ≡ some v
      → let after = remember_route_tab available faults owner t scroll tabs in
        route_tab_destination browser spell available faults pathname v after
        ≡ (after, record { target = t; scroll = safe_scroll scroll })
  unfolding route_tab_destination
  destination-remember_route_tab available faults owner t scroll tabs pathname v e =
      let after = remember_route_tab available faults owner t scroll tabs in
      ap (λ o. destination_from browser spell available faults pathname v o after)
        (remembered_memory available faults owner t scroll tabs v e)

  -- After a reload the tab reads the storage, if its calls worked: a normal target without lone
  -- surrogates and with a safe page comes back, but where it has no detail it takes the one of the
  -- path at which the browser is by then.
  pub destination-remember_reload :
      (faults : Faults) (owner : Option RouteGraphHistoryOwner) (t : NavigationTarget)
      (scroll : NavigationScrollPosition) (tabs : Tabs) (pathname : Text) (v : PrimaryRouteView)
      → faults.set_item (storage_key v) ≡ false
      → faults.get_item (storage_key v) ≡ false
      → route_view t ≡ some v
      → IsNormal t
      → OptionIs IsWritable t.topic
      → OptionIs IsWritable t.query
      → OptionIs IsWritable t.detail
      → OptionIs IsSafePage t.page
      → let storage = (remember_route_tab true faults owner t scroll tabs).storage in
        (route_tab_destination browser spell true faults pathname v
          (record { memory = empty_memory; storage = storage })).1
        ≡ record {
          target = record t { detail = or_else t.detail (pathname_target pathname).detail };
          scroll = safe_scroll scroll;
        }
  unfolding route_tab_destination decode_snapshot
  destination-remember_reload faults owner t scroll tabs pathname v sets gets e h topic query detail
        page =
      rw
        (
          gets,
          remembered_storage faults owner t scroll tabs v e sets,
          read-create_navigation_history_state browser spell owner t scroll pathname h topic query
              detail page,
          e,
          tab_eq_self v,
        )
        (rw (created_scroll owner t scroll) refl)
