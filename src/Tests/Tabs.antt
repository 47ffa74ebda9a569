-- ===== src/Tests/Tabs.antt =====
-- The theorems on the history and on the tabs of the navigation at concrete inputs.
use lexi_go.Common.{
  ◌≡◌, refl, true, false, none, some, List, [], ◌∷◌, Text, codes, trim, trim_start,
}
use lexi_go.Json.{pos, negsuc, Number, int, fraction}
use lexi_go.Navigation.Target.{AppView, bare}
use lexi_go.Navigation.Target.Normal.{IsNormal}
use lexi_go.Navigation.Path.{detailed, pathname_target}
use lexi_go.Navigation.History.{
  NavigationScrollPosition, RouteGraphHistoryOwner, NavigationHistoryState,
  create_navigation_history_state, state_value, read_navigation_history_state, zero_number,
}
use lexi_go.Navigation.History.State.{read-create_navigation_history_state}
use lexi_go.Navigation.Tabs.{
  PrimaryRouteView, Tabs, empty_memory, route_view, remember_route_tab, route_tab_destination,
}
use lexi_go.Navigation.Tabs.Views.{
  TabEvent, remember, go, clear, reload, history, destination-BelongsTo,
}
use lexi_go.Navigation.Tabs.Remembered.{destination-remember_reload}
use lexi_go.Tests.Navigation.{a_browser, no_faults}

abbrev spell : Number → Text
spell n = codes "-"

abbrev a_scroll : NavigationScrollPosition
a_scroll = record { x = int (negsuc 3); y = fraction (pos 20) 1 }

abbrev a_word_path : Text
a_word_path = codes "/words/7"

a_library-IsNormal : IsNormal (bare AppView.library)
a_library-IsNormal = record { topic = tt; query = tt; page = tt; detail = tt }

abbrev a_state : NavigationHistoryState
a_state = record {
  target = bare AppView.library;
  scroll = record { x = zero_number; y = fraction (pos 20) 1 };
  route_graph = some RouteGraphHistoryOwner.product;
}

-- The library without a word is read as the word at which the browser is.
read-create_navigation_history_state_example :
    read_navigation_history_state a_browser spell a_word_path (state_value a_state)
    ≡ some (record a_state { target = detailed AppView.library (some (codes "7")) })
unfolding create_navigation_history_state pathname_target trim trim_start
read-create_navigation_history_state_example =
    read-create_navigation_history_state a_browser spell (some RouteGraphHistoryOwner.product)
      (bare AppView.library) a_scroll a_word_path a_library-IsNormal tt tt tt tt

abbrev an_empty_tabs : Tabs
an_empty_tabs = record { memory = empty_memory; storage = [] }

abbrev a_remembered : Tabs
a_remembered = remember_route_tab true no_faults none (bare AppView.library) a_scroll an_empty_tabs

destination-remember_reload_example :
    (route_tab_destination a_browser spell true no_faults a_word_path PrimaryRouteView.library
      (record { memory = empty_memory; storage = a_remembered.storage })).1
    ≡ record {
      target = detailed AppView.library (some (codes "7"));
      scroll = record { x = zero_number; y = fraction (pos 20) 1 };
    }
unfolding pathname_target trim trim_start
destination-remember_reload_example =
    destination-remember_reload a_browser spell no_faults none (bare AppView.library) a_scroll
      an_empty_tabs a_word_path PrimaryRouteView.library refl refl refl a_library-IsNormal tt tt tt
      tt

abbrev some_events : List TabEvent
some_events =
    remember true no_faults none (bare AppView.phrases) a_scroll
    ∷ go true no_faults a_word_path PrimaryRouteView.library
    ∷ reload
    ∷ clear true no_faults
    ∷ remember false no_faults none (bare AppView.profile) a_scroll
    ∷ []

destination-BelongsTo_example :
    let tabs = history a_browser spell some_events an_empty_tabs in
    let r =
      route_tab_destination a_browser spell true no_faults a_word_path PrimaryRouteView.library
        tabs in
    route_view r.1.target ≡ some PrimaryRouteView.library
destination-BelongsTo_example =
    destination-BelongsTo a_browser spell some_events [] true no_faults a_word_path
      PrimaryRouteView.library
