-- ===== src/Navigation/History/State.antt =====
-- A state that a history entry was given is read back, with the detail of the browser's path where
-- its target has none.
use lexi_go.Common.{
  ◌≡◌, refl, sym, ap, ◌∙◌, subst, Bool, true, Option, none, some, [], ◌∷◌, Text, codes,
  text_eq_self, if◌then◌else◌, arith, All,
}
use lexi_go.Common.Uri.Total.{IsWritable}
use lexi_go.Json.{pos, negsuc, Number, int, fraction, infinite, nan, num, str}
use lexi_go.Navigation.Target.{
  AppView, NavigationTarget, CatalogSort, default, az, za, view_text, source_text, status_text,
  sort_text, target_value, maybe,
}
use lexi_go.Navigation.Target.Normal.{IsNormal, OptionIs, IsLaterPage}
use lexi_go.Navigation.Path.{pathname_target}
use lexi_go.Navigation.Path.Bare.{pathname_target-IsDetailed}
use lexi_go.Navigation.Url.{
  SearchParams, set_param, or_else, maybe_text, read_target, parse_navigation,
}
use lexi_go.Navigation.Url.Params.{
  IsPair, set_if-All, ascii-IsWritable, source-IsWritable, status-IsWritable, show-IsWritable,
}
use lexi_go.Navigation.Url.Read.{IsSafePage}
use lexi_go.Navigation.History.{
  NavigationScrollPosition, RouteGraphHistoryOwner, dictionary, home, learn, product,
  route_graph_owner, NavigationHistoryState, string_of, agrees, agrees_page, agrees_all, checked,
  unknown_params, page_text, safe_coordinate, safe_number, create_navigation_history_state,
  state_value, normalize_unknown_target, read_navigation_history_state,
}
use lexi_go.Navigation.History.Read.{
  string_of-maybe, string_of-text, object_fields, written_params, completed, read_target-unknown,
}

view-IsWritable : (v : AppView) → IsWritable (view_text v)
unfolding view_text
view-IsWritable AppView.home = ascii-IsWritable _ refl
view-IsWritable AppView.learn = ascii-IsWritable _ refl
view-IsWritable AppView.phrases = ascii-IsWritable _ refl
view-IsWritable AppView.library = ascii-IsWritable _ refl
view-IsWritable AppView.progress = ascii-IsWritable _ refl
view-IsWritable AppView.profile = ascii-IsWritable _ refl
view-IsWritable AppView.onboarding = ascii-IsWritable _ refl
view-IsWritable AppView.lesson = ascii-IsWritable _ refl
view-IsWritable AppView.scenario = ascii-IsWritable _ refl

sort-IsWritable : (o : Option CatalogSort) → OptionIs IsWritable (maybe_text sort_text o)
unfolding sort_text
sort-IsWritable none = tt
sort-IsWritable (some default) = ascii-IsWritable _ refl
sort-IsWritable (some az) = ascii-IsWritable _ refl
sort-IsWritable (some za) = ascii-IsWritable _ refl

agrees-maybe {ℓ} :
    {A : Type ℓ} (f : A → Text) (o : Option A)
    → agrees (maybe (λ x. str (f x)) o) (maybe_text f o) ≡ true
agrees-maybe f none = refl
agrees-maybe f (some a) = text_eq_self (f a)

agrees-text : (o : Option Text) → agrees (maybe str o) o ≡ true
agrees-text none = refl
agrees-text (some s) = text_eq_self s

agrees-or_else : (o d : Option Text) → agrees (maybe str o) (or_else o d) ≡ true
agrees-or_else none d = refl
agrees-or_else (some s) d = text_eq_self s

agrees_page-later :
    (o : Option Number) → OptionIs IsLaterPage o → agrees_page (maybe num o) o ≡ true
agrees_page-later none h = refl
agrees_page-later (some (int (pos n))) h = ground arith
agrees_page-later (some (int (negsuc n))) h = absurd h
agrees_page-later (some (fraction z m)) h = absurd h
agrees_page-later (some (infinite b)) h = absurd h
agrees_page-later (some nan) h = absurd h

safe_number_idem : (n : Number) → safe_coordinate (num (safe_number n)) ≡ safe_number n
unfolding safe_coordinate
safe_number_idem (int (pos n)) = refl
safe_number_idem (int (negsuc n)) = refl
safe_number_idem (fraction (pos n) m) = refl
safe_number_idem (fraction (negsuc n) m) = refl
safe_number_idem (infinite b) = refl
safe_number_idem nan = refl

owner_kept : (s : NavigationHistoryState) → route_graph_owner (state_value s) ≡ s.route_graph
unfolding route_graph_owner state_value
owner_kept s = by_owner s.route_graph
  where
    by_owner :
        (o : Option RouteGraphHistoryOwner)
        → route_graph_owner (state_value (record s { route_graph = o })) ≡ o
    by_owner none = refl
    by_owner (some dictionary) = refl
    by_owner (some home) = refl
    by_owner (some learn) = refl
    by_owner (some product) = refl

module _ (browser : SearchParams) (spell : Number → Text) where
  page-IsWritable :
      (o : Option Number)
      → OptionIs IsLaterPage o
      → OptionIs IsWritable (page_text browser spell (maybe num o))
  page-IsWritable none h = tt
  page-IsWritable (some (int (pos n))) h = show-IsWritable n
  page-IsWritable (some (int (negsuc n))) h = absurd h
  page-IsWritable (some (fraction z m)) h = absurd h
  page-IsWritable (some (infinite b)) h = absurd h
  page-IsWritable (some nan) h = absurd h

  written_params-All :
      (t : NavigationTarget)
      → IsNormal t
      → OptionIs IsWritable t.topic
      → OptionIs IsWritable t.query
      → OptionIs IsWritable t.detail
      → All IsPair (written_params browser spell t)
  unfolding unknown_params target_value set_param
  written_params-All t h topic query detail =
      set_if-All (codes "page") _ _ (ascii-IsWritable _ refl) (page-IsWritable t.page h.page) (
        set_if-All (codes "detail") (string_of (maybe str t.detail)) _ (ascii-IsWritable _ refl)
          (subst (OptionIs IsWritable) (sym (string_of-text t.detail)) detail)
          (set_if-All (codes "sort") (string_of (maybe (λ x. str (sort_text x)) t.sort)) _
            (ascii-IsWritable _ refl)
            (subst (OptionIs IsWritable) (sym (string_of-maybe sort_text t.sort))
              (sort-IsWritable t.sort))
            (set_if-All (codes "query") (string_of (maybe str t.query)) _ (ascii-IsWritable _ refl)
              (subst (OptionIs IsWritable) (sym (string_of-text t.query)) query)
              (set_if-All (codes "status") (string_of (maybe (λ x. str (status_text x)) t.status)) _
                (ascii-IsWritable _ refl)
                (subst (OptionIs IsWritable) (sym (string_of-maybe status_text t.status))
                  (status-IsWritable t.status))
                (set_if-All (codes "topic") (string_of (maybe str t.topic)) _
                  (ascii-IsWritable _ refl)
                  (subst (OptionIs IsWritable) (sym (string_of-text t.topic)) topic)
                  (set_if-All (codes "source")
                    (string_of (maybe (λ x. str (source_text x)) t.source))
                    ((codes "view", view_text t.view) ∷ []) (ascii-IsWritable _ refl)
                    (subst (OptionIs IsWritable) (sym (string_of-maybe source_text t.source))
                      (source-IsWritable t.source))
                    ((ascii-IsWritable _ refl, view-IsWritable t.view), tt)))))))

  agrees_all-completed :
      (t : NavigationTarget) (d : Option Text)
      → IsNormal t
      → agrees_all browser spell
          (view_text t.view)
          (object_fields (target_value t))
          (completed browser spell t d)
        ≡ true
  unfolding target_value
  agrees_all-completed t d h =
      rw
        (
          text_eq_self (view_text t.view),
          agrees-maybe source_text t.source,
          agrees-text t.topic,
          agrees-maybe status_text t.status,
          agrees-text t.query,
          agrees-maybe sort_text t.sort,
          agrees-or_else t.detail d,
          agrees_page-later t.page h.page,
        )
        refl

  -- What a normal target without lone surrogates is read as, where the browser is at `pathname`.
  pub normalize_unknown_target-target_value :
      (t : NavigationTarget) (pathname : Text)
      → IsNormal t
      → OptionIs IsWritable t.topic
      → OptionIs IsWritable t.query
      → OptionIs IsWritable t.detail
      → OptionIs IsSafePage t.page
      → normalize_unknown_target browser spell pathname (target_value t)
        ≡ some (completed browser spell t (pathname_target pathname).detail)
  unfolding normalize_unknown_target parse_navigation target_value
  normalize_unknown_target-target_value t pathname h topic query detail page =
      let (v, d, from) = pathname_target-IsDetailed pathname in
      let read : read_target (browser.entries (browser.text (written_params browser spell t)))
            (pathname_target pathname)
          ≡ completed browser spell t (pathname_target pathname).detail =
        ap (λ ps. read_target ps (pathname_target pathname))
          (browser.entries-text (written_params browser spell t)
            (written_params-All t h topic query detail))
        ∙ ap (read_target (written_params browser spell t)) from
        ∙ read_target-unknown browser spell t v d h page
        ∙ ap (λ f. completed browser spell t f.detail) (sym from) in
      let result = completed browser spell t (pathname_target pathname).detail in
      ap (checked browser spell (view_text t.view) (object_fields (target_value t))) read
      ∙ ap (λ (b : Bool). if b then some result else none)
          (agrees_all-completed t (pathname_target pathname).detail h)

  -- A state that a history entry was given is read back where the browser is at any path: the owner
  -- and the coordinates are the same, and so is the target, if it is normal, without lone surrogates
  -- and its page is safe, except that a missing detail becomes the one of the browser's path.
  pub read-create_navigation_history_state :
      (owner : Option RouteGraphHistoryOwner) (t : NavigationTarget)
      (scroll : NavigationScrollPosition) (pathname : Text)
      → IsNormal t
      → OptionIs IsWritable t.topic
      → OptionIs IsWritable t.query
      → OptionIs IsWritable t.detail
      → OptionIs IsSafePage t.page
      → let s = create_navigation_history_state owner t scroll in
        read_navigation_history_state browser spell pathname (state_value s)
        ≡ some (record s {
          target = record t { detail = or_else t.detail (pathname_target pathname).detail };
        })
  unfolding read_navigation_history_state create_navigation_history_state state_value
  read-create_navigation_history_state owner t scroll pathname h topic query detail page =
      let s = create_navigation_history_state owner t scroll in
      rw
        (
          normalize_unknown_target-target_value t pathname h topic query detail page,
          safe_number_idem scroll.x,
          safe_number_idem scroll.y,
          owner_kept s,
        )
        refl
