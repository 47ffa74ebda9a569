-- ===== src/Navigation/History/Read.antt =====
-- Reading the state that a history entry was given.
use lexi_go.Common.{◌≡◌, refl, Option, none, some, Text, codes, lt→ltb, arith}
use lexi_go.Json.{pos, negsuc, Number, int, fraction, infinite, nan, Value, num, str, obj, Fields}
use lexi_go.Navigation.Target.{
  AppView, NavigationTarget, CatalogSort, view_text, source_text, status_text, sort_text,
  catalog_sorts, page_of_text, target_value, maybe, ◌>>=◌,
}
use lexi_go.Navigation.Target.Normal.{
  IsNormal, OptionIs, IsLaterPage, views-view_text, catalog_sorts-sort_text,
}
use lexi_go.Navigation.Path.{detailed}
use lexi_go.Navigation.Url.{
  Params, SearchParams, get_param, or_else, maybe_text, read_target, kept_page, page_number,
}
use lexi_go.Navigation.Url.Params.{get-set_if, get-set_param, or_else-none}
use lexi_go.Navigation.Url.Read.{IsSafePage, page_of_text-show, source_read, status_read, text_read}
use lexi_go.Navigation.History.{string_of, unknown_params, page_text}

abbrev pub object_fields : Value → Fields
object_fields (obj fields) = fields
object_fields _ = Fields.end

pub string_of-maybe {ℓ} :
    {A : Type ℓ} (f : A → Text) (o : Option A)
    → string_of (maybe (λ x. str (f x)) o) ≡ maybe_text f o
string_of-maybe f none = refl
string_of-maybe f (some a) = refl

pub string_of-text : (o : Option Text) → string_of (maybe str o) ≡ o
string_of-text none = refl
string_of-text (some a) = refl

sort_kept : (o : Option CatalogSort) → (maybe_text sort_text o >>= catalog_sorts) ≡ o
sort_kept none = refl
sort_kept (some s) = catalog_sorts-sort_text s

module _ (browser : SearchParams) (spell : Number → Text) (t : NavigationTarget) where
  abbrev pub written_params : Params
  written_params = unknown_params browser spell (view_text t.view) (object_fields (target_value t))

  get-view : get_param (codes "view") written_params ≡ some (view_text t.view)
  unfolding unknown_params target_value get_param
  get-view = simp (get-set_if, get-set_param)

  get-source : get_param (codes "source") written_params ≡ maybe_text source_text t.source
  unfolding unknown_params target_value get_param
  get-source = simp (get-set_if, get-set_param, or_else-none, string_of-maybe)

  get-topic : get_param (codes "topic") written_params ≡ t.topic
  unfolding unknown_params target_value get_param
  get-topic = simp (get-set_if, get-set_param, or_else-none, string_of-text)

  get-status : get_param (codes "status") written_params ≡ maybe_text status_text t.status
  unfolding unknown_params target_value get_param
  get-status = simp (get-set_if, get-set_param, or_else-none, string_of-maybe)

  get-query : get_param (codes "query") written_params ≡ t.query
  unfolding unknown_params target_value get_param
  get-query = simp (get-set_if, get-set_param, or_else-none, string_of-text)

  get-sort : get_param (codes "sort") written_params ≡ maybe_text sort_text t.sort
  unfolding unknown_params target_value get_param
  get-sort = simp (get-set_if, get-set_param, or_else-none, string_of-maybe)

  get-detail : get_param (codes "detail") written_params ≡ t.detail
  unfolding unknown_params target_value get_param
  get-detail = simp (get-set_if, get-set_param, or_else-none, string_of-text)

  get-page : get_param (codes "page") written_params ≡ page_text browser spell (maybe num t.page)
  unfolding unknown_params target_value get_param
  get-page = simp (get-set_if, get-set_param, or_else-none)

module _ (browser : SearchParams) (spell : Number → Text) where
  page_kept :
      (o : Option Number)
      → OptionIs IsLaterPage o
      → OptionIs IsSafePage o
      → kept_page
          (or_else (page_number (page_text browser spell (maybe num o) >>= page_of_text)) none)
        ≡ o
  page_kept none h k = refl
  page_kept (some (int (pos n))) h k =
      rw (page_of_text-show n k (omega arith)) (rw (lt→ltb 1 n h) refl)
  page_kept (some (int (negsuc n))) h k = absurd h
  page_kept (some (fraction z m)) h k = absurd h
  page_kept (some (infinite b)) h k = absurd h
  page_kept (some nan) h k = absurd h

  -- The target with the detail of the path where it has none.
  abbrev pub completed : NavigationTarget → Option Text → NavigationTarget
  completed t d = record t { detail = or_else t.detail d }

  pub read_target-unknown :
      (t : NavigationTarget) (v : AppView) (d : Option Text)
      → IsNormal t
      → OptionIs IsSafePage t.page
      → read_target (written_params browser spell t) (detailed v d) ≡ completed t d
  unfolding read_target
  read_target-unknown t v d h k =
      rw
        (
          get-view browser spell t,
          views-view_text t.view,
          get-source browser spell t,
          source_read t.source,
          get-topic browser spell t,
          text_read t.topic h.topic,
          get-status browser spell t,
          status_read t.status,
          get-query browser spell t,
          text_read t.query h.query,
          get-sort browser spell t,
          sort_kept t.sort,
          get-page browser spell t,
          page_kept t.page h.page k,
          get-detail browser spell t,
          text_read t.detail h.detail,
        )
        (rw
          (
            or_else-none t.source,
            or_else-none t.topic,
            or_else-none t.status,
            or_else-none t.query,
            or_else-none t.sort,
          )
          refl)
