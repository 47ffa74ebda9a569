-- ===== src/Navigation/Target.antt =====
-- `NavigationTarget` and `normalizeNavigation` of frontend/lib/navigation.ts.
pub mod Normal
use lexi_go.Common.{
  ℕ, zero, suc, ◌≡◌, Bool, true, false, ◌&&◌, Option, none, some, Text, codes, text_eq, length, leb,
  ltb, if◌then◌else◌, is_nonempty, all, trim, refl,
}
use lexi_go.Common.Decimal.{is_digit, value}
use lexi_go.Json.{
  ℤ, pos, negsuc, Number, int, fraction, infinite, nan, Value, undefined, null, bool, num, str, arr,
  obj, Fields, end, field, get_field, max_safe_integer,
}

pub data AppView : Type 0 where
  home learn phrases library progress profile onboarding lesson scenario : AppView

pub data NavigationSource : Type 0 where
  mixed noun verb adjective phrases daily_life travel data_engineering backend : NavigationSource
  academic_technical_english : NavigationSource

pub data CatalogStatus : Type 0 where
  new learning review mastered : CatalogStatus

pub data CatalogSort : Type 0 where
  default az za : CatalogSort

pub record NavigationTarget : Type 0 where
  pub view : AppView
  pub source : Option NavigationSource
  pub topic : Option Text
  pub status : Option CatalogStatus
  pub query : Option Text
  pub sort : Option CatalogSort
  pub page : Option Number
  pub detail : Option Text

-- `{ view }`.
abbrev pub bare : AppView → NavigationTarget
bare v = record {
  view = v;
  source = none;
  topic = none;
  status = none;
  query = none;
  sort = none;
  page = none;
  detail = none;
}

unfoldable pub view_text : AppView → Text
view_text AppView.home = codes "home"
view_text AppView.learn = codes "learn"
view_text AppView.phrases = codes "phrases"
view_text AppView.library = codes "library"
view_text AppView.progress = codes "progress"
view_text AppView.profile = codes "profile"
view_text AppView.onboarding = codes "onboarding"
view_text AppView.lesson = codes "lesson"
view_text AppView.scenario = codes "scenario"

unfoldable pub source_text : NavigationSource → Text
source_text NavigationSource.mixed = codes "mixed"
source_text NavigationSource.noun = codes "noun"
source_text NavigationSource.verb = codes "verb"
source_text NavigationSource.adjective = codes "adjective"
source_text NavigationSource.phrases = codes "phrases"
source_text NavigationSource.daily_life = codes "daily-life"
source_text NavigationSource.travel = codes "travel"
source_text NavigationSource.data_engineering = codes "data-engineering"
source_text NavigationSource.backend = codes "backend"
source_text NavigationSource.academic_technical_english = codes "academic-technical-english"

unfoldable pub status_text : CatalogStatus → Text
status_text new = codes "new"
status_text learning = codes "learning"
status_text review = codes "review"
status_text mastered = codes "mastered"

unfoldable pub sort_text : CatalogSort → Text
sort_text default = codes "default"
sort_text az = codes "az"
sort_text za = codes "za"

-- The sets `VIEWS`, `SOURCES`, `CATALOG_STATUSES` and `CATALOG_SORTS`: the member that a text names.
unfoldable pub views : Text → Option AppView
views s =
    if text_eq s (codes "home")
    then some AppView.home
    else if text_eq s (codes "learn")
    then some AppView.learn
    else if text_eq s (codes "phrases")
    then some AppView.phrases
    else if text_eq s (codes "library")
    then some AppView.library
    else if text_eq s (codes "progress")
    then some AppView.progress
    else if text_eq s (codes "profile")
    then some AppView.profile
    else if text_eq s (codes "onboarding")
    then some AppView.onboarding
    else if text_eq s (codes "lesson")
    then some AppView.lesson
    else if text_eq s (codes "scenario")
    then some AppView.scenario
    else none

unfoldable pub sources : Text → Option NavigationSource
sources s =
    if text_eq s (codes "mixed")
    then some NavigationSource.mixed
    else if text_eq s (codes "noun")
    then some NavigationSource.noun
    else if text_eq s (codes "verb")
    then some NavigationSource.verb
    else if text_eq s (codes "adjective")
    then some NavigationSource.adjective
    else if text_eq s (codes "phrases")
    then some NavigationSource.phrases
    else if text_eq s (codes "daily-life")
    then some NavigationSource.daily_life
    else if text_eq s (codes "travel")
    then some NavigationSource.travel
    else if text_eq s (codes "data-engineering")
    then some NavigationSource.data_engineering
    else if text_eq s (codes "backend")
    then some NavigationSource.backend
    else if text_eq s (codes "academic-technical-english")
    then some NavigationSource.academic_technical_english
    else none

unfoldable pub catalog_statuses : Text → Option CatalogStatus
catalog_statuses s =
    if text_eq s (codes "new")
    then some new
    else if text_eq s (codes "learning")
    then some learning
    else if text_eq s (codes "review")
    then some review
    else if text_eq s (codes "mastered")
    then some mastered
    else none

unfoldable pub catalog_sorts : Text → Option CatalogSort
catalog_sorts s =
    if text_eq s (codes "default")
    then some default
    else if text_eq s (codes "az")
    then some az
    else if text_eq s (codes "za")
    then some za
    else none

abbrev pub max_route_value_length : ℕ
max_route_value_length = 120

unfoldable pub normalized_string : Text → Option Text
normalized_string s =
    if is_nonempty (trim s) && leb (length (trim s)) max_route_value_length
    then some (trim s)
    else none

unfoldable pub normalized_text : Value → Option Text
unfolding normalized_string
normalized_text (str s) = normalized_string s
normalized_text _ = none

abbrev positive : ℕ → Option ℕ
positive zero = none
positive (suc n) = some (suc n)

-- Digits whose number is not safe are refused, so no rounding is seen.
unfoldable pub page_of_text : Text → Option ℕ
page_of_text s =
    if is_nonempty s && all is_digit s && leb (value s) max_safe_integer
    then positive (value s)
    else none

unfoldable pub normalized_page : Value → Option ℕ
unfolding page_of_text
normalized_page (num (int (pos n))) = positive n
normalized_page (str s) = page_of_text s
normalized_page _ = none

infixl 5 ◌>>=◌
abbrev pub ◌>>=◌ {ℓ κ} : {A : Type ℓ} {B : Type κ} → Option A → (A → Option B) → Option B
none >>= k = none
some a >>= k = k a

-- A key that may be missing: `none` refuses the candidate, `some none` leaves the key out.
abbrev pub present {ℓ} : {A : Type ℓ} → Option A → Option (Option A)
present none = none
present (some a) = some (some a)

abbrev pub member {ℓ} : {A : Type ℓ} → (Text → Option A) → Value → Option (Option A)
member set undefined = some none
member set (str s) = present (set s)
member set _ = none

unfoldable pub optional_text : Value → Option (Option Text)
unfolding normalized_text
optional_text undefined = some none
optional_text v = present (normalized_text v)

-- The first page is left out.
abbrev pub later_page : ℕ → Option Number
later_page n = if ltb 1 n then some (int (pos n)) else none

abbrev pub present_page : Option ℕ → Option (Option Number)
present_page none = none
present_page (some n) = some (later_page n)

unfoldable pub optional_page : Value → Option (Option Number)
unfolding normalized_page
optional_page undefined = some none
optional_page v = present_page (normalized_page v)

abbrev pub view_of : Value → Option AppView
view_of (str s) = views s
view_of _ = none

-- The checks have no effect but the refusal, so their order is not seen.
unfoldable pub assemble :
    Option AppView
    → Option (Option NavigationSource)
    → Option (Option CatalogStatus)
    → Option (Option CatalogSort)
    → Option (Option Number)
    → Option (Option Text)
    → Option (Option Text)
    → Option (Option Text)
    → Option NavigationTarget
assemble view source status sort page topic query detail = do
  v ← view
  so ← source
  st ← status
  or ← sort
  p ← page
  t ← topic
  q ← query
  d ← detail
  some (record {
    view = v;
    source = so;
    topic = t;
    status = st;
    query = q;
    sort = or;
    page = p;
    detail = d;
  })

unfoldable pub normalize_fields : Fields → Option NavigationTarget
unfolding assemble
normalize_fields fields =
    assemble (view_of (get_field (codes "view") fields))
      (member sources (get_field (codes "source") fields))
      (member catalog_statuses (get_field (codes "status") fields))
      (member catalog_sorts (get_field (codes "sort") fields))
      (optional_page (get_field (codes "page") fields))
      (optional_text (get_field (codes "topic") fields))
      (optional_text (get_field (codes "query") fields))
      (optional_text (get_field (codes "detail") fields))

unfoldable pub normalize_navigation : Value → Option NavigationTarget
unfolding normalize_fields
normalize_navigation (obj fields) = normalize_fields fields
normalize_navigation _ = none

abbrev pub maybe {ℓ} : {A : Type ℓ} → (A → Value) → Option A → Value
maybe f none = undefined
maybe f (some a) = f a

-- A target as the value that the code passes on. A key that is missing reads as `undefined`.
unfoldable pub target_value : NavigationTarget → Value
unfolding view_text source_text status_text sort_text
target_value t = obj (
    field (codes "view") (str (view_text t.view)) (
      field (codes "source") (maybe (λ x. str (source_text x)) t.source) (
        field (codes "topic") (maybe str t.topic) (
          field (codes "status") (maybe (λ x. str (status_text x)) t.status) (
            field (codes "query") (maybe str t.query) (
              field (codes "sort") (maybe (λ x. str (sort_text x)) t.sort) (
                field (codes "page") (maybe num t.page)
                  (field (codes "detail") (maybe str t.detail) end))))))))
