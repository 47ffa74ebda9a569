-- ===== src/Navigation/Target/Normal.antt =====
-- What `normalizeNavigation` accepts is normal, and it keeps a target that is normal.
use lexi_go.Common.{
  ℕ, suc, zero, ◌≡◌, ◌≤◌, ◌<◌, refl, true, Option, none, some, Text, length, leb, ltb, is_nonempty,
  trim, arith, Bool-cases, inl, inr, leb→le, ltb→lt, lt→ltb, subst,
}
use lexi_go.Common.Trim.{trim-trim}
use lexi_go.Json.{
  pos, negsuc, Number, int, fraction, infinite, nan, Value, undefined, null, bool, num, str, arr,
  obj, Fields,
}
use lexi_go.Navigation.Target.{
  AppView, NavigationSource, CatalogStatus, CatalogSort, new, learning, review, mastered, default,
  az, za, NavigationTarget, view_text, source_text, status_text, sort_text, views, sources,
  catalog_statuses, catalog_sorts, normalized_string, normalized_text, normalized_page,
  optional_text, optional_page, assemble, normalize_fields, normalize_navigation, target_value,
  present, later_page, present_page, member, maybe,
}

pub views-view_text : (v : AppView) → views (view_text v) ≡ some v
unfolding views view_text
views-view_text AppView.home = refl
views-view_text AppView.learn = refl
views-view_text AppView.phrases = refl
views-view_text AppView.library = refl
views-view_text AppView.progress = refl
views-view_text AppView.profile = refl
views-view_text AppView.onboarding = refl
views-view_text AppView.lesson = refl
views-view_text AppView.scenario = refl

pub sources-source_text : (s : NavigationSource) → sources (source_text s) ≡ some s
unfolding sources source_text
sources-source_text NavigationSource.mixed = refl
sources-source_text NavigationSource.noun = refl
sources-source_text NavigationSource.verb = refl
sources-source_text NavigationSource.adjective = refl
sources-source_text NavigationSource.phrases = refl
sources-source_text NavigationSource.daily_life = refl
sources-source_text NavigationSource.travel = refl
sources-source_text NavigationSource.data_engineering = refl
sources-source_text NavigationSource.backend = refl
sources-source_text NavigationSource.academic_technical_english = refl

pub catalog_statuses-status_text : (s : CatalogStatus) → catalog_statuses (status_text s) ≡ some s
unfolding catalog_statuses status_text
catalog_statuses-status_text new = refl
catalog_statuses-status_text learning = refl
catalog_statuses-status_text review = refl
catalog_statuses-status_text mastered = refl

pub catalog_sorts-sort_text : (s : CatalogSort) → catalog_sorts (sort_text s) ≡ some s
unfolding catalog_sorts sort_text
catalog_sorts-sort_text default = refl
catalog_sorts-sort_text az = refl
catalog_sorts-sort_text za = refl

-- A text that `normalizedText` leaves as it is.
pub record IsNormalText (s : Text) : Type 0 where
  pub trimmed : trim s ≡ s
  pub nonempty : is_nonempty s ≡ true
  pub short : length s ≤ 120

abbrev pub OptionIs {ℓ κ} : {A : Type ℓ} → (A → Type κ) → Option A → Type κ
OptionIs P none = Unit
OptionIs P (some a) = P a

abbrev pub IsLaterPage : Number → Type 0
IsLaterPage (int (pos n)) = 1 < n
IsLaterPage _ = ⊥

pub record IsNormal (t : NavigationTarget) : Type 0 where
  pub topic : OptionIs IsNormalText t.topic
  pub query : OptionIs IsNormalText t.query
  pub page : OptionIs IsLaterPage t.page
  pub detail : OptionIs IsNormalText t.detail

pub normalized_string-eq : (s : Text) → IsNormalText s → normalized_string s ≡ some s
unfolding normalized_string
normalized_string-eq s h = rw h.trimmed (ground (arith, h.nonempty, h.short))

none-ne-some {ℓ} : {A : Type ℓ} {a : A} → ◌≡◌ {A = Option A} none (some a) → ⊥
none-ne-some e = cc

some-injective {ℓ} : {A : Type ℓ} {a b : A} → ◌≡◌ {A = Option A} (some a) (some b) → a ≡ b
some-injective e = cc

-- Every result of a fallible step satisfies `P`.
abbrev Yields {ℓ κ} : {A : Type ℓ} → (A → Type κ) → Option A → Type κ
Yields P none = Unit
Yields P (some a) = P a

Yields-elim {ℓ κ} :
    {A : Type ℓ} (P : A → Type κ) (m : Option A) (a : A) → Yields P m → m ≡ some a → P a
Yields-elim P none a h e = absurd (none-ne-some e)
Yields-elim P (some b) a h e = subst P (some-injective e) h

normalized_string-IsNormalText : (s : Text) → Yields IsNormalText (normalized_string s)
unfolding normalized_string
normalized_string-IsNormalText s = elim (Bool-cases (is_nonempty (trim s))) [
  | inr k ↦ rw k tt
  | inl k ↦ rw k (elim (Bool-cases (leb (length (trim s)) 120)) [
    | inl short ↦
        rw short (record { trimmed = trim-trim s; nonempty = k; short = leb→le _ _ short })
    | inr long ↦ rw long tt
  ])
]

present-Yields {ℓ κ} :
    {A : Type ℓ} (P : A → Type κ) (o : Option A) → Yields P o → Yields (OptionIs P) (present o)
present-Yields P none h = tt
present-Yields P (some a) h = h

optional_text-IsNormalText : (v : Value) → Yields (OptionIs IsNormalText) (optional_text v)
unfolding optional_text normalized_text
optional_text-IsNormalText undefined = tt
optional_text-IsNormalText (str s) =
    present-Yields IsNormalText (normalized_string s) (normalized_string-IsNormalText s)
optional_text-IsNormalText null = tt
optional_text-IsNormalText (bool b) = tt
optional_text-IsNormalText (num n) = tt
optional_text-IsNormalText (arr xs) = tt
optional_text-IsNormalText (obj fs) = tt

pub later_page-IsLaterPage : (n : ℕ) → OptionIs IsLaterPage (later_page n)
later_page-IsLaterPage n = elim (Bool-cases (ltb 1 n)) [
  | inl later ↦ rw later (ltb→lt 1 n later)
  | inr first ↦ rw first tt
]

present_page-IsLaterPage : (o : Option ℕ) → Yields (OptionIs IsLaterPage) (present_page o)
present_page-IsLaterPage none = tt
present_page-IsLaterPage (some n) = later_page-IsLaterPage n

optional_page-IsLaterPage : (v : Value) → Yields (OptionIs IsLaterPage) (optional_page v)
unfolding optional_page
optional_page-IsLaterPage undefined = tt
optional_page-IsLaterPage (str s) = present_page-IsLaterPage (normalized_page (str s))
optional_page-IsLaterPage null = present_page-IsLaterPage (normalized_page null)
optional_page-IsLaterPage (bool b) = present_page-IsLaterPage (normalized_page (bool b))
optional_page-IsLaterPage (num n) = present_page-IsLaterPage (normalized_page (num n))
optional_page-IsLaterPage (arr xs) = present_page-IsLaterPage (normalized_page (arr xs))
optional_page-IsLaterPage (obj fs) = present_page-IsLaterPage (normalized_page (obj fs))

assemble-IsNormal :
    (view : Option AppView) (source : Option (Option NavigationSource))
    (status : Option (Option CatalogStatus)) (sort : Option (Option CatalogSort))
    (page : Option (Option Number)) (topic query detail : Option (Option Text))
    → Yields (OptionIs IsLaterPage) page
    → Yields (OptionIs IsNormalText) topic
    → Yields (OptionIs IsNormalText) query
    → Yields (OptionIs IsNormalText) detail
    → Yields IsNormal (assemble view source status sort page topic query detail)
unfolding assemble
assemble-IsNormal none source status sort page topic query detail p t q d = tt
assemble-IsNormal (some v) none status sort page topic query detail p t q d = tt
assemble-IsNormal (some v) (some x) none sort page topic query detail p t q d = tt
assemble-IsNormal (some v) (some x) (some y) none page topic query detail p t q d = tt
assemble-IsNormal (some v) (some x) (some y) (some z) none topic query detail p t q d = tt
assemble-IsNormal (some v) (some x) (some y) (some z) (some a) none query detail p t q d = tt
assemble-IsNormal (some v) (some x) (some y) (some z) (some a) (some b) none detail p t q d = tt
assemble-IsNormal (some v) (some x) (some y) (some z) (some a) (some b) (some c) none p t q d = tt
assemble-IsNormal (some v) (some x) (some y) (some z) (some a) (some b) (some c) (some e) p t q d =
    record { topic = t; query = q; page = p; detail = d }

normalize_fields-IsNormal : (fields : Fields) → Yields IsNormal (normalize_fields fields)
unfolding normalize_fields
normalize_fields-IsNormal fields =
    assemble-IsNormal _ _ _ _ _ _ _ _ (optional_page-IsLaterPage _) (optional_text-IsNormalText _)
      (optional_text-IsNormalText _) (optional_text-IsNormalText _)

-- Whatever value it is given, the texts of the target that `normalizeNavigation` returns are
-- trimmed, not empty and at most 120 code units long, and a page that it holds is above 1.
pub normalize_navigation-IsNormal :
    (v : Value) (t : NavigationTarget) → normalize_navigation v ≡ some t → IsNormal t
unfolding normalize_navigation
normalize_navigation-IsNormal (obj fields) t e =
    Yields-elim IsNormal (normalize_fields fields) t (normalize_fields-IsNormal fields) e
normalize_navigation-IsNormal undefined t e = absurd (none-ne-some e)
normalize_navigation-IsNormal null t e = absurd (none-ne-some e)
normalize_navigation-IsNormal (bool b) t e = absurd (none-ne-some e)
normalize_navigation-IsNormal (num n) t e = absurd (none-ne-some e)
normalize_navigation-IsNormal (str s) t e = absurd (none-ne-some e)
normalize_navigation-IsNormal (arr xs) t e = absurd (none-ne-some e)

member-source :
    (o : Option NavigationSource) → member sources (maybe (λ x. str (source_text x)) o) ≡ some o
member-source none = refl
member-source (some s) = rw (sources-source_text s) refl

member-status :
    (o : Option CatalogStatus)
    → member catalog_statuses (maybe (λ x. str (status_text x)) o) ≡ some o
member-status none = refl
member-status (some s) = rw (catalog_statuses-status_text s) refl

member-sort :
    (o : Option CatalogSort) → member catalog_sorts (maybe (λ x. str (sort_text x)) o) ≡ some o
member-sort none = refl
member-sort (some s) = rw (catalog_sorts-sort_text s) refl

optional_text-kept :
    (o : Option Text) → OptionIs IsNormalText o → optional_text (maybe str o) ≡ some o
unfolding optional_text normalized_text
optional_text-kept none h = refl
optional_text-kept (some s) h = rw (normalized_string-eq s h) refl

optional_page-kept :
    (o : Option Number) → OptionIs IsLaterPage o → optional_page (maybe num o) ≡ some o
unfolding optional_page normalized_page
optional_page-kept none h = refl
optional_page-kept (some (int (pos zero))) h = absurd (omega arith)
optional_page-kept (some (int (pos (suc n)))) h = rw (lt→ltb 1 (suc n) h) refl
optional_page-kept (some (int (negsuc n))) h = absurd h
optional_page-kept (some (fraction z m)) h = absurd h
optional_page-kept (some (infinite b)) h = absurd h
optional_page-kept (some nan) h = absurd h

-- A target whose texts and page are normal is kept whole by `normalizeNavigation`.
pub normalize_navigation-target_value :
    (t : NavigationTarget) → IsNormal t → normalize_navigation (target_value t) ≡ some t
unfolding normalize_navigation normalize_fields target_value
normalize_navigation-target_value t h =
    rw
      (
        views-view_text t.view,
        member-source t.source,
        member-status t.status,
        member-sort t.sort,
        optional_page-kept t.page h.page,
        optional_text-kept t.topic h.topic,
        optional_text-kept t.query h.query,
        optional_text-kept t.detail h.detail,
      )
      refl
