-- ===== src/Navigation/Url/Params.antt =====
-- Reading the parameters that `navigationURL` sets.
use lexi_go.Common.{
  ◌≡◌, refl, sym, ◌∙◌, subst, Bool, true, false, Option, none, some, [], ◌∷◌, Text, codes, text_eq,
  eq_of_text_eq, if◌then◌else◌, Bool-cases, inl, inr, All, arith, all, ltb, ℕ, ◌<◌,
}
use lexi_go.Common.Trim.{true-ne-false, and_left, and_right}
use lexi_go.Common.Uri.Round.{AreUnits}
use lexi_go.Common.Uri.Total.{IsWritable, is_well_formed}
use lexi_go.Navigation.Target.Normal.{OptionIs}
use lexi_go.Common.Decimal.{is_digit, show, all-show}
use lexi_go.Common.Uri.{is_low, is_high}
use lexi_go.Json.{pos, negsuc, Number, int, fraction, infinite, nan}
use lexi_go.Navigation.Path.Segments.{all_mono}
use lexi_go.Navigation.Target.{
  NavigationTarget, NavigationSource, CatalogStatus, CatalogSort, new, learning, review, mastered,
  default, az, za, source_text, status_text, sort_text,
}
use lexi_go.Navigation.Url.{
  Params, get_param, delete_param, set_param, set_if, or_else, target_params, page_param,
  sort_param, maybe_text,
}

differs : (a k j : Text) → text_eq a k ≡ true → text_eq k j ≡ false → text_eq a j ≡ false
differs a k j e h = rw (eq_of_text_eq a k e) h

apart : (a k j : Text) → text_eq a j ≡ true → text_eq a k ≡ false → text_eq k j ≡ false
apart a k j e h = elim (Bool-cases (text_eq k j)) [
  | inl same ↦
      let g : text_eq a j ≡ false =
        subst (λ (x : Text). text_eq a x ≡ false) (eq_of_text_eq k j same) h in
      absurd (true-ne-false (sym g ∙ e))
  | inr other ↦ other
]

get-delete_param :
    (j k : Text) (ps : Params)
    → text_eq k j ≡ false
    → get_param j (delete_param k ps) ≡ get_param j ps
unfolding get_param delete_param
get-delete_param j k [] h = refl
get-delete_param j k ((a, v) ∷ ps) h = elim (Bool-cases (text_eq a k)) [
  | inl same ↦ rw (same, differs a k j same h) (get-delete_param j k ps h)
  | inr k2 ↦ rw (k2, get-delete_param j k ps h) refl
]

pub get-set_param :
    (j k v : Text) (ps : Params)
    → get_param j (set_param k v ps) ≡ (if text_eq k j then some v else get_param j ps)
unfolding get_param set_param
get-set_param j k v [] = refl
get-set_param j k v ((a, w) ∷ ps) = elim (Bool-cases (text_eq a k)) [
  | inl same ↦
      rw (same, eq_of_text_eq a k same)
        (elim (Bool-cases (text_eq k j)) [
          | inl read ↦ rw read refl
          | inr other ↦ rw other (get-delete_param j k ps other)
        ])
  | inr k2 ↦
      rw (k2, get-set_param j k v ps)
        (elim (Bool-cases (text_eq a j)) [
          | inl read ↦ rw (read, apart a k j read k2) refl
          | inr other ↦ rw other refl
        ])
]

pub or_else-none {ℓ} : {A : Type ℓ} (o : Option A) → or_else o none ≡ o
or_else-none none = refl
or_else-none (some a) = refl

pub get-set_if :
    (j k : Text) (o : Option Text) (ps : Params)
    → get_param j (set_if k o ps)
      ≡ (if text_eq k j then or_else o (get_param j ps) else get_param j ps)
get-set_if j k none ps = elim (Bool-cases (text_eq k j)) [
  | inl same ↦ rw same refl
  | inr other ↦ rw other refl
]
get-set_if j k (some v) ps = get-set_param j k v ps

module _ (t : NavigationTarget) where
  pub get-view : get_param (codes "view") (target_params t) ≡ none
  unfolding target_params get_param
  get-view = simp get-set_if

  pub get-source : get_param (codes "source") (target_params t) ≡ maybe_text source_text t.source
  unfolding target_params get_param
  get-source = simp (get-set_if, or_else-none)

  pub get-topic : get_param (codes "topic") (target_params t) ≡ t.topic
  unfolding target_params get_param
  get-topic = simp (get-set_if, or_else-none)

  pub get-status : get_param (codes "status") (target_params t) ≡ maybe_text status_text t.status
  unfolding target_params get_param
  get-status = simp (get-set_if, or_else-none)

  pub get-query : get_param (codes "query") (target_params t) ≡ t.query
  unfolding target_params get_param
  get-query = simp (get-set_if, or_else-none)

  pub get-sort : get_param (codes "sort") (target_params t) ≡ sort_param t.sort
  unfolding target_params get_param
  get-sort = simp (get-set_if, or_else-none)

  pub get-page : get_param (codes "page") (target_params t) ≡ page_param t.page
  unfolding target_params get_param
  get-page = simp (get-set_if, or_else-none)

  pub get-detail : get_param (codes "detail") (target_params t) ≡ none
  unfolding target_params get_param
  get-detail = simp get-set_if

abbrev pub IsPair : Text × Text → Type 0
IsPair e = IsWritable e.0 × IsWritable e.1

delete_param-All : (k : Text) (ps : Params) → All IsPair ps → All IsPair (delete_param k ps)
unfolding delete_param
delete_param-All k [] h = tt
delete_param-All k ((a, v) ∷ ps) h = elim (Bool-cases (text_eq a k)) [
  | inl same ↦ rw same (delete_param-All k ps h.1)
  | inr other ↦ rw other (h.0, delete_param-All k ps h.1)
]

pub set_param-All :
    (k v : Text) (ps : Params)
    → IsWritable k
    → IsWritable v
    → All IsPair ps
    → All IsPair (set_param k v ps)
unfolding set_param
set_param-All k v [] a b h = ((a, b), tt)
set_param-All k v ((j, w) ∷ ps) a b h = elim (Bool-cases (text_eq j k)) [
  | inl same ↦ rw same ((h.0.0, b), delete_param-All k ps h.1)
  | inr other ↦ rw other (h.0, set_param-All k v ps a b h.1)
]

pub set_if-All :
    (k : Text) (o : Option Text) (ps : Params)
    → IsWritable k
    → OptionIs IsWritable o
    → All IsPair ps
    → All IsPair (set_if k o ps)
set_if-All k none ps a b h = h
set_if-All k (some v) ps a b h = set_param-All k v ps a b h

-- ASCII texts are written as they are.
abbrev is_ascii : Text → Bool
is_ascii s = all (λ c. ltb c 128) s

ascii-AreUnits : (s : Text) → is_ascii s ≡ true → AreUnits s
ascii-AreUnits [] h = tt
ascii-AreUnits (c ∷ s) h = (ascii_lt c (and_left _ _ h), ascii-AreUnits s (and_right _ _ h))
  where
    ascii_lt : (d : ℕ) → ltb d 128 ≡ true → d < 65536
    ascii_lt d k = ground arith

ascii_not_surrogate : (c : ℕ) → ltb c 128 ≡ true → (is_low c ≡ false) × (is_high c ≡ false)
ascii_not_surrogate c h = (ground arith, ground arith)

ascii-well_formed : (s : Text) → is_ascii s ≡ true → is_well_formed s ≡ true
unfolding is_well_formed
ascii-well_formed [] h = refl
ascii-well_formed (c ∷ s) h =
    let n : (is_low c ≡ false) × (is_high c ≡ false) = ascii_not_surrogate c (and_left _ _ h) in
    rw (n.0, n.1) (ascii-well_formed s (and_right _ _ h))

pub ascii-IsWritable : (s : Text) → is_ascii s ≡ true → IsWritable s
ascii-IsWritable s h = (ascii-AreUnits s h, ascii-well_formed s h)

pub source-is_ascii : (s : NavigationSource) → is_ascii (source_text s) ≡ true
unfolding source_text
source-is_ascii NavigationSource.mixed = refl
source-is_ascii NavigationSource.noun = refl
source-is_ascii NavigationSource.verb = refl
source-is_ascii NavigationSource.adjective = refl
source-is_ascii NavigationSource.phrases = refl
source-is_ascii NavigationSource.daily_life = refl
source-is_ascii NavigationSource.travel = refl
source-is_ascii NavigationSource.data_engineering = refl
source-is_ascii NavigationSource.backend = refl
source-is_ascii NavigationSource.academic_technical_english = refl

pub status-is_ascii : (s : CatalogStatus) → is_ascii (status_text s) ≡ true
unfolding status_text
status-is_ascii new = refl
status-is_ascii learning = refl
status-is_ascii review = refl
status-is_ascii mastered = refl

sort-IsWritable : (o : Option CatalogSort) → OptionIs IsWritable (sort_param o)
unfolding sort_text
sort-IsWritable none = tt
sort-IsWritable (some default) = tt
sort-IsWritable (some az) = ascii-IsWritable (codes "az") refl
sort-IsWritable (some za) = ascii-IsWritable (codes "za") refl

pub source-IsWritable :
    (o : Option NavigationSource) → OptionIs IsWritable (maybe_text source_text o)
source-IsWritable none = tt
source-IsWritable (some s) = ascii-IsWritable (source_text s) (source-is_ascii s)

pub status-IsWritable : (o : Option CatalogStatus) → OptionIs IsWritable (maybe_text status_text o)
status-IsWritable none = tt
status-IsWritable (some s) = ascii-IsWritable (status_text s) (status-is_ascii s)

digit_is_ascii : (c : ℕ) → is_digit c ≡ true → ltb c 128 ≡ true
digit_is_ascii c h = ground arith

pub show-IsWritable : (n : ℕ) → IsWritable (show n)
show-IsWritable n =
    ascii-IsWritable (show n)
      (all_mono is_digit (λ c. ltb c 128) digit_is_ascii (show n) (all-show n))

pub page-IsWritable : (o : Option Number) → OptionIs IsWritable (page_param o)
page-IsWritable none = tt
page-IsWritable (some (int (pos n))) = elim (Bool-cases (ltb 1 n)) [
  | inl later ↦ rw later (show-IsWritable n)
  | inr first ↦ rw first tt
]
page-IsWritable (some (int (negsuc n))) = tt
page-IsWritable (some (fraction z m)) = tt
page-IsWritable (some (infinite b)) = tt
page-IsWritable (some nan) = tt

pub target_params-All :
    (t : NavigationTarget)
    → OptionIs IsWritable t.topic
    → OptionIs IsWritable t.query
    → All IsPair (target_params t)
unfolding target_params
target_params-All t topic query =
    set_if-All (codes "page") (page_param t.page) _ (ascii-IsWritable _ refl)
      (page-IsWritable t.page)
      (set_if-All (codes "sort") (sort_param t.sort) _ (ascii-IsWritable _ refl)
        (sort-IsWritable t.sort)
        (set_if-All (codes "query") t.query _ (ascii-IsWritable _ refl) query (
          set_if-All (codes "status") (maybe_text status_text t.status) _ (ascii-IsWritable _ refl)
            (status-IsWritable t.status)
            (set_if-All (codes "topic") t.topic _ (ascii-IsWritable _ refl) topic (
              set_if-All (codes "source") (maybe_text source_text t.source) []
                (ascii-IsWritable _ refl) (source-IsWritable t.source) tt)))))
