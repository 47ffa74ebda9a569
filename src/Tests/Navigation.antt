-- ===== src/Tests/Navigation.antt =====
-- The theorems on the navigation at concrete inputs.
use lexi_go.Common.{
  ℕ, zero, suc, ◌≡◌, refl, true, false, none, some, List, [], ◌∷◌, Text, codes, is_nonempty, trim,
  trim_start, arith,
}
use lexi_go.Common.Uri.{
  encode_uri_component, decode_uri_component, encode_from, tokens, read, hex_value,
}
use lexi_go.Common.Uri.Total.{IsWritable, is_well_formed, pairs_from}
use lexi_go.Json.{pos, int, plain, json, Storage}
use lexi_go.Navigation.Target.{
  AppView, NavigationSource, review, za, NavigationTarget, bare, normalize_navigation, target_value,
  views, sources, catalog_statuses, catalog_sorts, optional_page, optional_text,
}
use lexi_go.Navigation.Target.Normal.{
  IsNormal, IsNormalText, OptionIs, normalize_navigation-target_value,
}
use lexi_go.Common.Split.{split_on}
use lexi_go.Navigation.Path.{
  encoded_path_segment, route_for, detailed, pathname_target, route_path, is_canonical_route_path,
}
use lexi_go.Navigation.Path.Routes.{routed, pathname_target-route_path}
use lexi_go.Navigation.Url.{
  split_location, without_dots, resolved, Params, SearchParams, navigation_url,
  parse_navigation_location, location_of,
}
use lexi_go.Navigation.Url.Read.{restored, parse_navigation-navigation_url}
use lexi_go.Navigation.Stored.{
  is_restorable, Faults, read_persisted_navigation, write_persisted_navigation,
  legacy_navigation_storage_key, navigation_storage_key,
}
use lexi_go.Navigation.Stored.Kept.{IsKept, read_persisted_navigation-IsKept}
use lexi_go.Navigation.Stored.Again.{read_persisted_navigation-write_persisted_navigation}

-- A way to write parameters as one text: each key and each value ends in 0.
abbrev pub marked : Text → Text → Text
marked [] rest = 0 ∷ rest
marked (c ∷ s) rest = suc c ∷ marked s rest

abbrev pub written_params : Params → Text
written_params [] = []
written_params ((k, v) ∷ params) = marked k (marked v (written_params params))

abbrev pub extend : ℕ → List Text → List Text
extend c [] = []
extend c (s ∷ ss) = (c ∷ s) ∷ ss

abbrev pub chunks : Text → List Text
chunks [] = []
chunks (zero ∷ s) = [] ∷ chunks s
chunks (suc c ∷ s) = extend c (chunks s)

abbrev pub pairs : List Text → Params
pairs [] = []
pairs (k ∷ []) = []
pairs (k ∷ v ∷ ss) = (k, v) ∷ pairs ss

chunks-marked : (s rest : Text) → chunks (marked s rest) ≡ s ∷ chunks rest
chunks-marked [] rest = refl
chunks-marked (c ∷ s) rest = rw (chunks-marked s rest) refl

pub pairs-written_params : (params : Params) → pairs (chunks (written_params params)) ≡ params
pairs-written_params [] = refl
pairs-written_params ((k, v) ∷ params) =
    rw
      (
        chunks-marked k (marked v (written_params params)),
        chunks-marked v (written_params params),
        pairs-written_params params,
      )
      refl

pub nonempty-marked : (s rest : Text) → is_nonempty (marked s rest) ≡ true
nonempty-marked [] rest = refl
nonempty-marked (c ∷ s) rest = refl

abbrev pub a_browser : SearchParams
a_browser = record {
  entries = λ s. pairs (chunks s);
  text = written_params;
  entries-text = λ params _. pairs-written_params params;
  text-nil = refl;
  text-cons = λ e params. nonempty-marked e.0 (marked e.1 (written_params params));
}

abbrev pub a_query : Text
a_query = codes "data flow"

abbrev pub a_phrase : NavigationTarget
a_phrase = record {
  view = AppView.phrases;
  source = some NavigationSource.backend;
  topic = none;
  status = some review;
  query = some a_query;
  sort = some za;
  page = some (int (pos 3));
  detail = some (codes "a/b");
}

a_query-IsNormalText : IsNormalText a_query
unfolding trim trim_start
a_query-IsNormalText = record { trimmed = refl; nonempty = refl; short = omega arith }

a_detail-IsNormalText : IsNormalText (codes "a/b")
unfolding trim trim_start
a_detail-IsNormalText = record { trimmed = refl; nonempty = refl; short = omega arith }

pub a_phrase-IsNormal : IsNormal a_phrase
a_phrase-IsNormal = record {
  topic = tt;
  query = a_query-IsNormalText;
  page = omega arith;
  detail = a_detail-IsNormalText;
}

pub a_query-IsWritable : IsWritable a_query
unfolding is_well_formed pairs_from
a_query-IsWritable = (omega arith, refl)

pub a_detail-IsWritable : IsWritable (codes "a/b")
unfolding is_well_formed pairs_from
a_detail-IsWritable = (omega arith, refl)

-- The slash of the detail is escaped.
a_phrase_path : route_path a_phrase ≡ some (codes "/phrases/a%2Fb")
unfolding route_path trim trim_start normalize_navigation target_value encode_uri_component
    encode_from views sources catalog_statuses catalog_sorts optional_page optional_text
a_phrase_path = refl

-- Two, three and four bytes; the last character is a pair of surrogates.
encoded_bytes :
    encode_uri_component (233 ∷ 8364 ∷ 55357 ∷ 56832 ∷ [])
    ≡ some (codes "%C3%A9%E2%82%AC%F0%9F%98%80")
unfolding encode_uri_component encode_from
encoded_bytes = refl

decoded_bytes :
    decode_uri_component (codes "%C3%a9%F0%9F%98%80!") ≡ some (233 ∷ 55357 ∷ 56832 ∷ 33 ∷ [])
unfolding decode_uri_component tokens read hex_value
decoded_bytes = refl

-- An overlong form, a byte that is missing and a surrogate are refused.
refused_bytes :
    (decode_uri_component (codes "%C0%80") ≡ none)
    × (decode_uri_component (codes "%E2%82") ≡ none)
    × (decode_uri_component (codes "%ED%A0%80") ≡ none)
unfolding decode_uri_component tokens read hex_value
refused_bytes = (refl, refl, refl)

-- A word whose digits begin with 0 has a path that is read as the start page.
zero_word :
    (route_path (detailed AppView.library (some (codes "07"))) ≡ some (codes "/words/07"))
    × (pathname_target (codes "/words/07") ≡ bare AppView.home)
unfolding route_path pathname_target trim trim_start normalize_navigation target_value views
    optional_text optional_page
zero_word = (refl, refl)

trailing_slashes :
    pathname_target (codes " /words/70// ") ≡ detailed AppView.library (some (codes "70"))
unfolding pathname_target trim trim_start
trailing_slashes = refl

normalize_navigation-target_value_example :
    normalize_navigation (target_value a_phrase) ≡ some a_phrase
normalize_navigation-target_value_example =
    normalize_navigation-target_value a_phrase a_phrase-IsNormal

pathname_target-route_path_example :
    (p : Text) × (route_path a_phrase ≡ some p)
    × (pathname_target p ≡ routed AppView.phrases (some (codes "a/b")))
    × (is_canonical_route_path p ≡ true)
pathname_target-route_path_example =
    pathname_target-route_path a_phrase a_phrase-IsNormal a_detail-IsWritable refl

parse_navigation-navigation_url_example :
    (url : Text) × (navigation_url a_browser a_phrase ≡ some url)
    × (parse_navigation_location a_browser (location_of url)
        ≡ restored (routed AppView.phrases (some (codes "a/b"))) a_phrase)
parse_navigation-navigation_url_example =
    parse_navigation-navigation_url a_browser a_phrase a_phrase-IsNormal tt a_query-IsWritable
      a_detail-IsWritable (omega arith) refl refl

-- A browser goes from the phrase `..` to the start page.
dots_lost : (location_of (codes "/phrases/..")).pathname ≡ codes "/"
unfolding location_of split_location without_dots resolved split_on
dots_lost = refl

dots_written : route_for AppView.phrases (some (codes "..")) ≡ some (codes "/phrases/..")
unfolding route_for encoded_path_segment encode_uri_component encode_from trim trim_start
dots_written = refl

-- The calls that set an item throw.
abbrev a_full_storage : Faults
a_full_storage = record { get_item = λ k. false; set_item = λ k. true; remove_item = λ k. false }

abbrev pub no_faults : Faults
no_faults = record { get_item = λ k. false; set_item = λ k. false; remove_item = λ k. false }

abbrev a_storage : Storage
a_storage =
    (navigation_storage_key, plain (codes "{"))
    ∷ (legacy_navigation_storage_key, json (target_value a_phrase))
    ∷ []

-- Where the new key cannot be set, the older entry is gone all the same.
lost_navigation : read_persisted_navigation a_full_storage a_storage ≡ ([], none)
unfolding read_persisted_navigation trim trim_start normalize_navigation target_value views sources
    catalog_statuses catalog_sorts optional_page optional_text
lost_navigation = refl

read_persisted_navigation-IsKept_example :
    OptionIs IsKept (read_persisted_navigation no_faults a_storage).1
read_persisted_navigation-IsKept_example = read_persisted_navigation-IsKept no_faults a_storage

read_persisted_navigation-write_persisted_navigation_example :
    read_persisted_navigation no_faults (write_persisted_navigation no_faults a_storage a_phrase)
    ≡ (write_persisted_navigation no_faults a_storage a_phrase, some a_phrase)
unfolding is_restorable
read_persisted_navigation-write_persisted_navigation_example =
    read_persisted_navigation-write_persisted_navigation no_faults refl a_storage a_phrase refl
      (record { restorable = refl; normal = a_phrase-IsNormal })
