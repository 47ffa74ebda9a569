-- ===== src/Navigation/Path/Routes.antt =====
-- `pathnameTarget` reads back the view and the detail of the path that `routePath` writes.
use lexi_go.Common.{
  ◌≡◌, refl, ap, ◌∙◌, Bool, true, false, ◌&&◌, Option, none, some, [], ◌∷◌, ◌++◌, Text, codes, ◌==◌,
  if◌then◌else◌, trim, get_or, arith, Bool-cases, inl, inr,
}
use lexi_go.Common.Decimal.{is_digit}
use lexi_go.Common.Trim.{and_left, and_right}
use lexi_go.Common.Uri.{prefix}
use lexi_go.Common.Uri.Chars.{is_uri_char, IsSafe}
use lexi_go.Common.Uri.Total.{IsWritable, is_well_formed}
use lexi_go.Navigation.Target.{AppView, NavigationTarget, bare}
use lexi_go.Navigation.Target.Normal.{
  IsNormal, IsNormalText, OptionIs, normalize_navigation-target_value,
}
use lexi_go.Navigation.Path.{
  is_scenario_slug, safe_decode_path_segment, normalize_pathname, is_word_id, detailed, decoded,
  target_of, pathname_target, is_digits, route_for, route_path, is_canonical_route_path,
  is_canonical, scenario_target,
}
use lexi_go.Navigation.Path.Segments.{
  SegmentOf, no_query, no_query-route, segment_of, is_segment-safe, normalize_pathname-route,
  all_mono, digit-is_uri_char,
}

-- What the path can say of a target: its view, and a detail where the view has routes for it.
unfoldable pub routed : AppView → Option Text → NavigationTarget
routed AppView.lesson d = detailed AppView.lesson (some (get_or d (codes "active")))
routed AppView.scenario none = bare AppView.scenario
routed AppView.scenario (some d) =
    if is_scenario_slug d then detailed AppView.scenario (some d) else bare AppView.scenario
routed AppView.library none = bare AppView.library
routed AppView.library (some d) =
    if is_digits d then detailed AppView.library (some d) else bare AppView.library
routed AppView.phrases d = detailed AppView.phrases d
routed AppView.home d = bare AppView.home
routed AppView.learn d = bare AppView.learn
routed AppView.progress d = bare AppView.progress
routed AppView.profile d = bare AppView.profile
routed AppView.onboarding d = bare AppView.onboarding

abbrev starts_zero : Text → Bool
starts_zero [] = false
starts_zero (c ∷ s) = c == 48

-- Digits that no identifier of a word begins with.
abbrev pub leads_zero : AppView → Option Text → Bool
leads_zero AppView.library (some d) = is_digits d && starts_zero d
leads_zero _ _ = false

abbrev pub IsCanonicalRoute : AppView → Text → Type 0
IsCanonicalRoute AppView.lesson p = Unit
IsCanonicalRoute _ p = is_canonical_route_path p ≡ true

pub record ReadBack (v : AppView) (d : Option Text) : Type 0 where
  pub path : Text
  pub written : route_for v d ≡ some path
  pub read_back : pathname_target path ≡ routed v d
  pub canonical : IsCanonicalRoute v path
  pub plain : no_query path ≡ true

module _ (s : Text) (safe : IsSafe s) where
  target_of-phrase : target_of (codes "/phrases/" ++ s) ≡ detailed AppView.phrases (decoded s)
  target_of-phrase = rw (is_segment-safe s safe) refl

  target_of-lesson : target_of (codes "/lesson/" ++ s) ≡ detailed AppView.lesson (decoded s)
  target_of-lesson = rw (is_segment-safe s safe) refl

  target_of-scenario : target_of (codes "/scenarios/" ++ s) ≡ scenario_target (decoded s)
  target_of-scenario = rw (is_segment-safe s safe) refl

  is_canonical-phrase : is_canonical (codes "/phrases/" ++ s) ≡ true
  is_canonical-phrase = rw (is_segment-safe s safe) refl

  is_canonical-scenario :
      is_scenario_slug (safe_decode_path_segment s) ≡ true
      → is_canonical (codes "/scenarios/" ++ s) ≡ true
  is_canonical-scenario h = rw (is_segment-safe s safe, h) refl

is_canonical-word : (s : Text) → is_word_id s ≡ true → is_canonical (codes "/words/" ++ s) ≡ true
is_canonical-word s h = rw h refl

target_of-word :
    (s : Text)
    → is_word_id s ≡ true
    → target_of (codes "/words/" ++ s) ≡ detailed AppView.library (some s)
target_of-word s h = rw h refl

lesson-ReadBack :
    (e : Option Text)
    → IsNormalText (get_or e (codes "active"))
    → IsWritable (get_or e (codes "active"))
    → ReadBack AppView.lesson e
unfolding route_for pathname_target routed
lesson-ReadBack e h w =
    let d = get_or e (codes "active") in
    let s : SegmentOf d = segment_of d h w in
    record {
      path = codes "/lesson/" ++ s.segment;
      written = ap (prefix (codes "/lesson/")) s.written;
      read_back =
          ap target_of (normalize_pathname-route (codes "/lesson/") s.segment refl s.safe)
          ∙ target_of-lesson s.segment s.safe
          ∙ ap (detailed AppView.lesson) s.read_back;
      canonical = tt;
      plain = no_query-route (codes "/lesson/") s.segment refl s.safe;
    }

phrase-ReadBack : (d : Text) → IsNormalText d → IsWritable d → ReadBack AppView.phrases (some d)
unfolding route_for pathname_target routed is_canonical_route_path
phrase-ReadBack d h w =
    let s : SegmentOf d = segment_of d h w in
    let path : normalize_pathname (codes "/phrases/" ++ s.segment)
        ≡ codes "/phrases/" ++ s.segment =
      normalize_pathname-route (codes "/phrases/") s.segment refl s.safe in
    record {
      path = codes "/phrases/" ++ s.segment;
      written = ap (prefix (codes "/phrases/")) s.written;
      read_back =
          ap target_of path
          ∙ target_of-phrase s.segment s.safe
          ∙ ap (detailed AppView.phrases) s.read_back;
      canonical = ap is_canonical path ∙ is_canonical-phrase s.segment s.safe;
      plain = no_query-route (codes "/phrases/") s.segment refl s.safe;
    }

scenario-ReadBack :
    (d : Text)
    → IsNormalText d
    → IsWritable d
    → is_scenario_slug d ≡ true
    → ReadBack AppView.scenario (some d)
unfolding route_for pathname_target routed is_canonical_route_path
scenario-ReadBack d h w slug =
    let s : SegmentOf d = segment_of d h w in
    let path : normalize_pathname (codes "/scenarios/" ++ s.segment)
        ≡ codes "/scenarios/" ++ s.segment =
      normalize_pathname-route (codes "/scenarios/") s.segment refl s.safe in
    record {
      path = codes "/scenarios/" ++ s.segment;
      written = rw slug (ap (prefix (codes "/scenarios/")) s.written);
      read_back = rw slug (
          ap target_of path
          ∙ target_of-scenario s.segment s.safe
          ∙ ap scenario_target s.read_back
          ∙ rw slug refl);
      canonical =
          ap is_canonical path
          ∙ is_canonical-scenario s.segment s.safe (ap is_scenario_slug s.raw ∙ slug);
      plain = no_query-route (codes "/scenarios/") s.segment refl s.safe;
    }

word_id_of_digits : (d : Text) → is_digits d ≡ true → starts_zero d ≡ false → is_word_id d ≡ true
word_id_of_digits [] h k = h
word_id_of_digits (c ∷ d) h k = ground arith

word-ReadBack :
    (d : Text) → is_digits d ≡ true → starts_zero d ≡ false → ReadBack AppView.library (some d)
unfolding route_for pathname_target routed is_canonical_route_path
word-ReadBack d h k =
    let safe : IsSafe d =
      (all_mono is_digit is_uri_char digit-is_uri_char d (and_right _ _ h), and_left _ _ h) in
    let id : is_word_id d ≡ true = word_id_of_digits d h k in
    let path : normalize_pathname (codes "/words/" ++ d) ≡ codes "/words/" ++ d =
      normalize_pathname-route (codes "/words/") d refl safe in
    record {
      path = codes "/words/" ++ d;
      written = rw h refl;
      read_back = rw h (ap target_of path ∙ target_of-word d id);
      canonical = ap is_canonical path ∙ is_canonical-word d id;
      plain = no_query-route (codes "/words/") d refl safe;
    }

plain-ReadBack : (d : Text) → is_digits d ≡ false → ReadBack AppView.library (some d)
unfolding route_for pathname_target routed is_canonical_route_path trim
plain-ReadBack d h = record {
  path = codes "/dictionary";
  written = rw h refl;
  read_back = rw h refl;
  canonical = refl;
  plain = refl;
}

scenarios-ReadBack : (d : Text) → is_scenario_slug d ≡ false → ReadBack AppView.scenario (some d)
unfolding route_for pathname_target routed is_canonical_route_path trim
scenarios-ReadBack d h = record {
  path = codes "/scenarios";
  written = rw h refl;
  read_back = rw h refl;
  canonical = refl;
  plain = refl;
}

pub active-IsNormalText : IsNormalText (codes "active")
unfolding trim
active-IsNormalText = record { trimmed = refl; nonempty = refl; short = omega arith }

pub active-IsWritable : IsWritable (codes "active")
unfolding is_well_formed
active-IsWritable = (omega arith, refl)

route_for-ReadBack :
    (v : AppView) (d : Option Text)
    → OptionIs IsNormalText d
    → OptionIs IsWritable d
    → leads_zero v d ≡ false
    → ReadBack v d
unfolding route_for pathname_target routed is_canonical_route_path trim
route_for-ReadBack AppView.lesson none h w z =
    lesson-ReadBack none active-IsNormalText active-IsWritable
route_for-ReadBack AppView.lesson (some d) h w z = lesson-ReadBack (some d) h w
route_for-ReadBack AppView.phrases none h w z = record {
  path = codes "/phrases";
  written = refl;
  read_back = refl;
  canonical = refl;
  plain = refl;
}
route_for-ReadBack AppView.phrases (some d) h w z = phrase-ReadBack d h w
route_for-ReadBack AppView.scenario none h w z = record {
  path = codes "/scenarios";
  written = refl;
  read_back = refl;
  canonical = refl;
  plain = refl;
}
route_for-ReadBack AppView.scenario (some d) h w z = elim (Bool-cases (is_scenario_slug d)) [
  | inl slug ↦ scenario-ReadBack d h w slug
  | inr k ↦ scenarios-ReadBack d k
]
route_for-ReadBack AppView.library none h w z = record {
  path = codes "/dictionary";
  written = refl;
  read_back = refl;
  canonical = refl;
  plain = refl;
}
route_for-ReadBack AppView.library (some d) h w z = elim (Bool-cases (is_digits d)) [
  | inl digits ↦ word-ReadBack d digits (rw digits at z)
  | inr k ↦ plain-ReadBack d k
]
route_for-ReadBack AppView.home d h w z = record {
  path = codes "/";
  written = refl;
  read_back = refl;
  canonical = refl;
  plain = refl;
}
route_for-ReadBack AppView.learn d h w z = record {
  path = codes "/learn";
  written = refl;
  read_back = refl;
  canonical = refl;
  plain = refl;
}
route_for-ReadBack AppView.progress d h w z = record {
  path = codes "/progress";
  written = refl;
  read_back = refl;
  canonical = refl;
  plain = refl;
}
route_for-ReadBack AppView.profile d h w z = record {
  path = codes "/profile";
  written = refl;
  read_back = refl;
  canonical = refl;
  plain = refl;
}
route_for-ReadBack AppView.onboarding d h w z = record {
  path = codes "/onboarding";
  written = refl;
  read_back = refl;
  canonical = refl;
  plain = refl;
}

pub route_path-ReadBack :
    (t : NavigationTarget)
    → IsNormal t
    → OptionIs IsWritable t.detail
    → leads_zero t.view t.detail ≡ false
    → ReadBack t.view t.detail
route_path-ReadBack t h w z = route_for-ReadBack t.view t.detail h.detail w z

pub route_path-IsNormal :
    (t : NavigationTarget) → IsNormal t → route_path t ≡ route_for t.view t.detail
unfolding route_path
route_path-IsNormal t h =
    ap (λ o. route_for (get_or o (bare AppView.home)).view (get_or o (bare AppView.home)).detail)
      (normalize_navigation-target_value t h)

-- `routePath` does not throw for a normal target whose detail has no lone surrogate, and
-- `pathnameTarget` reads from its path the view and each detail that the view has a route for. The
-- path is canonical for every view but a lesson's. A word whose digits begin with 0 is left out.
pub pathname_target-route_path :
    (t : NavigationTarget)
    → IsNormal t
    → OptionIs IsWritable t.detail
    → leads_zero t.view t.detail ≡ false
    → (p : Text) × (route_path t ≡ some p)
      × (pathname_target p ≡ routed t.view t.detail)
      × IsCanonicalRoute t.view p
pathname_target-route_path t h w z =
    let r : ReadBack t.view t.detail = route_path-ReadBack t h w z in
    (r.path, route_path-IsNormal t h ∙ r.written, r.read_back, r.canonical)
