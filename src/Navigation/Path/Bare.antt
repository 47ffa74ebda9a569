-- ===== src/Navigation/Path/Bare.antt =====
-- A target that `pathnameTarget` returns has a view and perhaps a detail, and nothing else.
use lexi_go.Common.{
  ◌≡◌, refl, Bool, true, false, Option, none, some, Text, codes, text_eq, if◌then◌else◌,
}
use lexi_go.Navigation.Target.{AppView, NavigationTarget, bare}
use lexi_go.Navigation.Path.{
  is_scenario_slug, detailed, decoded, scenario_target, match_scenario, match_lesson, match_word,
  match_phrase, segment_after, word_after, target_of, normalize_pathname, pathname_target,
}

abbrev pub IsDetailed : NavigationTarget → Type 0
IsDetailed t = (v : AppView) × (d : Option Text) × (t ≡ detailed v d)

bare-IsDetailed : (v : AppView) → IsDetailed (bare v)
bare-IsDetailed v = (v, none, refl)

if-IsDetailed :
    (b : Bool) (s t : NavigationTarget)
    → IsDetailed s
    → IsDetailed t
    → IsDetailed (if b then s else t)
if-IsDetailed true s t h k = h
if-IsDetailed false s t h k = k

scenario_target-IsDetailed : (d : Option Text) → IsDetailed (scenario_target d)
scenario_target-IsDetailed none = bare-IsDetailed AppView.home
scenario_target-IsDetailed (some d) =
    if-IsDetailed (is_scenario_slug d) _ _ (AppView.scenario, some d, refl)
      (bare-IsDetailed AppView.home)

match_scenario-IsDetailed : (o : Option Text) → IsDetailed (match_scenario o)
match_scenario-IsDetailed none = bare-IsDetailed AppView.home
match_scenario-IsDetailed (some s) = scenario_target-IsDetailed (decoded s)

match_lesson-IsDetailed : (p : Text) (o : Option Text) → IsDetailed (match_lesson p o)
match_lesson-IsDetailed p none = match_scenario-IsDetailed (segment_after (codes "/scenarios/") p)
match_lesson-IsDetailed p (some s) = (AppView.lesson, decoded s, refl)

match_word-IsDetailed : (p : Text) (o : Option Text) → IsDetailed (match_word p o)
match_word-IsDetailed p none = match_lesson-IsDetailed p (segment_after (codes "/lesson/") p)
match_word-IsDetailed p (some id) = (AppView.library, some id, refl)

match_phrase-IsDetailed : (p : Text) (o : Option Text) → IsDetailed (match_phrase p o)
match_phrase-IsDetailed p none = match_word-IsDetailed p (word_after p)
match_phrase-IsDetailed p (some s) = (AppView.phrases, decoded s, refl)

target_of-IsDetailed : (p : Text) → IsDetailed (target_of p)
target_of-IsDetailed p = if-IsDetailed (text_eq p (codes "/")) _ _ (bare-IsDetailed AppView.home) (
    if-IsDetailed (text_eq p (codes "/learn")) _ _ (bare-IsDetailed AppView.learn) (
      if-IsDetailed (text_eq p (codes "/phrases")) _ _ (bare-IsDetailed AppView.phrases) (
        if-IsDetailed (text_eq p (codes "/dictionary")) _ _ (bare-IsDetailed AppView.library) (
          if-IsDetailed (text_eq p (codes "/progress")) _ _ (bare-IsDetailed AppView.progress) (
            if-IsDetailed (text_eq p (codes "/profile")) _ _ (bare-IsDetailed AppView.profile) (
              if-IsDetailed (text_eq p (codes "/onboarding")) _ _
                (bare-IsDetailed AppView.onboarding)
                (if-IsDetailed (text_eq p (codes "/scenarios")) _ _
                  (bare-IsDetailed AppView.scenario)
                  (match_phrase-IsDetailed p (segment_after (codes "/phrases/") p)))))))))

pub pathname_target-IsDetailed : (p : Text) → IsDetailed (pathname_target p)
unfolding pathname_target
pathname_target-IsDetailed p = target_of-IsDetailed (normalize_pathname p)
