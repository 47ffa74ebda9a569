-- ===== src/Lesson/Handoff.antt =====
-- The way of a lesson from the Learn screen to its own, from
-- frontend/lib/lesson-composition-handoff.ts.
pub mod Notice
use lexi_go.Common.{
  ℕ, suc, Bool, true, false, not, ◌&&◌, List, [], ◌∷◌, Text, codes, text_eq, ◌==◌, if◌then◌else◌,
  is_nonempty,
}
use lexi_go.Learning.{ItemKind, word, phrase}

-- The variables of the module; the set of kinds as what it has of each.
pub record Handoff : Type 0 where
  pub learn_handoff_active : Bool
  pub tracks_word : Bool
  pub tracks_phrase : Bool
  pub resolved_notice : Text
  pub resolution_generation : ℕ

unfoldable pub mark_learn_lesson_handoff : Handoff → Handoff
mark_learn_lesson_handoff m = record {
  learn_handoff_active = true;
  tracks_word = false;
  tracks_phrase = false;
  resolved_notice = [];
  resolution_generation = suc m.resolution_generation;
}

abbrev add_kind : ItemKind → Handoff → Handoff
add_kind word m = record m { tracks_word = true }
add_kind phrase m = record m { tracks_phrase = true }

unfoldable pub track_learn_handoff_item : ItemKind → Handoff → Handoff
track_learn_handoff_item kind m = if m.learn_handoff_active then add_kind kind m else m

abbrev retain_notice_for_strict_render : Text → Handoff → Handoff × Text
retain_notice_for_strict_render notice m = (
  record m { resolved_notice = notice; resolution_generation = suc m.resolution_generation },
  notice,
)

-- The microtask that one call of `retainNoticeForStrictRender` queues, with its generation.
unfoldable pub forget_notice : ℕ → Handoff → Handoff
forget_notice generation m =
    if (m.resolution_generation == generation) && not m.learn_handoff_active
    then record m { resolved_notice = [] }
    else m

abbrev pub phrases_only_notice : Text
phrases_only_notice =
    codes "Слова для этого режима закончились. Смешанная практика продолжится доступными фразами."

abbrev pub words_only_notice : Text
words_only_notice =
    codes "Фразы для этого режима закончились. Смешанная практика продолжится доступными словами."

abbrev notice_of_kinds : Bool → Bool → Handoff → Handoff × Text
notice_of_kinds false true m = retain_notice_for_strict_render phrases_only_notice m
notice_of_kinds true false m = retain_notice_for_strict_render words_only_notice m
notice_of_kinds _ _ m = (m, [])

unfoldable pub consume_learn_handoff_fallback_notice : Text → Handoff → Handoff × Text
consume_learn_handoff_fallback_notice source m =
    if is_nonempty m.resolved_notice
    then (m, m.resolved_notice)
    else if not m.learn_handoff_active
    then (m, [])
    else if not (text_eq source (codes "mixed"))
    then (record m { learn_handoff_active = false }, [])
    else notice_of_kinds m.tracks_word m.tracks_phrase (record m { learn_handoff_active = false })
