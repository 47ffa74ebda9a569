-- ===== src/Lesson/Handoff/Notice.antt =====
-- What a lesson says of its items' kinds.
use lexi_go.Common.{
  ℕ, suc, ◌≡◌, refl, sym, ap, subst, ◌∙◌, Bool, true, false, ◌||◌, List, [], ◌∷◌, Text, codes, any,
  ◌==◌, arith, text_eq, Bool-cases, inl, inr,
}
use lexi_go.Learning.{ItemKind, word, phrase}
use lexi_go.Lesson.Handoff.{
  Handoff, mark_learn_lesson_handoff, track_learn_handoff_item, forget_notice, phrases_only_notice,
  words_only_notice, consume_learn_handoff_fallback_notice,
}

abbrev pub is_word_kind : ItemKind → Bool
is_word_kind word = true
is_word_kind phrase = false

abbrev pub is_phrase_kind : ItemKind → Bool
is_phrase_kind word = false
is_phrase_kind phrase = true

-- The lesson shows its items one after another.
abbrev pub track_all : List ItemKind → Handoff → Handoff
track_all [] m = m
track_all (k ∷ ks) m = track_all ks (track_learn_handoff_item k m)

-- On the way, with the kinds that were shown.
abbrev with_kinds : Bool → Bool → ℕ → Handoff
with_kinds w p generation = record {
  learn_handoff_active = true;
  tracks_word = w;
  tracks_phrase = p;
  resolved_notice = [];
  resolution_generation = generation;
}

track_all-with_kinds :
    (ks : List ItemKind) (w p : Bool) (g : ℕ)
    → track_all ks (with_kinds w p g)
      ≡ with_kinds (w || any is_word_kind ks) (p || any is_phrase_kind ks) g
unfolding track_learn_handoff_item
track_all-with_kinds [] w p g =
    let left : w ≡ (w || false) = ground arith in
    let right : p ≡ (p || false) = ground arith in
    ap (λ b. with_kinds b p g) left ∙ ap (λ b. with_kinds (w || false) b g) right
track_all-with_kinds (word ∷ ks) w p g =
    let left : (true || any is_word_kind ks) ≡ (w || (true || any is_word_kind ks)) =
      ground arith in
    track_all-with_kinds ks true p g ∙ ap (λ b. with_kinds b (p || any is_phrase_kind ks) g) left
track_all-with_kinds (phrase ∷ ks) w p g =
    let right : (true || any is_phrase_kind ks) ≡ (p || (true || any is_phrase_kind ks)) =
      ground arith in
    track_all-with_kinds ks w true g ∙ ap (λ b. with_kinds (w || any is_word_kind ks) b g) right

-- The notice for what was shown. A source of one kind has none.
abbrev pub notice_for : Bool → Bool → Bool → Text
notice_for true false true = phrases_only_notice
notice_for true true false = words_only_notice
notice_for _ _ _ = []

abbrev pub is_mixed : Text → Bool
is_mixed source = text_eq source (codes "mixed")

-- A first call of the notice in a state, a second one at once, and one after the microtask.
abbrev pub Notices : Text → Text → Text → Handoff → Type 0
Notices first source expected m =
    let (after, notice) = consume_learn_handoff_fallback_notice first m in
    let later = forget_notice after.resolution_generation after in
    (notice ≡ expected)
    × ((consume_learn_handoff_fallback_notice source after).1 ≡ expected)
    × ((consume_learn_handoff_fallback_notice source later).1 ≡ [])

same_number : (n : ℕ) → (n == n) ≡ true
same_number n = ground arith

with_kinds-mixed :
    (w p : Bool) (g : ℕ) (first source : Text)
    → is_mixed first ≡ true
    → Notices first source (notice_for true w p) (with_kinds w p g)
unfolding consume_learn_handoff_fallback_notice forget_notice
with_kinds-mixed true true g first source h = rw (h, same_number g) (refl, refl, refl)
with_kinds-mixed true false g first source h = rw (h, same_number (suc g)) (refl, refl, refl)
with_kinds-mixed false true g first source h = rw (h, same_number (suc g)) (refl, refl, refl)
with_kinds-mixed false false g first source h = rw (h, same_number g) (refl, refl, refl)

with_kinds-Notices :
    (w p : Bool) (g : ℕ) (first source : Text)
    → Notices first source (notice_for (is_mixed first) w p) (with_kinds w p g)
unfolding consume_learn_handoff_fallback_notice forget_notice
with_kinds-Notices w p g first source = elim (Bool-cases (is_mixed first)) [
  | inl h ↦
      subst (λ b. Notices first source (notice_for b w p) (with_kinds w p g)) (sym h)
        (with_kinds-mixed w p g first source h)
  | inr h ↦
      subst (λ b. Notices first source (notice_for b w p) (with_kinds w p g)) (sym h)
        (rw (h, same_number g) (refl, refl, refl))
]

-- After the start of a lesson from the Learn screen, in whatever state, a lesson whose source is mixed
-- and whose items were of one kind only gets the notice for that kind; one of both kinds, one
-- without items and one of any other source, whatever its items were, get none. A second call in the
-- same task gets the same notice, whatever source it names, and after the microtask there is none.
pub mark-Notices :
    (m : Handoff) (kinds : List ItemKind) (first source : Text)
    → Notices first source
        (notice_for (is_mixed first) (any is_word_kind kinds) (any is_phrase_kind kinds))
        (track_all kinds (mark_learn_lesson_handoff m))
unfolding mark_learn_lesson_handoff
mark-Notices m kinds first source =
    subst
      (Notices first source
        (notice_for (is_mixed first) (any is_word_kind kinds) (any is_phrase_kind kinds)))
      (sym (track_all-with_kinds kinds false false (suc m.resolution_generation)))
      (with_kinds-Notices (any is_word_kind kinds) (any is_phrase_kind kinds)
        (suc m.resolution_generation) first source)
