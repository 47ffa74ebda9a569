-- ===== src/Lesson/Flow/Walk.antt =====
-- A lesson is walked item by item: a step goes to the next item or, from the last, to the results.
use lexi_go.Common.{
  ℕ, zero, suc, ◌+◌, ◌-◌, ◌≤◌, ◌<◌, Bool, true, false, Option, some, List, [], ◌∷◌, leb,
  if◌then◌else◌, length, filter, ◌≡◌, refl, arith, ◌↔◌, Bool-cases, subst, sym, ap, ◌∙◌, inl, inr,
}
use lexi_go.Json.{pos, Number, int}
use lexi_go.Lesson.Flow.{
  LessonAdvanceDecision, blocked, next, results, LessonAdvanceInput, decide_lesson_advance,
  ReviewRating, again, almost, known, is_known, is_almost, is_again, summarize_persisted_lesson,
}

-- A step to item `i` is allowed exactly after a persisted review that is not being saved, from the
-- item before it, to an item of the lesson, and only if the server named that position.
pub decide-next :
    (input : LessonAdvanceInput) (i : ℕ)
    → (decide_lesson_advance input ≡ next i) ↔ (
        (i ≡ input.current_index + 1)
        × (i < input.item_count)
        × (input.review_persisted ≡ true)
        × (input.review_saving ≡ false)
        × (input.server_next_index ≡ some (int (pos i))))
unfolding decide_lesson_advance
decide-next input i = ((λ e. ground arith), λ h. ground arith)

-- What the review and the server's answer say of the item on the screen.
pub record Reply : Type 0 where
  pub persisted : Bool
  pub saving : Bool
  pub completed : Bool
  pub next_index : Option Number

abbrev pub decide : ℕ → ℕ → Reply → LessonAdvanceDecision
decide item_count i r = decide_lesson_advance (record {
  current_index = i;
  item_count = item_count;
  review_persisted = r.persisted;
  review_saving = r.saving;
  server_completed = r.completed;
  server_next_index = r.next_index;
})

-- The screen: the item it shows, or the results.
pub data Screen : Type 0 where
  item : ℕ → Screen
  finished : Screen

abbrev follow : LessonAdvanceDecision → ℕ → Screen
follow (blocked r) i = item i
follow (next j) i = item j
follow results i = finished

abbrev pub show : ℕ → Screen → Reply → Screen
show item_count (item i) r = follow (decide item_count i r) i
show item_count finished r = finished

abbrev pub persisted_at : Screen → Reply → ℕ
persisted_at (item i) r = if r.persisted then 1 else 0
persisted_at finished r = 0

-- The screen after a list of replies, and the replies with a persisted review before the results.
unfoldable pub walk : ℕ → Screen → List Reply → Screen × ℕ
walk item_count s [] = (s, 0)
walk item_count s (r ∷ rs) =
    let rest = walk item_count (show item_count s r) rs in (rest.0, persisted_at s r + rest.1)

-- The items that a screen leaves to review.
abbrev pub remaining : ℕ → Screen → ℕ
remaining item_count (item i) = item_count - i
remaining item_count finished = 0

show-remaining :
    (n : ℕ) (s : Screen) (r : Reply) → remaining n s ≤ remaining n (show n s r) + persisted_at s r
unfolding decide_lesson_advance
show-remaining n (item i) r = ground arith
show-remaining n finished r = omega arith

-- No item is skipped: whatever the server answers, the items that are left to review go down by one
-- at most for every persisted review, so the results need one for each item.
pub walk-remaining :
    (n : ℕ) (s : Screen) (rs : List Reply)
    → remaining n s ≤ remaining n (walk n s rs).0 + (walk n s rs).1
unfolding walk
walk-remaining n s [] = omega arith
walk-remaining n s (r ∷ rs) = omega (arith, show-remaining n s r, walk-remaining n (show n s r) rs)

-- The reply of a server that keeps to the order: the review is persisted, and it names the next
-- position or, after the last item, says that the lesson is completed.
abbrev pub in_order : ℕ → ℕ → Reply
in_order n i = record {
  persisted = true;
  saving = false;
  completed = leb (n - 1) i;
  next_index = some (int (pos (i + 1)));
}

abbrev pub replies_from : ℕ → ℕ → ℕ → List Reply
replies_from n i zero = []
replies_from n i (suc k) = in_order n i ∷ replies_from n (i + 1) k

show-in_order :
    (n i : ℕ)
    → i < n
    → show n (item i) (in_order n i) ≡ (if leb (n - 1) i then finished else item (i + 1))
unfolding decide_lesson_advance
show-in_order n i b = ground arith

walk-finished : (n : ℕ) (rs : List Reply) → (walk n finished rs).0 ≡ finished
unfolding walk
walk-finished n [] = refl
walk-finished n (r ∷ rs) = walk-finished n rs

walk-from :
    (n : ℕ) (s t : Screen) (rs : List Reply)
    → s ≡ t
    → (walk n t rs).0 ≡ finished
    → (walk n s rs).0 ≡ finished
walk-from n s t rs e h = subst (λ x. (walk n x rs).0 ≡ finished) (sym e) h

abbrev ahead : ℕ → Bool → Screen
ahead i last = if last then finished else item (i + 1)

-- A lesson can be finished: a server that keeps to the order takes the reader from any item of the
-- lesson to the results, with a reply for each item that is left, or more.
pub walk-in_order :
    (n i k : ℕ) → i < n → n - i ≤ k → (walk n (item i) (replies_from n i k)).0 ≡ finished
unfolding walk
walk-in_order n i zero b c = absurd (omega arith)
walk-in_order n i (suc k) b c =
    let rs = replies_from n (i + 1) k in
    let at = show n (item i) (in_order n i) in
    elim (Bool-cases (leb (n - 1) i)) [
      | inl last ↦
          walk-from n at finished rs (show-in_order n i b ∙ ap (ahead i) last) (walk-finished n rs)
      | inr more ↦
          walk-from n at (item (i + 1)) rs (show-in_order n i b ∙ ap (ahead i) more)
            (walk-in_order n (i + 1) k (ground arith) (omega (arith, c)))
    ]

length-counts :
    (values : List ReviewRating)
    → length (filter is_known values)
        + length (filter is_almost values)
        + length (filter is_again values)
      ≡ length values
length-counts [] = refl
length-counts (known ∷ values) = omega (arith, length-counts values)
length-counts (almost ∷ values) = omega (arith, length-counts values)
length-counts (again ∷ values) = omega (arith, length-counts values)

-- The summary counts every rating once, and with what was skipped it counts every item of a lesson
-- that has no more ratings than items.
pub summarize-total :
    (values : List ReviewRating) (n : ℕ)
    → length values ≤ n
    → let s = summarize_persisted_lesson values n in
      (s.reviewed ≡ length values) × (s.known + s.almost + s.again + s.skipped ≡ n)
unfolding summarize_persisted_lesson
summarize-total values n h = (length-counts values, omega (arith, length-counts values))
