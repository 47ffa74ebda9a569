-- ===== src/Lesson/Result/Celebration.antt =====
-- The daily goal is celebrated once for a user and a day.
use lexi_go.Common.{
  Bool, true, false, Text, is_nonempty, ◌≡◌, refl, arith, Bool-cases, inl, inr, ap, ◌∙◌,
}
use lexi_go.Common.Store.{get, get-put_self}
use lexi_go.Json.{Storage, plain}
use lexi_go.Lesson.Result.{LessonResultSnapshot}
use lexi_go.Lesson.Result.Snapshot.{
  is_claimed, claim_key, claim_daily_goal_celebration, daily_goal_celebration_key,
}

claimed_again :
    (b : Bool) (key id : Text) (storage : Storage)
    → is_claimed (get key storage) ≡ true
    → claim_key b key id storage ≡ (storage, false)
claimed_again false key id storage h = refl
claimed_again true key id storage h = rw h refl

is_claimed-claim_key :
    (b : Bool) (key id : Text) (storage : Storage)
    → (claim_key b key id storage).1 ≡ true
    → is_nonempty id ≡ true
    → is_claimed (get key (claim_key b key id storage).0) ≡ true
is_claimed-claim_key false key id storage g i = absurd (ground arith)
is_claimed-claim_key true key id storage g i = elim (Bool-cases (is_claimed (get key storage))) [
  | inl taken ↦ absurd (ground arith)
  | inr free ↦ rw (free, get-put_self key (plain id) storage) i
]

-- A daily goal that was just reached is claimed once: after a claim that is granted, of a lesson
-- with an id, no other lesson with the same key, of the user and the day, is granted one.
pub claim-claim :
    (s t : LessonResultSnapshot) (storage : Storage)
    → (claim_daily_goal_celebration s storage).1 ≡ true
    → is_nonempty s.lesson_id ≡ true
    → daily_goal_celebration_key t ≡ daily_goal_celebration_key s
    → claim_daily_goal_celebration t (claim_daily_goal_celebration s storage).0
      ≡ ((claim_daily_goal_celebration s storage).0, false)
unfolding claim_daily_goal_celebration
claim-claim s t storage g i k =
    let after =
      (claim_key s.daily_goal_just_reached (daily_goal_celebration_key s) s.lesson_id storage).0 in
    claimed_again t.daily_goal_just_reached (daily_goal_celebration_key t) t.lesson_id after (
      ap (λ key. is_claimed (get key after)) k
      ∙ is_claimed-claim_key s.daily_goal_just_reached (daily_goal_celebration_key s) s.lesson_id
          storage g i)
