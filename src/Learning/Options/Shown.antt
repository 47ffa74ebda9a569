-- ===== src/Learning/Options/Shown.antt =====
-- What the options of a choice are.
use lexi_go.Common.{ℕ, ◌-◌, List, Text, take}
use lexi_go.Common.Sort.{sort_by}
use lexi_go.Learning.{LearningItem}
use lexi_go.Learning.Options.{alternatives, alternative_key}

module _ (current : LearningItem) (pool : List LearningItem) (count : ℕ) where
  abbrev chosen : List Text
  chosen = take (count - 1) (sort_by (alternative_key current) (alternatives current pool))
