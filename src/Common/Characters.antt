-- ===== src/Common/Characters.antt =====
-- The characters of a text, as `for … of` and `Array.from` take them.
use Prim.Native.Nat.{ℕ}
use mathlib.Core.Bool.{Bool, ◌&&◌}
use mathlib.Core.List.{List, [], ◌∷◌}
use lexi_go.Common.Tests.{leb, if◌then◌else◌}
use lexi_go.Common.Texts.{Text}

abbrev is_high : ℕ → Bool
is_high c = leb 55296 c && leb c 56319

abbrev is_low : ℕ → Bool
is_low c = leb 56320 c && leb c 57343

-- A code unit before the characters that follow.
abbrev join_unit : ℕ → List Text → List Text
join_unit c ((d ∷ []) ∷ rest) =
    if is_high c && is_low d then (c ∷ d ∷ []) ∷ rest else (c ∷ []) ∷ (d ∷ []) ∷ rest
join_unit c rest = (c ∷ []) ∷ rest

-- The characters that `for (const c of s)` goes through: two surrogates are one.
abbrev pub characters : Text → List Text
characters [] = []
characters (c ∷ s) = join_unit c (characters s)
