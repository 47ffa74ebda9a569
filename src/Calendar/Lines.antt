-- ===== src/Calendar/Lines.antt =====
-- `foldICalendarLine` and `escapeICalendarText` of frontend/lib/calendar-reminder.ts. A line is the
-- list of its code points, as `for … of` takes them.
use lexi_go.Common.{
  ℕ, ◌+◌, ◌≤◌, Option, none, some, ◌==◌, Bool, true, false, ◌&&◌, List, [], ◌∷◌, ◌++◌, Text, ltb,
  if◌then◌else◌, is_nonempty, ◌≡◌, refl, arith, All, Bool-cases, inl, inr, ap, ◌∙◌,
}

-- The bytes of a code point in UTF-8.
abbrev pub utf8_length : ℕ → ℕ
utf8_length c = if ltb c 128 then 1 else if ltb c 2048 then 2 else if ltb c 65536 then 3 else 4

abbrev pub bytes : Text → ℕ
bytes [] = 0
bytes (c ∷ s) = utf8_length c + bytes s

abbrev pub limit : Bool → ℕ
limit first = if first then 75 else 74

-- `first` says that `folded` is empty.
unfoldable pub fold_from : Bool → Text → ℕ → Text → List Text
fold_from first current current_bytes [] = current ∷ []
fold_from first current current_bytes (c ∷ line) =
    let here = fold_from first (current ++ c ∷ []) (current_bytes + utf8_length c) line in
    let after = fold_from false (32 ∷ c ∷ []) (1 + utf8_length c) line in
    if is_nonempty current && ltb (limit first) (current_bytes + utf8_length c)
    then current ∷ after
    else here

unfoldable pub fold_icalendar_line : Text → List Text
fold_icalendar_line line = fold_from true [] 0 line

bytes-append : (s : Text) (c : ℕ) → bytes (s ++ c ∷ []) ≡ bytes s + utf8_length c
bytes-append [] c = omega arith
bytes-append (d ∷ s) c = omega (arith, bytes-append s c)

abbrev pub Fits : Bool → List Text → Type 0
Fits first [] = Unit
Fits first (s ∷ ss) = (bytes s ≤ limit first) × Fits false ss

le_of_not_ltb : (a b : ℕ) → ltb a b ≡ false → b ≤ a
le_of_not_ltb a b h = ground arith

utf8_length-le : (c : ℕ) → utf8_length c ≤ 4
utf8_length-le c = ground arith

room-le :
    (first : Bool) (current : Text) (n c : ℕ)
    → n ≡ bytes current
    → (is_nonempty current && ltb (limit first) (n + utf8_length c)) ≡ false
    → n + utf8_length c ≤ limit first
room-le true [] n c e h = omega (arith, e, utf8_length-le c)
room-le false [] n c e h = omega (arith, e, utf8_length-le c)
room-le first (d ∷ s) n c e h = le_of_not_ltb (limit first) (n + utf8_length c) h

fold_from-Fits :
    (first : Bool) (current : Text) (n : ℕ) (line : Text)
    → n ≡ bytes current
    → n ≤ limit first
    → Fits first (fold_from first current n line)
unfolding fold_from
fold_from-Fits first current n [] e h = (omega (arith, e, h), tt)
fold_from-Fits first current n (c ∷ line) e h =
    elim (Bool-cases (is_nonempty current && ltb (limit first) (n + utf8_length c))) [
      | inl full ↦ rw full (
        omega (arith, e, h),
        fold_from-Fits false (32 ∷ c ∷ []) (1 + utf8_length c) line (omega arith)
            (omega (arith, utf8_length-le c)),
      )
      | inr room ↦ rw room (
          fold_from-Fits first (current ++ c ∷ []) (n + utf8_length c) line
            (omega (arith, e, bytes-append current c)) (room-le first current n c e room))
    ]

-- No line of the fold is over 75 bytes.
pub bytes-fold_icalendar_line : (line : Text) → All (λ s. bytes s ≤ 75) (fold_icalendar_line line)
unfolding fold_icalendar_line
bytes-fold_icalendar_line line =
    short true (fold_from true [] 0 line) (fold_from-Fits true [] 0 line refl (omega arith))
  where
    short : (first : Bool) (ss : List Text) → Fits first ss → All (λ s. bytes s ≤ 75) ss
    short first [] h = tt
    short true (s ∷ ss) h = (h.0, short false ss h.1)
    short false (s ∷ ss) h = (omega (arith, h.0), short false ss h.1)

-- What a reader of the file does: the space that each further line begins with is taken off, and
-- the lines are joined. A further line that begins with anything else is none of this one's, and
-- `none` is the result.
abbrev pub tail_text : Text → Option Text
tail_text [] = none
tail_text (c ∷ s) = if c == 32 then some s else none

abbrev pub joined : Option Text → Option Text → Option Text
joined (some s) (some t) = some (s ++ t)
joined _ _ = none

abbrev pub join_tails : List Text → Option Text
join_tails [] = some []
join_tails (s ∷ ss) = joined (tail_text s) (join_tails ss)

abbrev pub unfolded : List Text → Option Text
unfolded [] = some []
unfolded (s ∷ ss) = joined (some s) (join_tails ss)

append_assoc : (a b c : Text) → (a ++ b) ++ c ≡ a ++ (b ++ c)
append_assoc [] b c = refl
append_assoc (x ∷ a) b c = ap (λ r. x ∷ r) (append_assoc a b c)

append-nil : (a : Text) → a ++ [] ≡ a
append-nil [] = refl
append-nil (x ∷ a) = ap (λ r. x ∷ r) (append-nil a)

join_tails-fold_from :
    (first : Bool) (current : Text) (n : ℕ) (line : Text)
    → join_tails (fold_from first (32 ∷ current) n line) ≡ some (current ++ line)
unfolding fold_from
join_tails-fold_from first current n [] = refl
join_tails-fold_from first current n (d ∷ line) =
    elim (Bool-cases (ltb (limit first) (n + utf8_length d))) [
      | inl full ↦ rw full (
          ap (λ r. joined (some current) r)
            (join_tails-fold_from false (d ∷ []) (1 + utf8_length d) line))
      | inr room ↦ rw room (
          join_tails-fold_from first (current ++ d ∷ []) (n + utf8_length d) line
          ∙ ap some (append_assoc current (d ∷ []) line))
    ]

unfolded-fold_from :
    (first : Bool) (current : Text) (n : ℕ) (line : Text)
    → unfolded (fold_from first current n line) ≡ some (current ++ line)
unfolding fold_from
unfolded-fold_from first current n [] = refl
unfolded-fold_from first current n (d ∷ line) =
    elim (Bool-cases (is_nonempty current && ltb (limit first) (n + utf8_length d))) [
      | inl full ↦ rw full (
          ap (λ r. joined (some current) r)
            (join_tails-fold_from false (d ∷ []) (1 + utf8_length d) line))
      | inr room ↦ rw room (
          unfolded-fold_from first (current ++ d ∷ []) (n + utf8_length d) line
          ∙ ap some (append_assoc current (d ∷ []) line))
    ]

-- Every further line of a folded line begins with a space, and unfolding gives the line back,
-- character by character.
pub unfolded-fold_icalendar_line : (line : Text) → unfolded (fold_icalendar_line line) ≡ some line
unfolding fold_icalendar_line
unfolded-fold_icalendar_line line = unfolded-fold_from true [] 0 line
