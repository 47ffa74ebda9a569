-- ===== src/Calendar/Escape.antt =====
-- `escapeICalendarText` of frontend/lib/calendar-reminder.ts: four replacements, one after another.
use lexi_go.Common.{
  ℕ, Bool, true, false, ◌&&◌, ◌||◌, Option, none, some, [], ◌∷◌, ◌++◌, Text, ◌==◌, ==_iff,
  if◌then◌else◌, starts_with, ◌≡◌, refl, Bool-cases, inl, inr, ap, sym, subst,
}

-- `replace(/c/g, t)` of one character.
abbrev pub replace_all : ℕ → Text → Text → Text
replace_all c t [] = []
replace_all c t (d ∷ s) = if d == c then t ++ replace_all c t s else d ∷ replace_all c t s

-- `replace(/\r?\n/g, "\\n")`: the carriage return before a line feed goes with it.
abbrev pub replace_newlines : Text → Text
replace_newlines [] = []
replace_newlines (d ∷ s) =
    let rest = replace_newlines s in
    if d == 10
    then 92 ∷ 110 ∷ rest
    else if (d == 13) && starts_with (10 ∷ []) s
    then rest
    else d ∷ rest

unfoldable pub escape_icalendar_text : Text → Text
escape_icalendar_text s =
    replace_all 44 (92 ∷ 44 ∷ [])
      (replace_all 59 (92 ∷ 59 ∷ []) (replace_newlines (replace_all 92 (92 ∷ 92 ∷ []) s)))

abbrev pub prepend : ℕ → Option Text → Option Text
prepend c none = none
prepend c (some s) = some (c ∷ s)

-- The character that an escape stands for: a backslash, a semicolon or a comma for itself, and `n`
-- for a line feed.
abbrev pub escaped_character : ℕ → Option ℕ
escaped_character c =
    if (c == 92) || (c == 59) || (c == 44) then some c else if c == 110 then some 10 else none

abbrev pub prepend_escaped : Option ℕ → Option Text → Option Text
prepend_escaped none s = none
prepend_escaped (some c) s = prepend c s

-- A character that stands for the end of a text, a part of it or a line, if it is not escaped.
abbrev pub is_bare_delimiter : ℕ → Bool
is_bare_delimiter c = (c == 59) || (c == 44) || (c == 10)

-- What a strict reader of a text of the calendar does: `none` where a semicolon, a comma or a line
-- feed is not escaped, where an escape is unknown, and where a backslash is the last character.
abbrev pub unescaped : Bool → Text → Option Text
unescaped true [] = none
unescaped false [] = some []
unescaped true (c ∷ s) = prepend_escaped (escaped_character c) (unescaped false s)
unescaped false (c ∷ s) =
    let rest = unescaped false s in
    let after = unescaped true s in
    if c == 92 then after else if is_bare_delimiter c then none else prepend c rest

-- The text with its line ends written as line feeds.
abbrev pub with_line_feeds : Text → Text
with_line_feeds [] = []
with_line_feeds (c ∷ s) =
    let rest = with_line_feeds s in if (c == 13) && starts_with (10 ∷ []) s then rest else c ∷ rest

starts-replace_backslash :
    (s : Text) → starts_with (10 ∷ []) (replace_all 92 (92 ∷ 92 ∷ []) s) ≡ starts_with (10 ∷ []) s
starts-replace_backslash [] = refl
starts-replace_backslash (c ∷ s) = elim (Bool-cases (c == 92)) [
  | inr other ↦ rw other refl
  | inl same ↦ let e = (==_iff c 92).0 same in rw e refl
]

escape-plain :
    (c : ℕ) (s : Text)
    → (c == 92) ≡ false
    → (c == 10) ≡ false
    → (c == 13) ≡ false
    → (c == 59) ≡ false
    → (c == 44) ≡ false
    → escape_icalendar_text (c ∷ s) ≡ c ∷ escape_icalendar_text s
unfolding escape_icalendar_text
escape-plain c s a b d e f = rw (a, b, d, e, f) refl

abbrev RoundTrip : Text → Type 0
RoundTrip s = unescaped false (escape_icalendar_text s) ≡ some (with_line_feeds s)

return-RoundTrip : (s : Text) → RoundTrip s → RoundTrip (13 ∷ s)
unfolding escape_icalendar_text
return-RoundTrip s h = elim (Bool-cases (starts_with (10 ∷ []) s)) [
  | inl feed ↦ rw (starts-replace_backslash s, feed) h
  | inr alone ↦ rw (starts-replace_backslash s, alone) (ap (prepend 13) h)
]

escaped-RoundTrip : (c : ℕ) (s : Text) → RoundTrip s → RoundTrip (c ∷ s)
unfolding escape_icalendar_text
escaped-RoundTrip c s h = elim (Bool-cases (c == 13)) [
  | inl e ↦ subst (λ x. RoundTrip (x ∷ s)) (sym ((==_iff c 13).0 e)) (return-RoundTrip s h)
  | inr not_return ↦ elim (Bool-cases (c == 92)) [
    | inl e ↦ subst (λ x. RoundTrip (x ∷ s)) (sym ((==_iff c 92).0 e)) (ap (prepend 92) h)
    | inr not_backslash ↦ elim (Bool-cases (c == 10)) [
      | inl e ↦ subst (λ x. RoundTrip (x ∷ s)) (sym ((==_iff c 10).0 e)) (ap (prepend 10) h)
      | inr not_feed ↦ elim (Bool-cases (c == 59)) [
        | inl e ↦ subst (λ x. RoundTrip (x ∷ s)) (sym ((==_iff c 59).0 e)) (ap (prepend 59) h)
        | inr not_semicolon ↦ elim (Bool-cases (c == 44)) [
          | inl e ↦ subst (λ x. RoundTrip (x ∷ s)) (sym ((==_iff c 44).0 e)) (ap (prepend 44) h)
          | inr not_comma ↦
              rw
                (
                  escape-plain c s not_backslash not_feed not_return not_semicolon not_comma,
                  not_return,
                  not_backslash,
                )
                (rw (not_semicolon, not_comma, not_feed) (ap (prepend c) h))
        ]
      ]
    ]
  ]
]

-- A strict reader takes every escaped text, in which no semicolon, comma or line feed stands bare,
-- and gives the text back, its line ends as line feeds.
pub unescaped-escape_icalendar_text :
    (s : Text) → unescaped false (escape_icalendar_text s) ≡ some (with_line_feeds s)
unfolding escape_icalendar_text
unescaped-escape_icalendar_text [] = refl
unescaped-escape_icalendar_text (c ∷ s) = escaped-RoundTrip c s (unescaped-escape_icalendar_text s)
