-- ===== src/Tests/Calendar.antt =====
-- The reminder at concrete settings and offsets: frontend/lib/calendar-reminder.ts.
use lexi_go.Common.{
  ℕ, ◌+◌, ◌*◌, ◌/◌, ◌≤◌, ◌<◌, Bool, true, false, [], ◌∷◌, Text, codes, ltb, leb, if◌then◌else◌, All,
  ◌≡◌, some, ◌≢◌, arith,
}
use lexi_go.Json.{ℤ, pos, Number, int, nan, Value, num, str, obj, end, field}
use lexi_go.Calendar.Escape.{
  escape_icalendar_text, unescaped, with_line_feeds, unescaped-escape_icalendar_text,
}
use lexi_go.Calendar.Lines.{
  fold_icalendar_line, bytes, unfolded, bytes-fold_icalendar_line, unfolded-fold_icalendar_line,
}
use lexi_go.Calendar.Transition.{scan, time_zone_transitions, Chain, time_zone_transitions-Chain}
use lexi_go.Calendar.Settings.{
  CalendarReminderSettings, custom, wednesday, monday, effective_calendar_weekdays, includes,
}
use lexi_go.Calendar.Occurrence.{
  next_calendar_occurrence, next_calendar_occurrence-first, candidate, is_next, weekday_code,
}

abbrev description : Text
description = codes "DESCRIPTION:Откройте LexiGo и выполните дневную цель по английскому."

unfolded-fold_icalendar_line_example : unfolded (fold_icalendar_line description) ≡ some description
unfolded-fold_icalendar_line_example = unfolded-fold_icalendar_line description

bytes-fold_icalendar_line_example : All (λ s. bytes s ≤ 75) (fold_icalendar_line description)
bytes-fold_icalendar_line_example = bytes-fold_icalendar_line description

-- One hour ahead from the second minute on.
abbrev offset : ℕ → ℤ
offset t = if ltb t 120000 then pos 60 else pos 120

time_zone_transitions-Chain_example :
    Chain offset 0 (offset 0) 600000 (time_zone_transitions offset 0 600000)
    × ((scan offset 600000 0 (offset 0) 600000).1 ≡ 600000)
time_zone_transitions-Chain_example =
    time_zone_transitions-Chain offset 0 600000 (omega arith) (omega arith) (omega arith)

abbrev to_number : Value → Number
to_number v = nan

abbrev is_half : ℕ → Bool
is_half k = leb 5 k

abbrev given : Value
given = obj (
    field (codes "time") (str (codes "25:00")) (
      field (codes "durationMinutes") (num (int (pos 500)))
        (field (codes "recurrence") (str (codes "custom")) end)))

abbrev settings : CalendarReminderSettings
settings = record {
  time = codes "19:30";
  duration_minutes = 20;
  reminder_minutes = 10;
  recurrence = custom;
  days = monday ∷ wednesday ∷ [];
}

-- A place whose local time is UTC.
abbrev at_local : ℕ → ℕ → ℕ → ℕ
at_local d h m = d * 86400000 + h * 3600000 + m * 60000

abbrev local_day : ℕ → ℕ
local_day t = t / 86400000

later_day : (d h m : ℕ) → local_day 200000000 < d → 200000000 < at_local d h m
later_day d h m b = omega arith

settings-days : effective_calendar_weekdays settings ≢ []
unfolding effective_calendar_weekdays
settings-days e = ground arith

next_calendar_occurrence-first_example :
    let test = is_next at_local local_day settings 200000000 in
    let next = next_calendar_occurrence at_local local_day settings 200000000 in
    (k : ℕ) × (k ≤ 7)
    × (next ≡ candidate at_local local_day settings 200000000 k)
    × (200000000 < next)
    × (includes (effective_calendar_weekdays settings) (weekday_code (local_day 200000000 + k))
        ≡ true)
    × ((j : ℕ) → j < k → test j ≡ false)
next_calendar_occurrence-first_example =
    next_calendar_occurrence-first at_local local_day settings 200000000 settings-days later_day

unescaped-escape_icalendar_text_example :
    unescaped false (escape_icalendar_text (codes "a; b,\r\n\\n"))
    ≡ some (with_line_feeds (codes "a; b,\r\n\\n"))
unescaped-escape_icalendar_text_example = unescaped-escape_icalendar_text (codes "a; b,\r\n\\n")
