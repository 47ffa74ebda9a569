-- ===== src/Calendar/Settings.antt =====
-- The settings of the reminder, from what the storage or the form gives: the normalization of
-- frontend/lib/calendar-reminder.ts, the days on which the reminder comes, and the rule that the
-- calendar gets. `to_number` is `Number(v)` of a value that is not a number, and `is_half` says of
-- the mark of a fraction whether `Math.round` goes up.
pub mod Days
pub mod Normal
use lexi_go.Common.{
  ℕ, suc, ◌+◌, min, max, Bool, true, false, not, ◌&&◌, ◌||◌, Option, none, some, List, [], ◌∷◌,
  ◌++◌, Text, codes, text_eq, leb, ◌==◌, if◌then◌else◌, filter, any, is_nonempty, map,
}
use lexi_go.Common.Decimal.{is_digit}
use lexi_go.Json.{
  ℤ, pos, negsuc, Number, int, fraction, infinite, nan, Value, undefined, null, bool, num, str, arr,
  obj, Items, nil, cons, Fields, end, field, get_field,
}

pub data CalendarWeekday : Type 0 where
  monday : CalendarWeekday
  tuesday : CalendarWeekday
  wednesday : CalendarWeekday
  thursday : CalendarWeekday
  friday : CalendarWeekday
  saturday : CalendarWeekday
  sunday : CalendarWeekday

pub data CalendarRecurrence : Type 0 where
  daily : CalendarRecurrence
  weekdays : CalendarRecurrence
  custom : CalendarRecurrence

pub record CalendarReminderSettings : Type 0 where
  pub time : Text
  pub duration_minutes : ℕ
  pub reminder_minutes : ℕ
  pub recurrence : CalendarRecurrence
  pub days : List CalendarWeekday

-- The fields of `CALENDAR_WEEKDAYS`, and its order.
abbrev pub weekday_text : CalendarWeekday → Text
weekday_text monday = codes "MO"
weekday_text tuesday = codes "TU"
weekday_text wednesday = codes "WE"
weekday_text thursday = codes "TH"
weekday_text friday = codes "FR"
weekday_text saturday = codes "SA"
weekday_text sunday = codes "SU"

abbrev pub day_number : CalendarWeekday → ℕ
day_number monday = 1
day_number tuesday = 2
day_number wednesday = 3
day_number thursday = 4
day_number friday = 5
day_number saturday = 6
day_number sunday = 0

abbrev pub calendar_weekdays : List CalendarWeekday
calendar_weekdays = monday ∷ tuesday ∷ wednesday ∷ thursday ∷ friday ∷ saturday ∷ sunday ∷ []

abbrev pub workdays : List CalendarWeekday
workdays = monday ∷ tuesday ∷ wednesday ∷ thursday ∷ friday ∷ []

abbrev pub same_day : CalendarWeekday → CalendarWeekday → Bool
same_day a b = day_number a == day_number b

-- `includes`.
abbrev pub includes : List CalendarWeekday → CalendarWeekday → Bool
includes ds d = any (λ e. same_day e d) ds

abbrev pub default_time : Text
default_time = codes "19:00"

abbrev is_hour : ℕ → ℕ → Bool
is_hour a b = (((a == 48) || (a == 49)) && is_digit b) || ((a == 50) && leb 48 b && leb b 51)

abbrev is_minute : ℕ → ℕ → Bool
is_minute a b = leb 48 a && leb a 53 && is_digit b

-- `/^([01]\d|2[0-3]):[0-5]\d$/`.
unfoldable pub is_time : Text → Bool
is_time (a ∷ b ∷ c ∷ d ∷ e ∷ []) = is_hour a b && (c == 58) && is_minute d e
is_time _ = false

abbrev pub normalize_time : Value → Text
normalize_time (str s) = if is_time s then s else default_time
normalize_time _ = default_time

abbrev pub recurrence_text : CalendarRecurrence → Text
recurrence_text daily = codes "daily"
recurrence_text weekdays = codes "weekdays"
recurrence_text custom = codes "custom"

abbrev pub normalize_recurrence : Value → CalendarRecurrence
normalize_recurrence (str s) =
    if text_eq s (codes "weekdays")
    then weekdays
    else if text_eq s (codes "custom")
    then custom
    else daily
normalize_recurrence _ = daily

abbrev find_weekday : Text → List CalendarWeekday → Option CalendarWeekday
find_weekday s [] = none
find_weekday s (d ∷ ds) = if text_eq s (weekday_text d) then some d else find_weekday s ds

abbrev pub weekday_of : Value → Option CalendarWeekday
weekday_of (str s) = find_weekday s calendar_weekdays
weekday_of _ = none

abbrev pub keep_new : Option CalendarWeekday → List CalendarWeekday → List CalendarWeekday
keep_new none ds = ds
keep_new (some d) ds = d ∷ filter (λ e. not (same_day d e)) ds

-- The weekdays among the items, the first of equal ones.
abbrev pub selected : Items → List CalendarWeekday
selected nil = []
selected (cons v vs) = keep_new (weekday_of v) (selected vs)

abbrev pub in_order : (CalendarWeekday → Bool) → List CalendarWeekday
in_order p = filter p calendar_weekdays

unfoldable pub normalize_weekdays : Value → List CalendarWeekday
normalize_weekdays (arr vs) = in_order (includes (selected vs))
normalize_weekdays _ = calendar_weekdays

abbrev pub fields_of : Value → Fields
fields_of (obj fs) = fs
fields_of _ = end

abbrev pub chosen_days : CalendarRecurrence → List CalendarWeekday → List CalendarWeekday
chosen_days custom [] = workdays
chosen_days r ds = ds

module _ (to_number : Value → Number) (is_half : ℕ → Bool) where
  abbrev number_of : Value → Number
  number_of (num n) = n
  number_of v = to_number v

  -- `Math.min(maximum, Math.max(minimum, Math.round(x)))`, of bounds that are not negative.
  abbrev pub clamp : ℕ → ℕ → ℕ → Number → ℕ
  clamp fallback minimum maximum (int (pos n)) = min maximum (max minimum n)
  clamp fallback minimum maximum (int (negsuc n)) = min maximum minimum
  clamp fallback minimum maximum (fraction (pos n) k) =
      min maximum (max minimum (if is_half k then suc n else n))
  clamp fallback minimum maximum (fraction (negsuc n) k) = min maximum minimum
  clamp fallback minimum maximum (infinite b) = fallback
  clamp fallback minimum maximum nan = fallback

  unfoldable pub bounded_integer : Value → ℕ → ℕ → ℕ → ℕ
  bounded_integer v fallback minimum maximum = clamp fallback minimum maximum (number_of v)

  unfoldable pub normalize_calendar_reminder_settings : Value → CalendarReminderSettings
  normalize_calendar_reminder_settings v =
      let source = fields_of v in
      let recurrence = normalize_recurrence (get_field (codes "recurrence") source) in
      record {
        time = normalize_time (get_field (codes "time") source);
        duration_minutes = bounded_integer (get_field (codes "durationMinutes") source) 20 5 180;
        reminder_minutes = bounded_integer (get_field (codes "reminderMinutes") source) 10 0 1440;
        recurrence = recurrence;
        days = chosen_days recurrence (normalize_weekdays (get_field (codes "weekdays") source));
      }

abbrev or_workdays : List CalendarWeekday → List CalendarWeekday
or_workdays [] = workdays
or_workdays (d ∷ ds) = d ∷ ds

abbrev pub days_of : CalendarRecurrence → List CalendarWeekday → List CalendarWeekday
days_of daily ds = calendar_weekdays
days_of weekdays ds = workdays
days_of custom ds = or_workdays ds

unfoldable pub effective_calendar_weekdays : CalendarReminderSettings → List CalendarWeekday
effective_calendar_weekdays s = days_of s.recurrence s.days

abbrev pub weekday_items : List CalendarWeekday → Items
weekday_items [] = nil
weekday_items (d ∷ ds) = cons (str (weekday_text d)) (weekday_items ds)

-- The settings as a value.
abbrev pub settings_value : CalendarReminderSettings → Value
settings_value s = obj (
    field (codes "time") (str s.time) (
      field (codes "durationMinutes") (num (int (pos s.duration_minutes))) (
        field (codes "reminderMinutes") (num (int (pos s.reminder_minutes))) (
          field (codes "recurrence") (str (recurrence_text s.recurrence))
            (field (codes "weekdays") (arr (weekday_items s.days)) end)))))

abbrev pub join_days : List CalendarWeekday → Text
join_days [] = []
join_days (d ∷ []) = weekday_text d
join_days (d ∷ e ∷ ds) = weekday_text d ++ codes "," ++ join_days (e ∷ ds)

-- `buildCalendarRecurrenceRule`, of settings that are normalized.
unfoldable pub recurrence_rule : CalendarReminderSettings → Text
recurrence_rule s = elim s.recurrence [
  | daily ↦ codes "FREQ=DAILY"
  | _ ↦ codes "FREQ=WEEKLY;WKST=MO;BYDAY=" ++ join_days (effective_calendar_weekdays s)
]
