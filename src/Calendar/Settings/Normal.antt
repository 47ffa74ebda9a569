-- ===== src/Calendar/Settings/Normal.antt =====
-- Normalized settings are in bounds, stay as they are when they are normalized again, and name a day.
use lexi_go.Common.{
  ℕ, ◌≤◌, Bool, true, List, [], ◌∷◌, codes, ◌≡◌, refl, arith, Bool-cases, inl, inr, ap, sym, ◌∙◌,
  ◌≢◌,
}
use lexi_go.Json.{pos, Number, int, Value, undefined, null, bool, num, str, arr, obj, get_field}
use lexi_go.Calendar.Settings.{
  CalendarWeekday, CalendarRecurrence, daily, weekdays, custom, CalendarReminderSettings,
  calendar_weekdays, workdays, includes, default_time, is_time, normalize_time, recurrence_text,
  normalize_recurrence, selected, in_order, normalize_weekdays, chosen_days, days_of, fields_of,
  bounded_integer, normalize_calendar_reminder_settings, effective_calendar_weekdays, weekday_items,
  settings_value,
}
use lexi_go.Calendar.Settings.Days.{includes-in_order, filter-ext, includes-selected}

-- A list of weekdays that is in the calendar's order.
abbrev IsOrdered : List CalendarWeekday → Type 0
IsOrdered ds = (p : CalendarWeekday → Bool) × (ds ≡ in_order p)

normalize_weekdays-IsOrdered : (v : Value) → IsOrdered (normalize_weekdays v)
unfolding normalize_weekdays
normalize_weekdays-IsOrdered (arr vs) = (includes (selected vs), refl)
normalize_weekdays-IsOrdered undefined = ((λ d. true), refl)
normalize_weekdays-IsOrdered null = ((λ d. true), refl)
normalize_weekdays-IsOrdered (bool b) = ((λ d. true), refl)
normalize_weekdays-IsOrdered (num n) = ((λ d. true), refl)
normalize_weekdays-IsOrdered (str s) = ((λ d. true), refl)
normalize_weekdays-IsOrdered (obj fs) = ((λ d. true), refl)

chosen_days-IsOrdered :
    (r : CalendarRecurrence) (ds : List CalendarWeekday)
    → IsOrdered ds
    → IsOrdered (chosen_days r ds)
chosen_days-IsOrdered custom [] o = ((λ d. includes workdays d), refl)
chosen_days-IsOrdered custom (d ∷ ds) o = o
chosen_days-IsOrdered daily ds o = o
chosen_days-IsOrdered weekdays ds o = o

normalize_weekdays-items :
    (ds : List CalendarWeekday) → IsOrdered ds → normalize_weekdays (arr (weekday_items ds)) ≡ ds
unfolding normalize_weekdays
normalize_weekdays-items ds (p, e) =
    filter-ext (includes (selected (weekday_items ds))) p calendar_weekdays
      (λ d. includes-selected ds d ∙ ap (λ es. includes es d) e ∙ includes-in_order p d)
    ∙ sym e

chosen_days-chosen_days :
    (r : CalendarRecurrence) (ds : List CalendarWeekday)
    → chosen_days r (chosen_days r ds) ≡ chosen_days r ds
chosen_days-chosen_days custom [] = refl
chosen_days-chosen_days custom (d ∷ ds) = refl
chosen_days-chosen_days daily ds = refl
chosen_days-chosen_days weekdays ds = refl

normalize_recurrence-text :
    (r : CalendarRecurrence) → normalize_recurrence (str (recurrence_text r)) ≡ r
normalize_recurrence-text daily = refl
normalize_recurrence-text weekdays = refl
normalize_recurrence-text custom = refl

default_time-IsTime : is_time default_time ≡ true
unfolding is_time
default_time-IsTime = refl

normalize_time-IsTime : (v : Value) → is_time (normalize_time v) ≡ true
normalize_time-IsTime (str s) = elim (Bool-cases (is_time s)) [
  | inl fit ↦ rw fit fit
  | inr unfit ↦ rw unfit default_time-IsTime
]
normalize_time-IsTime undefined = default_time-IsTime
normalize_time-IsTime null = default_time-IsTime
normalize_time-IsTime (bool b) = default_time-IsTime
normalize_time-IsTime (num n) = default_time-IsTime
normalize_time-IsTime (arr vs) = default_time-IsTime
normalize_time-IsTime (obj fs) = default_time-IsTime

days_of-nonempty : (r : CalendarRecurrence) (ds : List CalendarWeekday) → days_of r ds ≢ []
days_of-nonempty daily ds e = ground arith
days_of-nonempty weekdays ds e = ground arith
days_of-nonempty custom [] e = ground arith
days_of-nonempty custom (d ∷ ds) e = ground arith

effective-nonempty : (s : CalendarReminderSettings) → effective_calendar_weekdays s ≢ []
unfolding effective_calendar_weekdays
effective-nonempty s = days_of-nonempty s.recurrence s.days

module _ (to_number : Value → Number) (is_half : ℕ → Bool) where
  bounded :
      (v : Value) (fallback low high : ℕ)
      → low ≤ fallback
      → fallback ≤ high
      → (low ≤ bounded_integer to_number is_half v fallback low high)
        × (bounded_integer to_number is_half v fallback low high ≤ high)
  unfolding bounded_integer
  bounded v fallback low high a b = ground arith

  bounded_integer-in :
      (n fallback low high : ℕ)
      → low ≤ n
      → n ≤ high
      → bounded_integer to_number is_half (num (int (pos n))) fallback low high ≡ n
  unfolding bounded_integer
  bounded_integer-in n fallback low high a b = omega arith

  abbrev normalized : Value → CalendarReminderSettings
  normalized v = normalize_calendar_reminder_settings to_number is_half v

  -- Whatever value the settings are read from, the reminder is at a time of the day, lasts from five
  -- minutes to three hours, comes at most a day before, and is on a day of the week at least.
  pub normalize-bounds :
      (v : Value)
      → let s = normalized v in
        (is_time s.time ≡ true)
        × (5 ≤ s.duration_minutes)
        × (s.duration_minutes ≤ 180)
        × (s.reminder_minutes ≤ 1440)
        × (effective_calendar_weekdays s ≢ [])
  unfolding normalize_calendar_reminder_settings
  normalize-bounds v =
      let duration =
        bounded (get_field (codes "durationMinutes") (fields_of v)) 20 5 180 (omega arith)
          (omega arith) in
      let reminder =
        bounded (get_field (codes "reminderMinutes") (fields_of v)) 10 0 1440 (omega arith)
          (omega arith) in
      (
        normalize_time-IsTime (get_field (codes "time") (fields_of v)),
        duration.0,
        duration.1,
        reminder.1,
        effective-nonempty (normalized v),
      )

  record Normal (s : CalendarReminderSettings) : Type 0 where
    timed : is_time s.time ≡ true
    long : 5 ≤ s.duration_minutes
    short : s.duration_minutes ≤ 180
    early : s.reminder_minutes ≤ 1440
    ordered : IsOrdered s.days
    chosen : chosen_days s.recurrence s.days ≡ s.days

  normalize-Normal : (v : Value) → Normal (normalized v)
  unfolding normalize_calendar_reminder_settings
  normalize-Normal v =
      let r = normalize_recurrence (get_field (codes "recurrence") (fields_of v)) in
      let ds = normalize_weekdays (get_field (codes "weekdays") (fields_of v)) in
      let (time, low, high, reminder, day) = normalize-bounds v in
      record {
        timed = time;
        long = low;
        short = high;
        early = reminder;
        ordered =
            chosen_days-IsOrdered r ds
              (normalize_weekdays-IsOrdered (get_field (codes "weekdays") (fields_of v)));
        chosen = chosen_days-chosen_days r ds;
      }

  normalized-again : (s : CalendarReminderSettings) → Normal s → normalized (settings_value s) ≡ s
  unfolding normalize_calendar_reminder_settings
  normalized-again s n =
      rw
        (
          n.timed,
          bounded_integer-in s.duration_minutes 20 5 180 n.long n.short,
          bounded_integer-in s.reminder_minutes 10 0 1440 (omega arith) n.early,
          normalize_recurrence-text s.recurrence,
          normalize_weekdays-items s.days n.ordered,
          n.chosen,
        )
        refl

  -- Normalizing settings that are normalized, written out as a value again, changes nothing.
  pub normalize-normalize : (v : Value) → normalized (settings_value (normalized v)) ≡ normalized v
  unfolding normalize_calendar_reminder_settings
  normalize-normalize v = normalized-again (normalized v) (normalize-Normal v)
