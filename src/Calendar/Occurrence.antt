-- ===== src/Calendar/Occurrence.antt =====
-- `nextCalendarOccurrence` of frontend/lib/calendar-reminder.ts. Days are counted from the first of
-- January 1970, a Thursday, in local time. `at_local` is the time of an hour and a minute
-- of a local day, as `setDate` and `setHours` make it, and `local_day` the local day of a time.
use lexi_go.Common.{
  ℕ, zero, suc, ◌+◌, ◌-◌, ◌%◌, ◌≤◌, ◌<◌, Bool, true, false, ◌&&◌, Option, none, some, List, [], ◌∷◌,
  ltb, ◌==◌, if◌then◌else◌, take, drop, get_or, ◌≡◌, refl, arith, Bool-cases, inl, inr, ◌⊎◌, ◌≢◌,
  ap, sym, ◌∙◌, subst, ltb→lt, lt→ltb,
}
use lexi_go.Common.Decimal.{value}
use lexi_go.Calendar.Settings.Days.{same_day_self}
use lexi_go.Calendar.Settings.{
  CalendarWeekday, monday, tuesday, wednesday, thursday, friday, saturday, sunday,
  CalendarReminderSettings, calendar_weekdays, day_number, includes, effective_calendar_weekdays,
}

abbrev find_day : ℕ → List CalendarWeekday → Option CalendarWeekday
find_day n [] = none
find_day n (d ∷ ds) = if day_number d == n then some d else find_day n ds

-- `weekdayCode` of a date of the local day.
unfoldable pub weekday_code : ℕ → CalendarWeekday
weekday_code day = get_or (find_day ((day + 4) % 7) calendar_weekdays) monday

cases-le : (a b : ℕ) → a ≤ b → (suc a ≤ b) ⊎ (a ≡ b)
cases-le a b h = elim (Bool-cases (ltb a b)) [
  | inl less ↦ inl (ltb→lt a b less)
  | inr other ↦ inr (ground arith)
]

true-false : (b : Bool) → b ≡ true → b ≡ false → ⊥
true-false b t f = ground arith

module _ (at_local : ℕ → ℕ → ℕ → ℕ) (local_day : ℕ → ℕ) where
  abbrev pub hour : CalendarReminderSettings → ℕ
  hour s = value (take 2 s.time)

  abbrev pub minute : CalendarReminderSettings → ℕ
  minute s = value (drop 3 s.time)

  abbrev pub candidate : CalendarReminderSettings → ℕ → ℕ → ℕ
  candidate s from offset = at_local (local_day from + offset) (hour s) (minute s)

  -- The test of the loop.
  abbrev pub is_next : CalendarReminderSettings → ℕ → ℕ → Bool
  is_next s from offset =
      ltb from (candidate s from offset)
      && includes (effective_calendar_weekdays s) (weekday_code (local_day from + offset))

  -- `n` rounds of the loop, from an offset on.
  unfoldable pub search : CalendarReminderSettings → ℕ → ℕ → ℕ → Option ℕ
  search s from zero offset = none
  search s from (suc n) offset =
      let rest = search s from n (suc offset) in
      if is_next s from offset then some (candidate s from offset) else rest

  -- The settings are normalized.
  unfoldable pub next_calendar_occurrence : CalendarReminderSettings → ℕ → ℕ
  next_calendar_occurrence s from = get_or (search s from 15 0) (candidate s from 1)

  pub record Found (s : CalendarReminderSettings) (from low bound : ℕ) (r : Option ℕ) : Type 0 where
    pub offset : ℕ
    pub result : r ≡ some (candidate s from offset)
    pub low_le : low ≤ offset
    pub bounded : offset ≤ bound
    pub taken : is_next s from offset ≡ true
    pub earlier : (j : ℕ) → low ≤ j → j < offset → is_next s from j ≡ false

  differs :
      (s : CalendarReminderSettings) (from low k : ℕ)
      → low ≤ k
      → is_next s from low ≡ false
      → is_next s from k ≡ true
      → suc low ≤ k
  differs s from low k a f t = elim (cases-le low k a) [
    | inl less ↦ less
    | inr same ↦
        absurd (true-false (is_next s from k) t (subst (λ j. is_next s from j ≡ false) same f))
  ]

  skip :
      (s : CalendarReminderSettings) (from low k : ℕ) (r : Option ℕ)
      → is_next s from low ≡ false
      → Found s from (suc low) k r
      → Found s from low k r
  skip s from low k r later f = record {
    offset = f.offset;
    result = f.result;
    low_le = omega (arith, f.low_le);
    bounded = f.bounded;
    taken = f.taken;
    earlier = λ j c d. elim (cases-le low j c) [
      | inl less ↦ f.earlier j less d
      | inr same ↦ subst (λ i. is_next s from i ≡ false) same later
    ];
  }

  search-Found :
      (s : CalendarReminderSettings) (from n low k : ℕ)
      → low ≤ k
      → k < low + n
      → is_next s from k ≡ true
      → Found s from low k (search s from n low)
  unfolding search
  search-Found s from zero low k a b h = absurd (omega arith)
  search-Found s from (suc n) low k a b h = elim (Bool-cases (is_next s from low)) [
    | inl here ↦ rw here (record {
      offset = low;
      result = refl;
      low_le = omega arith;
      bounded = a;
      taken = here;
      earlier = λ j c d. absurd (omega arith);
    })
    | inr later ↦ rw later (
        skip s from low k (search s from n (suc low)) later
          (search-Found s from n (suc low) k (differs s from low k a later h) (omega arith) h))
  ]

and_left : (a b : ℕ) (c : Bool) → (ltb a b && c) ≡ true → a < b
and_left a b c h = ground arith

and_right : (b c : Bool) → (b && c) ≡ true → c ≡ true
and_right b c h = ground arith

-- The days from a local day to the next one, after it, that is the weekday `w`.
abbrev days_until : CalendarWeekday → ℕ → ℕ
days_until w day = (day_number w + 13 - (day + 4) % 7) % 7 + 1

day_number-lt : (w : CalendarWeekday) → day_number w < 7
day_number-lt w = ground arith

modular : (n day : ℕ) → n < 7 → (day + ((n + 13 - (day + 4) % 7) % 7 + 1) + 4) % 7 ≡ n
modular n day b = omega arith

find_day-day_number :
    (w : CalendarWeekday) → get_or (find_day (day_number w) calendar_weekdays) monday ≡ w
find_day-day_number monday = refl
find_day-day_number tuesday = refl
find_day-day_number wednesday = refl
find_day-day_number thursday = refl
find_day-day_number friday = refl
find_day-day_number saturday = refl
find_day-day_number sunday = refl

weekday_code-until : (w : CalendarWeekday) (day : ℕ) → weekday_code (day + days_until w day) ≡ w
unfolding weekday_code
weekday_code-until w day =
    ap (λ n. get_or (find_day n calendar_weekdays) monday)
      (modular (day_number w) day (day_number-lt w))
    ∙ find_day-day_number w

head_day : (ds : List CalendarWeekday) → ds ≢ [] → (w : CalendarWeekday) × (includes ds w ≡ true)
head_day [] h = absurd (h refl)
head_day (d ∷ ds) h = (d, rw (same_day_self d) refl)

module _ (at_local : ℕ → ℕ → ℕ → ℕ) (local_day : ℕ → ℕ) where
  next-Found :
      (s : CalendarReminderSettings) (from : ℕ) (w : CalendarWeekday)
      → ((d h m : ℕ) → local_day from < d → from < at_local d h m)
      → includes (effective_calendar_weekdays s) w ≡ true
      → Found at_local local_day s from 0 7 (search at_local local_day s from 15 0)
  next-Found s from w later i =
      let k = days_until w (local_day from) in
      let f = search-Found at_local local_day s from 15 0 k (omega arith) (omega arith) (
        rw
          (
            weekday_code-until w (local_day from),
            i,
            lt→ltb _ _ (
                later (local_day from + k) (hour at_local local_day s) (minute at_local local_day s)
                  (omega arith)),
          )
          refl) in
      record {
        offset = f.offset;
        result = f.result;
        low_le = f.low_le;
        bounded = omega (arith, f.bounded);
        taken = f.taken;
        earlier = f.earlier;
      }

  -- The next occurrence is the reminder's time on a day within a week: it is after the given time, on
  -- a weekday of the settings, and no day before it has such an occurrence. The settings name a
  -- day, and every time of a later local day is after the given time.
  pub next_calendar_occurrence-first :
      (s : CalendarReminderSettings) (from : ℕ)
      → effective_calendar_weekdays s ≢ []
      → ((d h m : ℕ) → local_day from < d → from < at_local d h m)
      → let test = is_next at_local local_day s from in
        let next = next_calendar_occurrence at_local local_day s from in
        (k : ℕ) × (k ≤ 7)
        × (next ≡ candidate at_local local_day s from k)
        × (from < next)
        × (includes (effective_calendar_weekdays s) (weekday_code (local_day from + k)) ≡ true)
        × ((j : ℕ) → j < k → test j ≡ false)
  unfolding next_calendar_occurrence
  next_calendar_occurrence-first s from n later =
      let (w, i) = head_day (effective_calendar_weekdays s) n in
      let f = next-Found s from w later i in
      let e = ap (λ r. get_or r (candidate at_local local_day s from 1)) f.result in
      (
        f.offset,
        f.bounded,
        e,
        subst (λ t. from < t) (sym e)
            (and_left from (candidate at_local local_day s from f.offset) _ f.taken),
        and_right _ _ f.taken,
        λ j b. f.earlier j (omega arith) b,
      )
