-- ===== src/Calendar/Settings/Days.antt =====
-- Lists of weekdays, as frontend/lib/calendar-reminder.ts filters and selects them.
use lexi_go.Common.{
  ℕ, Bool, true, false, not, ◌&&◌, ◌||◌, some, List, [], ◌∷◌, ◌==◌, if◌then◌else◌, filter, ◌≡◌,
  refl, arith, Bool-cases, ==_iff, inl, inr, ap, sym, subst, ◌∙◌,
}
use lexi_go.Json.{str}
use lexi_go.Calendar.Settings.{
  CalendarWeekday, monday, tuesday, wednesday, thursday, friday, saturday, sunday,
  calendar_weekdays, same_day, includes, weekday_of, weekday_text, keep_new, selected, in_order,
  weekday_items, day_number,
}

abbrev day_of : ℕ → CalendarWeekday
day_of n =
    if n == 1
    then monday
    else if n == 2
    then tuesday
    else if n == 3
    then wednesday
    else if n == 4
    then thursday
    else if n == 5
    then friday
    else if n == 6
    then saturday
    else sunday

day_of-day_number : (d : CalendarWeekday) → day_of (day_number d) ≡ d
day_of-day_number monday = refl
day_of-day_number tuesday = refl
day_of-day_number wednesday = refl
day_of-day_number thursday = refl
day_of-day_number friday = refl
day_of-day_number saturday = refl
day_of-day_number sunday = refl

pub same_day-eq : (d e : CalendarWeekday) → same_day d e ≡ true → d ≡ e
same_day-eq d e h =
    sym (day_of-day_number d)
    ∙ ap day_of ((==_iff (day_number d) (day_number e)).0 h)
    ∙ day_of-day_number e

pub same_day_self : (d : CalendarWeekday) → same_day d d ≡ true
same_day_self d = (==_iff (day_number d) (day_number d)).1 refl

includes-same :
    (p : CalendarWeekday → Bool) (ds : List CalendarWeekday) (d : CalendarWeekday)
    → includes (filter p ds) d ≡ (p d && includes ds d)
    → includes (filter p (d ∷ ds)) d ≡ (p d && includes (d ∷ ds) d)
includes-same p ds d h = elim (Bool-cases (p d)) [
  | inl kept ↦ rw (kept, same_day_self d) refl
  | inr left ↦ let h' = rw left at h in rw left h'
]

includes-other :
    (p : CalendarWeekday → Bool) (ds : List CalendarWeekday) (d e : CalendarWeekday)
    → same_day e d ≡ false
    → (b : Bool) → p e ≡ b
    → includes (filter p ds) d ≡ (p d && includes ds d)
    → includes (filter p (e ∷ ds)) d ≡ (p d && includes (e ∷ ds) d)
includes-other p ds d e o true k h = rw (k, o) h
includes-other p ds d e o false k h = rw (k, o) h

includes-filter :
    (p : CalendarWeekday → Bool) (ds : List CalendarWeekday) (d : CalendarWeekday)
    → includes (filter p ds) d ≡ (p d && includes ds d)
includes-filter p [] d = ground arith
includes-filter p (e ∷ ds) d = elim (Bool-cases (same_day e d)) [
  | inl same ↦
      subst (λ x. includes (filter p (x ∷ ds)) d ≡ (p d && includes (x ∷ ds) d))
        (sym (same_day-eq e d same)) (includes-same p ds d (includes-filter p ds d))
  | inr other ↦ includes-other p ds d e other (p e) refl (includes-filter p ds d)
]

includes-calendar_weekdays : (d : CalendarWeekday) → includes calendar_weekdays d ≡ true
includes-calendar_weekdays monday = refl
includes-calendar_weekdays tuesday = refl
includes-calendar_weekdays wednesday = refl
includes-calendar_weekdays thursday = refl
includes-calendar_weekdays friday = refl
includes-calendar_weekdays saturday = refl
includes-calendar_weekdays sunday = refl

and-true : (b : Bool) → (b && true) ≡ b
and-true true = refl
and-true false = refl

pub includes-in_order :
    (p : CalendarWeekday → Bool) (d : CalendarWeekday) → includes (in_order p) d ≡ p d
includes-in_order p d =
    includes-filter p calendar_weekdays d ∙ rw (includes-calendar_weekdays d) (and-true (p d))

pub filter-ext :
    (p q : CalendarWeekday → Bool) (ds : List CalendarWeekday)
    → ((d : CalendarWeekday) → p d ≡ q d)
    → filter p ds ≡ filter q ds
filter-ext p q [] h = refl
filter-ext p q (d ∷ ds) h = ground (arith, h d, filter-ext p q ds h)

weekday_of-text : (d : CalendarWeekday) → weekday_of (str (weekday_text d)) ≡ some d
weekday_of-text monday = refl
weekday_of-text tuesday = refl
weekday_of-text wednesday = refl
weekday_of-text thursday = refl
weekday_of-text friday = refl
weekday_of-text saturday = refl
weekday_of-text sunday = refl

or-and : (a b : Bool) → (a || (not a && b)) ≡ (a || b)
or-and true b = refl
or-and false b = refl

includes-keep_new :
    (d e : CalendarWeekday) (ds : List CalendarWeekday)
    → includes (keep_new (some d) ds) e ≡ (same_day d e || includes ds e)
includes-keep_new d e ds =
    rw (includes-filter (λ f. not (same_day d f)) ds e) (or-and (same_day d e) (includes ds e))

pub includes-selected :
    (ds : List CalendarWeekday) (e : CalendarWeekday)
    → includes (selected (weekday_items ds)) e ≡ includes ds e
includes-selected [] e = refl
includes-selected (d ∷ ds) e = rw (weekday_of-text d) (
    includes-keep_new d e (selected (weekday_items ds))
    ∙ ap (λ b. same_day d e || b) (includes-selected ds e))
