-- ===== src/Calendar/Transition.antt =====
-- `findTimeZoneTransition` and `timeZoneTransitions` of frontend/lib/calendar-reminder.ts. Times are
-- milliseconds after 1970; `offset` is `timeZoneOffsetMinutes` for one time zone, which asks
-- the browser's `Intl.DateTimeFormat`.
use lexi_go.Common.{
  ℕ, zero, suc, ◌+◌, ◌-◌, ◌*◌, ◌/◌, ◌%◌, min, ◌≤◌, ◌<◌, Bool, true, false, not, ◌||◌, List, [], ◌∷◌,
  ltb, leb, ◌==◌, if◌then◌else◌, ◌≡◌, refl, arith, Bool-cases, inl, inr, ltb→lt, sym, subst,
}
use lexi_go.Json.{ℤ, pos, negsuc}

abbrev pub same_offset : ℤ → ℤ → Bool
same_offset (pos a) (pos b) = a == b
same_offset (negsuc a) (negsuc b) = a == b
same_offset _ _ = false

same_offset_self : (z : ℤ) → same_offset z z ≡ true
same_offset_self (pos a) = ground arith
same_offset_self (negsuc a) = ground arith

pub record TimeZoneTransition : Type 0 where
  pub at : ℕ
  pub offset_from : ℤ
  pub offset_to : ℤ

abbrev pub scan_step_ms : ℕ
scan_step_ms = 604800000

last-step :
    (lower upper : ℕ)
    → lower < upper
    → lower % 60000 ≡ 0
    → upper % 60000 ≡ 0
    → (not (ltb 60000 (upper - lower)) || leb ((lower + upper) / 2 / 60000 * 60000) lower) ≡ true
    → lower ≡ upper - 60000
last-step lower upper b wl wu h = ground arith

middle :
    (lower upper : ℕ)
    → lower < upper
    → (not (ltb 60000 (upper - lower)) || leb ((lower + upper) / 2 / 60000 * 60000) lower) ≡ false
    → let mid = (lower + upper) / 2 / 60000 * 60000 in
      (lower < mid) × (mid < upper) × (mid % 60000 ≡ 0)
middle lower upper b h = (ground arith, ground arith, ground arith)

module _ (offset : ℕ → ℤ) where
  -- The loop's `upper` at its end; the fuel bounds the rounds.
  unfoldable pub bisect : ℕ → ℤ → ℕ → ℕ → ℕ
  bisect zero from lower upper = upper
  bisect (suc fuel) from lower upper =
      let midpoint = (lower + upper) / 2 / 60000 * 60000 in
      let right = bisect fuel from midpoint upper in
      let left = bisect fuel from lower midpoint in
      if not (ltb 60000 (upper - lower)) || leb midpoint lower
      then upper
      else if same_offset (offset midpoint) from
      then right
      else left

  abbrev pub floor_minute : ℕ → ℕ
  floor_minute t = t / 60000 * 60000

  abbrev pub ceil_minute : ℕ → ℕ
  ceil_minute t = (t + 59999) / 60000 * 60000

  unfoldable pub find_time_zone_transition : ℕ → ℕ → ℤ → TimeZoneTransition
  find_time_zone_transition lower_bound upper_bound from =
      let at =
        bisect (ceil_minute upper_bound) from (floor_minute lower_bound)
          (ceil_minute upper_bound) in
      record { at = at; offset_from = from; offset_to = offset at }

  pub record Change (from : ℤ) (lower upper at : ℕ) : Type 0 where
    pub after : lower < at
    pub inside : at ≤ upper
    pub whole : at % 60000 ≡ 0
    pub changed : same_offset (offset at) from ≡ false
    pub before : same_offset (offset (at - 60000)) from ≡ true

  Change-from :
      (from : ℤ) (lower mid upper at : ℕ)
      → lower ≤ mid
      → Change from mid upper at
      → Change from lower upper at
  Change-from from lower mid upper at b c = record {
    after = omega (arith, c.after, b);
    inside = c.inside;
    whole = c.whole;
    changed = c.changed;
    before = c.before;
  }

  Change-to :
      (from : ℤ) (lower mid upper at : ℕ)
      → mid ≤ upper
      → Change from lower mid at
      → Change from lower upper at
  Change-to from lower mid upper at b c = record {
    after = c.after;
    inside = omega (arith, c.inside, b);
    whole = c.whole;
    changed = c.changed;
    before = c.before;
  }

  bisect-Change :
      (fuel : ℕ) (from : ℤ) (lower upper : ℕ)
      → upper - lower ≤ fuel
      → lower < upper
      → lower % 60000 ≡ 0
      → upper % 60000 ≡ 0
      → same_offset (offset lower) from ≡ true
      → same_offset (offset upper) from ≡ false
      → Change from lower upper (bisect fuel from lower upper)
  unfolding bisect
  bisect-Change zero from lower upper f b wl wu hl hu = absurd (omega arith)
  bisect-Change (suc fuel) from lower upper f b wl wu hl hu =
      elim (Bool-cases
        (not (ltb 60000 (upper - lower)) || leb ((lower + upper) / 2 / 60000 * 60000) lower)) [
          | inl close ↦ rw close (record {
            after = b;
            inside = omega arith;
            whole = wu;
            changed = hu;
            before =
                subst (λ t. same_offset (offset t) from ≡ true)
                  (last-step lower upper b wl wu close) hl;
          })
          | inr wide ↦
              elim (Bool-cases (same_offset (offset ((lower + upper) / 2 / 60000 * 60000)) from)) [
                | inl same ↦
                    let m = middle lower upper b wide in
                    let mid = (lower + upper) / 2 / 60000 * 60000 in
                    rw (wide, same)
                      (Change-from from lower mid upper _ (omega (arith, m.0)) (
                        bisect-Change fuel from mid upper (omega (arith, m.0, m.1, f)) m.1 m.2 wu
                          same hu))
                | inr other ↦
                    let m = middle lower upper b wide in
                    let mid = (lower + upper) / 2 / 60000 * 60000 in
                    rw (wide, other)
                      (Change-to from lower mid upper _ (omega (arith, m.1)) (
                        bisect-Change fuel from lower mid (omega (arith, m.0, m.1, f)) m.0 wl m.2 hl
                          other))
              ]
        ]

  floor_minute-whole : (t : ℕ) → t % 60000 ≡ 0 → floor_minute t ≡ t
  floor_minute-whole t h = omega arith

  ceil_minute-whole : (t : ℕ) → t % 60000 ≡ 0 → ceil_minute t ≡ t
  ceil_minute-whole t h = omega arith

  -- The search ends, and it finds a minute after the lower bound, up to the upper one, at which the
  -- offset is no longer what it was one minute before; the bounds are whole minutes, and the
  -- offset at the lower one is the given one, at the upper one another.
  pub find-Change :
      (lower upper : ℕ) (from : ℤ)
      → lower < upper
      → lower % 60000 ≡ 0
      → upper % 60000 ≡ 0
      → same_offset (offset lower) from ≡ true
      → same_offset (offset upper) from ≡ false
      → let found = find_time_zone_transition lower upper from in
        Change from lower upper found.at
        × (found.offset_from ≡ from)
        × (found.offset_to ≡ offset found.at)
  unfolding find_time_zone_transition
  find-Change lower upper from b wl wu hl hu =
      rw (floor_minute-whole lower wl, ceil_minute-whole upper wu)
        (bisect-Change upper from lower upper (omega arith) b wl wu hl hu, refl, refl)

  -- The loop of `timeZoneTransitions`, with the cursor at its end; the fuel bounds the rounds.
  unfoldable pub scan : ℕ → ℕ → ℤ → ℕ → List TimeZoneTransition × ℕ
  scan zero cursor current range_end = ([], cursor)
  scan (suc fuel) cursor current range_end =
      let next = min range_end (cursor + scan_step_ms) in
      let found = find_time_zone_transition cursor next current in
      let changed = scan fuel found.at found.offset_to range_end in
      let same = scan fuel next current range_end in
      if ltb cursor range_end
      then (if same_offset (offset next) current then same else (found ∷ changed.0, changed.1))
      else ([], cursor)

  unfoldable pub time_zone_transitions : ℕ → ℕ → List TimeZoneTransition
  time_zone_transitions range_start range_end =
      (scan (range_end - range_start) range_start (offset range_start) range_end).0

  -- Changes one after the other, each from the offset that the one before has left, and after the
  -- last one the offset of the end.
  abbrev pub Chain : ℕ → ℤ → ℕ → List TimeZoneTransition → Type 0
  Chain cursor current range_end [] = same_offset (offset range_end) current ≡ true
  Chain cursor current range_end (t ∷ ts) =
      Change current cursor range_end t.at
      × (t.offset_from ≡ current)
      × (t.offset_to ≡ offset t.at)
      × Chain t.at t.offset_to range_end ts

  Chain-from :
      (ts : List TimeZoneTransition) (a b e : ℕ) (current : ℤ)
      → a ≤ b
      → Chain b current e ts
      → Chain a current e ts
  Chain-from [] a b e current h c = c
  Chain-from (t ∷ ts) a b e current h c = (Change-from current a b e t.at h c.0, c.1, c.2, c.3)

  next-bounds :
      (cursor range_end : ℕ)
      → cursor < range_end
      → cursor % 60000 ≡ 0
      → range_end % 60000 ≡ 0
      → let next = min range_end (cursor + scan_step_ms) in
        (cursor < next) × (next ≤ range_end) × (next % 60000 ≡ 0)
  next-bounds cursor range_end b wc we = (ground arith, ground arith, ground arith)

  scan-Chain :
      (fuel cursor : ℕ) (current : ℤ) (range_end : ℕ)
      → cursor ≤ range_end
      → range_end - cursor ≤ fuel
      → cursor % 60000 ≡ 0
      → range_end % 60000 ≡ 0
      → same_offset (offset cursor) current ≡ true
      → let r = scan fuel cursor current range_end in
        Chain cursor current range_end r.0 × (r.1 ≡ range_end)
  unfolding scan
  scan-Chain zero cursor current range_end b f wc we h =
      let done : cursor ≡ range_end = omega arith in
      (subst (λ t. same_offset (offset t) current ≡ true) done h, done)
  scan-Chain (suc fuel) cursor current range_end b f wc we h =
      elim (Bool-cases (ltb cursor range_end)) [
        | inl more ↦
            let next = min range_end (cursor + scan_step_ms) in
            let n = next-bounds cursor range_end (ltb→lt cursor range_end more) wc we in
            elim (Bool-cases (same_offset (offset next) current)) [
              | inl same ↦
                  let rest =
                    scan-Chain fuel next current range_end n.1 (omega (arith, n.0, n.1, f)) n.2 we
                      same in
                  rw (more, same)
                    (
                      Chain-from (scan fuel next current range_end).0 cursor next range_end current
                          (omega (arith, n.0)) rest.0,
                      rest.1,
                    )
              | inr other ↦
                  let found = find_time_zone_transition cursor next current in
                  let (c, from, to) = find-Change cursor next current n.0 wc n.2 h other in
                  let rest =
                    scan-Chain fuel found.at found.offset_to range_end
                      (omega (arith, c.inside, n.1)) (omega (arith, c.after, c.inside, f, n.1))
                      c.whole we
                      (subst (λ z. same_offset (offset found.at) z ≡ true) (sym to)
                        (same_offset_self (offset found.at))) in
                  rw (more, other)
                    (
                      (Change-to current cursor next range_end found.at n.1 c, from, to, rest.0),
                      rest.1,
                    )
            ]
        | inr done ↦
            let e : cursor ≡ range_end = ground arith in
            rw done (subst (λ t. same_offset (offset t) current ≡ true) e h, e)
      ]

  -- The scan of a range of whole minutes goes to its end, and lists changes of the offset one after
  -- the other: each is at a whole minute inside the range, after the one before, from the
  -- offset that the one before has left, and the last one leaves the offset of the range's end.
  pub time_zone_transitions-Chain :
      (range_start range_end : ℕ)
      → range_start ≤ range_end
      → range_start % 60000 ≡ 0
      → range_end % 60000 ≡ 0
      → Chain range_start
          (offset range_start)
          range_end
          (time_zone_transitions range_start range_end)
        × ((scan (range_end - range_start) range_start (offset range_start) range_end).1
            ≡ range_end)
  unfolding time_zone_transitions
  time_zone_transitions-Chain range_start range_end b ws we =
      scan-Chain (range_end - range_start) range_start (offset range_start) range_end b
        (omega arith) ws we (same_offset_self (offset range_start))
