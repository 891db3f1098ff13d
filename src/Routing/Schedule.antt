-- ===== src/Routing/Schedule.antt =====
-- A schedule, overnight or not, against the minutes of the week.
use token_pilot.Base.{
  ◌⊎◌, ℕ, ◌+◌, ◌*◌, ◌-◌, ◌%◌, ◌≤◌, ◌<◌, ◌≡◌, ◌≢◌, ◌↔◌, true, ◌&&◌, ◌==◌, ltb, leb, arith, includes,
  inl, inr, Bool-cases,
}
use token_pilot.Routing.Matching.{Schedule, Local, clock_minute, previous_weekday, schedule_matches}

-- The minutes since the schedule started on a day, in a week that begins with Monday, day 1.
abbrev pub elapsed : Schedule → Local → ℕ → ℕ
elapsed s local day =
    (local.weekday * 1440 + local.minute + 10080 - (day * 1440 + clock_minute s.start)) % 10080

-- How long it lasts, beyond midnight if it ends before it starts.
abbrev pub duration : Schedule → ℕ
duration s = (clock_minute s.end + 1440 - clock_minute s.start) % 1440

abbrev pub Within : Schedule → Local → ℕ → Type 0
Within s local day =
    (includes day s.days ≡ true) × (1 ≤ day) × (day ≤ 7) × (elapsed s local day < duration s)

module _ (s : Schedule) (local : Local) (weekday_low : 1 ≤ local.weekday)
    (weekday_high : local.weekday ≤ 7) (minute_high : local.minute < 1440)
    (start_high : clock_minute s.start < 1440) (end_high : clock_minute s.end < 1440) where
  abbrev start : ℕ
  start = clock_minute s.start

  abbrev end : ℕ
  end = clock_minute s.end

  started_today :
      includes local.weekday s.days ≡ true
      → start ≤ local.minute
      → (local.minute < end) ⊎ (end < start)
      → (d : ℕ) × Within s local d
  started_today listed begun (inl before_end) =
      (local.weekday, (listed, weekday_low, weekday_high, omega arith))
  started_today listed begun (inr overnight) =
      (local.weekday, (listed, weekday_low, weekday_high, omega arith))

  started_yesterday :
      includes (previous_weekday local.weekday) s.days ≡ true
      → local.minute < end
      → end < start
      → (d : ℕ) × Within s local d
  started_yesterday listed before_end overnight = elim (Bool-cases (local.weekday == 1)) [
    | inl monday ↦
        let at : local.weekday ≡ 1 = ground arith in
        (7, (rw monday at listed, omega arith, omega arith, rw at (omega arith)))
    | inr later ↦
        let not_first : local.weekday ≢ 1 = ground arith in
        (local.weekday - 1, (rw later at listed, omega arith, omega arith, omega arith))
  ]

  to_Within : schedule_matches s local ≡ true → (d : ℕ) × Within s local d
  unfolding schedule_matches
  to_Within h = elim (Bool-cases (ltb start end)) [
    | inl day ↦
        started_today (ground (arith, h, day)) (ground (arith, h, day))
          (inl (ground (arith, h, day)))
    | inr not_day ↦ elim (Bool-cases (ltb end start)) [
      | inr never ↦ absurd (ground (arith, h, not_day, never))
      | inl night ↦ elim (Bool-cases (includes local.weekday s.days && leb start local.minute)) [
        | inl today ↦ started_today (ground arith) (ground arith) (inr (ground arith))
        | inr not_today ↦ started_yesterday (ground (arith, h)) (ground (arith, h)) (ground arith)
      ]
    ]
  ]

  day_before :
      (d : ℕ)
      → 1 ≤ d
      → d ≤ 7
      → d ≢ local.weekday
      → end < start
      → elapsed s local d < duration s
      → previous_weekday local.weekday ≡ d
  day_before d low high other before inside = elim (Bool-cases (local.weekday == 1)) [
    | inl monday ↦ let at : local.weekday ≡ 1 = ground arith in rw monday (omega (arith, at))
    | inr later ↦
        let not_first : local.weekday ≢ 1 = ground arith in rw later (omega (arith, not_first))
  ]

  from_Within : (d : ℕ) × Within s local d → schedule_matches s local ≡ true
  unfolding schedule_matches
  from_Within (d, (listed, low, high, inside)) = elim (Bool-cases (ltb start end)) [
    | inl day ↦
        let before : start < end = ground arith in
        let same : d ≡ local.weekday = omega (arith, before) in
        let begun : start ≤ local.minute = omega (arith, before, same) in
        let going : local.minute < end = omega (arith, before, same) in
        let here : includes local.weekday s.days ≡ true = rw same at listed in
        rw (day, here) (ground (arith, begun, going))
    | inr not_day ↦ elim (Bool-cases (ltb end start)) [
      | inr never ↦ let at : start ≡ end = ground arith in absurd (omega (arith, at))
      | inl night ↦
          let before : end < start = ground arith in
          rw (not_day, night)
            (elim (Bool-cases (d == local.weekday)) [
              | inl same_day ↦
                  let same : d ≡ local.weekday = ground arith in
                  let begun : start ≤ local.minute = omega (arith, before, same) in
                  let here : includes local.weekday s.days ≡ true = rw same at listed in
                  rw here (ground (arith, begun))
              | inr other_day ↦
                  let other : d ≢ local.weekday = ground arith in
                  let going : local.minute < end = omega (arith, before, other) in
                  let previous : previous_weekday local.weekday ≡ d =
                    day_before d low high other before inside in
                  rw (previous, listed) (ground (arith, going))
            ])
    ]
  ]

  -- A schedule applies exactly while one of its days is under way, counted from the minute at which
  -- it starts on that day and for as long as it lasts, beyond midnight and from Sunday into Monday
  -- too. The local time is a day from 1 to 7 and a minute of the day, as are its two clock times.
  pub schedule_matches-Within : (schedule_matches s local ≡ true) ↔ ((d : ℕ) × Within s local d)
  schedule_matches-Within = (to_Within, from_Within)
