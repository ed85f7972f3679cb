-- ===== src/Reminders/Occurrence.antt =====
-- `_next_occurrence_of_weekly_block`. A datetime is the number of microseconds since the start of
-- day 0 of the proleptic calendar, where Python's `toordinal` counts from; day n is the weekday
-- (n + 6) % 7, with Monday 0.
use thesdel.Base.{
  ℕ, ◌+◌, ◌-◌, ◌*◌, ◌/◌, ◌%◌, ◌≤◌, ◌<◌, ◌≡◌, ◌⊎◌, ◌&&◌, ◌||◌, ltb, ◌==◌, if◌then◌else◌, arith,
}

abbrev pub minute : ℕ
minute = 60000000

abbrev pub day : ℕ
day = 86400000000

abbrev pub date : ℕ → ℕ
date t = t / day

abbrev pub weekday : ℕ → ℕ
weekday t = (date t + 6) % 7

abbrev pub hour_of : ℕ → ℕ
hour_of t = t % day / minute / 60

abbrev pub minute_of : ℕ → ℕ
minute_of t = t % day / minute % 60

-- The comparison of the pairs is that of tuples.
unfoldable pub days_ahead : ℕ → ℕ → ℕ → ℕ → ℕ
days_ahead day_of_week start_hour start_minute reference =
    if ltb (weekday reference) day_of_week
    then day_of_week - weekday reference
    else if ltb day_of_week (weekday reference)
    then 7 - (weekday reference - day_of_week)
    else if ltb (hour_of reference) start_hour
        || (start_hour == hour_of reference) && ltb (minute_of reference) start_minute
    then 0
    else 7

unfoldable pub next_occurrence : ℕ → ℕ → ℕ → ℕ → ℕ
unfolding days_ahead
next_occurrence day_of_week start_hour start_minute reference =
    (date reference + days_ahead day_of_week start_hour start_minute reference) * day
    + (start_hour * 60 + start_minute) * minute

-- A start of the weekly block: on its weekday, at its hour and minute.
abbrev pub IsStart : ℕ → ℕ → ℕ → ℕ → Type 0
IsStart dow h m t = (weekday t ≡ dow) × (t % day ≡ (h * 60 + m) * minute)

module _ (dow h m reference : ℕ) (hd : dow < 7) (hh : h < 24) (hm : m < 60) where
  -- The days ahead lead to the weekday, and a later minute is what 0 days and 7 days tell apart.
  days_ahead_lem :
      let k = days_ahead dow h m reference in
      ((date reference + k + 6) % 7 ≡ dow)
      × (k ≤ 7)
      × ((0 < k) ⊎ (reference % day < (h * 60 + m) * minute))
      × ((k < 7) ⊎ ((h * 60 + m) * minute ≤ reference % day))
  unfolding days_ahead
  days_ahead_lem = (ground arith, ground arith, ground arith, ground arith)

  parts :
      let k = days_ahead dow h m reference in
      (date (next_occurrence dow h m reference) ≡ date reference + k)
      × (next_occurrence dow h m reference % day ≡ (h * 60 + m) * minute)
  unfolding next_occurrence
  parts = (omega arith, omega arith)

  -- The next occurrence is a start of the block strictly after the reference time, at most seven
  -- days on, and no later than any other such start; a start at the reference time itself is
  -- passed over.
  pub next_occurrence_first :
      (t : ℕ)
      → IsStart dow h m t
      → reference < t
      → IsStart dow h m (next_occurrence dow h m reference)
        × (reference < next_occurrence dow h m reference)
        × (next_occurrence dow h m reference ≤ reference + 7 * day)
        × (next_occurrence dow h m reference ≤ t)
  next_occurrence_first t s after = (
    (rw (parts.0) (days_ahead_lem.0), parts.1),
    omega (arith, parts.0, parts.1, days_ahead_lem.1, days_ahead_lem.2),
    omega (arith, parts.0, parts.1, days_ahead_lem.1, days_ahead_lem.3),
    omega (arith, parts.0, parts.1, days_ahead_lem.0, days_ahead_lem.1, days_ahead_lem.3, s.0, s.1),
  )
