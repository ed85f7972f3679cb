-- ===== src/Study/Order.antt =====
-- The order of the blocks of a generated plan: none starts before the one before it has ended.
use thesdel.Base.{
  ℕ, zero, suc, ◌+◌, ◌-◌, ◌*◌, ◌≤◌, min, max, inl, inr, List, [], ◌∷◌, ◌++◌, ltb, leb, filter, ◌==◌,
  arith, All, All-imp, All-filter_keep, Bool-cases,
}
use thesdel.Base.Sorting.{sorted_reverse, sorted-All}
use thesdel.Study.Defs.{
  BusyInterval, FreeInterval, SubjectInput, StudyBlock, gaps, is_long_enough, busy_on,
  free_intervals_for_day, split_into_blocks, chunks_of, block_for, place_chunks, place_days,
  place_ranked, generate_study_blocks, subject_score, study_window_start_minutes,
  study_window_end_minutes, min_block_minutes, max_study_minutes_per_day,
}
use thesdel.Study.Chunks.{Tiles, split_into_blocks-Tiles}
use thesdel.Study.Day.{IsPlaced, chunks_of-IsDayPlan}

-- A busy interval that does not end before it starts.
abbrev pub IsForward : BusyInterval → Type 0
IsForward b = b.start_minutes ≤ b.end_minutes

-- The chunks stand one behind the other, from the minute on.
abbrev pub Rising : ℕ → List (ℕ × ℕ) → Type 0
Rising lo [] = Unit
Rising lo (c ∷ cs) = (lo ≤ c.0) × (c.0 + min_block_minutes ≤ c.1) × Rising c.1 cs

Rising-weaken : (lo lo' : ℕ) (cs : List (ℕ × ℕ)) → lo ≤ lo' → Rising lo' cs → Rising lo cs
Rising-weaken lo lo' [] k h = tt
Rising-weaken lo lo' (c ∷ cs) k h = (omega (arith, h.0), h.1, h.2)

Tiles-Rising :
    (lo cursor stop : ℕ) (cs ds : List (ℕ × ℕ))
    → lo ≤ cursor
    → cursor ≤ stop
    → Tiles cursor stop cs
    → Rising stop ds
    → Rising lo (cs ++ ds)
Tiles-Rising lo cursor stop [] ds k l t h = Rising-weaken lo stop ds (omega arith) h
Tiles-Rising lo cursor stop ((s, e) ∷ cs) ds k l t h =
    (omega (arith, t.0), t.1, Tiles-Rising e e stop cs ds (omega arith) t.3 t.4 h)

-- An interval in front of rising chunks, kept or too short.
chunks_of-Rising_cons :
    (lo m : ℕ) (f : FreeInterval) (fs : List FreeInterval)
    → lo ≤ f.start_minutes
    → lo ≤ m
    → f.end_minutes ≤ m
    → Rising m (chunks_of (filter is_long_enough fs))
    → Rising lo (chunks_of (filter is_long_enough (f ∷ fs)))
unfolding chunks_of
chunks_of-Rising_cons lo m f fs start room stop h = elim (Bool-cases (is_long_enough f)) [
  | inl e ↦ rw e (
      Tiles-Rising lo f.start_minutes f.end_minutes (split_into_blocks f)
        (chunks_of (filter is_long_enough fs)) start (ground arith) (split_into_blocks-Tiles f)
        (Rising-weaken f.end_minutes m (chunks_of (filter is_long_enough fs)) stop h))
  | inr e ↦ rw e (Rising-weaken lo m (chunks_of (filter is_long_enough fs)) room h)
]

gaps-Rising :
    (day cursor : ℕ) (bs : List BusyInterval)
    → All IsForward bs
    → Rising cursor (chunks_of (filter is_long_enough (gaps day cursor bs)))
unfolding gaps chunks_of
gaps-Rising day cursor [] h = elim (Bool-cases (ltb cursor study_window_end_minutes)) [
  | inl e ↦ rw e (
      chunks_of-Rising_cons cursor study_window_end_minutes
        (record {
          day_of_week = day;
          start_minutes = cursor;
          end_minutes = study_window_end_minutes;
        })
        [] (omega arith) (ground arith) (omega arith) tt)
  | inr e ↦ rw e tt
]
gaps-Rising day cursor (b ∷ bs) h =
    let rest = gaps-Rising day (max cursor b.end_minutes) bs h.1 in
    elim (Bool-cases (ltb cursor b.start_minutes)) [
      | inl e ↦ rw e (
          chunks_of-Rising_cons cursor (max cursor b.end_minutes)
            (record {
              day_of_week = day;
              start_minutes = cursor;
              end_minutes = min b.start_minutes study_window_end_minutes;
            })
            (gaps day (max cursor b.end_minutes) bs) (omega arith) (omega arith)
            (omega (arith, h.0)) rest)
      | inr e ↦ rw e (
          Rising-weaken cursor (max cursor b.end_minutes)
            (chunks_of (filter is_long_enough (gaps day (max cursor b.end_minutes) bs)))
            (omega arith) rest)
    ]

free_intervals_for_day-Rising :
    (day : ℕ) (busy : List BusyInterval)
    → All IsForward busy
    → Rising study_window_start_minutes (chunks_of (free_intervals_for_day day busy))
unfolding free_intervals_for_day busy_on
free_intervals_for_day-Rising day busy h =
    gaps-Rising day study_window_start_minutes (busy_on day busy) (
      sorted-All (λ b. b.start_minutes) IsForward (filter (λ b. b.day_of_week == day) busy)
        (All-filter_keep IsForward (λ b. b.day_of_week == day) busy h))

-- The minute of the week.
abbrev pub week_minute : ℕ → ℕ → ℕ
week_minute day t = day * 1440 + t

-- The blocks follow on one another in the week, from the minute on: none starts before the one
-- before it has ended.
abbrev pub InOrder : ℕ → List StudyBlock → Type 0
InOrder lo [] = Unit
InOrder lo (b ∷ bs) =
    (lo ≤ week_minute b.day_of_week b.start_minutes)
    × (b.start_minutes ≤ b.end_minutes)
    × InOrder (week_minute b.day_of_week b.end_minutes) bs

InOrder-weaken : (lo lo' : ℕ) (bs : List StudyBlock) → lo ≤ lo' → InOrder lo' bs → InOrder lo bs
InOrder-weaken lo lo' [] k h = tt
InOrder-weaken lo lo' (b ∷ bs) k h = (omega (arith, h.0), h.1, h.2)

InOrder-append :
    (lo m : ℕ) (xs ys : List StudyBlock)
    → lo ≤ m
    → InOrder lo xs
    → All (λ b. week_minute b.day_of_week b.end_minutes ≤ m) xs
    → InOrder m ys
    → InOrder lo (xs ++ ys)
InOrder-append lo m [] ys k h ends rest = InOrder-weaken lo m ys k rest
InOrder-append lo m (x ∷ xs) ys k h ends rest = (
  h.0,
  h.1,
  InOrder-append (week_minute x.day_of_week x.end_minutes) m xs ys ends.0 h.2 ends.1 rest,
)

module _ (first : SubjectInput) (others : List SubjectInput) (busy : List BusyInterval) where
  place_chunks-InOrder :
      (day used index lo : ℕ) (cs : List (ℕ × ℕ))
      → Rising lo cs
      → InOrder (week_minute day lo) (place_chunks first others day used index cs).0
  unfolding place_chunks block_for
  place_chunks-InOrder day used index lo [] h = tt
  place_chunks-InOrder day used index lo ((start, stop) ∷ cs) h =
      let block_end = min stop (start + (max_study_minutes_per_day - used)) in
      let skipped =
        place_chunks-InOrder day used index lo cs
          (Rising-weaken lo stop cs (omega (arith, h.0, h.1)) h.2) in
      let placed =
        place_chunks-InOrder day (used + (block_end - start)) (index + 1) block_end cs
          (Rising-weaken block_end stop cs (omega arith) h.2) in
      elim (Bool-cases (leb max_study_minutes_per_day used)) [
        | inl full ↦ rw full tt
        | inr room ↦ elim (Bool-cases (ltb block_end (start + min_block_minutes))) [
          | inl short ↦ rw (room, short) skipped
          | inr long ↦ rw (room, long) (omega (arith, h.0), ground arith, placed)
        ]
      ]

  ends_today :
      (day : ℕ) (b : StudyBlock)
      → IsPlaced busy day b
      → week_minute b.day_of_week b.end_minutes ≤ week_minute (day + 1) 0
  ends_today day b h = omega (arith, h.0, h.1.closes)

  place_days-InOrder :
      (days day index : ℕ)
      → All IsForward busy
      → InOrder (week_minute day 0) (place_days first others busy days day index)
  unfolding place_days
  place_days-InOrder zero day index h = tt
  place_days-InOrder (suc days) day index h =
      let plan = chunks_of-IsDayPlan first others busy day index in
      let chunks = chunks_of (free_intervals_for_day day busy) in
      let out = place_chunks first others day 0 index chunks in
      let rest = place_days first others busy days (day + 1) out.1 in
      InOrder-append (week_minute day 0) (week_minute (day + 1) 0) out.0 rest (omega arith)
        (place_chunks-InOrder day 0 index 0 chunks (
          Rising-weaken 0 study_window_start_minutes chunks (omega arith)
            (free_intervals_for_day-Rising day busy h)))
        (All-imp (IsPlaced busy day)
          (λ b. week_minute b.day_of_week b.end_minutes ≤ week_minute (day + 1) 0) (ends_today day)
          out.0 plan.placed)
        (place_days-InOrder days (day + 1) out.1 h)

-- Where no busy interval ends before it starts, the blocks of a generated plan come in the order of
-- the week, and none starts before the one before it has ended: no two of them overlap.
pub generate_study_blocks-InOrder :
    (busy : List BusyInterval) (subjects : List SubjectInput) (today : ℕ)
    → All IsForward busy
    → InOrder 0 (generate_study_blocks busy subjects today)
unfolding generate_study_blocks
generate_study_blocks-InOrder busy subjects today h =
    ranked (sorted_reverse (subject_score today) subjects)
  where
    ranked : (r : List SubjectInput) → InOrder 0 (place_ranked busy r)
    ranked [] = tt
    ranked (s ∷ ss) = place_days-InOrder s ss busy 7 0 0 h
