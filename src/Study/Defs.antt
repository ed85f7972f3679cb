-- ===== src/Study/Defs.antt =====
-- The definitions of app/litheral/study/solver.py.
use thesdel.Base.{
  ℕ, zero, suc, ◌+◌, ◌-◌, ◌*◌, ◌%◌, min, max, String, Bool, not, ◌&&◌, Option, none, some, List, [],
  ◌∷◌, ◌++◌, ltb, leb, ◌==◌, if◌then◌else◌, length, get_or, filter,
}
use thesdel.Base.Sorting.{sorted, sorted_reverse}

abbrev pub study_window_start_minutes : ℕ
study_window_start_minutes = 480

abbrev pub study_window_end_minutes : ℕ
study_window_end_minutes = 1320

abbrev pub min_block_minutes : ℕ
min_block_minutes = 30

abbrev pub max_block_minutes : ℕ
max_block_minutes = 60

abbrev pub max_study_minutes_per_day : ℕ
max_study_minutes_per_day = 120

abbrev pub exam_urgency_window_days : ℕ
exam_urgency_window_days = 14

pub record BusyInterval : Type 0 where
  pub day_of_week : ℕ
  pub start_minutes : ℕ
  pub end_minutes : ℕ

pub record FreeInterval : Type 0 where
  pub day_of_week : ℕ
  pub start_minutes : ℕ
  pub end_minutes : ℕ

pub record SubjectInput : Type 0 where
  pub subject : String
  pub priority : Option ℕ
  pub exam_date : Option ℕ

pub record StudyBlock : Type 0 where
  pub subject : String
  pub priority : Option ℕ
  pub exam_date : Option ℕ
  pub day_of_week : ℕ
  pub start_minutes : ℕ
  pub end_minutes : ℕ

-- The loop over the busy intervals of a day, from the cursor on.
unfoldable pub gaps : ℕ → ℕ → List BusyInterval → List FreeInterval
gaps day cursor [] =
    if ltb cursor study_window_end_minutes
    then record {
      day_of_week = day;
      start_minutes = cursor;
      end_minutes = study_window_end_minutes;
    }
      ∷ []
    else []
gaps day cursor (b ∷ bs) =
    let rest = gaps day (max cursor b.end_minutes) bs in
    if ltb cursor b.start_minutes
    then record {
      day_of_week = day;
      start_minutes = cursor;
      end_minutes = min b.start_minutes study_window_end_minutes;
    }
      ∷ rest
    else rest

-- `f.duration >= MIN_BLOCK_MINUTES`; the duration may be negative, so it is not subtracted.
abbrev pub is_long_enough : FreeInterval → Bool
is_long_enough f = leb (f.start_minutes + min_block_minutes) f.end_minutes

unfoldable pub busy_on : ℕ → List BusyInterval → List BusyInterval
unfolding sorted
busy_on day busy = sorted (λ b. b.start_minutes) (filter (λ b. b.day_of_week == day) busy)

unfoldable pub free_intervals_for_day : ℕ → List BusyInterval → List FreeInterval
unfolding gaps busy_on
free_intervals_for_day day busy =
    filter is_long_enough (gaps day study_window_start_minutes (busy_on day busy))

abbrev pub priority_or_zero : Option ℕ → ℕ
priority_or_zero none = 0
priority_or_zero (some p) = p

-- What a near exam adds to the score: nothing once the exam has passed.
unfoldable pub exam_bonus : Option ℕ → ℕ → ℕ
exam_bonus none today = 0
exam_bonus (some exam) today =
    if leb today exam && leb exam (today + exam_urgency_window_days)
    then (exam_urgency_window_days - (exam - today)) * 2
    else 0

unfoldable pub subject_score : ℕ → SubjectInput → ℕ
unfolding exam_bonus
subject_score today s = priority_or_zero s.priority + exam_bonus s.exam_date today

-- The loop of `_split_into_blocks`; the minutes left are fuel enough.
unfoldable pub split_from : ℕ → ℕ → ℕ → List (ℕ × ℕ)
split_from zero cursor stop = []
split_from (suc fuel) cursor stop =
    let block_end = min (cursor + max_block_minutes) stop in
    let rest = split_from fuel block_end stop in
    if leb (cursor + min_block_minutes) stop then (cursor, block_end) ∷ rest else []

unfoldable pub split_into_blocks : FreeInterval → List (ℕ × ℕ)
unfolding split_from
split_into_blocks f = split_from (f.end_minutes - f.start_minutes) f.start_minutes f.end_minutes

-- `[chunk for interval in free for chunk in _split_into_blocks(interval)]`
unfoldable pub chunks_of : List FreeInterval → List (ℕ × ℕ)
unfolding split_into_blocks
chunks_of [] = []
chunks_of (f ∷ fs) = split_into_blocks f ++ chunks_of fs

unfoldable pub block_for : SubjectInput → ℕ → ℕ → ℕ → StudyBlock
block_for s day start stop = record {
  subject = s.subject;
  priority = s.priority;
  exam_date = s.exam_date;
  day_of_week = day;
  start_minutes = start;
  end_minutes = stop;
}

-- The subjects ranked by score, the first apart from the others, since there is one.
module _ (first : SubjectInput) (others : List SubjectInput) where
  -- `ranked_subjects[index % len(ranked_subjects)]`
  unfoldable pub subject_at : ℕ → SubjectInput
  subject_at index = get_or first (first ∷ others) (index % length (first ∷ others))

  -- The loop over the chunks of one day, from the minutes used that day and the cycle index on.
  -- It returns the blocks and the index.
  unfoldable pub place_chunks : ℕ → ℕ → ℕ → List (ℕ × ℕ) → List StudyBlock × ℕ
  unfolding subject_at block_for
  place_chunks day used index [] = ([], index)
  place_chunks day used index ((start, stop) ∷ cs) =
      let remaining_budget = max_study_minutes_per_day - used in
      let block_end = min stop (start + remaining_budget) in
      let skipped = place_chunks day used index cs in
      let placed = place_chunks day (used + (block_end - start)) (index + 1) cs in
      if leb max_study_minutes_per_day used
      then ([], index)
      else if ltb block_end (start + min_block_minutes)
      then skipped
      else (block_for (subject_at index) day start block_end ∷ placed.0, placed.1)

  -- The loop over the days, with the number of days still to come.
  unfoldable pub place_days : List BusyInterval → ℕ → ℕ → ℕ → List StudyBlock
  unfolding place_chunks free_intervals_for_day chunks_of
  place_days busy zero day index = []
  place_days busy (suc days) day index =
      let (blocks, index') =
        place_chunks day 0 index (chunks_of (free_intervals_for_day day busy)) in
      blocks ++ place_days busy days (day + 1) index'

abbrev pub place_ranked : List BusyInterval → List SubjectInput → List StudyBlock
place_ranked busy [] = []
place_ranked busy (first ∷ others) = place_days first others busy 7 0 0

unfoldable pub generate_study_blocks : List BusyInterval → List SubjectInput → ℕ → List StudyBlock
unfolding place_days sorted_reverse subject_score
generate_study_blocks busy subjects today =
    place_ranked busy (sorted_reverse (subject_score today) subjects)

abbrev pub head_of : List (ℕ × ℕ) → Option (ℕ × ℕ)
head_of [] = none
head_of (c ∷ cs) = some c

-- `candidates` or, where there are none, `chunks`
abbrev pub or_else : List (ℕ × ℕ) → List (ℕ × ℕ) → List (ℕ × ℕ)
or_else [] chunks = chunks
or_else (c ∷ cs) chunks = c ∷ cs

abbrev pub slot_of : ℕ → Option (ℕ × ℕ) → Option (ℕ × ℕ × ℕ)
slot_of day none = none
slot_of day (some (start, stop)) = some (day, start, min stop (start + max_block_minutes))

unfoldable pub find_replacement_slot :
    List BusyInterval → List BusyInterval → ℕ → ℕ → Option (ℕ × ℕ × ℕ)
unfolding free_intervals_for_day chunks_of
find_replacement_slot busy other_study_blocks day exclude_start_minutes =
    let chunks = chunks_of (free_intervals_for_day day (busy ++ other_study_blocks)) in
    slot_of day (head_of (or_else (filter (λ c. not (c.0 == exclude_start_minutes)) chunks) chunks))
