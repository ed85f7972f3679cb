-- ===== src/Tests/Plans.antt =====
-- The planners on a small timetable: runs and instances of the theorems.
use thesdel.Base.{
  String, ◌+◌, ◌*◌, ◌≤◌, ◌<◌, ◌≡◌, refl, inr, true, none, some, List, [], ◌∷◌, ◌++◌, map, arith,
  All, Any,
}
use thesdel.Base.Sorting.{sorted_reverse}
use thesdel.Study.{
  BusyInterval, SubjectInput, gaps, busy_on, free_intervals_for_day, chunks_of, subject_score,
  generate_study_blocks, find_replacement_slot, max_study_minutes_per_day,
}
use thesdel.Study.Free.{IsFreeSlot, Covers, free_intervals_for_day_complete}
use thesdel.Study.Chunks.{Prefers, find_replacement_slot-Prefers}
use thesdel.Study.Day.{minutes, Rotates}
use thesdel.Study.Week.{
  IsScheduled, on_day, generate_study_blocks-IsScheduled, generate_study_blocks_budget,
  generate_study_blocks-Rotates, generate_study_blocks_fills,
}
use thesdel.Study.Order.{IsForward, InOrder, generate_study_blocks-InOrder}
use thesdel.Life.{
  FixedBlock, RoutineInput, LifeBlock, find_free_slot, fixed_life_block, build_life_schedule,
}
use thesdel.Life.Slots.{IsSlotBy, find_free_slot-IsSlotBy}
use thesdel.Life.Schedule.{Layers, jobs, build_life_schedule-Layers}
use thesdel.Time.{minutes_to_time, time_to_minutes}
use thesdel.Time.RoundTrip.{time_to_minutes-minutes_to_time}
use thesdel.Reminders.Occurrence.{IsStart, day, next_occurrence, next_occurrence_first}

-- Two classes on Monday, which overlap, and one on Tuesday.
abbrev busy : List BusyInterval
busy =
    record { day_of_week = 0; start_minutes = 540; end_minutes = 660 }
    ∷ record { day_of_week = 0; start_minutes = 600; end_minutes = 720 }
    ∷ record { day_of_week = 1; start_minutes = 480; end_minutes = 1300 }
    ∷ []

abbrev maths : SubjectInput
maths = record { subject = "Maths"; priority = some 1; exam_date = none }

abbrev physics : SubjectInput
physics = record { subject = "Physics"; priority = none; exam_date = some 103 }

abbrev others : List BusyInterval
others = record { day_of_week = 0; start_minutes = 720; end_minutes = 780 } ∷ []

free_on_monday :
    free_intervals_for_day 0 busy
    ≡ record { day_of_week = 0; start_minutes = 480; end_minutes = 540 }
      ∷ record { day_of_week = 0; start_minutes = 720; end_minutes = 1320 }
      ∷ []
unfolding free_intervals_for_day gaps busy_on
free_on_monday = refl

-- The class on Tuesday leaves 20 minutes, which is too short.
free_on_tuesday : free_intervals_for_day 1 busy ≡ []
unfolding free_intervals_for_day gaps busy_on
free_on_tuesday = refl

-- The exam is in three days: its subject comes first.
exam_first : sorted_reverse (subject_score 100) (maths ∷ physics ∷ []) ≡ physics ∷ maths ∷ []
unfolding subject_score sorted_reverse
exam_first = refl

late_slot : IsFreeSlot busy 0 800 830
late_slot = record {
  opens = ground arith;
  lasts = ground arith;
  closes = ground arith;
  clear =
      ((λ e. inr (ground arith)), ((λ e. inr (ground arith)), ((λ e. absurd (ground arith)), tt)));
}

free_intervals_for_day_complete_example : Any (Covers 800 830) (free_intervals_for_day 0 busy)
free_intervals_for_day_complete_example = free_intervals_for_day_complete 0 800 830 busy late_slot

find_replacement_slot-Prefers_example :
    Prefers 0 480
      (chunks_of (free_intervals_for_day 0 (busy ++ others)))
      (find_replacement_slot busy others 0 480)
find_replacement_slot-Prefers_example = find_replacement_slot-Prefers busy others 0 480

generate_study_blocks-IsScheduled_example :
    All (IsScheduled busy 0 7) (generate_study_blocks busy (maths ∷ physics ∷ []) 100)
generate_study_blocks-IsScheduled_example =
    generate_study_blocks-IsScheduled busy (maths ∷ physics ∷ []) 100

generate_study_blocks_budget_example :
    minutes (on_day 0 (generate_study_blocks busy (maths ∷ physics ∷ []) 100))
    ≤ max_study_minutes_per_day
generate_study_blocks_budget_example =
    generate_study_blocks_budget busy (maths ∷ physics ∷ []) 100 0

generate_study_blocks-Rotates_example :
    Rotates
      (sorted_reverse (subject_score 100) (maths ∷ physics ∷ []))
      0
      (generate_study_blocks busy (maths ∷ physics ∷ []) 100)
generate_study_blocks-Rotates_example =
    generate_study_blocks-Rotates busy (maths ∷ physics ∷ []) 100

busy-IsForward : All IsForward busy
busy-IsForward = (omega arith, (omega arith, (omega arith, tt)))

generate_study_blocks-InOrder_example :
    InOrder 0 (generate_study_blocks busy (maths ∷ physics ∷ []) 100)
generate_study_blocks-InOrder_example =
    generate_study_blocks-InOrder busy (maths ∷ physics ∷ []) 100 busy-IsForward

generate_study_blocks_fills_example :
    Any (λ b. b.day_of_week ≡ 0) (generate_study_blocks busy (maths ∷ physics ∷ []) 100)
generate_study_blocks_fills_example =
    generate_study_blocks_fills busy maths (physics ∷ []) 100 0 800 830 (ground arith) late_slot

abbrev entries : List String
entries = "Maths" ∷ "Physics" ∷ "Maths" ∷ []

abbrev lecture : FixedBlock
lecture = record {
  source_type = "timetable_entry";
  source_id = "a1";
  day_of_week = 0;
  start_minutes = 360;
  end_minutes = 480;
}

abbrev run : RoutineInput
run = record {
  routine_id = "b1";
  days = 0 ∷ 2 ∷ [];
  start_minutes = 420;
  end_minutes = 465;
  is_flexible = true;
}

abbrev placed : List LifeBlock
placed = fixed_life_block lecture ∷ []

find_free_slot-IsSlotBy_example : IsSlotBy 0 420 465 500 placed (find_free_slot 0 420 465 placed)
unfolding fixed_life_block
find_free_slot-IsSlotBy_example =
    find_free_slot-IsSlotBy 0 420 465 500 placed (ground arith) (ground arith) (ground arith)
      ((λ e. inr (omega arith)), tt)

build_life_schedule-Layers_example :
    Layers
      (map fixed_life_block (lecture ∷ []))
      (jobs (run ∷ []))
      (build_life_schedule (lecture ∷ []) (run ∷ []))
build_life_schedule-Layers_example = build_life_schedule-Layers (lecture ∷ []) (run ∷ [])

time_to_minutes-minutes_to_time_example : time_to_minutes (minutes_to_time 545) ≡ some 545
time_to_minutes-minutes_to_time_example = time_to_minutes-minutes_to_time 545

-- The block is on day 0's weekday at the reference's own minute: the next is a week on.
next_occurrence_first_example :
    IsStart 6 9 0 (next_occurrence 6 9 0 32400000000)
    × (32400000000 < next_occurrence 6 9 0 32400000000)
    × (next_occurrence 6 9 0 32400000000 ≤ 32400000000 + 7 * day)
    × (next_occurrence 6 9 0 32400000000 ≤ 32400000000 + 14 * day)
next_occurrence_first_example =
    next_occurrence_first 6 9 0 32400000000 (ground arith) (ground arith) (ground arith)
      (32400000000 + 14 * day) (refl, refl) (ground arith)
