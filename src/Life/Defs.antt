-- ===== src/Life/Defs.antt =====
-- The definitions of app/litheral/life/solver.py. Times are minutes since midnight. A duration is
-- never subtracted in a test, since a routine that was edited may end before it starts; only the
-- end of a slot for such a routine, where it would lie before midnight, is 0 here.
use thesdel.Base.{
  ℕ, ◌+◌, ◌-◌, max, String, Bool, true, false, ◌&&◌, Option, none, some, List, [], ◌∷◌, ◌++◌, map,
  ltb, leb, ◌==◌, if◌then◌else◌, filter, any,
}
use thesdel.Base.Sorting.{sorted}

abbrev pub life_window_start_minutes : ℕ
life_window_start_minutes = 360

abbrev pub life_window_end_minutes : ℕ
life_window_end_minutes = 1380

pub record FixedBlock : Type 0 where
  pub source_type : String
  pub source_id : String
  pub day_of_week : ℕ
  pub start_minutes : ℕ
  pub end_minutes : ℕ

pub record RoutineInput : Type 0 where
  pub routine_id : String
  pub days : List ℕ
  pub start_minutes : ℕ
  pub end_minutes : ℕ
  pub is_flexible : Bool

pub record LifeBlock : Type 0 where
  pub source_type : String
  pub source_id : String
  pub day_of_week : ℕ
  pub start_minutes : ℕ
  pub end_minutes : ℕ
  pub conflict_flag : Bool

abbrev pub overlaps : ℕ → ℕ → ℕ → ℕ → Bool
overlaps a_start a_end b_start b_end = ltb a_start b_end && ltb b_start a_end

unfoldable pub has_conflict : ℕ → ℕ → ℕ → List LifeBlock → Bool
has_conflict day start stop placed =
    any (λ b. (b.day_of_week == day) && overlaps start stop b.start_minutes b.end_minutes) placed

unfoldable pub blocks_on : ℕ → List LifeBlock → List LifeBlock
unfolding sorted
blocks_on day placed = sorted (λ b. b.start_minutes) (filter (λ b. b.day_of_week == day) placed)

-- The loop over the blocks of the day, for a duration from `start` to `stop`: the first gap that
-- is long enough.
unfoldable pub first_gap : ℕ → ℕ → ℕ → List LifeBlock → Option (ℕ × ℕ)
first_gap start stop cursor [] =
    if leb (cursor + stop) (life_window_end_minutes + start)
    then some (cursor, cursor + stop - start)
    else none
first_gap start stop cursor (b ∷ bs) =
    let rest = first_gap start stop (max cursor b.end_minutes) bs in
    if leb (cursor + stop) (b.start_minutes + start)
    then some (cursor, cursor + stop - start)
    else rest

unfoldable pub find_free_slot : ℕ → ℕ → ℕ → List LifeBlock → Option (ℕ × ℕ)
unfolding first_gap blocks_on
find_free_slot day start stop placed =
    first_gap start stop life_window_start_minutes (blocks_on day placed)

unfoldable pub fixed_life_block : FixedBlock → LifeBlock
fixed_life_block b = record {
  source_type = b.source_type;
  source_id = b.source_id;
  day_of_week = b.day_of_week;
  start_minutes = b.start_minutes;
  end_minutes = b.end_minutes;
  conflict_flag = false;
}

unfoldable pub routine_block : RoutineInput → ℕ → ℕ → ℕ → Bool → LifeBlock
routine_block r day start stop conflict = record {
  source_type = "routine";
  source_id = r.routine_id;
  day_of_week = day;
  start_minutes = start;
  end_minutes = stop;
  conflict_flag = conflict;
}

-- The block of a routine that conflicts and is flexible, by what the search for a slot found.
unfoldable pub moved_or_flagged : RoutineInput → ℕ → Option (ℕ × ℕ) → LifeBlock
unfolding routine_block
moved_or_flagged r day none = routine_block r day r.start_minutes r.end_minutes true
moved_or_flagged r day (some (start, stop)) = routine_block r day start stop false

-- One round of the inner loop: the block that it appends.
unfoldable pub place_on : RoutineInput → ℕ → List LifeBlock → LifeBlock
unfolding has_conflict find_free_slot routine_block moved_or_flagged
place_on r day placed =
    if has_conflict day r.start_minutes r.end_minutes placed
    then (if r.is_flexible
        then moved_or_flagged r day (find_free_slot day r.start_minutes r.end_minutes placed)
        else routine_block r day r.start_minutes r.end_minutes true)
    else routine_block r day r.start_minutes r.end_minutes false

-- `for day in routine.days`
unfoldable pub place_days : RoutineInput → List ℕ → List LifeBlock → List LifeBlock
unfolding place_on
place_days r [] placed = placed
place_days r (day ∷ days) placed = place_days r days (placed ++ place_on r day placed ∷ [])

-- `for routine in routines`
unfoldable pub place_routines : List RoutineInput → List LifeBlock → List LifeBlock
unfolding place_days
place_routines [] placed = placed
place_routines (r ∷ rs) placed = place_routines rs (place_days r r.days placed)

unfoldable pub build_life_schedule : List FixedBlock → List RoutineInput → List LifeBlock
unfolding place_routines fixed_life_block
build_life_schedule fixed_blocks routines =
    place_routines routines (map fixed_life_block fixed_blocks)
