-- ===== src/Life/Service.antt =====
-- app/litheral/life: the schedule of a user's whole week, around the solver. The timetable, the study
-- plans and the routines are read, the schedule is replaced, and one push tells of a conflict. The
-- ids that `insert_many` gives are a parameter, by position; the texts of ids are one, too. A time
-- that does not parse is the one error of the try block that is modelled. One Redis holds the caps'
-- counters and the pushes' guards.
use thesdel.Base.{
  ℕ, suc, Bool, ◌&&◌, ◌||◌, Option, none, some, String, List, [], ◌∷◌, ◌++◌, ltb, ◌==◌,
  if◌then◌else◌, any,
}
use thesdel.Errors.{AppError, ok, err, Call}
use thesdel.Mongo.{Mongo}
use thesdel.Mongo.Replace.{replace_all}
use thesdel.Redis.{Redis}
use thesdel.Time.{Text, time_to_minutes, minutes_to_time, text_lt}
use thesdel.Timetable.{TimetableEntry, list_personal}
use thesdel.Routines.{Routine}
use thesdel.Routines as Routines
use thesdel.Usage.{UsageDb, UsageLog, Period, check_and_reserve, mark_succeeded, mark_failed}
use thesdel.Notifications.{Triggers, Push, notify_life_schedule_conflict}
use thesdel.Study.Service.{StudyPlan}
use thesdel.Study.Service as StudyService
use thesdel.Life.Defs.{FixedBlock, RoutineInput, LifeBlock, build_life_schedule}

-- A document of `life_schedule_blocks`.
pub record StoredLifeBlock : Type 0 where
  pub id : ℕ
  pub user_id : ℕ
  pub source_type : String
  pub source_id : String
  pub day_of_week : ℕ
  pub start_time : Text
  pub end_time : Text
  pub conflict_flag : Bool
  pub generated_at : ℕ

abbrev pub fixed_at : String → String → ℕ → Option ℕ → Option ℕ → Option FixedBlock
fixed_at source_type source_id day (some start) (some stop) = some (record {
  source_type = source_type;
  source_id = source_id;
  day_of_week = day;
  start_minutes = start;
  end_minutes = stop;
})
fixed_at source_type source_id day none stop = none
fixed_at source_type source_id day (some start) none = none

abbrev pub routine_at : String → Routine → Option ℕ → Option ℕ → Option RoutineInput
routine_at id r (some start) (some stop) = some (record {
  routine_id = id;
  days = r.days;
  start_minutes = start;
  end_minutes = stop;
  is_flexible = r.is_flexible;
})
routine_at id r none stop = none
routine_at id r (some start) none = none

abbrev pub prepend {ℓ} : {A : Type ℓ} → Option A → Option (List A) → Option (List A)
prepend (some a) (some as') = some (a ∷ as')
prepend none as' = none
prepend (some a) none = none

abbrev pub join {ℓ} : {A : Type ℓ} → Option (List A) → Option (List A) → Option (List A)
join (some xs) (some ys) = some (xs ++ ys)
join none ys = none
join (some xs) none = none

module _ (id_text : ℕ → String) where
  -- The lists of the try block; none where a time does not parse.
  unfoldable pub class_blocks : List TimetableEntry → Option (List FixedBlock)
  class_blocks [] = some []
  class_blocks (e ∷ es) =
      prepend
        (fixed_at "class" (id_text e.id) e.day_of_week (time_to_minutes e.start_time)
          (time_to_minutes e.end_time))
        (class_blocks es)

  unfoldable pub study_blocks : List StudyPlan → Option (List FixedBlock)
  study_blocks [] = some []
  study_blocks (b ∷ bs) =
      prepend
        (fixed_at "study" (id_text b.id) b.day_of_week (time_to_minutes b.start_time)
          (time_to_minutes b.end_time))
        (study_blocks bs)

  unfoldable pub routine_inputs : List Routine → Option (List RoutineInput)
  routine_inputs [] = some []
  routine_inputs (r ∷ rs) =
      prepend
        (routine_at (id_text r.id) r (time_to_minutes r.start_time) (time_to_minutes r.end_time))
        (routine_inputs rs)

abbrev pub stored_life_block : ℕ → ℕ → ℕ → LifeBlock → StoredLifeBlock
stored_life_block id user_id now b = record {
  id = id;
  user_id = user_id;
  source_type = b.source_type;
  source_id = b.source_id;
  day_of_week = b.day_of_week;
  start_time = minutes_to_time b.start_minutes;
  end_time = minutes_to_time b.end_minutes;
  conflict_flag = b.conflict_flag;
  generated_at = now;
}

unfoldable pub stored_life_blocks : (ℕ → ℕ) → ℕ → ℕ → ℕ → List LifeBlock → List StoredLifeBlock
stored_life_blocks ids user_id now i [] = []
stored_life_blocks ids user_id now i (b ∷ bs) =
    stored_life_block (ids i) user_id now b ∷ stored_life_blocks ids user_id now (suc i) bs

abbrev pub life_block_before : StoredLifeBlock → StoredLifeBlock → Bool
life_block_before a b =
    ltb a.day_of_week b.day_of_week
    || ((a.day_of_week == b.day_of_week) && text_lt a.start_time b.start_time)

abbrev pub is_users_life : ℕ → StoredLifeBlock → Bool
is_users_life user_id d = d.user_id == user_id

module _ (mongo : Mongo) (redis : Redis) where
  open mongo use {Collection, find_sorted}
  open redis use {Db}

  pub record LifeDb : Type 0 where
    pub keys : Db
    pub log : Collection UsageLog
    pub queue : List Push
    pub timetable : Collection TimetableEntry
    pub study_plans : Collection StudyPlan
    pub routines : Collection Routine
    pub life_blocks : Collection StoredLifeBlock

  -- The parts of the state that the services called see, and their writing back.
  abbrev pub usage_of : LifeDb → UsageDb mongo redis
  usage_of s = record { counters = s.keys; log = s.log }

  abbrev pub with_usage : UsageDb mongo redis → LifeDb → LifeDb
  with_usage u s = record s { keys = u.counters; log = u.log }

  abbrev pub triggers_of : LifeDb → Triggers redis
  triggers_of s = record { guards = s.keys; queue = s.queue }

  abbrev pub with_triggers : Triggers redis → LifeDb → LifeDb
  with_triggers t s = record s { keys = t.guards; queue = t.queue }

  unfoldable pub replace_all_for_user :
      ℕ
      → List StoredLifeBlock
      → Collection StoredLifeBlock
      → List StoredLifeBlock × Collection StoredLifeBlock
  unfolding replace_all
  replace_all_for_user user_id blocks c = replace_all mongo (is_users_life user_id) blocks c

  unfoldable pub list_for_user : ℕ → Collection StoredLifeBlock → List StoredLifeBlock
  list_for_user user_id c = find_sorted life_block_before (is_users_life user_id) c

  unfoldable pub list_blocks : ℕ → LifeDb → List StoredLifeBlock
  unfolding list_for_user
  list_blocks user_id s = list_for_user user_id s.life_blocks

  -- What the solver is given.
  unfoldable pub fixed_blocks : (ℕ → String) → ℕ → LifeDb → Option (List FixedBlock)
  unfolding class_blocks study_blocks list_personal StudyService.list_for_user
  fixed_blocks id_text user_id s =
      join (class_blocks id_text (list_personal mongo user_id s.timetable))
        (study_blocks id_text (StudyService.list_for_user mongo redis user_id s.study_plans))

  unfoldable pub routines_of : (ℕ → String) → ℕ → LifeDb → Option (List RoutineInput)
  unfolding routine_inputs Routines.list_for_user
  routines_of id_text user_id s =
      routine_inputs id_text (Routines.list_for_user mongo user_id s.routines)

  -- The push behind a run.
  unfoldable pub tell_conflict : Bool → ℕ → List StoredLifeBlock → LifeDb → LifeDb
  unfolding notify_life_schedule_conflict
  tell_conflict queue_up user_id docs s =
      if any (λ d. d.conflict_flag) docs
      then with_triggers (notify_life_schedule_conflict redis queue_up user_id (triggers_of s)) s
      else s

  -- Behind the reservation, by what the solver is given.
  unfoldable pub schedule_week :
      Bool
      → (ℕ → ℕ)
      → ℕ
      → ℕ
      → ℕ
      → Option (List FixedBlock)
      → Option (List RoutineInput)
      → Call LifeDb (List StoredLifeBlock)
  unfolding mark_failed mark_succeeded replace_all_for_user tell_conflict build_life_schedule
      stored_life_blocks
  schedule_week queue_up ids log_id now user_id none routines s =
      (err AppError.internal_error, with_usage (mark_failed mongo redis log_id (usage_of s)) s)
  schedule_week queue_up ids log_id now user_id (some fixed) none s =
      (err AppError.internal_error, with_usage (mark_failed mongo redis log_id (usage_of s)) s)
  schedule_week queue_up ids log_id now user_id (some fixed) (some routines) s =
      let blocks = stored_life_blocks ids user_id now 0 (build_life_schedule fixed routines) in
      let (docs, c) = replace_all_for_user user_id blocks s.life_blocks in
      let u = mark_succeeded mongo redis log_id none (usage_of s) in
      (ok docs, tell_conflict queue_up user_id docs (with_usage u (record s { life_blocks = c })))

  unfoldable pub run :
      Bool
      → (ℕ → String)
      → (ℕ → ℕ)
      → ℕ
      → ℕ
      → Period
      → ℕ
      → String
      → Option ℕ
      → Call LifeDb (List StoredLifeBlock)
  unfolding check_and_reserve schedule_week fixed_blocks routines_of
  run queue_up id_text ids log_id now p user_id feature limit s =
      let (reserved, u) =
        check_and_reserve mongo redis log_id user_id feature limit p (usage_of s) in
      elim reserved [
        | err e ↦ (err e, with_usage u s)
        | ok log ↦
            schedule_week queue_up ids log now user_id (fixed_blocks id_text user_id s)
              (routines_of id_text user_id s) (with_usage u s)
      ]

  unfoldable pub generate :
      Bool → (ℕ → String) → (ℕ → ℕ) → ℕ → ℕ → Period → ℕ → Call LifeDb (List StoredLifeBlock)
  unfolding run
  generate queue_up id_text ids log_id now p user_id s =
      run queue_up id_text ids log_id now p user_id "life_generate" none s

  unfoldable pub adjust :
      ℕ → Bool → (ℕ → String) → (ℕ → ℕ) → ℕ → ℕ → Period → ℕ → Call LifeDb (List StoredLifeBlock)
  unfolding run
  adjust adjust_cap queue_up id_text ids log_id now p user_id s =
      run queue_up id_text ids log_id now p user_id "life_adjust" (some adjust_cap) s
