-- ===== src/Study/Service.antt =====
-- app/litheral/study: the study plans of the users, generated and mended around the solver. A
-- date's text is kept as the date, and the ids that `insert_many` gives are a parameter, by
-- position. A time that does not parse is the one error of the try blocks that is modelled: MongoDB
-- is up.
use thesdel.Base.{
  ℕ, suc, ◌-◌, Bool, not, ◌&&◌, ◌||◌, Option, none, some, String, List, [], ◌∷◌, ltb, ◌==◌,
  if◌then◌else◌, filter, map,
}
use thesdel.Errors.{AppError, Result, ok, err, Call}
use thesdel.Mongo.{Mongo}
use thesdel.Mongo.Replace.{replace_all}
use thesdel.Redis.{Redis}
use thesdel.Time.{Text, time_to_minutes, minutes_to_time, text_lt}
use thesdel.Timetable.{TimetableEntry, list_personal}
use thesdel.Usage.{UsageDb, Period, check_and_reserve, mark_succeeded, mark_failed, get_status}
use thesdel.Study.Defs.{
  BusyInterval, SubjectInput, StudyBlock, generate_study_blocks, find_replacement_slot,
}
use thesdel.Reminders.Occurrence.{date}
use thesdel.Study.Subjects.{resolve_subjects}

-- A document of `study_plans`.
pub record StudyPlan : Type 0 where
  pub id : ℕ
  pub user_id : ℕ
  pub subject : String
  pub priority : Option ℕ
  pub exam_date : Option ℕ
  pub day_of_week : ℕ
  pub start_time : Text
  pub end_time : Text
  pub generated_at : ℕ

pub record RegenerateBlockResponse : Type 0 where
  pub block : StudyPlan
  pub remaining_regenerations : ℕ

abbrev pub busy_at : ℕ → Option ℕ → Option ℕ → Option BusyInterval
busy_at day (some start) (some stop) =
    some (record { day_of_week = day; start_minutes = start; end_minutes = stop })
busy_at day none stop = none
busy_at day (some start) none = none

abbrev pub both_parts :
    Option BusyInterval → Option (List BusyInterval) → Option (List BusyInterval)
both_parts (some b) (some bs) = some (b ∷ bs)
both_parts none bs = none
both_parts (some b) none = none

-- `[solver.BusyInterval(...) for e in timetable_entries]`; none where a time does not parse.
unfoldable pub busy_of : List TimetableEntry → Option (List BusyInterval)
busy_of [] = some []
busy_of (e ∷ es) =
    both_parts (busy_at e.day_of_week (time_to_minutes e.start_time) (time_to_minutes e.end_time))
      (busy_of es)

-- The same for `other_blocks`.
unfoldable pub busy_of_blocks : List StudyPlan → Option (List BusyInterval)
busy_of_blocks [] = some []
busy_of_blocks (b ∷ bs) =
    both_parts (busy_at b.day_of_week (time_to_minutes b.start_time) (time_to_minutes b.end_time))
      (busy_of_blocks bs)

-- The document of a block, with the id that it is given.
abbrev pub stored_block : ℕ → ℕ → ℕ → StudyBlock → StudyPlan
stored_block id user_id now b = record {
  id = id;
  user_id = user_id;
  subject = b.subject;
  priority = b.priority;
  exam_date = b.exam_date;
  day_of_week = b.day_of_week;
  start_time = minutes_to_time b.start_minutes;
  end_time = minutes_to_time b.end_minutes;
  generated_at = now;
}

unfoldable pub stored_blocks : (ℕ → ℕ) → ℕ → ℕ → ℕ → List StudyBlock → List StudyPlan
stored_blocks ids user_id now i [] = []
stored_blocks ids user_id now i (b ∷ bs) =
    stored_block (ids i) user_id now b ∷ stored_blocks ids user_id now (suc i) bs

-- `.sort([("day_of_week", 1), ("start_time", 1)])`
abbrev pub plan_before : StudyPlan → StudyPlan → Bool
plan_before a b =
    ltb a.day_of_week b.day_of_week
    || ((a.day_of_week == b.day_of_week) && text_lt a.start_time b.start_time)

abbrev pub is_users : ℕ → StudyPlan → Bool
is_users user_id d = d.user_id == user_id

abbrev pub new_times : ℕ → ℕ → ℕ → ℕ → StudyPlan → StudyPlan
new_times now day start stop d = record d {
  day_of_week = day;
  start_time = minutes_to_time start;
  end_time = minutes_to_time stop;
  generated_at = now;
}

module _ (mongo : Mongo) (redis : Redis) where
  open mongo use {Collection, find_one, find_sorted, update_one}

  pub record StudyDb : Type 0 where
    pub usage : UsageDb mongo redis
    pub timetable : Collection TimetableEntry
    pub study_plans : Collection StudyPlan

  unfoldable pub replace_all_for_user :
      ℕ → List StudyPlan → Collection StudyPlan → List StudyPlan × Collection StudyPlan
  unfolding replace_all
  replace_all_for_user user_id blocks c = replace_all mongo (is_users user_id) blocks c

  unfoldable pub list_for_user : ℕ → Collection StudyPlan → List StudyPlan
  list_for_user user_id c = find_sorted plan_before (is_users user_id) c

  unfoldable pub replace_block :
      ℕ → (StudyPlan → StudyPlan) → Collection StudyPlan → Option StudyPlan × Collection StudyPlan
  replace_block id fields c =
      let c' = update_one (λ d. d.id == id) fields c in (find_one (λ d. d.id == id) c', c')

  unfoldable pub list_blocks : ℕ → StudyDb → List StudyPlan
  unfolding list_for_user
  list_blocks user_id s = list_for_user user_id s.study_plans

  -- Behind the reservation, by the busy intervals of the timetable.
  unfoldable pub plan_week :
      (ℕ → ℕ)
      → ℕ
      → ℕ
      → ℕ
      → List SubjectInput
      → Option (List BusyInterval)
      → Call StudyDb (List StudyPlan)
  unfolding generate_study_blocks resolve_subjects stored_blocks replace_all_for_user mark_succeeded
      mark_failed
  plan_week ids log_id now user_id subjects none s =
      (err AppError.internal_error, record s { usage = mark_failed mongo redis log_id s.usage })
  plan_week ids log_id now user_id subjects (some busy) s =
      let today = date now in
      let blocks = generate_study_blocks busy subjects today in
      let (docs, c) =
        replace_all_for_user user_id (stored_blocks ids user_id now 0 blocks) s.study_plans in
      (
        ok docs,
        record s { usage = mark_succeeded mongo redis log_id none s.usage; study_plans = c },
      )

  -- `subjects` are those of the request.
  unfoldable pub generate :
      (ℕ → ℕ) → ℕ → ℕ → Period → ℕ → List SubjectInput → Call StudyDb (List StudyPlan)
  unfolding check_and_reserve list_personal busy_of plan_week resolve_subjects
  generate ids log_id now p user_id subjects s =
      let (reserved, u) =
        check_and_reserve mongo redis log_id user_id "study_generate" none p s.usage in
      elim reserved [
        | err e ↦ (err e, record s { usage = u })
        | ok log ↦
            let entries = list_personal mongo user_id s.timetable in
            plan_week ids log now user_id (resolve_subjects subjects (map (λ e. e.subject) entries))
              (busy_of entries) (record s { usage = u })
      ]

  -- `_require_owned` of a block, which the service writes out.
  unfoldable pub own_block :
      (String → Option ℕ) → ℕ → String → Collection StudyPlan → Result StudyPlan
  own_block object_id user_id block_id c = elim (object_id block_id) [
    | none ↦ err AppError.internal_error
    | some id ↦ elim (find_one (λ d. d.id == id) c) [
      | none ↦ err AppError.not_found
      | some d ↦ if is_users user_id d then ok d else err AppError.not_found
    ]
  ]

  abbrev pub replacement_of :
      StudyPlan
      → Option (List BusyInterval)
      → Option (List BusyInterval)
      → Option ℕ
      → Option (Option (ℕ × ℕ × ℕ))
  replacement_of existing (some busy) (some other_busy) (some exclude) =
      some (find_replacement_slot busy other_busy existing.day_of_week exclude)
  replacement_of existing none others exclude = none
  replacement_of existing (some busy) none exclude = none
  replacement_of existing (some busy) (some others) none = none

  -- The try block: none is an error in it.
  unfoldable pub search_slot : ℕ → StudyPlan → StudyDb → Option (Option (ℕ × ℕ × ℕ))
  unfolding list_personal busy_of busy_of_blocks find_replacement_slot list_for_user
  search_slot user_id existing s =
      replacement_of existing (busy_of (list_personal mongo user_id s.timetable))
        (busy_of_blocks
          (filter (λ b. not (b.id == existing.id)) (list_for_user user_id s.study_plans)))
        (time_to_minutes existing.start_time)

  -- Behind the try block.
  unfoldable pub move_block :
      ℕ
      → ℕ
      → Period
      → ℕ
      → ℕ
      → StudyPlan
      → Option (Option (ℕ × ℕ × ℕ))
      → Call StudyDb RegenerateBlockResponse
  unfolding mark_failed mark_succeeded replace_block get_status
  move_block log_id now p user_id regenerate_cap existing none s =
      (err AppError.internal_error, record s { usage = mark_failed mongo redis log_id s.usage })
  move_block log_id now p user_id regenerate_cap existing (some none) s =
      (err AppError.conflict, record s { usage = mark_failed mongo redis log_id s.usage })
  move_block log_id now p user_id regenerate_cap existing (some (some (day, start, stop))) s =
      let (updated, c) = replace_block existing.id (new_times now day start stop) s.study_plans in
      let u = mark_succeeded mongo redis log_id none s.usage in
      let status = get_status mongo redis user_id "study_regenerate" (some regenerate_cap) p u in
      let s' : StudyDb = record s { usage = u; study_plans = c } in
      elim updated [
        | none ↦ (err AppError.internal_error, s')
        | some block ↦ (
          ok (record { block = block; remaining_regenerations = regenerate_cap - status.used }),
          s',
        )
      ]

  unfoldable pub regenerate_block :
      (String → Option ℕ) → ℕ → ℕ → Period → ℕ → ℕ → String → Call StudyDb RegenerateBlockResponse
  unfolding own_block check_and_reserve search_slot move_block
  regenerate_block object_id log_id now p regenerate_cap user_id block_id s =
      elim (own_block object_id user_id block_id s.study_plans) [
        | err e ↦ (err e, s)
        | ok existing ↦
            let (reserved, u) =
              check_and_reserve mongo redis log_id user_id "study_regenerate" (some regenerate_cap)
                p s.usage in
            elim reserved [
              | err e ↦ (err e, record s { usage = u })
              | ok log ↦
                  let s' : StudyDb = record s { usage = u } in
                  move_block log now p user_id regenerate_cap existing
                    (search_slot user_id existing s') s'
            ]
      ]
