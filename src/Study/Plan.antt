-- ===== src/Study/Plan.antt =====
-- `LitheralStudyService.generate` from end to end: the plan that is stored, read back as times.
use thesdel.Base.{
  ℕ, suc, ◌+◌, ◌≤◌, ◌<◌, ◌≡◌, refl, sym, ap, ◌∙◌, true, false, Option, none, some, List, [], ◌∷◌,
  All, filter, map, ◌==◌, arith, subst,
}
use thesdel.Errors.{AppError, Result, ok, err}
use thesdel.Mongo.{Mongo}
use thesdel.Mongo.Replace.{replace_all-returned, replace_all-mine, replace_all-other}
use thesdel.Redis.{Redis}
use thesdel.Reminders.Occurrence.{date}
use thesdel.Time.{time_to_minutes}
use thesdel.Time.RoundTrip.{time_to_minutes-minutes_to_time}
use thesdel.Timetable.{list_personal}
use thesdel.Usage.{Period, check_and_reserve, log_attempt}
use thesdel.Study.Defs.{
  BusyInterval, SubjectInput, StudyBlock, generate_study_blocks, max_block_minutes,
}
use thesdel.Study.Free.{IsFreeSlot}
use thesdel.Study.Week.{IsScheduled, generate_study_blocks-IsScheduled}
use thesdel.Study.Subjects.{resolve_subjects}
use thesdel.Study.Service.{
  StudyPlan, StudyDb, stored_block, stored_blocks, is_users, busy_of, plan_week, generate,
  replace_all_for_user,
}

-- A stored block whose times, read back, are those of a free slot of at most 60 minutes.
pub record IsBooked (busy : List BusyInterval) (d : StudyPlan) : Type 0 where
  pub start : ℕ
  pub stop : ℕ
  pub starts : time_to_minutes d.start_time ≡ some start
  pub stops : time_to_minutes d.end_time ≡ some stop
  pub free : IsFreeSlot busy d.day_of_week start stop
  pub short : stop ≤ start + max_block_minutes

-- On a day of the week, too.
abbrev pub IsPlanned : List BusyInterval → StudyPlan → Type 0
IsPlanned busy d = (d.day_of_week < 7) × IsBooked busy d

stored_block-IsPlanned :
    (busy : List BusyInterval) (id user_id now : ℕ) (b : StudyBlock)
    → IsScheduled busy 0 7 b
    → IsPlanned busy (stored_block id user_id now b)
stored_block-IsPlanned busy id user_id now b h = (
  h.1,
  record {
    start = b.start_minutes;
    stop = b.end_minutes;
    starts = time_to_minutes-minutes_to_time b.start_minutes;
    stops = time_to_minutes-minutes_to_time b.end_minutes;
    free = h.2;
    short = h.3;
  },
)

stored_blocks-IsPlanned :
    (busy : List BusyInterval) (ids : ℕ → ℕ) (user_id now i : ℕ) (bs : List StudyBlock)
    → All (IsScheduled busy 0 7) bs
    → All (IsPlanned busy) (stored_blocks ids user_id now i bs)
unfolding stored_blocks
stored_blocks-IsPlanned busy ids user_id now i [] h = tt
stored_blocks-IsPlanned busy ids user_id now i (b ∷ bs) h = (
  stored_block-IsPlanned busy (ids i) user_id now b h.0,
  stored_blocks-IsPlanned busy ids user_id now (suc i) bs h.1,
)

stored_mine :
    (ids : ℕ → ℕ) (user_id now i : ℕ) (bs : List StudyBlock)
    → All (λ d. is_users user_id d ≡ true) (stored_blocks ids user_id now i bs)
unfolding stored_blocks
stored_mine ids user_id now i [] = tt
stored_mine ids user_id now i (b ∷ bs) = (ground arith, stored_mine ids user_id now (suc i) bs)

stored_not_other :
    (other : ℕ) (ids : ℕ → ℕ) (user_id now i : ℕ) (bs : List StudyBlock)
    → (other == user_id) ≡ false
    → All (λ d. is_users other d ≡ false) (stored_blocks ids user_id now i bs)
unfolding stored_blocks
stored_not_other other ids user_id now i [] h = tt
stored_not_other other ids user_id now i (b ∷ bs) h =
    (ground arith, stored_not_other other ids user_id now (suc i) bs h)

module _ (mongo : Mongo) (redis : Redis) where
  open mongo use {Collection, docs}

  abbrev pub plans_of : ℕ → StudyDb mongo redis → List StudyPlan
  plans_of user_id s = filter (is_users user_id) (docs s.study_plans)

  -- The busy intervals of the user's entries.
  abbrev pub busy_times : ℕ → StudyDb mongo redis → Option (List BusyInterval)
  busy_times user_id s = busy_of (list_personal mongo user_id s.timetable)

  -- How a generation ends, by the busy intervals of the user's entries.
  abbrev pub Generates :
      ℕ
      → ℕ
      → StudyDb mongo redis
      → Option (List BusyInterval)
      → Result (List StudyPlan) × StudyDb mongo redis
      → Type 0
  Generates user_id other s none out =
      (out.0 ≡ err AppError.internal_error)
      × ((out.1).study_plans ≡ s.study_plans)
      × ((out.1).timetable ≡ s.timetable)
  Generates user_id other s (some busy) out =
      (out.0 ≡ ok (plans_of user_id out.1))
      × All (IsPlanned busy) (plans_of user_id out.1)
      × (plans_of other out.1 ≡ plans_of other s)
      × ((out.1).timetable ≡ s.timetable)

  plan_week-Generates :
      (ids : ℕ → ℕ) (log_id now user_id other : ℕ) (subjects : List SubjectInput)
      (busy : Option (List BusyInterval)) (s : StudyDb mongo redis)
      → (other == user_id) ≡ false
      → Generates user_id other s busy
          (plan_week mongo redis ids log_id now user_id subjects busy s)
  unfolding plan_week replace_all_for_user
  plan_week-Generates ids log_id now user_id other subjects none s h = (refl, refl, refl)
  plan_week-Generates ids log_id now user_id other subjects (some busy) s h =
      let blocks = generate_study_blocks busy subjects (date now) in
      let plan = stored_blocks ids user_id now 0 blocks in
      let mine =
        replace_all-mine mongo (is_users user_id) plan s.study_plans
          (stored_mine ids user_id now 0 blocks) in
      (
        ap ok (replace_all-returned mongo (is_users user_id) plan s.study_plans ∙ sym mine),
        subst (All (IsPlanned busy)) (sym mine) (
            stored_blocks-IsPlanned busy ids user_id now 0 blocks
              (generate_study_blocks-IsScheduled busy subjects (date now))),
        replace_all-other mongo (is_users user_id) (is_users other) plan s.study_plans
            (λ d e. ground arith) (stored_not_other other ids user_id now 0 blocks h),
        refl,
      )

  -- Generating a plan answers with what the user's plan then is: blocks whose times, read back, lie
  -- in the study window, last 30 to 60 minutes and meet no entry of the user's timetable. The plans
  -- of the other users stay, and no timetable changes. Where the time of an entry does not parse,
  -- the call fails and the old plan stays.
  pub generate-Generates :
      (ids : ℕ → ℕ) (log_id now : ℕ) (p : Period) (user_id other : ℕ) (subjects : List SubjectInput)
      (s : StudyDb mongo redis)
      → (other == user_id) ≡ false
      → Generates user_id other s
          (busy_times user_id s)
          (generate mongo redis ids log_id now p user_id subjects s)
  unfolding generate check_and_reserve log_attempt
  generate-Generates ids log_id now p user_id other subjects s h =
      plan_week-Generates ids log_id now user_id other
        (resolve_subjects subjects (map (λ e. e.subject) (list_personal mongo user_id s.timetable)))
        (busy_times user_id s)
        (record s {
          usage = (check_and_reserve mongo redis log_id user_id "study_generate" none p s.usage).1;
        })
        h
