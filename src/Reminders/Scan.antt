-- ===== src/Reminders/Scan.antt =====
-- The two scans for blocks that start soon. One clock reading is `now`, in microseconds; MongoDB is
-- up, and a start time that is none of a day is an error that ends the scan.
use thesdel.Base.{
  ℕ, ◌+◌, ◌*◌, Bool, true, false, ◌&&◌, ◌||◌, Option, none, some, String, List, [], ◌∷◌, ltb, leb,
  ◌==◌, if◌then◌else◌, str_eq,
}
use thesdel.Errors.{AppError, ok, err, Call}
use thesdel.Mongo.{Mongo}
use thesdel.Redis.{Redis, Key, reminder}
use thesdel.Time.{Text, split_colon, int}
use thesdel.Auth.Data.{User}
use thesdel.Notifications.{Triggers, study_reminder, enqueue_push}
use thesdel.Study.Service.{StudyPlan}
use thesdel.Reminders.Occurrence.{minute, next_occurrence}

abbrev pub start_parts : Text → List Text → Option (ℕ × ℕ)
start_parts hours (minutes ∷ []) = both_numbers (int hours) (int minutes)
  where
    both_numbers : Option ℕ → Option ℕ → Option (ℕ × ℕ)
    both_numbers (some h) (some m) = some (h, m)
    both_numbers none m = none
    both_numbers (some h) none = none
start_parts hours parts = none

-- `time(hour=..., minute=...)` wants an hour and a minute of a day.
abbrev pub occurrence_at : ℕ → ℕ → Option (ℕ × ℕ) → Option ℕ
occurrence_at day_of_week reference none = none
occurrence_at day_of_week reference (some (h, m)) =
    if ltb h 24 && ltb m 60 then some (next_occurrence day_of_week h m reference) else none

unfoldable pub block_occurrence : StudyPlan → ℕ → Option ℕ
unfolding next_occurrence split_colon int
block_occurrence block reference =
    let (hours, parts) = split_colon block.start_time in
    occurrence_at block.day_of_week reference (start_parts hours parts)

-- A window of reminders: its name, how long its guards last, and how far from now it reaches.
pub record Window : Type 0 where
  pub name : String
  pub dedup_ttl : ℕ
  pub opens : ℕ
  pub closes : ℕ

abbrev pub one_day : Window
one_day = record {
  name = "1day";
  dedup_ttl = 24 * 60 * 60;
  opens = 23 * 60 * minute;
  closes = 25 * 60 * minute;
}

abbrev pub one_hour : Window
one_hour = record { name = "1hour"; dedup_ttl = 60 * 60; opens = 55 * minute; closes = 65 * minute }

-- `{"tier": {"$in": ["premium", "pro"]}}`
abbrev pub is_paying : User → Bool
is_paying u = str_eq u.tier "premium" || str_eq u.tier "pro"

-- `target_start <= next_occurrence <= target_end`
abbrev pub is_within : Window → ℕ → ℕ → Bool
is_within w now t = leb (now + w.opens) t && leb t (now + w.closes)

module _ (mongo : Mongo) (redis : Redis) (queue_up : Bool) (w : Window) (now : ℕ) where
  open mongo use {Collection, find_many}
  open redis use {Db, set_nx}

  -- A Redis that is down lets the reminder through.
  unfoldable pub first_reminder : Key → ℕ → Db → Bool × Db
  first_reminder key ttl s = elim (set_nx key ttl s) [ none ↦ (true, s) | some r ↦ r ]

  -- Behind the guard.
  unfoldable pub push_if : Bool → ℕ → StudyPlan → Triggers redis → Triggers redis
  unfolding enqueue_push
  push_if false user_id block s = s
  push_if true user_id block s = record s {
    queue =
        enqueue_push queue_up
          (record { user_id = user_id; kind = study_reminder w.name block.id block.subject })
          s.queue;
  }

  -- A block of the loop, by its next occurrence.
  unfoldable pub remind : ℕ → StudyPlan → ℕ → Triggers redis → Triggers redis
  unfolding first_reminder push_if
  remind user_id block t s =
      if is_within w now t
      then (let (first, g) =
            first_reminder (reminder w.name user_id block.id) w.dedup_ttl s.guards in
          push_if first user_id block (record s { guards = g }))
      else s

  unfoldable pub remind_each : ℕ → List StudyPlan → Call (Triggers redis) (Unit {0})
  unfolding remind block_occurrence
  remind_each user_id [] s = (ok tt, s)
  remind_each user_id (b ∷ bs) s = elim (block_occurrence b (now + w.opens)) [
    | none ↦ (err AppError.internal_error, s)
    | some t ↦ remind_each user_id bs (remind user_id b t s)
  ]

  -- `_check_and_notify_for_user`
  unfoldable pub check_and_notify_for_user :
      Collection StudyPlan → ℕ → Call (Triggers redis) (Unit {0})
  unfolding remind_each
  check_and_notify_for_user plans user_id s =
      remind_each user_id (find_many (λ b. b.user_id == user_id) plans) s

  unfoldable pub check_users : Collection StudyPlan → List User → Call (Triggers redis) (Unit {0})
  unfolding check_and_notify_for_user
  check_users plans [] s = (ok tt, s)
  check_users plans (u ∷ us) s =
      let (r, s') = check_and_notify_for_user plans u.id s in
      elim r [ err e ↦ (err e, s') | ok done ↦ check_users plans us s' ]

  -- `check_study_blocks_1day_before` and `check_study_blocks_1hour_before`, by their window.
  unfoldable pub check_study_blocks :
      Collection User → Collection StudyPlan → Call (Triggers redis) (Unit {0})
  unfolding check_users
  check_study_blocks users plans s = check_users plans (find_many is_paying users) s
