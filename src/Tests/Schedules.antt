-- ===== src/Tests/Schedules.antt =====
-- Plans, schedules and reminders around their solvers, on small collections.
use thesdel.Base.{ℕ, ◌+◌, ◌*◌, ◌≡◌, refl, false, true, Option, none, some, String, List, [], ◌∷◌}
use thesdel.Base.Sorting.{sort}
use thesdel.Mongo.{in_memory}
use thesdel.Redis.{no_keys, live_redis}
use thesdel.Auth.Data.{User}
use thesdel.Usage.{Period, check_and_reserve}
use thesdel.Notifications.{Triggers, study_reminder}
use thesdel.Timetable.{OwnerType, TimetableEntry, list_personal}
use thesdel.Time.{time_to_minutes}
use thesdel.Routines.{Routine}
use thesdel.Study.{BusyInterval}
use thesdel.Study.Service as Study
use thesdel.Study.Service.{StudyPlan, StudyDb}
use thesdel.Study.Plan.{Generates, generate-Generates}
use thesdel.Life.Service as Life
use thesdel.Life.Service.{LifeDb, usage_of}
use thesdel.Life.Run.{Runs, run-Runs}
use thesdel.Reminders.Scan.{one_hour, check_study_blocks}
use thesdel.Reminders.Due.{Adds, IsDue, check_study_blocks-Adds}

abbrev june : Period
june = record { key = 24306; start = 100; reset_at = 2000; now = 1500 }

abbrev lesson : TimetableEntry
lesson = record {
  id = 1;
  owner_type = OwnerType.of_user;
  owner_id = 6;
  subject = "Maths";
  day_of_week = 0;
  start_time = 48 ∷ 57 ∷ 58 ∷ 48 ∷ 48 ∷ [];
  end_time = 49 ∷ 48 ∷ 58 ∷ 48 ∷ 48 ∷ [];
  location = none;
  recurrence = none;
}

abbrev plan : StudyPlan
plan = record {
  id = 11;
  user_id = 6;
  subject = "Maths";
  priority = none;
  exam_date = none;
  day_of_week = 0;
  start_time = 49 ∷ 48 ∷ 58 ∷ 48 ∷ 48 ∷ [];
  end_time = 49 ∷ 49 ∷ 58 ∷ 48 ∷ 48 ∷ [];
  generated_at = 5;
}

abbrev studies : StudyDb in_memory live_redis
studies = record {
  usage = record { counters = no_keys; log = [] };
  timetable = lesson ∷ [];
  study_plans = plan ∷ record plan { id = 12; user_id = 7 } ∷ [];
}

abbrev busy : List BusyInterval
busy = record { day_of_week = 0; start_minutes = 540; end_minutes = 600 } ∷ []

abbrev ids : ℕ → ℕ
ids i = 100 + i

generate-Generates_example :
    Generates in_memory live_redis 6 7 studies
      (some busy)
      (Study.generate in_memory live_redis ids 50 1000 june 6 [] studies)
unfolding sort Study.busy_of list_personal time_to_minutes
generate-Generates_example =
    generate-Generates in_memory live_redis ids 50 1000 june 6 7 [] studies refl

abbrev object_id : String → Option ℕ
object_id t = some 11

abbrev gym : Routine
gym = record {
  id = 21;
  user_id = 6;
  label = "Gym";
  days = 0 ∷ [];
  start_time = 48 ∷ 57 ∷ 58 ∷ 51 ∷ 48 ∷ [];
  end_time = 49 ∷ 48 ∷ 58 ∷ 51 ∷ 48 ∷ [];
  is_flexible = false;
}

abbrev lives : LifeDb in_memory live_redis
lives = record {
  keys = no_keys;
  log = [];
  queue = [];
  timetable = lesson ∷ [];
  study_plans = plan ∷ [];
  routines = gym ∷ [];
  life_blocks = [];
}

abbrev text_of : ℕ → String
text_of i = "an id"

run-Runs_example :
    Runs in_memory live_redis true text_of 6 7 lives
      (check_and_reserve in_memory live_redis 50 6 "life_adjust"
        (some 2)
        june
        (usage_of in_memory live_redis lives))
      (Life.run in_memory live_redis true text_of ids 50 1000 june 6 "life_adjust" (some 2) lives)
run-Runs_example =
    run-Runs in_memory live_redis true text_of ids 50 1000 june 6 7 "life_adjust" (some 2) lives
      refl

abbrev mia : User
mia = record {
  id = 6;
  email = "mia@x.org";
  password_hash = none;
  email_verified_at = none;
  display_name = "Mia";
  tier = "premium";
  google_id = none;
}

abbrev triggers : Triggers live_redis
triggers = record { guards = no_keys; queue = [] }

-- One hour before the block of Monday at ten.
abbrev nine : ℕ
nine = (8 * 24 + 9) * 3600000000

check_study_blocks-Adds_example :
    Adds in_memory live_redis true one_hour nine
      (IsDue in_memory live_redis true one_hour nine (plan ∷ []) (mia ∷ []))
      triggers
      (check_study_blocks in_memory live_redis true one_hour nine (mia ∷ []) (plan ∷ []) triggers).1
check_study_blocks-Adds_example =
    check_study_blocks-Adds in_memory live_redis true one_hour nine (mia ∷ []) (plan ∷ []) triggers

reminded :
    (check_study_blocks in_memory live_redis true one_hour nine
      (mia ∷ [])
      (plan ∷ [])
      triggers).1.queue
    ≡ record { user_id = 6; kind = study_reminder "1hour" 11 "Maths" } ∷ []
unfolding check_study_blocks
reminded = refl
