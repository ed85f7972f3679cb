-- ===== src/Tests/Requests.antt =====
-- Timetables, routines and the routes of accounts on small collections.
use thesdel.Base.{
  ℕ, Bool, ◌≡◌, refl, false, true, Option, none, some, String, List, [], ◌∷◌, ◌++◌, if◌then◌else◌,
  str_eq, arith, IsKeyed,
}
use thesdel.Mongo.{in_memory}
use thesdel.Redis.{no_keys, live_redis}
use thesdel.Access.{CurrentUser, tier_level}
use thesdel.Auth.Data.{User, Purpose, AuthToken, EmailJob, AuthConfig, TokenPair, Draws}
use thesdel.Auth.Accounts as Accounts
use thesdel.Auth.Jobs.{MailDb, tries, tries_once}
use thesdel.Auth.Routes.{RateSettings, SiteDb}
use thesdel.Auth.Throttle.{Service, IsLimited, after, after-IsLimited}
use thesdel.Announcements.{}
use thesdel.Timetable.{OwnerType, TimetableEntry, TimetableEntryCreate, TimetableEntryUpdate}
use thesdel.Timetable.Owners.{entries, serve_entry, serve_entry-Serves}
use thesdel.Documents.{Kind, Request, Serves, on_own}
use thesdel.Routines.{Routine}
use thesdel.Routines.Owners.{routines, serve_routine, serve_routine-Serves}

abbrev object_id : String → Option ℕ
object_id t = if str_eq t "c5" then some 5 else if str_eq t "a1" then some 1 else none

abbrev eve : CurrentUser
eve = record { id = 6; tier = "free"; email = "eve@x.org"; display_name = "Eve" }

abbrev lesson : TimetableEntry
lesson = record {
  id = 1;
  owner_type = OwnerType.of_user;
  owner_id = 6;
  subject = "Maths";
  day_of_week = 0;
  start_time = 48 ∷ 57 ∷ 58 ∷ 48 ∷ 48 ∷ [];
  end_time = 49 ∷ 48 ∷ 58 ∷ 48 ∷ 48 ∷ [];
  location = none;
  recurrence = none;
}

abbrev lessons : List TimetableEntry
lessons = lesson ∷ record lesson { id = 2; owner_id = 7 } ∷ []

lessons-IsKeyed : IsKeyed (λ e. e.id) lessons
lessons-IsKeyed = (((λ e. omega arith), tt), (tt, tt))

abbrev new_day : TimetableEntryUpdate
new_day = record {
  subject = none;
  day_of_week = some 3;
  start_time = none;
  end_time = none;
  location = none;
  recurrence = some none;
}

abbrev lessons_of : Kind TimetableEntry TimetableEntryCreate TimetableEntryUpdate
lessons_of = entries 6 OwnerType.of_user 7 refl

serve_entry-Serves_example :
    Serves lessons_of object_id in_memory lessons
      (on_own lessons_of object_id (Request.updates "a1" new_day) (lesson ∷ []))
      (serve_entry object_id 6 in_memory (Request.updates "a1" new_day) lessons)
serve_entry-Serves_example =
    serve_entry-Serves object_id 6 in_memory OwnerType.of_user 7 refl lessons lessons-IsKeyed
      (Request.updates "a1" new_day)

abbrev gym : Routine
gym = record {
  id = 1;
  user_id = 6;
  label = "Gym";
  days = 0 ∷ [];
  start_time = 48 ∷ 57 ∷ 58 ∷ 51 ∷ 48 ∷ [];
  end_time = 49 ∷ 48 ∷ 58 ∷ 51 ∷ 48 ∷ [];
  is_flexible = false;
}

abbrev habits : List Routine
habits = gym ∷ record gym { id = 2; user_id = 7 } ∷ []

habits-IsKeyed : IsKeyed (λ r. r.id) habits
habits-IsKeyed = (((λ e. omega arith), tt), (tt, tt))

abbrev zoe : CurrentUser
zoe = record { id = 6; tier = "pro"; email = "zoe@x.org"; display_name = "Zoe" }

serve_routine-Serves_example :
    Serves
      (routines 6 7 refl)
      object_id
      in_memory
      habits
      (on_own (routines 6 7 refl) object_id (Request.deletes "a1") (gym ∷ []))
      (serve_routine object_id in_memory zoe (Request.deletes "a1") habits)
unfolding tier_level
serve_routine-Serves_example =
    serve_routine-Serves object_id in_memory zoe 7 refl habits habits-IsKeyed (Request.deletes "a1")

abbrev config : AuthConfig
config = record {
  refresh_token_ttl = 2592000;
  email_verification_ttl = 86400;
  password_reset_ttl = 3600;
  lower = λ t. t;
  hash_opaque_token = λ t. t;
  hash_password = λ t. t;
  verify_password = λ p h. str_eq p h;
  create_access_token = λ user tier. tier;
}

abbrev mailed : AuthToken
mailed = record {
  id = 7;
  user_id = 6;
  purpose = Purpose.password_reset;
  token_hash = "reset";
  created_at = 10;
  expires_at = 2000;
  used_at = some 15;
  sent_at = none;
}

abbrev mail : EmailJob
mail = record {
  purpose = Purpose.password_reset;
  user_id = 6;
  email = "eve@x.org";
  token = "reset";
}

abbrev mails : MailDb in_memory config
mails = record { auth_tokens = mailed ∷ []; outbox = [] }

abbrev deliveries : List (Bool × ℕ × ℕ)
deliveries = (false, 1, 20) ∷ (true, 2, 22) ∷ (true, 1, 30) ∷ []

tries_once_example : (tries in_memory config deliveries mail mails).outbox ≡ [] ++ mail ∷ []
tries_once_example = tries_once in_memory config deliveries mail mails mailed ((tt, tt)) refl refl

abbrev settings : RateSettings
settings = record {
  rate_limit_login_max = 2;
  rate_limit_login_window_seconds = 60;
  rate_limit_verification_max = 3;
  rate_limit_verification_window_seconds = 600;
  rate_limit_password_reset_max = 3;
  rate_limit_password_reset_window_seconds = 600;
}

abbrev draws : Draws
draws = record {
  now = 1000;
  stamp = 1001;
  user_id = 20;
  session_id = 30;
  refresh_token = "next";
  family_id = "g";
  token_id = 40;
  token = "mailed";
  queue_up = true;
}

abbrev site : SiteDb in_memory live_redis config settings
site = record {
  accounts = record { users = []; sessions = []; auth_tokens = []; queue = [] };
  keys = no_keys;
}

abbrev guess : String → Service in_memory live_redis config settings (TokenPair × User)
guess password a = Accounts.login in_memory config draws "eve@x.org" password none a

abbrev guesses : List (Service in_memory live_redis config settings (TokenPair × User))
guesses = guess "a" ∷ guess "b" ∷ guess "c" ∷ []

after-IsLimited_example :
    IsLimited in_memory live_redis config settings "10.0.0.1" "login" none none guesses site
      (after in_memory live_redis config settings "10.0.0.1" "login" none none guesses site)
after-IsLimited_example =
    after-IsLimited in_memory live_redis config settings "10.0.0.1" "login" none none guesses site
