-- ===== src/Seeding.antt =====
-- migrations/0001_seed_progression_badges.py: the badges that the migration seeds, once. The
-- dictionary of families is the list of its badges in order, `True` is the number 1, and the id that
-- an insert draws is a parameter, by family and name. MongoDB is up, or the run stops where it
-- fails: `interrupted`.
pub mod Once
use thesdel.Base.{ℕ, suc, Bool, ◌&&◌, none, some, String, List, [], ◌∷◌, take, str_eq}
use thesdel.Mongo.{Mongo}
use thesdel.Time.{Text}
use thesdel.Progression.{Badge, Value, number, text}

pub record SeedBadge : Type 0 where
  pub family : String
  pub name : String
  pub criteria_type : String
  pub criteria_value : Value

abbrev pub seed : String → String → String → Value → SeedBadge
seed family name criteria_type criteria_value = record {
  family = family;
  name = name;
  criteria_type = criteria_type;
  criteria_value = criteria_value;
}

abbrev pub premium : Text
premium = b'p' ∷ b'r' ∷ b'e' ∷ b'm' ∷ b'i' ∷ b'u' ∷ b'm' ∷ []

abbrev pub pro : Text
pro = b'p' ∷ b'r' ∷ b'o' ∷ []

-- `_SEED_BADGES`
unfoldable pub seed_badges : List SeedBadge
seed_badges =
    seed "onboarding" "Welcome Aboard" "signup_completed" (number 1)
    ∷ seed "onboarding" "Profile Complete" "profile_fields_filled" (number 5)
    ∷ seed "timetable" "First Timetable" "timetable_entries_created" (number 1)
    ∷ seed "timetable" "Fully Scheduled" "timetable_entries_created" (number 20)
    ∷ seed "classes" "Class Joined" "classes_joined" (number 1)
    ∷ seed "classes" "Class Rep" "classes_created" (number 1)
    ∷ seed "announcements" "First Post" "announcements_posted" (number 1)
    ∷ seed "announcements" "Active Voice" "announcements_posted" (number 10)
    ∷ seed "study_litheral" "Study Plan Generated" "study_plans_generated" (number 1)
    ∷ seed "study_litheral" "Study Regular" "study_sessions_completed" (number 10)
    ∷ seed "life_litheral" "Life Scheduled" "life_schedules_generated" (number 1)
    ∷ seed "routines" "Routine Set" "routines_created" (number 1)
    ∷ seed "routines" "Routine Master" "routines_created" (number 6)
    ∷ seed "usage_engagement" "Power User Week" "consecutive_active_days" (number 7)
    ∷ seed "streaks" "Streak Starter" "partner_streak_days" (number 3)
    ∷ seed "streaks" "Streak Champion" "partner_streak_days" (number 30)
    ∷ seed "score_milestones" "First Points" "thesdel_score_reached" (number 100)
    ∷ seed "score_milestones" "Rising Star" "thesdel_score_reached" (number 1000)
    ∷ seed "seasons" "Season Participant" "seasons_participated" (number 1)
    ∷ seed "consistency" "Weekly Regular" "weeks_active" (number 4)
    ∷ seed "billing" "Went Premium" "tier_upgraded_to" (text premium)
    ∷ seed "billing" "Went Pro" "tier_upgraded_to" (text pro)
    ∷ seed "referrals" "First Referral" "referrals_completed" (number 1)
    ∷ seed "exploration" "Explorer" "features_used" (number 5)
    ∷ seed "feedback" "Feedback Given" "feedback_submitted" (number 1)
    ∷ seed "loyalty" "One Month In" "days_since_signup" (number 30)
    ∷ seed "loyalty" "One Year In" "days_since_signup" (number 365)
    ∷ []

abbrev pub migration_id : String
migration_id = "0001_seed_progression_badges"

-- A document of `schema_migrations`.
pub record Applied : Type 0 where
  pub id : String
  pub applied_at : ℕ
  pub badges_inserted : ℕ

abbrev pub is_named : String → String → Badge → Bool
is_named family name b = str_eq b.family family && str_eq b.name name

abbrev pub new_badge : ℕ → SeedBadge → Badge
new_badge id s = record {
  id = id;
  family = s.family;
  name = s.name;
  criteria_type = s.criteria_type;
  criteria_value = s.criteria_value;
}

module _ (mongo : Mongo) where
  open mongo use {Collection, docs, find_one, insert_one}

  pub record SeedDb : Type 0 where
    pub badges : Collection Badge
    pub schema_migrations : Collection Applied

  -- The two loops: how many badges were inserted, and the badges.
  unfoldable pub seed_each :
      (String → String → ℕ) → List SeedBadge → Collection Badge → ℕ × Collection Badge
  seed_each ids [] c = (0, c)
  seed_each ids (s ∷ ss) c = elim (find_one (is_named s.family s.name) c) [
    | some existing ↦ seed_each ids ss c
    | none ↦
        let (inserted, c') = seed_each ids ss (insert_one (new_badge (ids s.family s.name) s) c) in
        (suc inserted, c')
  ]

  unfoldable pub run : (String → String → ℕ) → ℕ → SeedDb → SeedDb
  unfolding seed_each
  run ids now s = elim (find_one (λ m. str_eq m.id migration_id) s.schema_migrations) [
    | some already_ran ↦ s
    | none ↦
        let (inserted, c) = seed_each ids seed_badges s.badges in
        record {
          badges = c;
          schema_migrations =
              insert_one
                (record { id = migration_id; applied_at = now; badges_inserted = inserted })
                s.schema_migrations;
        }
  ]

  -- A run that stops behind the first badges, with the marker still to be written.
  unfoldable pub interrupted : (String → String → ℕ) → ℕ → SeedDb → SeedDb
  unfolding seed_each
  interrupted ids k s = record s { badges = (seed_each ids (take k seed_badges) s.badges).1 }
