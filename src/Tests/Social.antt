-- ===== src/Tests/Social.antt =====
-- Scores, badges, streaks and classes on small collections.
use thesdel.Base.{
  ℕ, ◌≡◌, refl, ◌⊎◌, true, false, Option, none, some, String, [], ◌∷◌, str_eq, if◌then◌else◌, All,
  any, length,
}
use thesdel.Mongo.{in_memory}
use thesdel.Progression.{
  User, Value, Badge, ProgressionDb, has_badge, list_by_criteria_type, evaluate_and_award,
}
use thesdel.Progression.Awards.{HoldsMet, evaluate_and_award_twice}
use thesdel.Seeding.{SeedDb, seed_badges, run, interrupted}
use thesdel.Seeding.Once.{is_seed, at_least_one, copies, run-interrupted}
use thesdel.Streaks.Data.{StreakStatus, Streak, day_length}
use thesdel.Streaks.Service.{StreakDb, find_pair, invite, accept, check_in_found}
use thesdel.Streaks.OptIn.{IsInvitation, invite_writes, IsAcceptance, accept_writes}
use thesdel.Streaks.CheckIn.{ChecksIn, check_in_found_counts}
use thesdel.Classes.{ClassDoc, ClassDb, join_class}
use thesdel.Classes.Members.{IsCounted, join_class-IsCounted}

abbrev ada : User
ada = record { id = 1; thesdel_score = 95; rank = "Unranked" }

abbrev bob : User
bob = record { id = 2; thesdel_score = 0; rank = "Unranked" }

abbrev week_badge : Badge
week_badge = record {
  id = 9;
  family = "streak";
  name = "Week";
  criteria_type = "streak_days";
  criteria_value = Value.number 7;
}

abbrev progression : ProgressionDb in_memory
progression = record {
  users = ada ∷ bob ∷ [];
  badges = week_badge ∷ [];
  user_badges = [];
  seasons = [];
}

evaluate_and_award_twice_example :
    let (ids, s') =
      evaluate_and_award in_memory (λ b. 50) 1 "streak_days" (Value.number 8) progression in
    HoldsMet in_memory 1
      (Value.number 8)
      (list_by_criteria_type in_memory "streak_days" progression)
      s'
    × All
        (λ id.
          (has_badge in_memory 1 id progression ≡ false) × (has_badge in_memory 1 id s' ≡ true))
        ids
    × ((other : ℕ)
        → has_badge in_memory 1 other progression ≡ true
        → has_badge in_memory 1 other s' ≡ true)
    × (evaluate_and_award in_memory (λ b. 60) 1 "streak_days" (Value.number 8) s' ≡ ([], s'))
evaluate_and_award_twice_example =
    evaluate_and_award_twice in_memory (λ b. 50) (λ b. 60) 1 "streak_days" (Value.number 8)
      progression

abbrev object_id : String → Option ℕ
object_id t = if str_eq t "ada" then some 1 else if str_eq t "bob" then some 2 else none

abbrev no_streaks : StreakDb in_memory
no_streaks = record { streaks = []; progression = progression }

-- Ada's invitation to Bob.
abbrev invited : StreakDb in_memory
invited = (invite in_memory object_id 70 "ada" "bob" no_streaks).1

abbrev six_days : Streak
six_days = record {
  id = 70;
  user_a = 1;
  user_b = 2;
  invited_by = 1;
  current_streak = 6;
  last_interaction_at = some 5;
  status = StreakStatus.active;
}

abbrev running : StreakDb in_memory
running = record { streaks = six_days ∷ []; progression = progression }

invite_writes_example :
    (invited ≡ no_streaks) ⊎ IsInvitation in_memory object_id 70 "ada" "bob" no_streaks invited
invite_writes_example = invite_writes in_memory object_id 70 "ada" "bob" no_streaks

accept_writes_example :
    let s' = (accept in_memory object_id 80 "bob" "ada" invited).1 in
    (s' ≡ invited) ⊎ IsAcceptance in_memory object_id 80 "bob" "ada" invited s'
accept_writes_example = accept_writes in_memory object_id 80 "bob" "ada" invited

running_pair : find_pair in_memory 1 2 running ≡ some six_days
unfolding find_pair
running_pair = refl

-- The seventh day, a milestone: both scores grow.
check_in_found_counts_example :
    ChecksIn in_memory day_length day_length 2 1 2 six_days running
      (check_in_found in_memory day_length day_length 2 1 2 six_days running)
check_in_found_counts_example =
    check_in_found_counts in_memory day_length day_length 2 1 2 six_days running (tt, tt)
      running_pair

abbrev class_doc : ClassDoc
class_doc = record { id = 3; name = "CS"; created_by = 1; join_code = "ABC"; member_count = 1 }

abbrev classes : ClassDb in_memory (λ t. t)
classes = record {
  classes = class_doc ∷ [];
  members = record { class_id = 3; user_id = 1; role = "rep" } ∷ [];
}

classes-IsCounted : IsCounted in_memory (λ t. t) classes
classes-IsCounted = (refl, tt)

join_class-IsCounted_example :
    IsCounted in_memory (λ t. t) (join_class in_memory (λ t. t) false "ABC" 2 classes).1
join_class-IsCounted_example =
    join_class-IsCounted in_memory (λ t. t) false "ABC" 2 classes (tt, tt) classes-IsCounted

abbrev unseeded : SeedDb in_memory
unseeded = record { badges = week_badge ∷ []; schema_migrations = [] }

abbrev seed_ids : String → String → ℕ
seed_ids family name = 100

run-interrupted_example :
    let t = run in_memory seed_ids 5 (interrupted in_memory seed_ids 3 unseeded) in
    (copies in_memory "streaks" "Streak Starter" t.badges
      ≡ at_least_one
          (any (is_seed "streaks" "Streak Starter") seed_badges)
          (copies in_memory "streaks" "Streak Starter" (week_badge ∷ [])))
    × (run in_memory seed_ids 6 t ≡ t)
run-interrupted_example =
    run-interrupted in_memory seed_ids seed_ids seed_ids 5 6 3 "streaks" "Streak Starter" unseeded
      refl

-- All 27 badges are added to the one that was there.
seeded : length (run in_memory seed_ids 5 unseeded).badges ≡ 28
unfolding run seed_badges
seeded = refl
