-- ===== src/Progression.antt =====
-- app/progression/service.py and app/progression/repository.py: badges, the score, the rank and
-- the seasons. An ObjectId is a number and a moment a number of microseconds.
pub mod Rank
pub mod Score
pub mod Awards
pub mod Lists
use thesdel.Base.{
  ℕ, zero, suc, ◌+◌, Bool, true, false, not, ◌&&◌, ◌||◌, Option, none, some, String, List, [], ◌∷◌,
  ◌++◌, leb, ◌==◌, if◌then◌else◌, str_eq, is_some, find,
}
use thesdel.Errors.{AppError, Result, ok, err, Call}
use thesdel.Mongo.{Mongo}
use thesdel.Time.{Text, text_lt}

abbrev pub rank_thresholds : List (ℕ × String)
rank_thresholds =
    (0, "Unranked") ∷ (100, "Rising") ∷ (500, "Contender") ∷ (2000, "Elite") ∷ (5000, "Legend") ∷ []

-- The loop over the thresholds, from the rank so far.
unfoldable pub rank_from : ℕ → String → List (ℕ × String) → String
rank_from score rank [] = rank
rank_from score rank ((threshold, tier) ∷ rest) =
    rank_from score (if leb threshold score then tier else rank) rest

unfoldable pub compute_rank : ℕ → String
unfolding rank_from
compute_rank score = rank_from score "Unranked" rank_thresholds

-- The two fields of a user that this module owns.
pub record User : Type 0 where
  pub id : ℕ
  pub thesdel_score : ℕ
  pub rank : String

-- A criterion's value: a number (a bool counts as 0 or 1) or a text.
pub data Value : Type 0 where
  number : ℕ → Value
  text : Text → Value

pub record Badge : Type 0 where
  pub id : ℕ
  pub family : String
  pub name : String
  pub criteria_type : String
  pub criteria_value : Value

pub record UserBadge : Type 0 where
  pub user_id : ℕ
  pub badge_id : ℕ
  pub earned_at : ℕ

pub record Season : Type 0 where
  pub id : ℕ
  pub start_date : ℕ
  pub end_date : ℕ

-- `current_value >= criteria_value`; values of two kinds are a TypeError, and then are not equal.
unfoldable pub criteria_met : Value → Value → Bool
criteria_met (Value.number c) (Value.number v) = leb c v
criteria_met (Value.text c) (Value.text v) = not (text_lt v c)
criteria_met c v = false

abbrev pub badge_catalog_hard_cap : ℕ
badge_catalog_hard_cap = 500

-- `.limit(n)`
unfoldable pub limit {ℓ} : {A : Type ℓ} → ℕ → List A → List A
limit zero xs = []
limit (suc n) [] = []
limit (suc n) (x ∷ xs) = x ∷ limit n xs

abbrev pub is_award : ℕ → ℕ → UserBadge → Bool
is_award user badge a = (a.user_id == user) && (a.badge_id == badge)

abbrev pub add_to_score : ℕ → User → User
add_to_score amount u = record u { thesdel_score = u.thesdel_score + amount }

module _ (mongo : Mongo) where
  open mongo use {Collection, docs, find_one, find_many, insert_one, insert_unique, update_one}

  pub record ProgressionDb : Type 0 where
    pub users : Collection User
    pub badges : Collection Badge
    pub user_badges : Collection UserBadge
    pub seasons : Collection Season

  unfoldable pub find_badge : ℕ → ProgressionDb → Option Badge
  find_badge badge s = find_one (λ b. b.id == badge) s.badges

  unfoldable pub list_by_criteria_type : String → ProgressionDb → List Badge
  unfolding limit
  list_by_criteria_type kind s =
      limit badge_catalog_hard_cap (find_many (λ b. str_eq b.criteria_type kind) s.badges)

  -- `UserBadgeRepository.has_badge`
  unfoldable pub has_badge : ℕ → ℕ → ProgressionDb → Bool
  has_badge user badge s = is_some (find_one (is_award user badge) s.user_badges)

  -- `UserBadgeRepository.award`: a duplicate key is success, and awards nothing.
  unfoldable pub award : ℕ → ℕ → ℕ → ProgressionDb → Bool × ProgressionDb
  award now user badge s =
      elim (insert_unique (is_award user badge)
        (record { user_id = user; badge_id = badge; earned_at = now }) s.user_badges) [
          | none ↦ (false, s)
          | some c ↦ (true, record s { user_badges = c })
        ]

  unfoldable pub award_badge : ℕ → ℕ → ℕ → Call ProgressionDb Bool
  unfolding find_badge has_badge award
  award_badge now user badge s = elim (find_badge badge s) [
    | none ↦ (err AppError.not_found, s)
    | some b ↦
        if has_badge user badge s
        then (ok false, s)
        else (let (awarded, s') = award now user badge s in (ok awarded, s'))
  ]

  -- The loop of `evaluate_and_award` over the candidates; each award has a moment of its own.
  unfoldable pub award_each :
      (ℕ → ℕ) → ℕ → Value → List Badge → ProgressionDb → List ℕ × ProgressionDb
  unfolding criteria_met has_badge award
  award_each clock user current [] s = ([], s)
  award_each clock user current (b ∷ bs) s =
      let skipped = award_each clock user current bs s in
      let (awarded, s') = award (clock b.id) user b.id s in
      let rest = award_each clock user current bs s' in
      if not (criteria_met b.criteria_value current)
      then skipped
      else if has_badge user b.id s
      then skipped
      else (if awarded then b.id ∷ rest.0 else rest.0, rest.1)

  unfoldable pub evaluate_and_award :
      (ℕ → ℕ) → ℕ → String → Value → ProgressionDb → List ℕ × ProgressionDb
  unfolding award_each list_by_criteria_type
  evaluate_and_award clock user kind current s =
      award_each clock user current (list_by_criteria_type kind s) s

  -- `find_one_and_update` with `$inc`: the score behind the update.
  unfoldable pub increment_score : ℕ → ℕ → ProgressionDb → Option ℕ × ProgressionDb
  increment_score user amount s =
      let s' = record s { users = update_one (λ u. u.id == user) (add_to_score amount) s.users } in
      elim (find_one (λ u. u.id == user) s.users) [
        | none ↦ (none, s')
        | some u ↦ (some (u.thesdel_score + amount), s')
      ]

  unfoldable pub set_rank : ℕ → String → ProgressionDb → ProgressionDb
  set_rank user rank s = record s {
    users = update_one (λ u. u.id == user) (λ u. record u { rank = rank }) s.users;
  }

  -- `refresh_rank` with the score at hand, as `add_score` calls it.
  unfoldable pub refresh_rank : ℕ → ℕ → Call ProgressionDb String
  unfolding compute_rank set_rank
  refresh_rank user score s = (ok (compute_rank score), set_rank user (compute_rank score) s)

  -- An amount that is not positive is a ValueError, which no handler maps to an answer of its own.
  unfoldable pub add_score : ℕ → ℕ → Call ProgressionDb ℕ
  unfolding increment_score refresh_rank
  add_score user zero s = (err AppError.internal_error, s)
  add_score user (suc amount) s =
      let (found, s') = increment_score user (suc amount) s in
      elim found [
        | none ↦ (err AppError.not_found, s')
        | some score ↦ (ok score, (refresh_rank user score s').1)
      ]

  unfoldable pub find_current_season : ℕ → ProgressionDb → Option Season
  find_current_season on s = find_one (λ x. leb x.start_date on && leb on x.end_date) s.seasons

  pub record ProgressionMe : Type 0 where
    pub thesdel_score : ℕ
    pub rank : String
    pub current_season : Option Season

  unfoldable pub get_summary : ℕ → ℕ → Call ProgressionDb ProgressionMe
  unfolding find_current_season
  get_summary user today s = elim (find_one (λ u. u.id == user) s.users) [
    | none ↦ (err AppError.not_found, s)
    | some u ↦ (
      ok (record {
        thesdel_score = u.thesdel_score;
        rank = u.rank;
        current_season = find_current_season today s;
      }),
      s,
    )
  ]
