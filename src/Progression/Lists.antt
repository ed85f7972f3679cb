-- ===== src/Progression/Lists.antt =====
-- What a user sees of app/progression: the catalog, the badges that the user holds, the season; and
-- the writes of its repository that only a migration or a later job makes.
use thesdel.Base.{
  ℕ, ◌/◌, ◌≡◌, refl, inl, inr, Bool, true, false, ◌&&◌, ◌||◌, Option, none, some, String, List, [],
  ◌∷◌, ap, sym, ◌∙◌, ◌==◌, filter, any, is_some, arith, Bool-cases, Option-cases,
}
use thesdel.Errors.{AppError, err, Call}
use thesdel.Mongo.{Mongo}
use thesdel.Mongo.Laws.{find-any, find_test}
use thesdel.Progression.{
  Badge, UserBadge, Season, Value, ProgressionDb, limit, badge_catalog_hard_cap, is_award,
  find_badge, has_badge, find_current_season, refresh_rank,
}

pub record UserBadgePublic : Type 0 where
  pub badge_id : ℕ
  pub family : String
  pub name : String
  pub earned_at : ℕ

-- The dates of a season, as numbers of days.
pub record SeasonPublic : Type 0 where
  pub id : ℕ
  pub start_date : ℕ
  pub end_date : ℕ

abbrev pub day_length : ℕ
day_length = 86400000000

module _ (mongo : Mongo) where
  open mongo use {Collection, docs, find_one, find_many, insert_one, find_one_lem, find_many_lem}

  unfoldable pub list_badge_catalog : ProgressionDb mongo → List Badge
  unfolding limit
  list_badge_catalog s = limit badge_catalog_hard_cap (find_many (λ b. true) s.badges)

  unfoldable pub list_awards_of : ℕ → ProgressionDb mongo → List UserBadge
  list_awards_of user s = find_many (λ a. a.user_id == user) s.user_badges

  abbrev pub shown : UserBadge → Badge → UserBadgePublic
  shown a b = record { badge_id = b.id; family = b.family; name = b.name; earned_at = a.earned_at }

  -- The loop over the awards. A badge that is no longer in the catalog is passed over. The source
  -- reads each badge once, ahead of the loop.
  unfoldable pub show_each : List UserBadge → ProgressionDb mongo → List UserBadgePublic
  unfolding find_badge
  show_each [] s = []
  show_each (a ∷ rest) s =
      let more = show_each rest s in
      elim (find_badge mongo a.badge_id s) [ none ↦ more | some b ↦ shown a b ∷ more ]

  unfoldable pub list_badges_for_user : ℕ → ProgressionDb mongo → List UserBadgePublic
  unfolding list_awards_of show_each
  list_badges_for_user user s = show_each (list_awards_of user s) s

  -- `refresh_rank` as it is called without a score, which it then reads.
  unfoldable pub refresh_rank_of : ℕ → Call (ProgressionDb mongo) String
  unfolding refresh_rank
  refresh_rank_of user s = elim (find_one (λ u. u.id == user) s.users) [
    | none ↦ (err AppError.not_found, s)
    | some u ↦ refresh_rank mongo user u.thesdel_score s
  ]

  unfoldable pub get_current_season : ℕ → ProgressionDb mongo → Option SeasonPublic
  unfolding find_current_season
  get_current_season on s = elim (find_current_season mongo on s) [
    | none ↦ none
    | some x ↦ some (record {
      id = x.id;
      start_date = x.start_date / day_length;
      end_date = x.end_date / day_length;
    })
  ]

  -- `BadgeRepository.create`
  unfoldable pub create_badge :
      ℕ → String → String → String → Value → ProgressionDb mongo → Badge × ProgressionDb mongo
  create_badge id family name criteria_type criteria_value s =
      let b : Badge = record {
        id = id;
        family = family;
        name = name;
        criteria_type = criteria_type;
        criteria_value = criteria_value;
      } in
      (b, record s { badges = insert_one b s.badges })

  -- `SeasonRepository.create`, from the midnights of the two dates
  unfoldable pub create_season : ℕ → ℕ → ℕ → ProgressionDb mongo → Season × ProgressionDb mongo
  create_season id start_date end_date s =
      let x : Season = record { id = id; start_date = start_date; end_date = end_date } in
      (x, record s { seasons = insert_one x s.seasons })

  find_badge-id :
      (badge : ℕ) (s : ProgressionDb mongo) (b : Badge)
      → find_badge mongo badge s ≡ some b
      → b.id ≡ badge
  unfolding find_badge
  find_badge-id badge s b h =
      let test : (b.id == badge) ≡ true =
        find_test (λ x. x.id == badge) (docs s.badges)
          (sym (find_one_lem (λ x. x.id == badge) s.badges) ∙ h) in
      ground arith

  -- What one award adds to what is shown.
  show_one :
      (badge : ℕ) (a : UserBadge) (rest : List UserBadge) (s : ProgressionDb mongo)
      → any (λ x. x.badge_id == badge) (show_each (a ∷ rest) s) ≡ (
          (a.badge_id == badge) && is_some (find_badge mongo badge s)
          || any (λ x. x.badge_id == badge) (show_each rest s))
  unfolding show_each
  show_one badge a rest s = elim (Option-cases (find_badge mongo a.badge_id s)) [
    | inl gone ↦ elim (Bool-cases (a.badge_id == badge)) [
      | inl same ↦
          let at_id : a.badge_id ≡ badge = ground arith in
          let gone' : find_badge mongo badge s ≡ none =
            ap (λ i. find_badge mongo i s) (sym at_id) ∙ gone in
          rw (show_each, gone, gone', same) refl
      | inr apart ↦ rw (show_each, gone, apart) refl
    ]
    | inr (b, kept) ↦
        let at_id : b.id ≡ a.badge_id = find_badge-id a.badge_id s b kept in
        elim (Bool-cases (a.badge_id == badge)) [
          | inl same ↦
              let to_badge : a.badge_id ≡ badge = ground arith in
              let kept' : find_badge mongo badge s ≡ some b =
                ap (λ i. find_badge mongo i s) (sym to_badge) ∙ kept in
              let hit : (b.id == badge) ≡ true = ground arith in
              rw (show_each, kept, kept', same, hit) refl
          | inr apart ↦
              let miss : (b.id == badge) ≡ false = ground arith in
              rw (show_each, kept, apart, miss) refl
        ]
  ]

  -- A badge is shown if it is in the catalog and one of the awards is of it.
  show_each-any :
      (badge user : ℕ) (awards : List UserBadge) (s : ProgressionDb mongo)
      → any (λ x. x.badge_id == badge) (show_each (filter (λ a. a.user_id == user) awards) s)
        ≡ (any (is_award user badge) awards && is_some (find_badge mongo badge s))
  unfolding show_each
  show_each-any badge user [] s = refl
  show_each-any badge user (a ∷ awards) s =
      let later = show_each-any badge user awards s in
      elim (Bool-cases (a.user_id == user)) [
        | inr other ↦ rw (other) later
        | inl own ↦
            let one = show_one badge a (filter (λ x. x.user_id == user) awards) s in
            rw (own)
              (one ∙ rw later (either (a.badge_id == badge) (any (is_award user badge) awards)))
      ]
    where
      either :
          (x y : Bool)
          → (x && is_some (find_badge mongo badge s) || y && is_some (find_badge mongo badge s))
            ≡ ((x || y) && is_some (find_badge mongo badge s))
      either x y = ground arith

  -- The list of a user's badges shows a badge exactly if the user holds it and it is in the
  -- catalog.
  pub list_badges_for_user-has_badge :
      (user badge : ℕ) (s : ProgressionDb mongo)
      → any (λ x. x.badge_id == badge) (list_badges_for_user user s)
        ≡ (has_badge mongo user badge s && is_some (find_badge mongo badge s))
  unfolding list_badges_for_user list_awards_of has_badge
  list_badges_for_user-has_badge user badge s =
      ap (λ xs. any (λ x. x.badge_id == badge) (show_each xs s))
        (find_many_lem (λ a. a.user_id == user) s.user_badges)
      ∙ show_each-any badge user (docs s.user_badges) s
      ∙ ap (λ b. b && is_some (find_badge mongo badge s))
          (sym (
            ap is_some (find_one_lem (is_award user badge) s.user_badges)
            ∙ find-any (is_award user badge) (docs s.user_badges)))
