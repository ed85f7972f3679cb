-- ===== src/Streaks/Service.antt =====
-- app/streaks/service.py over app/streaks/repository.py.
use thesdel.Base.{
  ℕ, ◌+◌, ◌%◌, Bool, true, false, not, ◌&&◌, ◌||◌, Option, none, some, String, ◌==◌, if◌then◌else◌,
  List, map,
}
use thesdel.Errors.{AppError, Result, ok, err, Call}
use thesdel.Mongo.{Mongo}
use thesdel.Progression.{ProgressionDb, add_score, limit}
use thesdel.Streaks.Data.{
  Streak, milestone_interval_days, milestone_score_award, normalize_pair, is_active, is_pair,
  same_moment, is_today, is_stale, CheckInResult, apply_lazy_reset, pending_streak, activate,
  checked_in,
}

-- `.limit(500)`
abbrev pub streak_list_cap : ℕ
streak_list_cap = 500

module _ (mongo : Mongo) where
  open mongo use {Collection, find_one, find_many, insert_unique, update_one}

  pub record StreakDb : Type 0 where
    pub streaks : Collection Streak
    pub progression : ProgressionDb mongo

  unfoldable pub find_pair : ℕ → ℕ → StreakDb → Option Streak
  find_pair a b s = find_one (is_pair a b) s.streaks

  unfoldable pub list_for_user : ℕ → StreakDb → List Streak
  unfolding limit
  list_for_user user s =
      limit streak_list_cap (find_many (λ d. (d.user_a == user) || (d.user_b == user)) s.streaks)

  unfoldable pub create_pending : ℕ → ℕ → ℕ → ℕ → StreakDb → Option Streak × StreakDb
  create_pending id a b invited_by s =
      let d = pending_streak id a b invited_by in
      elim (insert_unique (is_pair a b) d s.streaks) [
        | none ↦ (none, s)
        | some c ↦ (some d, record s { streaks = c })
      ]

  -- `find_one_and_update` on the pending pair.
  unfoldable pub accept_pending : ℕ → ℕ → ℕ → StreakDb → Option Streak × StreakDb
  accept_pending now a b s =
      let pending = λ (d : Streak). is_pair a b d && not (is_active d) in
      elim (find_one pending s.streaks) [
        | none ↦ (none, s)
        | some d ↦ (
          some (activate now d),
          record s { streaks = update_one pending (activate now) s.streaks },
        )
      ]

  unfoldable pub apply_check_in : ℕ → ℕ → Option ℕ → ℕ → StreakDb → Option Streak × StreakDb
  apply_check_in now id expected n s =
      let unchanged = λ (d : Streak). (d.id == id) && same_moment d.last_interaction_at expected in
      elim (find_one unchanged s.streaks) [
        | none ↦ (none, s)
        | some d ↦ (
          some (checked_in now n d),
          record s { streaks = update_one unchanged (checked_in now n) s.streaks },
        )
      ]

  abbrev pub exists_user : ℕ → StreakDb → Bool
  exists_user user s = elim (find_one (λ u. u.id == user) s.progression.users) [
    | none ↦ false
    | some u ↦ true
  ]

  -- Behind the checks of `invite`; an insert that clashes leaves the pair as it is.
  unfoldable pub invite_pair : ℕ → ℕ → ℕ × ℕ → Call StreakDb Streak
  unfolding create_pending find_pair
  invite_pair id current (a, b) s =
      let (created, s') = create_pending id a b current s in
      elim created [
        | some d ↦ (ok d, s')
        | none ↦ (elim (find_pair a b s') [
          | none ↦ (err AppError.conflict, s')
          | some d ↦ (ok d, s')
        ])
      ]

  unfoldable pub accept_found : ℕ → ℕ → ℕ → ℕ → Streak → Call StreakDb Streak
  unfolding accept_pending find_pair
  accept_found now current a b existing s =
      if is_active existing
      then (ok existing, s)
      else if existing.invited_by == current
      then (err AppError.forbidden, s)
      else (let (updated, s') = accept_pending now a b s in
          elim updated [
            | some d ↦ (ok d, s')
            | none ↦ (elim (find_pair a b s') [
              | none ↦ (err AppError.conflict, s')
              | some d ↦ (ok d, s')
            ])
          ])

  -- The two awards at a milestone; an error of one ends the call.
  unfoldable pub award_milestone : Streak → Call StreakDb CheckInResult
  award_milestone d s =
      let (first, p) = add_score mongo d.user_a milestone_score_award s.progression in
      elim first [
        | err e ↦ (err e, record s { progression = p })
        | ok n ↦
            let (second, p') = add_score mongo d.user_b milestone_score_award p in
            (elim second [
              | err e ↦ (err e, record s { progression = p' })
              | ok n' ↦ (
                ok (record { streak = d; already_checked_in_today = false }),
                record s { progression = p' },
              )
            ])
      ]

  unfoldable pub check_in_found : ℕ → ℕ → ℕ → ℕ → ℕ → Streak → Call StreakDb CheckInResult
  unfolding apply_check_in find_pair award_milestone
  check_in_found now stamp current a b d s =
      if not ((current == d.user_a) || (current == d.user_b))
      then (err AppError.forbidden, s)
      else if not (is_active d)
      then (err AppError.conflict, s)
      else if is_today now d.last_interaction_at
      then (ok (record { streak = d; already_checked_in_today = true }), s)
      else (let n = if is_stale now d.last_interaction_at then 1 else d.current_streak + 1 in
          let (updated, s') = apply_check_in stamp d.id d.last_interaction_at n s in
          elim updated [
            | none ↦ (elim (find_pair a b s') [
              | none ↦ (err AppError.conflict, s')
              | some r ↦ (ok (record { streak = r; already_checked_in_today = true }), s')
            ])
            | some u ↦
                if u.current_streak % milestone_interval_days == 0
                then award_milestone u s'
                else (ok (record { streak = u; already_checked_in_today = false }), s')
          ])

  module _ (object_id : String → Option ℕ) where
    -- `_parse_object_id` of both texts, the caller's first.
    abbrev pub with_ids :
        {A : Type 0} → String → String → (ℕ → ℕ → Call StreakDb A) → Call StreakDb A
    with_ids x y f s = elim (object_id x) [
      | none ↦ (err AppError.validation_error, s)
      | some a ↦ elim (object_id y) [ none ↦ (err AppError.validation_error, s) | some b ↦ f a b s ]
    ]

    unfoldable pub invite : ℕ → String → String → Call StreakDb Streak
    unfolding invite_pair normalize_pair
    invite id current_user_id invitee_user_id =
        with_ids current_user_id invitee_user_id λ current invitee s.
          if current == invitee
          then (err AppError.validation_error, s)
          else if not (exists_user invitee s)
          then (err AppError.not_found, s)
          else invite_pair id current (normalize_pair current invitee) s

    unfoldable pub accept : ℕ → String → String → Call StreakDb Streak
    unfolding accept_found normalize_pair find_pair
    accept now current_user_id inviter_user_id =
        with_ids current_user_id inviter_user_id λ current inviter s.
          let (a, b) = normalize_pair current inviter in
          elim (find_pair a b s) [
            | none ↦ (err AppError.not_found, s)
            | some existing ↦ accept_found now current a b existing s
          ]

    -- `now` is the service's reading of the clock, `stamp` the repository's.
    unfoldable pub check_in : ℕ → ℕ → String → String → Call StreakDb CheckInResult
    unfolding check_in_found normalize_pair find_pair
    check_in now stamp current_user_id partner_user_id =
        with_ids current_user_id partner_user_id λ current partner s.
          let (a, b) = normalize_pair current partner in
          elim (find_pair a b s) [
            | none ↦ (err AppError.not_found, s)
            | some d ↦ check_in_found now stamp current a b d s
          ]

    unfoldable pub get_with_partner : ℕ → String → String → Call StreakDb Streak
    unfolding normalize_pair find_pair apply_lazy_reset
    get_with_partner now current_user_id partner_user_id =
        with_ids current_user_id partner_user_id λ current partner s.
          let (a, b) = normalize_pair current partner in
          elim (find_pair a b s) [
            | none ↦ (err AppError.not_found, s)
            | some d ↦
                if (current == d.user_a) || (current == d.user_b)
                then (ok (apply_lazy_reset now d), s)
                else (err AppError.not_found, s)
          ]

    unfoldable pub list_my_streaks : ℕ → String → StreakDb → Result (List Streak)
    unfolding list_for_user apply_lazy_reset
    list_my_streaks now current_user_id s = elim (object_id current_user_id) [
      | none ↦ err AppError.validation_error
      | some current ↦ ok (map (apply_lazy_reset now) (list_for_user current s))
    ]
