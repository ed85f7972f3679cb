-- ===== src/Streaks/CheckIn.antt =====
-- What a check-in does to the streak.
use thesdel.Base.{
  IsKeyed, ℕ, ◌+◌, ◌%◌, ◌≡◌, refl, inl, inr, Bool, true, false, ◌&&◌, ◌||◌, Option, none, some,
  ◌==◌, if◌then◌else◌, find, arith, Bool-cases, sym, ◌∙◌, ap, ltb, ◌≤◌, ◌<◌, ◌≢◌, ◌⊎◌, ◌/◌,
}
use thesdel.Errors.{AppError, Result, ok, err}
use thesdel.Mongo.{Mongo}
use thesdel.Mongo.Laws.{find-update_first_by}
use thesdel.Streaks.Data.{
  Streak, StreakStatus, CheckInResult, stale_window, normalize_pair, is_pair, is_active, is_today,
  is_stale, same_moment, checked_in,
}
use thesdel.Streaks.Service.{StreakDb, find_pair, apply_check_in, award_milestone, check_in_found}

-- The pair of two users does not depend on who asks.
pub normalize_pair_comm : (x y : ℕ) → normalize_pair x y ≡ normalize_pair y x
unfolding normalize_pair
normalize_pair_comm x y = ground arith

same_moment_refl : (t : Option ℕ) → same_moment t t ≡ true
same_moment_refl none = refl
same_moment_refl (some t) = ground arith

-- The count that a check-in writes: one more, or 1 where the last interaction is over 48 hours ago.
abbrev next_count : ℕ → Streak → ℕ
next_count now d = if is_stale now d.last_interaction_at then 1 else d.current_streak + 1

-- The last interaction is on the day of the moment.
abbrev pub IsToday : ℕ → Option ℕ → Type 0
IsToday now none = ⊥
IsToday now (some last) = last / 86400000000 ≡ now / 86400000000

-- The count that follows, by the last interaction and the count so far.
abbrev pub IsNextCount : ℕ → Option ℕ → ℕ → ℕ → Type 0
IsNextCount now none current n = n ≡ 1
IsNextCount now (some last) current n =
    ((last + 172800000000 < now) × (n ≡ 1)) ⊎ ((now ≤ last + 172800000000) × (n ≡ current + 1))

IsToday-of_is_today : (now : ℕ) (last : Option ℕ) → is_today now last ≡ true → IsToday now last
IsToday-of_is_today now none h = ground arith
IsToday-of_is_today now (some last) h = ground arith

not-IsToday : (now : ℕ) (last : Option ℕ) → is_today now last ≡ false → ¬ IsToday now last
not-IsToday now none h today = today
not-IsToday now (some last) h today = ground arith

IsNextCount-next :
    (now : ℕ) (last : Option ℕ) (current : ℕ)
    → IsNextCount now last current (if is_stale now last then 1 else current + 1)
IsNextCount-next now none current = refl
IsNextCount-next now (some last) current = elim (Bool-cases (ltb (last + stale_window) now)) [
  | inl over ↦ inl (ground arith, ground arith)
  | inr within ↦ inr (ground arith, ground arith)
]

active_of_status :
    (t : StreakStatus)
    → elim t [ StreakStatus.pending ↦ false | StreakStatus.active ↦ true ] ≡ true
    → t ≡ StreakStatus.active
active_of_status StreakStatus.pending h = ground arith
active_of_status StreakStatus.active h = refl

pending_of_status :
    (t : StreakStatus)
    → elim t [ StreakStatus.pending ↦ false | StreakStatus.active ↦ true ] ≡ false
    → t ≡ StreakStatus.pending
pending_of_status StreakStatus.pending h = refl
pending_of_status StreakStatus.active h = ground arith

module _ (mongo : Mongo) where
  open mongo use {docs, find_one, find_one_lem, docs-update_one}

  award_milestone_streaks :
      (d : Streak) (s : StreakDb mongo) → (award_milestone mongo d s).1.streaks ≡ s.streaks
  unfolding award_milestone
  award_milestone_streaks d s = ground arith

  abbrev unchanged : Streak → Streak → Bool
  unchanged d e = (e.id == d.id) && same_moment e.last_interaction_at d.last_interaction_at

  apply_check_in_found :
      (stamp n a b : ℕ) (d : Streak) (s : StreakDb mongo)
      → IsKeyed (λ x. x.id) (docs s.streaks)
      → find_pair mongo a b s ≡ some d
      → let (updated, s') = apply_check_in mongo stamp d.id d.last_interaction_at n s in
        (updated ≡ some (checked_in stamp n d))
        × (find_pair mongo a b s' ≡ some (checked_in stamp n d))
  unfolding apply_check_in find_pair
  apply_check_in_found stamp n a b d s keyed found =
      let at =
        find-update_first_by (is_pair a b) (unchanged d) (λ x. x.id) (checked_in stamp n)
          (docs s.streaks) (λ y. refl) (λ y h. ground arith) keyed
          (sym (find_one_lem (is_pair a b) s.streaks) ∙ found)
          (ground (arith, same_moment_refl d.last_interaction_at)) in
      let seen : find_one (unchanged d) s.streaks ≡ some d =
        find_one_lem (unchanged d) s.streaks ∙ at.0 in
      let result : apply_check_in mongo stamp d.id d.last_interaction_at n s ≡ (
        some (checked_in stamp n d),
        record s { streaks = mongo.update_one (unchanged d) (checked_in stamp n) s.streaks },
      ) =
        ground arith in
      (
        ap (λ (r : Option Streak × StreakDb mongo). r.0) result,
        ap (λ (r : Option Streak × StreakDb mongo). find_one (is_pair a b) r.1.streaks) result
            ∙ find_one_lem (is_pair a b)
                (mongo.update_one (unchanged d) (checked_in stamp n) s.streaks)
            ∙ ap (find (is_pair a b)) (docs-update_one (unchanged d) (checked_in stamp n) s.streaks)
            ∙ at.1,
      )

  -- A member's first check-in of a day on an active streak.
  first_check_in :
      (now stamp current a b : ℕ) (d : Streak) (s : StreakDb mongo)
      → IsKeyed (λ x. x.id) (docs s.streaks)
      → find_pair mongo a b s ≡ some d
      → ((current == d.user_a) || (current == d.user_b)) ≡ true
      → is_active d ≡ true
      → is_today now d.last_interaction_at ≡ false
      → let out = check_in_found mongo now stamp current a b d s in
        let u = checked_in stamp (next_count now d) d in
        (find_pair mongo a b out.1 ≡ some u)
        × (next_count now d % 7 ≢ 0
            → out.0 ≡ ok (record { streak = u; already_checked_in_today = false }))
  unfolding check_in_found
  first_check_in now stamp current a b d s keyed found member active later =
      let n = next_count now d in
      let done = apply_check_in_found stamp n a b d s keyed found in
      let s' = (apply_check_in mongo stamp d.id d.last_interaction_at n s).1 in
      let kept : (check_in_found mongo now stamp current a b d s).1.streaks ≡ s'.streaks =
        elim (Bool-cases (n % 7 == 0)) [
          | inl at ↦ ground (arith, done.0, award_milestone_streaks (checked_in stamp n d) s')
          | inr at ↦ ground (arith, done.0)
        ] in
      (
        unfold find_pair in (ap (find_one (is_pair a b)) kept ∙ done.1),
        λ plain. ground (arith, done.0),
      )

  -- Another check-in of the day.
  check_in_found_again :
      (now stamp current a b : ℕ) (d : Streak) (s : StreakDb mongo)
      → ((current == d.user_a) || (current == d.user_b)) ≡ true
      → is_active d ≡ true
      → is_today now d.last_interaction_at ≡ true
      → check_in_found mongo now stamp current a b d s
        ≡ (ok (record { streak = d; already_checked_in_today = true }), s)
  unfolding check_in_found
  check_in_found_again now stamp current a b d s member active today = ground arith

  abbrev pub IsMember : ℕ → Streak → Type 0
  IsMember current d = (current ≡ d.user_a) ⊎ (current ≡ d.user_b)

  -- What a check-in does to the streak, by the four cases.
  abbrev pub ChecksIn :
      ℕ → ℕ → ℕ → ℕ → ℕ → Streak → StreakDb mongo → Result CheckInResult × StreakDb mongo → Type 0
  ChecksIn now stamp current a b d s out =
      ((¬ IsMember current d) × (out ≡ (err AppError.forbidden, s)))
      ⊎ (IsMember current d
          × (d.status ≡ StreakStatus.pending)
          × (out ≡ (err AppError.conflict, s)))
      ⊎ (IsMember current d
          × (d.status ≡ StreakStatus.active)
          × IsToday now d.last_interaction_at
          × (out ≡ (ok (record { streak = d; already_checked_in_today = true }), s)))
      ⊎ (IsMember current d
          × (d.status ≡ StreakStatus.active)
          × (¬ IsToday now d.last_interaction_at)
          × ((n : ℕ) × IsNextCount now d.last_interaction_at d.current_streak n
              × (find_pair mongo a b out.1
                  ≡ some (record d { current_streak = n; last_interaction_at = some stamp }))
              × (n % 7 ≢ 0
                  → out.0
                    ≡ ok (record {
                      streak = record d { current_streak = n; last_interaction_at = some stamp };
                      already_checked_in_today = false;
                    }))))

  -- Where no two streaks have one id, a check-in by one who is not of the pair is forbidden, on a
  -- pending streak is a conflict, and on a day (of 24 hours) that has the last interaction answers
  -- that it has; none of these changes anything. Any other counts: the streak that the pair then has
  -- is 1 if there is no last interaction or it is over 48 hours (172800000000 microseconds) ago, and
  -- one more than it was otherwise, with the moment stamped, whatever the awards at a milestone do;
  -- the answer is that streak where its count is no multiple of 7.
  pub check_in_found_counts :
      (now stamp current a b : ℕ) (d : Streak) (s : StreakDb mongo)
      → IsKeyed (λ x. x.id) (docs s.streaks)
      → find_pair mongo a b s ≡ some d
      → ChecksIn now stamp current a b d s (check_in_found mongo now stamp current a b d s)
  check_in_found_counts now stamp current a b d s keyed found =
      elim (Bool-cases ((current == d.user_a) || (current == d.user_b))) [
        | inr other ↦ inl (λ m. ground arith, unfold check_in_found in ground arith)
        | inl member ↦
            let mine : IsMember current d = ground arith in
            elim (Bool-cases (is_active d)) [
              | inr waiting ↦ inr (
                  inl (
                    mine,
                    pending_of_status d.status waiting,
                    unfold check_in_found in ground arith,
                  ))
              | inl active ↦ elim (Bool-cases (is_today now d.last_interaction_at)) [
                | inl today ↦ inr (
                    inr (
                      inl (
                        mine,
                        active_of_status d.status active,
                        IsToday-of_is_today now d.last_interaction_at today,
                        check_in_found_again now stamp current a b d s member active today,
                      )))
                | inr later ↦
                    let done =
                      first_check_in now stamp current a b d s keyed found member active later in
                    inr (
                      inr (
                        inr (
                          mine,
                          active_of_status d.status active,
                          not-IsToday now d.last_interaction_at later,
                          (
                            next_count now d,
                            IsNextCount-next now d.last_interaction_at d.current_streak,
                            done.0,
                            done.1,
                          ),
                        )))
              ]
            ]
      ]
