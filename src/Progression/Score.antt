-- ===== src/Progression/Score.antt =====
-- `add_score`: the score only rises, and the rank follows it.
use thesdel.Base.{
  ℕ, suc, ◌+◌, ◌≡◌, refl, ◌≢◌, Bool, true, false, Option, some, ◌==◌, find, arith, sym, ◌∙◌, ap,
  by_value,
}
use thesdel.Errors.{Result, ok}
use thesdel.Mongo.{Mongo}
use thesdel.Mongo.Laws.{find-update_first_self, find-update_first_other}
use thesdel.Progression.{
  User, ProgressionDb, compute_rank, add_to_score, increment_score, set_rank, refresh_rank,
  add_score,
}

module _ (mongo : Mongo) where
  open mongo use {docs, find_one, update_one, find_one_lem, docs-update_one}

  abbrev pub user_of : ℕ → ProgressionDb mongo → Option User
  user_of user s = find_one (λ u. u.id == user) s.users

  -- The two writes of an award, one behind the other.
  abbrev rescored : ℕ → ℕ → ℕ → ProgressionDb mongo → ProgressionDb mongo
  rescored user amount score s =
      set_rank mongo user (compute_rank score)
        (record s { users = update_one (λ u. u.id == user) (add_to_score amount) s.users })

  user_of-rescored :
      (user amount score : ℕ) (s : ProgressionDb mongo) (u : User)
      → user_of user s ≡ some u
      → user_of user (rescored user amount score s)
        ≡ some (record u { thesdel_score = u.thesdel_score + amount; rank = compute_rank score })
  unfolding set_rank
  user_of-rescored user amount score s u h =
      let test : User → Bool = λ v. v.id == user in
      let grow = add_to_score amount in
      let name : User → User = λ v. record v { rank = compute_rank score } in
      let grown = update_one test grow s.users in
      find_one_lem test (update_one test name grown)
      ∙ ap (find test) (docs-update_one test name grown)
      ∙ find-update_first_self test name (docs grown) (λ y. refl)
          (ap (find test) (docs-update_one test grow s.users)
            ∙ find-update_first_self test grow (docs s.users) (λ y. refl)
                (sym (find_one_lem test s.users) ∙ h))

  user_of-rescored_other :
      (user other amount score : ℕ) (s : ProgressionDb mongo)
      → other ≢ user
      → user_of other (rescored user amount score s) ≡ user_of other s
  unfolding set_rank
  user_of-rescored_other user other amount score s ne =
      let test : User → Bool = λ v. v.id == user in
      let seek : User → Bool = λ v. v.id == other in
      let apart : (v : User) → test v ≡ true → seek v ≡ false = λ v h. ground arith in
      let grow = add_to_score amount in
      let name : User → User = λ v. record v { rank = compute_rank score } in
      let grown = update_one test grow s.users in
      find_one_lem seek (update_one test name grown)
      ∙ ap (find seek) (docs-update_one test name grown)
      ∙ find-update_first_other seek test name (docs grown) (λ y. refl) apart
      ∙ ap (find seek) (docs-update_one test grow s.users)
      ∙ find-update_first_other seek test grow (docs s.users) (λ y. refl) apart
      ∙ sym (find_one_lem seek s.users)

  -- An award of a positive amount to a user who exists returns the old score plus the amount, and
  -- leaves the user with that score and its rank; another user does not change.
  pub add_score_adds :
      (user other amount : ℕ) (s : ProgressionDb mongo) (u : User)
      → user_of user s ≡ some u
      → other ≢ user
      → let out = add_score mongo user (suc amount) s in
        let score = u.thesdel_score + suc amount in
        (out.0 ≡ ok score)
        × (user_of user out.1
            ≡ some (record u { thesdel_score = score; rank = compute_rank score }))
        × (user_of other out.1 ≡ user_of other s)
  unfolding add_score increment_score refresh_rank
  add_score_adds user other amount s u h ne =
      let score = u.thesdel_score + suc amount in
      let result : add_score mongo user (suc amount) s
          ≡ (ok score, rescored user (suc amount) score s) =
        ground arith in
      (
        ap (λ (r : Result ℕ × ProgressionDb mongo). r.0) result,
        by_value
            (λ (r : Result ℕ × ProgressionDb mongo).
              user_of user r.1
              ≡ some (record u { thesdel_score = score; rank = compute_rank score }))
            result (user_of-rescored user (suc amount) score s u h),
        by_value (λ (r : Result ℕ × ProgressionDb mongo). user_of other r.1 ≡ user_of other s)
            result (user_of-rescored_other user other (suc amount) score s ne),
      )
