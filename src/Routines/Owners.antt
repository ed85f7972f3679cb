-- ===== src/Routines/Owners.antt =====
-- A user's calls on the routines, as requests on the list of the routines that the user owns.
use thesdel.Base.{
  ℕ, ◌≡◌, refl, inl, inr, true, false, Option, String, List, IsKeyed, ◌==◌, arith, Bool-cases,
  by_value, ltb, if◌then◌else◌,
}
use thesdel.Errors.{AppError, Result, ok, err}
use thesdel.Access.{CurrentUser, require_tier, required_level, tier_level}
use thesdel.Mongo.{Mongo}
use thesdel.Documents.{
  Kind, Request, creates, updates, deletes, on_own, mine_of, Serves, with_doc, with_none,
  create_mine, update_mine, delete_mine, same_id,
}
use thesdel.Documents.Serves as Documents
use thesdel.Routines.{
  Routine, RoutineCreate, RoutineUpdate, new_routine, set_routine, is_valid_create, is_valid_update,
  create, update, delete,
}

module _ (user_id other_id : ℕ) (other : (other_id == user_id) ≡ false) where
  pub users_apart : (r : Routine) → (r.user_id == user_id) ≡ true → (r.user_id == other_id) ≡ false
  users_apart r h = ground arith

  -- The user's routines, beside those of another user.
  abbrev pub routines : Kind Routine RoutineCreate RoutineUpdate
  routines = record {
    id = λ r. r.id;
    is_mine = λ r. r.user_id == user_id;
    is_other = λ r. r.user_id == other_id;
    is_valid = is_valid_create;
    is_valid_change = is_valid_update;
    make = λ i body. new_routine i user_id body;
    change = set_routine;
    not_both = users_apart;
    make_mine = λ i body. same_id user_id;
    change_id = λ body r. refl;
    change_mine = λ body r. refl;
    change_other = λ body r. refl;
  }

module _ (object_id : String → Option ℕ) (mongo : Mongo) where
  open mongo use {Collection, docs}

  -- The calls behind the gate.
  abbrev serve_own :
      ℕ
      → Request RoutineCreate RoutineUpdate
      → Collection Routine
      → Result (Option Routine) × Collection Routine
  serve_own user_id (creates id body) c =
      let (r, c') = create mongo id user_id body c in (with_doc r, c')
  serve_own user_id (updates routine_id body) c =
      let (r, c') = update mongo object_id user_id routine_id body c in (with_doc r, c')
  serve_own user_id (deletes routine_id) c =
      let (r, c') = delete mongo object_id user_id routine_id c in (with_none r, c')

  -- The routes of routines, which are for users of the tier "pro".
  unfoldable pub serve_routine :
      CurrentUser
      → Request RoutineCreate RoutineUpdate
      → Collection Routine
      → Result (Option Routine) × Collection Routine
  unfolding require_tier create update delete
  serve_routine user request c = elim (require_tier "pro" user) [
    | err e ↦ (err e, c)
    | ok u ↦ serve_own u.id request c
  ]

  module _ (user : CurrentUser) (other_id : ℕ) (other : (other_id == user.id) ≡ false)
      (c : Collection Routine) where
    abbrev kind : Kind Routine RoutineCreate RoutineUpdate
    kind = routines user.id other_id other

    as_documents :
        (request : Request RoutineCreate RoutineUpdate)
        → serve_own user.id request c ≡ Documents.serve kind object_id mongo request c
    unfolding create update delete create_mine update_mine delete_mine
    as_documents (creates id body) = refl
    as_documents (updates routine_id body) = refl
    as_documents (deletes routine_id) = refl

    -- What the routes are to do: nothing below the tier, the third.
    abbrev pub on_own_pro :
        Request RoutineCreate RoutineUpdate → List Routine → Result (Option Routine) × List Routine
    on_own_pro request own =
        if ltb (tier_level user.tier) 3
        then (err AppError.upgrade_required, own)
        else on_own kind object_id request own

    -- Where no two routines have one id, a user's request does to the routines what it does to a
    -- list of the user's own, the answer included, and nothing below the tier "pro"; the routines
    -- of any other user stay as they were.
    pub serve_routine-Serves :
        IsKeyed (λ r. r.id) (docs c)
        → (request : Request RoutineCreate RoutineUpdate)
        → Serves kind object_id mongo c
            (on_own_pro request (mine_of kind object_id mongo c))
            (serve_routine user request c)
    unfolding serve_routine require_tier required_level tier_level
    serve_routine-Serves keyed request = elim (Bool-cases (ltb (tier_level user.tier) 3)) [
      | inl below ↦ rw (below, serve_routine) (refl, refl, refl)
      | inr enough ↦
          rw (enough, serve_routine)
            (by_value
              (Serves kind object_id mongo c
                (on_own kind object_id request (mine_of kind object_id mongo c)))
              (as_documents request) (Documents.serve-Serves kind object_id mongo c keyed request))
    ]
