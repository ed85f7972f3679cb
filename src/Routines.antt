-- ===== src/Routines.antt =====
-- app/routines: a user's weekly routines. An ObjectId is a number, and what `ObjectId(value)` makes
-- of a client's text is a parameter. Days are not below 0 here; an explicit null in an update is not
-- modelled.
pub mod Owners
use thesdel.Base.{
  ℕ, Bool, not, ◌&&◌, Option, none, some, String, List, [], ◌∷◌, ltb, leb, ◌==◌, if◌then◌else◌, any,
  length, str_eq,
}
use thesdel.Errors.{AppError, Result, ok, err, Call}
use thesdel.Mongo.{Mongo}
use thesdel.Time.{Text, text_lt}
use thesdel.Timetable.{is_time, if_set, set_or}

pub record Routine : Type 0 where
  pub id : ℕ
  pub user_id : ℕ
  pub label : String
  pub days : List ℕ
  pub start_time : Text
  pub end_time : Text
  pub is_flexible : Bool

pub record RoutineCreate : Type 0 where
  pub label : String
  pub days : List ℕ
  pub start_time : Text
  pub end_time : Text
  pub is_flexible : Bool

-- none is a field that is not set.
pub record RoutineUpdate : Type 0 where
  pub label : Option String
  pub days : Option (List ℕ)
  pub start_time : Option Text
  pub end_time : Option Text
  pub is_flexible : Option Bool

abbrev pub allowed_labels : List String
allowed_labels = "Church" ∷ "Gym" ∷ "Work" ∷ "Sleep" ∷ "Meals" ∷ "Personal" ∷ []

-- The checks of `RoutineCreate`, those of `model_post_init` the last.
unfoldable pub is_valid_create : RoutineCreate → Bool
unfolding is_time text_lt
is_valid_create body =
    leb 1 (length body.days)
    && ((is_time body.start_time && is_time body.end_time)
        && (any (str_eq body.label) allowed_labels
            && (not (any (λ d. ltb 6 d) body.days) && text_lt body.start_time body.end_time)))

-- Of an update, only the texts of its times are checked.
unfoldable pub is_valid_update : RoutineUpdate → Bool
unfolding is_time
is_valid_update body = if_set is_time body.start_time && if_set is_time body.end_time

abbrev pub new_routine : ℕ → ℕ → RoutineCreate → Routine
new_routine id user_id body = record {
  id = id;
  user_id = user_id;
  label = body.label;
  days = body.days;
  start_time = body.start_time;
  end_time = body.end_time;
  is_flexible = body.is_flexible;
}

-- `$set` of the fields that are set.
abbrev pub set_routine : RoutineUpdate → Routine → Routine
set_routine body r = record r {
  label = set_or body.label r.label;
  days = set_or body.days r.days;
  start_time = set_or body.start_time r.start_time;
  end_time = set_or body.end_time r.end_time;
  is_flexible = set_or body.is_flexible r.is_flexible;
}

module _ (mongo : Mongo) where
  open mongo use {Collection, find_one, find_many, insert_one, update_one, delete_one}

  unfoldable pub create : ℕ → ℕ → RoutineCreate → Call (Collection Routine) Routine
  unfolding is_valid_create
  create id user_id body c =
      if is_valid_create body
      then (ok (new_routine id user_id body), insert_one (new_routine id user_id body) c)
      else (err AppError.validation_error, c)

  unfoldable pub list_for_user : ℕ → Collection Routine → List Routine
  list_for_user user_id c = find_many (λ r. r.user_id == user_id) c

  -- A text that is no ObjectId is an error that nothing catches.
  unfoldable pub require_owned :
      (String → Option ℕ) → ℕ → String → Collection Routine → Result Routine
  require_owned object_id user_id routine_id c = elim (object_id routine_id) [
    | none ↦ err AppError.internal_error
    | some id ↦ elim (find_one (λ r. r.id == id) c) [
      | none ↦ err AppError.not_found
      | some doc ↦ if doc.user_id == user_id then ok doc else err AppError.not_found
    ]
  ]

  unfoldable pub update :
      (String → Option ℕ) → ℕ → String → RoutineUpdate → Call (Collection Routine) Routine
  unfolding require_owned is_valid_update
  update object_id user_id routine_id body c =
      if not (is_valid_update body)
      then (err AppError.validation_error, c)
      else (elim (require_owned object_id user_id routine_id c) [
        | err e ↦ (err e, c)
        | ok doc ↦
            let c' = update_one (λ r. r.id == doc.id) (set_routine body) c in
            elim (find_one (λ r. r.id == doc.id) c') [
              | none ↦ (err AppError.internal_error, c')
              | some updated ↦ (ok updated, c')
            ]
      ])

  unfoldable pub delete : (String → Option ℕ) → ℕ → String → Call (Collection Routine) (Unit {0})
  unfolding require_owned
  delete object_id user_id routine_id c = elim (require_owned object_id user_id routine_id c) [
    | err e ↦ (err e, c)
    | ok doc ↦ (ok tt, delete_one (λ r. r.id == doc.id) c)
  ]
