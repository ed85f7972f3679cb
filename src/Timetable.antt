-- ===== src/Timetable.antt =====
-- app/timetable: the entries of users' and classes' timetables. An ObjectId is a number, and what
-- `ObjectId(value)` makes of a client's text is a parameter. A body is what its schema lets in; the
-- digits of the pattern are those of ASCII. An explicit null in an update is modelled where the
-- stored field may be null.
pub mod Owners
use thesdel.Base.{
  ℕ, suc, ◌+◌, ◌*◌, ◌-◌, Bool, true, false, not, ◌&&◌, ◌||◌, Option, none, some, String, List, [],
  ◌∷◌, ltb, leb, ◌==◌, if◌then◌else◌,
}
use thesdel.Errors.{AppError, Result, ok, err, Call}
use thesdel.Mongo.{Mongo}
use thesdel.Time.{Text, text_lt}

pub data OwnerType : Type 0 where
  of_user of_class : OwnerType

pub record TimetableEntry : Type 0 where
  pub id : ℕ
  pub owner_type : OwnerType
  pub owner_id : ℕ
  pub subject : String
  pub day_of_week : ℕ
  pub start_time : Text
  pub end_time : Text
  pub location : Option String
  pub recurrence : Option String

pub record TimetableEntryCreate : Type 0 where
  pub subject : String
  pub day_of_week : ℕ
  pub start_time : Text
  pub end_time : Text
  pub location : Option String
  pub recurrence : Option String

-- none is a field that is not set.
pub record TimetableEntryUpdate : Type 0 where
  pub subject : Option String
  pub day_of_week : Option ℕ
  pub start_time : Option Text
  pub end_time : Option Text
  pub location : Option (Option String)
  pub recurrence : Option (Option String)

abbrev pub text_size : String → ℕ
text_size String.[] = 0
text_size (String.◌∷◌ c s) = suc (text_size s)

abbrev pub is_digit : ℕ → Bool
is_digit c = leb 48 c && leb c 57

-- `^([01]\d|2[0-3]):[0-5]\d$`
unfoldable pub is_time : Text → Bool
is_time (a ∷ b ∷ c ∷ d ∷ e ∷ []) =
    ((((a == 48) || (a == 49)) && is_digit b) || ((a == 50) && (leb 48 b && leb b 51)))
    && ((c == 58) && ((leb 48 d && leb d 53) && is_digit e))
is_time text = false

abbrev pub fits : ℕ → Option String → Bool
fits most none = true
fits most (some t) = leb (text_size t) most

abbrev pub if_set {ℓ} : {A : Type ℓ} → (A → Bool) → Option A → Bool
if_set p none = true
if_set p (some a) = p a

abbrev pub set_or {ℓ} : {A : Type ℓ} → Option A → A → A
set_or none a = a
set_or (some b) a = b

-- The checks of `TimetableEntryCreate`, its validator `end_after_start` the last.
unfoldable pub is_valid_create : TimetableEntryCreate → Bool
unfolding is_time text_lt
is_valid_create body =
    (leb 1 (text_size body.subject) && leb (text_size body.subject) 120)
    && (leb body.day_of_week 6
        && ((is_time body.start_time && is_time body.end_time)
            && ((fits 120 body.location && fits 40 body.recurrence)
                && text_lt body.start_time body.end_time)))

unfoldable pub is_valid_update : TimetableEntryUpdate → Bool
unfolding is_time
is_valid_update body =
    if_set (λ t. leb 1 (text_size t) && leb (text_size t) 120) body.subject
    && (if_set (λ d. leb d 6) body.day_of_week
        && (if_set is_time body.start_time && if_set is_time body.end_time))

abbrev pub new_entry : ℕ → OwnerType → ℕ → TimetableEntryCreate → TimetableEntry
new_entry id owner_type owner_id body = record {
  id = id;
  owner_type = owner_type;
  owner_id = owner_id;
  subject = body.subject;
  day_of_week = body.day_of_week;
  start_time = body.start_time;
  end_time = body.end_time;
  location = body.location;
  recurrence = body.recurrence;
}

-- `$set` of the fields that are set.
abbrev pub set_entry : TimetableEntryUpdate → TimetableEntry → TimetableEntry
set_entry body e = record e {
  subject = set_or body.subject e.subject;
  day_of_week = set_or body.day_of_week e.day_of_week;
  start_time = set_or body.start_time e.start_time;
  end_time = set_or body.end_time e.end_time;
  location = set_or body.location e.location;
  recurrence = set_or body.recurrence e.recurrence;
}

abbrev pub same_owner_type : OwnerType → OwnerType → Bool
same_owner_type OwnerType.of_user OwnerType.of_user = true
same_owner_type OwnerType.of_class OwnerType.of_class = true
same_owner_type a b = false

abbrev pub is_of : OwnerType → ℕ → TimetableEntry → Bool
is_of owner_type owner_id e = same_owner_type e.owner_type owner_type && (e.owner_id == owner_id)

-- `.sort([("day_of_week", 1), ("start_time", 1)])`
abbrev pub entry_before : TimetableEntry → TimetableEntry → Bool
entry_before a b =
    ltb a.day_of_week b.day_of_week
    || ((a.day_of_week == b.day_of_week) && text_lt a.start_time b.start_time)

module _ (mongo : Mongo) where
  open mongo use {Collection, find_one, find_sorted, insert_one, update_one, delete_one}

  -- The three calls that create: the body's checks come before the service.
  unfoldable pub create_entry :
      ℕ → OwnerType → ℕ → TimetableEntryCreate → Call (Collection TimetableEntry) TimetableEntry
  unfolding is_valid_create
  create_entry id owner_type owner_id body c =
      if is_valid_create body
      then (
        ok (new_entry id owner_type owner_id body),
        insert_one (new_entry id owner_type owner_id body) c,
      )
      else (err AppError.validation_error, c)

  unfoldable pub create_personal_entry :
      ℕ → ℕ → TimetableEntryCreate → Call (Collection TimetableEntry) TimetableEntry
  unfolding create_entry
  create_personal_entry id user_id body c = create_entry id OwnerType.of_user user_id body c

  unfoldable pub create_class_entry :
      ℕ → ℕ → TimetableEntryCreate → Call (Collection TimetableEntry) TimetableEntry
  unfolding create_entry
  create_class_entry id class_id body c = create_entry id OwnerType.of_class class_id body c

  unfoldable pub list_for_owner : OwnerType → ℕ → Collection TimetableEntry → List TimetableEntry
  list_for_owner owner_type owner_id c = find_sorted entry_before (is_of owner_type owner_id) c

  unfoldable pub list_personal : ℕ → Collection TimetableEntry → List TimetableEntry
  unfolding list_for_owner
  list_personal user_id c = list_for_owner OwnerType.of_user user_id c

  unfoldable pub list_class : ℕ → Collection TimetableEntry → List TimetableEntry
  unfolding list_for_owner
  list_class class_id c = list_for_owner OwnerType.of_class class_id c

  -- A text that is no ObjectId is an error that nothing catches.
  unfoldable pub require_owned_by_user :
      (String → Option ℕ) → String → ℕ → Collection TimetableEntry → Result TimetableEntry
  require_owned_by_user object_id entry_id user_id c = elim (object_id entry_id) [
    | none ↦ err AppError.internal_error
    | some id ↦ elim (find_one (λ e. e.id == id) c) [
      | none ↦ err AppError.not_found
      | some doc ↦ if is_of OwnerType.of_user user_id doc then ok doc else err AppError.not_found
    ]
  ]

  unfoldable pub update_personal_entry :
      (String → Option ℕ)
      → ℕ
      → String
      → TimetableEntryUpdate
      → Call (Collection TimetableEntry) TimetableEntry
  unfolding require_owned_by_user is_valid_update
  update_personal_entry object_id user_id entry_id body c =
      if not (is_valid_update body)
      then (err AppError.validation_error, c)
      else (elim (require_owned_by_user object_id entry_id user_id c) [
        | err e ↦ (err e, c)
        | ok existing ↦
            let c' = update_one (λ e. e.id == existing.id) (set_entry body) c in
            elim (find_one (λ e. e.id == existing.id) c') [
              | none ↦ (err AppError.internal_error, c')
              | some updated ↦ (ok updated, c')
            ]
      ])

  unfoldable pub delete_personal_entry :
      (String → Option ℕ) → ℕ → String → Call (Collection TimetableEntry) (Unit {0})
  unfolding require_owned_by_user
  delete_personal_entry object_id user_id entry_id c =
      elim (require_owned_by_user object_id entry_id user_id c) [
        | err e ↦ (err e, c)
        | ok existing ↦ (ok tt, delete_one (λ e. e.id == existing.id) c)
      ]
