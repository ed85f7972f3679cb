-- ===== src/Classes.antt =====
-- app/classes/service.py and app/classes/repository.py: classes, join codes and members. An
-- ObjectId is a number. Upper case is a parameter, and so is what the driver does with a
-- transaction that fails: it is rolled back. The fallback of `run_in_transaction` without a session,
-- for the fake database of the tests, is left out.
pub mod Members
pub mod Lists
use thesdel.Base.{
  ℕ, zero, suc, ◌+◌, Bool, true, false, ◌&&◌, Option, none, some, String, List, [], ◌∷◌, ◌==◌,
  if◌then◌else◌, str_eq, any,
}
use thesdel.Errors.{AppError, Result, ok, err, Call}
use thesdel.Mongo.{Mongo}
use thesdel.Access.{Membership}

pub record ClassDoc : Type 0 where
  pub id : ℕ
  pub name : String
  pub created_by : ℕ
  pub join_code : String
  pub member_count : ℕ

-- The gates of app/shared/deps.py read the same documents.
abbrev pub Member : Type 0
Member = Membership

pub record MembershipPublic : Type 0 where
  pub class_id : ℕ
  pub role : String

pub record ClassPreview : Type 0 where
  pub id : ℕ
  pub name : String
  pub member_count : ℕ

abbrev pub max_join_code_attempts : ℕ
max_join_code_attempts = 5

abbrev pub is_member : ℕ → ℕ → Member → Bool
is_member class_id user m = (m.class_id == class_id) && (m.user_id == user)

abbrev pub one_more : ClassDoc → ClassDoc
one_more c = record c { member_count = c.member_count + 1 }

module _ (mongo : Mongo) (upper : String → String) where
  open mongo use {Collection, find_one, find_many, insert_one, insert_unique, update_one}

  pub record ClassDb : Type 0 where
    pub classes : Collection ClassDoc
    pub members : Collection Member

  unfoldable pub find_by_join_code : String → ClassDb → Option ClassDoc
  find_by_join_code code s = find_one (λ c. str_eq c.join_code code) s.classes

  unfoldable pub find_member : ℕ → ℕ → ClassDb → Option Member
  find_member class_id user s = find_one (is_member class_id user) s.members

  -- The loop of `_generate_unique_join_code`, by the attempts left; each draws a code of its own.
  unfoldable pub unique_join_code : (ℕ → String) → ℕ → ClassDb → Result String
  unfolding find_by_join_code
  unique_join_code draw zero s = err AppError.conflict
  unique_join_code draw (suc attempts) s =
      let rest = unique_join_code draw attempts s in
      elim (find_by_join_code (draw attempts) s) [ none ↦ ok (draw attempts) | some c ↦ rest ]

  abbrev pub new_class : ℕ → String → ℕ → String → ClassDoc
  new_class id name user code = record {
    id = id;
    name = name;
    created_by = user;
    join_code = code;
    member_count = 1;
  }

  -- Two writes with no transaction; an insert that clashes is not caught.
  unfoldable pub create_with_code : ℕ → String → ℕ → String → Call ClassDb ClassDoc
  create_with_code id name user code s =
      let c = new_class id name user code in
      elim (insert_unique (λ x. str_eq x.join_code code) c s.classes) [
        | none ↦ (err AppError.internal_error, s)
        | some classes ↦
            elim (insert_unique (is_member id user)
              (record { class_id = id; user_id = user; role = "rep" }) s.members) [
                | none ↦ (err AppError.internal_error, record s { classes = classes })
                | some members ↦ (ok c, record { classes = classes; members = members })
              ]
      ]

  unfoldable pub create_class : ℕ → String → ℕ → (ℕ → String) → Call ClassDb ClassDoc
  unfolding unique_join_code create_with_code
  create_class id name user draw s = elim (unique_join_code draw max_join_code_attempts s) [
    | err e ↦ (err e, s)
    | ok code ↦ create_with_code id name user code s
  ]

  unfoldable pub preview_by_join_code : String → ClassDb → Result ClassPreview
  unfolding find_by_join_code
  preview_by_join_code join_code s = elim (find_by_join_code (upper join_code) s) [
    | none ↦ err AppError.not_found
    | some c ↦ ok (record { id = c.id; name = c.name; member_count = c.member_count })
  ]

  -- The transaction of a join: both writes, or none if the member is there already.
  unfoldable pub do_join : ℕ → ℕ → ClassDb → Option ClassDb
  do_join class_id user s =
      elim (insert_unique (is_member class_id user)
        (record { class_id = class_id; user_id = user; role = "member" }) s.members) [
          | none ↦ none
          | some members ↦ some (record {
            classes = update_one (λ c. c.id == class_id) one_more s.classes;
            members = members;
          })
        ]

  -- Behind the look-up of the class. `aborts` tells whether the transaction fails by itself.
  unfoldable pub join_found : Bool → ClassDoc → ℕ → Call ClassDb MembershipPublic
  unfolding find_member do_join
  join_found aborts c user s = elim (find_member c.id user s) [
    | some m ↦ (ok (record { class_id = c.id; role = m.role }), s)
    | none ↦ (elim (if aborts then none else do_join c.id user s) [
      | some s' ↦ (ok (record { class_id = c.id; role = "member" }), s')
      | none ↦ (err AppError.conflict, s)
    ])
  ]

  unfoldable pub join_class : Bool → String → ℕ → Call ClassDb MembershipPublic
  unfolding find_by_join_code join_found
  join_class aborts join_code user s = elim (find_by_join_code (upper join_code) s) [
    | none ↦ (err AppError.not_found, s)
    | some c ↦ join_found aborts c user s
  ]
