-- ===== src/Access.antt =====
-- app/shared/deps.py: tier gating and class membership. What the access token names (Security) and
-- what `ObjectId(value)` makes of a text are arguments.
use thesdel.Base.{
  ℕ, ◌≤◌, ◌≡◌, inl, inr, Bool, true, ◌&&◌, Option, none, some, String, List, [], ◌∷◌, ltb, ◌==◌,
  if◌then◌else◌, arith, All, ◌↔◌, Bool-cases, Option-cases, str_eq, ◌∙◌, sym,
}
use thesdel.Errors.{AppError, Result, ok, err}
use thesdel.Mongo.{Mongo}
use thesdel.Mongo.Laws.{find-All}

-- `TIER_RANK`, one higher, with 0 for a tier that is not in the table.
unfoldable pub tier_level : String → ℕ
tier_level tier =
    if str_eq tier "free"
    then 1
    else if str_eq tier "premium"
    then 2
    else if str_eq tier "pro"
    then 3
    else 0

-- What a gate asks for: a tier that is not in the table ranks 99.
unfoldable pub required_level : String → ℕ
unfolding tier_level
required_level tier = if tier_level tier == 0 then 100 else tier_level tier

pub record CurrentUser : Type 0 where
  pub id : ℕ
  pub tier : String
  pub email : String
  pub display_name : String

unfoldable pub require_tier : String → CurrentUser → Result CurrentUser
unfolding required_level
require_tier min_tier user =
    if ltb (tier_level user.tier) (required_level min_tier)
    then err AppError.upgrade_required
    else ok user

pub record Membership : Type 0 where
  pub class_id : ℕ
  pub user_id : ℕ
  pub role : String

module _ (mongo : Mongo) where
  open mongo use {Collection, docs, find_one, find_one_lem}

  -- The user of the token's claim, read from the database on every request.
  unfoldable pub get_current_user : Option (Result ℕ) → Collection CurrentUser → Result CurrentUser
  get_current_user none users = err AppError.unauthenticated
  get_current_user (some (err e)) users = err e
  get_current_user (some (ok user)) users = elim (find_one (λ u. u.id == user) users) [
    | none ↦ err AppError.unauthenticated
    | some u ↦ ok u
  ]

  abbrev pub is_membership : ℕ → ℕ → Membership → Bool
  is_membership class_id user m = (m.class_id == class_id) && (m.user_id == user)

  unfoldable pub require_class_membership :
      (String → Option ℕ) → String → CurrentUser → Collection Membership → Result Membership
  require_class_membership object_id class_id user members = elim (object_id class_id) [
    | none ↦ err AppError.not_found
    | some c ↦ elim (find_one (is_membership c user.id) members) [
      | none ↦ err AppError.not_found
      | some m ↦ ok m
    ]
  ]

  unfoldable pub require_class_rep : Membership → Result Membership
  require_class_rep m = if str_eq m.role "rep" then ok m else err AppError.forbidden

  abbrev rep_of : Result Membership → Result Membership
  rep_of (ok m) = require_class_rep m
  rep_of (err e) = err e

  -- The two dependencies of a rep's route, one behind the other.
  unfoldable pub class_rep :
      (String → Option ℕ) → String → CurrentUser → Collection Membership → Result Membership
  unfolding require_class_membership require_class_rep
  class_rep object_id class_id user members =
      rep_of (require_class_membership object_id class_id user members)

  all_docs : {A : Type 0} (xs : List A) → All (λ x. Unit {0}) xs
  all_docs [] = tt
  all_docs (x ∷ xs) = (tt, all_docs xs)

  -- A rep's route lets only a user through who has, in the database, a membership of the class of
  -- the path with the role of rep.
  pub class_rep_member :
      (object_id : String → Option ℕ) (class_id : String) (user : CurrentUser)
      (members : Collection Membership) (m : Membership)
      → class_rep object_id class_id user members ≡ ok m
      → (object_id class_id ≡ some m.class_id)
        × (m.user_id ≡ user.id)
        × (str_eq m.role "rep" ≡ true)
        × (find_one (is_membership m.class_id user.id) members ≡ some m)
  unfolding class_rep
  class_rep_member object_id class_id user members m h = elim (Option-cases (object_id class_id)) [
    | inl bad ↦ absurd (ground arith)
    | inr (c, ec) ↦ elim (Option-cases (find_one (is_membership c user.id) members)) [
      | inl missing ↦ absurd (ground arith)
      | inr (m', found) ↦
          let test =
            (find-All (λ x. Unit {0}) (is_membership c user.id) (docs members)
              (sym (find_one_lem (is_membership c user.id) members) ∙ found)
              (all_docs (docs members))).1 in
          let rep : str_eq m'.role "rep" ≡ true = elim (Bool-cases (str_eq m'.role "rep")) [
            | inl e ↦ e
            | inr e ↦ absurd (ground arith)
          ] in
          let same : m' ≡ m = ground arith in
          let cls : c ≡ m.class_id = ground arith in
          (ground arith, ground arith, ground arith, ground arith)
    ]
  ]

-- A gate lets a user through exactly if the tier, as the database has it, is known and no lower.
pub require_tier_levels :
    (min_tier : String) (user : CurrentUser)
    → (require_tier min_tier user ≡ ok user) ↔ (required_level min_tier ≤ tier_level user.tier)
unfolding require_tier
require_tier_levels min_tier user = (λ h. passes h, λ h. ground arith)
  where
    passes : require_tier min_tier user ≡ ok user → required_level min_tier ≤ tier_level user.tier
    passes h = elim (Bool-cases (ltb (tier_level user.tier) (required_level min_tier))) [
      | inl e ↦ absurd (ground arith)
      | inr e ↦ ground arith
    ]
