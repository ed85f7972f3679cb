-- ===== src/Auth/Mail.antt =====
-- app/auth/service.py: the flows of emailed tokens.
use thesdel.Base.{Bool, false, not, ◌||◌, Option, none, some, String, ltb, if◌then◌else◌}
use thesdel.Errors.{AppError, ok, err, Call}
use thesdel.Mongo.{Mongo}
use thesdel.Auth.Data.{User, Purpose, AuthToken, Draws, AuthConfig, same_purpose, is_none}
use thesdel.Auth.Store.{
  AuthDb, find_by_email, find_user, find_token, revoke_all_for_user, create_token, mark_used,
  mark_email_verified, update_password_hash, enqueue,
}
use thesdel.Auth.Accounts.{issue_verification_token}

module _ (mongo : Mongo) (config : AuthConfig) where
  open mongo use {Collection, docs, find_one, insert_one, insert_unique, update_one, update_many}
  open config use {
    refresh_token_ttl, email_verification_ttl, password_reset_ttl, lower, hash_opaque_token,
    hash_password, verify_password, create_access_token,
  }

  unfoldable pub resend_verification : Draws → String → AuthDb mongo → AuthDb mongo
  unfolding find_by_email issue_verification_token
  resend_verification d email s = elim (find_by_email mongo config email s) [
    | none ↦ s
    | some u ↦
        if is_none u.email_verified_at
        then issue_verification_token mongo config d u.id u.email s
        else s
  ]

  abbrev is_verified_user : Option User → Bool
  is_verified_user none = false
  is_verified_user (some u) = not (is_none u.email_verified_at)

  -- Behind the look-up of the token.
  unfoldable pub verify_email_token : Draws → AuthToken → Call (AuthDb mongo) (Unit {0})
  unfolding find_user mark_used mark_email_verified
  verify_email_token d t s =
      if not (same_purpose t.purpose Purpose.email_verification)
      then (err AppError.token_invalid, s)
      else if not (is_none t.used_at)
      then (if is_verified_user (find_user mongo config t.user_id s)
          then (ok tt, s)
          else (err AppError.token_invalid, s))
      else if ltb t.expires_at d.now
      then (err AppError.token_expired, s)
      else (
        ok tt,
        mark_email_verified mongo config d.stamp t.user_id (mark_used mongo config d.stamp t.id s),
      )

  unfoldable pub verify_email : Draws → String → Call (AuthDb mongo) (Unit {0})
  unfolding find_token verify_email_token
  verify_email d token s = elim (find_token mongo config (hash_opaque_token token) s) [
    | none ↦ (err AppError.token_invalid, s)
    | some t ↦ verify_email_token d t s
  ]

  unfoldable pub request_password_reset : Draws → String → AuthDb mongo → AuthDb mongo
  unfolding find_by_email create_token enqueue
  request_password_reset d email s = elim (find_by_email mongo config email s) [
    | none ↦ s
    | some u ↦
        enqueue mongo config d.queue_up
          (record {
            purpose = Purpose.password_reset;
            user_id = u.id;
            email = u.email;
            token = d.token;
          })
          (create_token mongo config d u.id Purpose.password_reset password_reset_ttl s)
  ]

  unfoldable pub reset_with_token : Draws → AuthToken → String → Call (AuthDb mongo) (Unit {0})
  unfolding mark_used update_password_hash revoke_all_for_user
  reset_with_token d t new_password s =
      if not (same_purpose t.purpose Purpose.password_reset) || not (is_none t.used_at)
      then (err AppError.token_invalid, s)
      else if ltb t.expires_at d.now
      then (err AppError.token_expired, s)
      else (
        ok tt,
        revoke_all_for_user mongo config d.stamp t.user_id (
            update_password_hash mongo config t.user_id (hash_password new_password)
              (mark_used mongo config d.stamp t.id s)),
      )

  unfoldable pub confirm_password_reset : Draws → String → String → Call (AuthDb mongo) (Unit {0})
  unfolding find_token reset_with_token
  confirm_password_reset d token new_password s =
      elim (find_token mongo config (hash_opaque_token token) s) [
        | none ↦ (err AppError.token_invalid, s)
        | some t ↦ reset_with_token d t new_password s
      ]
