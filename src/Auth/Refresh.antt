-- ===== src/Auth/Refresh.antt =====
-- app/auth/service.py: the rotation of refresh tokens, and logging out.
use thesdel.Base.{not, none, some, String, ltb, if◌then◌else◌}
use thesdel.Errors.{AppError, ok, err, Call}
use thesdel.Mongo.{Mongo}
use thesdel.Auth.Data.{Session, TokenPair, Draws, AuthConfig, is_none}
use thesdel.Auth.Store.{AuthDb, find_user, find_session, revoke, revoke_family}
use thesdel.Auth.Accounts.{issue_token_pair}

module _ (mongo : Mongo) (config : AuthConfig) where
  open mongo use {Collection, docs, find_one, insert_one, insert_unique, update_one, update_many}
  open config use {
    refresh_token_ttl, email_verification_ttl, password_reset_ttl, lower, hash_opaque_token,
    hash_password, verify_password, create_access_token,
  }

  -- Behind the look-up of the session.
  unfoldable pub refresh_session : Draws → Session → Call (AuthDb mongo) TokenPair
  unfolding revoke revoke_family find_user issue_token_pair
  refresh_session d session s =
      if not (is_none session.revoked_at)
      then (err AppError.token_invalid, revoke_family mongo config d.stamp session.family_id s)
      else if ltb session.expires_at d.now
      then (err AppError.token_invalid, s)
      else (elim (find_user mongo config session.user_id s) [
        | none ↦ (err AppError.token_invalid, s)
        | some u ↦
            let (pair, s') =
              issue_token_pair mongo config d u.id u.tier session.device_label session.family_id
                (revoke mongo config d.stamp session.id s) in
            (ok pair, s')
      ])

  unfoldable pub refresh : Draws → String → Call (AuthDb mongo) TokenPair
  unfolding find_session refresh_session
  refresh d refresh_token s = elim (find_session mongo config (hash_opaque_token refresh_token) s) [
    | none ↦ (err AppError.token_invalid, s)
    | some session ↦ refresh_session d session s
  ]

  unfoldable pub logout : Draws → String → AuthDb mongo → AuthDb mongo
  unfolding find_session revoke
  logout d refresh_token s = elim (find_session mongo config (hash_opaque_token refresh_token) s) [
    | none ↦ s
    | some session ↦
        if is_none session.revoked_at then revoke mongo config d.stamp session.id s else s
  ]
