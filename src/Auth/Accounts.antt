-- ===== src/Auth/Accounts.antt =====
-- app/auth/service.py: registration and the ways to log in.
use thesdel.Base.{ℕ, ◌+◌, Bool, false, Option, none, some, String, if◌then◌else◌}
use thesdel.Errors.{AppError, Result, ok, err, Call}
use thesdel.Mongo.{Mongo}
use thesdel.Auth.Data.{User, Purpose, TokenPair, Draws, AuthConfig, GoogleClaims, same_google}
use thesdel.Auth.Store.{
  AuthDb, find_by_email, find_user, new_user, create_user, create_token, link_google_id, enqueue,
}

module _ (mongo : Mongo) (config : AuthConfig) where
  open mongo use {Collection, docs, find_one, insert_one, insert_unique, update_one, update_many}
  open config use {
    refresh_token_ttl, email_verification_ttl, password_reset_ttl, lower, hash_opaque_token,
    hash_password, verify_password, create_access_token,
  }

  unfoldable pub issue_token_pair :
      Draws → ℕ → String → Option String → String → AuthDb mongo → TokenPair × AuthDb mongo
  issue_token_pair d user tier device family s = (
    record { access_token = create_access_token user tier; refresh_token = d.refresh_token },
    record s {
      sessions =
          insert_one
            (record {
              id = d.session_id;
              user_id = user;
              refresh_token_hash = hash_opaque_token d.refresh_token;
              family_id = family;
              device_label = device;
              created_at = d.stamp;
              expires_at = d.now + refresh_token_ttl;
              revoked_at = none;
            })
            s.sessions;
    },
  )

  unfoldable pub issue_verification_token : Draws → ℕ → String → AuthDb mongo → AuthDb mongo
  unfolding create_token enqueue
  issue_verification_token d user email s =
      enqueue mongo config d.queue_up
        (record {
          purpose = Purpose.email_verification;
          user_id = user;
          email = email;
          token = d.token;
        })
        (create_token mongo config d user Purpose.email_verification email_verification_ttl s)

  unfoldable pub register :
      Draws → String → String → String → Option String → Call (AuthDb mongo) (TokenPair × User)
  unfolding find_by_email create_user issue_token_pair issue_verification_token
  register d email password name device s = elim (find_by_email mongo config email s) [
    | some existing ↦ (err AppError.conflict, s)
    | none ↦
        let u =
          new_user mongo config d.user_id email name (some (hash_password password)) none none in
        elim (create_user mongo config u s) [
          | none ↦ (err AppError.internal_error, s)
          | some c ↦
              let (pair, s') =
                issue_token_pair d u.id u.tier device d.family_id (record s { users = c }) in
              (ok (pair, u), issue_verification_token d u.id u.email s')
        ]
  ]

  -- The password test: a Google-only account has no hash and is refused.
  unfoldable pub password_matches : String → User → Bool
  password_matches password u = elim u.password_hash [
    | none ↦ false
    | some hash ↦ verify_password password hash
  ]

  unfoldable pub login :
      Draws → String → String → Option String → Call (AuthDb mongo) (TokenPair × User)
  unfolding find_by_email password_matches issue_token_pair
  login d email password device s = elim (find_by_email mongo config email s) [
    | none ↦ (err AppError.invalid_credentials, s)
    | some u ↦
        if password_matches password u
        then (let (pair, s') = issue_token_pair d u.id u.tier device d.family_id s in
            (ok (pair, u), s'))
        else (err AppError.invalid_credentials, s)
  ]

  abbrev sign_in :
      Draws → Option String → Option User → AuthDb mongo → Result (TokenPair × User) × AuthDb mongo
  sign_in d device none s = (err AppError.internal_error, s)
  sign_in d device (some u) s =
      let (pair, s') = issue_token_pair d u.id u.tier device d.family_id s in (ok (pair, u), s')

  -- A Google account that is not known: linked to the account of its email if Google has verified
  -- that, and created if there is none.
  unfoldable pub google_first_login :
      Draws → GoogleClaims → Option String → Call (AuthDb mongo) (TokenPair × User)
  unfolding find_by_email find_user link_google_id create_user issue_token_pair
  google_first_login d claims device s = elim (find_by_email mongo config claims.email s) [
    | some existing ↦
        if claims.email_verified
        then (let s' = link_google_id mongo config existing.id claims.sub s in
            sign_in d device (find_user mongo config existing.id s') s')
        else (err AppError.invalid_credentials, s)
    | none ↦
        let u =
          new_user mongo config d.user_id claims.email claims.display_name none (some claims.sub)
            (if claims.email_verified then some d.stamp else none) in
        elim (create_user mongo config u s) [
          | none ↦ (err AppError.internal_error, s)
          | some c ↦ sign_in d device (some u) (record s { users = c })
        ]
  ]

  unfoldable pub google_login :
      Draws → GoogleClaims → Option String → Call (AuthDb mongo) (TokenPair × User)
  unfolding google_first_login issue_token_pair
  google_login d claims device s =
      elim (find_one (λ u. same_google u.google_id (some claims.sub)) s.users) [
        | some u ↦ sign_in d device (some u) s
        | none ↦ google_first_login d claims device s
      ]
