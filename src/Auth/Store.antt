-- ===== src/Auth/Store.antt =====
-- app/auth/repository.py: users, refresh-token sessions and the tokens of emails; and the queue of
-- app/shared/jobs.py.
use thesdel.Base.{
  ℕ, ◌+◌, Bool, ◌&&◌, ◌||◌, Option, none, some, String, List, [], ◌∷◌, ◌++◌, ◌==◌, if◌then◌else◌,
  str_eq,
}
use thesdel.Mongo.{Mongo}
use thesdel.Auth.Data.{
  User, Session, Purpose, AuthToken, EmailJob, Draws, AuthConfig, same_purpose, is_none,
  same_google, revoke_at, use_at,
}

module _ (mongo : Mongo) where
  open mongo use {Collection, docs, find_one, insert_one, insert_unique, update_one, update_many}

  pub record AuthDb : Type 0 where
    pub users : Collection User
    pub sessions : Collection Session
    pub auth_tokens : Collection AuthToken
    pub queue : List EmailJob

  module _ (config : AuthConfig) where
    open config use {
      refresh_token_ttl, email_verification_ttl, password_reset_ttl, lower, hash_opaque_token,
      hash_password, verify_password, create_access_token,
    }

    unfoldable pub find_by_email : String → AuthDb → Option User
    find_by_email email s = find_one (λ u. str_eq u.email (lower email)) s.users

    unfoldable pub find_user : ℕ → AuthDb → Option User
    find_user user s = find_one (λ u. u.id == user) s.users

    unfoldable pub find_session : String → AuthDb → Option Session
    find_session hash s = find_one (λ x. str_eq x.refresh_token_hash hash) s.sessions

    unfoldable pub find_token : String → AuthDb → Option AuthToken
    find_token hash s = find_one (λ t. str_eq t.token_hash hash) s.auth_tokens

    abbrev pub new_user : ℕ → String → String → Option String → Option String → Option ℕ → User
    new_user id email name password google verified = record {
      id = id;
      email = lower email;
      password_hash = password;
      email_verified_at = verified;
      display_name = name;
      tier = "free";
      google_id = google;
    }

    -- `UserRepository.create`, under the unique indexes on the email and on the Google id.
    unfoldable pub create_user : User → AuthDb → Option (Collection User)
    create_user u s =
        insert_unique (λ v. str_eq v.email u.email || same_google v.google_id u.google_id) u s.users

    -- `SessionRepository.revoke`
    unfoldable pub revoke : ℕ → ℕ → AuthDb → AuthDb
    revoke now session s = record s {
      sessions = update_one (λ x. x.id == session) (revoke_at now) s.sessions;
    }

    unfoldable pub revoke_family : ℕ → String → AuthDb → AuthDb
    revoke_family now family s = record s {
      sessions =
          update_many (λ x. str_eq x.family_id family && is_none x.revoked_at) (revoke_at now)
            s.sessions;
    }

    unfoldable pub revoke_all_for_user : ℕ → ℕ → AuthDb → AuthDb
    revoke_all_for_user now user s = record s {
      sessions =
          update_many (λ x. (x.user_id == user) && is_none x.revoked_at) (revoke_at now) s.sessions;
    }

    -- `AuthTokenRepository.create`: earlier unused tokens of the purpose are used up.
    unfoldable pub create_token : Draws → ℕ → Purpose → ℕ → AuthDb → AuthDb
    create_token d user purpose ttl s = record s {
      auth_tokens =
          insert_one
            (record {
              id = d.token_id;
              user_id = user;
              purpose = purpose;
              token_hash = hash_opaque_token d.token;
              created_at = d.stamp;
              expires_at = d.now + ttl;
              used_at = none;
              sent_at = none;
            })
            (update_many
              (λ t. (t.user_id == user) && (same_purpose t.purpose purpose && is_none t.used_at))
              (use_at d.stamp) s.auth_tokens);
    }

    unfoldable pub mark_used : ℕ → ℕ → AuthDb → AuthDb
    mark_used now token s = record s {
      auth_tokens = update_one (λ t. t.id == token) (use_at now) s.auth_tokens;
    }

    unfoldable pub mark_email_verified : ℕ → ℕ → AuthDb → AuthDb
    mark_email_verified now user s = record s {
      users =
          update_one (λ u. u.id == user) (λ u. record u { email_verified_at = some now }) s.users;
    }

    unfoldable pub update_password_hash : ℕ → String → AuthDb → AuthDb
    update_password_hash user hash s = record s {
      users = update_one (λ u. u.id == user) (λ u. record u { password_hash = some hash }) s.users;
    }

    unfoldable pub link_google_id : ℕ → String → AuthDb → AuthDb
    link_google_id user google s = record s {
      users = update_one (λ u. u.id == user) (λ u. record u { google_id = some google }) s.users;
    }

    -- `_enqueue`: a queue that is down is logged and passed over.
    unfoldable pub enqueue : Bool → EmailJob → AuthDb → AuthDb
    enqueue up job s = if up then record s { queue = s.queue ++ job ∷ [] } else s
