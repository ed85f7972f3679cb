-- ===== src/Tests/Accounts.antt =====
-- Accounts, sessions, tokens and gates on small collections.
use thesdel.Base.{ℕ, ◌≡◌, refl, true, Option, none, some, String, [], ◌∷◌, str_eq, if◌then◌else◌}
use thesdel.Errors.{AppError, ok, err}
use thesdel.Mongo.{in_memory}
use thesdel.Auth.Data.{User, Session, Purpose, AuthToken, Draws, AuthConfig, TokenPair, revoke_at}
use thesdel.Auth.Store.{AuthDb, find_session, find_user, find_token}
use thesdel.Auth.Refresh.{refresh, refresh_session}
use thesdel.Auth.Accounts.{issue_token_pair}
use thesdel.Auth.Mail.{confirm_password_reset, reset_with_token}
use thesdel.Auth.Sessions.{IsFamilyRevoked, session_of, Rotates, refresh-Rotates, refresh_replayed}
use thesdel.Auth.Tokens.{Resets, confirm_password_reset-Resets, confirm_password_reset_once}
use thesdel.Access.{CurrentUser, Membership, class_rep, require_class_membership, require_class_rep}

abbrev config : AuthConfig
config = record {
  refresh_token_ttl = 2592000;
  email_verification_ttl = 86400;
  password_reset_ttl = 3600;
  lower = λ t. t;
  hash_opaque_token = λ t. t;
  hash_password = λ t. t;
  verify_password = λ p h. str_eq p h;
  create_access_token = λ user tier. tier;
}

abbrev draws : Draws
draws = record {
  now = 1000;
  stamp = 1001;
  user_id = 20;
  session_id = 30;
  refresh_token = "next";
  family_id = "g";
  token_id = 40;
  token = "mailed";
  queue_up = true;
}

abbrev ada : User
ada = record {
  id = 1;
  email = "ada@x.org";
  password_hash = some "old";
  email_verified_at = none;
  display_name = "Ada";
  tier = "free";
  google_id = none;
}

abbrev session : Session
session = record {
  id = 5;
  user_id = 1;
  refresh_token_hash = "first";
  family_id = "f";
  device_label = none;
  created_at = 10;
  expires_at = 2000;
  revoked_at = none;
}

abbrev reset_token : AuthToken
reset_token = record {
  id = 7;
  user_id = 1;
  purpose = Purpose.password_reset;
  token_hash = "reset";
  created_at = 10;
  expires_at = 2000;
  used_at = none;
  sent_at = none;
}

abbrev db : AuthDb in_memory
db = record {
  users = ada ∷ [];
  sessions = session ∷ [];
  auth_tokens = reset_token ∷ [];
  queue = [];
}

abbrev revoked_db : AuthDb in_memory
revoked_db = record db { sessions = revoke_at 900 session ∷ session ∷ [] }

abbrev pair : TokenPair
pair = record { access_token = "free"; refresh_token = "next" }

abbrev refreshed : AuthDb in_memory
refreshed = (refresh in_memory config draws "first" db).1

abbrev after_reset : AuthDb in_memory
after_reset = (confirm_password_reset in_memory config draws "reset" "new" db).1

refresh-db : refresh in_memory config draws "first" db ≡ (ok pair, refreshed)
unfolding refresh refresh_session issue_token_pair find_session find_user
refresh-db = refl

reset_db : confirm_password_reset in_memory config draws "reset" "new" db ≡ (ok tt, after_reset)
unfolding confirm_password_reset reset_with_token find_token
reset_db = refl

revoked_found : session_of in_memory config "first" revoked_db ≡ some (revoke_at 900 session)
unfolding find_session
revoked_found = refl

refresh-Rotates_example : Rotates in_memory config draws "first" db refreshed pair
refresh-Rotates_example =
    refresh-Rotates in_memory config draws "first" db refreshed pair refresh-db

refresh_replayed_example :
    (x : Session) × (session_of in_memory config "first" db ≡ some x)
    × ((refresh in_memory config draws "first" refreshed).0 ≡ err AppError.token_invalid)
    × IsFamilyRevoked in_memory config x.family_id
        (refresh in_memory config draws "first" refreshed).1
refresh_replayed_example =
    refresh_replayed in_memory config draws draws "first" db refreshed pair (tt, tt) refresh-db

confirm_password_reset-Resets_example : Resets in_memory config draws "reset" "new" db after_reset
confirm_password_reset-Resets_example =
    confirm_password_reset-Resets in_memory config draws "reset" "new" db after_reset reset_db

confirm_password_reset_once_example :
    confirm_password_reset in_memory config draws "reset" "other" after_reset
    ≡ (err AppError.token_invalid, after_reset)
confirm_password_reset_once_example =
    confirm_password_reset_once in_memory config draws draws "reset" "new" "other" db after_reset
      (tt, tt) reset_db

abbrev member : CurrentUser
member = record { id = 1; tier = "premium"; email = "ada@x.org"; display_name = "Ada" }

abbrev object_id : String → Option ℕ
object_id t = if str_eq t "c3" then some 3 else none

abbrev rep : Membership
rep = record { class_id = 3; user_id = 1; role = "rep" }

rep_passes : class_rep in_memory object_id "c3" member (rep ∷ []) ≡ ok rep
unfolding class_rep require_class_membership require_class_rep
rep_passes = refl
