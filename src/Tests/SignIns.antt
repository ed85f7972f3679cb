-- ===== src/Tests/SignIns.antt =====
-- Sign-ins on a small collection of users.
use thesdel.Base.{
  ℕ, ◌≡◌, ◌+◌, ◌*◌, refl, true, Option, none, some, String, [], ◌∷◌, str_eq, if◌then◌else◌, leb,
  arith,
}
use thesdel.Errors.{AppError, ok, err}
use thesdel.Mongo.{in_memory}
use thesdel.Security.{Decoded, Jwt, create_access_token}
use thesdel.Access.{CurrentUser}
use thesdel.Auth.Data.{User, Draws, AuthConfig, TokenPair, GoogleClaims}
use thesdel.Auth.Store.{AuthDb, create_user, find_by_email, find_user, link_google_id}
use thesdel.Auth.Accounts.{
  register, issue_verification_token, login, google_login, google_first_login, password_matches,
  issue_token_pair,
}
use thesdel.Auth.SignIn.{GivesTokens, IsGoogleAccount, google_login_account}
use thesdel.Auth.Mail.{verify_email}
use thesdel.Auth.Verify.{verification_of, register-verify_email}
use thesdel.Auth.Bearer.{bearer, user_in, login-get_current_user}

-- A library that signs one payload.
abbrev signer : Jwt
signer = record {
  encode = λ p. "signed";
  decode = λ now token.
      if leb 1901 now
      then Decoded.expired_signature
      else Decoded.payload (record {
        sub = some "1";
        tier = some "free";
        issued_at = 1001;
        expires_at = 1901;
        kind = some "access";
      });
}

abbrev config : AuthConfig
config = record {
  refresh_token_ttl = 2592000;
  email_verification_ttl = 86400;
  password_reset_ttl = 3600;
  lower = λ t. t;
  hash_opaque_token = λ t. t;
  hash_password = λ t. t;
  verify_password = λ p h. str_eq p h;
  create_access_token = λ user tier. "signed";
}

abbrev draws : Draws
draws = record {
  now = 1000;
  stamp = 1001;
  user_id = 20;
  session_id = 30;
  refresh_token = "next";
  family_id = "g";
  token_id = 40;
  token = "mailed";
  queue_up = true;
}

abbrev ada : User
ada = record {
  id = 1;
  email = "ada@x.org";
  password_hash = some "old";
  email_verified_at = none;
  display_name = "Ada";
  tier = "free";
  google_id = none;
}

abbrev db : AuthDb in_memory
db = record { users = ada ∷ []; sessions = []; auth_tokens = []; queue = [] }

abbrev pair : TokenPair
pair = record { access_token = "signed"; refresh_token = "next" }

abbrev object_id : String → Option ℕ
object_id t = if str_eq t "1" then some 1 else none

abbrev text_of : ℕ → String
text_of id = "1"

abbrev current : CurrentUser
current = record { id = 1; tier = "premium"; email = "ada@x.org"; display_name = "Ada" }

abbrev after_login : AuthDb in_memory
after_login = (login in_memory config draws "ada@x.org" "old" none db).1

login-ada : login in_memory config draws "ada@x.org" "old" none db ≡ (ok (pair, ada), after_login)
unfolding login find_by_email password_matches issue_token_pair
login-ada = refl

issued_here :
    (id : ℕ) (tier : String)
    → config.create_access_token id tier ≡ create_access_token signer 15 1001 (text_of id) tier
unfolding create_access_token
issued_here id tier = refl

login-get_current_user_example :
    (find_by_email in_memory config "ada@x.org" db ≡ some ada)
    × (password_matches in_memory config "old" ada ≡ true)
    × (after_login.users ≡ db.users)
    × GivesTokens in_memory config draws none ada pair db after_login
    × (bearer in_memory config signer 15 object_id text_of 1500 "signed" (current ∷ []) ≡ (
        if leb (1001 + 15 * 60) 1500
        then err AppError.token_expired
        else user_in in_memory config signer 15 object_id text_of 1 (current ∷ [])))
login-get_current_user_example =
    login-get_current_user in_memory config signer 15 object_id text_of draws "ada@x.org" "old" none
      db after_login pair ada 1001 1500 (current ∷ []) login-ada issued_here (λ le. refl) refl
      (omega arith)

abbrev claims : GoogleClaims
claims = record { sub = "g1"; email = "ada@x.org"; email_verified = true; display_name = "Ada" }

abbrev linked : User
linked = record ada { google_id = some "g1" }

abbrev after_google : AuthDb in_memory
after_google = (google_login in_memory config draws claims none db).1

google_login-ada :
    google_login in_memory config draws claims none db ≡ (ok (pair, linked), after_google)
unfolding google_login google_first_login find_by_email link_google_id find_user issue_token_pair
google_login-ada = refl

google_login_account_example :
    IsGoogleAccount in_memory config draws claims linked db after_google
    × GivesTokens in_memory config draws none linked pair db after_google
google_login_account_example =
    google_login_account in_memory config draws claims none db after_google pair linked (tt, tt)
      google_login-ada

abbrev bob : User
bob = record {
  id = 20;
  email = "bob@x.org";
  password_hash = some "secret";
  email_verified_at = none;
  display_name = "Bob";
  tier = "free";
  google_id = none;
}

abbrev later : Draws
later = record draws { now = 2000; stamp = 2001 }

abbrev after_register : AuthDb in_memory
after_register = (register in_memory config draws "bob@x.org" "secret" "Bob" none db).1

register-bob :
    register in_memory config draws "bob@x.org" "secret" "Bob" none db
    ≡ (ok (pair, bob), after_register)
unfolding register find_by_email create_user issue_token_pair issue_verification_token
register-bob = refl

register-verify_email_example :
    (after_register.users ≡ ada ∷ bob ∷ [])
    × (after_register.queue ≡ verification_of in_memory config draws bob ∷ [])
    × ((verify_email in_memory config later "mailed" after_register).0 ≡ ok tt)
    × (find_user in_memory config 20 (verify_email in_memory config later "mailed" after_register).1
        ≡ some (record bob { email_verified_at = some 2001 }))
register-verify_email_example =
    register-verify_email in_memory config draws later "bob@x.org" "secret" "Bob" none db
      after_register pair bob (refl, tt) tt register-bob (omega arith)
