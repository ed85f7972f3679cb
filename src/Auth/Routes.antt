-- ===== src/Auth/Routes.antt =====
-- app/auth/router.py: the routes, each a limiter by the client's address before the service. A body is
-- what its schema lets in, and a client without an address is one with the address "unknown".
use thesdel.Base.{ℕ, true, Option, none, some, String}
use thesdel.Errors.{AppError, Result, ok, err, Call}
use thesdel.Mongo.{Mongo}
use thesdel.Redis.{Redis, auth_limiter}
use thesdel.RateLimit.{check_rate_limit}
use thesdel.Auth.Data.{User, TokenPair, Draws, AuthConfig, GoogleClaims}
use thesdel.Auth.Store.{AuthDb}
use thesdel.Auth.Accounts as Accounts
use thesdel.Auth.Refresh as Refresh
use thesdel.Auth.Mail as Mail

pub record RateSettings : Type 0 where
  pub rate_limit_login_max : ℕ
  pub rate_limit_login_window_seconds : ℕ
  pub rate_limit_verification_max : ℕ
  pub rate_limit_verification_window_seconds : ℕ
  pub rate_limit_password_reset_max : ℕ
  pub rate_limit_password_reset_window_seconds : ℕ

abbrev pub given_or : Option ℕ → ℕ → ℕ
given_or none d = d
given_or (some n) d = n

abbrev pub success : Result (Unit {0})
success = ok tt

module _ (mongo : Mongo) (redis : Redis) (config : AuthConfig) (settings : RateSettings) where
  open redis use {Db, count}
  open settings use {
    rate_limit_login_max, rate_limit_login_window_seconds, rate_limit_verification_max,
    rate_limit_verification_window_seconds, rate_limit_password_reset_max,
    rate_limit_password_reset_window_seconds,
  }

  pub record SiteDb : Type 0 where
    pub accounts : AuthDb mongo
    pub keys : Db

  unfoldable pub rate_limit_auth_endpoint :
      String → String → Option ℕ → Option ℕ → Db → Result (Unit {0}) × Db
  unfolding check_rate_limit
  rate_limit_auth_endpoint client_ip bucket max_requests window_seconds s =
      check_rate_limit redis (auth_limiter bucket client_ip)
        (given_or max_requests rate_limit_login_max)
        (given_or window_seconds rate_limit_login_window_seconds) true s

  -- A route behind its limiter.
  unfoldable pub limited :
      {A : Type 0} → String → String → Option ℕ → Option ℕ → Call (AuthDb mongo) A → Call SiteDb A
  unfolding rate_limit_auth_endpoint
  limited client_ip bucket max_requests window_seconds service s =
      let (r, d) = rate_limit_auth_endpoint client_ip bucket max_requests window_seconds s.keys in
      elim r [
        | err e ↦ (err e, record s { keys = d })
        | ok done ↦
            let (answer, accounts) = service s.accounts in
            (answer, record { accounts = accounts; keys = d })
      ]

  unfoldable pub register_route :
      String → Draws → String → String → String → Call SiteDb (TokenPair × User)
  unfolding limited Accounts.register
  register_route client_ip d email password display_name s =
      limited client_ip "register" none none
        (λ a. Accounts.register mongo config d email password display_name none a) s

  unfoldable pub login_route : String → Draws → String → String → Call SiteDb (TokenPair × User)
  unfolding limited Accounts.login
  login_route client_ip d email password s =
      limited client_ip "login" none none (λ a. Accounts.login mongo config d email password none a)
        s

  -- `verified` is what the verification of the ID token gives.
  unfoldable pub google_auth_route :
      String → Draws → Option GoogleClaims → Call SiteDb (TokenPair × User)
  unfolding limited Accounts.google_login
  google_auth_route client_ip d verified s =
      limited client_ip "google" none none
        (λ a. elim verified [
          | none ↦ (err AppError.unauthenticated, a)
          | some claims ↦ Accounts.google_login mongo config d claims none a
        ])
        s

  unfoldable pub refresh_route : String → Draws → String → Call SiteDb TokenPair
  unfolding limited Refresh.refresh
  refresh_route client_ip d refresh_token s =
      limited client_ip "refresh" none none (λ a. Refresh.refresh mongo config d refresh_token a) s

  unfoldable pub logout_route : Draws → String → Call SiteDb (Unit {0})
  unfolding Refresh.logout
  logout_route d refresh_token s =
      (success, record s { accounts = Refresh.logout mongo config d refresh_token s.accounts })

  unfoldable pub verify_email_route : Draws → String → Call SiteDb (Unit {0})
  unfolding Mail.verify_email
  verify_email_route d token s =
      let (answer, accounts) = Mail.verify_email mongo config d token s.accounts in
      (answer, record s { accounts = accounts })

  unfoldable pub resend_verification_route : String → Draws → String → Call SiteDb (Unit {0})
  unfolding limited Mail.resend_verification
  resend_verification_route client_ip d email s =
      limited client_ip "resend_verification" (some rate_limit_verification_max)
        (some rate_limit_verification_window_seconds)
        (λ a. (success, Mail.resend_verification mongo config d email a)) s

  unfoldable pub request_password_reset_route : String → Draws → String → Call SiteDb (Unit {0})
  unfolding limited Mail.request_password_reset
  request_password_reset_route client_ip d email s =
      limited client_ip "password_reset_request" (some rate_limit_password_reset_max)
        (some rate_limit_password_reset_window_seconds)
        (λ a. (success, Mail.request_password_reset mongo config d email a)) s

  unfoldable pub confirm_password_reset_route :
      String → Draws → String → String → Call SiteDb (Unit {0})
  unfolding limited Mail.confirm_password_reset
  confirm_password_reset_route client_ip d token new_password s =
      limited client_ip "password_reset_confirm" (some rate_limit_password_reset_max)
        (some rate_limit_password_reset_window_seconds)
        (λ a. Mail.confirm_password_reset mongo config d token new_password a) s
