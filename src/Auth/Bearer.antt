-- ===== src/Auth/Bearer.antt =====
-- A login by password, and whom its access token stands for at the gates of app/shared/deps.py.
use thesdel.Base.{
  ℕ, ◌+◌, ◌*◌, ◌≤◌, ◌≡◌, refl, inl, inr, Bool, true, false, Option, none, some, String, ◌==◌, leb,
  arith, Bool-cases, Option-cases, if◌then◌else◌, sym, ◌∙◌, ap,
}
use thesdel.Errors.{AppError, Result, ok, err}
use thesdel.Mongo.{Mongo}
use thesdel.Security.{
  Jwt, IsDecoded, access_payload, create_access_token, claimed_user,
  claimed_user-create_access_token,
}
use thesdel.Access.{CurrentUser, get_current_user}
use thesdel.Auth.Data.{User, Draws, AuthConfig, TokenPair}
use thesdel.Auth.Store.{AuthDb, find_by_email}
use thesdel.Auth.Accounts.{login, password_matches}
use thesdel.Auth.SignIn.{GivesTokens, signs_in, signs_in-Signed}

module _ (mongo : Mongo) (config : AuthConfig) (jwt : Jwt) (access_token_ttl_minutes : ℕ)
    (object_id : String → Option ℕ) (text_of : ℕ → String) where
  open mongo use {Collection, find_one}

  -- The access tokens of the config are those of app/shared/security.py, made at the moment.
  abbrev pub IssuesAt : ℕ → Type 0
  IssuesAt issued =
      (id : ℕ) (tier : String)
      → config.create_access_token id tier
        ≡ create_access_token jwt access_token_ttl_minutes issued (text_of id) tier

  -- The user that a request with the token acts as.
  abbrev pub bearer : ℕ → String → Collection CurrentUser → Result CurrentUser
  bearer now token users =
      get_current_user mongo (claimed_user jwt access_token_ttl_minutes object_id now (some token))
        users

  -- The user as the database has it.
  abbrev pub user_in : ℕ → Collection CurrentUser → Result CurrentUser
  user_in id users = elim (find_one (λ u. u.id == id) users) [
    | none ↦ err AppError.unauthenticated
    | some u ↦ ok u
  ]

  bearer_lem :
      (issued now id : ℕ) (tier : String) (users : Collection CurrentUser)
      → IsDecoded jwt now (access_payload jwt access_token_ttl_minutes issued (text_of id) tier)
      → object_id (text_of id) ≡ some id
      → issued ≤ now
      → bearer now (create_access_token jwt access_token_ttl_minutes issued (text_of id) tier) users
        ≡ (if leb (issued + access_token_ttl_minutes * 60) now
            then err AppError.token_expired
            else user_in id users)
  unfolding get_current_user
  bearer_lem issued now id tier users decoded known le =
      ap (λ c. get_current_user mongo c users)
        (claimed_user-create_access_token jwt access_token_ttl_minutes object_id id issued now
          (text_of id) tier decoded known le)
      ∙ given (leb (issued + access_token_ttl_minutes * 60) now)
    where
      given :
          (over : Bool)
          → get_current_user mongo (some (if over then err AppError.token_expired else ok id)) users
            ≡ (if over then err AppError.token_expired else user_in id users)
      given true = refl
      given false = refl

  -- A login by password that succeeds is by the password of the account of the email, and changes
  -- no account. A request with its access token, from the moment that it is issued and until the
  -- ttl is over, acts as that user as the database then has it; after that the token is expired.
  pub login-get_current_user :
      (d : Draws) (email password : String) (device : Option String) (s s' : AuthDb mongo)
      (pair : TokenPair) (u : User) (issued now : ℕ) (users : Collection CurrentUser)
      → login mongo config d email password device s ≡ (ok (pair, u), s')
      → IssuesAt issued
      → IsDecoded jwt now (access_payload jwt access_token_ttl_minutes issued (text_of u.id) u.tier)
      → object_id (text_of u.id) ≡ some u.id
      → issued ≤ now
      → (find_by_email mongo config email s ≡ some u)
        × (password_matches mongo config password u ≡ true)
        × (mongo.docs s'.users ≡ mongo.docs s.users)
        × GivesTokens mongo config d device u pair s s'
        × (bearer now pair.access_token users ≡ (
            if leb (issued + access_token_ttl_minutes * 60) now
            then err AppError.token_expired
            else user_in u.id users))
  unfolding login
  login-get_current_user d email password device s s' pair u issued now users h issues decoded known
        le =
      elim (Option-cases (find_by_email mongo config email s)) [
        | inl nobody ↦ absurd (ground arith)
        | inr (v, found) ↦ elim (Bool-cases (password_matches mongo config password v)) [
          | inr wrong ↦ absurd (ground arith)
          | inl right ↦
              let step : signs_in mongo config d device v s ≡ (ok (pair, u), s') =
                sym (rw (login, found, right) refl) ∙ h in
              let r = signs_in-Signed mongo config d device v s (ok (pair, u), s') step in
              (
                found ∙ ap some r.0,
                ap (λ w. password_matches mongo config password w) (sym r.0) ∙ right,
                r.1,
                r.2,
                ap (λ token. bearer now token users) (r.2.access ∙ issues u.id u.tier)
                    ∙ bearer_lem issued now u.id u.tier users decoded known le,
              )
        ]
      ]
