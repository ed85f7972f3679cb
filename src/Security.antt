-- ===== src/Security.antt =====
-- app/shared/security.py: access tokens, and what a Google ID token lets in. PyJWT, and the library
-- that verifies Google's tokens, are parameters. A moment is a number of seconds.
use thesdel.Base.{
  ℕ, ◌+◌, ◌*◌, ◌≤◌, ◌≡◌, Bool, false, ◌||◌, Option, none, some, String, leb, if◌then◌else◌, str_eq,
  inl, inr, Bool-cases, refl,
}
use thesdel.Errors.{AppError, Result, ok, err}
use thesdel.Auth.Data.{GoogleClaims}

-- The payload of an access token; a token of another issuer with the key may lack a claim.
pub record Payload : Type 0 where
  pub sub : Option String
  pub tier : Option String
  pub issued_at : ℕ
  pub expires_at : ℕ
  pub kind : Option String

-- What `jwt.decode` gives or raises.
pub data Decoded : Type 0 where
  payload : Payload → Decoded
  expired_signature invalid_token : Decoded

-- PyJWT with the key and the algorithm.
pub record Jwt : Type 0 where
  pub encode : Payload → String
  pub decode : ℕ → String → Decoded

-- What PyJWT documents: a token that was encoded decodes, from its iat on, to its payload until the
-- moment of its exp, and is expired from there on.
abbrev pub IsDecoded : Jwt → ℕ → Payload → Type 0
IsDecoded jwt now p =
    p.issued_at ≤ now
    → jwt.decode now (jwt.encode p)
      ≡ (if leb p.expires_at now then Decoded.expired_signature else Decoded.payload p)

-- What Google's library reads from an ID token that it verifies. An empty text is falsy.
pub record GoogleIdToken : Type 0 where
  pub iss : String
  pub sub : String
  pub email : Option String
  pub email_verified : Bool
  pub name : Option String

unfoldable pub given_text : Option String → Option String
given_text none = none
given_text (some t) = if str_eq t "" then none else some t

abbrev pub is_google : String → Bool
is_google iss = str_eq iss "accounts.google.com" || str_eq iss "https://accounts.google.com"

-- `local_part` is `email.split("@")[0]`, for a token without a name.
unfoldable pub verify_google_id_token :
    (String → String) → Option GoogleIdToken → Result GoogleClaims
unfolding given_text
verify_google_id_token local_part none = err AppError.unauthenticated
verify_google_id_token local_part (some t) =
    if is_google t.iss
    then (elim (given_text t.email) [
      | none ↦ err AppError.unauthenticated
      | some email ↦ ok (record {
        sub = t.sub;
        email = email;
        email_verified = t.email_verified;
        display_name = elim (given_text t.name) [ none ↦ local_part email | some name ↦ name ];
      })
    ])
    else err AppError.unauthenticated

module _ (jwt : Jwt) (access_token_ttl_minutes : ℕ) where
  open jwt use {encode, decode}

  abbrev pub access_payload : ℕ → String → String → Payload
  access_payload now user_id tier = record {
    sub = some user_id;
    tier = some tier;
    issued_at = now;
    expires_at = now + access_token_ttl_minutes * 60;
    kind = some "access";
  }

  unfoldable pub create_access_token : ℕ → String → String → String
  create_access_token now user_id tier = encode (access_payload now user_id tier)

  abbrev pub is_access : Option String → Bool
  is_access none = false
  is_access (some kind) = str_eq kind "access"

  abbrev pub accepted : Decoded → Result Payload
  accepted (Decoded.payload p) = if is_access p.kind then ok p else err AppError.token_invalid
  accepted Decoded.expired_signature = err AppError.token_expired
  accepted Decoded.invalid_token = err AppError.token_invalid

  unfoldable pub decode_access_token : ℕ → String → Result Payload
  decode_access_token now token = accepted (decode now token)

  -- The claim that `get_current_user` looks up: a token without one, or with one that is no
  -- ObjectId, is an error that nothing catches.
  abbrev pub token_subject : (String → Option ℕ) → Result Payload → Result ℕ
  token_subject object_id (err e) = err e
  token_subject object_id (ok p) = elim p.sub [
    | none ↦ err AppError.internal_error
    | some user_id ↦ elim (object_id user_id) [
      | none ↦ err AppError.internal_error
      | some id ↦ ok id
    ]
  ]

  unfoldable pub claimed_user : (String → Option ℕ) → ℕ → Option String → Option (Result ℕ)
  unfolding decode_access_token
  claimed_user object_id now none = none
  claimed_user object_id now (some token) =
      some (token_subject object_id (decode_access_token now token))

  -- A token names its user from the moment it is issued until the ttl is over, and is expired from
  -- there on.
  pub claimed_user-create_access_token :
      (object_id : String → Option ℕ) (id issued now : ℕ) (user_id tier : String)
      → IsDecoded jwt now (access_payload issued user_id tier)
      → object_id user_id ≡ some id
      → issued ≤ now
      → claimed_user object_id now (some (create_access_token issued user_id tier))
        ≡ some (
            if leb (issued + access_token_ttl_minutes * 60) now
            then err AppError.token_expired
            else ok id)
  unfolding claimed_user decode_access_token create_access_token
  claimed_user-create_access_token object_id id issued now user_id tier decoded known le =
      elim (Bool-cases (leb (issued + access_token_ttl_minutes * 60) now)) [
        | inl over ↦ rw (claimed_user, decode_access_token, decoded le, over) refl
        | inr lives ↦ rw (claimed_user, decode_access_token, decoded le, lives, known) refl
      ]
