-- ===== src/Auth/Data.antt =====
-- The documents, values and settings of app/auth.
use thesdel.Base.{ℕ, Bool, true, false, Option, none, some, String, str_eq}

pub record User : Type 0 where
  pub id : ℕ
  pub email : String
  pub password_hash : Option String
  pub email_verified_at : Option ℕ
  pub display_name : String
  pub tier : String
  pub google_id : Option String

pub record Session : Type 0 where
  pub id : ℕ
  pub user_id : ℕ
  pub refresh_token_hash : String
  pub family_id : String
  pub device_label : Option String
  pub created_at : ℕ
  pub expires_at : ℕ
  pub revoked_at : Option ℕ

pub data Purpose : Type 0 where
  email_verification password_reset : Purpose

pub record AuthToken : Type 0 where
  pub id : ℕ
  pub user_id : ℕ
  pub purpose : Purpose
  pub token_hash : String
  pub created_at : ℕ
  pub expires_at : ℕ
  pub used_at : Option ℕ
  pub sent_at : Option ℕ

-- A job on the queue: the email of a token.
pub record EmailJob : Type 0 where
  pub purpose : Purpose
  pub user_id : ℕ
  pub email : String
  pub token : String

pub record TokenPair : Type 0 where
  pub access_token : String
  pub refresh_token : String

-- What a call draws: the clock where it checks and where it writes, new ids and random tokens, and
-- whether the queue takes a job.
pub record Draws : Type 0 where
  pub now : ℕ
  pub stamp : ℕ
  pub user_id : ℕ
  pub session_id : ℕ
  pub refresh_token : String
  pub family_id : String
  pub token_id : ℕ
  pub token : String
  pub queue_up : Bool

-- The settings, the ttls in seconds, and the functions of libraries.
pub record AuthConfig : Type 0 where
  pub refresh_token_ttl : ℕ
  pub email_verification_ttl : ℕ
  pub password_reset_ttl : ℕ
  pub lower : String → String
  pub hash_opaque_token : String → String
  pub hash_password : String → String
  pub verify_password : String → String → Bool
  pub create_access_token : ℕ → String → String

-- The claims of a Google ID token that was verified.
pub record GoogleClaims : Type 0 where
  pub sub : String
  pub email : String
  pub email_verified : Bool
  pub display_name : String

abbrev pub same_purpose : Purpose → Purpose → Bool
same_purpose Purpose.email_verification Purpose.email_verification = true
same_purpose Purpose.password_reset Purpose.password_reset = true
same_purpose p q = false

abbrev pub is_none : Option ℕ → Bool
is_none none = true
is_none (some t) = false

abbrev pub same_google : Option String → Option String → Bool
same_google (some a) (some b) = str_eq a b
same_google none b = false
same_google a none = false

abbrev pub revoke_at : ℕ → Session → Session
revoke_at now x = record x { revoked_at = some now }

abbrev pub use_at : ℕ → AuthToken → AuthToken
use_at now t = record t { used_at = some now }
