-- ===== src/Errors.antt =====
-- app/shared/errors.py: the errors that a service raises, by class, and the codes that the client
-- sees. The messages are not modelled.
use thesdel.Base.{ℕ, String}

pub data AppError : Type 0 where
  unauthenticated invalid_credentials token_expired token_invalid forbidden : AppError
  upgrade_required not_found conflict validation_error rate_limited cap_reached : AppError
  service_unavailable internal_error : AppError

unfoldable pub status_code : AppError → ℕ
status_code AppError.unauthenticated = 401
status_code AppError.invalid_credentials = 401
status_code AppError.token_expired = 401
status_code AppError.token_invalid = 401
status_code AppError.forbidden = 403
status_code AppError.upgrade_required = 403
status_code AppError.not_found = 404
status_code AppError.conflict = 409
status_code AppError.validation_error = 422
status_code AppError.rate_limited = 429
status_code AppError.cap_reached = 429
status_code AppError.service_unavailable = 503
status_code AppError.internal_error = 500

unfoldable pub error_code : AppError → String
error_code AppError.unauthenticated = "unauthenticated"
error_code AppError.invalid_credentials = "invalid_credentials"
error_code AppError.token_expired = "token_expired"
error_code AppError.token_invalid = "token_invalid"
error_code AppError.forbidden = "forbidden"
error_code AppError.upgrade_required = "upgrade_required"
error_code AppError.not_found = "not_found"
error_code AppError.conflict = "conflict"
error_code AppError.validation_error = "validation_error"
error_code AppError.rate_limited = "rate_limited"
error_code AppError.cap_reached = "cap_reached"
error_code AppError.service_unavailable = "service_unavailable"
error_code AppError.internal_error = "internal_error"

-- What a call returns or raises.
pub data Result {ℓ} (A : Type ℓ) : Type ℓ where
  ok : A → Result A
  err : AppError → Result A

-- A call that changes the state: what was written before a raise stays written.
abbrev pub Call : Type 0 → Type 0 → Type 0
Call S A = S → Result A × S
