-- ===== src/Notifications/Fcm.antt =====
-- app/shared/push.py: what a push to one device token comes to, by FCM's answer. The request itself is
-- httpx's: an answer is none where it raises, or where its status is that of an error.
use thesdel.Base.{
  ℕ, Bool, true, false, ◌||◌, Option, none, some, String, List, [], ◌∷◌, leb, if◌then◌else◌, str_eq,
}
use thesdel.Notifications.{Sent}

-- The parts of the payload that are read: `failure`, and the `error` of each of the `results`.
pub record FcmPayload : Type 0 where
  pub failure : ℕ
  pub results : List (Option String)

-- `INVALID_TOKEN_ERRORS`
abbrev pub is_invalid_token_error : String → Bool
is_invalid_token_error e =
    str_eq e "NotRegistered" || str_eq e "InvalidRegistration" || str_eq e "MismatchSenderId"

-- `results[0].get("error")`, of an empty result where there is none
abbrev pub first_error : List (Option String) → Option String
first_error [] = none
first_error (error ∷ rest) = error

-- Without a server key nothing is sent, and nothing raised.
unfoldable pub send_push : Bool → Option FcmPayload → Sent
send_push false response = Sent.delivered
send_push true none = Sent.failed
send_push true (some p) =
    if leb 1 p.failure
    then (elim (first_error p.results) [
      | none ↦ Sent.failed
      | some error ↦ if is_invalid_token_error error then Sent.token_invalid else Sent.failed
    ])
    else Sent.delivered
