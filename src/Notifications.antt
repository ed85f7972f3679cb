-- ===== src/Notifications.antt =====
-- app/notifications: device tokens, the triggers of pushes and the job that sends them. An ObjectId
-- is a number. What FCM answers for a device token is a parameter.
pub mod Pushes
pub mod Fcm
pub mod Unique
pub mod Prune
use thesdel.Base.{
  ℕ, suc, ◌+◌, ◌*◌, Bool, true, false, ◌&&◌, ◌||◌, Option, none, some, String, List, [], ◌∷◌, ◌++◌,
  leb, ◌==◌, if◌then◌else◌, str_eq, is_some,
}
use thesdel.Errors.{AppError, Result, ok, err, Call}
use thesdel.Mongo.{Mongo}
use thesdel.Redis.{Redis, Key, notif_dedup}

pub record DeviceToken : Type 0 where
  pub token : String
  pub user_id : ℕ
  pub platform : String
  pub created_at : ℕ
  pub last_seen_at : ℕ

-- What a push tells.
pub data PushKind : Type 0 where
  announcement_new : ℕ → ℕ → Bool → PushKind
  life_conflict : PushKind
  study_reminder : String → ℕ → String → PushKind

-- A job on the queue.
pub record Push : Type 0 where
  pub user_id : ℕ
  pub kind : PushKind

abbrev pub dedup_ttl_seconds : ℕ
dedup_ttl_seconds = 300

abbrev pub max_tries : ℕ
max_tries = 5

-- The answers of `send_push`: sent, a dead token, any other error.
pub data Sent : Type 0 where
  delivered token_invalid failed : Sent

-- How a job ends: done, given up, or to be tried again after so many seconds.
pub data JobEnd : Type 0 where
  done dead_letter : JobEnd
  retry : ℕ → JobEnd

unfoldable pub power_of_two : ℕ → ℕ
power_of_two ℕ.zero = 1
power_of_two (suc n) = 2 * power_of_two n

-- `enqueue_push_to_user`: a queue that is down is logged and passed over.
unfoldable pub enqueue_push : Bool → Push → List Push → List Push
enqueue_push up push queue = if up then queue ++ push ∷ [] else queue

-- `for member_id in member_user_ids`, without the poster
unfoldable pub enqueue_members : Bool → PushKind → ℕ → List ℕ → List Push → List Push
unfolding enqueue_push
enqueue_members up kind posted_by [] queue = queue
enqueue_members up kind posted_by (member ∷ members) queue =
    enqueue_members up kind posted_by members (
      if member == posted_by
      then queue
      else enqueue_push up (record { user_id = member; kind = kind }) queue)

-- A transient failure is tried again, two seconds to the number of the try later, or given up.
unfoldable pub end_of : Bool → ℕ → JobEnd
unfolding power_of_two
end_of false job_try = JobEnd.done
end_of true job_try =
    if leb max_tries job_try then JobEnd.dead_letter else JobEnd.retry (power_of_two job_try)

module _ (mongo : Mongo) where
  open mongo use {Collection, find_one, find_many, insert_one, update_one, delete_one}

  -- `find_one_and_update` with `upsert`, keyed on the token.
  unfoldable pub upsert : ℕ → ℕ → String → String → Collection DeviceToken → Collection DeviceToken
  upsert now user token platform devices =
      if is_some (find_one (λ d. str_eq d.token token) devices)
      then update_one (λ d. str_eq d.token token)
          (λ d. record d { user_id = user; platform = platform; last_seen_at = now }) devices
      else insert_one
          (record {
            token = token;
            user_id = user;
            platform = platform;
            created_at = now;
            last_seen_at = now;
          })
          devices

  abbrev pub is_owned : ℕ → String → DeviceToken → Bool
  is_owned user token d = (d.user_id == user) && str_eq d.token token

  unfoldable pub unregister_device : ℕ → String → Call (Collection DeviceToken) (Unit {0})
  unregister_device user token devices =
      if is_some (find_one (is_owned user token) devices)
      then (ok tt, delete_one (is_owned user token) devices)
      else (err AppError.not_found, devices)

  -- The loop over the tokens; a dead one is pruned. It tells whether some send failed otherwise.
  unfoldable pub send_each :
      (String → Sent) → List DeviceToken → Collection DeviceToken → Bool × Collection DeviceToken
  send_each fcm [] devices = (false, devices)
  send_each fcm (d ∷ ds) devices = elim (fcm d.token) [
    | Sent.delivered ↦ send_each fcm ds devices
    | Sent.token_invalid ↦ send_each fcm ds (delete_one (λ e. str_eq e.token d.token) devices)
    | Sent.failed ↦ (true, (send_each fcm ds devices).1)
  ]

  unfoldable pub send_push_to_user :
      (String → Sent) → ℕ → ℕ → Collection DeviceToken → JobEnd × Collection DeviceToken
  unfolding send_each end_of
  send_push_to_user fcm job_try user devices =
      let (transient, devices') =
        send_each fcm (find_many (λ d. d.user_id == user) devices) devices in
      (end_of transient job_try, devices')

module _ (redis : Redis) where
  open redis use {Db, set_nx}

  pub record Triggers : Type 0 where
    pub guards : Db
    pub queue : List Push

  -- `_dedup_or_skip`: a Redis that is down lets the push through.
  unfoldable pub dedup_or_skip : Key → ℕ → Db → Bool × Db
  dedup_or_skip key ttl s = elim (set_nx key ttl s) [ none ↦ (true, s) | some r ↦ r ]

  unfoldable pub notify_announcement_posted : Bool → ℕ → ℕ → ℕ → List ℕ → Bool → Triggers → Triggers
  unfolding dedup_or_skip enqueue_members
  notify_announcement_posted up class_id announcement_id posted_by members pinned s =
      let (first, g) =
        dedup_or_skip (notif_dedup "announcement_new" announcement_id) dedup_ttl_seconds s.guards in
      if first
      then record {
        guards = g;
        queue =
            enqueue_members up (announcement_new class_id announcement_id pinned) posted_by members
              s.queue;
      }
      else record s { guards = g }

  unfoldable pub notify_life_schedule_conflict : Bool → ℕ → Triggers → Triggers
  unfolding dedup_or_skip enqueue_push
  notify_life_schedule_conflict up user s =
      let (first, g) =
        dedup_or_skip (notif_dedup "life_conflict" user) dedup_ttl_seconds s.guards in
      if first
      then record {
        guards = g;
        queue = enqueue_push up (record { user_id = user; kind = life_conflict }) s.queue;
      }
      else record s { guards = g }
