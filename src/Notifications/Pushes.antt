-- ===== src/Notifications/Pushes.antt =====
-- The fan-out of an announcement, the dedup guard and the job that sends.
use thesdel.Base.{
  ℕ, ◌≡◌, refl, ◌⊎◌, inl, inr, Bool, true, false, not, ◌&&◌, some, String, List, [], ◌∷◌, ◌++◌, leb,
  ◌==◌, if◌then◌else◌, str_eq, arith, Any, Bool-cases, ap, ◌∙◌, sym,
}
use thesdel.Mongo.{Mongo}
use thesdel.Redis.{Redis, Key, notif_dedup}
use thesdel.Notifications.{
  Push, PushKind, announcement_new, Sent, JobEnd, DeviceToken, enqueue_push, enqueue_members,
  dedup_ttl_seconds, dedup_or_skip, Triggers, notify_announcement_posted, end_of, max_tries,
  power_of_two, send_each, send_push_to_user,
}
use mathlib.Core.List.{append_assoc, append-nil}

-- The pushes to all members but the poster, in order.
abbrev pub pushes_to : PushKind → ℕ → List ℕ → List Push
pushes_to kind posted_by [] = []
pushes_to kind posted_by (m ∷ ms) =
    let rest = pushes_to kind posted_by ms in
    if m == posted_by then rest else record { user_id = m; kind = kind } ∷ rest

enqueue_members_lem :
    (kind : PushKind) (posted_by : ℕ) (members : List ℕ) (queue : List Push)
    → enqueue_members true kind posted_by members queue ≡ queue ++ pushes_to kind posted_by members
unfolding enqueue_members enqueue_push
enqueue_members_lem kind posted_by [] queue = sym (append-nil queue)
enqueue_members_lem kind posted_by (m ∷ ms) queue = elim (Bool-cases (m == posted_by)) [
  | inl e ↦ rw e (enqueue_members_lem kind posted_by ms queue)
  | inr e ↦ rw e (
      enqueue_members_lem kind posted_by ms (queue ++ record { user_id = m; kind = kind } ∷ [])
      ∙ append_assoc queue (record { user_id = m; kind = kind } ∷ []) (pushes_to kind posted_by ms))
]

-- A queue that is down takes nothing.
enqueue_members_down :
    (kind : PushKind) (posted_by : ℕ) (members : List ℕ) (queue : List Push)
    → enqueue_members false kind posted_by members queue ≡ queue
unfolding enqueue_members enqueue_push
enqueue_members_down kind posted_by [] queue = refl
enqueue_members_down kind posted_by (m ∷ ms) queue = elim (Bool-cases (m == posted_by)) [
  | inl e ↦ rw e (enqueue_members_down kind posted_by ms queue)
  | inr e ↦ rw e (enqueue_members_down kind posted_by ms queue)
]

module _ (redis : Redis) where
  open redis use {Db, present, set_nx, set_nx-present, set_nx-acquired}

  -- With Redis up, the guard passes a key exactly if it is not there, and leaves it there.
  dedup_or_skip_up :
      (key : Key) (ttl : ℕ) (s : Db) (b : Bool) (d : Db)
      → set_nx key ttl s ≡ some (b, d)
      → ((dedup_or_skip redis key ttl s).0 ≡ not (present key s))
        × (present key (dedup_or_skip redis key ttl s).1 ≡ true)
  unfolding dedup_or_skip
  dedup_or_skip_up key ttl s b d h =
      let taken = set_nx-acquired key ttl s h in
      (ground arith, ground (arith, set_nx-present key ttl s h))

  -- With the queue up, an announcement is pushed to every member but the poster, once each and in
  -- order, if its guard is not set or Redis is down, and to nobody else; otherwise nothing is
  -- pushed.
  pub notify_announcement_posted_lem :
      (up : Bool) (class_id announcement_id posted_by : ℕ) (members : List ℕ) (pinned : Bool)
      (s : Triggers redis)
      → let key = notif_dedup "announcement_new" announcement_id in
        (notify_announcement_posted redis up class_id announcement_id posted_by members pinned
          s).queue
        ≡ (if up && (dedup_or_skip redis key dedup_ttl_seconds s.guards).0
            then s.queue
              ++ pushes_to (announcement_new class_id announcement_id pinned) posted_by members
            else s.queue)
  unfolding notify_announcement_posted
  notify_announcement_posted_lem false class_id announcement_id posted_by members pinned s =
      let key = notif_dedup "announcement_new" announcement_id in
      let kind = announcement_new class_id announcement_id pinned in
      elim (Bool-cases (dedup_or_skip redis key dedup_ttl_seconds s.guards).0) [
        | inl e ↦ ground (arith, enqueue_members_down kind posted_by members s.queue)
        | inr e ↦ ground arith
      ]
  notify_announcement_posted_lem true class_id announcement_id posted_by members pinned s =
      let key = notif_dedup "announcement_new" announcement_id in
      let kind = announcement_new class_id announcement_id pinned in
      elim (Bool-cases (dedup_or_skip redis key dedup_ttl_seconds s.guards).0) [
        | inl e ↦ ground (arith, enqueue_members_lem kind posted_by members s.queue)
        | inr e ↦ ground arith
      ]

  -- While Redis is up, posting the same announcement again within the guard's time pushes nothing
  -- more.
  pub notify_announcement_posted_once :
      (class_id id posted_by : ℕ) (members : List ℕ) (pinned : Bool) (s s' : Triggers redis)
      (b b' : Bool) (d d' : Db)
      → s' ≡ notify_announcement_posted redis true class_id id posted_by members pinned s
      → set_nx (notif_dedup "announcement_new" id) dedup_ttl_seconds s.guards ≡ some (b, d)
      → set_nx (notif_dedup "announcement_new" id) dedup_ttl_seconds s'.guards ≡ some (b', d')
      → (notify_announcement_posted redis true class_id id posted_by members pinned s').queue
        ≡ s'.queue
  unfolding notify_announcement_posted dedup_or_skip
  notify_announcement_posted_once class_id id posted_by members pinned s s' b b' d d' same up up' =
      let key = notif_dedup "announcement_new" id in
      let guards : s'.guards ≡ d = ground arith in
      let set = set_nx-present key dedup_ttl_seconds s.guards up in
      let taken = set_nx-acquired key dedup_ttl_seconds s'.guards up' in
      let there : present key s'.guards ≡ true = ap (present key) guards ∙ set in
      let skipped : b' ≡ false = ground arith in ground arith

-- Some device of the list has a send that failed.
abbrev pub HasFailed : (String → Sent) → List DeviceToken → Type 0
HasFailed fcm ds = Any (λ d. fcm d.token ≡ Sent.failed) ds

module _ (mongo : Mongo) (fcm : String → Sent) where
  open mongo use {Collection, docs, find_many}

  send_each_failed :
      (ds : List DeviceToken) (devices : Collection DeviceToken)
      → (send_each mongo fcm ds devices).0 ≡ true
      → HasFailed fcm ds
  unfolding send_each
  send_each_failed [] devices h = absurd (ground arith)
  send_each_failed (d ∷ ds) devices h =
      go (fcm d.token) refl (λ devices' k. send_each_failed ds devices' k)
    where
      go :
          (r : Sent)
          → fcm d.token ≡ r
          → ((devices' : Collection DeviceToken)
              → (send_each mongo fcm ds devices').0 ≡ true
              → HasFailed fcm ds)
          → HasFailed fcm (d ∷ ds)
      go Sent.delivered e ih = inr (ih devices (ground arith))
      go Sent.token_invalid e ih =
          inr (ih (mongo.delete_one (λ x. str_eq x.token d.token) devices) (ground arith))
      go Sent.failed e ih = inl e

  -- The job is retried or given up only if some send to a device of the user failed; it is given
  -- up from the fifth try on, and until then tried again after 2, 4, 8 or 16 seconds.
  pub send_push_to_user_ends :
      (job_try user : ℕ) (devices : Collection DeviceToken)
      → let end = (send_push_to_user mongo fcm job_try user devices).0 in
        (end ≡ JobEnd.done)
        ⊎ HasFailed fcm (find_many (λ d. d.user_id == user) devices)
          × (end ≡ (
              if leb max_tries job_try
              then JobEnd.dead_letter
              else JobEnd.retry (power_of_two job_try)))
  unfolding send_push_to_user end_of
  send_push_to_user_ends job_try user devices =
      let ds = find_many (λ d. d.user_id == user) devices in
      elim (Bool-cases (send_each mongo fcm ds devices).0) [
        | inl e ↦ inr (send_each_failed ds devices e, ground arith)
        | inr e ↦ inl (ground arith)
      ]
