-- ===== src/Tests/Guards.antt =====
-- Caps, rate limits, pushes and uploads on a database and a Redis that are up.
use thesdel.Base.{
  filter, any, not, ◌&&◌, ◌==◌, zero, suc, ap, length, take, drop, ℕ, ◌-◌, ◌≤◌, ◌<◌, ◌≡◌, refl,
  true, false, Option, none, some, String, List, [], ◌∷◌, ◌++◌, arith, str_eq, if◌then◌else◌, leb,
}
use thesdel.Errors.{ok}
use thesdel.Mongo.{in_memory}
use thesdel.Redis.{Key, limiter, notif_dedup, Keys, no_keys, take_key, live_redis}
use thesdel.Usage.{count_for_period, Period, UsageDb}
use thesdel.Usage.Shown.{feature_cap_status, used, after_calls, feature_cap_status-granted}
use thesdel.Usage.Caps.{granted, uses}
use thesdel.RateLimit.{check_rate_limit, over_limit, check_rate_limit-no_expiry}
use thesdel.Notifications.{
  DeviceToken, Sent, JobEnd, Triggers, dedup_ttl_seconds, max_tries, power_of_two,
  send_push_to_user, dedup_or_skip, notify_announcement_posted,
}
use thesdel.Notifications.Fcm.{send_push}
use thesdel.Notifications.Prune.{is_dead, has_failed, send_push_to_user_prunes}
use thesdel.Files.{
  ImageFormat, ImageOpen, FileUpload, FileDb, storage_put, max_upload_bytes,
  upload_timetable_import, store_upload, reencode_image, content_type_of,
}
use thesdel.Files.Routes.{Reader, upload_route, upload_route_lem}
use thesdel.Files.Uploads.{IsImage, upload_timetable_import_accepts}

abbrev june : Period
june = record { key = 24306; start = 100; reset_at = 2000; now = 1500 }

abbrev usage : UsageDb in_memory live_redis
usage = record { counters = no_keys; log = [] }

nothing_used :
    used in_memory live_redis 1 "study_plan" june usage
    ≤ uses in_memory live_redis 1 "study_plan" june usage
unfolding count_for_period
nothing_used = omega arith

feature_cap_status-granted_example :
    (granted in_memory live_redis (11 ∷ 12 ∷ 13 ∷ []) 1 "study_plan" 2 june usage
      ≤ 2 - uses in_memory live_redis 1 "study_plan" june usage)
    × (2 - uses in_memory live_redis 1 "study_plan" june usage
        ≤ (feature_cap_status in_memory live_redis 1 "study_plan" 2 june usage).remaining)
    × (used in_memory live_redis 1 "study_plan" june
          (after_calls in_memory live_redis 1 "study_plan" june (11 ∷ 12 ∷ 13 ∷ []) 2 usage)
        ≤ uses in_memory live_redis 1 "study_plan" june
            (after_calls in_memory live_redis 1 "study_plan" june (11 ∷ 12 ∷ 13 ∷ []) 2 usage))
feature_cap_status-granted_example =
    feature_cap_status-granted in_memory live_redis 1 "study_plan" june (11 ∷ 12 ∷ 13 ∷ []) 2 usage
      nothing_used

login_passes : (check_rate_limit live_redis (limiter "login:ip") 5 60 true no_keys).0 ≡ ok tt
unfolding check_rate_limit over_limit
login_passes = refl

-- A key whose EXPIRE failed: counted once, with no expiry.
abbrev stuck : Keys
stuck = record no_keys { counts = λ k. 1 }

check_rate_limit-no_expiry_example :
    let s' = (check_rate_limit live_redis (limiter "login:ip") 5 60 true stuck).1 in
    (s'.expiries (limiter "login:ip") ≡ none) × (1 ≤ s'.counts (limiter "login:ip"))
check_rate_limit-no_expiry_example =
    check_rate_limit-no_expiry live_redis (limiter "login:ip") 5 60 true stuck (ground arith) refl

abbrev triggers : Triggers live_redis
triggers = record { guards = no_keys; queue = [] }

abbrev posted : Triggers live_redis
posted = notify_announcement_posted live_redis true 3 8 1 (1 ∷ 2 ∷ 4 ∷ []) false triggers

abbrev guard : Key
guard = notif_dedup "announcement_new" 8

set_again :
    live_redis.set_nx guard dedup_ttl_seconds posted.guards
    ≡ some (false, take_key guard posted.guards)
unfolding notify_announcement_posted dedup_or_skip
set_again = refl

abbrev laptop : DeviceToken
laptop = record { token = "t1"; user_id = 2; platform = "web"; created_at = 1; last_seen_at = 1 }

abbrev phone : DeviceToken
phone = record { token = "t2"; user_id = 2; platform = "ios"; created_at = 3; last_seen_at = 4 }

-- The laptop is no longer registered, and the phone is not reached.
abbrev fcm : String → Sent
fcm token = send_push true (
    if str_eq token "t1"
    then some (record { failure = 1; results = some "NotRegistered" ∷ [] })
    else none)

send_push_to_user_prunes_example :
    let out = send_push_to_user in_memory fcm 2 2 (laptop ∷ phone ∷ []) in
    (out.1 ≡ filter (λ d. not ((d.user_id == 2) && is_dead (fcm d.token))) (laptop ∷ phone ∷ []))
    × (out.0 ≡ (
        if any (λ d. (d.user_id == 2) && has_failed (fcm d.token)) (laptop ∷ phone ∷ [])
        then (if leb max_tries 2 then JobEnd.dead_letter else JobEnd.retry (power_of_two 2))
        else JobEnd.done))
send_push_to_user_prunes_example =
    send_push_to_user_prunes fcm in_memory 2 2 (laptop ∷ phone ∷ []) ((refl, tt), (tt, tt))

abbrev decode : List ℕ → ImageOpen
decode raw =
    ImageOpen.opened
      (record { format = ImageFormat.png; width = 640; height = 480; reencoded = some (7 ∷ []) })

abbrev object_id : String → Option ℕ
object_id t = if str_eq t "u2" then some 2 else none

abbrev no_files : FileDb in_memory object_id
no_files = record { files = []; storage = [] }

abbrev photo : FileUpload
photo = record {
  id = 60;
  user_id = 2;
  r2_key = "imports/60";
  content_type = "image/png";
  size_bytes = 1;
  is_pending_parse = true;
  created_at = 500;
}

abbrev uploaded : FileDb in_memory object_id
uploaded = record {
  files = photo ∷ [];
  storage = record { key = "imports/60"; content = 7 ∷ []; content_type = "image/png" } ∷ [];
}

photo_accepted :
    upload_timetable_import in_memory object_id decode 500 60 "imports/60" "u2"
      (1 ∷ 2 ∷ [])
      no_files
    ≡ (ok photo, uploaded)
unfolding upload_timetable_import store_upload storage_put reencode_image content_type_of
photo_accepted = refl

upload_timetable_import_accepts_example :
    (0 < 2)
    × (2 ≤ max_upload_bytes)
    × ((bytes : List ℕ) × IsImage (decode (1 ∷ 2 ∷ [])) (bytes, "image/png")
        × (uploaded.storage ≡ storage_put "imports/60" bytes "image/png" [])
        × (object_id "u2" ≡ some 2)
        × (uploaded.files ≡ [] ++ photo ∷ []))
upload_timetable_import_accepts_example =
    upload_timetable_import_accepts in_memory object_id decode 500 60 "imports/60" "u2" (1 ∷ 2 ∷ [])
      no_files uploaded photo photo_accepted

take-drop : (n : ℕ) (xs : List ℕ) → take n xs ++ drop n xs ≡ xs
take-drop zero xs = refl
take-drop (suc n) [] = refl
take-drop (suc n) (x ∷ xs) = ap (λ r. x ∷ r) (take-drop n xs)

nothing_taken : (n : ℕ) (xs : List ℕ) → 0 < n → length (take n xs) ≡ 0 → xs ≡ []
nothing_taken zero xs lt h = absurd (omega arith)
nothing_taken (suc n) [] lt h = refl
nothing_taken (suc n) (x ∷ xs) lt h = absurd (omega arith)

-- A file that is a list of bytes.
abbrev bytes_reader : Reader (List ℕ)
bytes_reader = record {
  left = λ f. f;
  read = λ n f. (take n f, drop n f);
  read_next = take-drop;
  read_ends = nothing_taken;
}

upload_route_lem_example :
    upload_route bytes_reader in_memory object_id decode 500 60 "imports/60" "u2"
      (1 ∷ 2 ∷ [])
      no_files
    ≡ upload_timetable_import in_memory object_id decode 500 60 "imports/60" "u2"
        (1 ∷ 2 ∷ [])
        no_files
upload_route_lem_example =
    upload_route_lem bytes_reader in_memory object_id decode 500 60 "imports/60" "u2" (1 ∷ 2 ∷ [])
      no_files
