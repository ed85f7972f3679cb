-- ===== src/Life/Run.antt =====
-- `LitheralLifeService._run` from end to end: the schedule that is stored, and the push of a
-- conflict.
use thesdel.Base.{
  ℕ, suc, ◌≡◌, refl, sym, ap, ◌∙◌, Bool, true, false, Option, none, some, String, List, [], ◌∷◌,
  ◌++◌, All, filter, map, any, ◌==◌, if◌then◌else◌, arith, ◌||◌,
}
use thesdel.Errors.{AppError, Result, ok, err}
use thesdel.Mongo.{Mongo}
use thesdel.Mongo.Replace.{replace_all-returned, replace_all-mine, replace_all-other}
use thesdel.Redis.{Redis, notif_dedup}
use thesdel.Time.{time_to_minutes}
use thesdel.Time.RoundTrip.{time_to_minutes-minutes_to_time}
use thesdel.Usage.{Period, UsageDb, check_and_reserve, mark_succeeded, mark_failed, mark_outcome}
use thesdel.Notifications.{
  Push, life_conflict, dedup_or_skip, dedup_ttl_seconds, enqueue_push,
  notify_life_schedule_conflict,
}
use thesdel.Life.Defs.{FixedBlock, RoutineInput, LifeBlock, build_life_schedule}
use thesdel.Life.Service.{
  StoredLifeBlock, LifeDb, stored_life_blocks, is_users_life, usage_of, with_usage,
  replace_all_for_user, tell_conflict, schedule_week, run, fixed_blocks, routines_of,
}

abbrev pub life_block_at : StoredLifeBlock → Option ℕ → Option ℕ → Option LifeBlock
life_block_at d (some start) (some stop) = some (record {
  source_type = d.source_type;
  source_id = d.source_id;
  day_of_week = d.day_of_week;
  start_minutes = start;
  end_minutes = stop;
  conflict_flag = d.conflict_flag;
})
life_block_at d none stop = none
life_block_at d (some start) none = none

-- A stored block, its times read back.
abbrev pub read_back : StoredLifeBlock → Option LifeBlock
read_back d = life_block_at d (time_to_minutes d.start_time) (time_to_minutes d.end_time)

abbrev pub flagged : List LifeBlock → Bool
flagged bs = any (λ b. b.conflict_flag) bs

module _ (ids : ℕ → ℕ) (user_id now : ℕ) where
  map-read_back :
      (i : ℕ) (bs : List LifeBlock)
      → map read_back (stored_life_blocks ids user_id now i bs) ≡ map (λ b. some b) bs
  unfolding stored_life_blocks
  map-read_back i [] = refl
  map-read_back i (b ∷ bs) =
      rw
        (
          time_to_minutes-minutes_to_time b.start_minutes,
          time_to_minutes-minutes_to_time b.end_minutes,
        )
        (ap (λ xs. some b ∷ xs) (map-read_back (suc i) bs))

  any-stored :
      (i : ℕ) (bs : List LifeBlock)
      → any (λ d. d.conflict_flag) (stored_life_blocks ids user_id now i bs) ≡ flagged bs
  unfolding stored_life_blocks
  any-stored i [] = refl
  any-stored i (b ∷ bs) = ap (λ r. b.conflict_flag || r) (any-stored (suc i) bs)

  stored_mine :
      (i : ℕ) (bs : List LifeBlock)
      → All (λ d. is_users_life user_id d ≡ true) (stored_life_blocks ids user_id now i bs)
  unfolding stored_life_blocks
  stored_mine i [] = tt
  stored_mine i (b ∷ bs) = (ground arith, stored_mine (suc i) bs)

  stored_not_other :
      (other i : ℕ) (bs : List LifeBlock)
      → (other == user_id) ≡ false
      → All (λ d. is_users_life other d ≡ false) (stored_life_blocks ids user_id now i bs)
  unfolding stored_life_blocks
  stored_not_other other i [] h = tt
  stored_not_other other i (b ∷ bs) h = (ground arith, stored_not_other other (suc i) bs h)

module _ (mongo : Mongo) (redis : Redis) where
  open mongo use {Collection, docs}

  abbrev pub schedule_of : ℕ → LifeDb mongo redis → List StoredLifeBlock
  schedule_of user_id s = filter (is_users_life user_id) (docs s.life_blocks)

  -- The queue behind a run: one push for the user, if something conflicts and the guard lets it.
  abbrev pub queue_after : Bool → ℕ → Bool → LifeDb mongo redis → List Push
  queue_after up user_id conflict s =
      if conflict
      then (if (dedup_or_skip redis (notif_dedup "life_conflict" user_id) dedup_ttl_seconds
            s.keys).0
          then (if up
              then s.queue ++ record { user_id = user_id; kind = life_conflict } ∷ []
              else s.queue)
          else s.queue)
      else s.queue

  tell_conflict-queue :
      (up : Bool) (user_id : ℕ) (ds : List StoredLifeBlock) (s : LifeDb mongo redis)
      → (tell_conflict mongo redis up user_id ds s).queue
        ≡ queue_after up user_id (any (λ d. d.conflict_flag) ds) s
  unfolding tell_conflict notify_life_schedule_conflict enqueue_push
  tell_conflict-queue up user_id ds s = ground arith

  tell_conflict-life_blocks :
      (up : Bool) (user_id : ℕ) (ds : List StoredLifeBlock) (s : LifeDb mongo redis)
      → (tell_conflict mongo redis up user_id ds s).life_blocks ≡ s.life_blocks
  unfolding tell_conflict
  tell_conflict-life_blocks up user_id ds s = ground arith

  -- How a run with a reservation ends, by what the solver is given: with the keys as the reservation
  -- left them.
  abbrev pub Schedules :
      Bool
      → ℕ
      → ℕ
      → LifeDb mongo redis
      → Option (List FixedBlock)
      → Option (List RoutineInput)
      → Result (List StoredLifeBlock) × LifeDb mongo redis
      → Type 0
  Schedules up user_id other s none routines out =
      (out.0 ≡ err AppError.internal_error)
      × ((out.1).life_blocks ≡ s.life_blocks)
      × ((out.1).queue ≡ s.queue)
  Schedules up user_id other s (some fixed) none out =
      (out.0 ≡ err AppError.internal_error)
      × ((out.1).life_blocks ≡ s.life_blocks)
      × ((out.1).queue ≡ s.queue)
  Schedules up user_id other s (some fixed) (some routines) out =
      (out.0 ≡ ok (schedule_of user_id out.1))
      × (map read_back (schedule_of user_id out.1)
          ≡ map (λ b. some b) (build_life_schedule fixed routines))
      × (schedule_of other out.1 ≡ schedule_of other s)
      × ((out.1).queue ≡ queue_after up user_id (flagged (build_life_schedule fixed routines)) s)

  schedule_week-Schedules :
      (up : Bool) (ids : ℕ → ℕ) (log_id now user_id other : ℕ) (fixed : Option (List FixedBlock))
      (routines : Option (List RoutineInput)) (s : LifeDb mongo redis)
      → (other == user_id) ≡ false
      → Schedules up user_id other s fixed routines
          (schedule_week mongo redis up ids log_id now user_id fixed routines s)
  unfolding schedule_week replace_all_for_user mark_failed mark_succeeded mark_outcome
  schedule_week-Schedules up ids log_id now user_id other none routines s h = (refl, refl, refl)
  schedule_week-Schedules up ids log_id now user_id other (some fixed) none s h = (refl, refl, refl)
  schedule_week-Schedules up ids log_id now user_id other (some fixed) (some routines) s h =
      let plan = build_life_schedule fixed routines in
      let blocks = stored_life_blocks ids user_id now 0 plan in
      let replaced = replace_all_for_user mongo redis user_id blocks s.life_blocks in
      let returned = replace_all-returned mongo (is_users_life user_id) blocks s.life_blocks in
      let t : LifeDb mongo redis =
        with_usage mongo redis (mark_succeeded mongo redis log_id none (usage_of mongo redis s))
          (record s { life_blocks = replaced.1 }) in
      let stored = tell_conflict-life_blocks up user_id replaced.0 t in
      let mine =
        ap (λ c. filter (is_users_life user_id) (docs c)) stored
        ∙ replace_all-mine mongo (is_users_life user_id) blocks s.life_blocks
            (stored_mine ids user_id now 0 plan) in
      (
        ap ok (returned ∙ sym mine),
        ap (map read_back) mine ∙ map-read_back ids user_id now 0 plan,
        ap (λ c. filter (is_users_life other) (docs c)) stored
            ∙ replace_all-other mongo (is_users_life user_id) (is_users_life other) blocks
                s.life_blocks (λ d e. ground arith)
                (stored_not_other ids user_id now other 0 plan h),
        tell_conflict-queue up user_id replaced.0 t
            ∙ ap (λ b. queue_after up user_id b s)
                (ap (any (λ d. d.conflict_flag)) returned ∙ any-stored ids user_id now 0 plan),
      )

  -- How a run ends, by how its reservation ends.
  abbrev pub Runs :
      Bool
      → (ℕ → String)
      → ℕ
      → ℕ
      → LifeDb mongo redis
      → Result ℕ × UsageDb mongo redis
      → Result (List StoredLifeBlock) × LifeDb mongo redis
      → Type 0
  Runs up id_text user_id other s (err e, u) out =
      (out.0 ≡ err e) × ((out.1).life_blocks ≡ s.life_blocks) × ((out.1).queue ≡ s.queue)
  Runs up id_text user_id other s (ok log, u) out =
      Schedules up user_id other (with_usage mongo redis u s)
        (fixed_blocks mongo redis id_text user_id s) (routines_of mongo redis id_text user_id s) out

  reserved-Runs :
      (up : Bool) (id_text : ℕ → String) (ids : ℕ → ℕ) (now user_id other : ℕ) (r : Result ℕ)
      (u : UsageDb mongo redis) (s : LifeDb mongo redis)
      → (other == user_id) ≡ false
      → Runs up id_text user_id other s
          (r, u)
          (elim r [
            | err e ↦ (err e, with_usage mongo redis u s)
            | ok log ↦
                schedule_week mongo redis up ids log now user_id
                  (fixed_blocks mongo redis id_text user_id s)
                  (routines_of mongo redis id_text user_id s)
                  (with_usage mongo redis u s)
          ])
  reserved-Runs up id_text ids now user_id other (err e) u s h = (refl, refl, refl)
  reserved-Runs up id_text ids now user_id other (ok log) u s h =
      schedule_week-Schedules up ids log now user_id other
        (fixed_blocks mongo redis id_text user_id s) (routines_of mongo redis id_text user_id s)
        (with_usage mongo redis u s) h

  -- Where the use is granted and every time parses, a run answers with what the user's schedule then
  -- is, which read back is exactly the solver's schedule for the user's entries, study blocks and
  -- routines; the schedules of the other users stay. It pushes to the user once if a block
  -- conflicts, the queue is up and the guard lets it, and nothing otherwise. A run that fails leaves
  -- every schedule and the queue as they were.
  pub run-Runs :
      (up : Bool) (id_text : ℕ → String) (ids : ℕ → ℕ) (log_id now : ℕ) (p : Period)
      (user_id other : ℕ) (feature : String) (limit : Option ℕ) (s : LifeDb mongo redis)
      → (other == user_id) ≡ false
      → Runs up id_text user_id other s
          (check_and_reserve mongo redis log_id user_id feature limit p (usage_of mongo redis s))
          (run mongo redis up id_text ids log_id now p user_id feature limit s)
  unfolding run
  run-Runs up id_text ids log_id now p user_id other feature limit s h =
      let out =
        check_and_reserve mongo redis log_id user_id feature limit p (usage_of mongo redis s) in
      reserved-Runs up id_text ids now user_id other out.0 out.1 s h
