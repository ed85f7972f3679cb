-- ===== src/Usage.antt =====
-- app/usage/service.py and app/usage/repository.py: the monthly caps on generated plans.
pub mod Caps
pub mod Shown
use thesdel.Base.{
  ℕ, suc, ◌+◌, ◌-◌, ◌≡◌, Bool, true, false, ◌&&◌, Option, none, some, String, List, [], ◌∷◌, ltb,
  leb, ◌==◌, if◌then◌else◌, filter, length, str_eq,
}
use thesdel.Errors.{AppError, Result, ok, err, Call}
use thesdel.Mongo.{Mongo}
use thesdel.Redis.{Redis, Key, aicap}

pub data UsageStatus : Type 0 where
  attempted succeeded failed : UsageStatus

-- A document of `ai_usage_log`; `cost_estimate` is never set.
pub record UsageLog : Type 0 where
  pub id : ℕ
  pub user_id : ℕ
  pub feature : String
  pub tokens_used : Option ℕ
  pub status : UsageStatus
  pub created_at : ℕ

-- The parts of a moment that the service reads: the billing month, its first instant and the first
-- of the next, and the seconds until then.
pub record Period : Type 0 where
  pub key : ℕ
  pub start : ℕ
  pub reset_at : ℕ
  pub now : ℕ

pub record CapStatus : Type 0 where
  pub used : ℕ
  pub limit : Option ℕ
  pub resets_at : ℕ

-- `max(1, int((reset - now).total_seconds()))`, in seconds
unfoldable pub seconds_until_reset : Period → ℕ
seconds_until_reset p = if ltb (p.reset_at - p.now) 1 then 1 else p.reset_at - p.now

module _ (mongo : Mongo) (redis : Redis) where
  open mongo use {Collection, docs, insert_one, update_one, find_many}
  open redis use {Db, incr, expire}

  pub record UsageDb : Type 0 where
    pub counters : Db
    pub log : Collection UsageLog

  unfoldable pub log_attempt : ℕ → ℕ → String → Period → Call UsageDb ℕ
  log_attempt id user feature p s = (
    ok id,
    record s {
      log =
          insert_one
            (record {
              id = id;
              user_id = user;
              feature = feature;
              tokens_used = none;
              status = UsageStatus.attempted;
              created_at = p.now;
            })
            s.log;
    },
  )

  -- The part of the try block behind INCR: the first use of a key sets when it expires.
  unfoldable pub set_expiry : Key → ℕ → ℕ → Db → Option Db
  set_expiry key current seconds d = if current == 1 then expire key seconds d else some d

  -- `limit` is none for UNLIMITED.
  unfoldable pub check_and_reserve : ℕ → ℕ → String → Option ℕ → Period → Call UsageDb ℕ
  unfolding log_attempt set_expiry
  check_and_reserve id user feature none p s = log_attempt id user feature p s
  check_and_reserve id user feature (some limit) p s =
      let key = aicap user feature p.key in
      elim (incr key s.counters) [
        | none ↦ (err AppError.service_unavailable, s)
        | some (current, d) ↦ elim (set_expiry key current (seconds_until_reset p) d) [
          | none ↦ (err AppError.service_unavailable, record s { counters = d })
          | some d' ↦
              if ltb limit current
              then (err AppError.cap_reached, record s { counters = d' })
              else log_attempt id user feature p (record s { counters = d' })
        ]
      ]

  unfoldable pub mark_outcome : ℕ → UsageStatus → Option ℕ → UsageDb → UsageDb
  mark_outcome id status tokens s = record s {
    log =
        update_one (λ l. l.id == id) (λ l. record l { status = status; tokens_used = tokens })
          s.log;
  }

  unfoldable pub mark_succeeded : ℕ → Option ℕ → UsageDb → UsageDb
  unfolding mark_outcome
  mark_succeeded id tokens s = mark_outcome id UsageStatus.succeeded tokens s

  unfoldable pub mark_failed : ℕ → UsageDb → UsageDb
  unfolding mark_outcome
  mark_failed id s = mark_outcome id UsageStatus.failed none s

  unfoldable pub count_for_period : ℕ → String → ℕ → UsageDb → ℕ
  count_for_period user feature start s = length (
      find_many (λ l. (l.user_id == user) && str_eq l.feature feature && leb start l.created_at)
        s.log)

  unfoldable pub get_status : ℕ → String → Option ℕ → Period → UsageDb → CapStatus
  unfolding count_for_period
  get_status user feature limit p s = record {
    used = count_for_period user feature p.start s;
    limit = limit;
    resets_at = p.reset_at;
  }
