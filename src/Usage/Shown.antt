-- ===== src/Usage/Shown.antt =====
-- app/usage/router.py: what a user is shown of the caps, which the log counts, against what Redis lets
-- through.
use thesdel.Base.{
  ℕ, ◌+◌, ◌-◌, ◌≤◌, ◌≡◌, Bool, ◌&&◌, some, String, List, [], ◌∷◌, leb, ◌==◌, str_eq, arith, filter,
  length, length-append, ap, ◌∙◌, sym,
}
use thesdel.Errors.{Result, ok, err}
use thesdel.Mongo.{Mongo}
use thesdel.Mongo.Owned.{filter-append}
use thesdel.Redis.{Redis}
use thesdel.Usage.{UsageLog, Period, UsageDb, check_and_reserve, count_for_period, get_status}
use thesdel.Usage.Caps.{attempt, uses, Reserves, check_and_reserve-Reserves, granted, granted-le}

pub record FeatureCapStatus : Type 0 where
  pub feature : String
  pub used : ℕ
  pub limit : ℕ
  pub remaining : ℕ
  pub resets_at : ℕ

module _ (mongo : Mongo) (redis : Redis) where
  open mongo use {docs, find_many_lem}

  -- Subtraction on ℕ is `max(0, limit - used)`.
  unfoldable pub feature_cap_status :
      ℕ → String → ℕ → Period → UsageDb mongo redis → FeatureCapStatus
  unfolding get_status
  feature_cap_status user feature limit p s =
      let status = get_status mongo redis user feature (some limit) p s in
      record {
        feature = feature;
        used = status.used;
        limit = limit;
        remaining = limit - status.used;
        resets_at = status.resets_at;
      }

  -- The two caps are settings.
  unfoldable pub get_ai_usage : ℕ → ℕ → ℕ → Period → UsageDb mongo redis → List FeatureCapStatus
  unfolding feature_cap_status
  get_ai_usage regenerate_cap adjust_cap user p s =
      feature_cap_status user "study_regenerate" regenerate_cap p s
      ∷ feature_cap_status user "life_adjust" adjust_cap p s
      ∷ []

  module _ (user : ℕ) (feature : String) (p : Period) where
    abbrev pub used : UsageDb mongo redis → ℕ
    used s = count_for_period mongo redis user feature p.start s

    abbrev in_period : UsageLog → Bool
    in_period l = (l.user_id == user) && str_eq l.feature feature && leb p.start l.created_at

    -- The state behind a row of calls.
    abbrev pub after_calls : List ℕ → ℕ → UsageDb mongo redis → UsageDb mongo redis
    after_calls [] limit s = s
    after_calls (id ∷ ids) limit s =
        after_calls ids limit (check_and_reserve mongo redis id user feature (some limit) p s).1

    used-docs : (s : UsageDb mongo redis) → used s ≡ length (filter in_period (docs s.log))
    unfolding count_for_period
    used-docs s = ap length (find_many_lem in_period s.log)

    length-filter_one : (x : UsageLog) → length (filter in_period (x ∷ [])) ≤ 1
    length-filter_one x = ground arith

    -- A reservation leaves no more in the log than it counts.
    reserve-used :
        (id limit : ℕ) (s : UsageDb mongo redis) (r : Result ℕ) (s' : UsageDb mongo redis)
        → Reserves mongo redis id user feature limit p s (r, s')
        → used s ≤ uses mongo redis user feature p s
        → used s' ≤ uses mongo redis user feature p s'
    reserve-used id limit s (ok i) s' h le =
        let x = attempt id user feature p in
        let logged : used s' ≡ used s + length (filter in_period (x ∷ [])) =
          used-docs s'
          ∙ ap (λ ls. length (filter in_period ls)) h.3
          ∙ ap length (filter-append in_period (docs s.log) (x ∷ []))
          ∙ length-append (filter in_period (docs s.log)) (filter in_period (x ∷ []))
          ∙ ap (λ n. n + length (filter in_period (x ∷ []))) (sym (used-docs s)) in
        omega (arith, h.2, logged, le, length-filter_one x)
    reserve-used id limit s (err e) s' h le =
        let same : used s' ≡ used s =
          used-docs s' ∙ ap (λ ls. length (filter in_period ls)) h.0 ∙ sym (used-docs s) in
        omega (arith, h.1, same, le)

    calls-used :
        (ids : List ℕ) (limit : ℕ) (s : UsageDb mongo redis)
        → used s ≤ uses mongo redis user feature p s
        → used (after_calls ids limit s) ≤ uses mongo redis user feature p (after_calls ids limit s)
    calls-used [] limit s le = le
    calls-used (id ∷ ids) limit s le =
        let out = check_and_reserve mongo redis id user feature (some limit) p s in
        calls-used ids limit out.1 (
          reserve-used id limit s out.0 out.1
            (check_and_reserve-Reserves mongo redis id user feature limit p s) le)

    -- Of any row of calls in one period no more are granted than the limit leaves, whatever fails in
    -- between; and where the log has no more attempts of the period than Redis counts, which the
    -- calls keep, the user is shown no fewer remaining than that.
    pub feature_cap_status-granted :
        (ids : List ℕ) (limit : ℕ) (s : UsageDb mongo redis)
        → used s ≤ uses mongo redis user feature p s
        → (granted mongo redis ids user feature limit p s
            ≤ limit - uses mongo redis user feature p s)
          × (limit - uses mongo redis user feature p s
              ≤ (feature_cap_status user feature limit p s).remaining)
          × (used (after_calls ids limit s)
              ≤ uses mongo redis user feature p (after_calls ids limit s))
    unfolding feature_cap_status get_status
    feature_cap_status-granted ids limit s le = (
      granted-le mongo redis ids user feature limit p s,
      omega (arith, le),
      calls-used ids limit s le,
    )
