-- ===== src/Usage/Caps.antt =====
-- The cap on generated plans: who gets a unit of it, what is logged, and how many are granted.
use thesdel.Base.{
  ℕ, ◌+◌, ◌-◌, ◌≤◌, ◌<◌, ◌≡◌, refl, ◌⊎◌, inl, inr, none, some, String, List, [], ◌∷◌, ◌++◌, ltb,
  ◌==◌, arith, Bool-cases, Option-cases, by_value,
}
use thesdel.Errors.{AppError, Result, ok, err}
use thesdel.Mongo.{Mongo}
use thesdel.Redis.{Redis, Key, aicap}
use thesdel.Usage.{
  UsageStatus, UsageLog, Period, seconds_until_reset, UsageDb, log_attempt, set_expiry,
  check_and_reserve,
}

-- The log entry of an attempt.
abbrev pub attempt : ℕ → ℕ → String → Period → UsageLog
attempt id user feature p = record {
  id = id;
  user_id = user;
  feature = feature;
  tokens_used = none;
  status = UsageStatus.attempted;
  created_at = p.now;
}

module _ (mongo : Mongo) (redis : Redis) where
  open mongo use {docs, docs-insert_one}
  open redis use {Db, count, incr, expire, incr-count, expire-count}

  -- The uses counted for a user's feature in the period.
  abbrev pub uses : ℕ → String → Period → UsageDb mongo redis → ℕ
  uses user feature p s = count (aicap user feature p.key) s.counters

  -- What a capped reservation does, by how it ends.
  abbrev pub Reserves :
      ℕ → ℕ → String → ℕ → Period → UsageDb mongo redis → Result ℕ × UsageDb mongo redis → Type 0
  Reserves id user feature limit p s (ok i, s') =
      (i ≡ id)
      × (uses user feature p s < limit)
      × (uses user feature p s' ≡ uses user feature p s + 1)
      × (docs s'.log ≡ docs s.log ++ attempt id user feature p ∷ [])
  Reserves id user feature limit p s (err e, s') =
      (docs s'.log ≡ docs s.log)
      × (uses user feature p s ≤ uses user feature p s')
      × ((e ≡ AppError.service_unavailable)
          ⊎ ((e ≡ AppError.cap_reached) × (limit ≤ uses user feature p s)))

  set_expiry-count :
      (k : Key) (current seconds : ℕ) (d d' : Db)
      → set_expiry mongo redis k current seconds d ≡ some d'
      → count k d' ≡ count k d
  unfolding set_expiry
  set_expiry-count k current seconds d d' h = elim (Bool-cases (current == 1)) [
    | inl e ↦ expire-count k k seconds d (rw e at h)
    | inr e ↦ ground arith
  ]

  -- A reservation under a cap is granted only while fewer than the limit are counted; it then
  -- counts one more and logs one attempt. Where it is refused it logs nothing and never lowers the
  -- count: the cap is reached only at the limit, and a failure of Redis refuses too.
  pub check_and_reserve-Reserves :
      (id user : ℕ) (feature : String) (limit : ℕ) (p : Period) (s : UsageDb mongo redis)
      → Reserves id user feature limit p s
          (check_and_reserve mongo redis id user feature (some limit) p s)
  unfolding check_and_reserve log_attempt
  check_and_reserve-Reserves id user feature limit p s =
      let key = aicap user feature p.key in
      let P = Reserves id user feature limit p s in
      let call = check_and_reserve mongo redis id user feature (some limit) p s in
      elim (Option-cases (incr key s.counters)) [
        | inl down ↦
            by_value P {x = call} {y = (err AppError.service_unavailable, s)} (ground arith)
              (refl, omega arith, inl refl)
        | inr ((current, d), up) ↦
            let counted = incr-count key s.counters up in
            elim (Option-cases (set_expiry mongo redis key current (seconds_until_reset p) d)) [
              | inl down ↦
                  by_value P {x = call}
                    {y = (err AppError.service_unavailable, record s { counters = d })}
                    (ground arith) (refl, omega (arith, counted.0, counted.1), inl refl)
              | inr (d', set) ↦
                  let same = set_expiry-count key current (seconds_until_reset p) d d' set in
                  elim (Bool-cases (ltb limit current)) [
                    | inl over ↦
                        by_value P {x = call}
                          {y = (err AppError.cap_reached, record s { counters = d' })}
                          (ground arith)
                          (
                            refl,
                            omega (arith, counted.0, counted.1, same),
                            inr (refl, ground (arith, counted.0)),
                          )
                    | inr under ↦
                        by_value P {x = call}
                          {y = log_attempt mongo redis id user feature p
                            (record s { counters = d' })}
                          (ground arith)
                          (
                            refl,
                            ground (arith, counted.0),
                            omega (arith, counted.0, counted.1, same),
                            docs-insert_one (attempt id user feature p) s.log,
                          )
                  ]
            ]
      ]

  abbrev one_if_ok : Result ℕ → ℕ
  one_if_ok (ok i) = 1
  one_if_ok (err e) = 0

  -- How many of a row of calls are granted.
  abbrev pub granted : List ℕ → ℕ → String → ℕ → Period → UsageDb mongo redis → ℕ
  granted [] user feature limit p s = 0
  granted (id ∷ ids) user feature limit p s =
      let (r, s') = check_and_reserve mongo redis id user feature (some limit) p s in
      one_if_ok r + granted ids user feature limit p s'

  -- Of any row of calls in one period no more are granted than the limit leaves, whatever fails
  -- in between.
  pub granted-le :
      (ids : List ℕ) (user : ℕ) (feature : String) (limit : ℕ) (p : Period)
      (s : UsageDb mongo redis)
      → granted ids user feature limit p s ≤ limit - uses user feature p s
  granted-le [] user feature limit p s = omega arith
  granted-le (id ∷ ids) user feature limit p s =
      let out = check_and_reserve mongo redis id user feature (some limit) p s in
      step out.0 out.1 (check_and_reserve-Reserves id user feature limit p s)
        (granted-le ids user feature limit p out.1)
    where
      step :
          (r : Result ℕ) (s' : UsageDb mongo redis)
          → Reserves id user feature limit p s (r, s')
          → granted ids user feature limit p s' ≤ limit - uses user feature p s'
          → one_if_ok r + granted ids user feature limit p s' ≤ limit - uses user feature p s
      step (ok i) s' h rest = omega (arith, h.1, h.2)
      step (err e) s' h rest = omega (arith, h.1)
