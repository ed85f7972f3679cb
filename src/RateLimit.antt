-- ===== src/RateLimit.antt =====
-- app/shared/rate_limit.py: the fixed-window limiter over one Redis counter.
use thesdel.Base.{
  ℕ, suc, ◌≤◌, ◌<◌, ◌≡◌, inl, inr, Bool, true, false, none, some, ltb, ◌==◌, if◌then◌else◌, arith,
  Bool-cases, Option-cases,
}
use thesdel.Errors.{AppError, Result, ok, err}
use thesdel.Redis.{Redis, Key}

module _ (redis : Redis) where
  open redis use {Db, count, expiry, incr, expire, ttl, incr-count, incr-expiry, expire-count}

  -- `except Exception`: refuse or let through, by `fail_closed`.
  unfoldable pub redis_down : Bool → Db → Result (Unit {0}) × Db
  redis_down fail_closed s = (if fail_closed then err AppError.service_unavailable else ok tt, s)

  -- Behind the try block. TTL is outside of it, so an error there is not caught.
  unfoldable pub over_limit : Key → ℕ → ℕ → Db → Result (Unit {0}) × Db
  over_limit key max_requests current s =
      if ltb max_requests current
      then (elim (ttl key s) [
        | none ↦ (err AppError.internal_error, s)
        | some t ↦ (err AppError.rate_limited, s)
      ])
      else (ok tt, s)

  unfoldable pub check_rate_limit : Key → ℕ → ℕ → Bool → Db → Result (Unit {0}) × Db
  unfolding redis_down over_limit
  check_rate_limit key max_requests window_seconds fail_closed s = elim (incr key s) [
    | none ↦ redis_down fail_closed s
    | some (current, d) ↦
        if current == 1
        then (elim (expire key window_seconds d) [
          | none ↦ redis_down fail_closed d
          | some d' ↦ over_limit key max_requests current d'
        ])
        else over_limit key max_requests current d
  ]

  over_limit_state :
      (key : Key) (max_requests current : ℕ) (s : Db)
      → (over_limit key max_requests current s).1 ≡ s
  unfolding over_limit
  over_limit_state key max_requests current s = ground arith

  over_limit_ok :
      (key : Key) (max_requests current : ℕ) (s : Db)
      → (over_limit key max_requests current s).0 ≡ ok tt
      → current ≤ max_requests
  unfolding over_limit
  over_limit_ok key max_requests current s h = ground arith

  -- A limiter that fails closed lets a request through only while fewer than the maximum are
  -- counted, and then counts it.
  pub check_rate_limit_counts :
      (key : Key) (max_requests window_seconds : ℕ) (s : Db)
      → (check_rate_limit key max_requests window_seconds true s).0 ≡ ok tt
      → (count key s < max_requests)
        × (count key (check_rate_limit key max_requests window_seconds true s).1
            ≡ suc (count key s))
  unfolding check_rate_limit redis_down
  check_rate_limit_counts key max_requests window_seconds s h = elim (Option-cases (incr key s)) [
    | inl down ↦ absurd (ground arith)
    | inr ((current, d), up) ↦
        let counted = incr-count key s up in
        elim (Bool-cases (current == 1)) [
          | inr later ↦
              let passed : (over_limit key max_requests current d).0 ≡ ok tt = ground arith in
              let same = over_limit_state key max_requests current d in
              (
                omega (arith, over_limit_ok key max_requests current d passed, counted.0),
                ground (arith, same, counted.0, counted.1),
              )
          | inl first ↦ elim (Option-cases (expire key window_seconds d)) [
            | inl down ↦ absurd (ground arith)
            | inr (d', set) ↦
                let passed : (over_limit key max_requests current d').0 ≡ ok tt = ground arith in
                let same = over_limit_state key max_requests current d' in
                (
                  omega (arith, over_limit_ok key max_requests current d' passed, counted.0),
                  ground (
                    arith,
                    same,
                    counted.0,
                    counted.1,
                    expire-count key key window_seconds d set,
                  ),
                )
          ]
        ]
  ]

  -- A key that has been counted and has no expiry, as EXPIRE leaves it when it fails behind the
  -- first INCR, is never given one by a later request: its count no longer ends with the window.
  pub check_rate_limit-no_expiry :
      (key : Key) (max_requests window_seconds : ℕ) (fail_closed : Bool) (s : Db)
      → 0 < count key s
      → expiry key s ≡ none
      → let s' = (check_rate_limit key max_requests window_seconds fail_closed s).1 in
        (expiry key s' ≡ none) × (count key s ≤ count key s')
  unfolding check_rate_limit redis_down
  check_rate_limit-no_expiry key max_requests window_seconds fail_closed s pos never =
      elim (Option-cases (incr key s)) [
        | inl down ↦ (ground arith, ground arith)
        | inr ((current, d), up) ↦
            let counted = incr-count key s up in
            let same = over_limit_state key max_requests current d in
            let kept = incr-expiry key s up in
            let later : (current == 1) ≡ false = ground arith in (ground arith, ground arith)
      ]

  -- No request lowers the count.
  pub check_rate_limit_grows :
      (key : Key) (max_requests window_seconds : ℕ) (s : Db)
      → count key s ≤ count key (check_rate_limit key max_requests window_seconds true s).1
  unfolding check_rate_limit redis_down
  check_rate_limit_grows key max_requests window_seconds s = elim (Option-cases (incr key s)) [
    | inl down ↦ ground arith
    | inr ((current, d), up) ↦
        let counted = incr-count key s up in
        elim (Bool-cases (current == 1)) [
          | inr later ↦
              ground (arith, counted.0, counted.1, over_limit_state key max_requests current d)
          | inl first ↦ elim (Option-cases (expire key window_seconds d)) [
            | inl down ↦ ground (arith, counted.0, counted.1)
            | inr (d', set) ↦ ground (
              arith,
              counted.0,
              counted.1,
              over_limit_state key max_requests current d',
              expire-count key key window_seconds d set,
            )
          ]
        ]
  ]
