-- ===== src/Time/Order.antt =====
-- The schemas compare two times as texts (`end_time <= start_time`): on times of a day that is the
-- order of the minutes.
use thesdel.Base.{
  ℕ, zero, suc, ◌≤◌, ◌+◌, ◌/◌, ◌%◌, ◌<◌, ◌≡◌, inl, inr, true, false, [], ◌∷◌, ltb, ◌==◌,
  if◌then◌else◌, arith, Bool-cases,
}
use thesdel.Time.{Text, decimal_from, two_digits, minutes_to_time, text_lt}

two_digits_lem : (n : ℕ) → n < 100 → two_digits n ≡ (48 + n / 10) ∷ (48 + n % 10) ∷ []
unfolding two_digits
two_digits_lem n h = elim (Bool-cases (ltb n 10)) [
  | inl e ↦ rw e (ground arith)
  | inr e ↦ rw e (long n n h (ground arith) (omega arith))
]
  where
    long :
        (fuel n : ℕ)
        → n < 100
        → 10 ≤ n
        → n ≤ fuel
        → decimal_from fuel n ≡ (48 + n / 10) ∷ (48 + n % 10) ∷ []
    long zero n h k l = absurd (omega arith)
    long (suc zero) n h k l = absurd (omega arith)
    long (suc (suc fuel)) n h k l = unfold decimal_from in ground arith

-- Two numbers below 100, each before what follows, in the order of the digits.
text_lt_pair :
    (a b : ℕ) (xs ys : Text)
    → text_lt ((48 + a / 10) ∷ (48 + a % 10) ∷ xs) ((48 + b / 10) ∷ (48 + b % 10) ∷ ys)
      ≡ (if ltb a b then true else if a == b then text_lt xs ys else false)
unfolding text_lt
text_lt_pair a b xs ys = ground arith

text_lt_last :
    (a b : ℕ)
    → text_lt (58 ∷ (48 + a / 10) ∷ (48 + a % 10) ∷ []) (58 ∷ (48 + b / 10) ∷ (48 + b % 10) ∷ [])
      ≡ ltb a b
unfolding text_lt
text_lt_last a b = ground arith

by_hour :
    (a b : ℕ)
    → (if ltb (a / 60) (b / 60)
        then true
        else if a / 60 == b / 60
        then ltb (a % 60) (b % 60)
        else false)
      ≡ ltb a b
by_hour a b = ground arith

-- Comparing two times of a day as texts is comparing their minutes.
pub minutes_to_time-text_lt :
    (a b : ℕ) → a < 1440 → b < 1440 → text_lt (minutes_to_time a) (minutes_to_time b) ≡ ltb a b
unfolding minutes_to_time
minutes_to_time-text_lt a b h k =
    rw
      (
        two_digits_lem (a / 60) (omega arith),
        two_digits_lem (a % 60) (omega arith),
        two_digits_lem (b / 60) (omega arith),
        two_digits_lem (b % 60) (omega arith),
        text_lt_pair (a / 60) (b / 60),
        text_lt_last (a % 60) (b % 60),
      )
      (by_hour a b)
