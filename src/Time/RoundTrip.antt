-- ===== src/Time/RoundTrip.antt =====
-- `time_to_minutes` reads back what `minutes_to_time` writes.
use thesdel.Base.{
  ℕ, zero, suc, ◌+◌, ◌-◌, ◌*◌, ◌/◌, ◌%◌, ◌≤◌, ◌≡◌, refl, ◌≢◌, inl, inr, ◌&&◌, none, some, [], ◌∷◌,
  ◌++◌, ltb, leb, arith, All, All-append, Bool-cases, ap, ◌∙◌,
}
use thesdel.Time.{
  Text, decimal_from, two_digits, minutes_to_time, digits_from, int, split_colon, time_to_minutes,
}

abbrev IsDigit : ℕ → Type 0
IsDigit c = (48 ≤ c) × (c ≤ 57)

decimal_from-IsDigit : (fuel n : ℕ) → n ≤ fuel → All IsDigit (decimal_from fuel n)
unfolding decimal_from
decimal_from-IsDigit zero n h = ((omega arith, omega arith), tt)
decimal_from-IsDigit (suc fuel) n h = elim (Bool-cases (ltb n 10)) [
  | inl e ↦ rw e ((omega arith, ground arith), tt)
  | inr e ↦ rw e (
      All-append IsDigit (decimal_from fuel (n / 10)) ((48 + n % 10) ∷ [])
        (decimal_from-IsDigit fuel (n / 10) (ground arith)) ((omega arith, omega arith), tt))
]

digits_from-append :
    (acc : ℕ) (xs : Text) (c v : ℕ)
    → digits_from acc xs ≡ some v
    → IsDigit c
    → digits_from acc (xs ++ c ∷ []) ≡ some (v * 10 + (c - 48))
unfolding digits_from
digits_from-append acc [] c v h d = ground arith
digits_from-append acc (x ∷ xs) c v h d = elim (Bool-cases (leb 48 x && leb x 57)) [
  | inl e ↦ rw e (digits_from-append (acc * 10 + (x - 48)) xs c v (rw e at h) d)
  | inr e ↦ absurd (none_some (rw e at h))
]
  where
    none_some : none ≡ some v → ⊥
    none_some q = cc

digits_from-decimal : (fuel n : ℕ) → n ≤ fuel → digits_from 0 (decimal_from fuel n) ≡ some n
unfolding decimal_from
digits_from-decimal zero n h = unfold digits_from in ground arith
digits_from-decimal (suc fuel) n h = elim (Bool-cases (ltb n 10)) [
  | inl e ↦ rw e (unfold digits_from in ground arith)
  | inr e ↦ rw e (
      digits_from-append 0 (decimal_from fuel (n / 10)) (48 + n % 10) (n / 10)
        (digits_from-decimal fuel (n / 10) (ground arith)) (omega arith, omega arith)
      ∙ ap some (omega arith))
]

int_lem : (xs : Text) → xs ≢ [] → int xs ≡ digits_from 0 xs
unfolding int
int_lem [] h = absurd (h refl)
int_lem (x ∷ xs) h = refl

append-ne : (xs : Text) (c : ℕ) → xs ++ c ∷ [] ≢ []
append-ne [] c = ground arith
append-ne (x ∷ xs) c = ground arith

decimal_from-ne : (fuel n : ℕ) → decimal_from fuel n ≢ []
unfolding decimal_from
decimal_from-ne zero n = ground arith
decimal_from-ne (suc fuel) n = elim (Bool-cases (ltb n 10)) [
  | inl e ↦ rw e (ground arith)
  | inr e ↦ rw e (append-ne (decimal_from fuel (n / 10)) (48 + n % 10))
]

int-two_digits : (n : ℕ) → int (two_digits n) ≡ some n
unfolding two_digits
int-two_digits n = elim (Bool-cases (ltb n 10)) [
  | inl e ↦ rw e (unfold int digits_from in ground arith)
  | inr e ↦
      rw e
        (int_lem (decimal_from n n) (decimal_from-ne n n) ∙ digits_from-decimal n n (omega arith))
]

two_digits-IsDigit : (n : ℕ) → All IsDigit (two_digits n)
unfolding two_digits
two_digits-IsDigit n = elim (Bool-cases (ltb n 10)) [
  | inl e ↦ rw e ((omega arith, omega arith), ((omega arith, ground arith), tt))
  | inr e ↦ rw e (decimal_from-IsDigit n n (omega arith))
]

split_colon_digits : (xs : Text) → All IsDigit xs → split_colon xs ≡ (xs, [])
unfolding split_colon
split_colon_digits [] h = refl
split_colon_digits (x ∷ xs) h = ground (arith, split_colon_digits xs h.1)

split_colon-append :
    (xs ys : Text) → All IsDigit xs → All IsDigit ys → split_colon (xs ++ 58 ∷ ys) ≡ (xs, ys ∷ [])
unfolding split_colon
split_colon-append [] ys h k = rw (split_colon_digits ys k)
split_colon-append (x ∷ xs) ys h k = ground (arith, split_colon-append xs ys h.1 k)

-- Reading back the text of a number of minutes gives the number, for any number.
pub time_to_minutes-minutes_to_time :
    (value : ℕ) → time_to_minutes (minutes_to_time value) ≡ some value
unfolding time_to_minutes minutes_to_time
time_to_minutes-minutes_to_time value =
    let hours = two_digits (value / 60) in
    let minutes = two_digits (value % 60) in
    rw
      (split_colon-append hours minutes (two_digits-IsDigit (value / 60))
        (two_digits-IsDigit (value % 60)))
      (rw (int-two_digits (value / 60), int-two_digits (value % 60)) (ap some (omega arith)))
