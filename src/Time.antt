-- ===== src/Time.antt =====
-- app/shared/time_utils.py: "HH:MM" and minutes since midnight. A text is the list of its
-- characters' codes.
pub mod RoundTrip
pub mod Order
use thesdel.Base.{
  ℕ, zero, suc, ◌+◌, ◌-◌, ◌*◌, ◌/◌, ◌%◌, Bool, true, false, ◌&&◌, Option, none, some, List, [], ◌∷◌,
  ◌++◌, ltb, leb, ◌==◌, if◌then◌else◌,
}

abbrev pub Text : Type 0
Text = List ℕ

-- `str(n)`: the decimal digits, with the number as fuel.
unfoldable pub decimal_from : ℕ → ℕ → Text
decimal_from zero n = (48 + n) ∷ []
decimal_from (suc fuel) n =
    let rest = decimal_from fuel (n / 10) in
    if ltb n 10 then (48 + n) ∷ [] else rest ++ (48 + n % 10) ∷ []

-- `f"{n:02d}"`
unfoldable pub two_digits : ℕ → Text
unfolding decimal_from
two_digits n = if ltb n 10 then 48 ∷ (48 + n) ∷ [] else decimal_from n n

unfoldable pub minutes_to_time : ℕ → Text
unfolding two_digits
minutes_to_time value = two_digits (value / 60) ++ 58 ∷ two_digits (value % 60)

-- `int(text)` for a text of ASCII digits; any other text is an error here, and the schemas' pattern
-- lets no other one in.
unfoldable pub digits_from : ℕ → Text → Option ℕ
digits_from acc [] = some acc
digits_from acc (c ∷ cs) =
    let rest = digits_from (acc * 10 + (c - 48)) cs in if leb 48 c && leb c 57 then rest else none

unfoldable pub int : Text → Option ℕ
unfolding digits_from
int [] = none
int (c ∷ cs) = digits_from 0 (c ∷ cs)

-- `text.split(":")`, as the first part and the others.
unfoldable pub split_colon : Text → Text × List Text
split_colon [] = ([], [])
split_colon (c ∷ cs) =
    let (part, parts) = split_colon cs in if c == 58 then ([], part ∷ parts) else (c ∷ part, parts)

abbrev pub hours_minutes : Option ℕ → Option ℕ → Option ℕ
hours_minutes (some h) (some m) = some (h * 60 + m)
hours_minutes none m = none
hours_minutes h none = none

-- Unpacking into `hours, minutes` wants exactly two parts.
abbrev pub from_parts : Text → List Text → Option ℕ
from_parts hours (minutes ∷ []) = hours_minutes (int hours) (int minutes)
from_parts hours parts = none

unfoldable pub time_to_minutes : Text → Option ℕ
unfolding split_colon int
time_to_minutes value = let (hours, parts) = split_colon value in from_parts hours parts

-- `a < b` for texts
unfoldable pub text_lt : Text → Text → Bool
text_lt [] [] = false
text_lt [] (b ∷ bs) = true
text_lt (a ∷ as') [] = false
text_lt (a ∷ as') (b ∷ bs) =
    let rest = text_lt as' bs in if ltb a b then true else if a == b then rest else false
