-- ===== src/Study/Free.antt =====
-- `free_intervals_for_day`: what it returns is free, and every free slot lies in what it returns.
use thesdel.Base.{
  ℕ, ◌+◌, ◌≤◌, ◌<◌, min, max, ◌≡◌, ◌⊎◌, inl, inr, true, List, [], ◌∷◌, ltb, ◌==◌, filter, arith,
  All, Any, All-imp, All-filter, All-filter_inv, Any-filter, Bool-cases,
}
use thesdel.Base.Sorting.{IsRising, sorted-IsRising, sorted-All, sorted-All_inv}
use thesdel.Study.Defs.{
  BusyInterval, FreeInterval, gaps, busy_on, is_long_enough, free_intervals_for_day,
  study_window_start_minutes, study_window_end_minutes, min_block_minutes,
}

-- A slot from `start` to `stop` does not meet the busy interval.
abbrev pub Clears : ℕ → ℕ → BusyInterval → Type 0
Clears start stop b = (stop ≤ b.start_minutes) ⊎ (b.end_minutes ≤ start)

-- A slot of a day that lies in the study window, is long enough for a block and meets no busy
-- interval of the day. This says what free time is, with no reference to how it is searched.
pub record IsFreeSlot (busy : List BusyInterval) (day start stop : ℕ) : Type 0 where
  pub opens : study_window_start_minutes ≤ start
  pub lasts : start + min_block_minutes ≤ stop
  pub closes : stop ≤ study_window_end_minutes
  pub clear : All (λ b. (b.day_of_week == day) ≡ true → Clears start stop b) busy

Clears-part :
    (start stop start' stop' : ℕ)
    → start ≤ start'
    → stop' ≤ stop
    → (b : BusyInterval) → Clears start stop b
    → Clears start' stop' b
Clears-part start stop start' stop' p q b (inl h) = inl (omega arith)
Clears-part start stop start' stop' p q b (inr h) = inr (omega arith)

-- A long enough part of a free slot is a free slot.
pub IsFreeSlot-part :
    {busy : List BusyInterval} {day : ℕ} {start stop : ℕ} (start' stop' : ℕ)
    → IsFreeSlot busy day start stop
    → start ≤ start'
    → start' + min_block_minutes ≤ stop'
    → stop' ≤ stop
    → IsFreeSlot busy day start' stop'
IsFreeSlot-part {busy} {day} {start} {stop} start' stop' h p q r = record {
  opens = omega arith;
  lasts = q;
  closes = omega arith;
  clear =
      All-imp (λ b. (b.day_of_week == day) ≡ true → Clears start stop b)
        (λ b. (b.day_of_week == day) ≡ true → Clears start' stop' b)
        (λ b f e. Clears-part start stop start' stop' p r b (f e)) busy h.clear;
}

-- A gap that the loop may return from the cursor on.
abbrev IsGap : ℕ → ℕ → List BusyInterval → FreeInterval → Type 0
IsGap day cursor bs f =
    (cursor ≤ f.start_minutes)
    × (f.end_minutes ≤ study_window_end_minutes)
    × All (Clears f.start_minutes f.end_minutes) bs

IsGap-later :
    (day cursor : ℕ) (b : BusyInterval) (bs : List BusyInterval) (f : FreeInterval)
    → IsGap day (max cursor b.end_minutes) bs f
    → IsGap day cursor (b ∷ bs) f
IsGap-later day cursor b bs f h = (omega arith, h.1, (inr (omega arith), h.2))

Clears-rising :
    (start stop : ℕ) (b : BusyInterval)
    → stop ≤ b.start_minutes
    → (c : BusyInterval) → b.start_minutes ≤ c.start_minutes
    → Clears start stop c
Clears-rising start stop b h c k = inl (omega arith)

gaps-IsGap :
    (day cursor : ℕ) (bs : List BusyInterval)
    → IsRising (λ b. b.start_minutes) bs
    → All (IsGap day cursor bs) (gaps day cursor bs)
unfolding gaps
gaps-IsGap day cursor [] h = elim (Bool-cases (ltb cursor study_window_end_minutes)) [
  | inl e ↦ rw e ((omega arith, omega arith, tt), tt)
  | inr e ↦ rw e tt
]
gaps-IsGap day cursor (b ∷ bs) h =
    let later : All (IsGap day cursor (b ∷ bs)) (gaps day (max cursor b.end_minutes) bs) =
      All-imp (IsGap day (max cursor b.end_minutes) bs) (IsGap day cursor (b ∷ bs))
        (IsGap-later day cursor b bs) (gaps day (max cursor b.end_minutes) bs)
        (gaps-IsGap day (max cursor b.end_minutes) bs h.1) in
    let stop = min b.start_minutes study_window_end_minutes in
    let clear : All (Clears cursor stop) bs =
      All-imp (λ c. b.start_minutes ≤ c.start_minutes) (Clears cursor stop)
        (Clears-rising cursor stop b (omega arith)) bs h.0 in
    elim (Bool-cases (ltb cursor b.start_minutes)) [
      | inl e ↦ rw e ((omega arith, omega arith, (inl (omega arith), clear)), later)
      | inr e ↦ rw e later
    ]

-- What clears the busy intervals of a day clears them in the list of all.
clear_all :
    (day start stop : ℕ) (busy : List BusyInterval)
    → All (Clears start stop) (busy_on day busy)
    → All (λ b. (b.day_of_week == day) ≡ true → Clears start stop b) busy
unfolding busy_on
clear_all day start stop busy h =
    All-filter_inv (Clears start stop) (λ b. b.day_of_week == day) busy
      (sorted-All_inv (λ b. b.start_minutes) (Clears start stop)
        (filter (λ b. b.day_of_week == day) busy) h)

clear_on :
    (day start stop : ℕ) (busy : List BusyInterval)
    → All (λ b. (b.day_of_week == day) ≡ true → Clears start stop b) busy
    → All (Clears start stop) (busy_on day busy)
unfolding busy_on
clear_on day start stop busy h =
    sorted-All (λ b. b.start_minutes) (Clears start stop) (filter (λ b. b.day_of_week == day) busy)
      (All-filter (Clears start stop) (λ b. b.day_of_week == day) busy h)

free_of_gap :
    (day : ℕ) (busy : List BusyInterval) (f : FreeInterval)
    → IsGap day study_window_start_minutes (busy_on day busy) f
    → is_long_enough f ≡ true
    → IsFreeSlot busy day f.start_minutes f.end_minutes
free_of_gap day busy f h e = record {
  opens = h.0;
  lasts = ground arith;
  closes = h.1;
  clear = clear_all day f.start_minutes f.end_minutes busy h.2;
}

-- Every interval that `free_intervals_for_day` returns is a free slot.
pub free_intervals_for_day-IsFreeSlot :
    (day : ℕ) (busy : List BusyInterval)
    → All (λ f. IsFreeSlot busy day f.start_minutes f.end_minutes) (free_intervals_for_day day busy)
unfolding free_intervals_for_day busy_on
free_intervals_for_day-IsFreeSlot day busy =
    let found = gaps day study_window_start_minutes (busy_on day busy) in
    All-filter (λ f. IsFreeSlot busy day f.start_minutes f.end_minutes) is_long_enough found
      (All-imp (IsGap day study_window_start_minutes (busy_on day busy))
        (λ f. is_long_enough f ≡ true → IsFreeSlot busy day f.start_minutes f.end_minutes)
        (free_of_gap day busy) found
        (gaps-IsGap day study_window_start_minutes (busy_on day busy)
          (sorted-IsRising (λ b. b.start_minutes) (filter (λ b. b.day_of_week == day) busy))))

-- The interval covers the slot.
abbrev pub Covers : ℕ → ℕ → FreeInterval → Type 0
Covers start stop f = (f.start_minutes ≤ start) × (stop ≤ f.end_minutes)

gaps_cover :
    (day cursor start stop : ℕ) (bs : List BusyInterval)
    → cursor ≤ start
    → start < stop
    → stop ≤ study_window_end_minutes
    → All (Clears start stop) bs
    → Any (Covers start stop) (gaps day cursor bs)
unfolding gaps
gaps_cover day cursor start stop [] h l k c =
    elim (Bool-cases (ltb cursor study_window_end_minutes)) [
      | inl e ↦ rw e (inl (h, k))
      | inr e ↦ absurd (ground arith)
    ]
gaps_cover day cursor start stop (b ∷ bs) h l k (inl before, c) =
    elim (Bool-cases (ltb cursor b.start_minutes)) [
      | inl e ↦ rw e (inl (h, omega arith))
      | inr e ↦ absurd (ground arith)
    ]
gaps_cover day cursor start stop (b ∷ bs) h l k (inr after, c) =
    let rest = gaps_cover day (max cursor b.end_minutes) start stop bs (omega arith) l k c in
    elim (Bool-cases (ltb cursor b.start_minutes)) [ inl e ↦ rw e (inr rest) | inr e ↦ rw e rest ]

-- Every free slot of the day lies within one interval that `free_intervals_for_day` returns.
pub free_intervals_for_day_complete :
    (day start stop : ℕ) (busy : List BusyInterval)
    → IsFreeSlot busy day start stop
    → Any (Covers start stop) (free_intervals_for_day day busy)
unfolding free_intervals_for_day busy_on
free_intervals_for_day_complete day start stop busy h =
    Any-filter (Covers start stop) is_long_enough
      (gaps day study_window_start_minutes (busy_on day busy))
      (gaps_cover day study_window_start_minutes start stop (busy_on day busy) h.opens
        (omega (arith, h.lasts)) h.closes (clear_on day start stop busy h.clear))
      (λ f c. long_enough f c)
  where
    long_enough : (f : FreeInterval) → Covers start stop f → is_long_enough f ≡ true
    long_enough f c = ground (arith, h.lasts)
