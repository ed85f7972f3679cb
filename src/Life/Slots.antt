-- ===== src/Life/Slots.antt =====
-- `_find_free_slot`: a slot that is found meets no block, and no earlier slot would do.
use thesdel.Base.{
  ℕ, ◌+◌, ◌-◌, ◌≤◌, max, ◌≡◌, refl, ◌⊎◌, inl, inr, true, false, Option, none, some, List, [], ◌∷◌,
  leb, ◌==◌, filter, arith, All, All-imp, All-filter, All-filter_inv, Bool-cases, subst,
}
use thesdel.Base.Sorting.{IsRising, sorted-IsRising, sorted-All, sorted-All_inv}
use thesdel.Life.Defs.{
  LifeBlock, has_conflict, blocks_on, first_gap, find_free_slot, life_window_start_minutes,
  life_window_end_minutes,
}

-- From `start` to `stop` the block is not met: it begins after, or has ended.
abbrev pub Clears : ℕ → ℕ → LifeBlock → Type 0
Clears start stop b = (stop ≤ b.start_minutes) ⊎ (b.end_minutes ≤ start)

-- Nothing on the day is met.
abbrev pub IsClear : ℕ → ℕ → ℕ → List LifeBlock → Type 0
IsClear day start stop placed =
    All (λ b. (b.day_of_week == day) ≡ true → Clears start stop b) placed

-- `_has_conflict` finds a conflict exactly where the time is not clear.
pub IsClear-of_no_conflict :
    (day start stop : ℕ) (placed : List LifeBlock)
    → has_conflict day start stop placed ≡ false
    → IsClear day start stop placed
unfolding has_conflict
IsClear-of_no_conflict day start stop [] h = tt
IsClear-of_no_conflict day start stop (b ∷ bs) h =
    (λ e. ground arith, IsClear-of_no_conflict day start stop bs (ground arith))

pub no_conflict_of_IsClear :
    (day start stop : ℕ) (placed : List LifeBlock)
    → IsClear day start stop placed
    → has_conflict day start stop placed ≡ false
unfolding has_conflict
no_conflict_of_IsClear day start stop [] h = refl
no_conflict_of_IsClear day start stop (b ∷ bs) h =
    ground (arith, no_conflict_of_IsClear day start stop bs h.1, h.0)

IsClear-blocks_on :
    (day start stop : ℕ) (placed : List LifeBlock)
    → All (Clears start stop) (blocks_on day placed)
    → IsClear day start stop placed
unfolding blocks_on
IsClear-blocks_on day start stop placed h =
    All-filter_inv (Clears start stop) (λ b. b.day_of_week == day) placed
      (sorted-All_inv (λ b. b.start_minutes) (Clears start stop)
        (filter (λ b. b.day_of_week == day) placed) h)

blocks_on-Clears :
    (day start stop : ℕ) (placed : List LifeBlock)
    → IsClear day start stop placed
    → All (Clears start stop) (blocks_on day placed)
unfolding blocks_on
blocks_on-Clears day start stop placed h =
    sorted-All (λ b. b.start_minutes) (Clears start stop)
      (filter (λ b. b.day_of_week == day) placed)
      (All-filter (Clears start stop) (λ b. b.day_of_week == day) placed h)

-- What a search from the cursor on finds, for a duration from `start` to `stop`.
abbrev IsSlot : ℕ → ℕ → ℕ → List LifeBlock → Option (ℕ × ℕ) → Type 0
IsSlot start stop cursor bs none = Unit
IsSlot start stop cursor bs (some (s, e)) =
    (cursor ≤ s) × (e ≡ s + stop - start) × All (Clears s e) bs

IsSlot-later :
    (start stop cursor : ℕ) (b : LifeBlock) (bs : List LifeBlock) (o : Option (ℕ × ℕ))
    → IsSlot start stop (max cursor b.end_minutes) bs o
    → IsSlot start stop cursor (b ∷ bs) o
IsSlot-later start stop cursor b bs none h = tt
IsSlot-later start stop cursor b bs (some (s, e)) h = (omega arith, h.1, (inr (omega arith), h.2))

first_gap-IsSlot :
    (start stop cursor : ℕ) (bs : List LifeBlock)
    → IsRising (λ b. b.start_minutes) bs
    → IsSlot start stop cursor bs (first_gap start stop cursor bs)
unfolding first_gap
first_gap-IsSlot start stop cursor [] h =
    elim (Bool-cases (leb (cursor + stop) (life_window_end_minutes + start))) [
      | inl e ↦ rw e (omega arith, refl, tt)
      | inr e ↦ rw e tt
    ]
first_gap-IsSlot start stop cursor (b ∷ bs) h =
    elim (Bool-cases (leb (cursor + stop) (b.start_minutes + start))) [
      | inl e ↦
          let fits : cursor + stop ≤ b.start_minutes + start = ground arith in
          rw e (
            omega arith,
            refl,
            (
              inl (omega arith),
              All-imp (λ c. b.start_minutes ≤ c.start_minutes)
                  (Clears cursor (cursor + stop - start)) (λ c k. inl (omega arith)) bs h.0,
            ),
          )
      | inr e ↦ rw e (
          IsSlot-later start stop cursor b bs (first_gap start stop (max cursor b.end_minutes) bs)
            (first_gap-IsSlot start stop (max cursor b.end_minutes) bs h.1))
    ]

-- The slot that the search returns for a duration from `start` to `stop`.
abbrev pub IsFound : ℕ → ℕ → ℕ → List LifeBlock → Option (ℕ × ℕ) → Type 0
IsFound day start stop placed none = Unit
IsFound day start stop placed (some (s, e)) =
    (life_window_start_minutes ≤ s) × (e ≡ s + stop - start) × (has_conflict day s e placed ≡ false)

-- A slot that `_find_free_slot` returns starts at 06:00 or later, has the asked duration and is in
-- no conflict with any block that is placed.
pub find_free_slot-IsFound :
    (day start stop : ℕ) (placed : List LifeBlock)
    → IsFound day start stop placed (find_free_slot day start stop placed)
unfolding find_free_slot blocks_on
find_free_slot-IsFound day start stop placed =
    go (first_gap start stop life_window_start_minutes (blocks_on day placed)) (
      first_gap-IsSlot start stop life_window_start_minutes (blocks_on day placed)
        (sorted-IsRising (λ b. b.start_minutes) (filter (λ b. b.day_of_week == day) placed)))
  where
    go :
        (o : Option (ℕ × ℕ))
        → IsSlot start stop life_window_start_minutes (blocks_on day placed) o
        → IsFound day start stop placed o
    go none h = tt
    go (some (s, e)) h =
        (h.0, h.1, no_conflict_of_IsClear day s e placed (IsClear-blocks_on day s e placed h.2))

-- A slot was found, and it starts no later.
abbrev pub IsBy : ℕ → Option (ℕ × ℕ) → Type 0
IsBy x none = ⊥
IsBy x (some (s, e)) = s ≤ x

first_gap-IsBy :
    (start stop cursor x : ℕ) (bs : List LifeBlock)
    → start ≤ stop
    → cursor ≤ x
    → x + stop ≤ life_window_end_minutes + start
    → All (Clears x (x + stop - start)) bs
    → IsBy x (first_gap start stop cursor bs)
unfolding first_gap
first_gap-IsBy start stop cursor x [] d h w c =
    elim (Bool-cases (leb (cursor + stop) (life_window_end_minutes + start))) [
      | inl e ↦ rw e h
      | inr e ↦ absurd (ground arith)
    ]
first_gap-IsBy start stop cursor x (b ∷ bs) d h w (inl before, c) =
    elim (Bool-cases (leb (cursor + stop) (b.start_minutes + start))) [
      | inl e ↦ rw e h
      | inr e ↦ absurd (ground arith)
    ]
first_gap-IsBy start stop cursor x (b ∷ bs) d h w (inr after, c) =
    elim (Bool-cases (leb (cursor + stop) (b.start_minutes + start))) [
      | inl e ↦ rw e h
      | inr e ↦ rw e (first_gap-IsBy start stop (max cursor b.end_minutes) x bs d (omega arith) w c)
    ]

pub find_free_slot-IsBy :
    (day start stop x : ℕ) (placed : List LifeBlock)
    → start ≤ stop
    → life_window_start_minutes ≤ x
    → x + (stop - start) ≤ life_window_end_minutes
    → has_conflict day x (x + (stop - start)) placed ≡ false
    → IsBy x (find_free_slot day start stop placed)
unfolding find_free_slot
find_free_slot-IsBy day start stop x placed d h w clear =
    first_gap-IsBy start stop life_window_start_minutes x (blocks_on day placed) d h (omega arith) (
      blocks_on-Clears day x (x + stop - start) placed (
        subst (λ e. IsClear day x e placed) (omega arith)
          (IsClear-of_no_conflict day x (x + (stop - start)) placed clear)))

-- A slot was found: of the duration from `start` to `stop`, between 06:00 and 23:00, not met by any
-- block placed on the day, and starting no later than x.
abbrev pub IsSlotBy : ℕ → ℕ → ℕ → ℕ → List LifeBlock → Option (ℕ × ℕ) → Type 0
IsSlotBy day start stop x placed none = ⊥
IsSlotBy day start stop x placed (some (s, e)) =
    (360 ≤ s) × (s ≤ x) × (e ≡ s + (stop - start)) × (e ≤ 1380) × IsClear day s e placed

-- Where the duration is not negative and some slot of it, from x on, lies between 06:00 and 23:00
-- and meets no block placed on the day, `_find_free_slot` finds one: of that duration, between 06:00
-- and 23:00, meeting no block placed on the day, and starting no later than x.
pub find_free_slot-IsSlotBy :
    (day start stop x : ℕ) (placed : List LifeBlock)
    → start ≤ stop
    → 360 ≤ x
    → x + (stop - start) ≤ 1380
    → IsClear day x (x + (stop - start)) placed
    → IsSlotBy day start stop x placed (find_free_slot day start stop placed)
find_free_slot-IsSlotBy day start stop x placed d h w clear =
    go (find_free_slot day start stop placed) (find_free_slot-IsFound day start stop placed) (
      find_free_slot-IsBy day start stop x placed d h w
        (no_conflict_of_IsClear day x (x + (stop - start)) placed clear))
  where
    go :
        (o : Option (ℕ × ℕ))
        → IsFound day start stop placed o
        → IsBy x o
        → IsSlotBy day start stop x placed o
    go none f b = b
    go (some (s, e)) f b = (
      f.0,
      b,
      omega (arith, d, f.1),
      omega (arith, d, f.1, b, w),
      IsClear-of_no_conflict day s e placed f.2,
    )
