-- ===== src/Life/Schedule.antt =====
-- `build_life_schedule`: every routine is laid once on each of its days, and is flagged only where
-- it could not be laid without a conflict.
use thesdel.Base.{
  ℕ, ◌+◌, ◌-◌, ◌≤◌, ◌≡◌, refl, ◌⊎◌, inl, inr, true, false, Option, none, some, List, [], ◌∷◌, ◌++◌,
  map, Bool-cases, subst, sym,
}
use thesdel.Life.Defs.{
  FixedBlock, RoutineInput, LifeBlock, has_conflict, find_free_slot, fixed_life_block,
  routine_block, moved_or_flagged, place_on, place_days, place_routines, build_life_schedule,
  life_window_start_minutes, life_window_end_minutes,
}
use thesdel.Life.Slots.{IsFound, find_free_slot-IsFound, find_free_slot-IsBy}

-- The block stands at the time that its routine states.
abbrev pub IsAtStatedTime : RoutineInput → LifeBlock → Type 0
IsAtStatedTime r b = (b.start_minutes ≡ r.start_minutes) × (b.end_minutes ≡ r.end_minutes)

-- How the block of a routine on a day stands to the blocks placed before it.
pub record IsLaid (r : RoutineInput) (day : ℕ) (placed : List LifeBlock) (b : LifeBlock)
    : Type 0 where
  pub owner : (b.source_type ≡ "routine") × (b.source_id ≡ r.routine_id) × (b.day_of_week ≡ day)
  -- no flag: no conflict
  pub unflagged :
      b.conflict_flag ≡ false → has_conflict day b.start_minutes b.end_minutes placed ≡ false
  -- a flag: at the stated time, which conflicts
  pub flagged :
      b.conflict_flag ≡ true
      → IsAtStatedTime r b × (has_conflict day r.start_minutes r.end_minutes placed ≡ true)
  -- a flexible routine is flagged only if no time from 06:00 to 23:00 would do
  pub no_room :
      b.conflict_flag ≡ true
      → r.is_flexible ≡ true
      → r.start_minutes ≤ r.end_minutes
      → (x : ℕ) → life_window_start_minutes ≤ x
      → x + (r.end_minutes - r.start_minutes) ≤ life_window_end_minutes
      → has_conflict day x (x + (r.end_minutes - r.start_minutes)) placed ≡ true
  -- a block is moved only if it is flexible and conflicts, and keeps its duration
  pub moved :
      IsAtStatedTime r b
      ⊎ ((r.is_flexible ≡ true)
          × (has_conflict day r.start_minutes r.end_minutes placed ≡ true)
          × (b.end_minutes ≡ b.start_minutes + r.end_minutes - r.start_minutes))

module _ (r : RoutineInput) (day : ℕ) (placed : List LifeBlock) where
  slot_is_taken :
      (x : ℕ)
      → find_free_slot day r.start_minutes r.end_minutes placed ≡ none
      → r.start_minutes ≤ r.end_minutes
      → life_window_start_minutes ≤ x
      → x + (r.end_minutes - r.start_minutes) ≤ life_window_end_minutes
      → has_conflict day x (x + (r.end_minutes - r.start_minutes)) placed ≡ true
  slot_is_taken x nothing d lo hi =
      elim (Bool-cases (has_conflict day x (x + (r.end_minutes - r.start_minutes)) placed)) [
        | inl e ↦ e
        | inr e ↦ absurd (
            rw nothing at
              (find_free_slot-IsBy day r.start_minutes r.end_minutes x placed d lo hi e))
      ]

  moved_or_flagged-IsLaid :
      (o : Option (ℕ × ℕ))
      → find_free_slot day r.start_minutes r.end_minutes placed ≡ o
      → IsFound day r.start_minutes r.end_minutes placed o
      → r.is_flexible ≡ true
      → has_conflict day r.start_minutes r.end_minutes placed ≡ true
      → IsLaid r day placed (moved_or_flagged r day o)
  unfolding moved_or_flagged routine_block
  moved_or_flagged-IsLaid none nothing found flexible conflict = record {
    owner = (refl, refl, refl);
    unflagged = λ t. cc;
    flagged = λ t. ((refl, refl), conflict);
    no_room = λ t f d x lo hi. slot_is_taken x nothing d lo hi;
    moved = inl (refl, refl);
  }
  moved_or_flagged-IsLaid (some (s, e)) nothing found flexible conflict = record {
    owner = (refl, refl, refl);
    unflagged = λ t. found.2;
    flagged = λ t. cc;
    no_room = λ t. cc;
    moved = inr (flexible, conflict, found.1);
  }

  fixed-IsLaid :
      r.is_flexible ≡ false
      → has_conflict day r.start_minutes r.end_minutes placed ≡ true
      → IsLaid r day placed (routine_block r day r.start_minutes r.end_minutes true)
  unfolding routine_block
  fixed-IsLaid fixed conflict = record {
    owner = (refl, refl, refl);
    unflagged = λ t. cc;
    flagged = λ t. ((refl, refl), conflict);
    no_room = λ t f. cc;
    moved = inl (refl, refl);
  }

  clear-IsLaid :
      has_conflict day r.start_minutes r.end_minutes placed ≡ false
      → IsLaid r day placed (routine_block r day r.start_minutes r.end_minutes false)
  unfolding routine_block
  clear-IsLaid clear = record {
    owner = (refl, refl, refl);
    unflagged = λ t. clear;
    flagged = λ t. cc;
    no_room = λ t. cc;
    moved = inl (refl, refl);
  }

  -- One round of the loop lays the routine on the day: with no flag it conflicts with nothing
  -- placed before; it is flagged only at its stated time, where that conflicts, and, if flexible
  -- and not ending before it starts, only where no time from 06:00 to 23:00 would do; it is moved
  -- only if flexible and in conflict.
  pub place_on-IsLaid : IsLaid r day placed (place_on r day placed)
  unfolding place_on
  place_on-IsLaid = elim (Bool-cases (has_conflict day r.start_minutes r.end_minutes placed)) [
    | inr clear ↦ rw clear (clear-IsLaid clear)
    | inl conflict ↦ elim (Bool-cases r.is_flexible) [
      | inr fixed ↦
          subst (IsLaid r day placed) (sym (fixed_branch conflict fixed))
            (fixed-IsLaid fixed conflict)
      | inl flexible ↦ subst (IsLaid r day placed) (sym (flexible_branch conflict flexible)) (
          moved_or_flagged-IsLaid (find_free_slot day r.start_minutes r.end_minutes placed) refl
            (find_free_slot-IsFound day r.start_minutes r.end_minutes placed) flexible conflict)
    ]
  ]
    where
      fixed_branch :
          has_conflict day r.start_minutes r.end_minutes placed ≡ true
          → r.is_flexible ≡ false
          → place_on r day placed ≡ routine_block r day r.start_minutes r.end_minutes true
      fixed_branch c f = simp (c, f)

      flexible_branch :
          has_conflict day r.start_minutes r.end_minutes placed ≡ true
          → r.is_flexible ≡ true
          → place_on r day placed
            ≡ moved_or_flagged r day (find_free_slot day r.start_minutes r.end_minutes placed)
      flexible_branch c f = simp (c, f)

-- The pairs of a routine and a day, in the order of the loops.
abbrev pub days_of : RoutineInput → List ℕ → List (RoutineInput × ℕ)
days_of r [] = []
days_of r (d ∷ ds) = (r, d) ∷ days_of r ds

abbrev pub jobs : List RoutineInput → List (RoutineInput × ℕ)
jobs [] = []
jobs (r ∷ rs) = days_of r r.days ++ jobs rs

-- The schedule grows from `placed` by one block for each pair, in order, each laid on those before.
abbrev pub Layers : List LifeBlock → List (RoutineInput × ℕ) → List LifeBlock → Type 0
Layers placed [] out = out ≡ placed
Layers placed ((r, day) ∷ js) out =
    (b : LifeBlock) × IsLaid r day placed b × Layers (placed ++ b ∷ []) js out

place_days-Layers :
    (r : RoutineInput) (days : List ℕ) (js : List (RoutineInput × ℕ)) (placed out : List LifeBlock)
    → Layers (place_days r days placed) js out
    → Layers placed (days_of r days ++ js) out
unfolding place_days
place_days-Layers r [] js placed out h = h
place_days-Layers r (day ∷ days) js placed out h = (
  place_on r day placed,
  place_on-IsLaid r day placed,
  place_days-Layers r days js (placed ++ place_on r day placed ∷ []) out h,
)

place_routines-Layers :
    (rs : List RoutineInput) (placed : List LifeBlock)
    → Layers placed (jobs rs) (place_routines rs placed)
unfolding place_routines
place_routines-Layers [] placed = refl
place_routines-Layers (r ∷ rs) placed =
    place_days-Layers r r.days (jobs rs) placed (place_routines (r ∷ rs) placed)
      (place_routines-Layers rs (place_days r r.days placed))

-- The life schedule is the fixed blocks, unflagged and in order, followed by one block for every
-- routine and each of its days, in order, each laid on the blocks before it: none is dropped.
pub build_life_schedule-Layers :
    (fixed_blocks : List FixedBlock) (routines : List RoutineInput)
    → Layers
        (map fixed_life_block fixed_blocks)
        (jobs routines)
        (build_life_schedule fixed_blocks routines)
unfolding build_life_schedule
build_life_schedule-Layers fixed_blocks routines =
    place_routines-Layers routines (map fixed_life_block fixed_blocks)
