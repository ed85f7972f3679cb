-- ===== src/Study/Day.antt =====
-- The blocks of one day in `generate_study_blocks`.
use thesdel.Base.{
  ℕ, zero, suc, ◌+◌, ◌-◌, ◌%◌, ◌≤◌, ◌<◌, min, ◌≡◌, refl, inl, inr, some, List, [], ◌∷◌, ◌++◌, ltb,
  leb, arith, All, Bool-cases, length, get_elem?, get_or, subst,
}
use thesdel.Study.Defs.{
  BusyInterval, SubjectInput, StudyBlock, block_for, subject_at, place_chunks, chunks_of,
  free_intervals_for_day, min_block_minutes, max_block_minutes, max_study_minutes_per_day,
}
use thesdel.Study.Free.{IsFreeSlot, IsFreeSlot-part}
use thesdel.Study.Chunks.{IsChunk, chunks-IsChunk}

-- The minutes of the blocks together.
abbrev pub minutes : List StudyBlock → ℕ
minutes [] = 0
minutes (b ∷ bs) = (b.end_minutes - b.start_minutes) + minutes bs

-- A block of the day stands in a free slot and lasts an hour at most.
abbrev pub IsPlaced : List BusyInterval → ℕ → StudyBlock → Type 0
IsPlaced busy day b =
    (b.day_of_week ≡ day)
    × IsFreeSlot busy day b.start_minutes b.end_minutes
    × (b.end_minutes ≤ b.start_minutes + max_block_minutes)

-- The blocks take the ranked subjects in turn, from the index on.
abbrev pub Rotates : List SubjectInput → ℕ → List StudyBlock → Type 0
Rotates ranked index [] = Unit
Rotates ranked index (b ∷ bs) =
    ((s : SubjectInput) × (get_elem? ranked (index % length ranked) ≡ some s)
      × (b.subject ≡ s.subject)
      × (b.priority ≡ s.priority)
      × (b.exam_date ≡ s.exam_date))
    × Rotates ranked (index + 1) bs

get_elem?-get_or {ℓ} :
    {A : Type ℓ} (d : A) (xs : List A) (i : ℕ)
    → i < length xs
    → get_elem? xs i ≡ some (get_or d xs i)
get_elem?-get_or d [] i h = elim h [ ]
get_elem?-get_or d (x ∷ xs) zero h = refl
get_elem?-get_or d (x ∷ xs) (suc i) h = get_elem?-get_or d xs i (omega arith)

pub Rotates-append :
    (ranked : List SubjectInput) (index : ℕ) (xs ys : List StudyBlock)
    → Rotates ranked index xs
    → Rotates ranked (index + length xs) ys
    → Rotates ranked index (xs ++ ys)
Rotates-append ranked index [] ys h k = subst (λ i. Rotates ranked i ys) (omega arith) k
Rotates-append ranked index (x ∷ xs) ys h k = (
  h.0,
  Rotates-append ranked (index + 1) xs ys h.1 (subst (λ i. Rotates ranked i ys) (omega arith) k),
)

module _ (first : SubjectInput) (others : List SubjectInput) where
  subject_at_lem :
      (index : ℕ)
      → get_elem? (first ∷ others) (index % length (first ∷ others))
        ≡ some (subject_at first others index)
  unfolding subject_at
  subject_at_lem index =
      get_elem?-get_or first (first ∷ others) (index % length (first ∷ others)) (omega arith)

  -- What the loop over the chunks of a day returns.
  pub record IsDayPlan (busy : List BusyInterval) (day used index : ℕ) (out : List StudyBlock × ℕ)
      : Type 0 where
    pub placed : All (IsPlaced busy day) out.0
    pub budget : used ≤ max_study_minutes_per_day → used + minutes out.0 ≤ max_study_minutes_per_day
    pub turns : Rotates (first ∷ others) index out.0
    pub next : out.1 ≡ index + length out.0

  place_chunks-IsDayPlan :
      (busy : List BusyInterval) (day used index : ℕ) (cs : List (ℕ × ℕ))
      → All (IsChunk busy day) cs
      → IsDayPlan busy day used index (place_chunks first others day used index cs)
  unfolding place_chunks block_for
  place_chunks-IsDayPlan busy day used index [] h = record {
    placed = tt;
    budget = λ u. omega arith;
    turns = tt;
    next = omega arith;
  }
  place_chunks-IsDayPlan busy day used index ((start, stop) ∷ cs) h =
      let block_end = min stop (start + (max_study_minutes_per_day - used)) in
      let skipped = place_chunks-IsDayPlan busy day used index cs h.1 in
      let placed =
        place_chunks-IsDayPlan busy day (used + (block_end - start)) (index + 1) cs h.1 in
      elim (Bool-cases (leb max_study_minutes_per_day used)) [
        | inl full ↦
            rw full
              (record { placed = tt; budget = λ u. omega arith; turns = tt; next = omega arith })
        | inr room ↦ elim (Bool-cases (ltb block_end (start + min_block_minutes))) [
          | inl short ↦ rw (room, short) skipped
          | inr long ↦
              rw (room, long)
                (record {
                  placed = (
                    (
                      refl,
                      IsFreeSlot-part start block_end h.0.0 (omega arith) (ground arith)
                          (omega arith),
                      omega (arith, h.0.1),
                    ),
                    placed.placed,
                  );
                  budget = λ u. omega (arith, placed.budget (omega arith));
                  turns = (
                    (subject_at first others index, subject_at_lem index, refl, refl, refl),
                    placed.turns,
                  );
                  next = omega (arith, placed.next);
                })
        ]
      ]

-- What the plan of a day's chunks says of that day.
pub chunks_of-IsDayPlan :
    (first : SubjectInput) (others : List SubjectInput) (busy : List BusyInterval) (day index : ℕ)
    → IsDayPlan first others busy day 0 index
        (place_chunks first others day 0 index (chunks_of (free_intervals_for_day day busy)))
chunks_of-IsDayPlan first others busy day index =
    place_chunks-IsDayPlan first others busy day 0 index
      (chunks_of (free_intervals_for_day day busy)) (chunks-IsChunk busy day)
