-- ===== src/Study/Week.antt =====
-- `generate_study_blocks`: where the blocks of the week stand, how long they are and whose.
use native.Mathlib.Decide.{ℕ_discrete}
use thesdel.Base.Sorting.{insert_sorted_ne}
use thesdel.Base.{
  ℕ, zero, suc, ◌+◌, ◌≤◌, ◌<◌, min, ◌≡◌, refl, ◌≢◌, inl, inr, List, [], ◌∷◌, ◌++◌, ltb, leb,
  if◌then◌else◌, filter, ◌==◌, arith, All, Any, All-imp, All-append, Bool-cases, subst, sym,
}
use thesdel.Base.Sorting.{sorted_reverse}
use thesdel.Study.Defs.{
  BusyInterval, SubjectInput, StudyBlock, block_for, place_chunks, place_days, place_ranked,
  generate_study_blocks, subject_score, chunks_of, free_intervals_for_day, min_block_minutes,
  max_block_minutes, max_study_minutes_per_day,
}
use thesdel.Study.Free.{IsFreeSlot}
use thesdel.Study.Chunks.{IsChunk, chunks-IsChunk, no_chunk_no_slot}
use thesdel.Study.Day.{minutes, IsPlaced, Rotates, Rotates-append, chunks_of-IsDayPlan}

-- A block of the days from `day` on, before `stop`.
abbrev pub IsScheduled : List BusyInterval → ℕ → ℕ → StudyBlock → Type 0
IsScheduled busy day stop b =
    (day ≤ b.day_of_week)
    × (b.day_of_week < stop)
    × IsFreeSlot busy b.day_of_week b.start_minutes b.end_minutes
    × (b.end_minutes ≤ b.start_minutes + max_block_minutes)

-- The blocks of one day.
abbrev pub on_day : ℕ → List StudyBlock → List StudyBlock
on_day day bs = filter (λ b. b.day_of_week == day) bs

minutes_append :
    (day : ℕ) (xs ys : List StudyBlock)
    → minutes (on_day day (xs ++ ys)) ≡ minutes (on_day day xs) + minutes (on_day day ys)
minutes_append day [] ys = omega arith
minutes_append day (x ∷ xs) ys = ground (arith, minutes_append day xs ys)

minutes_of_day :
    (day d : ℕ) (xs : List StudyBlock)
    → All (λ b. b.day_of_week ≡ d) xs
    → minutes (on_day day xs) ≡ (if d == day then minutes xs else 0)
minutes_of_day day d [] h = ground arith
minutes_of_day day d (x ∷ xs) h = ground (arith, minutes_of_day day d xs h.1)

minutes_later :
    (day d stop : ℕ) (busy : List BusyInterval) (xs : List StudyBlock)
    → day < d
    → All (IsScheduled busy d stop) xs
    → minutes (on_day day xs) ≡ 0
minutes_later day d stop busy [] k h = refl
minutes_later day d stop busy (x ∷ xs) k h =
    ground (arith, minutes_later day d stop busy xs k h.1, h.0.0)

module _ (first : SubjectInput) (others : List SubjectInput) (busy : List BusyInterval) where
  IsScheduled-today :
      (day stop : ℕ)
      → day < stop
      → (b : StudyBlock) → IsPlaced busy day b
      → IsScheduled busy day stop b
  IsScheduled-today day stop k b h = (
    omega (arith, h.0),
    omega (arith, h.0),
    subst (λ d. IsFreeSlot busy d b.start_minutes b.end_minutes) (sym h.0) h.1,
    h.2,
  )

  IsScheduled-later :
      (day stop : ℕ) (b : StudyBlock)
      → IsScheduled busy (day + 1) stop b
      → IsScheduled busy day stop b
  IsScheduled-later day stop b h = (omega (arith, h.0), h.1, h.2, h.3)

  place_days-IsScheduled :
      (days day index : ℕ)
      → All (IsScheduled busy day (day + days)) (place_days first others busy days day index)
  unfolding place_days
  place_days-IsScheduled zero day index = tt
  place_days-IsScheduled (suc days) day index =
      let plan = chunks_of-IsDayPlan first others busy day index in
      let chunks = chunks_of (free_intervals_for_day day busy) in
      let out = place_chunks first others day 0 index chunks in
      let rest = place_days first others busy days (day + 1) out.1 in
      All-append (IsScheduled busy day (day + suc days)) out.0 rest
        (All-imp (IsPlaced busy day) (IsScheduled busy day (day + suc days))
          (IsScheduled-today day (day + suc days) (omega arith)) out.0 plan.placed)
        (subst (λ stop. All (IsScheduled busy day stop) rest) (omega arith)
          (All-imp (IsScheduled busy (day + 1) (day + 1 + days))
            (IsScheduled busy day (day + 1 + days)) (IsScheduled-later day (day + 1 + days)) rest
            (place_days-IsScheduled days (day + 1) out.1)))

  place_days-Rotates :
      (days day index : ℕ)
      → Rotates (first ∷ others) index (place_days first others busy days day index)
  unfolding place_days
  place_days-Rotates zero day index = tt
  place_days-Rotates (suc days) day index =
      let plan = chunks_of-IsDayPlan first others busy day index in
      let chunks = chunks_of (free_intervals_for_day day busy) in
      let out = place_chunks first others day 0 index chunks in
      let rest = place_days first others busy days (day + 1) out.1 in
      Rotates-append (first ∷ others) index out.0 rest plan.turns (
        subst (λ i. Rotates (first ∷ others) i rest) plan.next
          (place_days-Rotates days (day + 1) out.1))

  place_days_budget :
      (d days day index : ℕ)
      → minutes (on_day d (place_days first others busy days day index)) ≤ max_study_minutes_per_day
  unfolding place_days
  place_days_budget d zero day index = omega arith
  place_days_budget d (suc days) day index =
      let plan = chunks_of-IsDayPlan first others busy day index in
      let chunks = chunks_of (free_intervals_for_day day busy) in
      let out = place_chunks first others day 0 index chunks in
      let rest = place_days first others busy days (day + 1) out.1 in
      let today : All (λ b. b.day_of_week ≡ day) out.0 =
        All-imp (IsPlaced busy day) (λ b. b.day_of_week ≡ day) (λ b h. h.0) out.0 plan.placed in
      elim (Bool-cases (day == d)) [
        | inl e ↦ omega (
          arith,
          minutes_append d out.0 rest,
          rw e at (minutes_of_day d day out.0 today),
          plan.budget (omega arith),
          minutes_later d (day + 1) (day + 1 + days) busy rest (ground arith)
              (place_days-IsScheduled days (day + 1) out.1),
        )
        | inr e ↦ omega (
          arith,
          minutes_append d out.0 rest,
          rw e at (minutes_of_day d day out.0 today),
          place_days_budget d days (day + 1) out.1,
        )
      ]

-- Each block of a generated plan is on a day of the week, lies in the study window, lasts 30 to 60
-- minutes and meets no busy interval of its day.
pub generate_study_blocks-IsScheduled :
    (busy : List BusyInterval) (subjects : List SubjectInput) (today : ℕ)
    → All (IsScheduled busy 0 7) (generate_study_blocks busy subjects today)
unfolding generate_study_blocks
generate_study_blocks-IsScheduled busy subjects today =
    ranked (sorted_reverse (subject_score today) subjects)
  where
    ranked : (r : List SubjectInput) → All (IsScheduled busy 0 7) (place_ranked busy r)
    ranked [] = tt
    ranked (s ∷ ss) = place_days-IsScheduled s ss busy 7 0 0

-- A generated plan has at most 120 minutes of study on any day.
pub generate_study_blocks_budget :
    (busy : List BusyInterval) (subjects : List SubjectInput) (today day : ℕ)
    → minutes (on_day day (generate_study_blocks busy subjects today)) ≤ max_study_minutes_per_day
unfolding generate_study_blocks
generate_study_blocks_budget busy subjects today day =
    ranked (sorted_reverse (subject_score today) subjects)
  where
    ranked :
        (r : List SubjectInput)
        → minutes (on_day day (place_ranked busy r)) ≤ max_study_minutes_per_day
    ranked [] = omega arith
    ranked (s ∷ ss) = place_days_budget s ss busy day 7 0 0

-- The blocks of a generated plan take the subjects in turn over the whole week, in the order of
-- their scores, and carry the subject's priority and exam date.
pub generate_study_blocks-Rotates :
    (busy : List BusyInterval) (subjects : List SubjectInput) (today : ℕ)
    → Rotates
        (sorted_reverse (subject_score today) subjects)
        0
        (generate_study_blocks busy subjects today)
unfolding generate_study_blocks
generate_study_blocks-Rotates busy subjects today =
    ranked (sorted_reverse (subject_score today) subjects)
  where
    ranked : (r : List SubjectInput) → Rotates r 0 (place_ranked busy r)
    ranked [] = tt
    ranked (s ∷ ss) = place_days-Rotates s ss busy 7 0 0

-- The first chunk of a day is always placed.
first_chunk :
    (first : SubjectInput) (others : List SubjectInput) (busy : List BusyInterval) (day index : ℕ)
    (cs : List (ℕ × ℕ))
    → cs ≢ []
    → All (IsChunk busy day) cs
    → Any (λ b. b.day_of_week ≡ day) (place_chunks first others day 0 index cs).0
unfolding place_chunks block_for
first_chunk first others busy day index [] ne h = absurd (ne refl)
first_chunk first others busy day index ((start, stop) ∷ cs) ne h =
    elim (Bool-cases (ltb (min stop (start + 120)) (start + min_block_minutes))) [
      | inl short ↦ absurd (ground (arith, h.0.0.lasts, h.0.1))
      | inr long ↦ rw long (inl refl)
    ]

Any-append_left {ℓ} : {A : Type ℓ} (P : A → Type 0) (xs ys : List A) → Any P xs → Any P (xs ++ ys)
Any-append_left P [] ys h = elim h [ ]
Any-append_left P (x ∷ xs) ys (inl h) = inl h
Any-append_left P (x ∷ xs) ys (inr h) = inr (Any-append_left P xs ys h)

Any-append_right {ℓ} : {A : Type ℓ} (P : A → Type 0) (xs ys : List A) → Any P ys → Any P (xs ++ ys)
Any-append_right P [] ys h = h
Any-append_right P (x ∷ xs) ys h = inr (Any-append_right P xs ys h)

place_days_fills :
    (first : SubjectInput) (others : List SubjectInput) (busy : List BusyInterval)
    (d start stop days day index : ℕ)
    → IsFreeSlot busy d start stop
    → day ≤ d
    → d < day + days
    → Any (λ b. b.day_of_week ≡ d) (place_days first others busy days day index)
unfolding place_days
place_days_fills first others busy d start stop zero day index h lo hi = absurd (omega arith)
place_days_fills first others busy d start stop (suc days) day index h lo hi =
    let chunks = chunks_of (free_intervals_for_day day busy) in
    let out = place_chunks first others day 0 index chunks in
    let rest = place_days first others busy days (day + 1) out.1 in
    let P : StudyBlock → Type 0 = λ b. b.day_of_week ≡ d in
    elim (ℕ_discrete day d) [
      | yes e ↦ Any-append_left P out.0 rest (
          subst (λ x. Any (λ b. b.day_of_week ≡ x) out.0) e
            (first_chunk first others busy day index chunks
              (λ nil.
                no_chunk_no_slot busy day nil start stop
                  (subst (λ x. IsFreeSlot busy x start stop) (sym e) h))
              (chunks-IsChunk busy day)))
      | no ne ↦ Any-append_right P out.0 rest (
          place_days_fills first others busy d start stop days (day + 1) out.1 h (omega arith)
            (omega arith))
    ]

-- With a subject to study, every day of the week that has a free slot gets a block.
pub generate_study_blocks_fills :
    (busy : List BusyInterval) (subject : SubjectInput) (subjects : List SubjectInput)
    (today day start stop : ℕ)
    → day < 7
    → IsFreeSlot busy day start stop
    → Any (λ b. b.day_of_week ≡ day) (generate_study_blocks busy (subject ∷ subjects) today)
unfolding generate_study_blocks sorted_reverse
generate_study_blocks_fills busy subject subjects today day start stop h free =
    ranked (sorted_reverse (subject_score today) (subject ∷ subjects)) (
      insert_sorted_ne (λ x y. leb (subject_score today y) (subject_score today x)) subject
        (sorted_reverse (subject_score today) subjects))
  where
    ranked : (r : List SubjectInput) → r ≢ [] → Any (λ b. b.day_of_week ≡ day) (place_ranked busy r)
    ranked [] ne = absurd (ne refl)
    ranked (s ∷ ss) ne = place_days_fills s ss busy day start stop 7 0 0 free (omega arith) h
