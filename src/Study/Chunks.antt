-- ===== src/Study/Chunks.antt =====
-- `_split_into_blocks` and the chunks of a day.
use thesdel.Base.{
  ℕ, zero, suc, ◌+◌, ◌-◌, ◌≤◌, ◌<◌, min, ◌≡◌, ◌≢◌, ◌⊎◌, Any, inl, inr, Bool, Option, none, some,
  List, [], ◌∷◌, ◌++◌, leb, filter, not, ◌==◌, arith, All, All-append, All-filter_keep, Bool-cases,
  refl, ap, subst, by_value,
}
use thesdel.Study.Defs.{
  BusyInterval, FreeInterval, split_from, split_into_blocks, chunks_of, free_intervals_for_day,
  head_of, or_else, slot_of, find_replacement_slot, min_block_minutes, max_block_minutes,
}
use thesdel.Study.Free.{
  IsFreeSlot, IsFreeSlot-part, Covers, free_intervals_for_day-IsFreeSlot,
  free_intervals_for_day_complete,
}

-- The chunks follow on one another from the cursor, each of 30 to 60 minutes, and what is left
-- before the stop is too short for one more.
abbrev pub Tiles : ℕ → ℕ → List (ℕ × ℕ) → Type 0
Tiles cursor stop [] = stop < cursor + min_block_minutes
Tiles cursor stop ((s, e) ∷ cs) =
    (s ≡ cursor)
    × (s + min_block_minutes ≤ e)
    × (e ≤ s + max_block_minutes)
    × (e ≤ stop)
    × Tiles e stop cs

split_from-Tiles :
    (fuel cursor stop : ℕ) → stop - cursor ≤ fuel → Tiles cursor stop (split_from fuel cursor stop)
unfolding split_from
split_from-Tiles zero cursor stop h = omega arith
split_from-Tiles (suc fuel) cursor stop h =
    elim (Bool-cases (leb (cursor + min_block_minutes) stop)) [
      | inl e ↦
          let room : cursor + min_block_minutes ≤ stop = ground arith in
          let block_end = min (cursor + max_block_minutes) stop in
          rw e (
            refl,
            omega arith,
            omega arith,
            omega arith,
            split_from-Tiles fuel block_end stop (omega arith),
          )
      | inr e ↦ rw e (ground arith)
    ]

-- The loop of `_split_into_blocks` cuts a free interval from its start into chunks of 30 to 60
-- minutes with no gap, and stops only when less than 30 minutes are left.
pub split_into_blocks-Tiles :
    (f : FreeInterval) → Tiles f.start_minutes f.end_minutes (split_into_blocks f)
unfolding split_into_blocks
split_into_blocks-Tiles f =
    split_from-Tiles (f.end_minutes - f.start_minutes) f.start_minutes f.end_minutes (omega arith)

-- A chunk is a free slot of at most 60 minutes.
abbrev pub IsChunk : List BusyInterval → ℕ → ℕ × ℕ → Type 0
IsChunk busy day c = IsFreeSlot busy day c.0 c.1 × (c.1 ≤ c.0 + max_block_minutes)

Tiles-IsChunk :
    (busy : List BusyInterval) (day start stop cursor : ℕ) (cs : List (ℕ × ℕ))
    → IsFreeSlot busy day start stop
    → start ≤ cursor
    → Tiles cursor stop cs
    → All (IsChunk busy day) cs
Tiles-IsChunk busy day start stop cursor [] h k t = tt
Tiles-IsChunk busy day start stop cursor ((s, e) ∷ cs) h k t = (
  (IsFreeSlot-part s e h (omega arith) t.1 t.3, t.2),
  Tiles-IsChunk busy day start stop e cs h (omega arith) t.4,
)

chunks_of-IsChunk :
    (busy : List BusyInterval) (day : ℕ) (fs : List FreeInterval)
    → All (λ f. IsFreeSlot busy day f.start_minutes f.end_minutes) fs
    → All (IsChunk busy day) (chunks_of fs)
unfolding chunks_of
chunks_of-IsChunk busy day [] h = tt
chunks_of-IsChunk busy day (f ∷ fs) h =
    All-append (IsChunk busy day) (split_into_blocks f) (chunks_of fs)
      (Tiles-IsChunk busy day f.start_minutes f.end_minutes f.start_minutes (split_into_blocks f)
        h.0 (omega arith) (split_into_blocks-Tiles f))
      (chunks_of-IsChunk busy day fs h.1)

pub chunks-IsChunk :
    (busy : List BusyInterval) (day : ℕ)
    → All (IsChunk busy day) (chunks_of (free_intervals_for_day day busy))
chunks-IsChunk busy day =
    chunks_of-IsChunk busy day (free_intervals_for_day day busy)
      (free_intervals_for_day-IsFreeSlot day busy)

no_chunk_no_interval :
    (busy : List BusyInterval) (day : ℕ) (fs : List FreeInterval)
    → All (λ f. IsFreeSlot busy day f.start_minutes f.end_minutes) fs
    → chunks_of fs ≡ []
    → fs ≡ []
unfolding chunks_of
no_chunk_no_interval busy day [] h e = refl
no_chunk_no_interval busy day (f ∷ fs) h e =
    absurd (no_tile (split_into_blocks f) (chunks_of fs) e (split_into_blocks-Tiles f))
  where
    no_tile : (cs ds : List (ℕ × ℕ)) → cs ++ ds ≡ [] → Tiles f.start_minutes f.end_minutes cs → ⊥
    no_tile [] ds q t = omega (arith, h.0.lasts)
    no_tile (c ∷ cs) ds q t = cc

-- A day without a chunk has no free slot.
pub no_chunk_no_slot :
    (busy : List BusyInterval) (day : ℕ)
    → chunks_of (free_intervals_for_day day busy) ≡ []
    → (start stop : ℕ) → ¬ IsFreeSlot busy day start stop
no_chunk_no_slot busy day e start stop h =
    nowhere (free_intervals_for_day day busy)
      (no_chunk_no_interval busy day (free_intervals_for_day day busy)
        (free_intervals_for_day-IsFreeSlot day busy) e)
      (free_intervals_for_day_complete day start stop busy h)
  where
    nowhere : (fs : List FreeInterval) → fs ≡ [] → Any (Covers start stop) fs → ⊥
    nowhere [] q a = a
    nowhere (f ∷ fs) q a = cc

-- What a replacement is, for the busy list that joins the classes and the other blocks: a slot of
-- 30 to 60 minutes that is free, or none where there is no free slot at all.
abbrev pub IsReplacement : List BusyInterval → ℕ → Option (ℕ × ℕ × ℕ) → Type 0
IsReplacement busy day none = (start stop : ℕ) → ¬ IsFreeSlot busy day start stop
IsReplacement busy day (some (d, start, stop)) = (d ≡ day) × IsChunk busy day (start, stop)

module _ (busy : List BusyInterval) (day : ℕ) where
  capped-IsReplacement :
      (c : ℕ × ℕ) → IsChunk busy day c → IsReplacement busy day (slot_of day (some c))
  capped-IsReplacement (s, t) c =
      let stop = min t (s + max_block_minutes) in
      let lasts : s + min_block_minutes ≤ t = c.0.lasts in
      (refl, (IsFreeSlot-part s stop c.0 (omega arith) (omega arith) (omega arith), omega arith))

  or_else-IsReplacement :
      (kept chunks : List (ℕ × ℕ))
      → All (IsChunk busy day) kept
      → All (IsChunk busy day) chunks
      → (chunks ≡ [] → (start stop : ℕ) → ¬ IsFreeSlot busy day start stop)
      → IsReplacement busy day (slot_of day (head_of (or_else kept chunks)))
  or_else-IsReplacement [] [] k h e = e refl
  or_else-IsReplacement [] (c ∷ cs) k h e = capped-IsReplacement c h.0
  or_else-IsReplacement (c ∷ cs) chunks k h e = capped-IsReplacement c k.0

-- A replacement slot is on the asked day, lies in the study window, is 30 to 60 minutes long and
-- meets neither a class block nor another study block of the day; there is none only if the day
-- has no free slot of 30 minutes.
pub find_replacement_slot-IsReplacement :
    (busy others : List BusyInterval) (day exclude : ℕ)
    → IsReplacement (busy ++ others) day (find_replacement_slot busy others day exclude)
unfolding find_replacement_slot
find_replacement_slot-IsReplacement busy others day exclude =
    let all_busy = busy ++ others in
    let chunks = chunks_of (free_intervals_for_day day all_busy) in
    let keep : ℕ × ℕ → Bool = λ c. not (c.0 == exclude) in
    or_else-IsReplacement all_busy day (filter keep chunks) chunks
      (All-filter_keep (IsChunk all_busy day) keep chunks (chunks-IsChunk all_busy day))
      (chunks-IsChunk all_busy day) (no_chunk_no_slot all_busy day)

All-append_inv : (P : ℕ × ℕ → Type 0) (xs ys : List (ℕ × ℕ)) → All P (xs ++ ys) → All P ys
All-append_inv P [] ys h = h
All-append_inv P (x ∷ xs) ys h = All-append_inv P xs ys h.1

-- Which chunk of the day the slot is: the first that does not start at the excluded minute, or the
-- first of all where every one starts there.
abbrev pub Prefers : ℕ → ℕ → List (ℕ × ℕ) → Option (ℕ × ℕ × ℕ) → Type 0
Prefers day exclude chunks none = chunks ≡ []
Prefers day exclude chunks (some (d, start, stop)) =
    (d ≡ day)
    × ((pre : List (ℕ × ℕ)) × (post : List (ℕ × ℕ)) × (chunks ≡ pre ++ (start, stop) ∷ post)
        × All (λ c. c.0 ≡ exclude) pre
        × ((start ≢ exclude) ⊎ ((pre ≡ []) × All (λ c. c.0 ≡ exclude) chunks)))

module _ (busy : List BusyInterval) (day exclude : ℕ) where
  abbrev other : ℕ × ℕ → Bool
  other c = not (c.0 == exclude)

  -- What the filter leaves: nothing, or a list from the first chunk on that starts elsewhere.
  filter_head :
      (chunks : List (ℕ × ℕ))
      → (All (λ c. c.0 ≡ exclude) chunks × (filter other chunks ≡ []))
        ⊎ ((c : ℕ × ℕ) × (pre : List (ℕ × ℕ)) × (post : List (ℕ × ℕ)) × (c.0 ≢ exclude)
            × (chunks ≡ pre ++ c ∷ post)
            × All (λ e. e.0 ≡ exclude) pre
            × (filter other chunks ≡ c ∷ filter other post))
  filter_head [] = inl (tt, refl)
  filter_head (c ∷ cs) = elim (Bool-cases (c.0 == exclude)) [
    | inr e ↦ inr (c, [], cs, ground arith, refl, tt, rw e)
    | inl e ↦ elim (filter_head cs) [
      | inl (all, nil) ↦ inl ((ground arith, all), rw e nil)
      | inr (d, pre, post, ne, split, same, eq) ↦
          inr (d, c ∷ pre, post, ne, ap (λ r. c ∷ r) split, (ground arith, same), rw e eq)
    ]
  ]

  -- A chunk is not cut, since it lasts 60 minutes at most.
  uncut : (c : ℕ × ℕ) → IsChunk busy day c → slot_of day (some c) ≡ some (day, c.0, c.1)
  uncut (s, e) h =
      let short : min e (s + max_block_minutes) ≡ e = omega (arith, h.1) in
      ap (λ t. some (day, s, t)) short

  or_else-Prefers :
      (chunks : List (ℕ × ℕ))
      → All (IsChunk busy day) chunks
      → Prefers day exclude chunks (slot_of day (head_of (or_else (filter other chunks) chunks)))
  or_else-Prefers chunks each = elim (filter_head chunks) [
    | inl (all, nil) ↦ rw nil (first_of_same chunks each all)
    | inr (c, pre, post, ne, split, same, eq) ↦
        let chunk : IsChunk busy day c =
          (All-append_inv (IsChunk busy day) pre (c ∷ post)
            (subst (All (IsChunk busy day)) split each)).0 in
        rw eq (
          by_value (Prefers day exclude chunks) (uncut c chunk)
            (refl, (pre, post, split, same, inl ne)))
  ]
    where
      first_of_same :
          (cs : List (ℕ × ℕ))
          → All (IsChunk busy day) cs
          → All (λ c. c.0 ≡ exclude) cs
          → Prefers day exclude cs (slot_of day (head_of cs))
      first_of_same [] k h = refl
      first_of_same (c ∷ cs) k h =
          by_value (Prefers day exclude (c ∷ cs)) (uncut c k.0)
            (refl, ([], cs, refl, tt, inr (refl, h)))

-- The slot is on the day and is the first chunk of the day that does not start at the excluded
-- minute. Where there are chunks and every one starts there, it is the first of them: the stale slot
-- is handed back rather than none, which is the answer only where the day has no chunk.
pub find_replacement_slot-Prefers :
    (busy others : List BusyInterval) (day exclude : ℕ)
    → Prefers day exclude
        (chunks_of (free_intervals_for_day day (busy ++ others)))
        (find_replacement_slot busy others day exclude)
unfolding find_replacement_slot
find_replacement_slot-Prefers busy others day exclude =
    or_else-Prefers (busy ++ others) day exclude
      (chunks_of (free_intervals_for_day day (busy ++ others)))
      (chunks-IsChunk (busy ++ others) day)
