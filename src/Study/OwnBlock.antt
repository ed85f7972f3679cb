-- ===== src/Study/OwnBlock.antt =====
-- What `LitheralStudyService.regenerate_block` does, by how it ends, and how it looks its block up.
use thesdel.Base.{
  ℕ, ◌+◌, ◌<◌, ◌≤◌, ◌≡◌, refl, sym, ap, ◌∙◌, inl, inr, ◌⊎◌, Bool, not, Option, none, some,
  some-injective, String, List, ◌++◌, filter, find, ◌==◌, arith, subst, Bool-cases, Option-cases,
}
use thesdel.Errors.{AppError, Result, ok, err}
use thesdel.Mongo.{Mongo}
use thesdel.Mongo.Laws.{find_test}
use thesdel.Redis.{Redis}
use thesdel.Time.{time_to_minutes}
use thesdel.Usage.{Period}
use thesdel.Usage.Caps.{uses}
use thesdel.Study.Defs.{BusyInterval}
use thesdel.Study.Free.{IsFreeSlot}
use thesdel.Study.Service.{
  StudyPlan, StudyDb, RegenerateBlockResponse, busy_of_blocks, list_for_user, own_block,
}
use thesdel.Study.Plan.{IsBooked, busy_times}

module _ (mongo : Mongo) (redis : Redis) where
  open mongo use {docs, find_one_lem}

  -- The times of the user's other blocks.
  abbrev pub other_times : ℕ → StudyPlan → StudyDb mongo redis → Option (List BusyInterval)
  other_times user_id d s =
      busy_of_blocks
        (filter (λ b. not (b.id == d.id)) (list_for_user mongo redis user_id s.study_plans))

  module _ (p : Period) (regenerate_cap user_id : ℕ) (s : StudyDb mongo redis)
      (object_id : String → Option ℕ) (block_id : String) where
    abbrev pub used : StudyDb mongo redis → ℕ
    used t = uses mongo redis user_id "study_regenerate" p t.usage

    abbrev has_id : ℕ → StudyPlan → Bool
    has_id i b = b.id == i

    abbrev pub others : ℕ → StudyDb mongo redis → List StudyPlan
    others i t = filter (λ b. not (b.id == i)) (docs t.study_plans)

    -- The text is the id of the block, which is the user's.
    pub record IsOwn (d : StudyPlan) : Type 0 where
      pub parsed : object_id block_id ≡ some d.id
      pub found : find (has_id d.id) (docs s.study_plans) ≡ some d
      pub mine : d.user_id ≡ user_id

    -- The times that are taken for the block: those of the timetable and of the user's other blocks.
    pub record IsTaken (d : StudyPlan) (taken : List BusyInterval) : Type 0 where
      pub busy : List BusyInterval
      pub other_busy : List BusyInterval
      pub known : busy_times mongo redis user_id s ≡ some busy
      pub known_others : other_times user_id d s ≡ some other_busy
      pub all_taken : taken ≡ busy ++ other_busy

    -- A time that the search reads does not parse.
    abbrev pub IsUnread : StudyPlan → Type 0
    IsUnread d =
        (busy_times mongo redis user_id s ≡ none)
        ⊎ (other_times user_id d s ≡ none)
        ⊎ (time_to_minutes d.start_time ≡ none)

    abbrev HasNoSlot : StudyPlan → StudyDb mongo redis → Type 0
    HasNoSlot d t =
        (taken : List BusyInterval) × IsTaken d taken
        × ((start stop : ℕ) → ¬ IsFreeSlot taken d.day_of_week start stop)
        × (used t ≡ used s + 1)

    abbrev Moves : StudyPlan → StudyPlan → StudyDb mongo redis → Type 0
    Moves d block t =
        (taken : List BusyInterval) × IsTaken d taken
        × (block.id ≡ d.id)
        × (block.day_of_week ≡ d.day_of_week)
        × IsBooked taken block
        × (find (has_id d.id) (docs t.study_plans) ≡ some block)
        × (others d.id t ≡ others d.id s)
        × (used s < regenerate_cap)
        × (used t ≡ used s + 1)

    -- Why a call fails on a block of the user's.
    abbrev Fails : StudyPlan → AppError → StudyDb mongo redis → Type 0
    Fails d e t =
        (e ≡ AppError.service_unavailable)
        ⊎ ((e ≡ AppError.cap_reached) × (regenerate_cap ≤ used s))
        ⊎ ((e ≡ AppError.internal_error) × IsUnread d)
        ⊎ ((e ≡ AppError.conflict) × HasNoSlot d t)

    -- Why a call fails.
    abbrev Refuses : AppError → StudyDb mongo redis → Type 0
    Refuses e t =
        ((e ≡ AppError.internal_error) × (object_id block_id ≡ none) × (t ≡ s))
        ⊎ ((e ≡ AppError.not_found) × ((d : StudyPlan) → ¬ IsOwn d) × (t ≡ s))
        ⊎ ((d : StudyPlan) × IsOwn d × Fails d e t)

    -- What a call has done, by how it ends.
    abbrev pub Mends : Result RegenerateBlockResponse × StudyDb mongo redis → Type 0
    Mends (ok r, t) = (d : StudyPlan) × IsOwn d × Moves d r.block t
    Mends (err e, t) = (t.study_plans ≡ s.study_plans) × (t.timetable ≡ s.timetable) × Refuses e t

    clash : {d : StudyPlan} → none ≡ some d → ⊥
    clash e = cc

    -- How the block is looked up.
    abbrev Finds : Result StudyPlan → Type 0
    Finds r =
        ((r ≡ err AppError.internal_error) × (object_id block_id ≡ none))
        ⊎ ((r ≡ err AppError.not_found) × ((d : StudyPlan) → ¬ IsOwn d))
        ⊎ ((d : StudyPlan) × (r ≡ ok d) × IsOwn d)

    pub own_block-Finds : Finds (own_block mongo redis object_id user_id block_id s.study_plans)
    unfolding own_block
    own_block-Finds = elim (Option-cases (object_id block_id)) [
      | inl bad ↦ inl (rw (own_block, bad) refl, bad)
      | inr (i, parsed) ↦
          let seen = find_one_lem (has_id i) s.study_plans in
          elim (Option-cases (find (has_id i) (docs s.study_plans))) [
            | inl gone ↦ inr (
                inl (
                  rw (own_block, parsed, seen, gone) refl,
                  λ d own.
                      let same : i ≡ d.id = some-injective (sym parsed ∙ own.parsed) in
                      clash (
                        sym (subst (λ j. find (has_id j) (docs s.study_plans) ≡ none) same gone)
                        ∙ own.found),
                ))
            | inr (d, found) ↦
                let same : i ≡ d.id =
                  ground (arith, find_test (has_id i) (docs s.study_plans) found) in
                elim (Bool-cases (d.user_id == user_id)) [
                  | inl mine ↦ inr (
                      inr (
                        d,
                        rw (own_block, parsed, seen, found, mine) refl,
                        record {
                          parsed = parsed ∙ ap some same;
                          found =
                              subst (λ j. find (has_id j) (docs s.study_plans) ≡ some d) same found;
                          mine = ground arith;
                        },
                      ))
                  | inr foreign ↦ inr (
                      inl (
                        rw (own_block, parsed, seen, found, foreign) refl,
                        λ e own.
                            let at : i ≡ e.id = some-injective (sym parsed ∙ own.parsed) in
                            let is_d : e ≡ d = some-injective (
                              sym own.found
                              ∙ subst (λ j. find (has_id j) (docs s.study_plans) ≡ some d) at
                                  found) in
                            let mine : d.user_id ≡ user_id =
                              ap (λ (x : StudyPlan). x.user_id) (sym is_d) ∙ own.mine in
                            ground arith,
                      ))
                ]
          ]
    ]
