-- ===== src/Seeding/Once.antt =====
-- However often the migration is run, each of its badges is there once.
use thesdel.Base.{
  ℕ, zero, suc, max, ◌+◌, ◌≤◌, ◌≡◌, refl, sym, ap, ◌∙◌, inl, inr, Bool, true, ◌&&◌, none, some,
  String, List, [], ◌∷◌, any, take, filter, find, length, length-append, if◌then◌else◌, str_eq,
  eq_iff, arith, Bool-cases, Option-cases,
}
use mathlib.Core.Path.{subst₂}
use thesdel.Mongo.{Mongo}
use thesdel.Mongo.Laws.{find-append_none}
use thesdel.Mongo.Owned.{filter-append}
use thesdel.Progression.{Badge}
use thesdel.Seeding.{
  SeedBadge, SeedDb, Applied, seed_badges, is_named, new_badge, seed_each, run, interrupted,
  migration_id,
}

module _ {A : Type 0} (p : A → Bool) where
  none_passes : (xs : List A) → find p xs ≡ none → length (filter p xs) ≡ 0
  none_passes [] h = refl
  none_passes (x ∷ xs) h = elim (Bool-cases (p x)) [
    | inl e ↦ absurd (ground arith)
    | inr e ↦ rw e (none_passes xs (rw e at h))
  ]

  one_passes : (xs : List A) {x : A} → find p xs ≡ some x → 1 ≤ length (filter p xs)
  one_passes [] h = cc
  one_passes (x ∷ xs) h = elim (Bool-cases (p x)) [
    | inl e ↦ rw e (omega arith)
    | inr e ↦ rw e (one_passes xs (rw e at h))
  ]

  any-take : (k : ℕ) (xs : List A) → any p (take k xs) ≡ true → any p xs ≡ true
  any-take zero xs h = cc
  any-take (suc k) [] h = cc
  any-take (suc k) (x ∷ xs) h = ground (arith, any-take k xs)

abbrev pub is_seed : String → String → SeedBadge → Bool
is_seed family name s = str_eq s.family family && str_eq s.name name

-- One copy at least, if there is to be one.
abbrev pub at_least_one : Bool → ℕ → ℕ
at_least_one wanted n = if wanted then max 1 n else n

module _ (mongo : Mongo) where
  open mongo use {Collection, docs, insert_one, find_one, find_one_lem, docs-insert_one}

  -- How many badges have the family and the name.
  abbrev pub copies : String → String → Collection Badge → ℕ
  copies family name c = length (filter (is_named family name) (docs c))

  copies-insert_one :
      (family name : String) (b : Badge) (c : Collection Badge)
      → copies family name (insert_one b c)
        ≡ (if is_named family name b then copies family name c + 1 else copies family name c)
  copies-insert_one family name b c =
      let p = is_named family name in
      let grown =
        ap (λ xs. length (filter p xs)) (docs-insert_one b c)
        ∙ ap length (filter-append p (docs c) (b ∷ []))
        ∙ length-append (filter p (docs c)) (filter p (b ∷ [])) in
      elim (Bool-cases (p b)) [ inl e ↦ grown ∙ rw e refl | inr e ↦ grown ∙ rw e (omega arith) ]

  same_badge :
      (family name : String) (s : SeedBadge)
      → is_seed family name s ≡ true
      → (s.family ≡ family) × (s.name ≡ name)
  same_badge family name s h =
      (ground (arith, eq_iff s.family family), ground (arith, eq_iff s.name name))

  -- The badge of the seed is not there.
  absent :
      (family name : String) (s : SeedBadge) (c : Collection Badge)
      → find_one (is_named s.family s.name) c ≡ none
      → is_seed family name s ≡ true
      → copies family name c ≡ 0
  absent family name s c h e =
      let same = same_badge family name s e in
      none_passes (is_named family name) (docs c) (
        subst₂ (λ f n. find (is_named f n) (docs c) ≡ none) same.0 same.1
          (sym (find_one_lem (is_named s.family s.name) c) ∙ h))

  present :
      (family name : String) (s : SeedBadge) (c : Collection Badge) {b : Badge}
      → find_one (is_named s.family s.name) c ≡ some b
      → is_seed family name s ≡ true
      → 1 ≤ copies family name c
  present family name s c {b} h e =
      let same = same_badge family name s e in
      one_passes (is_named family name) (docs c) (
        subst₂ (λ f n. find (is_named f n) (docs c) ≡ some b) same.0 same.1
          (sym (find_one_lem (is_named s.family s.name) c) ∙ h))

  seed_each-copies :
      (ids : String → String → ℕ) (family name : String) (ss : List SeedBadge)
      (c : Collection Badge)
      → copies family name (seed_each mongo ids ss c).1
        ≡ at_least_one (any (is_seed family name) ss) (copies family name c)
  unfolding seed_each
  seed_each-copies ids family name [] c = refl
  seed_each-copies ids family name (s ∷ ss) c =
      elim (Option-cases (find_one (is_named s.family s.name) c)) [
        | inr (b, found) ↦
            rw (seed_each, found) (seed_each-copies ids family name ss c ∙ kept b found)
        | inl gone ↦
            let b = new_badge (ids s.family s.name) s in
            rw (seed_each, gone) (seed_each-copies ids family name ss (insert_one b c) ∙ added gone)
      ]
    where
      kept :
          (b : Badge)
          → find_one (is_named s.family s.name) c ≡ some b
          → at_least_one (any (is_seed family name) ss) (copies family name c)
            ≡ at_least_one (any (is_seed family name) (s ∷ ss)) (copies family name c)
      kept b found = elim (Bool-cases (is_seed family name s)) [
        | inl e ↦ ground (arith, present family name s c found e)
        | inr e ↦ rw e refl
      ]

      added :
          find_one (is_named s.family s.name) c ≡ none
          → at_least_one
              (any (is_seed family name) ss)
              (copies family name (insert_one (new_badge (ids s.family s.name) s) c))
            ≡ at_least_one (any (is_seed family name) (s ∷ ss)) (copies family name c)
      added gone =
          let grown = copies-insert_one family name (new_badge (ids s.family s.name) s) c in
          elim (Bool-cases (is_seed family name s)) [
            | inl e ↦ ground (arith, absent family name s c gone e, grown)
            | inr e ↦ ground (arith, grown)
          ]

  abbrev pub is_marker : Applied → Bool
  is_marker m = str_eq m.id migration_id

  run_once :
      (ids : String → String → ℕ) (now : ℕ) (s : SeedDb mongo)
      → find is_marker (docs s.schema_migrations) ≡ none
      → ((run mongo ids now s).badges ≡ (seed_each mongo ids seed_badges s.badges).1)
        × ((m : Applied) × (find is_marker (docs (run mongo ids now s).schema_migrations) ≡ some m))
  unfolding run
  run_once ids now s h =
      let query = find_one_lem is_marker s.schema_migrations ∙ h in
      let inserted = (seed_each mongo ids seed_badges s.badges).0 in
      let m : Applied = record {
        id = migration_id;
        applied_at = now;
        badges_inserted = inserted;
      } in
      (
        rw (run, query) refl,
        (
          m,
          rw (run, query)
              (ap (find is_marker) (docs-insert_one m s.schema_migrations)
                ∙ find-append_none is_marker (docs s.schema_migrations) (m ∷ []) h),
        ),
      )

  run_again :
      (ids : String → String → ℕ) (now : ℕ) (s : SeedDb mongo) {m : Applied}
      → find is_marker (docs s.schema_migrations) ≡ some m
      → run mongo ids now s ≡ s
  unfolding run
  run_again ids now s h = rw (run, find_one_lem is_marker s.schema_migrations ∙ h) refl

  any_again :
      (family name : String) (k n : ℕ) (ss : List SeedBadge)
      → at_least_one
          (any (is_seed family name) ss)
          (at_least_one (any (is_seed family name) (take k ss)) n)
        ≡ at_least_one (any (is_seed family name) ss) n
  any_again family name k n ss = elim (Bool-cases (any (is_seed family name) (take k ss))) [
    | inl e ↦ rw (e, any-take (is_seed family name) k ss e) (omega arith)
    | inr e ↦ rw e refl
  ]

  -- Where the migration is not marked as applied, a run that follows one that was interrupted behind
  -- any number of its badges leaves one badge of each family and name that it seeds, or those that
  -- were there before, and of any other as many as before; a further run then changes nothing.
  pub run-interrupted :
      (ids ids' ids'' : String → String → ℕ) (now now' k : ℕ) (family name : String)
      (s : SeedDb mongo)
      → find is_marker (docs s.schema_migrations) ≡ none
      → let t = run mongo ids' now (interrupted mongo ids k s) in
        (copies family name t.badges
          ≡ at_least_one (any (is_seed family name) seed_badges) (copies family name s.badges))
        × (run mongo ids'' now' t ≡ t)
  unfolding interrupted
  run-interrupted ids ids' ids'' now now' k family name s h =
      let first = run_once ids' now (interrupted mongo ids k s) h in
      (
        ap (copies family name) first.0
            ∙ seed_each-copies ids' family name seed_badges (interrupted mongo ids k s).badges
            ∙ ap (at_least_one (any (is_seed family name) seed_badges))
                (seed_each-copies ids family name (take k seed_badges) s.badges)
            ∙ any_again family name k (copies family name s.badges) seed_badges,
        run_again ids'' now' (run mongo ids' now (interrupted mongo ids k s)) first.1.1,
      )
