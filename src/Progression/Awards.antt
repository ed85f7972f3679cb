-- ===== src/Progression/Awards.antt =====
-- Awards of badges: each user has a badge once, and an evaluation is idempotent.
use thesdel.Base.{
  ℕ, ◌≡◌, refl, inl, inr, Bool, true, false, String, List, [], ◌∷◌, ◌++◌, any, arith, All, All-imp,
  Bool-cases, sym, ◌∙◌, ap, is_some, str_eq,
}
use thesdel.Mongo.{Mongo}
use thesdel.Mongo.Laws.{find-any}
use thesdel.Progression.{
  Badge, UserBadge, Value, ProgressionDb, criteria_met, is_award, has_badge, award, award_each,
  evaluate_and_award, list_by_criteria_type, limit, badge_catalog_hard_cap,
}

any-append_self {ℓ} :
    {A : Type ℓ} (p : A → Bool) (xs : List A) (y : A)
    → any p xs ≡ true
    → any p (xs ++ y ∷ []) ≡ true
any-append_self p [] y h = cc
any-append_self p (x ∷ xs) y h = elim (Bool-cases (p x)) [
  | inl t ↦ rw t
  | inr t ↦ rw t (any-append_self p xs y (rw t at h))
]

any-append_last {ℓ} :
    {A : Type ℓ} (p : A → Bool) (xs : List A) (y : A) → p y ≡ true → any p (xs ++ y ∷ []) ≡ true
any-append_last p [] y h = rw h
any-append_last p (x ∷ xs) y h = elim (Bool-cases (p x)) [
  | inl t ↦ rw t
  | inr t ↦ rw t (any-append_last p xs y h)
]

module _ (mongo : Mongo) where
  open mongo use {
    docs, find_one_lem, find_many, docs-insert_one, insert_one, insert_unique, insert_unique-clash,
    insert_unique-fresh,
  }

  has_badge-any :
      (user badge : ℕ) (s : ProgressionDb mongo)
      → has_badge mongo user badge s ≡ any (is_award user badge) (docs s.user_badges)
  unfolding has_badge
  has_badge-any user badge s =
      ap is_some (find_one_lem (is_award user badge) s.user_badges)
      ∙ find-any (is_award user badge) (docs s.user_badges)

  abbrev entry : ℕ → ℕ → ℕ → UserBadge
  entry now user badge = record { user_id = user; badge_id = badge; earned_at = now }

  abbrev with_entry : ℕ → ℕ → ℕ → ProgressionDb mongo → ProgressionDb mongo
  with_entry now user badge s = record s {
    user_badges = insert_one (entry now user badge) s.user_badges;
  }

  -- An award to a user without the badge.
  award_new :
      (now user badge : ℕ) (s : ProgressionDb mongo)
      → has_badge mongo user badge s ≡ false
      → award mongo now user badge s ≡ (true, with_entry now user badge s)
  unfolding award
  award_new now user badge s h =
      let fresh =
        insert_unique-fresh (is_award user badge) (entry now user badge) s.user_badges
          (sym (has_badge-any user badge s) ∙ h) in
      ground arith

  -- An award to a user who has the badge changes nothing.
  award_old :
      (now user badge : ℕ) (s : ProgressionDb mongo)
      → has_badge mongo user badge s ≡ true
      → award mongo now user badge s ≡ (false, s)
  unfolding award
  award_old now user badge s h =
      let clash =
        insert_unique-clash (is_award user badge) (entry now user badge) s.user_badges
          (sym (has_badge-any user badge s) ∙ h) in
      ground arith

  has_badge-with_entry :
      (now user badge : ℕ) (s : ProgressionDb mongo)
      → has_badge mongo user badge (with_entry now user badge s) ≡ true
  has_badge-with_entry now user badge s =
      has_badge-any user badge (with_entry now user badge s)
      ∙ ap (any (is_award user badge)) (docs-insert_one (entry now user badge) s.user_badges)
      ∙ any-append_last (is_award user badge) (docs s.user_badges) (entry now user badge)
          (ground arith)

  has_badge-kept :
      (now user badge other : ℕ) (s : ProgressionDb mongo)
      → has_badge mongo user other s ≡ true
      → has_badge mongo user other (with_entry now user badge s) ≡ true
  has_badge-kept now user badge other s h =
      has_badge-any user other (with_entry now user badge s)
      ∙ ap (any (is_award user other)) (docs-insert_one (entry now user badge) s.user_badges)
      ∙ any-append_self (is_award user other) (docs s.user_badges) (entry now user badge)
          (sym (has_badge-any user other s) ∙ h)

  -- Every badge of the list whose criterion is met is held.
  abbrev pub HoldsMet : ℕ → Value → List Badge → ProgressionDb mongo → Type 0
  HoldsMet user current bs s =
      All (λ b. criteria_met b.criteria_value current ≡ true → has_badge mongo user b.id s ≡ true)
        bs

  -- What the loop over the badges leaves behind.
  record Awards (user : ℕ) (current : Value) (bs : List Badge) (s : ProgressionDb mongo)
      (out : List ℕ × ProgressionDb mongo) : Type 0 where
    held : HoldsMet user current bs out.1
    kept :
        (other : ℕ) → has_badge mongo user other s ≡ true → has_badge mongo user other out.1 ≡ true
    new :
        All
          (λ id. (has_badge mongo user id s ≡ false) × (has_badge mongo user id out.1 ≡ true))
          out.0
    catalog : out.1.badges ≡ s.badges

  -- A badge that is not held later was not held before.
  not_held_before :
      (now user badge id : ℕ) (s : ProgressionDb mongo)
      → has_badge mongo user id (with_entry now user badge s) ≡ false
      → has_badge mongo user id s ≡ false
  not_held_before now user badge id s h = elim (Bool-cases (has_badge mongo user id s)) [
    | inl held ↦ absurd (true_false (sym (has_badge-kept now user badge id s held) ∙ h))
    | inr free ↦ free
  ]
    where
      true_false : true ≡ false → ⊥
      true_false q = cc

  award_each-Awards :
      (clock : ℕ → ℕ) (user : ℕ) (current : Value) (bs : List Badge) (s : ProgressionDb mongo)
      → Awards user current bs s (award_each mongo clock user current bs s)
  unfolding award_each
  award_each-Awards clock user current [] s = record {
    held = tt;
    kept = λ o h. h;
    new = tt;
    catalog = refl;
  }
  award_each-Awards clock user current (b ∷ bs) s =
      let skipped = award_each-Awards clock user current bs s in
      let s' = with_entry (clock b.id) user b.id s in
      let later = award_each-Awards clock user current bs s' in
      elim (Bool-cases (criteria_met b.criteria_value current)) [
        | inr unmet ↦ rw unmet (record {
          held = ((λ met. absurd (ground arith)), skipped.held);
          kept = skipped.kept;
          new = skipped.new;
          catalog = skipped.catalog;
        })
        | inl met ↦ elim (Bool-cases (has_badge mongo user b.id s)) [
          | inl held ↦
              rw (met, held)
                (record {
                  held = ((λ m. skipped.kept b.id held), skipped.held);
                  kept = skipped.kept;
                  new = skipped.new;
                  catalog = skipped.catalog;
                })
          | inr free ↦
              rw (met, free, award_new (clock b.id) user b.id s free)
                (record {
                  held = (
                    (λ m. later.kept b.id (has_badge-with_entry (clock b.id) user b.id s)),
                    later.held,
                  );
                  kept = λ o h. later.kept o (has_badge-kept (clock b.id) user b.id o s h);
                  new = (
                    (free, later.kept b.id (has_badge-with_entry (clock b.id) user b.id s)),
                    All-imp
                        (λ id.
                          (has_badge mongo user id s' ≡ false)
                          × (has_badge mongo user id (award_each mongo clock user current bs s').1
                              ≡ true))
                        (λ id.
                          (has_badge mongo user id s ≡ false)
                          × (has_badge mongo user id (award_each mongo clock user current bs s').1
                              ≡ true))
                        (λ id h. (not_held_before (clock b.id) user b.id id s h.0, h.1))
                        (award_each mongo clock user current bs s').0 later.new,
                  );
                  catalog = later.catalog;
                })
        ]
      ]

  -- With every badge held that is met, the loop changes nothing.
  award_each_again :
      (clock : ℕ → ℕ) (user : ℕ) (current : Value) (bs : List Badge) (s : ProgressionDb mongo)
      → HoldsMet user current bs s
      → award_each mongo clock user current bs s ≡ ([], s)
  unfolding award_each
  award_each_again clock user current [] s h = refl
  award_each_again clock user current (b ∷ bs) s h =
      elim (Bool-cases (criteria_met b.criteria_value current)) [
        | inr unmet ↦ rw unmet (award_each_again clock user current bs s h.1)
        | inl met ↦ rw (met, h.0 met) (award_each_again clock user current bs s h.1)
      ]

  list_by_criteria_type_same :
      (kind : String) (s s' : ProgressionDb mongo)
      → s'.badges ≡ s.badges
      → list_by_criteria_type mongo kind s' ≡ list_by_criteria_type mongo kind s
  unfolding list_by_criteria_type
  list_by_criteria_type_same kind s s' h =
      ap
        (λ (c : mongo.Collection Badge).
          limit badge_catalog_hard_cap (find_many (λ b. str_eq b.criteria_type kind) c))
        h

  -- An evaluation leaves the user with every listed badge of the type that is met; what it returns
  -- was not held before and is held now, no badge is lost, and a second evaluation of the same
  -- value awards nothing and changes nothing.
  pub evaluate_and_award_twice :
      (clock clock' : ℕ → ℕ) (user : ℕ) (kind : String) (current : Value) (s : ProgressionDb mongo)
      → let (ids, s') = evaluate_and_award mongo clock user kind current s in
        HoldsMet user current (list_by_criteria_type mongo kind s) s'
        × All (λ id. (has_badge mongo user id s ≡ false) × (has_badge mongo user id s' ≡ true)) ids
        × ((other : ℕ) → has_badge mongo user other s ≡ true → has_badge mongo user other s' ≡ true)
        × (evaluate_and_award mongo clock' user kind current s' ≡ ([], s'))
  unfolding evaluate_and_award
  evaluate_and_award_twice clock clock' user kind current s =
      let bs = list_by_criteria_type mongo kind s in
      let first = award_each-Awards clock user current bs s in
      let s' = (award_each mongo clock user current bs s).1 in
      (
        first.held,
        first.new,
        first.kept,
        ap (λ (xs : List Badge). award_each mongo clock' user current xs s')
              (list_by_criteria_type_same kind s s' first.catalog)
            ∙ award_each_again clock' user current bs s' first.held,
      )
