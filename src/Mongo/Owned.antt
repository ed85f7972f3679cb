-- ===== src/Mongo/Owned.antt =====
-- The documents that pass a test, as an owner's, under writes to one document found by its key.
use thesdel.Base.{
  ℕ, ◌≡◌, refl, ◌≢◌, inl, inr, Bool, true, false, none, some, List, [], ◌∷◌, ◌++◌, ◌==◌, IsKeyed,
  All, find, filter, arith, Bool-cases, some-injective, subst, sym,
}
use thesdel.Mongo.{update_first, remove_first}

module _ {A : Type 0} (key : A → ℕ) (k : ℕ) where
  apart :
      (P : A → Type 0) (x : A) (xs : List A)
      → (key x == k) ≡ true
      → All (λ y. key y ≢ key x) xs
      → All (λ y. (key y == k) ≡ true → P y) xs
  apart P x [] e h = tt
  apart P x (y ∷ ys) e h = ((λ t. absurd (ground (arith, h.0))), apart P x ys e h.1)

  -- What holds of the document that is found by its key holds of all with that key.
  pub found_only :
      (P : A → Type 0) (xs : List A) (d : A)
      → IsKeyed key xs
      → find (λ x. key x == k) xs ≡ some d
      → P d
      → All (λ x. (key x == k) ≡ true → P x) xs
  found_only P [] d keyed e h = tt
  found_only P (x ∷ xs) d keyed e h = elim (Bool-cases (key x == k)) [
    | inl t ↦ ((λ _. subst P (sym (some-injective (rw t at e))) h), apart P x xs t keyed.0)
    | inr t ↦ ((λ u. cc), found_only P xs d keyed.1 (rw t at e) h)
  ]

module _ {A : Type 0} where
  pub find_passes : (q : A → Bool) (xs : List A) {d : A} → find q xs ≡ some d → q d ≡ true
  find_passes q [] e = cc
  find_passes q (x ∷ xs) {d} e = elim (Bool-cases (q x)) [
    | inl t ↦ subst (λ y. q y ≡ true) (some-injective (rw t at e)) t
    | inr t ↦ find_passes q xs (rw t at e)
  ]

  pub filter-append :
      (p : A → Bool) (xs ys : List A) → filter p (xs ++ ys) ≡ filter p xs ++ filter p ys
  filter-append p [] ys = refl
  filter-append p (x ∷ xs) ys = ground (arith, filter-append p xs ys)

  pub missing_all :
      (P : A → Type 0) (q : A → Bool) (xs : List A)
      → find q xs ≡ none
      → All (λ x. q x ≡ true → P x) xs
  missing_all P q [] e = tt
  missing_all P q (x ∷ xs) e = elim (Bool-cases (q x)) [
    | inl t ↦ absurd (ground arith)
    | inr t ↦ ((λ u. cc), missing_all P q xs (rw t at e))
  ]

module _ {A : Type 0} (p q : A → Bool) where
  pub find-filter :
      (xs : List A) → All (λ x. q x ≡ true → p x ≡ true) xs → find q (filter p xs) ≡ find q xs
  find-filter [] h = refl
  find-filter (x ∷ xs) h = elim (Bool-cases (q x)) [
    | inl t ↦ rw (h.0 t, t) refl
    | inr t ↦ ground (arith, find-filter xs h.1)
  ]

  pub find-filter-none :
      (xs : List A) → All (λ x. q x ≡ true → p x ≡ false) xs → find q (filter p xs) ≡ none
  find-filter-none [] h = refl
  find-filter-none (x ∷ xs) h = elim (Bool-cases (q x)) [
    | inl t ↦ rw (h.0 t) (find-filter-none xs h.1)
    | inr t ↦ ground (arith, find-filter-none xs h.1)
  ]

  pub filter-remove_first :
      (xs : List A)
      → All (λ x. q x ≡ true → p x ≡ true) xs
      → filter p (remove_first q xs) ≡ remove_first q (filter p xs)
  filter-remove_first [] h = refl
  filter-remove_first (x ∷ xs) h = elim (Bool-cases (q x)) [
    | inl t ↦ rw (h.0 t, t) refl
    | inr t ↦ ground (arith, filter-remove_first xs h.1)
  ]

  -- A document that fails the test is removed.
  pub filter-remove_first_other :
      (xs : List A)
      → All (λ x. q x ≡ true → p x ≡ false) xs
      → filter p (remove_first q xs) ≡ filter p xs
  filter-remove_first_other [] h = refl
  filter-remove_first_other (x ∷ xs) h = elim (Bool-cases (q x)) [
    | inl t ↦ rw (h.0 t, t) refl
    | inr t ↦ ground (arith, filter-remove_first_other xs h.1)
  ]

  module _ (f : A → A) (keeps : (x : A) → p (f x) ≡ p x) where
    pub filter-update_first :
        (xs : List A)
        → All (λ x. q x ≡ true → p x ≡ true) xs
        → filter p (update_first q f xs) ≡ update_first q f (filter p xs)
    filter-update_first [] h = refl
    filter-update_first (x ∷ xs) h = elim (Bool-cases (q x)) [
      | inl t ↦ ground (arith, h.0 t, keeps x)
      | inr t ↦ ground (arith, filter-update_first xs h.1)
    ]

    pub filter-update_first_other :
        (xs : List A)
        → All (λ x. q x ≡ true → p x ≡ false) xs
        → filter p (update_first q f xs) ≡ filter p xs
    filter-update_first_other [] h = refl
    filter-update_first_other (x ∷ xs) h = elim (Bool-cases (q x)) [
      | inl t ↦ ground (arith, h.0 t, keeps x)
      | inr t ↦ ground (arith, filter-update_first_other xs h.1)
    ]
