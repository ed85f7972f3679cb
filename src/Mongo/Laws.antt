-- ===== src/Mongo/Laws.antt =====
-- What a query finds in a list of documents behind an update.
use thesdel.Base.{
  IsKeyed, ℕ, ◌≡◌, refl, ◌≢◌, inl, inr, Bool, true, false, none, some, List, [], ◌∷◌, ◌++◌, find,
  any, Bool-cases, All, arith, ◌==◌, is_some, subst, ◌∙◌, ap, sym, ap, sym,
}
use thesdel.Mongo.{update_first, update_all}

module _ {A : Type 0} where
  -- What holds of all documents holds of the one that is found, which passes the test.
  pub find-All :
      (P : A → Type 0) (p : A → Bool) (xs : List A) {x : A}
      → find p xs ≡ some x
      → All P xs
      → P x × (p x ≡ true)
  find-All P p [] e h = cc
  find-All P p (y ∷ ys) {x} e h = elim (Bool-cases (p y)) [
    | inl t ↦ let same : y ≡ x = ground arith in (subst P same h.0, subst (λ z. p z ≡ true) same t)
    | inr t ↦ find-All P p ys (rw t at e) h.1
  ]

  pub find_test : (p : A → Bool) (xs : List A) {x : A} → find p xs ≡ some x → p x ≡ true
  find_test p [] e = cc
  find_test p (y ∷ ys) {x} e = elim (Bool-cases (p y)) [
    | inl t ↦ let same : y ≡ x = ground arith in ap p (sym same) ∙ t
    | inr t ↦ find_test p ys (rw t at e)
  ]

  pub find-append :
      (p : A → Bool) (xs ys : List A) {x : A} → find p xs ≡ some x → find p (xs ++ ys) ≡ some x
  find-append p [] ys e = cc
  find-append p (z ∷ zs) ys e = elim (Bool-cases (p z)) [
    | inl t ↦ rw t (rw t at e)
    | inr t ↦ rw t (find-append p zs ys (rw t at e))
  ]

  pub find-append_none :
      (p : A → Bool) (xs ys : List A) → find p xs ≡ none → find p (xs ++ ys) ≡ find p ys
  find-append_none p [] ys e = refl
  find-append_none p (z ∷ zs) ys e = elim (Bool-cases (p z)) [
    | inl t ↦ absurd (some_none (rw t at e))
    | inr t ↦ rw t (find-append_none p zs ys (rw t at e))
  ]
    where
      some_none : some z ≡ none → ⊥
      some_none q = cc

  pub find-any : (p : A → Bool) (xs : List A) → is_some (find p xs) ≡ any p xs
  find-any p [] = refl
  find-any p (x ∷ xs) = elim (Bool-cases (p x)) [ inl t ↦ rw t | inr t ↦ rw t (find-any p xs) ]

  pub any_of_find : (p : A → Bool) (xs : List A) → find p xs ≡ none → any p xs ≡ false
  any_of_find p [] e = refl
  any_of_find p (x ∷ xs) e = elim (Bool-cases (p x)) [
    | inl t ↦ absurd (some_none (rw t at e))
    | inr t ↦ rw t (any_of_find p xs (rw t at e))
  ]
    where
      some_none : some x ≡ none → ⊥
      some_none q = cc

  -- An update that leaves a test alone leaves what the test does not find.
  pub find-update_first-none :
      (p q : A → Bool) (f : A → A) (xs : List A)
      → ((x : A) → p (f x) ≡ p x)
      → find p xs ≡ none
      → find p (update_first q f xs) ≡ none
  find-update_first-none p q f [] k e = refl
  find-update_first-none p q f (x ∷ xs) k e = elim (Bool-cases (p x)) [
    | inl t ↦ absurd (some_none (rw t at e))
    | inr t ↦ elim (Bool-cases (q x)) [
      | inl u ↦ rw u (rw (k x ∙ t) (rw t at e))
      | inr u ↦ rw u (rw t (find-update_first-none p q f xs k (rw t at e)))
    ]
  ]
    where
      some_none : some x ≡ none → ⊥
      some_none r = cc

  -- The document that a test finds is found updated, if the update is of the first document that
  -- has its key and no other has that key.
  pub find-update_first :
      (p : A → Bool) (key : A → ℕ) (f : A → A) (xs : List A) {x : A}
      → ((y : A) → p (f y) ≡ p y)
      → IsKeyed key xs
      → find p xs ≡ some x
      → find p (update_first (λ y. key y == key x) f xs) ≡ some (f x)
  find-update_first p key f [] k u e = cc
  find-update_first p key f (y ∷ ys) {x} k u e = elim (Bool-cases (p y)) [
    | inl t ↦
        let same : y ≡ x = ground arith in
        let hit : (key y == key x) ≡ true = ground arith in rw hit (rw (k y ∙ t) (ground arith))
    | inr t ↦
        let later : find p ys ≡ some x = rw t at e in
        let apart : (key y == key x) ≡ false =
          ground (arith, (find-All (λ z. key z ≢ key y) p ys later u.0).0) in
        rw apart (rw t (find-update_first p key f ys k u.1 later))
  ]

  pub All-update_all :
      (P : A → Type 0) (p : A → Bool) (f : A → A) (xs : List A)
      → ((x : A) → p x ≡ true → P (f x))
      → ((x : A) → p x ≡ false → P x)
      → All P (update_all p f xs)
  All-update_all P p f [] h k = tt
  All-update_all P p f (x ∷ xs) h k = elim (Bool-cases (p x)) [
    | inl t ↦ rw t (h x t, All-update_all P p f xs h k)
    | inr t ↦ rw t (k x t, All-update_all P p f xs h k)
  ]

  pub find-update_first_self :
      (p : A → Bool) (f : A → A) (xs : List A) {x : A}
      → ((y : A) → p (f y) ≡ p y)
      → find p xs ≡ some x
      → find p (update_first p f xs) ≡ some (f x)
  find-update_first_self p f [] k e = cc
  find-update_first_self p f (y ∷ ys) {x} k e = elim (Bool-cases (p y)) [
    | inl t ↦ let same : y ≡ x = ground arith in rw t (rw (k y ∙ t) (ap (λ z. some (f z)) same))
    | inr t ↦ rw t (rw t (find-update_first_self p f ys k (rw t at e)))
  ]

  -- An update of what another test finds leaves the found document alone.
  pub find-update_first_other :
      (p q : A → Bool) (f : A → A) (xs : List A)
      → ((y : A) → p (f y) ≡ p y)
      → ((y : A) → q y ≡ true → p y ≡ false)
      → find p (update_first q f xs) ≡ find p xs
  find-update_first_other p q f [] k apart = refl
  find-update_first_other p q f (y ∷ ys) k apart = elim (Bool-cases (q y)) [
    | inl t ↦ rw t (rw (k y ∙ apart y t) (sym (rw (apart y t))))
    | inr t ↦ rw t (same_head (find-update_first_other p q f ys k apart))
  ]
    where
      same_head :
          find p (update_first q f ys) ≡ find p ys
          → find p (y ∷ update_first q f ys) ≡ find p (y ∷ ys)
      same_head h = rw h

  -- The same for an update by a test that only the found document's key can pass.
  pub find-update_first_by :
      (p q : A → Bool) (key : A → ℕ) (f : A → A) (xs : List A) {x : A}
      → ((y : A) → p (f y) ≡ p y)
      → ((y : A) → q y ≡ true → key y ≡ key x)
      → IsKeyed key xs
      → find p xs ≡ some x
      → q x ≡ true
      → (find q xs ≡ some x) × (find p (update_first q f xs) ≡ some (f x))
  find-update_first_by p q key f [] k only u e hit = cc
  find-update_first_by p q key f (y ∷ ys) {x} k only u e hit = elim (Bool-cases (p y)) [
    | inl t ↦
        let same : y ≡ x = ground arith in
        let passes : q y ≡ true = ap q same ∙ hit in
        rw passes (ap some same, rw (k y ∙ t) (ap (λ z. some (f z)) same))
    | inr t ↦
        let later : find p ys ≡ some x = rw t at e in
        let apart = (find-All (λ z. key z ≢ key y) p ys later u.0).0 in
        let skips : q y ≡ false = by_contra (λ passes. apart (sym (only y passes))) in
        let rest = find-update_first_by p q key f ys k only u.1 later hit in
        rw skips (rest.0, rw t rest.1)
  ]
    where
      by_contra : ¬ (q y ≡ true) → q y ≡ false
      by_contra h = elim (Bool-cases (q y)) [ inl e ↦ absurd (h e) | inr e ↦ e ]
