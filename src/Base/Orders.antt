-- ===== src/Base/Orders.antt =====
-- Sorting by a strict order that tells any two elements apart whose keys differ: the result is
-- ordered, and a filter may be applied before or after.
use thesdel.Base.Lists.{if◌then◌else◌, filter, All, All-imp, All-filter_keep, Bool-cases}
use thesdel.Base.Sorting.{insert_sorted, sort, insert_sorted-All, sort-All}
use Prim.Native.Nat.{ℕ}
use mathlib.Core.Path.{◌≡◌, refl, ap, ◌∙◌}
use mathlib.Core.Logic.{◌≢◌, inl, inr}
use mathlib.Core.Bool.{Bool, true, false, ◌&&◌}
use mathlib.Core.List.{List, [], ◌∷◌, ◌++◌}
use native.Mathlib.Omega.{arith}

-- No two elements have one key.
abbrev pub IsKeyed {ℓ} : {A : Type ℓ} → (A → ℕ) → List A → Type 0
IsKeyed key [] = Unit
IsKeyed key (x ∷ xs) = All (λ y. key y ≢ key x) xs × IsKeyed key xs

-- Each element stands before all that follow it.
abbrev pub IsOrderedBy {ℓ} : {A : Type ℓ} → (A → A → Bool) → List A → Type 0
IsOrderedBy before [] = Unit
IsOrderedBy before (x ∷ xs) = All (λ y. before x y ≡ true) xs × IsOrderedBy before xs

pub IsKeyed-filter {ℓ} :
    {A : Type ℓ} (key : A → ℕ) (p : A → Bool) (xs : List A)
    → IsKeyed key xs
    → IsKeyed key (filter p xs)
IsKeyed-filter key p [] h = tt
IsKeyed-filter key p (x ∷ xs) h = elim (Bool-cases (p x)) [
  | inl e ↦ rw e (All-filter_keep (λ y. key y ≢ key x) p xs h.0, IsKeyed-filter key p xs h.1)
  | inr e ↦ rw e (IsKeyed-filter key p xs h.1)
]

pub filter-filter {ℓ} :
    {A : Type ℓ} (p q : A → Bool) (xs : List A)
    → filter p (filter q xs) ≡ filter (λ x. q x && p x) xs
filter-filter p q [] = refl
filter-filter p q (x ∷ xs) = ground (arith, filter-filter p q xs)

pub record StrictOrder {ℓ} {A : Type ℓ} (before : A → A → Bool) (key : A → ℕ) : Type ℓ where
  pub connected : (x y : A) → key y ≢ key x → before x y ≡ false → before y x ≡ true
  pub asymmetric : (x y : A) → before x y ≡ true → before y x ≡ false
  pub transitive : (x y z : A) → before x y ≡ true → before y z ≡ true → before x z ≡ true

pub filter_all {ℓ} :
    {A : Type ℓ} (p : A → Bool) (xs : List A) → All (λ x. p x ≡ true) xs → filter p xs ≡ xs
filter_all p [] h = refl
filter_all p (x ∷ xs) h = rw (h.0) (ap (λ ys. x ∷ ys) (filter_all p xs h.1))

All-middle {ℓ} :
    {A : Type ℓ} (P : A → Type 0) (xs : List A) (x : A) (ys : List A) → All P (xs ++ x ∷ ys) → P x
All-middle P [] x ys h = h.0
All-middle P (z ∷ xs) x ys h = All-middle P xs x ys h.1

module _ {ℓ} {A : Type ℓ} (before : A → A → Bool) where
  insert_front :
      (x : A) (ys : List A) → All (λ y. before x y ≡ true) ys → insert_sorted before x ys ≡ x ∷ ys
  unfolding insert_sorted
  insert_front x [] h = refl
  insert_front x (y ∷ ys) h = rw (h.0) refl

module _ {ℓ} {A : Type ℓ} (before : A → A → Bool) (key : A → ℕ)
    (order : StrictOrder before key) where
  open order use {connected, asymmetric, transitive}

  after_all :
      (x y : A) (ys : List A)
      → before x y ≡ true
      → All (λ z. before y z ≡ true) ys
      → All (λ z. before x z ≡ true) ys
  after_all x y ys h =
      All-imp (λ z. before y z ≡ true) (λ z. before x z ≡ true) (λ z k. transitive x y z h k) ys

  insert_sorted-IsOrderedBy :
      (x : A) (ys : List A)
      → All (λ y. key y ≢ key x) ys
      → IsOrderedBy before ys
      → IsOrderedBy before (insert_sorted before x ys)
  unfolding insert_sorted
  insert_sorted-IsOrderedBy x [] k h = (tt, tt)
  insert_sorted-IsOrderedBy x (y ∷ ys) k h = elim (Bool-cases (before x y)) [
    | inl e ↦ rw e ((e, after_all x y ys e h.0), h)
    | inr e ↦ rw e (
      insert_sorted-All before (λ z. before y z ≡ true) x ys (connected x y k.0 e) h.0,
      insert_sorted-IsOrderedBy x ys k.1 h.1,
    )
  ]

  pub sort-IsOrderedBy : (xs : List A) → IsKeyed key xs → IsOrderedBy before (sort before xs)
  unfolding sort
  sort-IsOrderedBy [] h = tt
  sort-IsOrderedBy (x ∷ xs) h =
      insert_sorted-IsOrderedBy x (sort before xs) (sort-All before (λ y. key y ≢ key x) xs h.0)
        (sort-IsOrderedBy xs h.1)

  filter-insert_sorted :
      (p : A → Bool) (x : A) (ys : List A)
      → IsOrderedBy before ys
      → filter p (insert_sorted before x ys)
        ≡ (if p x then insert_sorted before x (filter p ys) else filter p ys)
  unfolding insert_sorted
  filter-insert_sorted p x [] h = ground arith
  filter-insert_sorted p x (y ∷ ys) h = elim (Bool-cases (before x y)) [
    | inl e ↦
        let front =
          insert_front before x (filter p (y ∷ ys))
            (All-filter_keep (λ z. before x z ≡ true) p (y ∷ ys) (e, after_all x y ys e h.0)) in
        ground (arith, front)
    | inr e ↦ ground (arith, filter-insert_sorted p x ys h.1)
  ]

  pub filter-sort :
      (p : A → Bool) (xs : List A)
      → IsKeyed key xs
      → filter p (sort before xs) ≡ sort before (filter p xs)
  unfolding sort
  filter-sort p [] h = refl
  filter-sort p (x ∷ xs) h =
      filter-insert_sorted p x (sort before xs) (sort-IsOrderedBy xs h.1)
      ∙ regroup (filter-sort p xs h.1)
    where
      regroup :
          filter p (sort before xs) ≡ sort before (filter p xs)
          → (if p x
              then insert_sorted before x (filter p (sort before xs))
              else filter p (sort before xs))
            ≡ sort before (filter p (x ∷ xs))
      regroup ih = ground (arith, ih)

  -- Behind an element stand exactly those that the order puts there.
  pub filter-after :
      (xs : List A) (x : A) (ys : List A)
      → IsOrderedBy before (xs ++ x ∷ ys)
      → filter (before x) (xs ++ x ∷ ys) ≡ ys
  filter-after [] x ys h = elim (Bool-cases (before x x)) [
    | inl loop ↦ absurd (ground (arith, asymmetric x x loop))
    | inr none ↦ rw none (filter_all (before x) ys h.0)
  ]
  filter-after (z ∷ xs) x ys h =
      let behind = asymmetric z x (All-middle (λ y. before z y ≡ true) xs x ys h.0) in
      rw behind (filter-after xs x ys h.1)
