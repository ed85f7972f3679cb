-- ===== src/Base/Sorting.antt =====
-- Python's `sorted(xs, key=...)`: a stable sort, rising or falling in the key.
use thesdel.Base.Lists.{leb, if◌then◌else◌, All, Bool-cases}
use Prim.Native.Nat.{ℕ, ◌≤◌}
use mathlib.Core.Logic.{◌≢◌, inl, inr}
use mathlib.Core.Bool.{Bool}
use mathlib.Core.List.{List, [], ◌∷◌}
use native.Mathlib.Omega.{arith}

module _ {ℓ} {A : Type ℓ} (before : A → A → Bool) where
  -- `x` stands before the first element that it may precede.
  unfoldable pub insert_sorted : A → List A → List A
  insert_sorted x [] = x ∷ []
  insert_sorted x (y ∷ ys) =
      let rest = insert_sorted x ys in if before x y then x ∷ y ∷ ys else y ∷ rest

  unfoldable pub sort : List A → List A
  unfolding insert_sorted
  sort [] = []
  sort (x ∷ xs) = insert_sorted x (sort xs)

module _ {ℓ} {A : Type ℓ} (key : A → ℕ) where
  -- `sorted(xs, key=key)`
  unfoldable pub sorted : List A → List A
  unfolding sort
  sorted xs = sort (λ x y. leb (key x) (key y)) xs

  -- `sorted(xs, key=key, reverse=True)`, which keeps the order of equal keys too
  unfoldable pub sorted_reverse : List A → List A
  unfolding sort
  sorted_reverse xs = sort (λ x y. leb (key y) (key x)) xs

pub insert_sorted_ne {ℓ} :
    {A : Type ℓ} (before : A → A → Bool) (x : A) (ys : List A) → insert_sorted before x ys ≢ []
unfolding insert_sorted
insert_sorted_ne before x [] = ground arith
insert_sorted_ne before x (y ∷ ys) = elim (Bool-cases (before x y)) [
  | inl e ↦ rw e (ground arith)
  | inr e ↦ rw e (ground arith)
]

module _ {ℓ} {A : Type ℓ} (before : A → A → Bool) (P : A → Type 0) where
  pub insert_sorted-All : (x : A) (ys : List A) → P x → All P ys → All P (insert_sorted before x ys)
  unfolding insert_sorted
  insert_sorted-All x [] p h = (p, tt)
  insert_sorted-All x (y ∷ ys) p h = elim (Bool-cases (before x y)) [
    | inl e ↦ rw e (p, h)
    | inr e ↦ rw e (h.0, insert_sorted-All x ys p h.1)
  ]

  pub sort-All : (xs : List A) → All P xs → All P (sort before xs)
  unfolding sort
  sort-All [] h = tt
  sort-All (x ∷ xs) h = insert_sorted-All x (sort before xs) h.0 (sort-All xs h.1)

  insert_sorted-All_inv : (x : A) (ys : List A) → All P (insert_sorted before x ys) → P x × All P ys
  unfolding insert_sorted
  insert_sorted-All_inv x [] h = h
  insert_sorted-All_inv x (y ∷ ys) h = elim (Bool-cases (before x y)) [
    | inl e ↦ rw e at h
    | inr e ↦ (
      (insert_sorted-All_inv x ys ((rw e at h).1)).0,
      ((rw e at h).0, (insert_sorted-All_inv x ys ((rw e at h).1)).1),
    )
  ]

  sort-All_inv : (xs : List A) → All P (sort before xs) → All P xs
  unfolding sort
  sort-All_inv [] h = tt
  sort-All_inv (x ∷ xs) h =
      let k = insert_sorted-All_inv x (sort before xs) h in (k.0, sort-All_inv xs k.1)

module _ {ℓ} {A : Type ℓ} (key : A → ℕ) where
  -- Rising keys: each is at most all that follow.
  abbrev pub IsRising : List A → Type 0
  IsRising [] = Unit
  IsRising (x ∷ xs) = All (λ y. key x ≤ key y) xs × IsRising xs

  All-le_trans :
      (x y : A) (ys : List A)
      → key x ≤ key y
      → All (λ z. key y ≤ key z) ys
      → All (λ z. key x ≤ key z) ys
  All-le_trans x y [] h k = tt
  All-le_trans x y (z ∷ zs) h k = (omega arith, All-le_trans x y zs h k.1)

  insert_sorted-IsRising :
      (x : A) (ys : List A)
      → IsRising ys
      → IsRising (insert_sorted (λ a b. leb (key a) (key b)) x ys)
  unfolding insert_sorted
  insert_sorted-IsRising x [] h = (tt, tt)
  insert_sorted-IsRising x (y ∷ ys) h = elim (Bool-cases (leb (key x) (key y))) [
    | inl e ↦ rw e ((ground arith, All-le_trans x y ys (ground arith) h.0), h)
    | inr e ↦ rw e (
      insert_sorted-All (λ a b. leb (key a) (key b)) (λ z. key y ≤ key z) x ys (ground arith) h.0,
      insert_sorted-IsRising x ys h.1,
    )
  ]

  pub sorted-IsRising : (xs : List A) → IsRising (sorted key xs)
  unfolding sorted
  sorted-IsRising [] = tt
  sorted-IsRising (x ∷ xs) = insert_sorted-IsRising x (sorted key xs) (sorted-IsRising xs)

  pub sorted-All : (P : A → Type 0) (xs : List A) → All P xs → All P (sorted key xs)
  unfolding sorted
  sorted-All P xs h = sort-All (λ a b. leb (key a) (key b)) P xs h

  pub sorted-All_inv : (P : A → Type 0) (xs : List A) → All P (sorted key xs) → All P xs
  unfolding sorted
  sorted-All_inv P xs h = sort-All_inv (λ a b. leb (key a) (key b)) P xs h
