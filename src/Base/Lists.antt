-- ===== src/Base/Lists.antt =====
-- Boolean tests and list functions that the models compute with, and their lemmas.
use Prim.Native.Nat.{ℕ, zero, suc, ◌+◌, compare, Ordering}
use mathlib.Core.Path.{◌≡◌, refl, sym, ap, subst}
use mathlib.Core.Logic.{◌⊎◌, inl, inr}
use mathlib.Core.Bool.{Bool, true, false, ◌||◌}
use mathlib.Core.Option.{Option, none, some}
use mathlib.Core.List.{List, [], ◌∷◌, ◌++◌}
use native.Mathlib.Omega.{arith}

abbrev pub ltb : ℕ → ℕ → Bool
ltb a b = elim (compare a b) [ Ordering.lt ↦ true | _ ↦ false ]

abbrev pub leb : ℕ → ℕ → Bool
leb a b = elim (compare a b) [ Ordering.gt ↦ false | _ ↦ true ]

infix 50 ◌==◌
abbrev pub ◌==◌ : ℕ → ℕ → Bool
a == b = elim (compare a b) [ Ordering.eq ↦ true | _ ↦ false ]

infix 1 if◌then◌else◌
abbrev pub if◌then◌else◌ {ℓ} : {A : Type ℓ} → Bool → A → A → A
if true then x else y = x
if false then x else y = y

-- To split on a computed value and keep the equation.
pub Bool-cases : (b : Bool) → (b ≡ true) ⊎ (b ≡ false)
Bool-cases true = inl refl
Bool-cases false = inr refl

pub Option-cases {ℓ} : {A : Type ℓ} (o : Option A) → (o ≡ none) ⊎ ((a : A) × (o ≡ some a))
Option-cases none = inl refl
Option-cases (some a) = inr (a, refl)

abbrev value_or {ℓ} : {A : Type ℓ} → A → Option A → A
value_or d none = d
value_or d (some a) = a

pub some-injective {ℓ} : {A : Type ℓ} {a b : A} → some a ≡ some b → a ≡ b
some-injective {a = a} p = ap (value_or a) p

-- What holds of the value of a call holds of the call.
pub by_value {ℓ κ} : {A : Type ℓ} (P : A → Type κ) {x y : A} → x ≡ y → P y → P x
by_value P e h = subst P (sym e) h

module _ {ℓ} {A : Type ℓ} where
  abbrev pub length : List A → ℕ
  length [] = 0
  length (x ∷ xs) = suc (length xs)

  abbrev pub get_elem? : List A → ℕ → Option A
  get_elem? [] i = none
  get_elem? (x ∷ xs) zero = some x
  get_elem? (x ∷ xs) (suc i) = get_elem? xs i

  -- The element at a position, or the given value out of range.
  abbrev pub get_or : A → List A → ℕ → A
  get_or d [] i = d
  get_or d (x ∷ xs) zero = x
  get_or d (x ∷ xs) (suc i) = get_or d xs i

  -- `xs[:n]`
  abbrev pub take : ℕ → List A → List A
  take zero xs = []
  take (suc n) [] = []
  take (suc n) (x ∷ xs) = x ∷ take n xs

  -- `xs[n:]`
  abbrev pub drop : ℕ → List A → List A
  drop zero xs = xs
  drop (suc n) [] = []
  drop (suc n) (x ∷ xs) = drop n xs

  -- `xs[-1]`
  abbrev pub last? : List A → Option A
  last? [] = none
  last? (x ∷ []) = some x
  last? (x ∷ y ∷ xs) = last? (y ∷ xs)

  -- `[x for x in xs if p(x)]`
  abbrev pub filter : (A → Bool) → List A → List A
  filter p [] = []
  filter p (x ∷ xs) = let rest = filter p xs in if p x then x ∷ rest else rest

  -- The first element that passes a test.
  abbrev pub find : (A → Bool) → List A → Option A
  find p [] = none
  find p (x ∷ xs) = let rest = find p xs in if p x then some x else rest

  -- `any(p(x) for x in xs)`
  abbrev pub any : (A → Bool) → List A → Bool
  any p [] = false
  any p (x ∷ xs) = p x || any p xs

  abbrev pub is_some : Option A → Bool
  is_some none = false
  is_some (some a) = true

  pub length-append : (xs ys : List A) → length (xs ++ ys) ≡ length xs + length ys
  length-append [] ys = omega arith
  length-append (x ∷ xs) ys = omega (arith, length-append xs ys)

-- Every element, or some element, has a property.
abbrev pub All {ℓ κ} : {A : Type ℓ} → (A → Type κ) → List A → Type κ
All P [] = Unit
All P (x ∷ xs) = P x × All P xs

abbrev pub Any {ℓ} : {A : Type ℓ} → (A → Type 0) → List A → Type 0
Any P [] = ⊥
Any P (x ∷ xs) = P x ⊎ Any P xs

module _ {ℓ} {A : Type ℓ} (P Q : A → Type 0) where
  pub All-imp : ((a : A) → P a → Q a) → (xs : List A) → All P xs → All Q xs
  All-imp f [] h = tt
  All-imp f (x ∷ xs) h = (f x h.0, All-imp f xs h.1)

module _ {ℓ} {A : Type ℓ} (P : A → Type 0) where
  pub All-append : (xs ys : List A) → All P xs → All P ys → All P (xs ++ ys)
  All-append [] ys h k = k
  All-append (x ∷ xs) ys h k = (h.0, All-append xs ys h.1 k)

  -- A property that holds of the elements which pass the test holds of what the filter keeps.
  pub All-filter :
      (p : A → Bool) (xs : List A) → All (λ x. p x ≡ true → P x) xs → All P (filter p xs)
  All-filter p [] h = tt
  All-filter p (x ∷ xs) h = elim (Bool-cases (p x)) [
    | inl e ↦ if_true_all e (h.0 e) (All-filter p xs h.1)
    | inr e ↦ if_false_all e (All-filter p xs h.1)
  ]
    where
      if_true_all : p x ≡ true → P x → All P (filter p xs) → All P (filter p (x ∷ xs))
      if_true_all e px rest = rw e (px, rest)

      if_false_all : p x ≡ false → All P (filter p xs) → All P (filter p (x ∷ xs))
      if_false_all e rest = rw e rest

  pub All-filter_keep : (p : A → Bool) (xs : List A) → All P xs → All P (filter p xs)
  All-filter_keep p xs h = All-filter p xs (weaken xs h)
    where
      weaken : (ys : List A) → All P ys → All (λ x. p x ≡ true → P x) ys
      weaken [] h = tt
      weaken (y ∷ ys) h = (λ _. h.0, weaken ys h.1)

  pub All-filter_inv :
      (p : A → Bool) (xs : List A) → All P (filter p xs) → All (λ x. p x ≡ true → P x) xs
  All-filter_inv p [] h = tt
  All-filter_inv p (x ∷ xs) h = elim (Bool-cases (p x)) [
    | inl e ↦ (λ _. (rw e at h).0, All-filter_inv p xs ((rw e at h).1))
    | inr e ↦ (λ t. cc, All-filter_inv p xs (rw e at h))
  ]

  -- What has the property and passes the test is found in what the filter keeps.
  pub Any-filter :
      (p : A → Bool) (xs : List A) → Any P xs → ((x : A) → P x → p x ≡ true) → Any P (filter p xs)
  Any-filter p [] h k = h
  Any-filter p (x ∷ xs) (inl px) k = rw (k x px) (inl px)
  Any-filter p (x ∷ xs) (inr rest) k = elim (Bool-cases (p x)) [
    | inl e ↦ rw e (inr (Any-filter p xs rest k))
    | inr e ↦ rw e (Any-filter p xs rest k)
  ]
