-- ===== src/Mongo.antt =====
-- MongoDB, as the repositories use it through motor: a parameter of every service. A collection is
-- seen as the list of its documents, in the order in which a query without a sort returns them.
-- The laws are the documented behaviour of the driver's calls when no other client writes between.
pub mod Laws
pub mod Owned
pub mod Replace
use thesdel.Base.Sorting.{sort, sort-All}
use thesdel.Base.Orders.{StrictOrder}
use thesdel.Base.{
  not, IsKeyed, All, ℕ, ◌≡◌, refl, Bool, true, false, ◌||◌, Option, none, some, List, [], ◌∷◌, ◌++◌,
  if◌then◌else◌, find, filter, any, length, Bool-cases, All, inl, inr,
}

module _ {A : Type 0} where
  -- `$set` on the first document that matches.
  abbrev pub update_first : (A → Bool) → (A → A) → List A → List A
  update_first p f [] = []
  update_first p f (x ∷ xs) = let rest = update_first p f xs in if p x then f x ∷ xs else x ∷ rest

  -- `$set` on every document that matches.
  abbrev pub update_all : (A → Bool) → (A → A) → List A → List A
  update_all p f [] = []
  update_all p f (x ∷ xs) = (if p x then f x else x) ∷ update_all p f xs

  abbrev pub remove_first : (A → Bool) → List A → List A
  remove_first p [] = []
  remove_first p (x ∷ xs) = let rest = remove_first p xs in if p x then xs else x ∷ rest

pub record Mongo : Type 1 where
  pub Collection : Type 0 → Type 0
  pub docs : {A : Type 0} → Collection A → List A
  pub find_one : {A : Type 0} → (A → Bool) → Collection A → Option A
  pub find_many : {A : Type 0} → (A → Bool) → Collection A → List A
  pub insert_one : {A : Type 0} → A → Collection A → Collection A
  -- An insert under a unique index, whose clashing documents the test tells; none is a
  -- DuplicateKeyError.
  pub insert_unique : {A : Type 0} → (A → Bool) → A → Collection A → Option (Collection A)
  pub update_one : {A : Type 0} → (A → Bool) → (A → A) → Collection A → Collection A
  pub update_many : {A : Type 0} → (A → Bool) → (A → A) → Collection A → Collection A
  pub delete_one : {A : Type 0} → (A → Bool) → Collection A → Collection A
  pub insert_many : {A : Type 0} → List A → Collection A → Collection A
  pub delete_many : {A : Type 0} → (A → Bool) → Collection A → Collection A
  -- `find(...).sort(...)`. The order of documents that tie is not documented.
  pub find_sorted : {A : Type 0} → (A → A → Bool) → (A → Bool) → Collection A → List A
  pub find_one_lem : {A : Type 0} (p : A → Bool) (c : Collection A) → find_one p c ≡ find p (docs c)
  pub find_many_lem :
      {A : Type 0} (p : A → Bool) (c : Collection A) → find_many p c ≡ filter p (docs c)
  pub docs-insert_one :
      {A : Type 0} (a : A) (c : Collection A) → docs (insert_one a c) ≡ docs c ++ a ∷ []
  pub insert_unique-clash :
      {A : Type 0} (clash : A → Bool) (a : A) (c : Collection A)
      → any clash (docs c) ≡ true
      → insert_unique clash a c ≡ none
  pub insert_unique-fresh :
      {A : Type 0} (clash : A → Bool) (a : A) (c : Collection A)
      → any clash (docs c) ≡ false
      → insert_unique clash a c ≡ some (insert_one a c)
  pub docs-update_one :
      {A : Type 0} (p : A → Bool) (f : A → A) (c : Collection A)
      → docs (update_one p f c) ≡ update_first p f (docs c)
  pub docs-update_many :
      {A : Type 0} (p : A → Bool) (f : A → A) (c : Collection A)
      → docs (update_many p f c) ≡ update_all p f (docs c)
  pub docs-delete_one :
      {A : Type 0} (p : A → Bool) (c : Collection A)
      → docs (delete_one p c) ≡ remove_first p (docs c)
  pub docs-insert_many :
      {A : Type 0} (xs : List A) (c : Collection A) → docs (insert_many xs c) ≡ docs c ++ xs
  pub docs-delete_many :
      {A : Type 0} (p : A → Bool) (c : Collection A)
      → docs (delete_many p c) ≡ filter (λ x. not (p x)) (docs c)
  pub find_sorted-All :
      {A : Type 0} (P : A → Type 0) (before : A → A → Bool) (p : A → Bool) (c : Collection A)
      → All P (filter p (docs c))
      → All P (find_sorted before p c)
  pub find_sorted-sort :
      {A : Type 0} (before : A → A → Bool) (key : A → ℕ) (p : A → Bool) (c : Collection A)
      → StrictOrder before key
      → IsKeyed key (filter p (docs c))
      → find_sorted before p c ≡ sort before (filter p (docs c))

-- A database that keeps each collection as a list meets the laws.
abbrev pub insert_list : {A : Type 0} → (A → Bool) → A → List A → Option (List A)
insert_list clash a c = if any clash c then none else some (c ++ a ∷ [])

pub insert_list-clash :
    {A : Type 0} (clash : A → Bool) (a : A) (c : List A)
    → any clash c ≡ true
    → insert_list clash a c ≡ none
insert_list-clash clash a c h = rw h

pub insert_list-fresh :
    {A : Type 0} (clash : A → Bool) (a : A) (c : List A)
    → any clash c ≡ false
    → insert_list clash a c ≡ some (c ++ a ∷ [])
insert_list-fresh clash a c h = rw h

abbrev pub in_memory : Mongo
in_memory = record {
  Collection = λ A. List A;
  docs = λ c. c;
  find_one = λ p c. find p c;
  find_many = λ p c. filter p c;
  insert_one = λ a c. c ++ a ∷ [];
  insert_unique = λ clash a c. insert_list clash a c;
  update_one = λ p f c. update_first p f c;
  update_many = λ p f c. update_all p f c;
  delete_one = λ p c. remove_first p c;
  find_one_lem = λ p c. refl;
  find_many_lem = λ p c. refl;
  docs-insert_one = λ a c. refl;
  insert_unique-clash = λ clash a c h. insert_list-clash clash a c h;
  insert_unique-fresh = λ clash a c h. insert_list-fresh clash a c h;
  docs-update_one = λ p f c. refl;
  docs-update_many = λ p f c. refl;
  docs-delete_one = λ p c. refl;
  insert_many = λ xs c. c ++ xs;
  delete_many = λ p c. filter (λ x. not (p x)) c;
  find_sorted = λ before p c. sort before (filter p c);
  docs-insert_many = λ xs c. refl;
  docs-delete_many = λ p c. refl;
  find_sorted-All = λ P before p c h. sort-All before P (filter p c) h;
  find_sorted-sort = λ before key p c order h. refl;
}
