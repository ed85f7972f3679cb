-- ===== src/Mongo/Replace.antt =====
-- Replacing the documents of an owner: `delete_many`, and then `insert_many` where there are new
-- ones, as the repositories of the two plans do it.
use thesdel.Base.{
  ◌≡◌, refl, sym, ap, ◌∙◌, inl, inr, Bool, true, false, not, List, [], ◌∷◌, ◌++◌, All, filter,
  arith, Bool-cases,
}
use thesdel.Base.Orders.{filter_all}
use thesdel.Mongo.{Mongo}
use thesdel.Mongo.Owned.{filter-append}
use mathlib.Core.List.{append-nil}

module _ {A : Type 0} (mongo : Mongo) where
  open mongo use {Collection, docs, insert_many, delete_many, docs-insert_many, docs-delete_many}

  unfoldable pub replace_all : (A → Bool) → List A → Collection A → List A × Collection A
  replace_all mine [] c = ([], delete_many mine c)
  replace_all mine (d ∷ ds) c = (d ∷ ds, insert_many (d ∷ ds) (delete_many mine c))

  pub replace_all-returned :
      (mine : A → Bool) (xs : List A) (c : Collection A) → (replace_all mine xs c).0 ≡ xs
  unfolding replace_all
  replace_all-returned mine [] c = refl
  replace_all-returned mine (x ∷ xs) c = refl

  docs-replace_all :
      (mine : A → Bool) (xs : List A) (c : Collection A)
      → docs (replace_all mine xs c).1 ≡ filter (λ x. not (mine x)) (docs c) ++ xs
  unfolding replace_all
  docs-replace_all mine [] c =
      docs-delete_many mine c ∙ sym (append-nil (filter (λ x. not (mine x)) (docs c)))
  docs-replace_all mine (x ∷ xs) c =
      docs-insert_many (x ∷ xs) (delete_many mine c)
      ∙ ap (λ r. r ++ x ∷ xs) (docs-delete_many mine c)

  none_left : (mine : A → Bool) (xs : List A) → filter mine (filter (λ x. not (mine x)) xs) ≡ []
  none_left mine [] = refl
  none_left mine (x ∷ xs) = ground (arith, none_left mine xs)

  all_left :
      (mine other : A → Bool)
      → ((x : A) → other x ≡ true → mine x ≡ false)
      → (xs : List A) → filter other (filter (λ x. not (mine x)) xs) ≡ filter other xs
  all_left mine other apart [] = refl
  all_left mine other apart (x ∷ xs) = elim (Bool-cases (other x)) [
    | inl t ↦ rw (apart x t, t) (ap (λ ys. x ∷ ys) (all_left mine other apart xs))
    | inr t ↦ ground (arith, all_left mine other apart xs)
  ]

  no_other : (other : A → Bool) (xs : List A) → All (λ x. other x ≡ false) xs → filter other xs ≡ []
  no_other other [] h = refl
  no_other other (x ∷ xs) h = rw h.0 (no_other other xs h.1)

  -- The owner's documents are then the new ones.
  pub replace_all-mine :
      (mine : A → Bool) (xs : List A) (c : Collection A)
      → All (λ x. mine x ≡ true) xs
      → filter mine (docs (replace_all mine xs c).1) ≡ xs
  replace_all-mine mine xs c h =
      ap (filter mine) (docs-replace_all mine xs c)
      ∙ filter-append mine (filter (λ x. not (mine x)) (docs c)) xs
      ∙ ap (λ r. r ++ filter mine xs) (none_left mine (docs c))
      ∙ filter_all mine xs h

  -- Those of another owner stay.
  pub replace_all-other :
      (mine other : A → Bool) (xs : List A) (c : Collection A)
      → ((x : A) → other x ≡ true → mine x ≡ false)
      → All (λ x. other x ≡ false) xs
      → filter other (docs (replace_all mine xs c).1) ≡ filter other (docs c)
  replace_all-other mine other xs c apart h =
      ap (filter other) (docs-replace_all mine xs c)
      ∙ filter-append other (filter (λ x. not (mine x)) (docs c)) xs
      ∙ ap (λ r. filter other (filter (λ x. not (mine x)) (docs c)) ++ r) (no_other other xs h)
      ∙ append-nil (filter other (filter (λ x. not (mine x)) (docs c)))
      ∙ all_left mine other apart (docs c)
