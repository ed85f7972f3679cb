-- ===== src/Documents/LookUp.antt =====
-- A user's look-up of a document by its id, and the documents that are behind it.
use thesdel.Base.{
  ℕ, ◌≡◌, refl, sym, ap, ◌∙◌, inl, inr, Bool, true, false, Option, none, some, String, IsKeyed, All,
  find, arith, Bool-cases, Option-cases,
}
use thesdel.Errors.{AppError, ok, err}
use thesdel.Mongo.{Mongo}
use thesdel.Mongo.Owned.{found_only, missing_all, find-filter, find-filter-none, find_passes}
use thesdel.Documents.{Kind, named, require_mine, mine_of}

module _ {Doc Body Change : Type 0} (kind : Kind Doc Body Change) (object_id : String → Option ℕ)
    (mongo : Mongo) (c : mongo.Collection Doc) where
  open mongo use {docs, find_one_lem}
  open kind use {id, is_mine, is_other, not_both}

  -- How a look-up ends: with a text that is no id, with no document of the user's, or with one.
  pub data LookUp (doc_id : String) : Type 0 where
    bad :
        object_id doc_id ≡ none
        → require_mine kind object_id mongo doc_id c ≡ err AppError.internal_error
        → LookUp doc_id
    missing :
        (i : ℕ)
        → object_id doc_id ≡ some i
        → require_mine kind object_id mongo doc_id c ≡ err AppError.not_found
        → find (named kind object_id i) (mine_of kind object_id mongo c) ≡ none
        → LookUp doc_id
    mine :
        (d : Doc)
        → object_id doc_id ≡ some (id d)
        → require_mine kind object_id mongo doc_id c ≡ ok d
        → find (named kind object_id (id d)) (docs c) ≡ some d
        → is_mine d ≡ true
        → LookUp doc_id

  module _ (keyed : IsKeyed id (docs c)) where
    pub look_up : (doc_id : String) → LookUp doc_id
    unfolding require_mine
    look_up doc_id = elim (Option-cases (object_id doc_id)) [
      | inl no_id ↦ bad no_id (rw (require_mine, no_id) refl)
      | inr (i, known) ↦
          let asked : Doc → Bool = named kind object_id i in
          let query = find_one_lem asked c in
          elim (Option-cases (find asked (docs c))) [
            | inl gone ↦ missing i known (ground (arith, query)) (
                find-filter-none is_mine asked (docs c)
                  (missing_all (λ d. is_mine d ≡ false) asked (docs c) gone))
            | inr (d, found) ↦
                let here : id d ≡ i = ground (arith, find_passes asked (docs c) found) in
                elim (Bool-cases (is_mine d)) [
                  | inl yes_mine ↦
                      mine d (known ∙ ap some (sym here)) (ground (arith, query))
                        (ap (λ j. find (named kind object_id j) (docs c)) here ∙ found) yes_mine
                  | inr no_one ↦ missing i known (ground (arith, query)) (
                      find-filter-none is_mine asked (docs c)
                        (found_only id i (λ e. is_mine e ≡ false) (docs c) d keyed found no_one))
                ]
          ]
    ]

    module _ (d : Doc) (found : find (named kind object_id (id d)) (docs c) ≡ some d)
        (mine' : is_mine d ≡ true) where
      pub all_mine : All (λ e. named kind object_id (id d) e ≡ true → is_mine e ≡ true) (docs c)
      all_mine = found_only id (id d) (λ e. is_mine e ≡ true) (docs c) d keyed found mine'

      pub all_not_other :
          All (λ e. named kind object_id (id d) e ≡ true → is_other e ≡ false) (docs c)
      all_not_other =
          found_only id (id d) (λ e. is_other e ≡ false) (docs c) d keyed found (not_both d mine')

      pub found_own : find (named kind object_id (id d)) (mine_of kind object_id mongo c) ≡ some d
      found_own = find-filter is_mine (named kind object_id (id d)) (docs c) all_mine ∙ found
