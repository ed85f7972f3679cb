-- ===== src/Documents.antt =====
-- The shape that the timetable and the routines share: documents of owners in one collection, which
-- a user creates, updates and deletes by their ids. `Kind` says what a kind of documents is, and
-- `on_own` what the requests do to a list of the user's own documents.
pub mod LookUp
pub mod Serves
use thesdel.Base.{
  ℕ, ◌≡◌, Bool, true, false, not, Option, none, some, String, List, [], ◌∷◌, ◌++◌, find, filter,
  ◌==◌, if◌then◌else◌, arith,
}
use thesdel.Errors.{AppError, Result, ok, err, Call}
use thesdel.Mongo.{Mongo, update_first, remove_first}

-- The documents of one kind, those of the user and those of another owner told by a test each.
pub record Kind (Doc Body Change : Type 0) : Type 0 where
  pub id : Doc → ℕ
  pub is_mine : Doc → Bool
  pub is_other : Doc → Bool
  pub is_valid : Body → Bool
  pub is_valid_change : Change → Bool
  pub make : ℕ → Body → Doc
  pub change : Change → Doc → Doc
  pub not_both : (d : Doc) → is_mine d ≡ true → is_other d ≡ false
  pub make_mine : (i : ℕ) (b : Body) → is_mine (make i b) ≡ true
  pub change_id : (x : Change) (d : Doc) → id (change x d) ≡ id d
  pub change_mine : (x : Change) (d : Doc) → is_mine (change x d) ≡ is_mine d
  pub change_other : (x : Change) (d : Doc) → is_other (change x d) ≡ is_other d

-- What a user may ask for. The document that a creation makes has a new id.
pub data Request (Body Change : Type 0) : Type 0 where
  creates : ℕ → Body → Request Body Change
  updates : String → Change → Request Body Change
  deletes : String → Request Body Change

module _ {Doc Body Change : Type 0} (kind : Kind Doc Body Change)
    (object_id : String → Option ℕ) where
  open kind use {id, is_mine, is_other, is_valid, is_valid_change, make, change}

  abbrev pub named : ℕ → Doc → Bool
  named i d = id d == i

  -- The requests on a list of one's own: an id that is not in the list is not found.
  abbrev pub own_update : Change → Option ℕ → List Doc → Result (Option Doc) × List Doc
  own_update x none own = (err AppError.internal_error, own)
  own_update x (some i) own = elim (find (named i) own) [
    | none ↦ (err AppError.not_found, own)
    | some d ↦ (ok (some (change x d)), update_first (named i) (change x) own)
  ]

  abbrev pub own_delete : Option ℕ → List Doc → Result (Option Doc) × List Doc
  own_delete none own = (err AppError.internal_error, own)
  own_delete (some i) own = elim (find (named i) own) [
    | none ↦ (err AppError.not_found, own)
    | some d ↦ (ok none, remove_first (named i) own)
  ]

  abbrev pub on_own : Request Body Change → List Doc → Result (Option Doc) × List Doc
  on_own (creates i body) own =
      if is_valid body
      then (ok (some (make i body)), own ++ make i body ∷ [])
      else (err AppError.validation_error, own)
  on_own (updates doc_id x) own =
      if is_valid_change x
      then own_update x (object_id doc_id) own
      else (err AppError.validation_error, own)
  on_own (deletes doc_id) own = own_delete (object_id doc_id) own

  module _ (mongo : Mongo) where
    open mongo use {Collection, docs, find_one, insert_one, update_one, delete_one}

    -- The calls as the services have them.
    unfoldable pub require_mine : String → Collection Doc → Result Doc
    require_mine doc_id c = elim (object_id doc_id) [
      | none ↦ err AppError.internal_error
      | some i ↦ elim (find_one (named i) c) [
        | none ↦ err AppError.not_found
        | some d ↦ if is_mine d then ok d else err AppError.not_found
      ]
    ]

    unfoldable pub create_mine : ℕ → Body → Call (Collection Doc) Doc
    create_mine i body c =
        if is_valid body
        then (ok (make i body), insert_one (make i body) c)
        else (err AppError.validation_error, c)

    unfoldable pub update_mine : String → Change → Call (Collection Doc) Doc
    unfolding require_mine
    update_mine doc_id x c =
        if not (is_valid_change x)
        then (err AppError.validation_error, c)
        else (elim (require_mine doc_id c) [
          | err e ↦ (err e, c)
          | ok d ↦
              let c' = update_one (named (id d)) (change x) c in
              elim (find_one (named (id d)) c') [
                | none ↦ (err AppError.internal_error, c')
                | some updated ↦ (ok updated, c')
              ]
        ])

    unfoldable pub delete_mine : String → Call (Collection Doc) (Unit {0})
    unfolding require_mine
    delete_mine doc_id c = elim (require_mine doc_id c) [
      | err e ↦ (err e, c)
      | ok d ↦ (ok tt, delete_one (named (id d)) c)
    ]

    abbrev pub mine_of : Collection Doc → List Doc
    mine_of c = filter is_mine (docs c)

    abbrev pub others_of : Collection Doc → List Doc
    others_of c = filter is_other (docs c)

    -- A call has answered and left the user's documents as the list's, and the other's as they were.
    abbrev pub Serves :
        Collection Doc
        → Result (Option Doc) × List Doc
        → Result (Option Doc) × Collection Doc
        → Type 0
    Serves c spec out =
        (out.0 ≡ spec.0) × (mine_of out.1 ≡ spec.1) × (others_of out.1 ≡ others_of c)

-- The answers of the three calls.
abbrev pub with_doc : {Doc : Type 0} → Result Doc → Result (Option Doc)
with_doc (ok d) = ok (some d)
with_doc (err e) = err e

abbrev pub with_none : {Doc : Type 0} → Result (Unit {0}) → Result (Option Doc)
with_none (ok u) = ok none
with_none (err e) = err e

pub same_id : (n : ℕ) → (n == n) ≡ true
same_id n = ground arith
