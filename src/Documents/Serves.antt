-- ===== src/Documents/Serves.antt =====
-- The calls of a user do to the user's documents what `on_own` does to a list of them.
use thesdel.Base.{
  ℕ, ◌≡◌, refl, sym, ap, ◌∙◌, inl, inr, true, Option, none, some, String, List, [], ◌∷◌, ◌++◌,
  IsKeyed, find, filter, arith, Bool-cases,
}
use mathlib.Core.List.{append-nil}
use thesdel.Errors.{AppError, Result, ok, err}
use thesdel.Mongo.{Mongo, update_first, remove_first}
use thesdel.Mongo.Laws.{find-update_first_self}
use thesdel.Mongo.Owned.{
  filter-remove_first, filter-remove_first_other, filter-update_first, filter-update_first_other,
  filter-append,
}
use thesdel.Documents.{
  Kind, Request, creates, updates, deletes, named, own_update, own_delete, on_own, create_mine,
  update_mine, delete_mine, mine_of, others_of, Serves, with_doc, with_none,
}
use thesdel.Documents.LookUp.{
  LookUp, bad, missing, mine, look_up, all_mine, all_not_other, found_own,
}

module _ {Doc Body Change : Type 0} (kind : Kind Doc Body Change) (object_id : String → Option ℕ)
    (mongo : Mongo) where
  open mongo use {
    Collection, docs, insert_one, update_one, delete_one, find_one_lem, docs-insert_one,
    docs-update_one, docs-delete_one,
  }
  open kind use {
    id, is_mine, is_other, is_valid, is_valid_change, make, change, not_both, make_mine, change_id,
    change_mine, change_other,
  }

  abbrev pub serve : Request Body Change → Collection Doc → Result (Option Doc) × Collection Doc
  serve (creates i body) c =
      let (r, c') = create_mine kind object_id mongo i body c in (with_doc r, c')
  serve (updates doc_id x) c =
      let (r, c') = update_mine kind object_id mongo doc_id x c in (with_doc r, c')
  serve (deletes doc_id) c =
      let (r, c') = delete_mine kind object_id mongo doc_id c in (with_none r, c')

  Serves-by :
      (c : Collection Doc) {spec spec' : Result (Option Doc) × List Doc}
      {out out' : Result (Option Doc) × Collection Doc}
      → spec ≡ spec'
      → out ≡ out'
      → Serves kind object_id mongo c spec' out'
      → Serves kind object_id mongo c spec out
  Serves-by c e f h = (
    ap (λ (o : Result (Option Doc) × Collection Doc). o.0) f
        ∙ h.0
        ∙ sym (ap (λ (o : Result (Option Doc) × List Doc). o.0) e),
    ap (λ (o : Result (Option Doc) × Collection Doc). mine_of kind object_id mongo o.1) f
        ∙ h.1
        ∙ sym (ap (λ (o : Result (Option Doc) × List Doc). o.1) e),
    ap (λ (o : Result (Option Doc) × Collection Doc). others_of kind object_id mongo o.1) f ∙ h.2,
  )

  module _ (c : Collection Doc) (keyed : IsKeyed id (docs c)) where
    abbrev own : List Doc
    own = mine_of kind object_id mongo c

    -- A refusal that leaves both sides as they were.
    refused :
        {spec : Result (Option Doc) × List Doc} {out : Result (Option Doc) × Collection Doc}
        (e : AppError)
        → spec ≡ (err e, own)
        → out ≡ (err e, c)
        → Serves kind object_id mongo c spec out
    refused e p q = Serves-by c {spec' = (err e, own)} {out' = (err e, c)} p q (refl, refl, refl)

    creates-Serves :
        (i : ℕ) (body : Body)
        → Serves kind object_id mongo c
            (on_own kind object_id (creates i body) own)
            (serve (creates i body) c)
    unfolding create_mine
    creates-Serves i body = elim (Bool-cases (is_valid body)) [
      | inr bad_body ↦ refused AppError.validation_error (rw bad_body refl) (rw bad_body refl)
      | inl good ↦
          let d = make i body in
          Serves-by c {spec' = (ok (some d), own ++ d ∷ [])} {out' = (ok (some d), insert_one d c)}
            (rw good refl) (rw good refl)
            (
              refl,
              ap (filter is_mine) (docs-insert_one d c)
                  ∙ filter-append is_mine (docs c) (d ∷ [])
                  ∙ ap (λ r. own ++ r) (rw (make_mine i body) refl),
              ap (filter is_other) (docs-insert_one d c)
                  ∙ filter-append is_other (docs c) (d ∷ [])
                  ∙ ap (λ r. others_of kind object_id mongo c ++ r)
                      (rw (not_both d (make_mine i body)) refl)
                  ∙ append-nil (others_of kind object_id mongo c),
            )
    ]

    deletes-Serves :
        (doc_id : String)
        → LookUp kind object_id mongo c doc_id
        → Serves kind object_id mongo c
            (on_own kind object_id (deletes doc_id) own)
            (serve (deletes doc_id) c)
    unfolding delete_mine
    deletes-Serves doc_id (bad no_id failed) =
        refused AppError.internal_error (rw no_id refl) (rw (delete_mine, failed) refl)
    deletes-Serves doc_id (missing i known failed gone) =
        refused AppError.not_found (rw (known, own_delete, gone) refl)
          (rw (delete_mine, failed) refl)
    deletes-Serves doc_id (mine d known granted found mine') =
        let q = named kind object_id (id d) in
        Serves-by c {spec' = (ok none, remove_first q own)} {out' = (ok none, delete_one q c)}
          (rw (known, own_delete, found_own kind object_id mongo c keyed d found mine') refl)
          (rw (delete_mine, granted) refl)
          (
            refl,
            ap (filter is_mine) (docs-delete_one q c)
                ∙ filter-remove_first is_mine q (docs c)
                    (all_mine kind object_id mongo c keyed d found mine'),
            ap (filter is_other) (docs-delete_one q c)
                ∙ filter-remove_first_other is_other q (docs c)
                    (all_not_other kind object_id mongo c keyed d found mine'),
          )

    changed_found :
        (d : Doc) (x : Change)
        → find (named kind object_id (id d)) (docs c) ≡ some d
        → mongo.find_one
            (named kind object_id (id d))
            (update_one (named kind object_id (id d)) (change x) c)
          ≡ some (change x d)
    changed_found d x found =
        let q = named kind object_id (id d) in
        find_one_lem q (update_one q (change x) c)
        ∙ ap (find q) (docs-update_one q (change x) c)
        ∙ find-update_first_self q (change x) (docs c) (λ y. rw (change_id x y) refl) found

    updates-Serves :
        (doc_id : String) (x : Change)
        → LookUp kind object_id mongo c doc_id
        → is_valid_change x ≡ true
        → Serves kind object_id mongo c
            (on_own kind object_id (updates doc_id x) own)
            (serve (updates doc_id x) c)
    unfolding update_mine
    updates-Serves doc_id x (bad no_id failed) good =
        refused AppError.internal_error (rw (good, no_id) refl) (rw (good, failed) refl)
    updates-Serves doc_id x (missing i known failed gone) good =
        refused AppError.not_found (ground (arith, good, known, gone)) (rw (good, failed) refl)
    updates-Serves doc_id x (mine d known granted found mine') good =
        let q = named kind object_id (id d) in
        Serves-by c {spec' = (ok (some (change x d)), update_first q (change x) own)}
          {out' = (ok (some (change x d)), update_one q (change x) c)}
          (rw (good, known, own_update, found_own kind object_id mongo c keyed d found mine') refl)
          (rw (good, granted, changed_found d x found) refl)
          (
            refl,
            ap (filter is_mine) (docs-update_one q (change x) c)
                ∙ filter-update_first is_mine q (change x) (change_mine x) (docs c)
                    (all_mine kind object_id mongo c keyed d found mine'),
            ap (filter is_other) (docs-update_one q (change x) c)
                ∙ filter-update_first_other is_other q (change x) (change_other x) (docs c)
                    (all_not_other kind object_id mongo c keyed d found mine'),
          )

    pub serve-Serves :
        (request : Request Body Change)
        → Serves kind object_id mongo c (on_own kind object_id request own) (serve request c)
    unfolding update_mine
    serve-Serves (creates i body) = creates-Serves i body
    serve-Serves (deletes doc_id) =
        deletes-Serves doc_id (look_up kind object_id mongo c keyed doc_id)
    serve-Serves (updates doc_id x) = elim (Bool-cases (is_valid_change x)) [
      | inl good ↦ updates-Serves doc_id x (look_up kind object_id mongo c keyed doc_id) good
      | inr bad_change ↦ refused AppError.validation_error (rw bad_change refl) (rw bad_change refl)
    ]
