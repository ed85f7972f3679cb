-- ===== src/Files/Storage.antt =====
-- app/shared/storage.py: the store as a map from keys to objects, and the choice of the client. R2's
-- client only calls boto3, which is a parameter of the services that use it.
use thesdel.Base.{
  ℕ, ◌≡◌, refl, inl, inr, Bool, true, false, not, ◌&&◌, Option, none, some, String, List, [], ◌∷◌,
  ◌++◌, find, filter, str_eq, eq_iff, arith, sym, ◌∙◌, ap, Bool-cases, Option-cases, if◌then◌else◌,
}
use thesdel.Mongo.Laws.{find-append, find-append_none}
use thesdel.Files.{StoredObject, storage_put, storage_delete}

-- `get`, which raises where the key is missing.
unfoldable pub storage_get : String → List StoredObject → Option (List ℕ)
storage_get key os = elim (find (λ o. str_eq o.key key) os) [
  | none ↦ none
  | some o ↦ some o.content
]

pub data Client : Type 0 where
  r2_client in_memory_client : Client

-- `get_storage_client`: made once, by the settings of then, and kept.
unfoldable pub get_storage_client : String → String → Option Client → Client
get_storage_client r2_account_id r2_bucket_name (some client) = client
get_storage_client r2_account_id r2_bucket_name none =
    if not (str_eq r2_account_id "") && not (str_eq r2_bucket_name "")
    then r2_client
    else in_memory_client

module _ (key : String) where
  find_self :
      (os : List StoredObject)
      → find (λ o. str_eq o.key key) (filter (λ o. not (str_eq o.key key)) os) ≡ none
  find_self [] = refl
  find_self (o ∷ os) = elim (Bool-cases (str_eq o.key key)) [
    | inl e ↦ rw e (find_self os)
    | inr e ↦ rw e (rw e (find_self os))
  ]

  -- Another key is found as before.
  find_other :
      (other : String) (os : List StoredObject)
      → str_eq other key ≡ false
      → find (λ o. str_eq o.key other) (filter (λ o. not (str_eq o.key key)) os)
        ≡ find (λ o. str_eq o.key other) os
  find_other other [] apart = refl
  find_other other (o ∷ os) apart = elim (Bool-cases (str_eq o.key key)) [
    | inr e ↦ elim (Bool-cases (str_eq o.key other)) [
      | inl f ↦ rw e (rw f refl)
      | inr f ↦ rw e (rw f (find_other other os apart))
    ]
    | inl e ↦
        let miss : str_eq o.key other ≡ false = elim (Bool-cases (str_eq o.key other)) [
          | inr f ↦ f
          | inl f ↦
              let same : str_eq other key ≡ true =
                (eq_iff other key).1 (sym ((eq_iff o.key other).0 f) ∙ (eq_iff o.key key).0 e) in
              absurd (ground arith)
        ] in
        rw e (rw miss (find_other other os apart))
  ]

  find_same :
      (other : String) (os : List StoredObject)
      → str_eq other key ≡ true
      → find (λ o. str_eq o.key other) (filter (λ o. not (str_eq o.key key)) os) ≡ none
  find_same other os same =
      let is_key : other ≡ key = (eq_iff other key).0 same in
      ap (λ k. find (λ o. str_eq o.key k) (filter (λ o. not (str_eq o.key key)) os)) is_key
      ∙ find_self os

  -- A deletion takes the object of its key, and no other.
  pub storage_get-storage_delete :
      (other : String) (os : List StoredObject)
      → storage_get other (storage_delete key os)
        ≡ (if str_eq other key then none else storage_get other os)
  unfolding storage_get storage_delete
  storage_get-storage_delete other os = elim (Bool-cases (str_eq other key)) [
    | inl e ↦ rw (storage_get, storage_delete, find_same other os e, e) refl
    | inr e ↦ rw (storage_get, storage_delete, find_other other os e, e) refl
  ]

  -- A put sets the object of its key, and no other.
  pub storage_get-storage_put :
      (other content_type : String) (content : List ℕ) (os : List StoredObject)
      → storage_get other (storage_put key content content_type os)
        ≡ (if str_eq other key then some content else storage_get other os)
  unfolding storage_get storage_put storage_delete
  storage_get-storage_put other content_type content os =
      let new : StoredObject = record {
        key = key;
        content = content;
        content_type = content_type;
      } in
      let kept = filter (λ o. not (str_eq o.key key)) os in
      let test : StoredObject → Bool = λ o. str_eq o.key other in
      elim (Bool-cases (str_eq other key)) [
        | inl e ↦
            let self : str_eq key other ≡ true =
              (eq_iff key other).1 (sym ((eq_iff other key).0 e)) in
            let found : find test (kept ++ new ∷ []) ≡ some new =
              find-append_none test kept (new ∷ []) (find_same other os e) ∙ rw (self) refl in
            rw (storage_get, storage_put, storage_delete, found, e) refl
        | inr e ↦ elim (Option-cases (find test os)) [
          | inr (o, there) ↦
              let found : find test (kept ++ new ∷ []) ≡ some o =
                find-append test kept (new ∷ []) (find_other other os e ∙ there) in
              rw (storage_get, storage_put, storage_delete, found, e, there) refl
          | inl gone ↦
              let miss : str_eq key other ≡ false = elim (Bool-cases (str_eq key other)) [
                | inr f ↦ f
                | inl f ↦
                    let same : str_eq other key ≡ true =
                      (eq_iff other key).1 (sym ((eq_iff key other).0 f)) in
                    absurd (ground arith)
              ] in
              let found : find test (kept ++ new ∷ []) ≡ none =
                find-append_none test kept (new ∷ []) (find_other other os e ∙ gone)
                ∙ rw (miss) refl in
              rw (storage_get, storage_put, storage_delete, found, e, gone) refl
        ]
      ]
