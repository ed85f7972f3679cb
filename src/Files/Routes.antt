-- ===== src/Files/Routes.antt =====
-- app/files/router.py: the routes of uploads. The body of a request is a file that is read piece by
-- piece; what `read` gives is documented by `Reader`. Signing a link is the storage client's.
use thesdel.Base.{
  length-append, ℕ, zero, suc, ◌+◌, ◌≤◌, ◌<◌, ◌≡◌, refl, sym, ap, ◌∙◌, inl, inr, true, false,
  Option, none, some, String, List, [], ◌∷◌, ◌++◌, ltb, ◌==◌, if◌then◌else◌, length, arith,
  Bool-cases,
}
use mathlib.Core.List.{append-nil, append_assoc}
use thesdel.Errors.{AppError, Result, ok, err, Call}
use thesdel.Mongo.{Mongo}
use thesdel.Files.{
  ImageOpen, FileUpload, FileDb, max_upload_bytes, get_owned, upload_timetable_import,
}

-- A file that is being read: `left` is what is still to come. A read of at most n bytes gives the
-- next ones, and none only at the end.
pub record Reader (F : Type 0) : Type 0 where
  pub left : F → List ℕ
  pub read : ℕ → F → List ℕ × F
  pub read_next : (n : ℕ) (f : F) → (read n f).0 ++ left (read n f).1 ≡ left f
  pub read_ends : (n : ℕ) (f : F) → 0 < n → length (read n f).0 ≡ 0 → left f ≡ []

-- `b"".join`
abbrev pub join_bytes : List (List ℕ) → List ℕ
join_bytes [] = []
join_bytes (chunk ∷ chunks) = chunk ++ join_bytes chunks

abbrev pub chunk_size : ℕ
chunk_size = 1048576

abbrev pub presign_expiry_seconds : ℕ
presign_expiry_seconds = 600

pub record FileDownloadUrl : Type 0 where
  pub file_id : ℕ
  pub url : String
  pub expires_in_seconds : ℕ

module _ {F : Type 0} (reader : Reader F) where
  open reader use {left, read, read_next, read_ends}

  -- The while loop, none where the fuel runs out.
  unfoldable pub read_chunks : ℕ → ℕ → ℕ → List (List ℕ) → F → Option (Result (List ℕ))
  read_chunks most zero total chunks f = none
  read_chunks most (suc fuel) total chunks f =
      let (chunk, f') = read chunk_size f in
      elim (length chunk == 0) [
        | true ↦ some (ok (join_bytes chunks))
        | false ↦ elim (ltb most (total + length chunk)) [
          | true ↦ some (err AppError.validation_error)
          | false ↦ read_chunks most fuel (total + length chunk) (chunks ++ chunk ∷ []) f'
        ]
      ]

  -- A round reads a byte at least, so one more than the cap is enough.
  unfoldable pub read_body : ℕ → F → Option (Result (List ℕ))
  unfolding read_chunks
  read_body most f = read_chunks most (suc most) 0 [] f

  join_bytes-append :
      (chunks : List (List ℕ)) (chunk : List ℕ)
      → join_bytes (chunks ++ chunk ∷ []) ≡ join_bytes chunks ++ chunk
  join_bytes-append [] chunk = append-nil chunk
  join_bytes-append (c ∷ cs) chunk =
      ap (λ r. c ++ r) (join_bytes-append cs chunk) ∙ sym (append_assoc c (join_bytes cs) chunk)

  -- What the loop ends with, by what it has read and what is left.
  abbrev answer : ℕ → List ℕ → Result (List ℕ)
  answer most all = if ltb most (length all) then err AppError.validation_error else ok all

  read_chunks-answer :
      (most fuel total : ℕ) (chunks : List (List ℕ)) (f : F)
      → total ≡ length (join_bytes chunks)
      → total ≤ most
      → most < fuel + total
      → read_chunks most fuel total chunks f ≡ some (answer most (join_bytes chunks ++ left f))
  unfolding read_chunks
  read_chunks-answer most zero total chunks f h le enough = absurd (omega arith)
  read_chunks-answer most (suc fuel) total chunks f h le enough =
      let chunk = (read chunk_size f).0 in
      let f' = (read chunk_size f).1 in
      let next : chunk ++ left f' ≡ left f = read_next chunk_size f in
      let size : length (left f) ≡ length chunk + length (left f') =
        sym (ap length next) ∙ length-append chunk (left f') in
      let all_size : length (join_bytes chunks ++ left f) ≡ total + length (left f) =
        length-append (join_bytes chunks) (left f) ∙ ap (λ n. n + length (left f)) (sym h) in
      elim (Bool-cases (length chunk == 0)) [
        | inl done ↦
            let ends : left f ≡ [] = read_ends chunk_size f (omega arith) (ground arith) in
            let all : join_bytes chunks ++ left f ≡ join_bytes chunks =
              ap (λ r. join_bytes chunks ++ r) ends ∙ append-nil (join_bytes chunks) in
            let small : ltb most (length (join_bytes chunks)) ≡ false = ground arith in
            rw (read_chunks, done, all, small) refl
        | inr more ↦ elim (Bool-cases (ltb most (total + length chunk))) [
          | inl big ↦
              let over : ltb most (length (join_bytes chunks ++ left f)) ≡ true = ground arith in
              rw (read_chunks, more, big, over) refl
          | inr fits ↦
              let rest : read_chunks most fuel (total + length chunk) (chunks ++ chunk ∷ []) f'
                  ≡ some (answer most (join_bytes (chunks ++ chunk ∷ []) ++ left f')) =
                read_chunks-answer most fuel (total + length chunk) (chunks ++ chunk ∷ []) f'
                  (ap (λ n. n + length chunk) h
                    ∙ sym (length-append (join_bytes chunks) chunk)
                    ∙ sym (ap length (join_bytes-append chunks chunk)))
                  (ground arith) (ground arith) in
              let same : join_bytes (chunks ++ chunk ∷ []) ++ left f'
                  ≡ join_bytes chunks ++ left f =
                ap (λ r. r ++ left f') (join_bytes-append chunks chunk)
                ∙ append_assoc (join_bytes chunks) chunk (left f')
                ∙ ap (λ r. join_bytes chunks ++ r) next in
              rw (read_chunks, more, fits) (rest ∙ ap (λ r. some (answer most r)) same)
        ]
      ]

  read_body-answer : (most : ℕ) (f : F) → read_body most f ≡ some (answer most (left f))
  unfolding read_body
  read_body-answer most f =
      read_chunks-answer most (suc most) 0 [] f refl (omega arith) (omega arith)

  module _ (mongo : Mongo) (object_id : String → Option ℕ) (decode : List ℕ → ImageOpen) where
    unfoldable pub upload_route :
        ℕ → ℕ → String → String → F → Call (FileDb mongo object_id) FileUpload
    unfolding read_body upload_timetable_import
    upload_route now id key user_id f s = elim (read_body max_upload_bytes f) [
      | none ↦ (err AppError.internal_error, s)
      | some (err e) ↦ (err e, s)
      | some (ok raw) ↦ upload_timetable_import mongo object_id decode now id key user_id raw s
    ]

    -- The route that reads the body piece by piece, and stops above the cap, ends, with the answer
    -- and the writes of the service on the whole body.
    pub upload_route_lem :
        (now id : ℕ) (key user_id : String) (f : F) (s : FileDb mongo object_id)
        → upload_route now id key user_id f s
          ≡ upload_timetable_import mongo object_id decode now id key user_id (left f) s
    unfolding upload_route upload_timetable_import
    upload_route_lem now id key user_id f s =
        elim (Bool-cases (ltb max_upload_bytes (length (left f)))) [
          | inl big ↦ rw (upload_route, read_body-answer max_upload_bytes f, big) refl
          | inr fits ↦
              rw (upload_route, read_body-answer max_upload_bytes f, fits, upload_timetable_import)
                (rw fits refl)
        ]

module _ (mongo : Mongo) (object_id : String → Option ℕ) (presign_get : String → ℕ → String) where
  unfoldable pub get_download_url :
      String → String → FileDb mongo object_id → Result FileDownloadUrl
  unfolding get_owned
  get_download_url user_id file_id s = elim (get_owned mongo object_id user_id file_id s) [
    | err e ↦ err e
    | ok d ↦ ok (record {
      file_id = d.id;
      url = presign_get d.r2_key presign_expiry_seconds;
      expires_in_seconds = presign_expiry_seconds;
    })
  ]
