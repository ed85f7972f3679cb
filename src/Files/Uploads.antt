-- ===== src/Files/Uploads.antt =====
-- What an upload lets in, who may delete, and what the sweep removes.
use thesdel.Base.{
  ℕ, ◌≤◌, ◌<◌, ◌≡◌, refl, ◌⊎◌, inl, inr, false, not, Option, some, String, List, [], ◌∷◌, ◌++◌, ltb,
  ◌==◌, length, str_eq, arith, All, All-filter_keep, Bool-cases, Option-cases, ap, sym, ◌∙◌,
  by_value,
}
use thesdel.Errors.{AppError, Result, ok, err}
use thesdel.Mongo.{Mongo}
use thesdel.Files.{
  ImageOpen, DecodedImage, FileUpload, StoredObject, FileDb, content_type_of, is_too_large,
  reencode_image, max_upload_bytes, max_pixel_dimension, new_upload, store_upload,
  upload_timetable_import, storage_put, storage_delete, sweep,
}

Result-cases {ℓ} :
    {A : Type ℓ} (r : Result A) → ((e : AppError) × (r ≡ err e)) ⊎ ((a : A) × (r ≡ ok a))
Result-cases (err e) = inl (e, refl)
Result-cases (ok a) = inr (a, refl)

-- What the image was that re-encoding lets through.
abbrev pub IsImage : ImageOpen → List ℕ × String → Type 0
IsImage image out =
    (i : DecodedImage) × (image ≡ ImageOpen.opened i)
    × (content_type_of i.format ≡ some out.1)
    × (i.width ≤ max_pixel_dimension)
    × (i.height ≤ max_pixel_dimension)
    × (i.reencoded ≡ some out.0)

reencode_image-IsImage :
    (image : ImageOpen) (out : List ℕ × String) → reencode_image image ≡ ok out → IsImage image out
unfolding reencode_image
reencode_image-IsImage ImageOpen.unreadable out h = cc
reencode_image-IsImage ImageOpen.bomb out h = cc
reencode_image-IsImage (ImageOpen.opened i) out h = elim (Option-cases (content_type_of i.format)) [
  | inl bad ↦ absurd (ground arith)
  | inr (kind, known) ↦ elim (Bool-cases (is_too_large i)) [
    | inl big ↦ absurd (ground arith)
    | inr fits ↦ elim (Option-cases i.reencoded) [
      | inl failed ↦ absurd (ground arith)
      | inr (bytes, done) ↦
          let same : (bytes, kind) ≡ out = ground arith in
          (
            i,
            refl,
            known ∙ ap (λ (o : List ℕ × String). some (o.1)) same,
            ground arith,
            ground arith,
            done ∙ ap (λ (o : List ℕ × String). some (o.0)) same,
          )
    ]
  ]
]

-- No object is left under the key.
abbrev pub IsGone : String → List StoredObject → Type 0
IsGone key os = All (λ o. str_eq o.key key ≡ false) os

module _ (mongo : Mongo) (object_id : String → Option ℕ) (decode : List ℕ → ImageOpen) where
  open mongo use {docs, docs-insert_one}

  -- An upload that is accepted is of 1 byte to 8 MiB and decodes to an image of an allowed format
  -- of at most 6000 by 6000 pixels; what is stored under its key is the re-encoding, never the
  -- bytes that were sent, and its document carries the type found in the content.
  pub upload_timetable_import_accepts :
      (now id : ℕ) (key user_id : String) (raw : List ℕ) (s s' : FileDb mongo object_id)
      (d : FileUpload)
      → upload_timetable_import mongo object_id decode now id key user_id raw s ≡ (ok d, s')
      → (0 < length raw)
        × (length raw ≤ max_upload_bytes)
        × ((bytes : List ℕ) × IsImage (decode raw) (bytes, d.content_type)
            × (s'.storage ≡ storage_put d.r2_key bytes d.content_type s.storage)
            × (object_id user_id ≡ some d.user_id)
            × (docs s'.files ≡ docs s.files ++ d ∷ []))
  unfolding upload_timetable_import store_upload
  upload_timetable_import_accepts now id key user_id raw s s' d h =
      elim (Bool-cases (ltb max_upload_bytes (length raw))) [
        | inl big ↦ absurd (ground arith)
        | inr fits ↦ elim (Bool-cases (length raw == 0)) [
          | inl empty ↦ absurd (ground arith)
          | inr some_bytes ↦ elim (Option-cases (object_id user_id)) [
            | inl bad ↦ absurd (ground arith)
            | inr (user, known) ↦ elim (Result-cases (reencode_image (decode raw))) [
              | inl (e, refused) ↦ absurd (ground arith)
              | inr ((bytes, kind), accepted) ↦
                  let image = reencode_image-IsImage (decode raw) (bytes, kind) accepted in
                  let same : new_upload mongo object_id id user key kind (length bytes) now ≡ d =
                    ground arith in
                  let files : s'.files ≡ mongo.insert_one d s.files = ground arith in
                  let kinds : kind ≡ d.content_type =
                    ap (λ (f : FileUpload). f.content_type) same in
                  (
                    ground arith,
                    ground arith,
                    (
                      bytes,
                      by_value (λ (k : String). IsImage (decode raw) (bytes, k)) (sym kinds) image,
                      ground arith,
                      ground arith,
                      ap docs files ∙ docs-insert_one d s.files,
                    ),
                  )
            ]
          ]
        ]
      ]

  storage_delete-IsGone :
      (key : String) (os : List StoredObject) → IsGone key (storage_delete key os)
  unfolding storage_delete
  storage_delete-IsGone key [] = tt
  storage_delete-IsGone key (o ∷ os) = elim (Bool-cases (str_eq o.key key)) [
    | inl e ↦ rw e (storage_delete-IsGone key os)
    | inr e ↦ rw e (e, storage_delete-IsGone key os)
  ]

  IsGone-storage_delete :
      (key other : String) (os : List StoredObject)
      → IsGone key os
      → IsGone key (storage_delete other os)
  unfolding storage_delete
  IsGone-storage_delete key other os h =
      All-filter_keep (λ o. str_eq o.key key ≡ false) (λ o. not (str_eq o.key other)) os h

  sweep-IsGone_kept :
      (ds : List FileUpload) (key : String) (s : FileDb mongo object_id)
      → IsGone key s.storage
      → IsGone key (sweep mongo object_id ds s).1.storage
  unfolding sweep
  sweep-IsGone_kept [] key s h = h
  sweep-IsGone_kept (d ∷ ds) key s h =
      sweep-IsGone_kept ds key
        (record {
          files = mongo.delete_one (λ f. f.id == d.id) s.files;
          storage = storage_delete d.r2_key s.storage;
        })
        (IsGone-storage_delete key d.r2_key s.storage h)

  -- The sweep counts every stale document that it was given, and leaves no object of any of them.
  pub sweep_removes :
      (ds : List FileUpload) (s : FileDb mongo object_id)
      → ((sweep mongo object_id ds s).0 ≡ length ds)
        × All (λ d. IsGone d.r2_key (sweep mongo object_id ds s).1.storage) ds
  unfolding sweep
  sweep_removes [] s = (refl, tt)
  sweep_removes (d ∷ ds) s =
      let next : FileDb mongo object_id = record {
        files = mongo.delete_one (λ f. f.id == d.id) s.files;
        storage = storage_delete d.r2_key s.storage;
      } in
      let rest = sweep_removes ds next in
      (
        omega (arith, rest.0),
        (sweep-IsGone_kept ds d.r2_key next (storage_delete-IsGone d.r2_key s.storage), rest.1),
      )
