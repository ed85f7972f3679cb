-- ===== src/Files.antt =====
-- app/files: uploads of timetable images, and the sweep of abandoned ones; app/shared/storage.py's
-- in-memory client. An ObjectId is a number, a moment a number of seconds. What Pillow makes of the
-- bytes is a parameter, and so is the id that a text stands for.
pub mod Uploads
pub mod Routes
pub mod Storage
use thesdel.Base.{
  ℕ, zero, suc, ◌+◌, ◌-◌, ◌*◌, ◌≤◌, Bool, true, false, not, ◌&&◌, ◌||◌, Option, none, some, String,
  List, [], ◌∷◌, ◌++◌, ltb, leb, ◌==◌, if◌then◌else◌, length, filter, str_eq,
}
use thesdel.Errors.{AppError, Result, ok, err, Call}
use thesdel.Mongo.{Mongo}
use thesdel.Progression.{limit}

abbrev pub max_upload_bytes : ℕ
max_upload_bytes = 8388608

abbrev pub max_pixel_dimension : ℕ
max_pixel_dimension = 6000

abbrev pub max_total_pixels : ℕ
max_total_pixels = 36000000

-- 24 hours
abbrev pub abandoned_ttl : ℕ
abandoned_ttl = 86400

abbrev pub stale_sweep_hard_cap : ℕ
stale_sweep_hard_cap = 500

pub data ImageFormat : Type 0 where
  jpeg png webp : ImageFormat
  other_format : ImageFormat

-- What an opened image holds: the format, the size, and the bytes that re-encoding gives, unless that
-- raises.
pub record DecodedImage : Type 0 where
  pub format : ImageFormat
  pub width : ℕ
  pub height : ℕ
  pub reencoded : Option (List ℕ)

-- How `Image.open` ends: `bomb` is the DecompressionBombError of Pillow, for a size over its own
-- limit, and `unreadable` any error that the code catches.
pub data ImageOpen : Type 0 where
  opened : DecodedImage → ImageOpen
  unreadable bomb : ImageOpen

pub record FileUpload : Type 0 where
  pub id : ℕ
  pub user_id : ℕ
  pub r2_key : String
  pub content_type : String
  pub size_bytes : ℕ
  pub is_pending_parse : Bool
  pub created_at : ℕ

pub record StoredObject : Type 0 where
  pub key : String
  pub content : List ℕ
  pub content_type : String

-- `InMemoryStorageClient`: a dict of objects by key.
unfoldable pub storage_delete : String → List StoredObject → List StoredObject
storage_delete key os = filter (λ o. not (str_eq o.key key)) os

unfoldable pub storage_put : String → List ℕ → String → List StoredObject → List StoredObject
unfolding storage_delete
storage_put key content content_type os =
    storage_delete key os
    ++ record { key = key; content = content; content_type = content_type } ∷ []

unfoldable pub content_type_of : ImageFormat → Option String
content_type_of ImageFormat.jpeg = some "image/jpeg"
content_type_of ImageFormat.png = some "image/png"
content_type_of ImageFormat.webp = some "image/webp"
content_type_of ImageFormat.other_format = none

abbrev pub is_too_large : DecodedImage → Bool
is_too_large i =
    ltb max_pixel_dimension i.width
    || (ltb max_pixel_dimension i.height || ltb max_total_pixels (i.width * i.height))

-- `_reencode_image` behind `Image.open`: the bytes and the content type. No except clause is for a
-- bomb, which leaves the route as an internal error.
unfoldable pub reencode_image : ImageOpen → Result (List ℕ × String)
unfolding content_type_of
reencode_image ImageOpen.unreadable = err AppError.validation_error
reencode_image ImageOpen.bomb = err AppError.internal_error
reencode_image (ImageOpen.opened i) = elim (content_type_of i.format) [
  | none ↦ err AppError.validation_error
  | some kind ↦ if is_too_large i then err AppError.validation_error else (elim i.reencoded [
    | none ↦ err AppError.validation_error
    | some bytes ↦ ok (bytes, kind)
  ])
]

module _ (mongo : Mongo) (object_id : String → Option ℕ) where
  open mongo use {Collection, find_one, find_many, insert_one, delete_one}

  pub record FileDb : Type 0 where
    pub files : Collection FileUpload
    pub storage : List StoredObject

  abbrev pub is_own : ℕ → ℕ → FileUpload → Bool
  is_own file user f = (f.id == file) && (f.user_id == user)

  abbrev pub new_upload : ℕ → ℕ → String → String → ℕ → ℕ → FileUpload
  new_upload id user key kind size now = record {
    id = id;
    user_id = user;
    r2_key = key;
    content_type = kind;
    size_bytes = size;
    is_pending_parse = true;
    created_at = now;
  }

  -- The writes of an upload that is accepted: the object first, then the document.
  unfoldable pub store_upload : ℕ → ℕ → ℕ → String → List ℕ × String → Call FileDb FileUpload
  unfolding storage_put
  store_upload now id user key (bytes, kind) s =
      let d = new_upload id user key kind (length bytes) now in
      (
        ok d,
        record { files = insert_one d s.files; storage = storage_put key bytes kind s.storage },
      )

  unfoldable pub upload_timetable_import :
      (List ℕ → ImageOpen) → ℕ → ℕ → String → String → List ℕ → Call FileDb FileUpload
  unfolding reencode_image store_upload
  upload_timetable_import decode now id key user_id raw s =
      if ltb max_upload_bytes (length raw)
      then (err AppError.validation_error, s)
      else if length raw == 0
      then (err AppError.validation_error, s)
      else (elim (object_id user_id) [
        | none ↦ (err AppError.not_found, s)
        | some user ↦ elim (reencode_image (decode raw)) [
          | err e ↦ (err e, s)
          | ok encoded ↦ store_upload now id user key encoded s
        ]
      ])

  -- `_get_owned`: both ids are parsed, and the owner is part of the query.
  unfoldable pub get_owned : String → String → FileDb → Result FileUpload
  get_owned user_id file_id s = elim (object_id user_id) [
    | none ↦ err AppError.not_found
    | some user ↦ elim (object_id file_id) [
      | none ↦ err AppError.not_found
      | some file ↦ elim (find_one (is_own file user) s.files) [
        | none ↦ err AppError.not_found
        | some d ↦ ok d
      ]
    ]
  ]

  -- `delete`: the document by `find_one_and_delete`, then the object.
  unfoldable pub delete_file : String → String → Call FileDb (Unit {0})
  unfolding storage_delete
  delete_file user_id file_id s = elim (object_id user_id) [
    | none ↦ (err AppError.not_found, s)
    | some user ↦ elim (object_id file_id) [
      | none ↦ (err AppError.not_found, s)
      | some file ↦ elim (find_one (is_own file user) s.files) [
        | none ↦ (err AppError.not_found, s)
        | some d ↦ (
          ok tt,
          record {
            files = delete_one (is_own file user) s.files;
            storage = storage_delete d.r2_key s.storage;
          },
        )
      ]
    ]
  ]

  abbrev pub is_abandoned : ℕ → FileUpload → Bool
  is_abandoned now f = f.is_pending_parse && ltb (f.created_at + abandoned_ttl) now

  unfoldable pub find_stale_pending : ℕ → FileDb → List FileUpload
  unfolding limit
  find_stale_pending now s = limit stale_sweep_hard_cap (find_many (is_abandoned now) s.files)

  -- The loop over the stale documents: the object, then the document. It returns the count.
  unfoldable pub sweep : List FileUpload → FileDb → ℕ × FileDb
  unfolding storage_delete
  sweep [] s = (0, s)
  sweep (d ∷ ds) s =
      let (n, s') = sweep ds (record {
        files = delete_one (λ f. f.id == d.id) s.files;
        storage = storage_delete d.r2_key s.storage;
      }) in
      (n + 1, s')

  unfoldable pub cleanup_abandoned_file_uploads : ℕ → FileDb → ℕ × FileDb
  unfolding sweep find_stale_pending
  cleanup_abandoned_file_uploads now s = sweep (find_stale_pending now s) s
