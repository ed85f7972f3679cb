-- ===== src/Announcements.antt =====
-- app/announcements: the announcements of a class, their feed and its pages. An ObjectId is a number
-- and a moment a number of milliseconds, as MongoDB keeps it. What `ObjectId(value)` makes of a
-- client's text is a parameter, and so are the texts of moments and ids and base64.
pub mod Cursor
pub mod Pages
pub mod Feed
pub mod Routes
pub mod Post
use thesdel.Base.{
  ℕ, zero, suc, ◌+◌, ◌≡◌, Bool, true, false, not, ◌&&◌, ◌||◌, Option, none, some, String, List, [],
  ◌∷◌, ◌++◌, any, take, last?, length, ltb, ◌==◌, if◌then◌else◌, map,
}
use thesdel.Errors.{AppError, Result, ok, err, Call}
use thesdel.Mongo.{Mongo}
use thesdel.Redis.{Redis}
use thesdel.Time.{Text}
use thesdel.Notifications.{Triggers, notify_announcement_posted}
use thesdel.Access.{CurrentUser, Membership, class_rep}

pub record Announcement : Type 0 where
  pub id : ℕ
  pub class_id : ℕ
  pub posted_by : ℕ
  pub content : String
  pub pinned : Bool
  pub created_at : ℕ

pub record AnnouncementPage : Type 0 where
  pub items : List Announcement
  pub next_cursor : Option Text

-- The texts of libraries: a moment's and an ObjectId's, neither of them with a bar, and base64.
pub record Codec : Type 0 where
  pub isoformat : ℕ → Text
  pub fromisoformat : Text → Option ℕ
  pub id_text : ℕ → Text
  pub object_id : Text → Option ℕ
  pub urlsafe_b64encode : Text → Text
  pub urlsafe_b64decode : Text → Option Text
  pub fromisoformat-isoformat : (t : ℕ) → fromisoformat (isoformat t) ≡ some t
  pub isoformat_bar : (t : ℕ) → any (λ c. c == 124) (isoformat t) ≡ false
  pub object_id-id_text : (i : ℕ) → object_id (id_text i) ≡ some i
  pub b64decode-b64encode : (t : Text) → urlsafe_b64decode (urlsafe_b64encode t) ≡ some t
  pub b64decode_empty : urlsafe_b64decode [] ≡ some []

-- `text.split("|", 1)`, which is unpacked into two
unfoldable pub split_bar : Text → Option (Text × Text)
split_bar [] = none
split_bar (c ∷ cs) =
    if c == 124
    then some ([], cs)
    else (elim (split_bar cs) [ none ↦ none | some (a, b) ↦ some (c ∷ a, b) ])

module _ (codec : Codec) where
  open codec use {
    isoformat, fromisoformat, id_text, object_id, urlsafe_b64encode, urlsafe_b64decode,
  }

  unfoldable pub encode_cursor : ℕ → ℕ → Text
  encode_cursor created_at id = urlsafe_b64encode (isoformat created_at ++ 124 ∷ id_text id)

  abbrev pub both : Option ℕ → Option ℕ → Option (ℕ × ℕ)
  both (some t) (some i) = some (t, i)
  both none i = none
  both t none = none

  abbrev pub cursor_of : Option (Text × Text) → Option (ℕ × ℕ)
  cursor_of none = none
  cursor_of (some (created_at_raw, obj_id_raw)) =
      both (fromisoformat created_at_raw) (object_id obj_id_raw)

  -- none is an error of one of the libraries' calls, which nothing catches.
  unfoldable pub decode_cursor : Text → Option (ℕ × ℕ)
  unfolding split_bar
  decode_cursor cursor = elim (urlsafe_b64decode cursor) [
    | none ↦ none
    | some raw ↦ cursor_of (split_bar raw)
  ]

-- `.sort([("created_at", -1), ("_id", -1)])`
abbrev pub newer : Announcement → Announcement → Bool
newer a b = ltb b.created_at a.created_at || ((b.created_at == a.created_at) && ltb b.id a.id)

abbrev pub newest : Announcement → Announcement → Bool
newest a b = ltb b.created_at a.created_at

abbrev pub is_before : Option (ℕ × ℕ) → Announcement → Bool
is_before none a = true
is_before (some (created_at, id)) a =
    ltb a.created_at created_at || ((a.created_at == created_at) && ltb a.id id)

abbrev pub is_unpinned : ℕ → Announcement → Bool
is_unpinned class_id a = (a.class_id == class_id) && not a.pinned

abbrev pub is_pinned : ℕ → Announcement → Bool
is_pinned class_id a = (a.class_id == class_id) && a.pinned

-- `$set` of the fields that are given.
abbrev pub set_fields : Option String → Option Bool → Announcement → Announcement
set_fields (some c) (some p) a = record a { content = c; pinned = p }
set_fields (some c) none a = record a { content = c }
set_fields none (some p) a = record a { pinned = p }
set_fields none none a = a

abbrev pub no_fields : Option String → Option Bool → Bool
no_fields none none = true
no_fields content pinned = false

module _ (mongo : Mongo) where
  open mongo use {Collection, find_one, find_sorted, insert_one, update_one}

  abbrev pub new_announcement : ℕ → ℕ → ℕ → ℕ → String → Announcement
  new_announcement id now class_id posted_by content = record {
    id = id;
    class_id = class_id;
    posted_by = posted_by;
    content = content;
    pinned = false;
    created_at = now;
  }

  unfoldable pub list_pinned : ℕ → Collection Announcement → List Announcement
  list_pinned class_id c = find_sorted newest (is_pinned class_id) c

  unfoldable pub list_unpinned_page :
      ℕ → Option (ℕ × ℕ) → ℕ → Collection Announcement → List Announcement
  list_unpinned_page class_id before limit c =
      take limit (find_sorted newer (λ a. is_unpinned class_id a && is_before before a) c)

  module _ (codec : Codec) where
    unfoldable pub next_cursor_of : ℕ → List Announcement → Option Text
    unfolding encode_cursor
    next_cursor_of limit unpinned =
        if length unpinned == limit
        then (elim (last? unpinned) [
          | none ↦ none
          | some last ↦ some (encode_cursor codec last.created_at last.id)
        ])
        else none

    -- The pinned items come with no cursor only; an empty cursor is one that starts anew.
    unfoldable pub list_feed :
        ℕ → Option Text → ℕ → Collection Announcement → Result AnnouncementPage
    unfolding list_pinned list_unpinned_page next_cursor_of
    list_feed class_id none limit c =
        let unpinned = list_unpinned_page class_id none limit c in
        ok (record {
          items = list_pinned class_id c ++ unpinned;
          next_cursor = next_cursor_of limit unpinned;
        })
    list_feed class_id (some []) limit c =
        let unpinned = list_unpinned_page class_id none limit c in
        ok (record { items = unpinned; next_cursor = next_cursor_of limit unpinned })
    list_feed class_id (some (k ∷ ks)) limit c = elim (decode_cursor codec (k ∷ ks)) [
      | none ↦ err AppError.internal_error
      | some before ↦
          let unpinned = list_unpinned_page class_id (some before) limit c in
          ok (record { items = unpinned; next_cursor = next_cursor_of limit unpinned })
    ]

  -- A text that is no ObjectId is an error that nothing catches.
  unfoldable pub update :
      (String → Option ℕ)
      → String
      → Option String
      → Option Bool
      → Call (Collection Announcement) Announcement
  update object_id announcement_id content pinned c = elim (object_id announcement_id) [
    | none ↦ (err AppError.internal_error, c)
    | some id ↦ elim (find_one (λ a. a.id == id) c) [
      | none ↦ (err AppError.not_found, c)
      | some doc ↦
          if no_fields content pinned
          then (ok doc, c)
          else (let c' = update_one (λ a. a.id == doc.id) (set_fields content pinned) c in
              elim (find_one (λ a. a.id == doc.id) c') [
                | none ↦ (err AppError.internal_error, c')
                | some updated ↦ (ok updated, c')
              ])
    ]
  ]

  -- The route `update_announcement`, whose dependency lets reps of the path's class through.
  unfoldable pub update_announcement :
      (String → Option ℕ)
      → String
      → CurrentUser
      → Collection Membership
      → String
      → Option String
      → Option Bool
      → Call (Collection Announcement) Announcement
  unfolding update
  update_announcement object_id class_id user members announcement_id content pinned c =
      elim (class_rep mongo object_id class_id user members) [
        | err e ↦ (err e, c)
        | ok rep ↦ update object_id announcement_id content pinned c
      ]

  module _ (redis : Redis) where
    pub record AnnouncementDb : Type 0 where
      pub announcements : Collection Announcement
      pub triggers : Triggers redis

    -- `member_user_ids` is what `ClassService.list_member_user_ids` reads.
    unfoldable pub post : Bool → ℕ → ℕ → ℕ → ℕ → String → List ℕ → Call AnnouncementDb Announcement
    post queue_up id now class_id posted_by content member_user_ids s =
        let doc = new_announcement id now class_id posted_by content in
        (
          ok doc,
          record {
            announcements = insert_one doc s.announcements;
            triggers =
                notify_announcement_posted redis queue_up class_id doc.id posted_by member_user_ids
                  doc.pinned s.triggers;
          },
        )
