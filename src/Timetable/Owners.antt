-- ===== src/Timetable/Owners.antt =====
-- A user's calls on the timetable, as requests on the list of the entries that the user owns.
use thesdel.Base.{
  ℕ, ◌≡◌, refl, inl, inr, true, false, ◌&&◌, Option, String, IsKeyed, ◌==◌, arith, Bool-cases,
  by_value,
}
use thesdel.Errors.{Result}
use thesdel.Mongo.{Mongo}
use thesdel.Documents.{
  Kind, Request, creates, updates, deletes, on_own, mine_of, Serves, with_doc, with_none,
  create_mine, update_mine, delete_mine, same_id,
}
use thesdel.Documents.Serves as Documents
use thesdel.Timetable.{
  OwnerType, TimetableEntry, TimetableEntryCreate, TimetableEntryUpdate, is_of, same_owner_type,
  new_entry, set_entry, is_valid_create, is_valid_update, create_personal_entry,
  update_personal_entry, delete_personal_entry,
}

apart_types :
    (a b : OwnerType)
    → same_owner_type a OwnerType.of_user ≡ true
    → same_owner_type a b ≡ true
    → same_owner_type b OwnerType.of_user ≡ true
apart_types OwnerType.of_user OwnerType.of_user h k = refl
apart_types OwnerType.of_user OwnerType.of_class h k = cc
apart_types OwnerType.of_class b h k = cc

module _ (user_id : ℕ) (owner_type : OwnerType) (owner_id : ℕ)
    (other : (same_owner_type owner_type OwnerType.of_user && (owner_id == user_id)) ≡ false) where
  pub owners_apart :
      (e : TimetableEntry)
      → is_of OwnerType.of_user user_id e ≡ true
      → is_of owner_type owner_id e ≡ false
  owners_apart e h = elim (Bool-cases (is_of owner_type owner_id e)) [
    | inr no_one ↦ no_one
    | inl both ↦ absurd (ground (arith, apart_types e.owner_type owner_type))
  ]

  -- The user's personal entries, beside those of another owner.
  abbrev pub entries : Kind TimetableEntry TimetableEntryCreate TimetableEntryUpdate
  entries = record {
    id = λ e. e.id;
    is_mine = is_of OwnerType.of_user user_id;
    is_other = is_of owner_type owner_id;
    is_valid = is_valid_create;
    is_valid_change = is_valid_update;
    make = λ i body. new_entry i OwnerType.of_user user_id body;
    change = set_entry;
    not_both = owners_apart;
    make_mine = λ i body. same_id user_id;
    change_id = λ body e. refl;
    change_mine = λ body e. refl;
    change_other = λ body e. refl;
  }

module _ (object_id : String → Option ℕ) (user_id : ℕ) (mongo : Mongo) where
  open mongo use {Collection, docs}

  -- The routes of a user's own entries.
  abbrev pub serve_entry :
      Request TimetableEntryCreate TimetableEntryUpdate
      → Collection TimetableEntry
      → Result (Option TimetableEntry) × Collection TimetableEntry
  serve_entry (creates id body) c =
      let (r, c') = create_personal_entry mongo id user_id body c in (with_doc r, c')
  serve_entry (updates entry_id body) c =
      let (r, c') = update_personal_entry mongo object_id user_id entry_id body c in
      (with_doc r, c')
  serve_entry (deletes entry_id) c =
      let (r, c') = delete_personal_entry mongo object_id user_id entry_id c in (with_none r, c')

  module _ (owner_type : OwnerType) (owner_id : ℕ)
      (other : (same_owner_type owner_type OwnerType.of_user && (owner_id == user_id)) ≡ false)
      (c : Collection TimetableEntry) where
    abbrev kind : Kind TimetableEntry TimetableEntryCreate TimetableEntryUpdate
    kind = entries user_id owner_type owner_id other

    as_documents :
        (request : Request TimetableEntryCreate TimetableEntryUpdate)
        → serve_entry request c ≡ Documents.serve kind object_id mongo request c
    unfolding create_personal_entry update_personal_entry delete_personal_entry create_mine
        update_mine delete_mine
    as_documents (creates id body) = refl
    as_documents (updates entry_id body) = refl
    as_documents (deletes entry_id) = refl

    -- Where no two entries have one id, a user's request does to the timetable what it does to a
    -- list of the user's own entries, the answer included, so another's entry is answered as one
    -- that is not there; the entries of any other user and of any class stay as they were.
    pub serve_entry-Serves :
        IsKeyed (λ e. e.id) (docs c)
        → (request : Request TimetableEntryCreate TimetableEntryUpdate)
        → Serves kind object_id mongo c
            (on_own kind object_id request (mine_of kind object_id mongo c))
            (serve_entry request c)
    serve_entry-Serves keyed request =
        by_value
          (Serves kind object_id mongo c
            (on_own kind object_id request (mine_of kind object_id mongo c)))
          (as_documents request) (Documents.serve-Serves kind object_id mongo c keyed request)
