-- ===== src/Announcements/Routes.antt =====
-- Who may edit an announcement.
use thesdel.Base.{
  ℕ, ◌≡◌, refl, sym, ap, ◌∙◌, Bool, false, Option, none, some, String, ◌==◌, find, arith,
}
use thesdel.Errors.{ok}
use thesdel.Mongo.{Mongo}
use thesdel.Mongo.Laws.{find-update_first_self}
use thesdel.Access.{CurrentUser, Membership, class_rep}
use thesdel.Announcements.{Announcement, set_fields, no_fields, update, update_announcement}

set_fields_id :
    (content : Option String) (pinned : Option Bool) (a : Announcement)
    → (set_fields content pinned a).id ≡ a.id
set_fields_id none none a = refl
set_fields_id none (some p) a = refl
set_fields_id (some t) none a = refl
set_fields_id (some t) (some p) a = refl

module _ (mongo : Mongo) where
  open mongo use {Collection, docs, find_one, update_one, find_one_lem, docs-update_one}

  edited_found :
      (content : Option String) (pinned : Option Bool) (a : Announcement)
      (c : Collection Announcement)
      → find_one (λ x. x.id == a.id) c ≡ some a
      → find_one (λ x. x.id == a.id) (update_one (λ x. x.id == a.id) (set_fields content pinned) c)
        ≡ some (set_fields content pinned a)
  edited_found content pinned a c h =
      let named : Announcement → Bool = λ x. x.id == a.id in
      find_one_lem named (update_one named (set_fields content pinned) c)
      ∙ ap (find named) (docs-update_one named (set_fields content pinned) c)
      ∙ find-update_first_self named (set_fields content pinned) (docs c)
          (λ y. ap (λ i. i == a.id) (set_fields_id content pinned y))
          (sym (find_one_lem named c) ∙ h)

  -- A rep of the class in the path edits any announcement that is found by its id, of whatever
  -- class: the route never compares the announcement's class with the path's.
  pub update_announcement_edits :
      (object_id : String → Option ℕ) (class_id announcement_id : String) (user : CurrentUser)
      (members : Collection Membership) (rep : Membership) (content : Option String)
      (pinned : Option Bool) (a : Announcement) (c : Collection Announcement)
      → class_rep mongo object_id class_id user members ≡ ok rep
      → object_id announcement_id ≡ some a.id
      → find_one (λ x. x.id == a.id) c ≡ some a
      → no_fields content pinned ≡ false
      → update_announcement mongo object_id class_id user members announcement_id content pinned c
        ≡ (
          ok (set_fields content pinned a),
          update_one (λ x. x.id == a.id) (set_fields content pinned) c,
        )
  unfolding update_announcement update
  update_announcement_edits object_id class_id announcement_id user members rep content pinned a c
        may known found some_field =
      ground (arith, edited_found content pinned a c found)
