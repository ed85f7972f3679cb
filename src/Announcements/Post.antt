-- ===== src/Announcements/Post.antt =====
-- app/announcements/router.py: the routes that read and post, through their gates. Redis holds the
-- limiter's counters and the guards of the pushes.
use thesdel.Base.{
  ℕ, ◌<◌, ◌≡◌, refl, ap, ◌∙◌, Bool, true, false, ◌&&◌, Option, String, List, [], ◌∷◌, ◌++◌, ◌==◌,
  map, filter, if◌then◌else◌,
}
use mathlib.Core.Path.{ap₂}
use thesdel.Errors.{Result, ok, err, Call}
use thesdel.Mongo.{Mongo}
use thesdel.Redis.{Redis, post_limiter, notif_dedup}
use thesdel.RateLimit.{check_rate_limit, check_rate_limit_counts}
use thesdel.Time.{Text}
use thesdel.Access.{CurrentUser, Membership, class_rep, require_class_membership}
use thesdel.Classes.{ClassDb, Member}
use thesdel.Classes.Lists.{list_member_user_ids}
use thesdel.Notifications.{Push, announcement_new, dedup_or_skip, dedup_ttl_seconds}
use thesdel.Notifications.Pushes.{pushes_to, notify_announcement_posted_lem}
use thesdel.Announcements.{
  Announcement, AnnouncementPage, AnnouncementDb, Codec, list_feed, post, new_announcement,
}

abbrev pub default_page_size : ℕ
default_page_size = 20

module _ (mongo : Mongo) (redis : Redis) (upper : String → String)
    (object_id : String → Option ℕ) where
  open mongo use {Collection, docs, find_many_lem, docs-insert_one}
  open redis use {count}

  pub record BoardDb : Type 0 where
    pub classes : ClassDb mongo upper
    pub board : AnnouncementDb mongo redis

  unfoldable pub list_announcements :
      Codec → String → CurrentUser → Option Text → BoardDb → Result AnnouncementPage
  unfolding list_feed
  list_announcements codec class_id user cursor s =
      elim (require_class_membership mongo object_id class_id user (s.classes).members) [
        | err e ↦ err e
        | ok m ↦ list_feed mongo codec m.class_id cursor default_page_size (s.board).announcements
      ]

  -- The keys behind the limiter.
  abbrev pub with_keys : redis.Db → BoardDb → BoardDb
  with_keys d s =
      let b = s.board in
      let t = b.triggers in record s { board = record b { triggers = record t { guards = d } } }

  -- Behind the limiter: the service's `post`, with the members that it reads.
  unfoldable pub post_as : Bool → ℕ → ℕ → ℕ → ℕ → String → Call BoardDb Announcement
  unfolding post list_member_user_ids
  post_as queue_up id now class_id posted_by content s =
      let (answer, b) =
        post mongo redis queue_up id now class_id posted_by content
          (list_member_user_ids mongo upper class_id s.classes) s.board in
      (answer, record s { board = b })

  unfoldable pub post_announcement :
      ℕ → ℕ → Bool → ℕ → ℕ → String → CurrentUser → String → Call BoardDb Announcement
  unfolding check_rate_limit post_as
  post_announcement default_max default_window queue_up id now class_id user content s =
      elim (class_rep mongo object_id class_id user (s.classes).members) [
        | err e ↦ (err e, s)
        | ok rep ↦
            let (passed, d) =
              check_rate_limit redis (post_limiter rep.user_id) default_max default_window true
                ((s.board).triggers).guards in
            elim passed [
              | err e ↦ (err e, with_keys d s)
              | ok done ↦ post_as queue_up id now rep.class_id rep.user_id content (with_keys d s)
            ]
      ]

  -- The members of a class, in the collection's order.
  abbrev pub members_of : ℕ → BoardDb → List ℕ
  members_of class_id s =
      map (λ m. m.user_id) (filter (λ m. m.class_id == class_id) (docs (s.classes).members))

  abbrev pub queue_of : BoardDb → List Push
  queue_of s = ((s.board).triggers).queue

  abbrev pub board_of : BoardDb → List Announcement
  board_of s = docs (s.board).announcements

  module _ (queue_up : Bool) (default_max default_window id now : ℕ) (content : String)
      (s : BoardDb) where
    -- The limiter's answer to the rep, and the keys behind it.
    abbrev pub limiter_for : Membership → Result (Unit {0}) × redis.Db
    limiter_for rep =
        check_rate_limit redis (post_limiter rep.user_id) default_max default_window true
          ((s.board).triggers).guards

    abbrev pub posts_of : ℕ → ℕ
    posts_of user_id = count (post_limiter user_id) ((s.board).triggers).guards

    -- What a call has done, by the gate's answer and its own.
    abbrev pub Posts : Result Membership → Result Announcement × BoardDb → Type 0
    Posts (err e) out = out ≡ (err e, s)
    Posts (ok rep) (err e, t) =
        (t.classes ≡ s.classes) × (board_of t ≡ board_of s) × (queue_of t ≡ queue_of s)
    Posts (ok rep) (ok a, t) =
        (a ≡ new_announcement mongo id now rep.class_id rep.user_id content)
        × (posts_of rep.user_id < default_max)
        × (t.classes ≡ s.classes)
        × (board_of t ≡ board_of s ++ a ∷ [])
        × (queue_of t ≡ (
            if queue_up
              && (dedup_or_skip redis (notif_dedup "announcement_new" id) dedup_ttl_seconds
                  (limiter_for rep).1).0
            then queue_of s
              ++ pushes_to (announcement_new rep.class_id id false) rep.user_id
                  (members_of rep.class_id s)
            else queue_of s))

    limited-Posts :
        (rep : Membership) (passed : Result (Unit {0})) (d : redis.Db)
        → (passed, d) ≡ limiter_for rep
        → (passed ≡ ok tt → posts_of rep.user_id < default_max)
        → Posts (ok rep) (elim passed [
          | err e ↦ (err e, with_keys d s)
          | ok done ↦ post_as queue_up id now rep.class_id rep.user_id content (with_keys d s)
        ])
    unfolding post_as post list_member_user_ids
    limited-Posts rep (err e) d same few = (refl, refl, refl)
    limited-Posts rep (ok done) d same few =
        let a = new_announcement mongo id now rep.class_id rep.user_id content in
        let guards : d ≡ (limiter_for rep).1 =
          ap (λ (o : Result (Unit {0}) × redis.Db). o.1) same in
        (
          refl,
          few refl,
          refl,
          docs-insert_one a (s.board).announcements,
          notify_announcement_posted_lem redis queue_up rep.class_id id rep.user_id
                (list_member_user_ids mongo upper rep.class_id s.classes) false
                (record { guards = d; queue = queue_of s })
              ∙ ap₂
                  (λ (g : redis.Db) (ms : List ℕ).
                    if queue_up
                      && (dedup_or_skip redis (notif_dedup "announcement_new" id) dedup_ttl_seconds
                          g).0
                    then queue_of s
                      ++ pushes_to (announcement_new rep.class_id id false) rep.user_id ms
                    else queue_of s)
                  guards
                  (ap (map (λ (m : Member). m.user_id))
                    (find_many_lem (λ m. m.class_id == rep.class_id) (s.classes).members)),
        )

    -- A post by one who is no rep of the path's class answers with the gate's error and changes
    -- nothing. One by a rep that fails leaves the announcements and the queue. One that succeeds was
    -- below the limit; it adds the announcement, in the rep's name, to the class of the membership,
    -- whether the queue is up or not. With the queue up it pushes the announcement to each other member
    -- of that class, if its guard lets it; otherwise it pushes nothing.
    pub post_announcement-Posts :
        (class_id : String) (user : CurrentUser)
        → Posts
            (class_rep mongo object_id class_id user (s.classes).members)
            (post_announcement default_max default_window queue_up id now class_id user content s)
    unfolding post_announcement
    post_announcement-Posts class_id user =
        by_gate (class_rep mongo object_id class_id user (s.classes).members)
      where
        by_gate :
            (gate : Result Membership)
            → Posts gate (elim gate [
              | err e ↦ (err e, s)
              | ok rep ↦ elim (limiter_for rep).0 [
                | err e ↦ (err e, with_keys (limiter_for rep).1 s)
                | ok done ↦
                    post_as queue_up id now rep.class_id rep.user_id content
                      (with_keys (limiter_for rep).1 s)
              ]
            ])
        by_gate (err e) = refl
        by_gate (ok rep) = limited-Posts rep (limiter_for rep).0 (limiter_for rep).1 refl (λ h.
            (check_rate_limit_counts redis (post_limiter rep.user_id) default_max default_window
              ((s.board).triggers).guards h).0)
