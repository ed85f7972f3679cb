-- ===== src/Tests/Boards.antt =====
-- The announcements of a small class.
use thesdel.Base.{
  ℕ, zero, suc, ◌≡◌, refl, false, true, ap, Option, none, some, String, List, [], ◌∷◌, ◌++◌, any,
  ◌==◌, length, if◌then◌else◌, str_eq, arith, IsKeyed,
}
use thesdel.Base.Sorting.{sort}
use thesdel.Errors.{ok}
use thesdel.Mongo.{in_memory, update_first}
use thesdel.Redis.{no_keys, live_redis}
use thesdel.Time.{Text}
use thesdel.Access.{CurrentUser, Membership, class_rep, require_class_membership, require_class_rep}
use thesdel.Announcements.{
  Announcement, Codec, encode_cursor, decode_cursor, list_pinned, set_fields, update_announcement,
}
use thesdel.Announcements.Cursor.{decode_cursor-encode_cursor}
use thesdel.Announcements.Feed.{unpinned_feed, follow, follow_all}
use thesdel.Announcements.Post.{BoardDb, Posts, post_announcement, post_announcement-Posts}
use thesdel.Notifications.{announcement_new, notify_announcement_posted, dedup_or_skip}
use thesdel.RateLimit.{over_limit}
use thesdel.Announcements.Routes.{update_announcement_edits}

-- A codec in which a number is a row of zeros and base64 does nothing.
abbrev zeros : ℕ → Text
zeros zero = []
zeros (suc n) = 48 ∷ zeros n

length-zeros : (n : ℕ) → length (zeros n) ≡ n
length-zeros zero = refl
length-zeros (suc n) = ap suc (length-zeros n)

no_bar : (n : ℕ) → any (λ c. c == 124) (zeros n) ≡ false
no_bar zero = refl
no_bar (suc n) = no_bar n

abbrev codec : Codec
codec = record {
  isoformat = zeros;
  fromisoformat = λ t. some (length t);
  id_text = zeros;
  object_id = λ t. some (length t);
  urlsafe_b64encode = λ t. t;
  urlsafe_b64decode = λ t. some t;
  fromisoformat-isoformat = λ t. ap some (length-zeros t);
  isoformat_bar = no_bar;
  object_id-id_text = λ i. ap some (length-zeros i);
  b64decode-b64encode = λ t. refl;
  b64decode_empty = refl;
}

cursor_read_back : decode_cursor codec (encode_cursor codec 9 4) ≡ some (9, 4)
cursor_read_back = decode_cursor-encode_cursor codec 9 4

abbrev news : Announcement
news = record {
  id = 1;
  class_id = 3;
  posted_by = 7;
  content = "Exam on Friday";
  pinned = false;
  created_at = 9;
}

abbrev older : Announcement
older = record news { id = 2; content = "Welcome"; created_at = 5 }

abbrev rules : Announcement
rules = record news { id = 4; content = "Rules"; pinned = true }

abbrev board : List Announcement
board = older ∷ news ∷ rules ∷ []

board-IsKeyed : IsKeyed (λ a. a.id) board
board-IsKeyed =
    (((λ e. omega arith), ((λ e. omega arith), tt)), (((λ e. omega arith), tt), (tt, tt)))

-- Pages of one announcement.
follow_all_example :
    follow in_memory codec 3 0 board 3 none
    ≡ ok (list_pinned in_memory 3 board ++ unpinned_feed in_memory codec 3 0 board)
unfolding sort
follow_all_example = follow_all in_memory codec 3 0 board board-IsKeyed 3 (omega arith)

abbrev object_id : String → Option ℕ
object_id t = if str_eq t "c5" then some 5 else if str_eq t "a1" then some 1 else none

abbrev eve : CurrentUser
eve = record { id = 6; tier = "free"; email = "eve@x.org"; display_name = "Eve" }

abbrev rep : Membership
rep = record { class_id = 5; user_id = 6; role = "rep" }

rep_passes : class_rep in_memory object_id "c5" eve (rep ∷ []) ≡ ok rep
unfolding class_rep require_class_membership require_class_rep
rep_passes = refl

-- A rep of class 5 edits an announcement of class 3.
update_announcement_edits_example :
    update_announcement in_memory object_id "c5" eve (rep ∷ []) "a1" (some "Hello") none board ≡ (
      ok (set_fields (some "Hello") none news),
      update_first (λ x. x.id == 1) (set_fields (some "Hello") none) board,
    )
update_announcement_edits_example =
    update_announcement_edits in_memory object_id "c5" "a1" eve (rep ∷ []) rep (some "Hello") none
      news board rep_passes refl refl refl

abbrev crew : List Membership
crew = rep ∷ record rep { user_id = 8; role = "member" } ∷ []

abbrev site_board : BoardDb in_memory live_redis (λ t. t) object_id
site_board = record {
  classes = record { classes = []; members = crew };
  board = record { announcements = board; triggers = record { guards = no_keys; queue = [] } };
}

post_announcement-Posts_example :
    Posts in_memory live_redis
      (λ t. t)
      object_id
      true
      100
      60
      9
      1000
      "Hello"
      site_board
      (class_rep in_memory object_id "c5" eve crew)
      (post_announcement in_memory live_redis
        (λ t. t)
        object_id
        100
        60
        true
        9
        1000
        "c5"
        eve
        "Hello"
        site_board)
post_announcement-Posts_example =
    post_announcement-Posts in_memory live_redis (λ t. t) object_id true 100 60 9 1000 "Hello"
      site_board "c5" eve

-- The other member is told, the rep is not.
pushed :
    ((((post_announcement in_memory live_redis
      (λ t. t)
      object_id
      100
      60
      true
      9
      1000
      "c5"
      eve
      "Hello"
      site_board).1
    ).board).triggers).queue
    ≡ record { user_id = 8; kind = announcement_new 5 9 false } ∷ []
unfolding post_announcement class_rep require_class_membership require_class_rep over_limit
    notify_announcement_posted dedup_or_skip
pushed = refl
