-- ===== src/Announcements/Feed.antt =====
-- The pages of the feed of a class: a client that follows the cursors.
use thesdel.Base.{
  ℕ, zero, suc, ◌<◌, ◌≡◌, refl, sym, ap, subst, ◌∙◌, ◌≢◌, inl, inr, true, ◌&&◌, Option, none, some,
  List, [], ◌∷◌, ◌++◌, IsKeyed, All, take, length, filter, ◌==◌, arith, Bool-cases,
}
use thesdel.Base.Sorting.{sort}
use thesdel.Base.Orders.{
  IsOrderedBy, StrictOrder, IsKeyed-filter, filter-filter, filter_all, filter-sort, filter-after,
  sort-IsOrderedBy,
}
use mathlib.Core.List.{append_assoc}
use thesdel.Errors.{AppError, Result, ok, err}
use thesdel.Mongo.{Mongo}
use thesdel.Time.{Text}
use thesdel.Announcements.{
  Announcement, AnnouncementPage, Codec, newer, is_before, is_unpinned, encode_cursor,
  decode_cursor, list_pinned, list_unpinned_page, next_cursor_of, list_feed,
}
use thesdel.Announcements.Pages.{IsFull, take-IsFull, take_short}
use thesdel.Announcements.Cursor.{decode_cursor-encode_cursor, encode_cursor_ne}

newer_order : StrictOrder newer (λ a. a.id)
newer_order = record {
  connected = λ x y k h. ground arith;
  asymmetric = λ x y h. ground arith;
  transitive = λ x y z h k. ground arith;
}

module _ (mongo : Mongo) (codec : Codec) (class_id n : ℕ) (c : mongo.Collection Announcement) where
  open mongo use {docs, find_sorted-sort}

  -- The unpinned announcements of the class, the newest first.
  abbrev pub unpinned_feed : List Announcement
  unpinned_feed = sort newer (filter (is_unpinned class_id) (docs c))

  abbrev pub more : List Announcement → Result (List Announcement) → Result (List Announcement)
  more items (err e) = err e
  more items (ok rest) = ok (items ++ rest)

  -- What a client makes of the answer, with what it makes of the next cursor.
  abbrev pub read_on :
      (Option Text → Result (List Announcement))
      → Result AnnouncementPage
      → Result (List Announcement)
  read_on next (err e) = err e
  read_on next (ok page) = elim page.next_cursor [
    | none ↦ ok page.items
    | some k ↦ more page.items (next (some k))
  ]

  -- A client that reads a page and follows its cursor, as long as it has fuel.
  unfoldable pub follow : ℕ → Option Text → Result (List Announcement)
  follow zero cursor = err AppError.service_unavailable
  follow (suc fuel) cursor =
      let next = λ (k : Option Text). follow fuel k in
      read_on next (list_feed mongo codec class_id cursor (suc n) c)

  -- What is left of the feed from a cursor's position on.
  IsLeft : Option (ℕ × ℕ) → List Announcement → Type 0
  IsLeft none ys = unpinned_feed ≡ ys
  IsLeft (some b) ys =
      (xs : List Announcement) × (l : Announcement) × (b ≡ (l.created_at, l.id))
      × (unpinned_feed ≡ (xs ++ l ∷ []) ++ ys)

  module _ (keyed : IsKeyed (λ a. a.id) (docs c)) where
    unpinned_ordered : IsOrderedBy newer unpinned_feed
    unpinned_ordered =
        sort-IsOrderedBy newer (λ a. a.id) newer_order (filter (is_unpinned class_id) (docs c))
          (IsKeyed-filter (λ a. a.id) (is_unpinned class_id) (docs c) keyed)

    -- The query of a page is a filter of the feed.
    page_query :
        (before : Option (ℕ × ℕ))
        → mongo.find_sorted newer (λ a. is_unpinned class_id a && is_before before a) c
          ≡ filter (is_before before) unpinned_feed
    page_query before =
        let chosen = filter (is_unpinned class_id) (docs c) in
        find_sorted-sort newer (λ a. a.id) (λ a. is_unpinned class_id a && is_before before a) c
          newer_order
          (IsKeyed-filter (λ a. a.id) (λ a. is_unpinned class_id a && is_before before a) (docs c)
            keyed)
        ∙ ap (sort newer) (sym (filter-filter (is_before before) (is_unpinned class_id) (docs c)))
        ∙ sym (
            filter-sort newer (λ a. a.id) newer_order (is_before before) chosen
              (IsKeyed-filter (λ a. a.id) (is_unpinned class_id) (docs c) keyed))

    everything : (xs : List Announcement) → All (λ a. is_before none a ≡ true) xs
    everything [] = tt
    everything (x ∷ xs) = (refl, everything xs)

    page_left :
        (before : Option (ℕ × ℕ)) (ys : List Announcement)
        → IsLeft before ys
        → list_unpinned_page mongo class_id before (suc n) c ≡ take (suc n) ys
    unfolding IsLeft list_unpinned_page
    page_left none ys h =
        ap (take (suc n)) (
          page_query none
          ∙ filter_all (is_before none) unpinned_feed (everything unpinned_feed)
          ∙ h)
    page_left (some b) ys (xs, l, at, split) =
        let here = split ∙ append_assoc xs (l ∷ []) ys in
        ap (take (suc n)) (
          page_query (some b)
          ∙ ap (λ q. filter (is_before (some q)) unpinned_feed) at
          ∙ ap (filter (newer l)) here
          ∙ filter-after newer (λ a. a.id) newer_order xs l ys
              (subst (IsOrderedBy newer) here unpinned_ordered))

    -- What is left behind a full page.
    IsLeft-behind :
        (pre ys : List Announcement) (f : IsFull n ys)
        → unpinned_feed ≡ pre ++ ys
        → IsLeft (some (f.last.created_at, f.last.id)) f.rest
    unfolding IsLeft
    IsLeft-behind pre ys f h = (
      pre ++ f.init,
      f.last,
      refl,
      h
          ∙ ap (λ r. pre ++ r) f.all
          ∙ sym (append_assoc pre f.init (f.last ∷ f.rest))
          ∙ sym (append_assoc (pre ++ f.init) (f.last ∷ []) f.rest),
    )

    -- How the client goes on behind a page: with `more`, if the page is full.
    abbrev go_on : ℕ → List Announcement → Option Text → Result (List Announcement)
    go_on fuel items none = ok items
    go_on fuel items (some next) = more items (follow fuel (some next))

    go_on_lem :
        (fuel : ℕ) (head pre ys : List Announcement)
        → unpinned_feed ≡ pre ++ ys
        → ((k : Text) (b : ℕ × ℕ) (zs : List Announcement)
            → k ≢ []
            → decode_cursor codec k ≡ some b
            → IsLeft (some b) zs
            → length zs < length ys
            → follow fuel (some k) ≡ ok zs)
        → go_on fuel
            (head ++ take (suc n) ys)
            (next_cursor_of mongo codec (suc n) (take (suc n) ys))
          ≡ ok (head ++ ys)
    unfolding next_cursor_of
    go_on_lem fuel head pre ys h ih = elim (Bool-cases (length (take (suc n) ys) == suc n)) [
      | inr short ↦
          let next : next_cursor_of mongo codec (suc n) (take (suc n) ys) ≡ none = rw short refl in
          ap (go_on fuel (head ++ take (suc n) ys)) next
          ∙ ap (λ r. ok (head ++ r)) (take_short (suc n) ys (ground arith))
      | inl full ↦
          let f = take-IsFull n ys (ground arith) in
          let rest =
            ih (encode_cursor codec f.last.created_at f.last.id) (f.last.created_at, f.last.id)
              f.rest (encode_cursor_ne codec f.last.created_at f.last.id)
              (decode_cursor-encode_cursor codec f.last.created_at f.last.id)
              (IsLeft-behind pre ys f h) f.shorter in
          let next : next_cursor_of mongo codec (suc n) (take (suc n) ys)
              ≡ some (encode_cursor codec f.last.created_at f.last.id) =
            rw (full, f.ends) refl in
          ap (go_on fuel (head ++ take (suc n) ys)) next
          ∙ ap (more (head ++ take (suc n) ys)) rest
          ∙ ap ok (
              append_assoc head (take (suc n) ys) f.rest
              ∙ ap (λ r. head ++ r)
                  (ap (λ r. r ++ f.rest) f.page
                    ∙ append_assoc f.init (f.last ∷ []) f.rest
                    ∙ sym f.all))
    ]

    before_rest :
        (b : ℕ × ℕ) (ys : List Announcement)
        → IsLeft (some b) ys
        → (pre : List Announcement) × (unpinned_feed ≡ pre ++ ys)
    unfolding IsLeft
    before_rest b ys (xs, l, at, split) = (xs ++ l ∷ [], split)

    all-IsLeft : IsLeft none unpinned_feed
    unfolding IsLeft
    all-IsLeft = refl

    feed_from :
        (k : ℕ) (ks : Text) (b : ℕ × ℕ)
        → decode_cursor codec (k ∷ ks) ≡ some b
        → list_feed mongo codec class_id (some (k ∷ ks)) (suc n) c
          ≡ ok (record {
            items = list_unpinned_page mongo class_id (some b) (suc n) c;
            next_cursor =
                next_cursor_of mongo codec
                  (suc n)
                  (list_unpinned_page mongo class_id (some b) (suc n) c);
          })
    unfolding list_feed
    feed_from k ks b e = ground (arith, e)

    follow_rest :
        (fuel : ℕ) (k : Text) (b : ℕ × ℕ) (ys : List Announcement)
        → k ≢ []
        → decode_cursor codec k ≡ some b
        → IsLeft (some b) ys
        → length ys < fuel
        → follow fuel (some k) ≡ ok ys
    unfolding follow
    follow_rest zero k b ys ne e h m = absurd (omega arith)
    follow_rest (suc fuel) [] b ys ne e h m = absurd (ne refl)
    follow_rest (suc fuel) (k ∷ ks) b ys ne e h m =
        let page = list_unpinned_page mongo class_id (some b) (suc n) c in
        let step : follow (suc fuel) (some (k ∷ ks))
            ≡ go_on fuel page (next_cursor_of mongo codec (suc n) page) =
          ap (read_on (λ k'. follow fuel k')) (feed_from k ks b e) in
        step
        ∙ ap (λ p. go_on fuel p (next_cursor_of mongo codec (suc n) p)) (page_left (some b) ys h)
        ∙ go_on_lem fuel [] (before_rest b ys h).0 ys (before_rest b ys h).1
            (λ k' b' zs ne' e' h' lt. follow_rest fuel k' b' zs ne' e' h' (omega (arith, m, lt)))

    -- Where no two announcements have one id, a client that follows the cursors from the first page
    -- on, with more fuel than there are unpinned announcements, ends with all of the class's: the
    -- pinned ones, then each unpinned one once, the newest first.
    pub follow_all :
        (fuel : ℕ)
        → length unpinned_feed < fuel
        → follow fuel none ≡ ok (list_pinned mongo class_id c ++ unpinned_feed)
    unfolding follow list_feed
    follow_all zero h = absurd (omega arith)
    follow_all (suc fuel) h =
        let page = list_unpinned_page mongo class_id none (suc n) c in
        let pinned = list_pinned mongo class_id c in
        let step : follow (suc fuel) none
            ≡ go_on fuel (pinned ++ page) (next_cursor_of mongo codec (suc n) page) =
          refl in
        step
        ∙ ap (λ p. go_on fuel (pinned ++ p) (next_cursor_of mongo codec (suc n) p))
            (page_left none unpinned_feed all-IsLeft)
        ∙ go_on_lem fuel pinned [] unpinned_feed refl
            (λ k' b' zs ne' e' h' lt. follow_rest fuel k' b' zs ne' e' h' (omega (arith, h, lt)))
