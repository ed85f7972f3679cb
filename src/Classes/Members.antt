-- ===== src/Classes/Members.antt =====
-- Joining a class: idempotent, and the counter of members follows the list of members.
use thesdel.Base.{
  IsKeyed, ℕ, ◌+◌, ◌≡◌, ◌≢◌, inl, inr, Bool, true, false, none, some, String, List, [], ◌∷◌, ◌++◌,
  ◌==◌, if◌then◌else◌, any, filter, length, arith, All, Bool-cases, Option-cases, by_value, sym,
  ◌∙◌, subst,
}
use thesdel.Mongo.{Mongo, update_first}
use thesdel.Mongo.Laws.{any_of_find}
use thesdel.Classes.{
  ClassDoc, Member, ClassDb, is_member, one_more, find_by_join_code, find_member, do_join,
  join_found, join_class,
}

-- How many members of the class the list has.
abbrev pub members_of : ℕ → List Member → ℕ
members_of class_id ms = length (filter (λ m. m.class_id == class_id) ms)

members_of-append :
    (class_id : ℕ) (ms : List Member) (m : Member)
    → members_of class_id (ms ++ m ∷ [])
      ≡ members_of class_id ms + (if m.class_id == class_id then 1 else 0)
members_of-append class_id [] m = ground arith
members_of-append class_id (x ∷ xs) m = ground (arith, members_of-append class_id xs m)

-- Every class counts the members that the list has.
abbrev pub Counts : List ClassDoc → List Member → Type 0
Counts cs ms = All (λ c. c.member_count ≡ members_of c.id ms) cs

abbrev joined : ℕ → ℕ → String → Member
joined class_id user role = record { class_id = class_id; user_id = user; role = role }

Counts-others :
    (class_id user : ℕ) (role : String) (cs : List ClassDoc) (ms : List Member)
    → All (λ c. c.id ≢ class_id) cs
    → Counts cs ms
    → Counts cs (ms ++ joined class_id user role ∷ [])
Counts-others class_id user role [] ms ne h = tt
Counts-others class_id user role (c ∷ cs) ms ne h = (
  ground (arith, h.0, ne.0, members_of-append c.id ms (joined class_id user role)),
  Counts-others class_id user role cs ms ne.1 h.1,
)

Counts-join :
    (class_id user : ℕ) (role : String) (cs : List ClassDoc) (ms : List Member)
    → IsKeyed (λ c. c.id) cs
    → Counts cs ms
    → Counts
        (update_first (λ c. c.id == class_id) one_more cs)
        (ms ++ joined class_id user role ∷ [])
Counts-join class_id user role [] ms keyed h = tt
Counts-join class_id user role (c ∷ cs) ms keyed h =
    let count = members_of-append c.id ms (joined class_id user role) in
    elim (Bool-cases (c.id == class_id)) [
      | inl e ↦
          let same : c.id ≡ class_id = ground arith in
          rw e (
            ground (arith, h.0, count),
            Counts-others class_id user role cs ms
                (subst (λ (i : ℕ). All (λ d. d.id ≢ i) cs) same keyed.0) h.1,
          )
      | inr e ↦ rw e (ground (arith, h.0, count), Counts-join class_id user role cs ms keyed.1 h.1)
    ]

module _ (mongo : Mongo) (upper : String → String) where
  open mongo use {
    docs, find_one, find_one_lem, insert_one, update_one, docs-insert_one, docs-update_one,
    insert_unique-fresh,
  }

  -- The member counters of the database are right.
  abbrev pub IsCounted : ClassDb mongo upper → Type 0
  IsCounted s = Counts (docs s.classes) (docs s.members)

  find_member-any :
      (class_id user : ℕ) (s : ClassDb mongo upper)
      → find_member mongo upper class_id user s ≡ none
      → any (is_member class_id user) (docs s.members) ≡ false
  unfolding find_member
  find_member-any class_id user s h =
      any_of_find (is_member class_id user) (docs s.members)
        (sym (find_one_lem (is_member class_id user) s.members) ∙ h)

  abbrev after_join : ℕ → ℕ → ClassDb mongo upper → ClassDb mongo upper
  after_join class_id user s = record {
    classes = update_one (λ c. c.id == class_id) one_more s.classes;
    members = insert_one (joined class_id user "member") s.members;
  }

  do_join_fresh :
      (class_id user : ℕ) (s : ClassDb mongo upper)
      → find_member mongo upper class_id user s ≡ none
      → do_join mongo upper class_id user s ≡ some (after_join class_id user s)
  unfolding do_join
  do_join_fresh class_id user s h =
      let fresh =
        insert_unique-fresh (is_member class_id user) (joined class_id user "member") s.members
          (find_member-any class_id user s h) in
      ground arith

  after_join-IsCounted :
      (class_id user : ℕ) (s : ClassDb mongo upper)
      → IsKeyed (λ c. c.id) (docs s.classes)
      → IsCounted s
      → IsCounted (after_join class_id user s)
  after_join-IsCounted class_id user s keyed h =
      rw (docs-update_one, docs-insert_one)
        (Counts-join class_id user "member" (docs s.classes) (docs s.members) keyed h)

  join_found-IsCounted :
      (aborts : Bool) (c : ClassDoc) (user : ℕ) (s : ClassDb mongo upper)
      → IsKeyed (λ c. c.id) (docs s.classes)
      → IsCounted s
      → IsCounted (join_found mongo upper aborts c user s).1
  unfolding join_found
  join_found-IsCounted true c user s keyed h =
      by_value IsCounted {x = (join_found mongo upper true c user s).1} {y = s} (ground arith) h
  join_found-IsCounted false c user s keyed h =
      elim (Option-cases (find_member mongo upper c.id user s)) [
        | inr (m, found) ↦
            by_value IsCounted {x = (join_found mongo upper false c user s).1} {y = s}
              (ground arith) h
        | inl missing ↦
            by_value IsCounted {x = (join_found mongo upper false c user s).1}
              {y = after_join c.id user s} (ground (arith, do_join_fresh c.id user s missing))
              (after_join-IsCounted c.id user s keyed h)
      ]

  -- Where no two classes have one id, a join keeps every class's counter of members equal to the
  -- number of its members, whether it joins, finds the user there already, finds no class or is
  -- rolled back.
  pub join_class-IsCounted :
      (aborts : Bool) (join_code : String) (user : ℕ) (s : ClassDb mongo upper)
      → IsKeyed (λ c. c.id) (docs s.classes)
      → IsCounted s
      → IsCounted (join_class mongo upper aborts join_code user s).1
  unfolding join_class
  join_class-IsCounted aborts join_code user s keyed h =
      elim (Option-cases (find_by_join_code mongo upper (upper join_code) s)) [
        | inl missing ↦
            by_value IsCounted {x = (join_class mongo upper aborts join_code user s).1} {y = s}
              (ground arith) h
        | inr (c, found) ↦
            by_value IsCounted {x = (join_class mongo upper aborts join_code user s).1}
              {y = (join_found mongo upper aborts c user s).1} (ground arith)
              (join_found-IsCounted aborts c user s keyed h)
      ]
