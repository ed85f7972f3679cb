-- ===== src/Classes/Lists.antt =====
-- The reads of `ClassService`: a class by its id, the classes of a user with the user's role in each,
-- and the members of a class.
use thesdel.Base.{
  ℕ, ◌≡◌, refl, ap, ◌∙◌, ◌≢◌, inl, inr, Bool, true, Option, none, some, String, List, [], ◌∷◌, ◌==◌,
  any, map, find, filter, if◌then◌else◌, ◌++◌, subst, IsKeyed, All, Any, arith, Bool-cases,
}
use mathlib.Core.Path.{ap₂}
use mathlib.Core.List.{append_assoc}
use thesdel.Base.Orders.{IsKeyed-filter}
use thesdel.Errors.{AppError, Result, ok, err}
use thesdel.Mongo.{Mongo}
use thesdel.Mongo.Owned.{find-filter}
use thesdel.Classes.{ClassDoc, Member, ClassDb}

pub record ClassPublicWithRole : Type 0 where
  pub id : ℕ
  pub name : String
  pub join_code : String
  pub member_count : ℕ
  pub created_by : ℕ
  pub role : String

abbrev pub with_role : ClassDoc → String → ClassPublicWithRole
with_role c role = record {
  id = c.id;
  name = c.name;
  join_code = c.join_code;
  member_count = c.member_count;
  created_by = c.created_by;
  role = role;
}

-- `{str(c["_id"]): c for c in classes}`: of two classes with one id the last.
unfoldable pub class_map : List ClassDoc → ℕ → Option ClassDoc
class_map [] id = none
class_map (c ∷ cs) id = elim (class_map cs id) [
  | some d ↦ some d
  | none ↦ if c.id == id then some c else none
]

abbrev pub add_result :
    Option ClassDoc → String → List ClassPublicWithRole → List ClassPublicWithRole
add_result none role rest = rest
add_result (some c) role rest = with_role c role ∷ rest

-- The loop over the memberships, by a look-up of classes.
abbrev pub results : (ℕ → Option ClassDoc) → List Member → List ClassPublicWithRole
results found [] = []
results found (m ∷ ms) = add_result (found m.class_id) m.role (results found ms)

module _ (mongo : Mongo) (upper : String → String) where
  open mongo use {docs, find_one, find_many, find_many_lem}

  unfoldable pub find_many_by_ids : List ℕ → ClassDb mongo upper → List ClassDoc
  find_many_by_ids ids s = find_many (λ c. any (λ i. c.id == i) ids) s.classes

  unfoldable pub list_memberships_for_user : ℕ → ClassDb mongo upper → List Member
  list_memberships_for_user user s = find_many (λ m. m.user_id == user) s.members

  unfoldable pub get_class : ℕ → ClassDb mongo upper → Result ClassDoc
  get_class id s = elim (find_one (λ c. c.id == id) s.classes) [
    | none ↦ err AppError.not_found
    | some c ↦ ok c
  ]

  unfoldable pub list_my_classes : ℕ → ClassDb mongo upper → List ClassPublicWithRole
  unfolding find_many_by_ids list_memberships_for_user class_map
  list_my_classes user s =
      let memberships = list_memberships_for_user user s in
      let classes = find_many_by_ids (map (λ m. m.class_id) memberships) s in
      results (class_map classes) memberships

  unfoldable pub list_member_user_ids : ℕ → ClassDb mongo upper → List ℕ
  list_member_user_ids class_id s =
      map (λ m. m.user_id) (find_many (λ m. m.class_id == class_id) s.members)

not_found :
    (id : ℕ) (c : ClassDoc) (cs : List ClassDoc)
    → (c.id == id) ≡ true
    → All (λ d. d.id ≢ c.id) cs
    → find (λ d. d.id == id) cs ≡ none
not_found id c [] e h = refl
not_found id c (d ∷ ds) e h = ground (arith, h.0, not_found id c ds e h.1)

class_map-find :
    (id : ℕ) (cs : List ClassDoc)
    → IsKeyed (λ c. c.id) cs
    → class_map cs id ≡ find (λ c. c.id == id) cs
unfolding class_map
class_map-find id [] keyed = refl
class_map-find id (c ∷ cs) keyed = elim (Bool-cases (c.id == id)) [
  | inl e ↦ rw (class_map-find id cs keyed.1 ∙ not_found id c cs e keyed.0, class_map, e) refl
  | inr e ↦ ground (arith, e, class_map-find id cs keyed.1)
]

listed : (id : ℕ) (ids : List ℕ) → Any (λ i. i ≡ id) ids → any (λ i. id == i) ids ≡ true
listed id [] h = elim h [ ]
listed id (i ∷ is) (inl e) = ground arith
listed id (i ∷ is) (inr h) = ground (arith, listed id is h)

passes :
    (id : ℕ) (ids : List ℕ)
    → any (λ i. id == i) ids ≡ true
    → (cs : List ClassDoc) → All (λ c. (c.id == id) ≡ true → any (λ i. c.id == i) ids ≡ true) cs
passes id ids h [] = tt
passes id ids h (c ∷ cs) = (
  (λ e. let same : c.id ≡ id = ground arith in ap (λ k. any (λ i. k == i) ids) same ∙ h),
  passes id ids h cs,
)

results-congr :
    (f g : ℕ → Option ClassDoc) (ms : List Member)
    → All (λ m. f m.class_id ≡ g m.class_id) ms
    → results f ms ≡ results g ms
results-congr f g [] h = refl
results-congr f g (m ∷ ms) h = ap₂ (λ o r. add_result o m.role r) h.0 (results-congr f g ms h.1)

-- Each class of the memberships is found in the query as it is in the collection.
all_found :
    (all ms : List Member) (cs : List ClassDoc)
    → IsKeyed (λ c. c.id) cs
    → All (λ m. any (λ i. m.class_id == i) (map (λ x. x.class_id) all) ≡ true) ms
    → All
        (λ m.
          class_map (filter (λ c. any (λ i. c.id == i) (map (λ x. x.class_id) all)) cs) m.class_id
          ≡ find (λ c. c.id == m.class_id) cs)
        ms
all_found all [] cs keyed h = tt
all_found all (m ∷ ms) cs keyed h =
    let ids = map (λ (x : Member). x.class_id) all in
    let asked : ClassDoc → Bool = λ c. any (λ i. c.id == i) ids in
    (
      class_map-find m.class_id (filter asked cs) (IsKeyed-filter (λ c. c.id) asked cs keyed)
          ∙ find-filter asked (λ c. c.id == m.class_id) cs (passes m.class_id ids h.0 cs),
      all_found all ms cs keyed h.1,
    )

all_listed :
    (before ms : List Member)
    → All (λ m. any (λ i. m.class_id == i) (map (λ x. x.class_id) (before ++ ms)) ≡ true) ms
all_listed before [] = tt
all_listed before (m ∷ ms) = (
  ground (arith, here before),
  subst (λ r. All (λ x. any (λ i. x.class_id == i) (map (λ y. y.class_id) r) ≡ true) ms)
      (append_assoc before (m ∷ []) ms) (all_listed (before ++ m ∷ []) ms),
)
  where
    here :
        (xs : List Member)
        → any (λ i. m.class_id == i) (map (λ x. x.class_id) (xs ++ m ∷ ms)) ≡ true
    here [] = ground arith
    here (x ∷ xs) = ground (arith, here xs)

module _ (mongo : Mongo) (upper : String → String) where
  open mongo use {docs, find_many_lem}

  -- Where no two classes have one id, the one query for all of a user's classes gives what a query
  -- for each membership would: each class that is there, in the order of the memberships, with the
  -- user's role in it.
  pub list_my_classes-results :
      (user : ℕ) (s : ClassDb mongo upper)
      → IsKeyed (λ c. c.id) (docs s.classes)
      → list_my_classes mongo upper user s
        ≡ results
            (λ id. find (λ c. c.id == id) (docs s.classes))
            (filter (λ m. m.user_id == user) (docs s.members))
  unfolding list_my_classes
  list_my_classes-results user s keyed =
      let mine = filter (λ (m : Member). m.user_id == user) (docs s.members) in
      let ids = map (λ (m : Member). m.class_id) mine in
      rw find_many_lem (
        rw find_many_lem (
          results-congr (class_map (filter (λ c. any (λ i. c.id == i) ids) (docs s.classes)))
            (λ id. find (λ c. c.id == id) (docs s.classes)) mine
            (all_found mine mine (docs s.classes) keyed (all_listed [] mine))))
