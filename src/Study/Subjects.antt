-- ===== src/Study/Subjects.antt =====
-- app/litheral/study/service.py: the subjects that a plan is for. The subjects of the request come
-- first; without any, those of the timetable are taken, each once.
use thesdel.Base.{
  ◌≡◌, refl, inl, inr, Bool, true, false, not, ◌&&◌, none, String, List, [], ◌∷◌, any, map,
  if◌then◌else◌, str_eq, eq_iff, arith, Bool-cases, ap, sym, subst, ◌∙◌,
}
use thesdel.Study.Defs.{SubjectInput}

-- The keys of `seen`, from those seen so far on, in the order in which they are first seen.
unfoldable pub first_seen : List String → List String → List String
first_seen seen [] = []
first_seen seen (x ∷ xs) =
    let known = first_seen seen xs in
    let fresh = first_seen (x ∷ seen) xs in if any (str_eq x) seen then known else x ∷ fresh

abbrev pub without_exam : String → SubjectInput
without_exam subject = record { subject = subject; priority = none; exam_date = none }

-- `_resolve_subjects`, for the subjects of the request and of the timetable's entries.
unfoldable pub resolve_subjects : List SubjectInput → List String → List SubjectInput
unfolding first_seen
resolve_subjects (s ∷ ss) entries = s ∷ ss
resolve_subjects [] entries = map without_exam (first_seen [] entries)

-- Each text stands once in the list.
abbrev pub IsDistinct : List String → Type 0
IsDistinct [] = Unit
IsDistinct (x ∷ xs) = (any (str_eq x) xs ≡ false) × IsDistinct xs

any-first_seen :
    (t : String) (seen xs : List String)
    → any (str_eq t) (first_seen seen xs) ≡ (any (str_eq t) xs && not (any (str_eq t) seen))
unfolding first_seen
any-first_seen t seen [] = refl
any-first_seen t seen (x ∷ xs) =
    let known = any-first_seen t seen xs in
    let fresh = any-first_seen t (x ∷ seen) xs in
    elim (Bool-cases (str_eq t x)) [
      | inl e ↦
          let same : any (str_eq t) seen ≡ any (str_eq x) seen =
            ap (λ y. any (str_eq y) seen) ((eq_iff t x).0 e) in
          elim (Bool-cases (any (str_eq x) seen)) [
            | inl old ↦ ground (arith, known, same)
            | inr new ↦ ground (arith, fresh, same)
          ]
      | inr e ↦ elim (Bool-cases (any (str_eq x) seen)) [
        | inl old ↦ ground (arith, known)
        | inr new ↦ ground (arith, fresh)
      ]
    ]

first_seen-IsDistinct : (seen xs : List String) → IsDistinct (first_seen seen xs)
unfolding first_seen
first_seen-IsDistinct seen [] = tt
first_seen-IsDistinct seen (x ∷ xs) = elim (Bool-cases (any (str_eq x) seen)) [
  | inl old ↦ rw old (first_seen-IsDistinct seen xs)
  | inr new ↦ rw new (
    ground (arith, any-first_seen x (x ∷ seen) xs, (eq_iff x x).1 refl),
    first_seen-IsDistinct (x ∷ seen) xs,
  )
]

and_true : (b : Bool) → (b && true) ≡ b
and_true true = refl
and_true false = refl

map_subject : (xs : List String) → map (λ s. s.subject) (map without_exam xs) ≡ xs
map_subject [] = refl
map_subject (x ∷ xs) = ap (λ ys. x ∷ ys) (map_subject xs)

-- Without subjects in the request, a plan is for the subjects of the timetable, each of them once
-- and no other.
pub resolve_subjects-IsDistinct :
    (entries : List String) (t : String)
    → let subjects = map (λ s. s.subject) (resolve_subjects [] entries) in
      IsDistinct subjects × (any (str_eq t) subjects ≡ any (str_eq t) entries)
unfolding resolve_subjects
resolve_subjects-IsDistinct entries t =
    let names = first_seen [] entries in
    (
      subst IsDistinct (sym (map_subject names)) (first_seen-IsDistinct [] entries),
      ap (any (str_eq t)) (map_subject names)
          ∙ any-first_seen t [] entries
          ∙ and_true (any (str_eq t) entries),
    )
