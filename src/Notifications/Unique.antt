-- ===== src/Notifications/Unique.antt =====
-- Lists of device tokens without two documents of one token.
use thesdel.Base.{
  ◌≡◌, refl, inl, inr, Bool, true, false, not, String, List, [], ◌∷◌, str_eq, eq_iff, arith, filter,
  All, Bool-cases, ap, ◌∙◌, sym, All-filter_keep, All-imp,
}
use thesdel.Base.Orders.{filter_all}
use thesdel.Mongo.{remove_first}
use thesdel.Notifications.{DeviceToken}

-- No two documents are of one token, as the unique index has it.
abbrev pub IsUnique : List DeviceToken → Type 0
IsUnique [] = Unit
IsUnique (d ∷ ds) = All (λ e. str_eq e.token d.token ≡ false) ds × IsUnique ds

abbrev pub has_token : String → DeviceToken → Bool
has_token t e = str_eq e.token t

pub keep_all : (xs : List DeviceToken) → filter (λ e. true) xs ≡ xs
keep_all xs = filter_all (λ e. true) xs (all_true xs)
  where
    all_true : (ys : List DeviceToken) → All (λ y. true ≡ true) ys
    all_true [] = tt
    all_true (y ∷ ys) = (refl, all_true ys)

pub str_eq-sym : (a b : String) → str_eq a b ≡ false → str_eq b a ≡ false
str_eq-sym a b h = elim (Bool-cases (str_eq b a)) [
  | inr e ↦ e
  | inl e ↦
      let same : str_eq a b ≡ true = (eq_iff a b).1 (sym ((eq_iff b a).0 e)) in
      absurd (ground arith)
]

pub remove-filter :
    (t : String) (xs : List DeviceToken)
    → IsUnique xs
    → remove_first (has_token t) xs ≡ filter (λ e. not (has_token t e)) xs
remove-filter t [] h = refl
remove-filter t (x ∷ xs) h = elim (Bool-cases (str_eq x.token t)) [
  | inr e ↦ rw e (ap (λ ys. x ∷ ys) (remove-filter t xs h.1))
  | inl e ↦
      let same : x.token ≡ t = (eq_iff x.token t).0 e in
      let others : All (λ y. not (has_token t y) ≡ true) xs =
        All-imp (λ y. str_eq y.token x.token ≡ false) (λ y. not (has_token t y) ≡ true)
          (λ y k. ap not (ap (str_eq y.token) (sym same) ∙ k)) xs h.0 in
      rw e (sym (filter_all (λ y. not (has_token t y)) xs others))
]

pub IsUnique-filter :
    (p : DeviceToken → Bool) (xs : List DeviceToken) → IsUnique xs → IsUnique (filter p xs)
IsUnique-filter p [] h = tt
IsUnique-filter p (x ∷ xs) h = elim (Bool-cases (p x)) [
  | inl e ↦
      rw e
        (All-filter_keep (λ y. str_eq y.token x.token ≡ false) p xs h.0, IsUnique-filter p xs h.1)
  | inr e ↦ rw e (IsUnique-filter p xs h.1)
]
