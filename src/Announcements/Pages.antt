-- ===== src/Announcements/Pages.antt =====
-- Pages of a list: what a full page, and a page that is not full, tell of what follows.
use thesdel.Base.{
  ℕ, zero, suc, ◌<◌, ◌≡◌, refl, ap, ◌≢◌, some, List, [], ◌∷◌, ◌++◌, take, last?, length, arith,
}

-- A page that is full ends with an element, and the rest of the list follows it.
pub record IsFull {A : Type 0} (n : ℕ) (ys : List A) : Type 0 where
  pub init : List A
  pub last : A
  pub rest : List A
  pub page : take (suc n) ys ≡ init ++ last ∷ []
  pub ends : last? (take (suc n) ys) ≡ some last
  pub all : ys ≡ init ++ last ∷ rest
  pub shorter : length rest < length ys

pub take-IsFull :
    {A : Type 0} (n : ℕ) (ys : List A) → length (take (suc n) ys) ≡ suc n → IsFull n ys
take-IsFull n [] h = absurd (omega arith)
take-IsFull zero (y ∷ ys) h = record {
  init = [];
  last = y;
  rest = ys;
  page = refl;
  ends = refl;
  all = refl;
  shorter = omega arith;
}
take-IsFull (suc n) (y ∷ []) h = absurd (omega arith)
take-IsFull (suc n) (y ∷ z ∷ ys) h =
    let f = take-IsFull n (z ∷ ys) (omega arith) in
    record {
      init = y ∷ f.init;
      last = f.last;
      rest = f.rest;
      page = ap (λ r. y ∷ r) f.page;
      ends = f.ends;
      all = ap (λ r. y ∷ r) f.all;
      shorter = omega (arith, f.shorter);
    }

pub take_short {ℓ} : {A : Type ℓ} (n : ℕ) (ys : List A) → length (take n ys) ≢ n → take n ys ≡ ys
take_short zero ys h = absurd (h (omega arith))
take_short (suc n) [] h = refl
take_short (suc n) (y ∷ ys) h = ap (λ r. y ∷ r) (take_short n ys (λ e. h (omega (arith, e))))
