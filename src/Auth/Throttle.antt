-- ===== src/Auth/Throttle.antt =====
-- What the limiters of the auth routes let through.
use thesdel.Base.{
  ℕ, suc, ◌-◌, ◌≤◌, ◌<◌, ◌≡◌, refl, ap, ◌∙◌, ◌⊎◌, inl, inr, true, Option, String, List, [], ◌∷◌,
  length, arith,
}
use thesdel.Errors.{Result, ok, err}
use thesdel.Mongo.{Mongo}
use thesdel.Redis.{Redis, auth_limiter}
use thesdel.RateLimit.{check_rate_limit, check_rate_limit_counts, check_rate_limit_grows}
use thesdel.Auth.Data.{AuthConfig}
use thesdel.Auth.Store.{AuthDb}
use thesdel.Auth.Routes.{RateSettings, SiteDb, given_or, rate_limit_auth_endpoint, limited}

-- The first list is the second with some elements left out.
pub data IsPart {A : Type 0} : List A → List A → Type 0 where
  none_left : IsPart [] []
  left_out : {xs ys : List A} (y : A) → IsPart xs ys → IsPart xs (y ∷ ys)
  kept : {xs ys : List A} (y : A) → IsPart xs ys → IsPart (y ∷ xs) (y ∷ ys)

module _ (mongo : Mongo) (redis : Redis) (config : AuthConfig) (settings : RateSettings) where
  open redis use {Db, count}

  abbrev pub Service : Type 0 → Type 0
  Service A = AuthDb mongo → Result A × AuthDb mongo

  abbrev pub run_all : {A : Type 0} → List (Service A) → AuthDb mongo → AuthDb mongo
  run_all [] a = a
  run_all (f ∷ fs) a = run_all fs (f a).1

  module _ (client_ip bucket : String) (max_requests window_seconds : Option ℕ) where
    abbrev pub most : ℕ
    most = given_or max_requests settings.rate_limit_login_max

    abbrev pub counted : SiteDb mongo redis config settings → ℕ
    counted s = count (auth_limiter bucket client_ip) s.keys

    -- A row of requests to the bucket from the address.
    abbrev pub after :
        {A : Type 0}
        → List (Service A)
        → SiteDb mongo redis config settings
        → SiteDb mongo redis config settings
    after [] s = s
    after (f ∷ fs) s =
        after fs
          (limited mongo redis config settings client_ip bucket max_requests window_seconds f s).1

    -- The accounts are left as by a part of the services, of at most what the limit leaves.
    pub record IsLimited {A : Type 0} (fs : List (Service A))
        (s t : SiteDb mongo redis config settings) : Type 0 where
      pub ran : List (Service A)
      pub part : IsPart ran fs
      pub few : length ran ≤ most - counted s
      pub left : t.accounts ≡ run_all ran s.accounts

    -- A request is refused and leaves the accounts, or is counted below the limit and served.
    abbrev Step :
        {A : Type 0}
        → Service A
        → SiteDb mongo redis config settings
        → SiteDb mongo redis config settings
        → Type 0
    Step f s t =
        ((t.accounts ≡ s.accounts) × (counted s ≤ counted t))
        ⊎ ((t.accounts ≡ (f s.accounts).1) × (counted s < most) × (counted t ≡ suc (counted s)))

    limited-Step :
        {A : Type 0} (f : Service A) (s : SiteDb mongo redis config settings)
        → Step f s
            (limited mongo redis config settings client_ip bucket max_requests window_seconds f s).1
    unfolding limited rate_limit_auth_endpoint
    limited-Step {A} f s =
        let key = auth_limiter bucket client_ip in
        let window = given_or window_seconds settings.rate_limit_login_window_seconds in
        by_answer (check_rate_limit redis key most window true s.keys)
          (check_rate_limit_grows redis key most window s.keys)
          (λ h. check_rate_limit_counts redis key most window s.keys h)
      where
        by_answer :
            (out : Result (Unit {0}) × Db)
            → counted s ≤ count (auth_limiter bucket client_ip) out.1
            → (out.0 ≡ ok tt
                → (counted s < most)
                  × (count (auth_limiter bucket client_ip) out.1 ≡ suc (counted s)))
            → Step f s
                (elim out.0 as (λ _. Result A × SiteDb mongo redis config settings) [
                  | err e ↦ (err e, record s { keys = out.1 })
                  | ok done ↦
                      let (answer, accounts) = f s.accounts in
                      (answer, record { accounts = accounts; keys = out.1 })
                ]).1
        by_answer (err e, d) grows counts = inl (refl, grows)
        by_answer (ok done, d) grows counts = inr (refl, (counts refl).0, (counts refl).1)

    -- However many requests come in one window to the bucket from one address, the accounts are left
    -- as by a part of their services, in order, no more of them than the limit leaves of the count.
    pub after-IsLimited :
        {A : Type 0} (fs : List (Service A)) (s : SiteDb mongo redis config settings)
        → IsLimited fs s (after fs s)
    after-IsLimited [] s = record { ran = []; part = none_left; few = omega arith; left = refl }
    after-IsLimited (f ∷ fs) s =
        let t =
          (limited mongo redis config settings client_ip bucket max_requests window_seconds f
            s).1 in
        let rest = after-IsLimited fs t in
        elim (limited-Step f s) [
          | inl (same, grows) ↦ record {
            ran = rest.ran;
            part = left_out f rest.part;
            few = omega (arith, rest.few, grows);
            left = rest.left ∙ ap (run_all rest.ran) same;
          }
          | inr (served, below, count') ↦ record {
            ran = f ∷ rest.ran;
            part = kept f rest.part;
            few = omega (arith, rest.few, below, count');
            left = rest.left ∙ ap (run_all rest.ran) served;
          }
        ]
