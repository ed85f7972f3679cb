-- ===== src/Notifications/Prune.antt =====
-- What the job that sends a push leaves of the device tokens.
use thesdel.Base.{
  ℕ, ◌≡◌, refl, inl, inr, Bool, true, false, not, ◌&&◌, ◌||◌, String, List, [], ◌∷◌, ◌==◌, str_eq,
  eq_iff, arith, filter, any, All, Bool-cases, ap, ◌∙◌, sym, fun_ext, subst, leb, if◌then◌else◌,
}
use thesdel.Base.Orders.{filter-filter}
use thesdel.Mongo.{Mongo}
use thesdel.Notifications.Unique.{
  IsUnique, has_token, keep_all, str_eq-sym, remove-filter, IsUnique-filter,
}
use thesdel.Notifications.{
  max_tries, power_of_two, DeviceToken, Sent, JobEnd, send_each, send_push_to_user, end_of,
}

abbrev pub is_dead : Sent → Bool
is_dead Sent.delivered = false
is_dead Sent.token_invalid = true
is_dead Sent.failed = false

abbrev pub has_failed : Sent → Bool
has_failed Sent.delivered = false
has_failed Sent.token_invalid = false
has_failed Sent.failed = true

module _ (fcm : String → Sent) where
  -- Whether a loop over the devices prunes the token of another.
  abbrev prunes : List DeviceToken → DeviceToken → Bool
  prunes ds e = any (λ d. is_dead (fcm d.token) && has_token d.token e) ds

  not_or : (a b : Bool) → (not a && not b) ≡ not (a || b)
  not_or true b = refl
  not_or false b = refl

  module _ (mongo : Mongo) where
    open mongo use {Collection, docs, docs-delete_one, delete_one, find_many, find_many_lem}

    send_each-docs :
        (ds : List DeviceToken) (devices : Collection DeviceToken)
        → IsUnique (docs devices)
        → docs (send_each mongo fcm ds devices).1 ≡ filter (λ e. not (prunes ds e)) (docs devices)
    unfolding send_each
    send_each-docs [] devices h = sym (keep_all (docs devices))
    send_each-docs (d ∷ ds) devices h = go (fcm d.token) (λ c k. send_each-docs ds c k)
      where
        go :
            (r : Sent)
            → ((c : Collection DeviceToken)
                → IsUnique (docs c)
                → docs (send_each mongo fcm ds c).1 ≡ filter (λ e. not (prunes ds e)) (docs c))
            → let out : Bool × Collection DeviceToken = elim r [
              | Sent.delivered ↦ send_each mongo fcm ds devices
              | Sent.token_invalid ↦ send_each mongo fcm ds (delete_one (has_token d.token) devices)
              | Sent.failed ↦ (true, (send_each mongo fcm ds devices).1)
            ] in
              docs out.1
              ≡ filter (λ e. not (is_dead r && has_token d.token e || prunes ds e)) (docs devices)
        go Sent.delivered ih = ih devices h
        go Sent.failed ih = ih devices h
        go Sent.token_invalid ih =
            let left : docs (delete_one (has_token d.token) devices)
                ≡ filter (λ e. not (has_token d.token e)) (docs devices) =
              docs-delete_one (has_token d.token) devices
              ∙ remove-filter d.token (docs devices) h in
            ih (delete_one (has_token d.token) devices) (
              subst IsUnique (sym left)
                (IsUnique-filter (λ e. not (has_token d.token e)) (docs devices) h))
            ∙ ap (filter (λ e. not (prunes ds e))) left
            ∙ filter-filter (λ e. not (prunes ds e)) (λ e. not (has_token d.token e)) (docs devices)
            ∙ ap (λ p. filter p (docs devices))
                (fun_ext (λ e. not_or (has_token d.token e) (prunes ds e)))

    send_each_failed :
        (ds : List DeviceToken) (devices : Collection DeviceToken)
        → (send_each mongo fcm ds devices).0 ≡ any (λ d. has_failed (fcm d.token)) ds
    unfolding send_each
    send_each_failed [] devices = refl
    send_each_failed (d ∷ ds) devices = go (fcm d.token) (λ c. send_each_failed ds c)
      where
        go :
            (r : Sent)
            → ((c : Collection DeviceToken)
                → (send_each mongo fcm ds c).0 ≡ any (λ x. has_failed (fcm x.token)) ds)
            → let out : Bool × Collection DeviceToken = elim r [
              | Sent.delivered ↦ send_each mongo fcm ds devices
              | Sent.token_invalid ↦ send_each mongo fcm ds (delete_one (has_token d.token) devices)
              | Sent.failed ↦ (true, (send_each mongo fcm ds devices).1)
            ] in
              out.0 ≡ (has_failed r || any (λ x. has_failed (fcm x.token)) ds)
        go Sent.delivered ih = ih devices
        go Sent.failed ih = refl
        go Sent.token_invalid ih = ih (delete_one (has_token d.token) devices)

  module _ (mine : DeviceToken → Bool) where
    -- A list of other tokens prunes nothing of a device's.
    prunes_none :
        (x : DeviceToken) (ds : List DeviceToken)
        → All (λ e. str_eq e.token x.token ≡ false) ds
        → prunes (filter mine ds) x ≡ false
    prunes_none x [] h = refl
    prunes_none x (d ∷ ds) h =
        let apart : str_eq x.token d.token ≡ false = str_eq-sym d.token x.token h.0 in
        let rest = prunes_none x ds h.1 in
        elim (Bool-cases (mine d)) [
          | inl e ↦ rw e (ground (arith, apart, rest))
          | inr e ↦ rw e rest
        ]

    -- What a device of another token adds.
    prunes_more :
        (x : DeviceToken) (xs ds : List DeviceToken)
        → All (λ e. str_eq e.token x.token ≡ false) ds
        → All (λ e. prunes (filter mine xs) e ≡ (mine e && is_dead (fcm e.token))) ds
        → All (λ e. prunes (filter mine (x ∷ xs)) e ≡ (mine e && is_dead (fcm e.token))) ds
    prunes_more x xs [] h k = tt
    prunes_more x xs (d ∷ ds) h k = (
      elim (Bool-cases (mine x)) [
        | inl e ↦
            rw e (rw (h.0) (and_false (is_dead (fcm x.token)) (prunes (filter mine xs) d) ∙ k.0))
        | inr e ↦ rw e k.0
      ],
      prunes_more x xs ds h.1 k.1,
    )
      where
        and_false : (a b : Bool) → (a && false || b) ≡ b
        and_false true b = refl
        and_false false b = refl

    -- Of unique tokens, the loop over those that pass a test prunes the dead ones of them.
    prunes_own :
        (xs : List DeviceToken)
        → IsUnique xs
        → All (λ e. prunes (filter mine xs) e ≡ (mine e && is_dead (fcm e.token))) xs
    prunes_own [] h = tt
    prunes_own (x ∷ xs) h =
        let none_other = prunes_none x xs h.0 in
        let self : str_eq x.token x.token ≡ true = (eq_iff x.token x.token).1 refl in
        (
          elim (Bool-cases (mine x)) [
            | inl e ↦ rw e (rw (self) (rw none_other (and_true (is_dead (fcm x.token)))))
            | inr e ↦ rw e none_other
          ],
          prunes_more x xs xs h.0 (prunes_own xs h.1),
        )
      where
        and_true : (a : Bool) → (a && true || false) ≡ a
        and_true true = refl
        and_true false = refl

    filter_same :
        (p q : DeviceToken → Bool) (xs : List DeviceToken)
        → All (λ e. p e ≡ q e) xs
        → filter (λ e. not (p e)) xs ≡ filter (λ e. not (q e)) xs
    filter_same p q [] h = refl
    filter_same p q (x ∷ xs) h = ground (arith, h.0, filter_same p q xs h.1)

    any-filter :
        (p : DeviceToken → Bool) (xs : List DeviceToken)
        → any p (filter mine xs) ≡ any (λ x. mine x && p x) xs
    any-filter p [] = refl
    any-filter p (x ∷ xs) = ground (arith, any-filter p xs)

  module _ (mongo : Mongo) where
    open mongo use {Collection, docs, find_many, find_many_lem}

    -- Where no two devices have one token, the job leaves the devices less those of the user whose
    -- token is reported dead; and it is tried again, or from the fifth try on given up, exactly if
    -- some send to a device of the user failed in another way.
    pub send_push_to_user_prunes :
        (job_try user : ℕ) (devices : Collection DeviceToken)
        → IsUnique (docs devices)
        → let out = send_push_to_user mongo fcm job_try user devices in
          (docs out.1
            ≡ filter (λ d. not ((d.user_id == user) && is_dead (fcm d.token))) (docs devices))
          × (out.0 ≡ (
              if any (λ d. (d.user_id == user) && has_failed (fcm d.token)) (docs devices)
              then (if leb max_tries job_try
                  then JobEnd.dead_letter
                  else JobEnd.retry (power_of_two job_try))
              else JobEnd.done))
    unfolding send_push_to_user end_of
    send_push_to_user_prunes job_try user devices h =
        let mine : DeviceToken → Bool = λ d. d.user_id == user in
        let own = find_many_lem mine devices in
        (
          send_each-docs mongo (find_many mine devices) devices h
              ∙ ap (λ ds. filter (λ e. not (prunes ds e)) (docs devices)) own
              ∙ filter_same mine (prunes (filter mine (docs devices)))
                  (λ e. mine e && is_dead (fcm e.token)) (docs devices)
                  (prunes_own mine (docs devices) h),
          ap (λ b. end_of b job_try)
                (send_each_failed mongo (find_many mine devices) devices
                  ∙ ap (any (λ d. has_failed (fcm d.token))) own
                  ∙ any-filter mine (λ d. has_failed (fcm d.token)) (docs devices))
              ∙ ends (any (λ d. (d.user_id == user) && has_failed (fcm d.token)) (docs devices)),
        )
      where
        ends :
            (b : Bool)
            → end_of b job_try ≡ (
                if b
                then (if leb max_tries job_try
                    then JobEnd.dead_letter
                    else JobEnd.retry (power_of_two job_try))
                else JobEnd.done)
        ends true = refl
        ends false = refl
