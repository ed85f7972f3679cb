-- ===== src/Reminders/Due.antt =====
-- What a scan for blocks that start soon puts on the queue.
use thesdel.Base.{
  ℕ, ◌+◌, ◌≤◌, ◌≡◌, refl, sym, ap, ◌∙◌, inl, inr, Bool, true, false, some, List, [], ◌∷◌, ◌++◌,
  ◌==◌, All, Any, All-append, All-imp, filter, arith, Bool-cases, Option-cases, by_value, subst,
}
use mathlib.Core.List.{append-nil, append_assoc}
use thesdel.Errors.{Result, ok, err}
use thesdel.Mongo.{Mongo}
use thesdel.Redis.{Redis, reminder}
use thesdel.Auth.Data.{User}
use thesdel.Notifications.{Triggers, Push, study_reminder, enqueue_push}
use thesdel.Study.Service.{StudyPlan}
use thesdel.Reminders.Scan.{
  Window, is_paying, is_within, block_occurrence, first_reminder, push_if, remind, remind_each,
  check_and_notify_for_user, check_users, check_study_blocks,
}

module _ {A : Type 0} (p : A → Bool) (P : A → Type 0) where
  Any-filtered : (xs : List A) → Any P (filter p xs) → Any (λ x. (p x ≡ true) × P x) xs
  Any-filtered [] h = h
  Any-filtered (x ∷ xs) h = elim (Bool-cases (p x)) [
    | inl e ↦ elim (rw e at h) [ inl px ↦ inl (e, px) | inr rest ↦ inr (Any-filtered xs rest) ]
    | inr e ↦ inr (Any-filtered xs (rw e at h))
  ]

module _ {A : Type 0} (P Q : A → Type 0) where
  Any-imp : ((a : A) → P a → Q a) → (xs : List A) → Any P xs → Any Q xs
  Any-imp f [] h = h
  Any-imp f (x ∷ xs) (inl px) = inl (f x px)
  Any-imp f (x ∷ xs) (inr rest) = inr (Any-imp f xs rest)

module _ (mongo : Mongo) (redis : Redis) (queue_up : Bool) (w : Window) (now : ℕ) where
  open mongo use {Collection, docs, find_many_lem}

  -- The push reminds of the user's block, whose next occurrence is in the window.
  abbrev pub Reminds : ℕ → Push → StudyPlan → Type 0
  Reminds user_id push b =
      (push ≡ record { user_id = user_id; kind = study_reminder w.name b.id b.subject })
      × (t : ℕ) × (block_occurrence b (now + w.opens) ≡ some t)
      × (now + w.opens ≤ t)
      × (t ≤ now + w.closes)

  -- The queue has grown by pushes of which the predicate holds.
  abbrev pub Adds : (Push → Type 0) → Triggers redis → Triggers redis → Type 0
  Adds P s s' = (added : List Push) × (s'.queue ≡ s.queue ++ added) × All P added

  Adds-none : (P : Push → Type 0) (s s' : Triggers redis) → s'.queue ≡ s.queue → Adds P s s'
  Adds-none P s s' h = ([], h ∙ sym (append-nil s.queue), tt)

  Adds-trans : (P : Push → Type 0) (s t u : Triggers redis) → Adds P s t → Adds P t u → Adds P s u
  Adds-trans P s t u (xs, e, h) (ys, f, k) =
      (xs ++ ys, f ∙ ap (λ q. q ++ ys) e ∙ append_assoc s.queue xs ys, All-append P xs ys h k)

  Adds-imp :
      (P Q : Push → Type 0)
      → ((x : Push) → P x → Q x)
      → (s t : Triggers redis) → Adds P s t
      → Adds Q s t
  Adds-imp P Q f s t (xs, e, h) = (xs, e, All-imp P Q f xs h)

  push_if-Adds :
      (first up : Bool) (user_id : ℕ) (b : StudyPlan) (s : Triggers redis)
      → up ≡ queue_up
      → Adds
          (λ x. x ≡ record { user_id = user_id; kind = study_reminder w.name b.id b.subject })
          s
          (push_if mongo redis queue_up w now first user_id b s)
  unfolding push_if enqueue_push
  push_if-Adds false up user_id b s e =
      Adds-none (λ x. x ≡ record { user_id = user_id; kind = study_reminder w.name b.id b.subject })
        s s refl
  push_if-Adds true false user_id b s e =
      Adds-none (λ x. x ≡ record { user_id = user_id; kind = study_reminder w.name b.id b.subject })
        s (push_if mongo redis queue_up w now true user_id b s) (rw (sym e) refl)
  push_if-Adds true true user_id b s e = (
    record { user_id = user_id; kind = study_reminder w.name b.id b.subject } ∷ [],
    rw (sym e) refl,
    (refl, tt),
  )

  remind-Adds :
      (user_id : ℕ) (b : StudyPlan) (t : ℕ) (s : Triggers redis)
      → block_occurrence b (now + w.opens) ≡ some t
      → Adds (λ x. Reminds user_id x b) s (remind mongo redis queue_up w now user_id b t s)
  unfolding remind
  remind-Adds user_id b t s e = elim (Bool-cases (is_within w now t)) [
    | inr out ↦
        Adds-none (λ x. Reminds user_id x b) s (remind mongo redis queue_up w now user_id b t s)
          (rw out refl)
    | inl within ↦
        let claim =
          first_reminder mongo redis queue_up w now (reminder w.name user_id b.id) w.dedup_ttl
            s.guards in
        let s' : Triggers redis = record s { guards = claim.1 } in
        let grown = push_if-Adds claim.0 queue_up user_id b s' refl in
        by_value (Adds (λ x. Reminds user_id x b) s)
          {x = remind mongo redis queue_up w now user_id b t s}
          {y = push_if mongo redis queue_up w now claim.0 user_id b s'} (rw within refl)
          (Adds-imp
            (λ x. x ≡ record { user_id = user_id; kind = study_reminder w.name b.id b.subject })
            (λ x. Reminds user_id x b)
            (λ x same. (same, t, e, ground (arith, within), ground (arith, within))) s
            (push_if mongo redis queue_up w now claim.0 user_id b s') grown)
  ]

  remind_each-Adds :
      (user_id : ℕ) (bs : List StudyPlan) (s : Triggers redis)
      → Adds
          (λ x. Any (Reminds user_id x) bs)
          s
          (remind_each mongo redis queue_up w now user_id bs s).1
  unfolding remind_each
  remind_each-Adds user_id [] s = Adds-none (λ x. Any (Reminds user_id x) []) s s refl
  remind_each-Adds user_id (b ∷ bs) s =
      let P : Push → Type 0 = λ x. Any (Reminds user_id x) (b ∷ bs) in
      elim (Option-cases (block_occurrence b (now + w.opens))) [
        | inl bad ↦
            Adds-none P s (remind_each mongo redis queue_up w now user_id (b ∷ bs) s).1
              (rw (remind_each, bad) refl)
        | inr (t, e) ↦
            let s' = remind mongo redis queue_up w now user_id b t s in
            let out = (remind_each mongo redis queue_up w now user_id bs s').1 in
            by_value (Adds P s) {x = (remind_each mongo redis queue_up w now user_id (b ∷ bs) s).1}
              {y = out} (rw (remind_each, e) refl)
              (Adds-trans P s s' out
                (Adds-imp (λ x. Reminds user_id x b) P (λ x h. inl h) s s'
                  (remind-Adds user_id b t s e))
                (Adds-imp (λ x. Any (Reminds user_id x) bs) P (λ x h. inr h) s' out
                  (remind_each-Adds user_id bs s')))
      ]

  -- The push reminds of a block of a paying user's, both in the collections.
  abbrev pub IsDue : Collection StudyPlan → List User → Push → Type 0
  IsDue plans us x =
      Any
        (λ u.
          (is_paying u ≡ true)
          × Any (λ b. ((b.user_id == u.id) ≡ true) × Reminds u.id x b) (docs plans))
        us

  check_and_notify-Adds :
      (plans : Collection StudyPlan) (user_id : ℕ) (s : Triggers redis)
      → Adds
          (λ x. Any (λ b. ((b.user_id == user_id) ≡ true) × Reminds user_id x b) (docs plans))
          s
          (check_and_notify_for_user mongo redis queue_up w now plans user_id s).1
  unfolding check_and_notify_for_user
  check_and_notify-Adds plans user_id s =
      let own = mongo.find_many (λ b. b.user_id == user_id) plans in
      Adds-imp (λ x. Any (Reminds user_id x) own)
        (λ x. Any (λ b. ((b.user_id == user_id) ≡ true) × Reminds user_id x b) (docs plans))
        (λ x h.
          Any-filtered (λ b. b.user_id == user_id) (Reminds user_id x) (docs plans)
            (subst (Any (Reminds user_id x)) (find_many_lem (λ b. b.user_id == user_id) plans) h))
        s (remind_each mongo redis queue_up w now user_id own s).1 (remind_each-Adds user_id own s)

  -- The user at the head, or one behind, is owed the push.
  abbrev Owes : Collection StudyPlan → Push → User → Type 0
  Owes plans x u = Any (λ b. ((b.user_id == u.id) ≡ true) × Reminds u.id x b) (docs plans)

  check_users-Adds :
      (plans : Collection StudyPlan) (us : List User) (s : Triggers redis)
      → Adds (λ x. Any (Owes plans x) us) s (check_users mongo redis queue_up w now plans us s).1
  unfolding check_users
  check_users-Adds plans [] s = Adds-none (λ x. Any (Owes plans x) []) s s refl
  check_users-Adds plans (u ∷ us) s =
      let call = check_and_notify_for_user mongo redis queue_up w now plans u.id s in
      behind call.0 call.1 (λ t. check_users-Adds plans us t) (check_and_notify-Adds plans u.id s)
    where
      P : Push → Type 0
      P x = Any (Owes plans x) (u ∷ us)

      behind :
          (r : Result (Unit {0})) (s' : Triggers redis)
          → ((t : Triggers redis)
              → Adds
                  (λ x. Any (Owes plans x) us)
                  t
                  (check_users mongo redis queue_up w now plans us t).1)
          → Adds (λ x. Owes plans x u) s s'
          → Adds P s
              (elim r as (λ _. Result (Unit {0}) × Triggers redis) [
                | err e ↦ (err e, s')
                | ok done ↦ check_users mongo redis queue_up w now plans us s'
              ]).1
      behind (err e) s' later h = Adds-imp (λ x. Owes plans x u) P (λ x k. inl k) s s' h
      behind (ok done) s' later h =
          let out = (check_users mongo redis queue_up w now plans us s').1 in
          Adds-trans P s s' out (Adds-imp (λ x. Owes plans x u) P (λ x k. inl k) s s' h)
            (Adds-imp (λ x. Any (Owes plans x) us) P (λ x k. inr k) s' out (later s'))

  -- A scan only adds to the queue, and each push it adds reminds a premium or pro user of a block of
  -- the user's own whose next occurrence lies within the window, its ends included.
  pub check_study_blocks-Adds :
      (users : Collection User) (plans : Collection StudyPlan) (s : Triggers redis)
      → Adds
          (IsDue plans (docs users))
          s
          (check_study_blocks mongo redis queue_up w now users plans s).1
  unfolding check_study_blocks
  check_study_blocks-Adds users plans s =
      let paying = mongo.find_many is_paying users in
      Adds-imp (λ x. Any (Owes plans x) paying) (IsDue plans (docs users))
        (λ x h.
          Any-filtered is_paying (Owes plans x) (docs users)
            (subst (Any (Owes plans x)) (find_many_lem is_paying users) h))
        s (check_users mongo redis queue_up w now plans paying s).1
        (check_users-Adds plans paying s)
