-- ===== src/Auth/Verify.antt =====
-- From a registration to the verified email.
use thesdel.Base.{
  ℕ, ◌+◌, ◌≤◌, ◌≡◌, refl, inl, inr, Bool, true, false, Option, none, some, String, List, [], ◌∷◌,
  ◌++◌, ltb, ◌==◌, find, Bool-cases, arith, All, Option-cases, str_eq, sym, subst, ◌∙◌, ap,
  if◌then◌else◌, eq_iff,
}
use thesdel.Errors.{Result, ok, err}
use thesdel.Mongo.{Mongo, update_all}
use thesdel.Mongo.Laws.{find-append_none, find-update_first_self}
use thesdel.Auth.Data.{User, Purpose, AuthToken, EmailJob, Draws, AuthConfig, TokenPair, use_at}
use thesdel.Auth.Store.{
  AuthDb, find_by_email, find_user, find_token, new_user, create_user, create_token, enqueue,
  mark_used, mark_email_verified,
}
use thesdel.Auth.Accounts.{register, issue_verification_token, issue_token_pair}
use thesdel.Auth.Mail.{verify_email, verify_email_token}
use thesdel.Auth.Tokens.{is_outstanding}
use thesdel.Auth.SignIn.{created_user}

find_nothing :
    {A : Type 0} (p : A → Bool) (xs : List A) → All (λ x. p x ≡ false) xs → find p xs ≡ none
find_nothing p [] h = refl
find_nothing p (x ∷ xs) h = rw (h.0) (find_nothing p xs h.1)

module _ (mongo : Mongo) (config : AuthConfig) where
  open mongo use {docs, find_one_lem, docs-insert_one, docs-update_one, docs-update_many}
  open config use {hash_opaque_token, email_verification_ttl}

  -- The token that a registration issues, and the job of its email.
  abbrev new_token : Draws → ℕ → AuthToken
  new_token d user = record {
    id = d.token_id;
    user_id = user;
    purpose = Purpose.email_verification;
    token_hash = hash_opaque_token d.token;
    created_at = d.stamp;
    expires_at = d.now + email_verification_ttl;
    used_at = none;
    sent_at = none;
  }

  abbrev pub verification_of : Draws → User → EmailJob
  verification_of d u = record {
    purpose = Purpose.email_verification;
    user_id = u.id;
    email = u.email;
    token = d.token;
  }

  -- The tokens of a database behind the issue of one.
  abbrev IsIssued : Draws → User → AuthDb mongo → AuthDb mongo → Type 0
  IsIssued d u s s' =
      (docs s'.auth_tokens
        ≡ update_all (is_outstanding u.id Purpose.email_verification) (use_at d.stamp)
            (docs s.auth_tokens)
          ++ new_token d u.id ∷ [])
      × (s'.queue ≡ (if d.queue_up then s.queue ++ verification_of d u ∷ [] else s.queue))
      × (docs s'.users ≡ docs s.users)

  issue-IsIssued :
      (d : Draws) (u : User) (s : AuthDb mongo)
      → IsIssued d u s (issue_verification_token mongo config d u.id u.email s)
  unfolding issue_verification_token create_token enqueue
  issue-IsIssued d u s = go d.queue_up
    where
      outstanding : AuthToken → Bool
      outstanding = is_outstanding u.id Purpose.email_verification

      issued :
          docs
            (create_token mongo config d u.id Purpose.email_verification email_verification_ttl
              s).auth_tokens
          ≡ update_all outstanding (use_at d.stamp) (docs s.auth_tokens) ++ new_token d u.id ∷ []
      issued =
          docs-insert_one (new_token d u.id)
            (mongo.update_many outstanding (use_at d.stamp) s.auth_tokens)
          ∙ ap (λ ts. ts ++ new_token d u.id ∷ [])
              (docs-update_many outstanding (use_at d.stamp) s.auth_tokens)

      go :
          (up : Bool)
          → let s' : AuthDb mongo = enqueue mongo config up (verification_of d u) (
              create_token mongo config d u.id Purpose.email_verification email_verification_ttl
                s) in
            (docs s'.auth_tokens
              ≡ update_all
                  (is_outstanding u.id Purpose.email_verification)
                  (use_at d.stamp)
                  (docs s.auth_tokens)
                ++ new_token d u.id ∷ [])
            × (s'.queue ≡ (if up then s.queue ++ verification_of d u ∷ [] else s.queue))
            × (docs s'.users ≡ docs s.users)
      go true = (issued, refl, refl)
      go false = (issued, refl, refl)

  -- What a registration leaves.
  abbrev Registers :
      Draws → String → AuthDb mongo → Result (TokenPair × User) × AuthDb mongo → Type 0
  Registers d email s (err e, t) = Unit
  Registers d email s (ok (pair, u), t) =
      (u.id ≡ d.user_id)
      × (docs t.users ≡ docs s.users ++ u ∷ [])
      × (docs t.auth_tokens
          ≡ update_all (is_outstanding u.id Purpose.email_verification) (use_at d.stamp)
              (docs s.auth_tokens)
            ++ new_token d u.id ∷ [])
      × (t.queue ≡ (if d.queue_up then s.queue ++ verification_of d u ∷ [] else s.queue))

  register-Registers :
      (d : Draws) (email password name : String) (device : Option String) (s : AuthDb mongo)
      → Registers d email s (register mongo config d email password name device s)
  unfolding register issue_token_pair
  register-Registers d email password name device s =
      elim (Option-cases (find_by_email mongo config email s)) [
        | inr (old, taken) ↦ rw (register, taken) tt
        | inl free ↦
            let u =
              new_user mongo config d.user_id email name (some (config.hash_password password)) none
                none in
            elim (Option-cases (create_user mongo config u s)) [
              | inl clash ↦ rw (register, free, clash) tt
              | inr (c, made) ↦
                  let t : AuthDb mongo =
                    (issue_token_pair mongo config d u.id u.tier device d.family_id
                      (record s { users = c })).1 in
                  let i = issue-IsIssued d u t in
                  rw (register, free, made)
                    (refl, i.2 ∙ created_user mongo config u s c made, i.0, i.1)
            ]
      ]

  others_kept :
      (token : String) (p : AuthToken → Bool) (now : ℕ) (ts : List AuthToken)
      → All (λ t. str_eq t.token_hash (hash_opaque_token token) ≡ false) ts
      → All
          (λ t. str_eq t.token_hash (hash_opaque_token token) ≡ false)
          (update_all p (use_at now) ts)
  others_kept token p now [] h = tt
  others_kept token p now (t ∷ ts) h = elim (Bool-cases (p t)) [
    | inl e ↦ rw e (h.0, others_kept token p now ts h.1)
    | inr e ↦ rw e (h.0, others_kept token p now ts h.1)
  ]

  -- The issued token is the one of its text, where its hash is of no other.
  new_token_found :
      (d : Draws) (user : ℕ) (p : AuthToken → Bool) (s s' : AuthDb mongo)
      → All (λ t. str_eq t.token_hash (hash_opaque_token d.token) ≡ false) (docs s.auth_tokens)
      → docs s'.auth_tokens
        ≡ update_all p (use_at d.stamp) (docs s.auth_tokens) ++ new_token d user ∷ []
      → find_token mongo config (hash_opaque_token d.token) s' ≡ some (new_token d user)
  unfolding find_token
  new_token_found d user p s s' fresh issued =
      let test : AuthToken → Bool = λ t. str_eq t.token_hash (hash_opaque_token d.token) in
      let self : test (new_token d user) ≡ true =
        (eq_iff (hash_opaque_token d.token) (hash_opaque_token d.token)).1 refl in
      let old = update_all p (use_at d.stamp) (docs s.auth_tokens) in
      find_one_lem test s'.auth_tokens
      ∙ ap (find test) issued
      ∙ find-append_none test old (new_token d user ∷ [])
          (find_nothing test old (others_kept d.token p d.stamp (docs s.auth_tokens) fresh))
      ∙ rw (self) refl

  -- A user with a new id is found by it, behind the verification too.
  verified_found :
      (now token : ℕ) (u : User) (users : List User) (s : AuthDb mongo)
      → All (λ v. (v.id == u.id) ≡ false) users
      → docs s.users ≡ users ++ u ∷ []
      → find_user mongo config u.id
          (mark_email_verified mongo config now u.id (mark_used mongo config now token s))
        ≡ some (record u { email_verified_at = some now })
  unfolding find_user mark_email_verified mark_used
  verified_found now token u users s fresh there =
      let test : User → Bool = λ v. v.id == u.id in
      let verify : User → User = λ v. record v { email_verified_at = some now } in
      let self : (u.id == u.id) ≡ true = ground arith in
      let found : find test (docs s.users) ≡ some u =
        ap (find test) there
        ∙ find-append_none test users (u ∷ []) (find_nothing test users fresh)
        ∙ rw (self) refl in
      find_one_lem test (mongo.update_one test verify s.users)
      ∙ ap (find test) (docs-update_one test verify s.users)
      ∙ find-update_first_self test verify (docs s.users) (λ v. refl) found

  -- Where the id and the token of a registration are new, one that succeeds adds the account and,
  -- with the queue up, a job for the email of its token; and with that token, until it expires,
  -- the email of the account is verified.
  pub register-verify_email :
      (d d' : Draws) (email password name : String) (device : Option String) (s s' : AuthDb mongo)
      (pair : TokenPair) (u : User)
      → All (λ v. (v.id == d.user_id) ≡ false) (docs s.users)
      → All (λ t. str_eq t.token_hash (hash_opaque_token d.token) ≡ false) (docs s.auth_tokens)
      → register mongo config d email password name device s ≡ (ok (pair, u), s')
      → d'.now ≤ d.now + email_verification_ttl
      → (docs s'.users ≡ docs s.users ++ u ∷ [])
        × (s'.queue ≡ (if d.queue_up then s.queue ++ verification_of d u ∷ [] else s.queue))
        × ((verify_email mongo config d' d.token s').0 ≡ ok tt)
        × (find_user mongo config u.id (verify_email mongo config d' d.token s').1
            ≡ some (record u { email_verified_at = some d'.stamp }))
  unfolding verify_email verify_email_token
  register-verify_email d d' email password name device s s' pair u new_id new_hash h le =
      let r : Registers d email s (ok (pair, u), s') =
        subst (Registers d email s) h (register-Registers d email password name device s) in
      let in_time : ltb (d.now + email_verification_ttl) d'.now ≡ false = ground arith in
      let found =
        new_token_found d u.id (is_outstanding u.id Purpose.email_verification) s s' new_hash r.2 in
      let fresh : All (λ v. (v.id == u.id) ≡ false) (docs s.users) =
        subst (λ i. All (λ v. (v.id == i) ≡ false) (docs s.users)) (sym r.0) new_id in
      let done : verify_email mongo config d' d.token s' ≡ (
        ok tt,
        mark_email_verified mongo config d'.stamp u.id
            (mark_used mongo config d'.stamp d.token_id s'),
      ) =
        rw (verify_email, found, in_time) refl in
      (
        r.1,
        r.3,
        ap (λ o. o.0) done,
        ap (λ o. find_user mongo config u.id o.1) done
            ∙ verified_found d'.stamp d.token_id u (docs s.users) s' fresh r.1,
      )
