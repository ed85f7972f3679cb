-- ===== src/Auth/SignIn.antt =====
-- Who a sign-in signs in: a password login, and a login by Google with its linking of accounts.
use thesdel.Base.{
  IsKeyed, ℕ, ◌+◌, ◌≡◌, ◌≢◌, subst, any, ◌||◌, some-injective, ◌⊎◌, refl, inl, inr, Bool, true,
  false, Option, none, some, String, List, [], ◌∷◌, ◌++◌, ◌==◌, find, arith, Bool-cases,
  Option-cases, str_eq, sym, ◌∙◌, ap, if◌then◌else◌,
}
use thesdel.Errors.{Result, ok, err}
use thesdel.Mongo.{Mongo, update_first}
use thesdel.Mongo.Laws.{find-All, find-update_first_self}
use thesdel.Auth.Data.{User, Session, Draws, AuthConfig, TokenPair, GoogleClaims, same_google}
use thesdel.Auth.Store.{AuthDb, find_by_email, find_user, new_user, create_user, link_google_id}
use thesdel.Auth.Accounts.{issue_token_pair, google_login, google_first_login}

-- The first document that a test finds is the one of its key.
find_by_key :
    {A : Type 0} (p : A → Bool) (key : A → ℕ) (xs : List A) {x : A}
    → IsKeyed key xs
    → find p xs ≡ some x
    → find (λ y. key y == key x) xs ≡ some x
find_by_key p key [] keyed h = cc
find_by_key p key (y ∷ ys) {x} keyed h = elim (Bool-cases (p y)) [
  | inl t ↦
      let same : y ≡ x = ground arith in
      let hit : (key y == key x) ≡ true = ground arith in rw hit (ap some same)
  | inr t ↦
      let later : find p ys ≡ some x = rw t at h in
      let apart : (key y == key x) ≡ false =
        ground (arith, (find-All (λ z. key z ≢ key y) p ys later keyed.0).0) in
      rw apart (find_by_key p key ys keyed.1 later)
]

module _ (mongo : Mongo) (config : AuthConfig) where
  open mongo use {
    docs, find_one, find_one_lem, docs-insert_one, docs-update_one, insert_unique-clash,
    insert_unique-fresh,
  }
  open config use {hash_opaque_token, refresh_token_ttl, create_access_token}

  -- The session of a sign-in.
  abbrev signed_in : Draws → User → Option String → Session
  signed_in d u device = record {
    id = d.session_id;
    user_id = u.id;
    refresh_token_hash = hash_opaque_token d.refresh_token;
    family_id = d.family_id;
    device_label = device;
    created_at = d.stamp;
    expires_at = d.now + refresh_token_ttl;
    revoked_at = none;
  }

  -- The user gets a pair of tokens of the user's own, and a session for the second of them.
  pub record GivesTokens (d : Draws) (device : Option String) (u : User) (pair : TokenPair)
      (s s' : AuthDb mongo) : Type 0 where
    pub access : pair.access_token ≡ create_access_token u.id u.tier
    pub refreshes : pair.refresh_token ≡ d.refresh_token
    pub session : docs s'.sessions ≡ docs s.sessions ++ signed_in d u device ∷ []

  -- The account that a Google login may sign in, and what it writes to the accounts: the one that
  -- has the Google id; or the one of the email, linked, if Google has verified that; or a new one.
  abbrev pub IsGoogleAccount : Draws → GoogleClaims → User → AuthDb mongo → AuthDb mongo → Type 0
  IsGoogleAccount d claims u s s' =
      (find_one (λ v. same_google v.google_id (some claims.sub)) s.users ≡ some u)
        × (docs s'.users ≡ docs s.users)
      ⊎ ((old : User) × (find_one (λ v. same_google v.google_id (some claims.sub)) s.users ≡ none)
          × (claims.email_verified ≡ true)
          × (find_by_email mongo config claims.email s ≡ some old)
          × (u ≡ record old { google_id = some claims.sub })
          × (docs s'.users
              ≡ update_first (λ v. v.id == old.id) (λ v. record v { google_id = some claims.sub })
                  (docs s.users)))
      ⊎ (find_one (λ v. same_google v.google_id (some claims.sub)) s.users ≡ none)
        × (find_by_email mongo config claims.email s ≡ none)
        × (u
            ≡ new_user mongo config d.user_id claims.email claims.display_name none
                (some claims.sub) (if claims.email_verified then some d.stamp else none))
        × (docs s'.users ≡ docs s.users ++ u ∷ [])

  issue_token_pair-GivesTokens :
      (d : Draws) (device : Option String) (u : User) (s : AuthDb mongo)
      → GivesTokens d device u
          (issue_token_pair mongo config d u.id u.tier device d.family_id s).0
          s
          (issue_token_pair mongo config d u.id u.tier device d.family_id s).1
  unfolding issue_token_pair
  issue_token_pair-GivesTokens d device u s = record {
    access = refl;
    refreshes = refl;
    session = docs-insert_one (signed_in d u device) s.sessions;
  }

  -- What a sign-in of an account leaves.
  abbrev pub Signed :
      Draws
      → Option String
      → User
      → AuthDb mongo
      → Result (TokenPair × User) × AuthDb mongo
      → Type 0
  Signed d device v s (err e, t) = Unit
  Signed d device v s (ok (pair, u), t) =
      (v ≡ u) × (docs t.users ≡ docs s.users) × GivesTokens d device u pair s t

  -- The answer of a sign-in of the account.
  abbrev pub signs_in :
      Draws → Option String → User → AuthDb mongo → Result (TokenPair × User) × AuthDb mongo
  signs_in d device v s =
      let (pair, s') = issue_token_pair mongo config d v.id v.tier device d.family_id s in
      (ok (pair, v), s')

  pub signs_in-Signed :
      (d : Draws) (device : Option String) (v : User) (s : AuthDb mongo)
      (out : Result (TokenPair × User) × AuthDb mongo)
      → signs_in d device v s ≡ out
      → Signed d device v s out
  unfolding issue_token_pair
  signs_in-Signed d device v s out h =
      subst (λ r. Signed d device v s r) h (refl, refl, issue_token_pair-GivesTokens d device v s)

  -- The account of the email is found again behind the linking.
  linked_user :
      (email google : String) (s : AuthDb mongo) (old : User)
      → IsKeyed (λ x. x.id) (docs s.users)
      → find_by_email mongo config email s ≡ some old
      → find_user mongo config old.id (link_google_id mongo config old.id google s)
        ≡ some (record old { google_id = some google })
  unfolding find_by_email find_user link_google_id
  linked_user email google s old keyed found =
      let is_old : User → Bool = λ v. v.id == old.id in
      let link : User → User = λ v. record v { google_id = some google } in
      find_one_lem is_old (mongo.update_one is_old link s.users)
      ∙ ap (λ xs. find is_old xs) (docs-update_one is_old link s.users)
      ∙ find-update_first_self is_old link (docs s.users) (λ y. refl)
          (find_by_key (λ v. str_eq v.email (config.lower email)) (λ v. v.id) (docs s.users) keyed
            (sym (find_one_lem (λ v. str_eq v.email (config.lower email)) s.users) ∙ found))

  pub created_user :
      (v : User) (s : AuthDb mongo) (c : mongo.Collection User)
      → create_user mongo config v s ≡ some c
      → docs c ≡ docs s.users ++ v ∷ []
  unfolding create_user
  created_user v s c h =
      let clash : User → Bool =
        λ w. str_eq w.email v.email || same_google w.google_id v.google_id in
      elim (Bool-cases (any clash (docs s.users))) [
        | inl taken ↦
            let refused : none ≡ some c = sym (insert_unique-clash clash v s.users taken) ∙ h in
            absurd (cc)
        | inr fresh ↦
            ap docs (some-injective (sym h ∙ insert_unique-fresh clash v s.users fresh))
            ∙ docs-insert_one v s.users
      ]

  -- A login by Google signs in the account that has the Google id; if there is none, the account of
  -- the email, which Google must have verified, linked to the Google id; and if there is none
  -- either, a new one. It changes no other account.
  pub google_login_account :
      (d : Draws) (claims : GoogleClaims) (device : Option String) (s s' : AuthDb mongo)
      (pair : TokenPair) (u : User)
      → IsKeyed (λ x. x.id) (docs s.users)
      → google_login mongo config d claims device s ≡ (ok (pair, u), s')
      → IsGoogleAccount d claims u s s' × GivesTokens d device u pair s s'
  unfolding google_login google_first_login issue_token_pair link_google_id create_user find_user
  google_login_account d claims device s s' pair u keyed h =
      elim (Option-cases (find_one (λ v. same_google v.google_id (some claims.sub)) s.users)) [
        | inr (v, known) ↦
            let step : signs_in d device v s ≡ (ok (pair, u), s') =
              sym (rw (google_login, known) refl) ∙ h in
            let r = signs_in-Signed d device v s (ok (pair, u), s') step in
            (inl (known ∙ ap some r.0, r.1), r.2)
        | inl unknown ↦ elim (Option-cases (find_by_email mongo config claims.email s)) [
          | inr (old, found) ↦ elim (Bool-cases claims.email_verified) [
            | inl verified ↦
                let link : User → User = λ v. record v { google_id = some claims.sub } in
                let t = link_google_id mongo config old.id claims.sub s in
                let step : signs_in d device (link old) t ≡ (ok (pair, u), s') =
                  sym (
                    rw
                      (
                        google_login,
                        google_first_login,
                        unknown,
                        found,
                        verified,
                        linked_user claims.email claims.sub s old keyed found,
                      )
                      refl)
                  ∙ h in
                let r = signs_in-Signed d device (link old) t (ok (pair, u), s') step in
                (
                  inr (
                      inl (
                        old,
                        unknown,
                        verified,
                        found,
                        sym r.0,
                        r.1 ∙ docs-update_one (λ v. v.id == old.id) link s.users,
                      )),
                  record { access = r.2.access; refreshes = r.2.refreshes; session = r.2.session },
                )
            | inr unverified ↦ absurd (ground arith)
          ]
          | inl nobody ↦
              let v =
                new_user mongo config d.user_id claims.email claims.display_name none
                  (some claims.sub) (if claims.email_verified then some d.stamp else none) in
              elim (Option-cases (create_user mongo config v s)) [
                | inl clash ↦ absurd (ground arith)
                | inr (c, made) ↦
                    let t : AuthDb mongo = record s { users = c } in
                    let step : signs_in d device v t ≡ (ok (pair, u), s') =
                      sym (rw (google_login, google_first_login, unknown, nobody, made) refl) ∙ h in
                    let r = signs_in-Signed d device v t (ok (pair, u), s') step in
                    (
                      inr (
                          inr (
                            unknown,
                            nobody,
                            sym r.0,
                            r.1 ∙ created_user v s c made ∙ ap (λ w. docs s.users ++ w ∷ []) r.0,
                          )),
                      record {
                        access = r.2.access;
                        refreshes = r.2.refreshes;
                        session = r.2.session;
                      },
                    )
              ]
        ]
      ]
