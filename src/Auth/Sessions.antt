-- ===== src/Auth/Sessions.antt =====
-- Refresh tokens: rotation, and what the reuse of a rotated token does.
use thesdel.Base.{
  IsKeyed, ℕ, ◌+◌, ◌≡◌, refl, inl, inr, Bool, true, false, ◌&&◌, Option, none, some, String, List,
  [], ◌∷◌, ◌++◌, ltb, ◌==◌, find, arith, All, Bool-cases, Option-cases, str_eq, sym, subst, ◌∙◌, ap,
  by_value,
}
use thesdel.Errors.{AppError, Result, ok, err}
use thesdel.Mongo.{Mongo, update_first}
use thesdel.Mongo.Laws.{find-append, find-update_first, All-update_all}
use thesdel.Auth.Data.{User, Session, Draws, AuthConfig, TokenPair, is_none, revoke_at}
use thesdel.Auth.Store.{AuthDb, find_session, find_user, revoke, revoke_family}
use thesdel.Auth.Accounts.{issue_token_pair}
use thesdel.Auth.Refresh.{refresh_session, refresh}

abbrev pub IsRevoked : Session → Type 0
IsRevoked x = is_none x.revoked_at ≡ false

module _ (mongo : Mongo) (config : AuthConfig) where
  open mongo use {docs, find_one_lem, docs-insert_one, docs-update_one, docs-update_many}
  open config use {hash_opaque_token, refresh_token_ttl}

  -- Every session of the family is revoked.
  abbrev pub IsFamilyRevoked : String → AuthDb mongo → Type 0
  IsFamilyRevoked family s =
      All (λ x. str_eq x.family_id family ≡ true → IsRevoked x) (docs s.sessions)

  revoke_family-IsFamilyRevoked :
      (now : ℕ) (family : String) (s : AuthDb mongo)
      → IsFamilyRevoked family (revoke_family mongo config now family s)
  unfolding revoke_family
  revoke_family-IsFamilyRevoked now family s =
      subst (λ xs. All (λ x. str_eq x.family_id family ≡ true → IsRevoked x) xs)
        (sym (
          docs-update_many (λ x. str_eq x.family_id family && is_none x.revoked_at) (revoke_at now)
            s.sessions))
        (All-update_all (λ x. str_eq x.family_id family ≡ true → IsRevoked x)
          (λ x. str_eq x.family_id family && is_none x.revoked_at) (revoke_at now) (docs s.sessions)
          (λ x t f. refl) (λ x t f. ground arith))

  -- The session of a refresh token, if the collection has one.
  abbrev pub session_of : String → AuthDb mongo → Option Session
  session_of token s = find_session mongo config (hash_opaque_token token) s

  -- A token whose session is revoked is refused, and every session of its family is then revoked.
  pub refresh_revoked :
      (d : Draws) (token : String) (s : AuthDb mongo) (x : Session)
      → session_of token s ≡ some x
      → IsRevoked x
      → ((refresh mongo config d token s).0 ≡ err AppError.token_invalid)
        × IsFamilyRevoked x.family_id (refresh mongo config d token s).1
  unfolding refresh refresh_session
  refresh_revoked d token s x found gone =
      let result : refresh mongo config d token s
          ≡ (err AppError.token_invalid, revoke_family mongo config d.stamp x.family_id s) =
        ground arith in
      (
        ap (λ (r : Result TokenPair × AuthDb mongo). r.0) result,
        by_value (λ (r : Result TokenPair × AuthDb mongo). IsFamilyRevoked x.family_id r.1) result
            (revoke_family-IsFamilyRevoked d.stamp x.family_id s),
      )

  -- The session that a successful refresh makes.
  abbrev new_session : Draws → ℕ → Session → Session
  new_session d user x = record {
    id = d.session_id;
    user_id = user;
    refresh_token_hash = hash_opaque_token d.refresh_token;
    family_id = x.family_id;
    device_label = x.device_label;
    created_at = d.stamp;
    expires_at = d.now + refresh_token_ttl;
    revoked_at = none;
  }

  -- What a refresh that succeeds has met and done.
  pub record Rotates (d : Draws) (token : String) (s s' : AuthDb mongo) (pair : TokenPair)
      : Type 0 where
    pub old : Session
    pub user : User
    pub was_found : session_of token s ≡ some old
    pub was_live : is_none old.revoked_at ≡ true
    pub was_current : ltb old.expires_at d.now ≡ false
    pub has_user : find_user mongo config old.user_id s ≡ some user
    pub issued : pair.refresh_token ≡ d.refresh_token
    pub sessions :
        docs s'.sessions
        ≡ update_first (λ y. y.id == old.id) (revoke_at d.stamp) (docs s.sessions)
          ++ new_session d user.id old ∷ []

  -- A refresh succeeds only for a session that is found, not revoked and not expired, and whose
  -- user exists; it revokes that session and adds one of the same family for the new token.
  pub refresh-Rotates :
      (d : Draws) (token : String) (s s' : AuthDb mongo) (pair : TokenPair)
      → refresh mongo config d token s ≡ (ok pair, s')
      → Rotates d token s s' pair
  unfolding refresh refresh_session issue_token_pair revoke
  refresh-Rotates d token s s' pair h = elim (Option-cases (session_of token s)) [
    | inl missing ↦ absurd (ground arith)
    | inr (x, found) ↦ elim (Bool-cases (is_none x.revoked_at)) [
      | inr gone ↦ absurd (ground arith)
      | inl live ↦ elim (Bool-cases (ltb x.expires_at d.now)) [
        | inl late ↦ absurd (ground arith)
        | inr current ↦ elim (Option-cases (find_user mongo config x.user_id s)) [
          | inl nobody ↦ absurd (ground arith)
          | inr (u, known) ↦
              let expired = mongo.update_one (λ y. y.id == x.id) (revoke_at d.stamp) s.sessions in
              let written : s'.sessions ≡ mongo.insert_one (new_session d u.id x) expired =
                ground arith in
              record {
                old = x;
                user = u;
                was_found = found;
                was_live = live;
                was_current = current;
                has_user = known;
                issued = ground arith;
                sessions =
                    ap docs written
                    ∙ docs-insert_one (new_session d u.id x) expired
                    ∙ ap (λ (xs : List Session). xs ++ new_session d u.id x ∷ [])
                        (docs-update_one (λ y. y.id == x.id) (revoke_at d.stamp) s.sessions);
              }
        ]
      ]
    ]
  ]

  session_of-docs :
      (token : String) (s : AuthDb mongo)
      → session_of token s
        ≡ find (λ x. str_eq x.refresh_token_hash (hash_opaque_token token)) (docs s.sessions)
  unfolding find_session
  session_of-docs token s =
      find_one_lem (λ x. str_eq x.refresh_token_hash (hash_opaque_token token)) s.sessions

  -- After a refresh the old token finds its session revoked.
  old_is_revoked :
      (d : Draws) (token : String) (s s' : AuthDb mongo) (pair : TokenPair)
      → IsKeyed (λ x. x.id) (docs s.sessions)
      → (r : Rotates d token s s' pair) → session_of token s' ≡ some (revoke_at d.stamp r.old)
  old_is_revoked d token s s' pair keyed r =
      let test : Session → Bool = λ x. str_eq x.refresh_token_hash (hash_opaque_token token) in
      session_of-docs token s'
      ∙ ap (find test) r.sessions
      ∙ find-append test
          (update_first (λ y. y.id == r.old.id) (revoke_at d.stamp) (docs s.sessions))
          (new_session d r.user.id r.old ∷ [])
          (find-update_first test (λ x. x.id) (revoke_at d.stamp) (docs s.sessions) (λ y. refl)
            keyed (sym (session_of-docs token s) ∙ r.was_found))

  -- Where no two sessions have one id, once a refresh token has been rotated, presenting it again
  -- is refused and revokes its family, the session that took its place included.
  pub refresh_replayed :
      (d d' : Draws) (token : String) (s s' : AuthDb mongo) (pair : TokenPair)
      → IsKeyed (λ x. x.id) (docs s.sessions)
      → refresh mongo config d token s ≡ (ok pair, s')
      → (x : Session) × (session_of token s ≡ some x)
        × ((refresh mongo config d' token s').0 ≡ err AppError.token_invalid)
        × IsFamilyRevoked x.family_id (refresh mongo config d' token s').1
  refresh_replayed d d' token s s' pair keyed h =
      let r = refresh-Rotates d token s s' pair h in
      let again =
        refresh_revoked d' token s' (revoke_at d.stamp r.old)
          (old_is_revoked d token s s' pair keyed r) refl in
      (r.old, r.was_found, again.0, again.1)
