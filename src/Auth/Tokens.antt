-- ===== src/Auth/Tokens.antt =====
-- The single-use tokens of emails, and the password reset.
use thesdel.Base.{
  IsKeyed, ℕ, ◌+◌, ◌≡◌, refl, inl, inr, Bool, true, false, ◌&&◌, Option, some, String, [], ◌∷◌, ltb,
  ◌==◌, find, arith, All, All-append, Option-cases, str_eq, sym, subst, ◌∙◌, ap, by_value,
}
use thesdel.Errors.{AppError, ok, err}
use thesdel.Mongo.{Mongo, update_first}
use thesdel.Mongo.Laws.{find-update_first, All-update_all}
use thesdel.Auth.Data.{
  AuthToken, Purpose, Draws, AuthConfig, is_none, same_purpose, revoke_at, use_at,
}
use thesdel.Auth.Store.{
  AuthDb, find_token, create_token, mark_used, update_password_hash, revoke_all_for_user,
}
use thesdel.Auth.Mail.{reset_with_token, confirm_password_reset}
use thesdel.Auth.Sessions.{IsRevoked}

-- The test by which an unused token of a user's purpose is told.
abbrev pub is_outstanding : ℕ → Purpose → AuthToken → Bool
is_outstanding user purpose t =
    (t.user_id == user) && (same_purpose t.purpose purpose && is_none t.used_at)

module _ (mongo : Mongo) (config : AuthConfig) where
  open mongo use {docs, find_one_lem, docs-insert_one, docs-update_one, docs-update_many}
  open config use {hash_opaque_token, hash_password}

  -- The token of a text, if the collection has one.
  abbrev pub token_of : String → AuthDb mongo → Option AuthToken
  token_of token s = find_token mongo config (hash_opaque_token token) s

  token_of-docs :
      (token : String) (s : AuthDb mongo)
      → token_of token s
        ≡ find (λ t. str_eq t.token_hash (hash_opaque_token token)) (docs s.auth_tokens)
  unfolding find_token
  token_of-docs token s =
      find_one_lem (λ t. str_eq t.token_hash (hash_opaque_token token)) s.auth_tokens

  -- After a token is issued, the only unused one of that user and purpose is the new one.
  pub create_token_outstanding :
      (d : Draws) (user : ℕ) (purpose : Purpose) (ttl : ℕ) (s : AuthDb mongo)
      → All
          (λ t.
            is_outstanding user purpose t ≡ true
            → (t.id ≡ d.token_id)
              × (t.token_hash ≡ hash_opaque_token d.token)
              × (t.expires_at ≡ d.now + ttl))
          (docs (create_token mongo config d user purpose ttl s).auth_tokens)
  unfolding create_token
  create_token_outstanding d user purpose ttl s =
      let P : AuthToken → Type 0 = λ t.
        is_outstanding user purpose t ≡ true
        → (t.id ≡ d.token_id)
          × (t.token_hash ≡ hash_opaque_token d.token)
          × (t.expires_at ≡ d.now + ttl) in
      let used = mongo.update_many (is_outstanding user purpose) (use_at d.stamp) s.auth_tokens in
      subst (All P) (sym (docs-insert_one _ used)) (
        All-append P (docs used) (_ ∷ [])
          (subst (All P)
            (sym (docs-update_many (is_outstanding user purpose) (use_at d.stamp) s.auth_tokens))
            (All-update_all P (is_outstanding user purpose) (use_at d.stamp) (docs s.auth_tokens)
              (λ t e o. absurd (ground arith)) (λ t e o. absurd (ground arith))))
          ((λ o. (refl, refl, refl)), tt))

  -- Every session of the user is revoked.
  abbrev pub IsLoggedOut : ℕ → AuthDb mongo → Type 0
  IsLoggedOut user s = All (λ x. (x.user_id == user) ≡ true → IsRevoked x) (docs s.sessions)

  revoke_all-IsLoggedOut :
      (now user : ℕ) (s : AuthDb mongo)
      → IsLoggedOut user (revoke_all_for_user mongo config now user s)
  unfolding revoke_all_for_user
  revoke_all-IsLoggedOut now user s =
      subst (All (λ x. (x.user_id == user) ≡ true → IsRevoked x))
        (sym (
          docs-update_many (λ x. (x.user_id == user) && is_none x.revoked_at) (revoke_at now)
            s.sessions))
        (All-update_all (λ x. (x.user_id == user) ≡ true → IsRevoked x)
          (λ x. (x.user_id == user) && is_none x.revoked_at) (revoke_at now) (docs s.sessions)
          (λ x t f. refl) (λ x t f. ground arith))

  -- What a password reset that succeeds has met and done.
  pub record Resets (d : Draws) (token new_password : String) (s s' : AuthDb mongo) : Type 0 where
    pub reset_token : AuthToken
    pub was_found : token_of token s ≡ some reset_token
    pub was_for_reset : same_purpose reset_token.purpose Purpose.password_reset ≡ true
    pub was_unused : is_none reset_token.used_at ≡ true
    pub was_current : ltb reset_token.expires_at d.now ≡ false
    pub logged_out : IsLoggedOut reset_token.user_id s'
    pub users :
        docs s'.users
        ≡ update_first
            (λ u. u.id == reset_token.user_id)
            (λ u. record u { password_hash = some (hash_password new_password) })
            (docs s.users)
    pub tokens :
        docs s'.auth_tokens
        ≡ update_first (λ t. t.id == reset_token.id) (use_at d.stamp) (docs s.auth_tokens)

  -- A reset succeeds only with a reset token that is found, unused and not expired; it uses the
  -- token up, sets the password of its user and revokes every session of that user.
  pub confirm_password_reset-Resets :
      (d : Draws) (token new_password : String) (s s' : AuthDb mongo)
      → confirm_password_reset mongo config d token new_password s ≡ (ok tt, s')
      → Resets d token new_password s s'
  unfolding confirm_password_reset reset_with_token mark_used update_password_hash
      revoke_all_for_user
  confirm_password_reset-Resets d token new_password s s' h =
      elim (Option-cases (token_of token s)) [
        | inl missing ↦ absurd (ground arith)
        | inr (t, found) ↦
            let for_reset : same_purpose t.purpose Purpose.password_reset ≡ true = ground arith in
            let unused : is_none t.used_at ≡ true = ground arith in
            let current : ltb t.expires_at d.now ≡ false = ground arith in
            let before =
              update_password_hash mongo config t.user_id (hash_password new_password)
                (mark_used mongo config d.stamp t.id s) in
            let end_state : s' ≡ revoke_all_for_user mongo config d.stamp t.user_id before =
              ground arith in
            record {
              reset_token = t;
              was_found = found;
              was_for_reset = for_reset;
              was_unused = unused;
              was_current = current;
              logged_out =
                  by_value (IsLoggedOut t.user_id) end_state
                    (revoke_all-IsLoggedOut d.stamp t.user_id before);
              users =
                  ap (λ (x : AuthDb mongo). docs x.users) end_state
                  ∙ docs-update_one (λ u. u.id == t.user_id)
                      (λ u. record u { password_hash = some (hash_password new_password) }) s.users;
              tokens =
                  ap (λ (x : AuthDb mongo). docs x.auth_tokens) end_state
                  ∙ docs-update_one (λ x. x.id == t.id) (use_at d.stamp) s.auth_tokens;
            }
      ]

  -- Where no two tokens have one id, a reset token works once: presented again, at any time and
  -- with any password, it is refused and nothing changes.
  pub confirm_password_reset_once :
      (d d' : Draws) (token p p' : String) (s s' : AuthDb mongo)
      → IsKeyed (λ t. t.id) (docs s.auth_tokens)
      → confirm_password_reset mongo config d token p s ≡ (ok tt, s')
      → confirm_password_reset mongo config d' token p' s' ≡ (err AppError.token_invalid, s')
  unfolding confirm_password_reset reset_with_token
  confirm_password_reset_once d d' token p p' s s' keyed h =
      let r = confirm_password_reset-Resets d token p s s' h in
      let test : AuthToken → Bool = λ t. str_eq t.token_hash (hash_opaque_token token) in
      let used : token_of token s' ≡ some (use_at d.stamp r.reset_token) =
        token_of-docs token s'
        ∙ ap (find test) r.tokens
        ∙ find-update_first test (λ t. t.id) (use_at d.stamp) (docs s.auth_tokens) (λ y. refl) keyed
            (sym (token_of-docs token s) ∙ r.was_found) in
      ground arith
