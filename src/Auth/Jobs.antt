-- ===== src/Auth/Jobs.antt =====
-- app/auth/jobs.py: the job that sends the email of a token. Whether a provider takes an email is a
-- parameter; an email is the job that asks for it.
use thesdel.Base.{
  ℕ, ◌≡◌, refl, sym, ap, ◌∙◌, Bool, true, false, not, none, some, List, [], ◌∷◌, ◌++◌, any, ◌==◌,
  if◌then◌else◌, str_eq, IsKeyed, find,
}
use mathlib.Core.List.{append-nil}
use thesdel.Mongo.{Mongo}
use thesdel.Mongo.Laws.{find-update_first}
use thesdel.Notifications.{JobEnd, end_of}
use thesdel.Auth.Data.{AuthToken, EmailJob, AuthConfig, is_none}

abbrev pub sent : ℕ → AuthToken → AuthToken
sent now t = record t { sent_at = some now }

module _ (mongo : Mongo) (config : AuthConfig) where
  open mongo use {Collection, docs, find_one, update_one, find_one_lem, docs-update_one}
  open config use {hash_opaque_token}

  pub record MailDb : Type 0 where
    pub auth_tokens : Collection AuthToken
    pub outbox : List EmailJob

  abbrev pub has_hash : EmailJob → AuthToken → Bool
  has_hash job t = str_eq t.token_hash (hash_opaque_token job.token)

  unfoldable pub mark_sent : ℕ → ℕ → Collection AuthToken → Collection AuthToken
  mark_sent now id c = update_one (λ t. t.id == id) (sent now) c

  -- A try of a job: whether the provider takes the email, the number of the try, and the time.
  unfoldable pub send_token_email : Bool → ℕ → ℕ → EmailJob → MailDb → JobEnd × MailDb
  unfolding end_of mark_sent
  send_token_email takes job_try now job s = elim (find_one (has_hash job) s.auth_tokens) [
    | none ↦ (JobEnd.done, s)
    | some t ↦
        if not (is_none t.sent_at)
        then (JobEnd.done, s)
        else if takes
        then (
          JobEnd.done,
          record { auth_tokens = mark_sent now t.id s.auth_tokens; outbox = s.outbox ++ job ∷ [] },
        )
        else (end_of true job_try, s)
  ]

  -- A row of tries of one job, as the queue delivers it again and again.
  abbrev pub tries : List (Bool × ℕ × ℕ) → EmailJob → MailDb → MailDb
  tries [] job s = s
  tries ((takes, job_try, now) ∷ more) job s =
      tries more job (send_token_email takes job_try now job s).1

  abbrev pub taken : List (Bool × ℕ × ℕ) → Bool
  taken ts = any (λ t. t.0) ts

  already_sent :
      (ts : List (Bool × ℕ × ℕ)) (job : EmailJob) (s : MailDb) (t : AuthToken)
      → find (has_hash job) (docs s.auth_tokens) ≡ some t
      → is_none t.sent_at ≡ false
      → tries ts job s ≡ s
  unfolding send_token_email
  already_sent [] job s t found h = refl
  already_sent ((takes, job_try, now) ∷ more) job s t found h =
      let same : (send_token_email takes job_try now job s).1 ≡ s =
        rw (send_token_email, find_one_lem (has_hash job) s.auth_tokens, found, h) refl in
      ap (λ u. tries more job u) same ∙ already_sent more job s t found h

  -- However often the job of a token is delivered, its email is sent once if the provider takes it
  -- at some try, and never otherwise. This holds for a token that a newer request has used up, too.
  pub tries_once :
      (ts : List (Bool × ℕ × ℕ)) (job : EmailJob) (s : MailDb) (t : AuthToken)
      → IsKeyed (λ x. x.id) (docs s.auth_tokens)
      → find (has_hash job) (docs s.auth_tokens) ≡ some t
      → is_none t.sent_at ≡ true
      → (tries ts job s).outbox ≡ s.outbox ++ (if taken ts then job ∷ [] else [])
  unfolding send_token_email mark_sent
  tries_once [] job s t keyed found h = sym (append-nil s.outbox)
  tries_once ((true, job_try, now) ∷ more) job s t keyed found h =
      let s' : MailDb = record {
        auth_tokens = mark_sent now t.id s.auth_tokens;
        outbox = s.outbox ++ job ∷ [];
      } in
      let first : (send_token_email true job_try now job s).1 ≡ s' =
        rw (send_token_email, find_one_lem (has_hash job) s.auth_tokens, found, h) refl in
      ap (λ u. (tries more job u).outbox) first
      ∙ ap (λ (u : MailDb). u.outbox) (already_sent more job s' (sent now t) (marked now) refl)
    where
      marked :
          (at : ℕ) → find (has_hash job) (docs (mark_sent at t.id s.auth_tokens)) ≡ some (sent at t)
      marked at =
          ap (find (has_hash job)) (docs-update_one (λ x. x.id == t.id) (sent at) s.auth_tokens)
          ∙ find-update_first (has_hash job) (λ x. x.id) (sent at) (docs s.auth_tokens) (λ y. refl)
              keyed found
  tries_once ((false, job_try, now) ∷ more) job s t keyed found h =
      let first : (send_token_email false job_try now job s).1 ≡ s =
        rw (send_token_email, find_one_lem (has_hash job) s.auth_tokens, found, h) refl in
      ap (λ u. (tries more job u).outbox) first ∙ tries_once more job s t keyed found h
