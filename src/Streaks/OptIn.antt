-- ===== src/Streaks/OptIn.antt =====
-- Who can start and who can activate a streak.
use thesdel.Base.{
  ℕ, ◌≡◌, ◌≢◌, ◌⊎◌, inl, inr, Bool, true, false, not, ◌&&◌, Option, some, String, [], ◌∷◌, ◌++◌,
  ◌==◌, any, arith, Bool-cases, Option-cases, ◌∙◌, ap,
}
use thesdel.Mongo.{Mongo, update_first}
use thesdel.Streaks.Data.{Streak, normalize_pair, is_pair, is_active, pending_streak, activate}
use thesdel.Streaks.Service.{
  StreakDb, create_pending, find_pair, accept_pending, exists_user, invite_pair, accept_found,
  invite, accept,
}

module _ (mongo : Mongo) (object_id : String → Option ℕ) where
  open mongo use {
    docs, find_one_lem, insert_unique, docs-insert_one, docs-update_one, insert_unique-clash,
    insert_unique-fresh,
  }

  -- The invitation that a call may write: pending, by the caller, for a pair in order that has no
  -- streak yet, with another user who exists.
  pub record IsInvitation (id : ℕ) (caller invitee : String) (s s' : StreakDb mongo) : Type 0 where
    pub current : ℕ
    pub other : ℕ
    pub is_caller : object_id caller ≡ some current
    pub is_invitee : object_id invitee ≡ some other
    pub apart : current ≢ other
    pub known : exists_user mongo other s ≡ true
    pub fresh :
        any
          (is_pair (normalize_pair current other).0 (normalize_pair current other).1)
          (docs s.streaks)
        ≡ false
    pub written :
        docs s'.streaks
        ≡ docs s.streaks
          ++ pending_streak id
              (normalize_pair current other).0
              (normalize_pair current other).1
              current
            ∷ []

  invite_pair_writes :
      (id current a b : ℕ) (s : StreakDb mongo)
      → ((invite_pair mongo id current (a, b) s).1 ≡ s)
        ⊎ (any (is_pair a b) (docs s.streaks) ≡ false)
          × (docs (invite_pair mongo id current (a, b) s).1.streaks
              ≡ docs s.streaks ++ pending_streak id a b current ∷ [])
  unfolding invite_pair create_pending
  invite_pair_writes id current a b s =
      let d = pending_streak id a b current in
      elim (Bool-cases (any (is_pair a b) (docs s.streaks))) [
        | inl taken ↦
            let clash = insert_unique-clash (is_pair a b) d s.streaks taken in inl (ground arith)
        | inr free ↦
            let fresh = insert_unique-fresh (is_pair a b) d s.streaks free in
            let end_state : (invite_pair mongo id current (a, b) s).1
                ≡ record s { streaks = mongo.insert_one d s.streaks } =
              ground arith in
            inr (
              free,
              ap (λ (x : StreakDb mongo). docs x.streaks) end_state ∙ docs-insert_one d s.streaks,
            )
      ]

  -- An invite changes no streak that is there: it writes nothing, or adds one pending streak that
  -- names the caller as the inviter.
  pub invite_writes :
      (id : ℕ) (caller invitee : String) (s : StreakDb mongo)
      → let s' = (invite mongo object_id id caller invitee s).1 in
        (s' ≡ s) ⊎ IsInvitation id caller invitee s s'
  unfolding invite
  invite_writes id caller invitee s = elim (Option-cases (object_id caller)) [
    | inl bad ↦ inl (ground arith)
    | inr (current, ec) ↦ elim (Option-cases (object_id invitee)) [
      | inl bad ↦ inl (ground arith)
      | inr (other, ei) ↦ elim (Bool-cases (current == other)) [
        | inl self ↦ inl (ground arith)
        | inr apart ↦ elim (Bool-cases (exists_user mongo other s)) [
          | inr unknown ↦ inl (ground arith)
          | inl known ↦
              let (a, b) = normalize_pair current other in
              let end_state : (invite mongo object_id id caller invitee s).1
                  ≡ (invite_pair mongo id current (a, b) s).1 =
                ground arith in
              elim (invite_pair_writes id current a b s) [
                | inl same ↦ inl (end_state ∙ same)
                | inr (free, written) ↦ inr (record {
                  current = current;
                  other = other;
                  is_caller = ec;
                  is_invitee = ei;
                  apart = ground arith;
                  known = known;
                  fresh = free;
                  written = ap (λ (x : StreakDb mongo). docs x.streaks) end_state ∙ written;
                })
              ]
        ]
      ]
    ]
  ]

  abbrev pub is_pending_pair : ℕ → ℕ → Streak → Bool
  is_pending_pair a b d = is_pair a b d && not (is_active d)

  -- The acceptance that a call may write: of a pending streak of the caller and the other, which
  -- the caller did not send.
  pub record IsAcceptance (now : ℕ) (caller inviter : String) (s s' : StreakDb mongo) : Type 0 where
    pub current : ℕ
    pub other : ℕ
    pub is_caller : object_id caller ≡ some current
    pub is_inviter : object_id inviter ≡ some other
    pub streak : Streak
    pub was_found :
        find_pair mongo (normalize_pair current other).0 (normalize_pair current other).1 s
        ≡ some streak
    pub was_pending : is_active streak ≡ false
    pub by_invitee : streak.invited_by ≢ current
    pub written :
        docs s'.streaks
        ≡ update_first
            (is_pending_pair (normalize_pair current other).0 (normalize_pair current other).1)
            (activate now)
            (docs s.streaks)

  accept_pending_writes :
      (now a b : ℕ) (s : StreakDb mongo)
      → ((accept_pending mongo now a b s).1 ≡ s)
        ⊎ (docs (accept_pending mongo now a b s).1.streaks
            ≡ update_first (is_pending_pair a b) (activate now) (docs s.streaks))
  unfolding accept_pending
  accept_pending_writes now a b s =
      elim (Option-cases (mongo.find_one (is_pending_pair a b) s.streaks)) [
        | inl missing ↦ inl (ground arith)
        | inr (d, found) ↦
            let end_state : (accept_pending mongo now a b s).1 ≡ record s {
              streaks = mongo.update_one (is_pending_pair a b) (activate now) s.streaks;
            } =
              ground arith in
            inr (
              ap (λ (x : StreakDb mongo). docs x.streaks) end_state
              ∙ docs-update_one (is_pending_pair a b) (activate now) s.streaks)
      ]

  accept_found_state :
      (now current a b : ℕ) (d : Streak) (s : StreakDb mongo)
      → is_active d ≡ false
      → (d.invited_by == current) ≡ false
      → (accept_found mongo now current a b d s).1 ≡ (accept_pending mongo now a b s).1
  unfolding accept_found
  accept_found_state now current a b d s p q = ground arith

  -- An accept writes nothing, or activates a pending streak of the caller and the other user: the
  -- caller is then not the one who sent the invitation.
  pub accept_writes :
      (now : ℕ) (caller inviter : String) (s : StreakDb mongo)
      → let s' = (accept mongo object_id now caller inviter s).1 in
        (s' ≡ s) ⊎ IsAcceptance now caller inviter s s'
  unfolding accept accept_found
  accept_writes now caller inviter s = elim (Option-cases (object_id caller)) [
    | inl bad ↦ inl (ground arith)
    | inr (current, ec) ↦ elim (Option-cases (object_id inviter)) [
      | inl bad ↦ inl (ground arith)
      | inr (other, ei) ↦
          let (a, b) = normalize_pair current other in
          elim (Option-cases (find_pair mongo a b s)) [
            | inl missing ↦ inl (ground arith)
            | inr (d, found) ↦ elim (Bool-cases (is_active d)) [
              | inl active ↦ inl (ground arith)
              | inr pending ↦ elim (Bool-cases (d.invited_by == current)) [
                | inl own ↦ inl (ground arith)
                | inr invited ↦
                    let reached : (accept mongo object_id now caller inviter s).1
                        ≡ (accept_found mongo now current a b d s).1 =
                      ground arith in
                    let end_state =
                      reached ∙ accept_found_state now current a b d s pending invited in
                    elim (accept_pending_writes now a b s) [
                      | inl same ↦ inl (end_state ∙ same)
                      | inr written ↦ inr (record {
                        current = current;
                        other = other;
                        is_caller = ec;
                        is_inviter = ei;
                        streak = d;
                        was_found = found;
                        was_pending = pending;
                        by_invitee = ground arith;
                        written = ap (λ (x : StreakDb mongo). docs x.streaks) end_state ∙ written;
                      })
                    ]
              ]
            ]
          ]
    ]
  ]
