-- ===== src/Streaks/Data.antt =====
-- app/streaks: a streak, its pair and the tests on its moments.
use thesdel.Base.{
  ℕ, ◌+◌, ◌/◌, Bool, true, false, not, ◌&&◌, Option, none, some, ltb, ◌==◌, if◌then◌else◌,
}

pub data StreakStatus : Type 0 where
  pending active : StreakStatus

pub record Streak : Type 0 where
  pub id : ℕ
  pub user_a : ℕ
  pub user_b : ℕ
  pub invited_by : ℕ
  pub current_streak : ℕ
  pub last_interaction_at : Option ℕ
  pub status : StreakStatus

-- 48 hours
abbrev pub stale_window : ℕ
stale_window = 172800000000

abbrev pub day_length : ℕ
day_length = 86400000000

abbrev pub milestone_interval_days : ℕ
milestone_interval_days = 7

abbrev pub milestone_score_award : ℕ
milestone_score_award = 10

unfoldable pub normalize_pair : ℕ → ℕ → ℕ × ℕ
normalize_pair x y = if ltb x y then (x, y) else (y, x)

abbrev pub is_active : Streak → Bool
is_active d = elim d.status [ StreakStatus.pending ↦ false | StreakStatus.active ↦ true ]

abbrev pub is_pair : ℕ → ℕ → Streak → Bool
is_pair a b d = (d.user_a == a) && (d.user_b == b)

abbrev pub same_moment : Option ℕ → Option ℕ → Bool
same_moment none none = true
same_moment (some s) (some t) = s == t
same_moment none (some t) = false
same_moment (some s) none = false

-- `last is not None and last.date() == now.date()`
abbrev pub is_today : ℕ → Option ℕ → Bool
is_today now none = false
is_today now (some last) = last / day_length == now / day_length

-- `last is None or (now - last) > STALE_WINDOW`
abbrev pub is_stale : ℕ → Option ℕ → Bool
is_stale now none = true
is_stale now (some last) = ltb (last + stale_window) now

pub record CheckInResult : Type 0 where
  pub streak : Streak
  pub already_checked_in_today : Bool

-- The read-time view; it is not written.
unfoldable pub apply_lazy_reset : ℕ → Streak → Streak
apply_lazy_reset now d =
    if is_active d
      && (not (same_moment d.last_interaction_at none)
          && (is_stale now d.last_interaction_at && not (d.current_streak == 0)))
    then record d { current_streak = 0 }
    else d

abbrev pub pending_streak : ℕ → ℕ → ℕ → ℕ → Streak
pending_streak id a b invited_by = record {
  id = id;
  user_a = a;
  user_b = b;
  invited_by = invited_by;
  current_streak = 0;
  last_interaction_at = none;
  status = StreakStatus.pending;
}

abbrev pub activate : ℕ → Streak → Streak
activate now d = record d {
  status = StreakStatus.active;
  last_interaction_at = some now;
  current_streak = 1;
}

abbrev pub checked_in : ℕ → ℕ → Streak → Streak
checked_in now n d = record d { current_streak = n; last_interaction_at = some now }
