-- ===== src/Progression/Rank.antt =====
-- `compute_rank`: the tier of the highest threshold that the score has reached.
use native.Mathlib.Decide.{dec_lt}
use thesdel.Base.{ℕ, ◌≤◌, ◌<◌, ◌≡◌, ◌⊎◌, inl, inr, String, arith, All, Any, sym}
use thesdel.Progression.{rank_thresholds, compute_rank}

-- The entry names the rank, is reached, and no higher one is.
abbrev pub IsTop : ℕ → String → ℕ × String → Type 0
IsTop score rank entry =
    (entry.1 ≡ rank)
    × (entry.0 ≤ score)
    × All (λ other. (other.0 ≤ entry.0) ⊎ (score < other.0)) rank_thresholds

rank_unranked : (score : ℕ) → score < 100 → compute_rank score ≡ "Unranked"
unfolding compute_rank
rank_unranked score hi = ground arith

rank_rising : (score : ℕ) → 100 ≤ score → score < 500 → compute_rank score ≡ "Rising"
unfolding compute_rank
rank_rising score lo hi = ground arith

rank_contender : (score : ℕ) → 500 ≤ score → score < 2000 → compute_rank score ≡ "Contender"
unfolding compute_rank
rank_contender score lo hi = ground arith

rank_elite : (score : ℕ) → 2000 ≤ score → score < 5000 → compute_rank score ≡ "Elite"
unfolding compute_rank
rank_elite score lo hi = ground arith

rank_legend : (score : ℕ) → 5000 ≤ score → compute_rank score ≡ "Legend"
unfolding compute_rank
rank_legend score lo = ground arith

-- The rank is the tier of the highest threshold that the score has reached.
pub compute_rank-IsTop : (score : ℕ) → Any (IsTop score (compute_rank score)) rank_thresholds
compute_rank-IsTop score = elim (dec_lt score 100) [
  | yes a ↦ inl (sym (rank_unranked score a), omega arith, omega arith)
  | no a ↦ elim (dec_lt score 500) [
    | yes b ↦ inr (inl (sym (rank_rising score (omega arith) b), omega arith, omega arith))
    | no b ↦ elim (dec_lt score 2000) [
      | yes c ↦
          inr (inr (inl (sym (rank_contender score (omega arith) c), omega arith, omega arith)))
      | no c ↦ elim (dec_lt score 5000) [
        | yes d ↦
            inr (inr (inr (inl (sym (rank_elite score (omega arith) d), omega arith, omega arith))))
        | no d ↦ inr (
            inr (inr (inr (inl (sym (rank_legend score (omega arith)), omega arith, omega arith)))))
      ]
    ]
  ]
]
