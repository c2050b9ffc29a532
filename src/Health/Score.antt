-- ===== src/Health/Score.antt =====
-- internal/health/compute.go: the factors and the score.
use yield_forge.Base.{ℕ, ◌≤◌, ◌≡◌, List, map, sum, All}
use yield_forge.Base.Int.{ℤ, pos}
use yield_forge.Money.HalfUp.{IsHalfUp}
use yield_forge.Money.Ratio.Mean.{dot}
use yield_forge.Health.Compute.{FactorScore, HealthScore, score_of}

abbrev pub weight_of : FactorScore → ℤ
weight_of f = f.weight_bps

-- The score is the half-up mean of the factors' scores, each at most 100, by weights that sum to
-- 10000; so it is at most 100 too.
pub record IsScored (h : HealthScore) : Type 0 where
  pub scores : List ℕ
  pub weights : List ℕ
  pub total : ℕ
  pub scores_are : map score_of h.factors ≡ map pos scores
  pub weights_are : map weight_of h.factors ≡ map pos weights
  pub scores_bound : All (λ v. v ≤ 100) scores
  pub weights_sum : sum weights ≡ 10000
  pub total_is : h.score ≡ pos total
  pub total_rounds : IsHalfUp (dot scores weights) 10000 total
  pub total_bound : total ≤ 100

abbrev IsSmall : FactorScore → Type 0
IsSmall f = (n : ℕ) × (f.score ≡ pos n) × (n ≤ 100)
