-- ===== src/Adaptive/Scoring/Monotone.antt =====
-- `utility` of backend/app/adaptive/scoring.py: how it varies with the features.
use adaptive_multi_agent_pr.Prelude.Float.{Float, IsMonotone, ◌≼◌}
use adaptive_multi_agent_pr.Adaptive.Features.{ArumFeatures}
use adaptive_multi_agent_pr.Adaptive.Weights.{ArumWeights}
use adaptive_multi_agent_pr.Adaptive.Scoring.{utility}

module _ {ℓ} {W : Type ℓ} ⦃f : Float W⦄ where
  pub record IsNonNegative (w : ArumWeights W) : Type 0 where
    pub w1 : f.lit 0 0 ≼ w.w1_severity
    pub w2 : f.lit 0 0 ≼ w.w2_confidence
    pub w3 : f.lit 0 0 ≼ w.w3_agent_agreement
    pub w4 : f.lit 0 0 ≼ w.w4_historical_actionability
    pub w5 : f.lit 0 0 ≼ w.w5_repository_relevance
    pub w6 : f.lit 0 0 ≼ w.w6_context_relevance
    pub w7 : f.lit 0 0 ≼ w.w7_redundancy
    pub w8 : f.lit 0 0 ≼ w.w8_historical_rejection

  -- `y` is at least as good as `x`: no gain is smaller, and no penalty larger
  pub record Dominates (y x : ArumFeatures W) : Type 0 where
    pub severity : x.severity ≼ y.severity
    pub confidence : x.confidence ≼ y.confidence
    pub agent_agreement : x.agent_agreement ≼ y.agent_agreement
    pub historical_actionability : x.historical_actionability ≼ y.historical_actionability
    pub repository_relevance : x.repository_relevance ≼ y.repository_relevance
    pub context_relevance : x.context_relevance ≼ y.context_relevance
    pub redundancy : y.redundancy ≼ x.redundancy
    pub historical_rejection : y.historical_rejection ≼ x.historical_rejection

-- If the arithmetic of floats is monotone and no weight is negative, then a finding whose features
-- dominate another's has at least its utility.
pub utility_mono {ℓ} :
    {W : Type ℓ} ⦃f : Float W⦄ (laws : IsMonotone W) (x y : ArumFeatures W) (w : ArumWeights W)
    → IsNonNegative w
    → Dominates y x
    → utility x w ≼ utility y w
unfolding utility
utility_mono laws x y w n d = laws.round_mono _ _ 6 (
    laws.sub_mono _ _ _ _
      (laws.sub_mono _ _ _ _
        (laws.add_mono _ _ _ _
          (laws.add_mono _ _ _ _
            (laws.add_mono _ _ _ _
              (laws.add_mono _ _ _ _
                (laws.add_mono _ _ _ _ (laws.mul_mono _ _ _ n.w1 d.severity)
                  (laws.mul_mono _ _ _ n.w2 d.confidence))
                (laws.mul_mono _ _ _ n.w3 d.agent_agreement))
              (laws.mul_mono _ _ _ n.w4 d.historical_actionability))
            (laws.mul_mono _ _ _ n.w5 d.repository_relevance))
          (laws.mul_mono _ _ _ n.w6 d.context_relevance))
        (laws.mul_mono _ _ _ n.w7 d.redundancy))
      (laws.mul_mono _ _ _ n.w8 d.historical_rejection))
