-- ===== src/Adaptive/Scoring.antt =====
-- backend/app/adaptive/scoring.py: the weighted utility, the decision record and the ranking.
pub mod Monotone
use adaptive_multi_agent_pr.Prelude.{ℕ, String, Bool, Option, List, if◌then◌else◌}
use adaptive_multi_agent_pr.Prelude.Float.{Float, eq}
use adaptive_multi_agent_pr.Prelude.Text.{text_lt}
use adaptive_multi_agent_pr.Prelude.Sort.{sort}
use adaptive_multi_agent_pr.Adaptive.Features.{ArumFeatures}
use adaptive_multi_agent_pr.Adaptive.Weights.{ArumWeights}

-- The reasons of selection.py: "critical_mandatory", "high_confidence_high_severity" and
-- "low_value_high_redundancy".
pub data Gate : Type 0 where
  critical protected suppressed : Gate

-- A budget cap is a natural number: `select_decisions` refuses the others.
pub record Decision {ℓ} (W : Type ℓ) : Type ℓ where
  pub review_id : String
  pub finding_id : String
  pub group_id : Option String
  pub arum_version : String
  pub features : ArumFeatures W
  pub utility : W
  pub weights : ArumWeights W
  pub inputs_hash : String
  pub budget_cap : Option ℕ
  pub safety_gate : Option Gate
  pub selected : Option Bool

module _ {ℓ} {W : Type ℓ} ⦃f : Float W⦄ where
  unfoldable pub utility : ArumFeatures W → ArumWeights W → W
  utility x w =
      let gain =
        f.add
          (f.add
            (f.add
              (f.add (f.add (f.mul w.w1_severity x.severity) (f.mul w.w2_confidence x.confidence))
                (f.mul w.w3_agent_agreement x.agent_agreement))
              (f.mul w.w4_historical_actionability x.historical_actionability))
            (f.mul w.w5_repository_relevance x.repository_relevance))
          (f.mul w.w6_context_relevance x.context_relevance) in
      f.round
        (f.sub (f.sub gain (f.mul w.w7_redundancy x.redundancy))
          (f.mul w.w8_historical_rejection x.historical_rejection))
        6

  -- the tuples (-d.utility, d.finding_id) in their order
  unfoldable pub key_lt : Decision W → Decision W → Bool
  key_lt a b =
      if eq (f.neg a.utility) (f.neg b.utility)
      then text_lt a.finding_id b.finding_id
      else f.lt (f.neg a.utility) (f.neg b.utility)

  unfoldable pub rank_decisions : List (Decision W) → List (Decision W)
  unfolding key_lt
  rank_decisions = sort key_lt
