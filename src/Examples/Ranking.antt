-- ===== src/Examples/Ranking.antt =====
-- Examples for backend/app/adaptive: features, weights, utilities, selection.
use adaptive_multi_agent_pr.Prelude.{
  String, ◌≡◌, refl, true, Option, none, some, List, [], ◌∷◌, length, map, All,
}
use mathlib.Core.List.{Perm}
use adaptive_multi_agent_pr.Prelude.Int.{ℤ, pos}
use adaptive_multi_agent_pr.Prelude.Dict.{Dict, get, contains}
use adaptive_multi_agent_pr.Prelude.Float.{
  Micros, micros_float, Micros-IsOrdered, Micros-IsMonotone, Micros-IsFractional, Micros-IsUnital,
  ◌≼◌,
}
use adaptive_multi_agent_pr.Consolidation.Datatypes.{FindingWrite}
use adaptive_multi_agent_pr.Adaptive.Weights as Weights
use adaptive_multi_agent_pr.Adaptive.Weights.{
  ArumWeights, default_weights, with_overrides, as_dict, values,
}
use adaptive_multi_agent_pr.Adaptive.Weights.Overrides.{overridden, with_overrides-merges}
use adaptive_multi_agent_pr.Adaptive.Features.{ArumFeatures, extract_features}
use adaptive_multi_agent_pr.Adaptive.Features.Bounds.{IsNormalised, extract_features-IsNormalised}
use adaptive_multi_agent_pr.Adaptive.Scoring.{Decision, utility, rank_decisions}
use adaptive_multi_agent_pr.Adaptive.Scoring.Monotone.{utility_mono}
use adaptive_multi_agent_pr.Adaptive.Selection as Selection
use adaptive_multi_agent_pr.Adaptive.Selection.{
  Thresholds, SelectionResult, select_decisions, finish, gate_loop, start,
}
use adaptive_multi_agent_pr.Adaptive.Selection.Counts.{Accounts, select_decisions-counts}
use adaptive_multi_agent_pr.Adaptive.Selection.Gates.{IsJudged, bare, select_decisions-IsJudged}
use adaptive_multi_agent_pr.Adaptive.Selection.Rank.{is_fair, select_decisions-IsFair}

abbrev weak : ArumFeatures Micros
weak = record {
  severity = pos 200_000;
  confidence = pos 400_000;
  agent_agreement = pos 500_000;
  historical_actionability = pos 0;
  repository_relevance = pos 0;
  context_relevance = pos 0;
  redundancy = pos 500_000;
  historical_rejection = pos 0;
}

abbrev strong : ArumFeatures Micros
strong = record weak { severity = pos 1_000_000; confidence = pos 900_000 }

abbrev scored_as : String → ArumFeatures Micros → ℤ → Decision Micros
scored_as id x u = record {
  review_id = "review";
  finding_id = id;
  group_id = none;
  arum_version = "v1";
  features = x;
  utility = u;
  weights = default_weights;
  inputs_hash = "hash";
  budget_cap = none;
  safety_gate = none;
  selected = none;
}

abbrev three : List (Decision Micros)
three =
    scored_as "a" weak (pos 100_000)
    ∷ scored_as "b" strong (pos 700_000)
    ∷ scored_as "c" weak (pos 300_000)
    ∷ []

abbrev thresholds : Thresholds Micros
thresholds = record {
  high_confidence = pos 800_000;
  low_confidence = pos 300_000;
  high_redundancy = pos 700_000;
}

abbrev two_of_three : SelectionResult Micros
two_of_three = finish 2 (gate_loop thresholds 2 (rank_decisions three) start)

runs : select_decisions three (pos 2) thresholds ≡ Selection.ok two_of_three
unfolding select_decisions
runs = refl

select_decisions-counts_example :
    (r : SelectionResult Micros) × (select_decisions three (pos 2) thresholds ≡ Selection.ok r)
    × Accounts (length three) r
    × (r.cap ≡ 2)
unfolding select_decisions
select_decisions-counts_example = select_decisions-counts three 2 thresholds refl

select_decisions-IsFair_example :
    All (λ a. All (λ b. is_fair a b ≡ true) two_of_three.decisions) two_of_three.decisions
select_decisions-IsFair_example =
    select_decisions-IsFair Micros-IsOrdered three (pos 2) thresholds runs

select_decisions-IsJudged_example :
    All (IsJudged thresholds two_of_three.cap) two_of_three.decisions
    × Perm (map bare two_of_three.decisions) (map bare three)
select_decisions-IsJudged_example = select_decisions-IsJudged three (pos 2) thresholds runs

abbrev severity_override : Dict (Option Micros)
severity_override = ("w1_severity", some (pos 500_000)) ∷ ("w7_redundancy", none) ∷ []

with_overrides-merges_example :
    (w' : ArumWeights Micros) × (with_overrides default_weights severity_override ≡ Weights.ok w')
    × (w'.version ≡ "v1")
    × ((k : String)
        → get k (as_dict w')
          ≡ overridden
              (get k (values severity_override))
              (get k (as_dict (default_weights {W = Micros}))))
unfolding with_overrides default_weights contains
with_overrides-merges_example = with_overrides-merges default_weights severity_override refl refl

abbrev odd_finding : FindingWrite Micros
odd_finding = record {
  id = "f";
  agent_key = "security";
  agent_id = "1";
  review_id = "review";
  repository_id = "repo";
  file_path = "a.py";
  line_start = some (pos 3);
  line_end = none;
  category = "security/xss";
  severity = "Blocker";
  confidence = pos 7_000_000;
  title = "t";
  description = "d";
  suggested_fix = none;
  reason_summary = "r";
  duplicate_group = none;
}

extract_features-IsNormalised_example :
    IsNormalised (extract_features odd_finding 3 2 (pos 100_000) none)
extract_features-IsNormalised_example =
    extract_features-IsNormalised Micros-IsOrdered Micros-IsMonotone Micros-IsFractional
      Micros-IsUnital odd_finding 3 2 (pos 100_000) none

utility_mono_example : utility weak default_weights ≼ utility strong default_weights
unfolding default_weights
utility_mono_example =
    utility_mono Micros-IsMonotone weak strong default_weights
      (record {
        w1 = refl;
        w2 = refl;
        w3 = refl;
        w4 = refl;
        w5 = refl;
        w6 = refl;
        w7 = refl;
        w8 = refl;
      })
      (record {
        severity = refl;
        confidence = refl;
        agent_agreement = refl;
        historical_actionability = refl;
        repository_relevance = refl;
        context_relevance = refl;
        redundancy = refl;
        historical_rejection = refl;
      })
