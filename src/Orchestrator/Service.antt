-- ===== src/Orchestrator/Service.antt =====
-- backend/app/orchestrator/service.py: what the run of a review takes, and the two readers of the
-- repository's settings.
pub mod Score
pub mod Decide
pub mod Consolidating
pub mod Persist
pub mod Running
pub mod Blind
pub mod Trail
pub mod Traced
pub mod Total
pub mod Known
pub mod Path
pub mod Schedule
use adaptive_multi_agent_pr.Prelude.{ℕ, String, Option, none, some, List}
use adaptive_multi_agent_pr.Prelude.Int.{ℤ}
use adaptive_multi_agent_pr.Prelude.Dict.{Dict, get}
use adaptive_multi_agent_pr.Prelude.Fallible.{Fallible}
use adaptive_multi_agent_pr.Adaptive.Features.{ArumFeatures, Value, number}
use adaptive_multi_agent_pr.Adaptive.Weights.{ArumWeights}
use adaptive_multi_agent_pr.Adaptive.Scoring.{Decision}
use adaptive_multi_agent_pr.Adaptive.Selection.{Thresholds}
use adaptive_multi_agent_pr.Agents.Contract.{AgentFinding}
use adaptive_multi_agent_pr.Consolidation.Datatypes.{FindingWrite}
use adaptive_multi_agent_pr.Consolidation.Consolidate.{Provider}
use adaptive_multi_agent_pr.Orchestrator.Graph.{Runner}
use adaptive_multi_agent_pr.Store.{RiskClass, low, medium, high, RepoBudget}

-- The settings that the run reads.
pub record Settings {ℓ} (W : Type ℓ) : Type ℓ where
  pub arum_weights_version : String
  pub arum_temporal_decay_days : W
  pub arum_decay_lambda : W
  pub review_budget_low : ℤ
  pub review_budget_medium : ℤ
  pub review_budget_high : ℤ
  pub gates : Thresholds W
  pub arum_rag_top_k : ℕ
  pub arum_rag_min_similarity : W
  pub orchestrator_max_agent_retries : ℤ
  pub orchestrator_agent_timeout_seconds : W
  pub consolidation_similarity_threshold : W
  pub consolidation_max_line_gap : ℤ
  pub iteration_line_gap : ℕ

-- What is outside of the code: the mathematics of floats, the validation of agent answers, hashes,
-- random ids, the clock (a time for each place that reads it), the agents, the providers and the trace.
-- `started_at` is left out: nothing reads it.
pub record Context {ℓ} (W : Type ℓ) (D S : Type 0) : Type ℓ where
  pub sqrt : W → W
  pub exp : W → W
  pub validate : D → Fallible String (AgentFinding W)
  pub content_hash : String → String
  pub uuid5 : String → String
  pub group_id : FindingWrite W → String
  pub compute_inputs_hash : String → String → ArumFeatures W → ArumWeights W → String
  pub fresh : String → String
  -- `str(uuid.UUID(x))`; `none` for a ValueError
  pub canonical_id : String → Option String
  -- the text of the exception of the trace's n-th `append` in a run, if it raises one; the trace in
  -- memory, which stands in for a trace that is None, raises none
  pub trace_append : ℕ → Decision W → Option String
  -- LangGraph's limit on the nodes of a run
  pub recursion_limit : ℕ
  pub clock : ℕ → ℕ
  pub runner : Runner D S
  pub agent_keys : List String
  pub settings : Settings W
  pub embeddings_provider : Option (Provider W)
  -- `build_embeddings_provider(settings)`
  pub built_provider : Fallible String (Provider W)

-- the override for the class, if it is set
abbrev own_cap : RepoBudget → Option RiskClass → Option ℤ
own_cap b (some low) = b.low
own_cap b (some medium) = b.medium
own_cap b _ = none

abbrev or_cap : Option ℤ → ℤ → ℤ
or_cap none n = n
or_cap (some m) n = m

module _ {ℓ} {W : Type ℓ} where
  abbrev global_cap : Settings W → Option RiskClass → ℤ
  global_cap cfg (some low) = cfg.review_budget_low
  global_cap cfg (some medium) = cfg.review_budget_medium
  global_cap cfg (some high) = cfg.review_budget_high
  global_cap cfg none = cfg.review_budget_high

  -- `_budget_cap`: the repository's `high` stands in for any class without a cap of its own
  unfoldable pub budget_cap : Option RiskClass → Settings W → Option RepoBudget → ℤ
  budget_cap risk cfg none = global_cap cfg risk
  budget_cap risk cfg (some b) = or_cap (own_cap b risk) (or_cap b.high (global_cap cfg risk))

  -- `_repo_float`
  unfoldable pub repo_float : Dict (Value W) → String → W → W
  repo_float settings key default = elim (get key settings) [
    | none ↦ default
    | some value ↦ elim value [ number x ↦ x | _ ↦ default ]
  ]
