-- ===== src/Orchestrator/Messages.antt =====
-- The texts that backend/app/orchestrator/service.py writes on a review: a constructor for each, with
-- the values that the text names.
use adaptive_multi_agent_pr.Prelude.{ℕ, String, Bool}
use adaptive_multi_agent_pr.Orchestrator.Graph as G
use adaptive_multi_agent_pr.Orchestrator.Graph.{RootCause}
use adaptive_multi_agent_pr.Consolidation.Consolidate.{DropError, EmbeddingsError}
use adaptive_multi_agent_pr.Adaptive.Weights.{ConfigurationError}
use adaptive_multi_agent_pr.Adaptive.Selection.{ValueError}
use adaptive_multi_agent_pr.Adaptive.Memory.{DecayError}

-- the texts of `scope_validation_error`
pub data ScopeError : Type 0 where
  no_changed_files missing_head_ref : ScopeError

-- what stops the consolidation
pub data ConsolidationError : Type 0 where
  provider_failed : String → ConsolidationError
  detection_failed : EmbeddingsError → ConsolidationError

-- what stops the decision
pub data DecisionError : Type 0 where
  bad_weights : ConfigurationError → DecisionError
  bad_decay : DecayError → DecisionError
  bad_provider : String → DecisionError
  bad_embedding : String → DecisionError
  unpaired_vectors : DecisionError
  empty_group : String → DecisionError
  bad_selection : ValueError → DecisionError
  bad_trace : String → DecisionError

-- a failure reason or a root cause
pub data Diagnosis : Type 0 where
  scope_unusable : ScopeError → Diagnosis
  scope_reason : ScopeError → Diagnosis
  agents : RootCause → Diagnosis
  consolidation : ConsolidationError → Diagnosis
  decision : DecisionError → Diagnosis

-- the counters of the note on a decision
pub record DecisionNote : Type 0 where
  pub selected_count : ℕ
  pub candidates : ℕ
  pub version : String
  pub cap : ℕ
  pub mandatory_count : ℕ
  pub protected_count : ℕ
  pub suppressed_by_gate : ℕ
  pub truncated_by_budget : ℕ
  pub risk_missing : Bool
  pub cold_start : Bool
  pub repo_settings : Bool

pub data Note : Type 0 where
  text : String → Note
  -- resolved, stale and kept findings of an iteration
  delta : ℕ → ℕ → ℕ → Note
  run : G.Note → Note
  early_failure : ScopeError → Note
  -- how many items were dropped, and why the first
  dropped : ℕ → DropError → Note
  -- findings, groups and dropped items
  consolidated : ℕ → ℕ → ℕ → Note
  decided : DecisionNote → Note
