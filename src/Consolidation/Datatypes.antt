-- ===== src/Consolidation/Datatypes.antt =====
-- backend/app/consolidation/datatypes.py: the rows that consolidation writes.
use adaptive_multi_agent_pr.Prelude.{String, ℕ, Option, List}
use adaptive_multi_agent_pr.Prelude.Int.{ℤ}

-- `evidence` is opaque JSON that no code here reads, and is left out.
pub record FindingWrite {ℓ} (W : Type ℓ) : Type ℓ where
  pub id : String
  pub agent_key : String
  pub agent_id : String
  pub review_id : String
  pub repository_id : String
  pub file_path : String
  pub line_start : Option ℤ
  pub line_end : Option ℤ
  pub category : String
  pub severity : String
  pub confidence : W
  pub title : String
  pub description : String
  pub suggested_fix : Option String
  pub reason_summary : String
  pub duplicate_group : Option String

pub record FindingGroupWrite {ℓ} (W : Type ℓ) : Type ℓ where
  pub id : String
  pub representative_finding_id : String
  pub member_count : ℕ
  pub redundancy_method : String
  pub max_pairwise_similarity : W

pub record EmbeddingWrite {ℓ} (W : Type ℓ) : Type ℓ where
  pub finding_id : Option String
  pub repository_id : String
  pub content_hash : String
  pub vector : List W
  pub model : String
  pub resource_type : String
  pub content_text : Option String

pub record ConsolidationSummary {ℓ} (W : Type ℓ) : Type ℓ where
  pub findings : List (FindingWrite W)
  pub groups : List (FindingGroupWrite W)
  pub embeddings : List (EmbeddingWrite W)
  pub agent_keys : List String
