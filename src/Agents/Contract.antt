-- ===== src/Agents/Contract.antt =====
-- backend/app/agents/contract.py: the diff windows that an agent is given.
use adaptive_multi_agent_pr.Prelude.{String, Bool, true, false, Option, List}
use adaptive_multi_agent_pr.Prelude.Int.{ℤ}

pub data ChangeKind : Type 0 where
  added modified removed renamed unknown : ChangeKind

-- `kind is ChangeKind.REMOVED`
abbrev pub is_removed : ChangeKind → Bool
is_removed ChangeKind.removed = true
is_removed _ = false

pub record FileSlice : Type 0 where
  pub file_path : String
  pub patch : String
  pub new_start : Option ℤ
  pub new_end : Option ℤ
  pub change_kind : ChangeKind
  pub old_path : Option String

-- backend/app/models/enums.py
pub data Severity : Type 0 where
  info low medium high critical : Severity

-- `severity.value`
abbrev pub severity_value : Severity → String
severity_value info = "INFO"
severity_value low = "LOW"
severity_value medium = "MEDIUM"
severity_value high = "HIGH"
severity_value critical = "CRITICAL"

-- `evidence` is opaque JSON that no code here reads, and is left out.
pub record AgentFinding {ℓ} (W : Type ℓ) : Type ℓ where
  pub file_path : String
  pub line_start : Option ℤ
  pub line_end : Option ℤ
  pub category : String
  pub severity : Severity
  pub confidence : W
  pub title : String
  pub description : String
  pub suggested_fix : Option String
  pub reason_summary : String
  pub related_categories : List String

-- The fields of `AgentScope` that the run of a review reads itself.
pub record AgentScope : Type 0 where
  pub review_id : String
  pub repository_id : String
  pub base_ref : String
  pub head_ref : String
  pub changed_files : List FileSlice
