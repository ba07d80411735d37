-- ===== src/Store.antt =====
-- backend/app/orchestrator/persistence.py, `MemoryOrchestratorStore`: its rows, and how a row is
-- found. `str(...)` of an id is the id. A time is a number of microseconds, which `isoformat` and
-- `fromisoformat` keep; `utc_now()` is an argument. A field that a record may lack is an Option.
pub mod Reviews
pub mod Findings
pub mod Queue
pub mod Payload
pub mod Claims
pub mod Memory
use adaptive_multi_agent_pr.Prelude.{
  ℕ, String, Bool, Option, none, some, List, [], ◌∷◌, map, ◌==◌, if◌then◌else◌,
}
use adaptive_multi_agent_pr.Prelude.Dict.{Dict, get, put}
use adaptive_multi_agent_pr.Prelude.Int.{ℤ}
use adaptive_multi_agent_pr.Adaptive.Features.{ArumFeatures, Entry, Value}
use adaptive_multi_agent_pr.Consolidation.Datatypes.{
  FindingWrite, FindingGroupWrite, EmbeddingWrite,
}
use adaptive_multi_agent_pr.Adaptive.Feedback.{FeedbackOutcome}
use adaptive_multi_agent_pr.Orchestrator.Graph.{Failure}
use adaptive_multi_agent_pr.Orchestrator.Messages.{Diagnosis, Note}

-- backend/app/models/enums.py
pub data ReviewStatus : Type 0 where
  received queued processing agents_running consolidating deciding publishing published_ :
      ReviewStatus
  waiting_for_feedback iterating completed failed_ cancelled : ReviewStatus

pub data FindingStatus : Type 0 where
  candidate scheduled published suppressed resolved stale : FindingStatus

pub record HistoryEntry : Type 0 where
  pub status : ReviewStatus
  pub from : Option ReviewStatus
  pub at : ℕ

pub data RiskClass : Type 0 where
  low medium high : RiskClass

pub record ReviewRecord {ℓ} (W : Type ℓ) : Type ℓ where
  pub status : Option ReviewStatus
  pub claimed_at : Option ℕ
  pub failure_reason : Option Diagnosis
  pub root_cause : Option Diagnosis
  pub completed_at : Option ℕ
  pub status_history : List HistoryEntry
  pub supervisor_notes : List Note
  pub arum_version : Option String
  pub budget_cap : Option ℕ
  pub selected_count : Option ℕ
  pub suppressed_count : Option ℕ
  pub priority_score : Option W
  pub risk_class : Option RiskClass
  pub repository_id : Option String
  pub repository_full_name : Option String
  pub head_sha : Option String
  pub pr_number : Option ℕ
  pub pr_title : Option String
  pub github_review_id : Option ℕ
  pub published_at : Option ℕ

abbrev pub empty_record {ℓ} : {W : Type ℓ} → ReviewRecord W
empty_record = record {
  status = none;
  claimed_at = none;
  failure_reason = none;
  root_cause = none;
  completed_at = none;
  status_history = [];
  supervisor_notes = [];
  arum_version = none;
  budget_cap = none;
  selected_count = none;
  suppressed_count = none;
  priority_score = none;
  risk_class = none;
  repository_id = none;
  repository_full_name = none;
  head_sha = none;
  pr_number = none;
  pr_title = none;
  github_review_id = none;
  published_at = none;
}

-- What the row of a finding has beside the fields it was written with.
pub record FindingRow {ℓ} (W : Type ℓ) : Type ℓ where
  pub finding : FindingWrite W
  pub publication_status : FindingStatus
  pub arum_features : Option (ArumFeatures W)
  pub arum_utility : Option W
  pub arum_version : Option String
  pub github_comment_id : Option ℕ

pub record IterationRow : Type 0 where
  pub review_id : String
  pub iteration : ℕ
  pub base_sha : String
  pub head_sha : String
  pub published_count : ℕ
  pub resolved_count : ℕ
  pub stale_count : ℕ

-- The scope's JSON is left out, and so is `celery_task_id`, which no code here sets.
pub record TaskRow : Type 0 where
  pub review_id : String
  pub agent_key : String
  pub agent_id : String
  pub queue_name : String
  pub success : Bool
  pub retry_count : ℕ
  pub last_error : Option Failure

-- `id` is a random UUID that no code here reads, and is left out.
pub record StoredEmbedding {ℓ} (W : Type ℓ) : Type ℓ where
  pub review_id : Option String
  pub embedding : EmbeddingWrite W

-- `categories` is what is read of a snapshot; the weights of a candidate that was learned are opaque.
pub record MemoryRow {ℓ} (W : Type ℓ) : Type ℓ where
  pub categories : Dict (Entry W)
  pub version : ℕ

pub record FeedbackRow : Type 0 where
  pub id : String
  pub review_id : String
  pub finding_id : Option String
  pub repository_id : String
  pub category : String
  pub outcome : FeedbackOutcome
  pub created_at : Option ℕ

pub record Standard : Type 0 where
  pub rule_key : String
  pub description : String

-- `review_budget`: a value that is no int counts as missing
pub record RepoBudget : Type 0 where
  pub low : Option ℤ
  pub medium : Option ℤ
  pub high : Option ℤ

-- the settings that are read; `safety_gates` holds what each value is as a float, or junk
pub record ReviewSettings {ℓ} (W : Type ℓ) : Type ℓ where
  -- whether the object has any key
  pub has_keys : Bool
  pub review_budget : Option RepoBudget
  pub safety_gates : Dict (Value W)
  pub arum_weights : Option (Dict (Option W))

pub record RepositoryRow {ℓ} (W : Type ℓ) : Type ℓ where
  pub full_name : Option String
  pub review_settings : Option (ReviewSettings W)

-- The audit trail and the metrics of the agents, which only the dashboard reads, are left out.
pub record Store {ℓ} (W : Type ℓ) : Type ℓ where
  pub reviews : Dict (ReviewRecord W)
  pub agents : Dict String
  pub tasks : List TaskRow
  pub findings : List (FindingRow W)
  pub finding_groups : List (String × FindingGroupWrite W)
  pub embeddings : List (StoredEmbedding W)
  pub memory : Dict (MemoryRow W)
  pub feedback : List FeedbackRow
  pub standards : Dict (List Standard)
  pub iterations : List IterationRow
  pub repositories : Dict (RepositoryRow W)

abbrev pub empty_store {ℓ} : {W : Type ℓ} → Store W
empty_store = record {
  reviews = [];
  agents = [];
  tasks = [];
  findings = [];
  finding_groups = [];
  embeddings = [];
  memory = [];
  feedback = [];
  standards = [];
  iterations = [];
  repositories = [];
}

-- `for row in rows: if p(row): ...; break`
unfoldable pub update_first {ℓ} : {A : Type ℓ} → (A → Bool) → (A → A) → List A → List A
update_first p f [] = []
update_first p f (x ∷ xs) = let rest = update_first p f xs in if p x then f x ∷ xs else x ∷ rest

-- `for row in rows: if p(row): ...`
unfoldable pub update_all {ℓ} : {A : Type ℓ} → (A → Bool) → (A → A) → List A → List A
update_all p f [] = []
update_all p f (x ∷ xs) = (if p x then f x else x) ∷ update_all p f xs

module _ {ℓ} {W : Type ℓ} where
  -- `self.reviews[key] = record`
  abbrev pub set_review : String → ReviewRecord W → Store W → Store W
  set_review key r s = record s { reviews = put key r s.reviews }

  -- `self.reviews.setdefault(key, {})`
  abbrev pub review_or_empty : String → Store W → ReviewRecord W
  review_or_empty key s = elim (get key s.reviews) [ none ↦ empty_record | some r ↦ r ]
