-- ===== src/Store/Memory.antt =====
-- backend/app/orchestrator/persistence.py, `MemoryOrchestratorStore`: tasks, embeddings, the memory of
-- a repository, its standards and settings, and feedback.
pub mod Recall
use adaptive_multi_agent_pr.Prelude.{
  ℕ, suc, ◌+◌, ◌-◌, String, Bool, true, false, ◌&&◌, ◌||◌, Option, none, some, List, [], ◌∷◌, ◌++◌,
  map, select, any, leb, ◌==◌, if◌then◌else◌,
}
use adaptive_multi_agent_pr.Prelude.Float.{Float}
use adaptive_multi_agent_pr.Prelude.Dict.{Dict, get, put, contains}
use adaptive_multi_agent_pr.Prelude.Decimal.{◌⊕◌}
use adaptive_multi_agent_pr.Adaptive.Features.{Entry}
use adaptive_multi_agent_pr.Adaptive.Feedback.{FeedbackEvent, FeedbackOutcome, outcome_value}
use adaptive_multi_agent_pr.Adaptive.Rag.{EmbeddingRow, RagHit, Filter, top_k_similar}
use adaptive_multi_agent_pr.Consolidation.Datatypes.{EmbeddingWrite}
use adaptive_multi_agent_pr.Store.{
  FindingStatus, candidate, scheduled, published, suppressed, resolved, stale, FindingRow, Store,
  RiskClass, TaskRow, StoredEmbedding, MemoryRow, FeedbackRow, Standard, ReviewSettings,
}

-- `status.value`
abbrev pub status_value : FindingStatus → String
status_value candidate = "CANDIDATE"
status_value scheduled = "SCHEDULED"
status_value published = "PUBLISHED"
status_value suppressed = "SUPPRESSED"
status_value resolved = "RESOLVED"
status_value stale = "STALE"

-- `source` and `details` are opaque, and are left out.
pub record FeedbackWrite : Type 0 where
  pub review_id : String
  pub finding_id : String
  pub repository_id : String
  pub category : String
  pub outcome : FeedbackOutcome
  pub author_login : Option String
  pub commit_sha : Option String

-- `x or ""`
abbrev pub or_blank : Option String → String
or_blank none = ""
or_blank (some x) = x

-- what `feedback_identity` makes the id of: `digest` is the UUID of its SHA-256
unfoldable pub feedback_identity : (String → String) → FeedbackWrite → String
feedback_identity digest w = digest (
    w.review_id
    ⊕ "|"
    ⊕ w.finding_id
    ⊕ "|"
    ⊕ w.repository_id
    ⊕ "|"
    ⊕ outcome_value w.outcome
    ⊕ "|"
    ⊕ or_blank w.commit_sha
    ⊕ "|"
    ⊕ or_blank w.author_login
    ⊕ "|")

abbrev pub to_row : FeedbackWrite → String → ℕ → FeedbackRow
to_row w feedback_id created_at = record {
  id = feedback_id;
  review_id = w.review_id;
  finding_id = some w.finding_id;
  repository_id = w.repository_id;
  category = w.category;
  outcome = w.outcome;
  created_at = some created_at;
}

-- `self.agents.setdefault(key, id)`, where `old` is what the key has
abbrev pub set_default : String → String → Option String → Dict String → Dict String
set_default key id none d = put key id d
set_default key id (some old) d = d

module _ {ℓ} {W : Type ℓ} where
  -- `fresh key` is the random UUID that a new agent gets; the answer is the dictionary of all.
  unfoldable pub sync_agents : (String → String) → List String → Store W → Dict String × Store W
  sync_agents fresh [] s = (s.agents, s)
  sync_agents fresh (key ∷ keys) s =
      sync_agents fresh keys
        (record s { agents = set_default key (fresh key) (get key s.agents) s.agents })

  unfoldable pub create_review_task : TaskRow → Store W → Store W
  create_review_task task s = record s { tasks = s.tasks ++ task ∷ [] }

  unfoldable pub create_embeddings : Option String → List (EmbeddingWrite W) → Store W → Store W
  create_embeddings review_id rows s = record s {
    embeddings =
        s.embeddings ++ map (λ row. record { review_id = review_id; embedding = row }) rows;
  }

  unfoldable pub review_risk_class : String → Store W → Option RiskClass
  review_risk_class key s = elim (get key s.reviews) [ none ↦ none | some r ↦ r.risk_class ]

  unfoldable pub get_repository_memory : String → Store W → Option (Dict (Entry W))
  get_repository_memory key s = elim (get key s.memory) [ none ↦ none | some m ↦ some m.categories ]

  -- the version before: `setdefault` gives a new record the version 0
  abbrev pub version_of : Option (MemoryRow W) → ℕ
  version_of none = 0
  version_of (some m) = m.version

  unfoldable pub upsert_repository_memory : String → Dict (Entry W) → Store W → ℕ × Store W
  upsert_repository_memory key snapshot s =
      let version = version_of (get key s.memory) + 1 in
      (
        version,
        record s {
          memory = put key (record { categories = snapshot; version = version }) s.memory;
        },
      )

  unfoldable pub active_standards : String → Store W → List Standard
  active_standards key s = elim (get key s.standards) [ none ↦ [] | some rows ↦ rows ]

  unfoldable pub embedding_hashes : String → List String → Store W → List String
  embedding_hashes key kinds s =
      map (λ row. row.embedding.content_hash)
        (select
          (λ row. row.embedding.repository_id == key && contains kinds row.embedding.resource_type)
          s.embeddings)

  unfoldable pub repository_review_settings : String → Store W → Option (ReviewSettings W)
  repository_review_settings key s = elim (get key s.repositories) [
    | none ↦ none
    | some repo ↦ repo.review_settings
  ]

  unfoldable pub patch_repository_settings :
      String → ReviewSettings W → Store W → Option (ReviewSettings W) × Store W
  patch_repository_settings key settings s = elim (get key s.repositories) [
    | none ↦ (none, s)
    | some repo ↦ (
      some settings,
      record s {
        repositories = put key (record repo { review_settings = some settings }) s.repositories;
      },
    )
  ]

  -- The id, and the store; `created_at` is the time of the call.
  unfoldable pub create_feedback :
      (String → String) → FeedbackWrite → ℕ → Store W → String × Store W
  unfolding feedback_identity
  create_feedback digest w created_at s =
      let id = feedback_identity digest w in
      (
        id,
        if any (λ row. row.id == id) s.feedback
            then s
            else record s { feedback = s.feedback ++ to_row w id created_at ∷ [] },
      )

  -- the file and the status of the finding that an embedding belongs to
  abbrev finding_of : List (FindingRow W) → String → Option String × Option String
  finding_of [] id = (none, none)
  finding_of (row ∷ rows) id =
      let rest = finding_of rows id in
      if row.finding.id == id
      then (some row.finding.file_path, some (status_value row.publication_status))
      else rest

  abbrev file_and_status : List (FindingRow W) → Option String → Option String × Option String
  file_and_status rows none = (none, none)
  file_and_status rows (some id) = finding_of rows id

  -- `_embedding_row`
  unfoldable pub embedding_row : List (FindingRow W) → StoredEmbedding W → EmbeddingRow W
  embedding_row rows e =
      let row = e.embedding in
      let (file_path, status) = file_and_status rows row.finding_id in
      record {
        id = "";
        repository_id = row.repository_id;
        resource_type = row.resource_type;
        content_hash = row.content_hash;
        vector = row.vector;
        model = row.model;
        finding_id = row.finding_id;
        file_path = file_path;
        status = status;
        content_text = row.content_text;
      }

-- `str(row["finding_id"]) if row.get("finding_id") else None`
abbrev pub truthy : Option String → Option String
truthy none = none
truthy (some id) = if id == "" then none else some id

module _ {ℓ} {W : Type ℓ} ⦃f : Float W⦄ where
  -- `(now_ts - created_ts).total_seconds() / 86400.0`
  unfoldable pub age_days : ℕ → ℕ → W
  age_days now created =
      let seconds =
        if leb created now then f.lit (now - created) 6 else f.neg (f.lit (created - now) 6) in
      f.div seconds (f.lit 86400 0)

  abbrev event_of : ℕ → ℕ → FeedbackRow → FeedbackEvent W
  event_of now created row = record {
    category = row.category;
    outcome = row.outcome;
    age_days = age_days now created;
    finding_id = truthy row.finding_id;
  }

  abbrev is_recent : W → W → Bool
  is_recent age max_age_days = if f.lt age (f.lit 0 0) || f.le max_age_days age then false else true

  unfoldable pub events_in : String → W → ℕ → List FeedbackRow → List (FeedbackEvent W)
  unfolding age_days
  events_in key max_age_days now [] = []
  events_in key max_age_days now (row ∷ rows) =
      let rest = events_in key max_age_days now rows in
      elim row.created_at [
        | none ↦ rest
        | some created ↦
            if row.repository_id == key && is_recent (age_days now created) max_age_days
            then event_of now created row ∷ rest
            else rest
      ]

  unfoldable pub repository_feedback_events : String → W → ℕ → Store W → List (FeedbackEvent W)
  unfolding events_in
  repository_feedback_events key max_age_days now s = events_in key max_age_days now s.feedback

  unfoldable pub retrieve_rag :
      (W → W) → String → List W → ℕ → W → Filter → Store W → List (RagHit W)
  unfolding top_k_similar embedding_row
  retrieve_rag sqrt repository_id query k threshold q s =
      top_k_similar sqrt query
        (map (embedding_row s.findings)
          (select (λ e. e.embedding.repository_id == repository_id) s.embeddings))
        k threshold q
