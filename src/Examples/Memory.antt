-- ===== src/Examples/Memory.antt =====
-- Examples for backend/app/adaptive (retrieval, memory, learning), consolidation and the store's memory.
use adaptive_multi_agent_pr.Prelude.{
  ◌+◌, String, ◌≡◌, refl, true, ◌==◌, if◌then◌else◌, any, none, some, List, [], ◌∷◌, All,
}
use adaptive_multi_agent_pr.Prelude.Int.{pos}
use adaptive_multi_agent_pr.Prelude.Dict.{Dict, get}
use adaptive_multi_agent_pr.Prelude.Float.{
  Micros, micros_float, Micros-IsOrdered, Micros-IsMonotone, Micros-IsFractional, ◌≼◌, fmin, fmax,
}
use adaptive_multi_agent_pr.Prelude.Fallible.{ok}
use adaptive_multi_agent_pr.Adaptive.Features.{Entry, number}
use adaptive_multi_agent_pr.Adaptive.Features.Bounds.{InUnit}
use adaptive_multi_agent_pr.Adaptive.Feedback.{
  FeedbackEvent, FeedbackOutcome, accepted, rejected, ignored,
}
use adaptive_multi_agent_pr.Adaptive.Rag.{
  EmbeddingRow, RagHit, Filter, scored_hits, top_k_similar, max_relevance,
}
use adaptive_multi_agent_pr.Adaptive.Rag.Top.{
  Attained, IsTop, top_k_similar-IsTop, max_relevance-top_k_similar,
}
use adaptive_multi_agent_pr.Adaptive.Memory.{aggregate_category_shares}
use adaptive_multi_agent_pr.Adaptive.Memory.Shares.{IsShares, aggregate_category_shares-IsShares}
use adaptive_multi_agent_pr.Adaptive.Learning.{
  TraceRow, TrainingMatrix, Counts, feedback_labels, labelled_matrix,
}
use adaptive_multi_agent_pr.Adaptive.Learning.Labels.{first_label, get-feedback_labels}
use adaptive_multi_agent_pr.Adaptive.Learning.Matrix.{IsMatrix, labelled_matrix-IsMatrix}
use adaptive_multi_agent_pr.Agents.Contract.{AgentFinding, high}
use adaptive_multi_agent_pr.Consolidation.Consolidate.{AgentInput, normalise_findings}
use adaptive_multi_agent_pr.Consolidation.Consolidate.Distinct.{
  IsNormalised, normalise_findings-IsNormalised,
}
use adaptive_multi_agent_pr.Store.{Store, empty_store}
use adaptive_multi_agent_pr.Store.Memory.{
  FeedbackWrite, create_feedback, get_repository_memory, upsert_repository_memory,
}
use adaptive_multi_agent_pr.Store.Memory.Recall.{
  get_repository_memory-upsert_repository_memory, create_feedback-create_feedback,
}

abbrev embedded : String → List Micros → EmbeddingRow Micros
embedded id vector = record {
  id = id;
  repository_id = "repo";
  resource_type = "finding";
  content_hash = id;
  vector = vector;
  model = "m";
  finding_id = some id;
  file_path = none;
  status = none;
  content_text = some "text";
}

abbrev rows : List (EmbeddingRow Micros)
rows =
    embedded "a" (pos 1_000_000 ∷ pos 0 ∷ [])
    ∷ embedded "b" (pos 0 ∷ pos 1_000_000 ∷ [])
    ∷ embedded "c" (pos 600_000 ∷ pos 800_000 ∷ [])
    ∷ []

abbrev query : List Micros
query = pos 1_000_000 ∷ pos 0 ∷ []

abbrev any_row : Filter
any_row = record { resource_types = none; file_path = none; statuses = none }

abbrev same : Micros → Micros
same x = x

top_k_similar-IsTop_example :
    (rest : List (RagHit Micros)) × IsTop 2
      (pos 100_000)
      (scored_hits same query (pos 100_000) any_row rows)
      (top_k_similar same query rows 2 (pos 100_000) any_row)
      rest
top_k_similar-IsTop_example =
    top_k_similar-IsTop Micros-IsOrdered same query rows 2 (pos 100_000) any_row

max_relevance-top_k_similar_example :
    InUnit (max_relevance (top_k_similar same query rows 2 (pos 100_000) any_row))
    × All
        (λ hit.
          fmin (fmax hit.cosine (pos 0)) (pos 1_000_000)
          ≼ max_relevance (top_k_similar same query rows 2 (pos 100_000) any_row))
        (scored_hits same query (pos 100_000) any_row rows)
    × Attained
        (max_relevance (top_k_similar same query rows 2 (pos 100_000) any_row))
        (scored_hits same query (pos 100_000) any_row rows)
max_relevance-top_k_similar_example =
    max_relevance-top_k_similar Micros-IsOrdered same query rows 1 (pos 100_000) any_row

abbrev event : FeedbackOutcome → String → FeedbackEvent Micros
event outcome id = record {
  category = "security/xss";
  outcome = outcome;
  age_days = pos 1_000_000;
  finding_id = some id;
}

abbrev events : List (FeedbackEvent Micros)
events = event accepted "a" ∷ event rejected "b" ∷ event ignored "a" ∷ []

aggregate_category_shares-IsShares_example :
    (shares : Dict (Entry Micros)) × (aggregate_category_shares
        (λ x. pos 1_000_000)
        events
        (pos 30_000_000)
        (pos 1_000_000)
        none
      ≡ ok shares)
    × All (λ p. IsShares p.1) shares
aggregate_category_shares-IsShares_example =
    aggregate_category_shares-IsShares Micros-IsOrdered Micros-IsMonotone Micros-IsFractional
      (λ x. pos 1_000_000) (λ x. refl) (pos 30_000_000) (pos 1_000_000) refl refl events none

get-feedback_labels_example : get "a" (feedback_labels events) ≡ first_label "a" events
get-feedback_labels_example = get-feedback_labels "a" events

abbrev trace : List (TraceRow Micros)
trace =
    record { finding_id = some "a"; features = some (("x", pos 1) ∷ ("y", pos 2) ∷ []) }
    ∷ record { finding_id = some "z"; features = none }
    ∷ []

labelled_matrix-IsMatrix_example :
    (m : TrainingMatrix Micros) × (c : Counts) × (labelled_matrix trace
        (feedback_labels events)
        ("y" ∷ "x" ∷ [])
      ≡ ok (m, c))
    × IsMatrix trace (feedback_labels events) ("y" ∷ "x" ∷ []) m c
unfolding get
labelled_matrix-IsMatrix_example =
    labelled_matrix-IsMatrix trace (feedback_labels events) ("y" ∷ "x" ∷ []) (refl, (refl, tt))

abbrev a_finding : AgentFinding Micros
a_finding = record {
  file_path = "a.py";
  line_start = some (pos 3);
  line_end = none;
  category = "security/xss";
  severity = high;
  confidence = pos 900_000;
  title = "t";
  description = "d";
  suggested_fix = none;
  reason_summary = "r";
  related_categories = [];
}

abbrev input : String → AgentInput (AgentFinding Micros)
input key = record { agent_key = key; agent_id = key; finding = a_finding }

normalise_findings-IsNormalised_example :
    IsNormalised
      (λ t. t)
      3
      (normalise_findings ok
        (λ t. t)
        (λ t. t)
        "r"
        "repo"
        (input "security" ∷ input "quality" ∷ input "security" ∷ []))
normalise_findings-IsNormalised_example =
    normalise_findings-IsNormalised ok (λ t. t) (λ t. t) "r" "repo"
      (input "security" ∷ input "quality" ∷ input "security" ∷ [])

abbrev memory : Dict (Entry Micros)
memory = ("security/xss", ("accepted_share", number (pos 500_000)) ∷ []) ∷ []

get_repository_memory-upsert_repository_memory_example :
    let written = upsert_repository_memory "repo" memory empty_store in
    (get_repository_memory "repo" written.1 ≡ some memory)
    × (get_repository_memory "other" written.1 ≡ (
        if "repo" == "other"
        then some memory
        else get_repository_memory "other" (empty_store {W = Micros})))
    × ((upsert_repository_memory "repo" [] written.1).0 ≡ written.0 + 1)
get_repository_memory-upsert_repository_memory_example =
    get_repository_memory-upsert_repository_memory "repo" "other" memory [] empty_store

abbrev feedback : FeedbackWrite
feedback = record {
  review_id = "r";
  finding_id = "a";
  repository_id = "repo";
  category = "security/xss";
  outcome = accepted;
  author_login = none;
  commit_sha = some "sha";
}

abbrev no_feedback : Store Micros
no_feedback = empty_store

create_feedback-create_feedback_example :
    let once = create_feedback (λ t. t) feedback 5 no_feedback in
    (create_feedback (λ t. t) feedback 9 once.1 ≡ once)
    × (any (λ row. row.id == once.0) once.1.feedback ≡ true)
create_feedback-create_feedback_example =
    create_feedback-create_feedback (λ t. t) feedback 5 9 no_feedback
