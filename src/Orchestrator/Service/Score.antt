-- ===== src/Orchestrator/Service/Score.antt =====
-- `_refresh_repository_memory`, `_sync_repository_context`, `_candidate_memories`, `_score_candidates`
-- and `_decision` of backend/app/orchestrator/service.py: from the candidates to their scores.
use adaptive_multi_agent_pr.Prelude.{
  ℕ, String, Bool, true, false, not, Option, none, some, List, [], ◌∷◌, ◌++◌, map, select, length,
  ◌==◌, if◌then◌else◌,
}
use adaptive_multi_agent_pr.Prelude.Float.{Float}
use adaptive_multi_agent_pr.Prelude.Dict.{Dict, get, put, contains}
use adaptive_multi_agent_pr.Prelude.Decimal.{◌⊕◌}
use adaptive_multi_agent_pr.Prelude.Fallible.{Fallible, ok, raised, ◌>>=◌, Action}
use adaptive_multi_agent_pr.Adaptive.Features.{
  ArumFeatures, Entry, Snapshot, number, extract_features, disagreement_variance,
}
use adaptive_multi_agent_pr.Adaptive.Weights.{ArumWeights}
use adaptive_multi_agent_pr.Adaptive.Scoring.{Decision, utility}
use adaptive_multi_agent_pr.Adaptive.Memory.{DecayError, aggregate_category_shares}
use adaptive_multi_agent_pr.Adaptive.Feedback.{FeedbackEvent}
use adaptive_multi_agent_pr.Adaptive.Rag.{Filter, max_relevance}
use adaptive_multi_agent_pr.Consolidation.Datatypes.{
  FindingWrite, FindingGroupWrite, EmbeddingWrite, ConsolidationSummary,
}
use adaptive_multi_agent_pr.Consolidation.Consolidate.{Provider, embedding_text, agent_keys_of}
use adaptive_multi_agent_pr.Store.{Store, Standard}
use adaptive_multi_agent_pr.Store.Memory.{
  get_repository_memory, repository_feedback_events, upsert_repository_memory, active_standards,
  embedding_hashes, create_embeddings, retrieve_rag,
}
use adaptive_multi_agent_pr.Orchestrator.Messages.{
  DecisionError, bad_decay, bad_embedding, unpaired_vectors, empty_group,
}
use adaptive_multi_agent_pr.Orchestrator.Service.{Context}

pub record CandidateMemory {ℓ} (W : Type ℓ) : Type ℓ where
  pub snapshot : Option (Dict (Entry W))
  pub repository_relevance : W
  pub context_relevance : W

abbrev pub standard_text : Standard → String
standard_text standard = standard.rule_key ⊕ " | " ⊕ standard.description

-- `finding.duplicate_group == group_id`
abbrev pub is_member : String → Option String → Bool
is_member group_id none = false
is_member group_id (some id) = id == group_id

abbrev pub is_single : Option String → Bool
is_single none = true
is_single (some id) = false

module _ {ℓ} {W : Type ℓ} where
  unfoldable pub feature_memory : CandidateMemory W → Snapshot W
  feature_memory m = record {
    categories = elim m.snapshot [ none ↦ [] | some categories ↦ categories ];
    repository_relevance = some (number m.repository_relevance);
    context_relevance = some (number m.context_relevance);
  }

  abbrev pub members_of : ConsolidationSummary W → FindingGroupWrite W → List (FindingWrite W)
  members_of summary group = select (λ row. is_member group.id row.duplicate_group) summary.findings

  abbrev pub singles_of : ConsolidationSummary W → List (FindingWrite W)
  singles_of summary = select (λ row. is_single row.duplicate_group) summary.findings

  -- `next((row for row in members if row.id == id), members[0])`
  abbrev first_with : String → FindingWrite W → List (FindingWrite W) → FindingWrite W
  first_with id other [] = other
  first_with id other (row ∷ rows) =
      let rest = first_with id other rows in if row.id == id then row else rest

  unfoldable pub representative_of :
      FindingGroupWrite W → List (FindingWrite W) → Fallible DecisionError (FindingWrite W)
  representative_of group [] = raised (empty_group group.id)
  representative_of group (m ∷ ms) = ok (first_with group.representative_finding_id m (m ∷ ms))

  unfoldable pub group_representatives :
      ConsolidationSummary W
      → List (FindingGroupWrite W)
      → Fallible DecisionError (List (FindingWrite W))
  unfolding representative_of
  group_representatives summary [] = ok []
  group_representatives summary (g ∷ gs) = representative_of g (members_of summary g) >>= λ r.
      group_representatives summary gs >>= λ rest. ok (r ∷ rest)

  -- a dictionary from the id of each row
  abbrev by_id : List (FindingWrite W) → Dict (FindingWrite W) → Dict (FindingWrite W)
  by_id [] d = d
  by_id (row ∷ rows) d = by_id rows (put row.id row d)

module _ {ℓ} {W : Type ℓ} ⦃f : Float W⦄ {D S : Type 0} (ctx : Context W D S) where
  -- what was built of the events is kept
  abbrev pub keep_built :
      String
      → Fallible DecayError (Dict (Entry W))
      → Action DecisionError (Store W) (Option (Dict (Entry W)))
  keep_built repository_id (raised error) s = (raised (bad_decay error), s)
  keep_built repository_id (ok built) s =
      (ok (some built), (upsert_repository_memory repository_id built s).1)

  abbrev pub build_of :
      String → List (FeedbackEvent W) → Action DecisionError (Store W) (Option (Dict (Entry W)))
  build_of repository_id [] s = (ok none, s)
  build_of repository_id (e ∷ es) s =
      keep_built repository_id
        (aggregate_category_shares ctx.exp (e ∷ es) ctx.settings.arum_temporal_decay_days
          ctx.settings.arum_decay_lambda none)
        s

  -- the snapshot that is there, or else the one that the events give
  abbrev pub known_or_built :
      String
      → Option (Dict (Entry W))
      → List (FeedbackEvent W)
      → Action DecisionError (Store W) (Option (Dict (Entry W)))
  known_or_built repository_id (some snapshot) events s = (ok (some snapshot), s)
  known_or_built repository_id none events s = build_of repository_id events s

  -- `_refresh_repository_memory`: the snapshot is built when it is first asked for
  unfoldable pub refresh_repository_memory :
      String → Action DecisionError (Store W) (Option (Dict (Entry W)))
  unfolding aggregate_category_shares upsert_repository_memory
  refresh_repository_memory repository_id s =
      known_or_built repository_id (get_repository_memory repository_id s)
        (repository_feedback_events repository_id
          (f.mul (f.lit 3 0) ctx.settings.arum_temporal_decay_days) (ctx.clock 0) s)
        s

  -- the standards whose texts are not embedded yet
  abbrev missing_texts : String → Store W → List String
  missing_texts repository_id s =
      let existing = embedding_hashes repository_id ("standard" ∷ []) s in
      select (λ t. not (contains existing (ctx.content_hash t)))
        (map standard_text (active_standards repository_id s))

  -- `zip(texts, vectors, strict=True)`
  abbrev pub standard_rows :
      String
      → String
      → List String
      → List (List W)
      → Fallible DecisionError (List (EmbeddingWrite W))
  standard_rows repository_id model [] [] = ok []
  standard_rows repository_id model (t ∷ ts) (v ∷ vs) =
      standard_rows repository_id model ts vs >>= λ rest. ok (
        record {
          finding_id = none;
          repository_id = repository_id;
          content_hash = ctx.content_hash t;
          vector = v;
          model = model;
          resource_type = "standard";
          content_text = some t;
        }
        ∷ rest)
  standard_rows repository_id model _ _ = raised unpaired_vectors

  -- `provider.embed_texts`, with its error
  unfoldable pub embed : Provider W → ℕ → List String → Fallible DecisionError (List (List W))
  embed provider call texts = elim (provider.embed_texts call texts) [
    | raised e ↦ raised (bad_embedding e)
    | ok vectors ↦ ok vectors
  ]

  abbrev pub store_standards :
      Store W
      → Fallible DecisionError (List (EmbeddingWrite W))
      → Fallible DecisionError Bool × Store W
  store_standards s (ok rows) = (ok true, create_embeddings none rows s)
  store_standards s (raised e) = (raised e, s)

  abbrev pub store_missing : String → Provider W → List String → Action DecisionError (Store W) Bool
  store_missing repository_id provider [] s = (ok false, s)
  store_missing repository_id provider (t ∷ ts) s = store_standards s (
      embed provider 1 (t ∷ ts) >>= λ vectors.
      standard_rows repository_id provider.model (t ∷ ts) vectors)

  -- `_sync_repository_context`; the answer is whether anything was embedded
  unfoldable pub sync_repository_context : String → Provider W → Action DecisionError (Store W) Bool
  unfolding embed create_embeddings
  sync_repository_context repository_id provider s =
      store_missing repository_id provider (missing_texts repository_id s) s

  abbrev repository_filter : Filter
  repository_filter = record {
    resource_types = some ("standard" ∷ []);
    file_path = none;
    statuses = none;
  }

  abbrev context_filter : String → Filter
  context_filter path = record {
    resource_types = some ("finding" ∷ []);
    file_path = some path;
    statuses = some ("RESOLVED" ∷ []);
  }

  abbrev relevance : String → List W → Filter → Store W → W
  relevance repository_id vector q s = max_relevance (
      retrieve_rag ctx.sqrt repository_id vector ctx.settings.arum_rag_top_k
        ctx.settings.arum_rag_min_similarity q s)

  -- the loop over the representatives and their vectors
  unfoldable pub memory_loop :
      String
      → Option (Dict (Entry W))
      → Store W
      → Dict (FindingWrite W)
      → List (List W)
      → Fallible DecisionError (Dict (CandidateMemory W))
  memory_loop repository_id snapshot s [] [] = ok []
  memory_loop repository_id snapshot s ((id, row) ∷ rows) (v ∷ vs) =
      memory_loop repository_id snapshot s rows vs >>= λ rest. ok (
        (
          id,
          record {
            snapshot = snapshot;
            repository_relevance = relevance repository_id v repository_filter s;
            context_relevance = relevance repository_id v (context_filter row.file_path) s;
          },
        )
        ∷ rest)
  memory_loop repository_id snapshot s _ _ = raised unpaired_vectors

  abbrev embedded_memories :
      String
      → Option (Dict (Entry W))
      → Provider W
      → Store W
      → Dict (FindingWrite W)
      → Fallible DecisionError (Dict (CandidateMemory W))
  embedded_memories repository_id snapshot provider s [] = ok []
  embedded_memories repository_id snapshot provider s (row ∷ rows) =
      embed provider 2 (map (λ p. embedding_text p.1) (row ∷ rows)) >>= λ vectors.
      memory_loop repository_id snapshot s (row ∷ rows) vectors

  -- `_candidate_memories`
  unfoldable pub candidate_memories :
      ConsolidationSummary W
      → Option (Dict (Entry W))
      → Provider W
      → String
      → Store W
      → Fallible DecisionError (Dict (CandidateMemory W))
  unfolding group_representatives memory_loop embed
  candidate_memories summary snapshot provider repository_id s =
      group_representatives summary summary.groups >>= λ reps.
      embedded_memories repository_id snapshot provider s (by_id (reps ++ singles_of summary) [])

  abbrev memory_for : Dict (CandidateMemory W) → String → Option (Snapshot W)
  memory_for memories id = elim (get id memories) [ none ↦ none | some m ↦ some (feature_memory m) ]

  -- `_decision`
  unfoldable pub decision_of :
      String → FindingWrite W → Option String → ArumFeatures W → ArumWeights W → Decision W
  decision_of review_id finding group_id features weights = record {
    review_id = review_id;
    finding_id = finding.id;
    group_id = group_id;
    arum_version = weights.version;
    features = features;
    utility = utility features weights;
    weights = weights;
    inputs_hash = ctx.compute_inputs_hash review_id finding.id features weights;
    budget_cap = none;
    safety_gate = none;
    selected = none;
  }

  unfoldable pub score_group :
      String
      → ConsolidationSummary W
      → ArumWeights W
      → Dict (CandidateMemory W)
      → FindingGroupWrite W
      → Fallible DecisionError (Decision W)
  unfolding decision_of representative_of
  score_group review_id summary weights memories g =
      let members = members_of summary g in
      representative_of g members >>= λ r. ok (
        decision_of review_id r (some g.id)
          (extract_features r g.member_count (length (agent_keys_of members))
            (disagreement_variance members) (memory_for memories r.id))
          weights)

  unfoldable pub score_single :
      String → ArumWeights W → Dict (CandidateMemory W) → FindingWrite W → Decision W
  unfolding decision_of
  score_single review_id weights memories row =
      decision_of review_id row none
        (extract_features row 1 1 (f.lit 0 0) (memory_for memories row.id)) weights

  unfoldable pub score_groups :
      String
      → ConsolidationSummary W
      → ArumWeights W
      → Dict (CandidateMemory W)
      → List (FindingGroupWrite W)
      → Fallible DecisionError (List (Decision W))
  unfolding score_group
  score_groups review_id summary weights memories [] = ok []
  score_groups review_id summary weights memories (g ∷ gs) =
      score_group review_id summary weights memories g >>= λ d.
      score_groups review_id summary weights memories gs >>= λ rest. ok (d ∷ rest)

  -- `_score_candidates`
  unfoldable pub score_candidates :
      String
      → ConsolidationSummary W
      → ArumWeights W
      → Dict (CandidateMemory W)
      → Fallible DecisionError (List (Decision W))
  unfolding score_groups score_single
  score_candidates review_id summary weights memories =
      score_groups review_id summary weights memories summary.groups >>= λ grouped.
      ok (grouped ++ map (score_single review_id weights memories) (singles_of summary))
