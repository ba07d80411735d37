-- ===== src/Examples/Runs.antt =====
-- Examples for the run of a review, backend/app/orchestrator/service.py.
use adaptive_multi_agent_pr.Prelude.{
  String, true, false, ◌≡◌, refl, ◌==◌, if◌then◌else◌, none, some, [], ◌∷◌, arith,
}
use adaptive_multi_agent_pr.Prelude.Int.{pos}
use adaptive_multi_agent_pr.Prelude.Dict.{get, contains}
use adaptive_multi_agent_pr.Prelude.Float.{Micros, micros_float}
use adaptive_multi_agent_pr.Prelude.Fallible.{ok}
use adaptive_multi_agent_pr.Agents.Contract.{AgentFinding, AgentScope, modified, high}
use adaptive_multi_agent_pr.Orchestrator.Graph.{
  outcome, RunnerResult, Runner, State, empty_state, exhausted,
}
use adaptive_multi_agent_pr.Orchestrator.Graph.Nodes.{Echoes}
use adaptive_multi_agent_pr.Orchestrator.Service.{Context, Settings}
use adaptive_multi_agent_pr.Orchestrator.Service.Persist.{Collected, persist_rest, is_failed}
use adaptive_multi_agent_pr.Orchestrator.Service.Running.{run_review, scope_validation_error}
use adaptive_multi_agent_pr.Orchestrator.Service.Path.{EndsTraced, first_status, run_review-Runs}
use adaptive_multi_agent_pr.Orchestrator.Service.Schedule.{
  scheduled_ids, persist_rest-scheduled_ids,
}
use adaptive_multi_agent_pr.Store.{Store, empty_store, empty_record, queued}

abbrev a_finding : AgentFinding Micros
a_finding = record {
  file_path = "a.py";
  line_start = some (pos 3);
  line_end = none;
  category = "security/xss";
  severity = high;
  confidence = pos 900_000;
  title = "t";
  description = "d";
  suggested_fix = none;
  reason_summary = "r";
  related_categories = [];
}

-- the quality agent fails on every call, the security agent finds one thing, the others nothing
abbrev answers : String → RunnerResult (AgentFinding Micros) Unit
answers key = record {
  agent_key = key;
  success = if key == "quality" then false else true;
  retryable = true;
  findings = if key == "security" then a_finding ∷ [] else [];
  stats = none;
  error = none;
}

abbrev mixed : Runner (AgentFinding Micros) Unit
mixed calls key = outcome (answers key)

mixed-Echoes : Echoes mixed
mixed-Echoes calls key o e = ground (arith, e)

abbrev settings : Settings Micros
settings = record {
  arum_weights_version = "v1";
  arum_temporal_decay_days = pos 30_000_000;
  arum_decay_lambda = pos 1_000_000;
  review_budget_low = pos 3;
  review_budget_medium = pos 5;
  review_budget_high = pos 8;
  gates = record {
    high_confidence = pos 800_000;
    low_confidence = pos 300_000;
    high_redundancy = pos 700_000;
  };
  arum_rag_top_k = 5;
  arum_rag_min_similarity = pos 200_000;
  orchestrator_max_agent_retries = pos 2;
  orchestrator_agent_timeout_seconds = pos 120_000_000;
  consolidation_similarity_threshold = pos 900_000;
  consolidation_max_line_gap = pos 3;
  iteration_line_gap = 5;
}

abbrev context : Context Micros (AgentFinding Micros) Unit
context = record {
  sqrt = λ x. x;
  exp = λ x. pos 1_000_000;
  validate = ok;
  content_hash = λ t. t;
  uuid5 = λ t. t;
  group_id = λ f. f.id;
  compute_inputs_hash = λ a b x w. "hash";
  fresh = λ key. key;
  canonical_id = some;
  trace_append = λ n d. none;
  recursion_limit = 25;
  clock = λ n. n;
  runner = mixed;
  agent_keys = "security" ∷ "quality" ∷ [];
  settings = settings;
  embeddings_provider = none;
  built_provider = ok (record { model = "m"; embed_texts = λ n ts. ok [] });
}

abbrev review : String
review = "0f8fad5b-d9cb-469f-a165-70867728950e"

abbrev scope : AgentScope
scope = record {
  review_id = review;
  repository_id = "repo";
  base_ref = "main";
  head_ref = "sha";
  changed_files =
      record {
        file_path = "a.py";
        patch = "";
        new_start = some (pos 1);
        new_end = some (pos 9);
        change_kind = modified;
        old_path = none;
      }
      ∷ [];
}

abbrev store : Store Micros
store = record empty_store { reviews = (review, record empty_record { status = some queued }) ∷ [] }

run_review-Runs_example :
    EndsTraced context review store
      (first_status (scope_validation_error scope))
      (run_review context scope false none none store)
unfolding get contains
run_review-Runs_example =
    run_review-Runs context mixed-Echoes (refl, (refl, tt)) 2 refl refl (ground arith) scope review
      refl false none none store

-- the end of a graph whose quality agent failed for good
abbrev broken_off : State (AgentFinding Micros) Unit
broken_off = record empty_state {
  plan = "quality" ∷ [];
  failed = record { agent_key = "quality"; error = exhausted 2; attempts = 2 } ∷ [];
}

abbrev collected : Collected (AgentFinding Micros)
collected = record { tasks = []; findings = []; inputs = [] }

persist_rest-scheduled_ids_example :
    scheduled_ids (persist_rest context review scope broken_off none none collected store).1
    ≡ scheduled_ids store
unfolding persist_rest is_failed
persist_rest-scheduled_ids_example =
    persist_rest-scheduled_ids context review (λ n d. refl) scope broken_off none none collected
      store refl
