-- ===== src/Examples/Reviews.antt =====
-- Examples for backend/app/orchestrator: the review graph and the plan of an iteration.
use adaptive_multi_agent_pr.Prelude.{
  ◌+◌, String, ◌≡◌, refl, Bool, true, false, ◌==◌, if◌then◌else◌, none, some, List, [], ◌∷◌, length,
  map, All, select, arith,
}
use adaptive_multi_agent_pr.Prelude.{◌⊎◌}
use adaptive_multi_agent_pr.Prelude.Fallible.{ok, raised}
use adaptive_multi_agent_pr.Prelude.Float.{micros_float}
use adaptive_multi_agent_pr.Prelude.Int.{ℤ, pos, ◌+ℤ◌}
use adaptive_multi_agent_pr.Prelude.Dict.{contains, get, put}
use adaptive_multi_agent_pr.Agents.Contract.{FileSlice, modified, removed, is_removed}
use adaptive_multi_agent_pr.Agents.Prompts.{prompt_specs}
use adaptive_multi_agent_pr.Orchestrator.Graph.{
  outcome, RunnerResult, Runner, State, build_task_plan, is_finished, review_graph, crashed,
  runner_crashed, recursion_limit_reached,
}
use adaptive_multi_agent_pr.Orchestrator.Graph.Nodes.{Crashes, Echoes}
use adaptive_multi_agent_pr.Orchestrator.Graph.Run.{verdict, review_graph-IsComplete}
use adaptive_multi_agent_pr.Orchestrator.Iteration as Iteration
use adaptive_multi_agent_pr.Orchestrator.Iteration.{
  PreviousFinding, Resolution, IterationPlan, plan_review_delta, resolved_count, stale_count,
  keep_count, is_named, classify, removed_set, group_by_path, last_line,
}
use adaptive_multi_agent_pr.Orchestrator.Iteration.Regions.{of_file, Lines}
use adaptive_multi_agent_pr.Orchestrator.Iteration.Plan.{disposition, owners, plan_review_delta-eq}
use adaptive_multi_agent_pr.Orchestrator.Iteration.Kept.{classify-keep}

abbrev answer : String → Bool → RunnerResult Unit Unit
answer key success = record {
  agent_key = key;
  success = success;
  retryable = true;
  findings = [];
  stats = none;
  error = none;
}

-- the quality agent fails on every call, the others succeed
abbrev flaky : Runner Unit Unit
flaky calls key = outcome (answer key (if key == "quality" then false else true))

flaky-Echoes : Echoes flaky
flaky-Echoes calls key o e = ground (arith, e)

abbrev agents : List String
agents = "security" ∷ "quality" ∷ []

review_graph-IsComplete_example :
    ((t : State Unit Unit) × (review_graph flaky (pos 2) (pos 120_000_000) 25 agents [] ≡ ok t)
      × All (λ k. is_finished t k ≡ true) (build_task_plan agents [])
      × (t.terminal ≡ some (verdict t)))
    ⊎ ((e : String) × Crashes flaky e
        × (review_graph flaky (pos 2) (pos 120_000_000) 25 agents [] ≡ raised (runner_crashed e)))
review_graph-IsComplete_example =
    review_graph-IsComplete flaky flaky-Echoes 2 (pos 120_000_000) 25 agents [] refl (ground arith)

-- a call that raises ends the run
crashing_run :
    review_graph {F = Unit} {S = Unit}
      (λ calls key. crashed "down")
      (pos 2)
      (pos 120_000_000)
      25
      agents
      []
    ≡ raised (runner_crashed "down")
unfolding review_graph contains
crashing_run = refl

-- twelve retries take more nodes than LangGraph's limit of 25
long_run :
    review_graph {F = Unit} {S = Unit}
      (λ calls key. outcome (answer key false))
      (pos 12)
      (pos 120_000_000)
      25
      ("quality" ∷ [])
      []
    ≡ raised recursion_limit_reached
unfolding review_graph contains get put
long_run = refl

abbrev window : String → ℤ → ℤ → FileSlice
window path start stop = record {
  file_path = path;
  patch = "";
  new_start = some start;
  new_end = some stop;
  change_kind = modified;
  old_path = none;
}

abbrev slices : List FileSlice
slices =
    window "a.py" (pos 10) (pos 20)
    ∷ record (window "b.py" (pos 1) (pos 2)) { change_kind = removed }
    ∷ []

abbrev previous : String → String → ℤ → PreviousFinding
previous id path line = record {
  id = id;
  file_path = path;
  category = "security/xss";
  line_start = some line;
  line_end = some line;
}

abbrev earlier : List PreviousFinding
earlier =
    previous "f" "a.py" (pos 12) ∷ previous "g" "b.py" (pos 1) ∷ previous "h" "a.py" (pos 90) ∷ []

plan_review_delta-eq_example :
    let plan = plan_review_delta earlier slices (pos 5) prompt_specs in
    (plan.resolutions ≡ map (disposition slices (pos 5)) (select is_named earlier))
    × (plan.targeted_agents ≡ owners plan.resolutions prompt_specs)
    × (resolved_count plan + stale_count plan + keep_count plan ≡ length plan.resolutions)
plan_review_delta-eq_example = plan_review_delta-eq earlier slices (pos 5) prompt_specs

abbrev far : PreviousFinding
far = previous "h" "a.py" (pos 90)

far_keep :
    (classify (removed_set slices []) (group_by_path slices []) (pos 5) far).action ≡ Iteration.keep
unfolding classify removed_set group_by_path contains get put ◌+ℤ◌
far_keep = refl

classify-keep_example :
    All
      (λ w. (is_removed w.change_kind ≡ false) × (¬ Lines w.new_start w.new_end (pos 90)))
      (of_file "a.py" slices)
classify-keep_example =
    classify-keep slices (pos 5) far (pos 90) (pos 90) (ground arith) far_keep refl (ground arith)
