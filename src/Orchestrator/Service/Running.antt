-- ===== src/Orchestrator/Service/Running.antt =====
-- `run_review` and `_fail_early` of backend/app/orchestrator/service.py, with `TargetedAgentRunner` of
-- runners.py and `scope_validation_error` of agents/contract.py.
use adaptive_multi_agent_pr.Prelude.{
  ℕ, String, Bool, true, false, Option, none, some, List, [], ◌∷◌, map, ◌==◌, if◌then◌else◌,
}
use adaptive_multi_agent_pr.Prelude.Float.{Float}
use adaptive_multi_agent_pr.Prelude.Int.{pos}
use adaptive_multi_agent_pr.Prelude.Dict.{Dict, contains}
use adaptive_multi_agent_pr.Prelude.Fallible.{Fallible, ok, raised, Action}
use adaptive_multi_agent_pr.Agents.Contract.{AgentScope}
use adaptive_multi_agent_pr.Agents.Prompts.{prompt_specs}
use adaptive_multi_agent_pr.Orchestrator.Graph.{Runner, outcome, State, review_graph, GraphError}
use adaptive_multi_agent_pr.Orchestrator.Iteration.{
  PreviousFinding, IterationPlan, plan_review_delta, resolved_count, stale_count, keep_count,
}
use adaptive_multi_agent_pr.Store.{Store, processing, agents_running, iterating, completed}
use adaptive_multi_agent_pr.Store as St
use adaptive_multi_agent_pr.Store.Reviews.{transition, append_note}
use adaptive_multi_agent_pr.Store.Findings.{apply_iteration_delta, record_iteration}
use adaptive_multi_agent_pr.Store.Memory.{sync_agents}
use adaptive_multi_agent_pr.Orchestrator.Messages.{
  ScopeError, no_changed_files, missing_head_ref, scope_unusable, scope_reason, early_failure,
  delta,
}
use adaptive_multi_agent_pr.Orchestrator.Service.{Context}
use adaptive_multi_agent_pr.Orchestrator.Service.Persist.{
  Crash, bad_review_id, graph_failed, ReviewOutcome, persist, head_of,
}

-- `agent_keys()`: the registered agents
abbrev pub registered : List String
registered = map (λ p. p.0) prompt_specs

unfoldable pub scope_validation_error : AgentScope → Option ScopeError
scope_validation_error scope = elim scope.changed_files [
  | [] ↦ some no_changed_files
  | s ∷ ss ↦ if scope.head_ref == "" then some missing_head_ref else none
]

-- `TargetedAgentRunner.run`: a key outside of the set is refused for good
unfoldable pub targeted : {D S : Type 0} → List String → Runner D S → Runner D S
targeted keys runner calls key =
    if contains keys key
    then runner calls key
    else outcome (record {
      agent_key = key;
      success = false;
      retryable = false;
      findings = [];
      stats = none;
      error = some "outside the iteration target set";
    })

-- `plan.targeted_agents or tuple(agent_keys())`
abbrev pub targets_of : IterationPlan → List String
targets_of plan = elim plan.targeted_agents [ [] ↦ registered | k ∷ ks ↦ k ∷ ks ]

-- how the run goes on: without an iteration, with one that has nothing to scan, or with one
pub data Course : Type 0 where
  full : Course
  no_op : IterationPlan → Course
  iteration : IterationPlan → Course

abbrev pub course_of : IterationPlan → Course
course_of plan = elim plan.resolutions [
  | [] ↦ full
  | r ∷ rs ↦ elim plan.changed_paths [ [] ↦ no_op plan | p ∷ ps ↦ iteration plan ]
]

unfoldable pub choose_course : Bool → Option (List PreviousFinding) → AgentScope → ℕ → Course
unfolding plan_review_delta
choose_course false previous scope gap = full
choose_course true none scope gap = full
choose_course true (some previous) scope gap =
    course_of (plan_review_delta previous scope.changed_files (pos gap) prompt_specs)

module _ {ℓ} {W : Type ℓ} ⦃f : Float W⦄ {D S : Type 0} (ctx : Context W D S) where
  -- `_fail_early`
  unfoldable pub fail_early : String → ScopeError → Store W → ReviewOutcome D × Store W
  unfolding transition append_note
  fail_early review_id reason s = (
    record {
      review_id = review_id;
      status = St.failed_;
      agent_keys = [];
      findings = [];
      tasks = [];
      notes = early_failure reason ∷ [];
      root_cause = some (scope_reason reason);
    },
    append_note review_id (early_failure reason) (
        transition review_id St.failed_ (some (scope_unusable reason)) (some (scope_reason reason))
          (some (ctx.clock 1)) (ctx.clock 4) s),
  )

  -- the runner and its keys for the rest of the run
  abbrev pub runner_for : Option IterationPlan → Runner D S × List String
  runner_for none = (ctx.runner, ctx.agent_keys)
  runner_for (some plan) = (targeted (targets_of plan) ctx.runner, targets_of plan)

  -- what an iteration does before its agents run
  unfoldable pub enter_iteration : String → IterationPlan → Store W → Store W
  unfolding transition apply_iteration_delta
  enter_iteration review_id plan s =
      apply_iteration_delta review_id plan.resolutions
        (transition review_id iterating none none none (ctx.clock 5) s)

  unfoldable pub ran : Option IterationPlan → Fallible GraphError (State D S)
  unfolding review_graph targeted
  ran plan =
      let (runner, keys) = runner_for plan in
      review_graph runner ctx.settings.orchestrator_max_agent_retries
        ctx.settings.orchestrator_agent_timeout_seconds ctx.recursion_limit registered keys

  unfoldable pub persist_ran :
      String
      → AgentScope
      → Dict String
      → Option IterationPlan
      → Option String
      → Fallible GraphError (State D S)
      → Action Crash (Store W) (ReviewOutcome D)
  unfolding persist
  persist_ran review_id scope ids plan head_sha (raised e) s = (raised (graph_failed e), s)
  persist_ran review_id scope ids plan head_sha (ok final) s =
      persist ctx review_id scope ids final plan head_sha s

  -- from AGENTS_RUNNING on
  unfoldable pub run_agents :
      String
      → AgentScope
      → Option IterationPlan
      → Option String
      → Action Crash (Store W) (ReviewOutcome D)
  unfolding ran persist_ran sync_agents transition
  run_agents review_id scope plan head_sha s =
      let (ids, s') =
        sync_agents ctx.fresh registered
          (transition review_id agents_running none none none (ctx.clock 7) s) in
      persist_ran review_id scope ids plan head_sha (ran plan) s'

  unfoldable pub no_op_iteration :
      String → AgentScope → Option String → IterationPlan → Store W → ReviewOutcome D × Store W
  unfolding record_iteration transition append_note
  no_op_iteration review_id scope head_sha plan s =
      let note = delta (resolved_count plan) (stale_count plan) (keep_count plan) in
      let recorded =
        record_iteration review_id scope.base_ref (head_of scope head_sha) 0 (resolved_count plan)
          (stale_count plan) s in
      (
        record {
          review_id = review_id;
          status = completed;
          agent_keys = [];
          findings = [];
          tasks = [];
          notes = note ∷ [];
          root_cause = none;
        },
        append_note review_id note
            (transition review_id completed none none (some (ctx.clock 1)) (ctx.clock 8) recorded),
      )

  unfoldable pub take_course :
      String → AgentScope → Course → Option String → Action Crash (Store W) (ReviewOutcome D)
  unfolding enter_iteration run_agents no_op_iteration
  take_course review_id scope full head_sha s = run_agents review_id scope none head_sha s
  take_course review_id scope (no_op plan) head_sha s =
      let (o, t) = no_op_iteration review_id scope head_sha plan s in (ok o, t)
  take_course review_id scope (iteration plan) head_sha s =
      run_agents review_id scope (some plan) head_sha (enter_iteration review_id plan s)

  -- the run of a review whose id is canonical
  unfoldable pub run_named :
      String
      → AgentScope
      → Bool
      → Option (List PreviousFinding)
      → Option String
      → Action Crash (Store W) (ReviewOutcome D)
  unfolding scope_validation_error fail_early take_course choose_course transition
  run_named review_id scope is_synchronize previous head_sha s =
      elim (scope_validation_error scope) [
        | some reason ↦ (let (o, t) = fail_early review_id reason s in (ok o, t))
        | none ↦
            take_course review_id scope
              (choose_course is_synchronize previous scope ctx.settings.iteration_line_gap) head_sha
              (transition review_id processing none none none (ctx.clock 6) s)
      ]

  -- `is_synchronize` is `mode is ReviewMode.SYNCHRONIZE`.
  unfoldable pub run_review :
      AgentScope
      → Bool
      → Option (List PreviousFinding)
      → Option String
      → Action Crash (Store W) (ReviewOutcome D)
  unfolding run_named
  run_review scope is_synchronize previous head_sha s = elim (ctx.canonical_id scope.review_id) [
    | none ↦ (raised (bad_review_id scope.review_id), s)
    | some review_id ↦ run_named review_id scope is_synchronize previous head_sha s
  ]
