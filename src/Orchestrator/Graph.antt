-- ===== src/Orchestrator/Graph.antt =====
-- backend/app/orchestrator/graph.py, state.py and plan.py: the review state machine.
-- The runner is a parameter: its reply may depend on every call made before. `calls` records those
-- calls. The texts of notes and errors stand as constructors with what they name. LangGraph stops a
-- run that takes more nodes than its recursion limit; the limit is a parameter.
pub mod Nodes
pub mod Retries
pub mod Run
use adaptive_multi_agent_pr.Prelude.{
  ℕ, zero, suc, ◌+◌, String, Bool, true, false, not, ◌||◌, Option, none, some, List, [], ◌∷◌, ◌++◌,
  map, select, length, leb, ◌-◌, if◌then◌else◌,
}
use adaptive_multi_agent_pr.Prelude.Fallible.{Fallible, ok, raised, ◌>>=◌}
use adaptive_multi_agent_pr.Prelude.Float.{Float}
use adaptive_multi_agent_pr.Prelude.Int.{ℤ, pos, negsuc}
use adaptive_multi_agent_pr.Prelude.Dict.{Dict, get, put, contains}
use adaptive_multi_agent_pr.Prelude.Sort.{sort}
use adaptive_multi_agent_pr.Prelude.Text.{text_lt}

-- `RunnerResult`: `F` is a finding and `S` the statistics, which the graph only passes on
pub record RunnerResult (F S : Type 0) : Type 0 where
  pub agent_key : String
  pub success : Bool
  pub retryable : Bool
  pub findings : List F
  pub stats : Option S
  pub error : Option String

-- what `asyncio.wait_for(runner.run(key, scope))` comes to
pub data Reply (F S : Type 0) : Type 0 where
  timed_out : Reply F S
  outcome : RunnerResult F S → Reply F S
  -- any other exception, with its text
  crashed : String → Reply F S

pub data Failure : Type 0 where
  hard_timeout : Failure
  permanent : Option String → Failure
  exhausted : ℕ → Failure

-- what ends a run of the graph: the exception of a runner, LangGraph's recursion limit, and the
-- `ValueError`s of `build_orchestration_graph`
pub data GraphError : Type 0 where
  runner_crashed : String → GraphError
  recursion_limit_reached bad_max_retries bad_timeout : GraphError

pub data Note : Type 0 where
  timeout_note : String → Note
  transient_note : String → Note
  permanent_note : String → Option String → Note
  exhausted_note : String → ℕ → Note
  retrying_note : String → ℕ → ℕ → Note
  finished_note : ℕ → Note
  review_failed_note : List String → Note

pub record AgentResult (F S : Type 0) : Type 0 where
  pub agent_key : String
  pub findings : List F
  pub stats : Option S

pub record AgentFailure : Type 0 where
  pub agent_key : String
  pub error : Failure
  pub attempts : ℕ

pub data Terminal : Type 0 where
  complete failed_ : Terminal

pub data RootCause : Type 0 where
  agents_failed : ℕ → List String → RootCause

-- `OrchestrationState`, less the ids and the scope, which no node changes
pub record State (F S : Type 0) : Type 0 where
  pub plan : List String
  pub pending : List String
  pub results : List (AgentResult F S)
  pub retries : Dict ℕ
  pub retry_history : List (String × ℕ × ℕ)
  pub failed : List AgentFailure
  pub notes : List Note
  pub root_cause : Option RootCause
  pub terminal : Option Terminal
  pub calls : List String

abbrev pub Runner : Type 0 → Type 0 → Type 0
Runner F S = List String → String → Reply F S

-- where the conditional edge after the fan-out leads
pub data Next : Type 0 where
  to_retry to_failed to_complete : Next

-- `build_task_plan`: the given keys, or else every registered agent
unfoldable pub build_task_plan : List String → List String → List String
build_task_plan registered [] = registered
build_task_plan registered (k ∷ ks) = k ∷ ks

-- `retries.get(key, 0)`
abbrev pub count_of : String → Dict ℕ → ℕ
count_of key d = elim (get key d) [ none ↦ 0 | some n ↦ n ]

-- `sorted({...})`: each key once
abbrev distinct : List String → List String → List String
distinct [] seen = seen
distinct (k ∷ ks) seen = distinct ks (if contains seen k then seen else seen ++ k ∷ [])

module _ {F S : Type 0} where
  abbrev pub empty_state : State F S
  empty_state = record {
    plan = [];
    pending = [];
    results = [];
    retries = [];
    retry_history = [];
    failed = [];
    notes = [];
    root_cause = none;
    terminal = none;
    calls = [];
  }

  -- SUPERVISOR_PLAN
  unfoldable pub plan_node : List String → List String → State F S → State F S
  unfolding build_task_plan
  plan_node registered keys s = record s { plan = build_task_plan registered keys }

  abbrev pub result_keys : State F S → List String
  result_keys s = map (λ r. r.agent_key) s.results

  abbrev pub failed_keys : State F S → List String
  failed_keys s = map (λ r. r.agent_key) s.failed

  -- membership in the set `finished` of the fan-out
  abbrev pub is_finished : State F S → String → Bool
  is_finished s key = contains (result_keys s) key || contains (failed_keys s) key

  abbrev pub fail : String → Failure → ℕ → Note → State F S → State F S
  fail key error attempts note s = record s {
    failed = s.failed ++ record { agent_key = key; error = error; attempts = attempts } ∷ [];
    notes = s.notes ++ note ∷ [];
  }

  abbrev pub classify_outcome : String → RunnerResult F S → State F S → State F S
  classify_outcome key o s =
      if o.success
      then record s {
        results =
            s.results
            ++ record { agent_key = o.agent_key; findings = o.findings; stats = o.stats } ∷ [];
      }
      else if o.retryable
      then record s {
        pending = s.pending ++ o.agent_key ∷ [];
        notes = s.notes ++ transient_note key ∷ [];
      }
      else fail key (permanent o.error) (count_of key s.retries + 1) (permanent_note key o.error) s

  -- one target of the fan-out: the call, and what its reply does. Only a timeout is caught.
  unfoldable pub settle : String → Reply F S → State F S → Fallible GraphError (State F S)
  settle key timed_out s =
      ok (fail key hard_timeout (count_of key s.retries + 1) (timeout_note key) s)
  settle key (outcome o) s = ok (classify_outcome key o s)
  settle key (crashed e) s = raised (runner_crashed e)

  unfoldable pub run_targets :
      Runner F S → List String → State F S → Fallible GraphError (State F S)
  unfolding settle
  run_targets run [] s = ok s
  run_targets run (key ∷ keys) s =
      settle key (run s.calls key) (record s { calls = s.calls ++ key ∷ [] }) >>= λ s'.
      run_targets run keys s'

  -- AGENT_FAN_OUT
  unfoldable pub fan_out : Runner F S → State F S → Fallible GraphError (State F S)
  unfolding run_targets
  fan_out run s =
      run_targets run (select (λ key. not (is_finished s key)) s.plan) (record s { pending = [] })

  -- one pending agent of RETRY_AGENTS
  unfoldable pub retry_one : ℕ → String → State F S → State F S
  retry_one max_retries key s =
      let attempt = count_of key s.retries + 1 in
      let counted = record s {
        retries = put key attempt s.retries;
        retry_history = s.retry_history ++ (key, attempt, max_retries) ∷ [];
      } in
      if leb max_retries attempt
      then fail key (exhausted attempt) attempt (exhausted_note key attempt) counted
      else record counted { notes = s.notes ++ retrying_note key attempt max_retries ∷ [] }

  unfoldable pub retry_all : ℕ → List String → State F S → State F S
  unfolding retry_one
  retry_all max_retries [] s = s
  retry_all max_retries (key ∷ keys) s = retry_all max_retries keys (retry_one max_retries key s)

  -- RETRY_AGENTS
  unfoldable pub retry_node : ℕ → State F S → State F S
  unfolding retry_all
  retry_node max_retries s = record (retry_all max_retries s.pending s) { pending = [] }

  unfoldable pub route_after_fan_out : State F S → Next
  route_after_fan_out s = elim s.pending [
    | p ∷ ps ↦ to_retry
    | [] ↦ elim s.failed [ x ∷ xs ↦ to_failed | [] ↦ to_complete ]
  ]

  unfoldable pub complete_node : State F S → State F S
  complete_node s = record s {
    terminal = some complete;
    notes = s.notes ++ finished_note (length s.results) ∷ [];
    root_cause = none;
  }

  unfoldable pub failed_node : State F S → State F S
  failed_node s =
      let keys = sort text_lt (distinct (failed_keys s) []) in
      record s {
        terminal = some failed_;
        root_cause = elim s.root_cause [
          | some cause ↦ some cause
          | none ↦ some (agents_failed (length s.failed) keys)
        ];
        notes = s.notes ++ review_failed_note keys ∷ [];
      }

  -- the node that the conditional edge leads to, with the run after a retry
  abbrev pub follow :
      Next → Fallible GraphError (State F S) → State F S → Fallible GraphError (State F S)
  follow to_retry rest s = rest
  follow to_failed rest s = ok (failed_node s)
  follow to_complete rest s = ok (complete_node s)

  -- The compiled graph from AGENT_FAN_OUT on, where LangGraph lets it take `steps` nodes more. A
  -- fan-out is one, and the node after it another.
  unfoldable pub run_graph : Runner F S → ℕ → ℕ → State F S → Fallible GraphError (State F S)
  unfolding fan_out retry_node route_after_fan_out complete_node failed_node
  run_graph run max_retries zero s = raised recursion_limit_reached
  run_graph run max_retries (suc zero) s = fan_out run s >>= λ s'. raised recursion_limit_reached
  run_graph run max_retries (suc (suc steps)) s = fan_out run s >>= λ s'.
      follow (route_after_fan_out s') (run_graph run max_retries steps (retry_node max_retries s'))
        s'

-- the checks of `build_orchestration_graph`: what the edges need of its arguments
unfoldable pub build_orchestration_graph {ℓ} :
    {W : Type ℓ} ⦃f : Float W⦄ → ℤ → W → Fallible GraphError ℕ
build_orchestration_graph ⦃f⦄ (negsuc n) agent_timeout_seconds = raised bad_max_retries
build_orchestration_graph ⦃f⦄ (pos n) agent_timeout_seconds =
    if f.le agent_timeout_seconds (f.lit 0 0) then raised bad_timeout else ok n

-- The compiled graph with its plan node, on an empty state.
unfoldable pub review_graph {ℓ} :
    {W : Type ℓ} ⦃f : Float W⦄ {F S : Type 0}
    → Runner F S
    → ℤ
    → W
    → ℕ
    → List String
    → List String
    → Fallible GraphError (State F S)
unfolding build_orchestration_graph plan_node run_graph
review_graph run max_retries agent_timeout_seconds recursion_limit registered keys =
    build_orchestration_graph max_retries agent_timeout_seconds >>= λ n.
    run_graph run n (recursion_limit - 1) (plan_node registered keys empty_state)
