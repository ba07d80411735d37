-- ===== src/Orchestrator/Service/Persist.antt =====
-- `_persist` of backend/app/orchestrator/service.py: what the end of the graph leaves in the store.
use adaptive_multi_agent_pr.Prelude.{
  ℕ, String, Bool, true, false, ◌||◌, Option, none, some, List, [], ◌∷◌, ◌++◌, map, ◌==◌,
  if◌then◌else◌,
}
use adaptive_multi_agent_pr.Prelude.Float.{Float}
use adaptive_multi_agent_pr.Prelude.Dict.{Dict, get}
use adaptive_multi_agent_pr.Prelude.Fallible.{Fallible, ok, raised, Action, after}
use adaptive_multi_agent_pr.Agents.Contract.{AgentScope}
use adaptive_multi_agent_pr.Agents.Prompts.{queue_names}
use adaptive_multi_agent_pr.Consolidation.Consolidate.{AgentInput}
use adaptive_multi_agent_pr.Orchestrator.Graph.{
  GraphError, State, AgentResult, AgentFailure, Failure, Terminal, complete, failed_, count_of,
}
use adaptive_multi_agent_pr.Orchestrator.Graph as G
use adaptive_multi_agent_pr.Orchestrator.Iteration.{IterationPlan, resolved_count, stale_count}
use adaptive_multi_agent_pr.Store.{Store, ReviewStatus, deciding, iterating, completed, TaskRow}
use adaptive_multi_agent_pr.Store as St
use adaptive_multi_agent_pr.Store.Reviews.{transition, append_note}
use adaptive_multi_agent_pr.Store.Findings.{record_iteration}
use adaptive_multi_agent_pr.Store.Memory.{create_review_task}
use adaptive_multi_agent_pr.Orchestrator.Messages.{
  Diagnosis, agents, consolidation, decision, DecisionError, Note, run,
}
use adaptive_multi_agent_pr.Orchestrator.Service.{Context}
use adaptive_multi_agent_pr.Orchestrator.Service.Consolidating.{
  Consolidation, nothing, broken, done, consolidate_findings,
}
use adaptive_multi_agent_pr.Orchestrator.Service.Decide.{decide_findings}

-- What ends a run without an outcome: an id that is no UUID, what the graph raises, and a KeyError for
-- an agent that is not registered.
pub data Crash : Type 0 where
  bad_review_id unknown_agent : String → Crash
  graph_failed : GraphError → Crash

pub record TaskOutcome : Type 0 where
  pub agent_key : String
  pub success : Bool
  pub retry_count : ℕ
  pub last_error : Option Failure

-- `ReviewOutcome`, less the duration
pub record ReviewOutcome (D : Type 0) : Type 0 where
  pub review_id : String
  pub status : ReviewStatus
  pub agent_keys : List String
  pub findings : List D
  pub tasks : List TaskOutcome
  pub notes : List Note
  pub root_cause : Option Diagnosis

-- what the loop over the planned agents collects
pub record Collected (D : Type 0) : Type 0 where
  pub tasks : List TaskOutcome
  pub findings : List D
  pub inputs : List (AgentInput D)

abbrev error_of : String → List AgentFailure → Option Failure
error_of key [] = none
error_of key (x ∷ xs) =
    let rest = error_of key xs in if x.agent_key == key then some x.error else rest

module _ {D S : Type 0} where
  abbrev pub result_of : String → List (AgentResult D S) → Option (AgentResult D S)
  result_of key [] = none
  result_of key (r ∷ rs) =
      let rest = result_of key rs in if r.agent_key == key then some r else rest

  abbrev is_some : Option (AgentResult D S) → Bool
  is_some none = false
  is_some (some r) = true

  -- the findings of an agent that succeeded, with its key and id
  abbrev pub collect :
      String → String → Option (AgentResult D S) → TaskOutcome → Collected D → Collected D
  collect key id none task c = record c { tasks = c.tasks ++ task ∷ [] }
  collect key id (some r) task c = record {
    tasks = c.tasks ++ task ∷ [];
    findings = c.findings ++ r.findings;
    inputs =
        c.inputs ++ map (λ d. record { agent_key = key; agent_id = id; finding = d }) r.findings;
  }

  abbrev pub task_of : State D S → String → TaskOutcome
  task_of final key = record {
    agent_key = key;
    success = is_some (result_of key final.results);
    retry_count = count_of key final.retries;
    last_error = error_of key final.failed;
  }

  -- `bool(final.get("failed"))`
  abbrev pub has_failures : State D S → Bool
  has_failures final = elim final.failed [ [] ↦ false | x ∷ xs ↦ true ]

  -- `permanent_failures or terminal == TERMINAL_FAILED`
  unfoldable pub is_failed : State D S → Bool
  is_failed final = has_failures final || elim final.terminal [
    | none ↦ false
    | some t ↦ elim t [ failed_ ↦ true | complete ↦ false ]
  ]

  abbrev pub cause_of : State D S → Option Diagnosis
  cause_of final = elim final.root_cause [ none ↦ none | some c ↦ some (agents c) ]

-- The status that a review ends in, with the reason of a failure: an error of the consolidation comes
-- before one of the decision, and that before a failed agent.
unfoldable pub end_status {ℓ} :
    {W : Type ℓ}
    → Consolidation W
    → Option DecisionError
    → Bool
    → Option Diagnosis
    → ReviewStatus × Option Diagnosis
end_status (broken e) d failed cause = (St.failed_, some (consolidation e))
end_status _ (some e) failed cause = (St.failed_, some (decision e))
end_status _ none true cause = (St.failed_, cause)
end_status (done summary) none false cause = (deciding, none)
end_status nothing none false cause = (completed, none)

-- the root cause in the outcome: that of the graph, if it failed
unfoldable pub end_cause {ℓ} :
    {W : Type ℓ}
    → Consolidation W
    → Option DecisionError
    → Bool
    → Option Diagnosis
    → Option Diagnosis
end_cause c d true cause = cause
end_cause (broken e) d false cause = some (consolidation e)
end_cause _ (some e) false cause = some (decision e)
end_cause _ none false cause = none

-- `completed_at` is not set for a review that waits for its publication
abbrev pub completion : ReviewStatus → ℕ → Option ℕ
completion deciding now = none
completion _ now = some now

-- whether an iteration keeps this status
abbrev pub is_over : ReviewStatus → Bool
is_over St.failed_ = true
is_over completed = true
is_over _ = false

-- `head_sha or scope.head_ref`
abbrev pub head_of : AgentScope → Option String → String
head_of scope none = scope.head_ref
head_of scope (some sha) = if sha == "" then scope.head_ref else sha

-- the error of the decision, or the number that it selected
abbrev pub split_decision {ℓ} :
    {W : Type ℓ} → Fallible DecisionError ℕ × Store W → (Option DecisionError × ℕ) × Store W
split_decision (ok n, s) = ((none, n), s)
split_decision (raised e, s) = ((some e, 0), s)

module _ {ℓ} {W : Type ℓ} where
  unfoldable pub append_notes : String → List G.Note → Store W → Store W
  unfolding append_note
  append_notes review_id [] s = s
  append_notes review_id (n ∷ ns) s = append_notes review_id ns (append_note review_id (run n) s)

  -- the last transition of an iteration, if it is not over
  unfoldable pub end_iteration : String → ReviewStatus → ℕ → ℕ → Store W → ReviewStatus × Store W
  unfolding transition
  end_iteration review_id status now at s =
      if is_over status
      then (status, s)
      else (iterating, transition review_id iterating none none (some now) at s)

  -- the row of an iteration, and its status; nothing for a review that is none
  unfoldable pub close_iteration :
      Option IterationPlan
      → Bool
      → String
      → AgentScope
      → Option String
      → ℕ
      → ReviewStatus
      → ℕ
      → ℕ
      → Store W
      → ReviewStatus × Store W
  unfolding end_iteration record_iteration
  close_iteration none failures review_id scope head_sha selected status now at s = (status, s)
  close_iteration (some plan) true review_id scope head_sha selected status now at s = (status, s)
  close_iteration (some plan) false review_id scope head_sha selected status now at s =
      end_iteration review_id status now at (
        record_iteration review_id scope.base_ref (head_of scope head_sha) selected
          (resolved_count plan) (stale_count plan) s)

abbrev pub task_row : String → String → String → TaskOutcome → TaskRow
task_row review_id id queue task = record {
  review_id = review_id;
  agent_key = task.agent_key;
  agent_id = id;
  queue_name = queue;
  success = task.success;
  retry_count = task.retry_count;
  last_error = task.last_error;
}

-- `agent_ids[key]`, then `queue_for_agent(key)`
abbrev pub registration : Dict String → String → Option (String × String)
registration ids key = elim (get key ids) [
  | none ↦ none
  | some id ↦ elim (get key queue_names) [ none ↦ none | some queue ↦ some (id, queue) ]
]

module _ {ℓ} {W : Type ℓ} {D S : Type 0} where
  unfoldable pub persist_tasks :
      String
      → Dict String
      → State D S
      → List String
      → Collected D
      → Action Crash (Store W) (Collected D)
  unfolding create_review_task
  persist_tasks review_id ids final [] c s = (ok c, s)
  persist_tasks review_id ids final (key ∷ keys) c s = elim (registration ids key) [
    | none ↦ (raised (unknown_agent key), s)
    | some (id, queue) ↦
        let task = task_of final key in
        persist_tasks review_id ids final keys (collect key id (result_of key final.results) task c)
          (create_review_task (task_row review_id id queue task) s)
  ]

module _ {ℓ} {W : Type ℓ} ⦃f : Float W⦄ {D S : Type 0} (ctx : Context W D S) where
  -- Consolidation is left out where no agent found anything.
  unfoldable pub consolidate_if :
      String → AgentScope → List (AgentInput D) → Store W → Consolidation W × Store W
  unfolding consolidate_findings
  consolidate_if review_id scope [] s = (nothing, s)
  consolidate_if review_id scope (i ∷ is) s = consolidate_findings ctx review_id scope (i ∷ is) s

  -- Only a consolidated review none of whose agents failed is decided.
  unfoldable pub decide_if :
      String → Consolidation W → Bool → Store W → (Option DecisionError × ℕ) × Store W
  unfolding decide_findings
  decide_if review_id (done summary) false s =
      split_decision (decide_findings ctx review_id summary s)
  decide_if review_id _ _ s = ((none, 0), s)

  -- after the loop over the agents
  unfoldable pub persist_rest :
      String
      → AgentScope
      → State D S
      → Option IterationPlan
      → Option String
      → Collected D
      → Store W
      → ReviewOutcome D × Store W
  unfolding append_notes consolidate_if decide_if end_status end_cause transition close_iteration
      is_failed
  persist_rest review_id scope final plan head_sha c s =
      let now = ctx.clock 1 in
      let failed = is_failed final in
      let (merged, s1) =
        consolidate_if review_id scope c.inputs (append_notes review_id final.notes s) in
      let ((error, selected), s2) = decide_if review_id merged failed s1 in
      let (status, reason) = end_status merged error failed (cause_of final) in
      let s3 = transition review_id status reason reason (completion status now) (ctx.clock 2) s2 in
      let (last, s4) =
        close_iteration plan (has_failures final) review_id scope head_sha selected status now
          (ctx.clock 3) s3 in
      (
        record {
          review_id = review_id;
          status = last;
          agent_keys = final.plan;
          findings = c.findings;
          tasks = c.tasks;
          notes = map run final.notes;
          root_cause = end_cause merged error failed (cause_of final);
        },
        s4,
      )

  unfoldable pub persist :
      String
      → AgentScope
      → Dict String
      → State D S
      → Option IterationPlan
      → Option String
      → Action Crash (Store W) (ReviewOutcome D)
  unfolding persist_tasks persist_rest
  persist review_id scope ids final plan head_sha s =
      after
        (persist_tasks review_id ids final final.plan
          (record { tasks = []; findings = []; inputs = [] }) s)
        λ c s'.
          let (outcome, t) = persist_rest review_id scope final plan head_sha c s' in
          (ok outcome, t)
