-- ===== src/Orchestrator/Service/Path.antt =====
-- The whole run of backend/app/orchestrator/service.py: its end, and its path of statuses.
use mathlib.Core.Path.{subst}
use adaptive_multi_agent_pr.Prelude.{
  String, Bool, ◌≡◌, refl, ap, sym, ◌∙◌, Option, none, some, List, [], ◌∷◌, ◌++◌, All-imp,
}
use adaptive_multi_agent_pr.Prelude.Float.{Float}
use adaptive_multi_agent_pr.Prelude.Fallible.{Fallible, ok, raised}
use adaptive_multi_agent_pr.Agents.Contract.{AgentScope}
use adaptive_multi_agent_pr.Orchestrator.Graph.Nodes.{Echoes}
use adaptive_multi_agent_pr.Orchestrator.Iteration.{
  PreviousFinding, IterationPlan, resolved_count, stale_count, keep_count,
}
use adaptive_multi_agent_pr.Store.{
  Store, ReviewStatus, processing, agents_running, iterating, completed, failed_,
}
use adaptive_multi_agent_pr.Store.Reviews.{transition}
use adaptive_multi_agent_pr.Store.Memory.{sync_agents}
use adaptive_multi_agent_pr.Orchestrator.Messages.{
  ScopeError, delta, early_failure, scope_unusable, scope_reason,
}
use adaptive_multi_agent_pr.Store.Findings.{record_iteration}
use adaptive_multi_agent_pr.Orchestrator.Service.{Context}
use adaptive_multi_agent_pr.Orchestrator.Service.Persist.{Crash, ReviewOutcome, head_of}
use adaptive_multi_agent_pr.Orchestrator.Service.Running.{
  registered, scope_validation_error, targets_of, Course, full, no_op, iteration, choose_course,
  fail_early, runner_for, enter_iteration, ran, persist_ran, run_agents, no_op_iteration,
  take_course, run_review,
}
use adaptive_multi_agent_pr.Orchestrator.Service.Blind.{sync_agents-blind}
use adaptive_multi_agent_pr.Orchestrator.Service.Trail.{
  Step, iterate, start_agents, restart_agents, skip, Runs, stay, go, Trail, trail, pushes,
  trail-transition, trail-append_note, trail-IsBlind, trail-apply_iteration_delta,
}
use adaptive_multi_agent_pr.Orchestrator.Service.Traced.{Took, before}
use adaptive_multi_agent_pr.Orchestrator.Service.Total.{
  Ends, persist-Ends, known_lem, queue_names-has, sync_agents-has,
}
use adaptive_multi_agent_pr.Orchestrator.Service.Known.{
  targeted-Crashes, AllKnown, build_task_plan-AllKnown, targets_of-AllKnown, Aimed,
  choose_course-Aimed, targeted-Echoes,
}
use adaptive_multi_agent_pr.Prelude.{◌⊎◌, inl, inr, ◌*◌, ◌+◌, ◌≤◌, max, ℕ, false}
use adaptive_multi_agent_pr.Prelude.Int.{pos}
use adaptive_multi_agent_pr.Orchestrator.Graph.{build_task_plan, runner_crashed}
use adaptive_multi_agent_pr.Orchestrator.Graph.Nodes.{Crashes}
use adaptive_multi_agent_pr.Orchestrator.Graph.Run.{Finished, review_graph-Finished}
use adaptive_multi_agent_pr.Orchestrator.Service.Persist.{graph_failed}
use adaptive_multi_agent_pr.Orchestrator.Service.Running.{run_named}
use adaptive_multi_agent_pr.Store as St

module _ {ℓ} {W : Type ℓ} ⦃f : Float W⦄ {D S : Type 0} (ctx : Context W D S) (rid : String) where
  -- the run raises what a call of its runner raised, and leaves the review where its agents run
  abbrev Stuck : Trail → ReviewStatus → Fallible Crash (ReviewOutcome D) × Store W → Type ℓ
  Stuck v from r =
      (e : String) × (t : Store W) × Crashes ctx.runner e
      × (r ≡ (raised (graph_failed (runner_crashed e)), t))
      × Took rid v from t agents_running

  abbrev EndsOrStuck : Trail → ReviewStatus → Fallible Crash (ReviewOutcome D) × Store W → Type ℓ
  EndsOrStuck v from r = Ends ctx rid v from r ⊎ Stuck v from r

  step_before :
      {a b : ReviewStatus} (v : Trail) (r : Fallible Crash (ReviewOutcome D) × Store W)
      → Step a b
      → EndsOrStuck (pushes (b ∷ []) v) b r
      → EndsOrStuck v a r
  step_before v r step (inl (o, t, e, took)) = inl (o, t, e, before rid v t step took)
  step_before v r step (inr (x, t, c, e, took)) = inr (x, t, c, e, before rid v t step took)

module _ {ℓ} {W : Type ℓ} ⦃f : Float W⦄ {D S : Type 0} (ctx : Context W D S)
    (echoes : Echoes ctx.runner) (known : AllKnown ctx.agent_keys) (limit : ℕ)
    (at_limit : ctx.settings.orchestrator_max_agent_retries ≡ pos limit)
    (positive : f.le ctx.settings.orchestrator_agent_timeout_seconds (f.lit 0 0) ≡ false)
    (enough : 2 * max 1 limit + 3 ≤ ctx.recursion_limit) (rid : String) (scope : AgentScope)
    (head_sha : Option String) where
  ran-Finished :
      (plan : Option IterationPlan)
      → Echoes (runner_for ctx plan).0
      → Finished
          (runner_for ctx plan).0
          (build_task_plan registered (runner_for ctx plan).1)
          (ran ctx plan)
  unfolding ran
  ran-Finished plan e = rw at_limit (
      review_graph-Finished (runner_for ctx plan).0 e limit
        ctx.settings.orchestrator_agent_timeout_seconds ctx.recursion_limit registered
        (runner_for ctx plan).1 positive enough)

  run_agents-Ends :
      (plan : Option IterationPlan) (s : Store W) (v : Trail)
      → trail rid s ≡ v
      → Echoes (runner_for ctx plan).0
      → AllKnown (runner_for ctx plan).1
      → ((e : String) → Crashes (runner_for ctx plan).0 e → Crashes ctx.runner e)
      → EndsOrStuck ctx rid
          (pushes (agents_running ∷ []) v)
          agents_running
          (run_agents ctx rid scope plan head_sha s)
  unfolding run_agents persist_ran
  run_agents-Ends plan s v h e k inside =
      let started = transition rid agents_running none none none (ctx.clock 7) s in
      let synced = sync_agents ctx.fresh registered started in
      let here : trail rid synced.1 ≡ pushes (agents_running ∷ []) v =
        sync_agents-blind rid (trail rid) (trail-IsBlind rid) ctx.fresh registered started
        ∙ trail-transition rid agents_running none none none (ctx.clock 7) s
        ∙ ap (pushes (agents_running ∷ [])) h in
      elim (ran-Finished plan e) [
        | inr (x, c, r) ↦ inr (x, synced.1, inside x c, rw r refl, ([], stay, here))
        | inl (final, r, (p, done)) ↦
            let planned =
              subst AllKnown (sym p) (build_task_plan-AllKnown (runner_for ctx plan).1 k) in
            let ids_known =
              All-imp
                (λ key c.
                  known_lem synced.0 key (sync_agents-has ctx.fresh registered started key c)
                    (queue_names-has key c))
                final.plan planned in
            let (o, t, q, took) =
              persist-Ends ctx rid scope synced.0 final plan head_sha synced.1 ids_known in
            inl (o, t, rw (r, q) refl, subst (λ u. Took rid u agents_running t o.status) here took)
      ]

  take_course-Ends :
      (c : Course) (s : Store W) (v : Trail)
      → Aimed c
      → trail rid s ≡ v
      → EndsOrStuck ctx rid v processing (take_course ctx rid scope c head_sha s)
  unfolding take_course no_op_iteration enter_iteration record_iteration
  take_course-Ends full s v aimed h =
      step_before ctx rid v (run_agents ctx rid scope none head_sha s) start_agents
        (run_agents-Ends none s v h echoes known (λ e c. c))
  take_course-Ends (no_op plan) s v aimed h =
      let r = no_op_iteration ctx rid scope head_sha plan s in
      let recorded =
        record_iteration rid scope.base_ref (head_of scope head_sha) 0 (resolved_count plan)
          (stale_count plan) s in
      inl (
        r.0,
        r.1,
        refl,
        (
          completed ∷ [],
          go skip stay,
          trail-append_note rid (delta (resolved_count plan) (stale_count plan) (keep_count plan))
                (transition rid completed none none (some (ctx.clock 1)) (ctx.clock 8) recorded)
              ∙ trail-transition rid completed none none (some (ctx.clock 1)) (ctx.clock 8) recorded
              ∙ ap (pushes (completed ∷ [])) h,
        ),
      )
  take_course-Ends (iteration plan) s v aimed h =
      let entered = transition rid iterating none none none (ctx.clock 5) s in
      let went = enter_iteration ctx rid plan s in
      let r = run_agents ctx rid scope (some plan) head_sha went in
      step_before ctx rid v r iterate (
        step_before ctx rid (pushes (iterating ∷ []) v) r restart_agents (
          run_agents-Ends (some plan) went (pushes (iterating ∷ []) v)
            (trail-apply_iteration_delta rid plan.resolutions entered
              ∙ trail-transition rid iterating none none none (ctx.clock 5) s
              ∙ ap (pushes (iterating ∷ [])) h)
            (targeted-Echoes (targets_of plan) ctx.runner echoes) (targets_of-AllKnown plan aimed)
            (targeted-Crashes (targets_of plan) ctx.runner)))

append_assoc : (xs ys : List ReviewStatus) (y : ReviewStatus) → (xs ++ y ∷ []) ++ ys ≡ xs ++ y ∷ ys
append_assoc [] ys y = refl
append_assoc (x ∷ xs) ys y = ap (◌∷◌ x) (append_assoc xs ys y)

-- a path appends its statuses, and ends in its last one
append_nil : (xs : List ReviewStatus) → xs ++ [] ≡ xs
append_nil [] = refl
append_nil (x ∷ xs) = ap (◌∷◌ x) (append_nil xs)

pushes-Runs :
    {a b : ReviewStatus} {path : List ReviewStatus} (r : Runs a path b) (h : List ReviewStatus)
    → pushes path (some a, h) ≡ (some b, h ++ path)
pushes-Runs {a} stay h = ap (λ k. (some a, k)) (sym (append_nil h))
pushes-Runs (go {b = next} {c} {path} step r) h =
    pushes-Runs r (h ++ next ∷ []) ∙ ap (λ k. (some c, k)) (append_assoc h path next)

-- the first status of a run
abbrev pub first_status : Option ScopeError → ReviewStatus
first_status none = processing
first_status (some e) = failed_

-- The review `rid` has the status `last`; its history is the old one, `start` and a path from there.
abbrev pub IsTraced {ℓ} :
    {W : Type ℓ} → String → Store W → ReviewStatus → Store W → ReviewStatus → Type 0
IsTraced rid s start t last =
    (path : List ReviewStatus) × Runs start path last
    × (trail rid t ≡ (some last, (trail rid s).1 ++ start ∷ path))

Took-closed {ℓ} :
    {W : Type ℓ} (rid : String) (s : Store W) (start : ReviewStatus) (t : Store W)
    (last : ReviewStatus)
    → Took rid (pushes (start ∷ []) (trail rid s)) start t last
    → IsTraced rid s start t last
Took-closed rid s start t last (path, runs, e) =
    let h = (trail rid s).1 in
    (
      path,
      runs,
      e ∙ pushes-Runs runs (h ++ start ∷ []) ∙ ap (λ k. (some last, k)) (append_assoc h path start),
    )

-- an outcome whose status the review has, or an exception of a call of the runner, on which the review
-- stays where its agents run
abbrev pub EndsTraced {ℓ} :
    {W : Type ℓ} ⦃f : Float W⦄ {D S : Type 0}
    → Context W D S
    → String
    → Store W
    → ReviewStatus
    → Fallible Crash (ReviewOutcome D) × Store W
    → Type ℓ
EndsTraced {W} {D} ctx rid s start r =
    ((o : ReviewOutcome D) × (t : Store W) × (r ≡ (ok o, t)) × IsTraced rid s start t o.status)
    ⊎ ((e : String) × (t : Store W) × Crashes ctx.runner e
        × (r ≡ (raised (graph_failed (runner_crashed e)), t))
        × IsTraced rid s start t agents_running)

module _ {ℓ} {W : Type ℓ} ⦃f : Float W⦄ {D S : Type 0} (ctx : Context W D S) where
  EndsOrStuck-closed :
      (rid : String) (s : Store W) (start : ReviewStatus)
      (r : Fallible Crash (ReviewOutcome D) × Store W)
      → EndsOrStuck ctx rid (pushes (start ∷ []) (trail rid s)) start r
      → EndsTraced ctx rid s start r
  EndsOrStuck-closed rid s start r (inl (o, t, e, took)) =
      inl (o, t, e, Took-closed rid s start t o.status took)
  EndsOrStuck-closed rid s start r (inr (x, t, c, e, took)) =
      inr (x, t, c, e, Took-closed rid s start t agents_running took)

  fail_early-Traced :
      (rid : String) (reason : ScopeError) (s : Store W)
      → IsTraced rid s St.failed_ (fail_early ctx rid reason s).1 St.failed_
  unfolding fail_early
  fail_early-Traced rid reason s =
      let failed =
        transition rid St.failed_ (some (scope_unusable reason)) (some (scope_reason reason))
          (some (ctx.clock 1)) (ctx.clock 4) s in
      (
        [],
        stay,
        trail-append_note rid (early_failure reason) failed
            ∙ trail-transition rid St.failed_ (some (scope_unusable reason))
                (some (scope_reason reason)) (some (ctx.clock 1)) (ctx.clock 4) s,
      )

-- Where each outcome of the runner carries the key it was asked for, the planned agents are
-- registered, the retry limit is not negative, the timeout is positive, LangGraph's recursion limit is
-- at least twice the retry limit, which counts as one at least, and three, and the id of the review is
-- a UUID, the run of the review ends with an outcome, or with the exception that a call of the runner
-- raised. After an outcome the review has its status; after an exception it is still AGENTS_RUNNING.
-- Its history is the old one, then PROCESSING, or FAILED for a scope that cannot be reviewed, and then
-- a path of the steps listed in `Step` to that status.
pub run_review-Runs {ℓ} :
    {W : Type ℓ} ⦃f : Float W⦄ {D S : Type 0} (ctx : Context W D S) (echoes : Echoes ctx.runner)
    (known : AllKnown ctx.agent_keys) (limit : ℕ)
    (at_limit : ctx.settings.orchestrator_max_agent_retries ≡ pos limit)
    (positive : f.le ctx.settings.orchestrator_agent_timeout_seconds (f.lit 0 0) ≡ false)
    (enough : 2 * max 1 limit + 3 ≤ ctx.recursion_limit) (scope : AgentScope) (rid : String)
    (named : ctx.canonical_id scope.review_id ≡ some rid) (is_synchronize : Bool)
    (previous : Option (List PreviousFinding)) (head_sha : Option String) (s : Store W)
    → EndsTraced ctx rid s
        (first_status (scope_validation_error scope))
        (run_review ctx scope is_synchronize previous head_sha s)
unfolding run_review run_named
run_review-Runs {W} {D} ctx echoes known limit at_limit positive enough scope rid named
      is_synchronize previous head_sha s =
    rw (named, run_review) (given (scope_validation_error scope))
  where
    given :
        (e : Option ScopeError)
        → EndsTraced ctx rid s
            (first_status e)
            (elim e as (λ _. Fallible Crash (ReviewOutcome D) × Store W) [
              | some reason ↦ (let (o, t) = fail_early ctx rid reason s in (ok o, t))
              | none ↦
                  take_course ctx rid scope
                    (choose_course is_synchronize previous scope ctx.settings.iteration_line_gap)
                    head_sha
                    (transition rid processing none none none (ctx.clock 6) s)
            ])
    given none =
        let c = choose_course is_synchronize previous scope ctx.settings.iteration_line_gap in
        let begun = transition rid processing none none none (ctx.clock 6) s in
        EndsOrStuck-closed ctx rid s processing (take_course ctx rid scope c head_sha begun) (
          take_course-Ends ctx echoes known limit at_limit positive enough rid scope head_sha c
            begun (pushes (processing ∷ []) (trail rid s))
            (choose_course-Aimed is_synchronize previous scope ctx.settings.iteration_line_gap)
            (trail-transition rid processing none none none (ctx.clock 6) s))
    given (some reason) =
        let r = fail_early ctx rid reason s in
        inl (r.0, r.1, refl, unfold fail_early in fail_early-Traced ctx rid reason s)
