-- ===== src/Orchestrator/Graph/Run.antt =====
-- The loop of the review graph, backend/app/orchestrator/graph.py.
use mathlib.Core.Path.{ap, sym, ◌∙◌}
use adaptive_multi_agent_pr.Prelude.{
  ℕ, zero, suc, ◌+◌, ◌-◌, ◌*◌, ◌≤◌, ◌<◌, max, ◌≡◌, refl, true, false, String, some, List, [], ◌∷◌,
  arith, All, ◌⊎◌, inl, inr, Bool-cases, eq_iff, eq_refl,
}
use adaptive_multi_agent_pr.Prelude.Float.{Float}
use adaptive_multi_agent_pr.Prelude.Int.{pos}
use adaptive_multi_agent_pr.Prelude.Fallible.{Fallible, ok, raised}
use adaptive_multi_agent_pr.Prelude.Dict.{contains}
use adaptive_multi_agent_pr.Orchestrator.Graph.{
  State, Runner, empty_state, plan_node, build_task_plan, count_of, is_finished, Terminal, complete,
  failed_, to_retry, to_failed, to_complete, retry_node, review_graph, follow,
  build_orchestration_graph, GraphError, runner_crashed, route_after_fan_out, complete_node,
  failed_node, run_graph,
}
use adaptive_multi_agent_pr.Orchestrator.Graph.Nodes.{
  Echoes, Crashes, fanned_out, fan_out-IsRun, fan_out-settles, fan_out-keeps, fan_out_mono,
  fan_out-idle,
}
use adaptive_multi_agent_pr.Orchestrator.Graph.Retries.{retry_all_lem, retry_all_plan}

module _ {F S : Type 0} where
  -- After `n` passes an unfinished agent was retried `n` times at least, and can be retried once more.
  abbrev InBudget : ℕ → ℕ → State F S → Type 0
  InBudget limit n s =
      (k : String)
      → contains s.plan k ≡ true
      → is_finished s k ≡ false
      → (n ≤ count_of k s.retries) × ((n ≡ 0) ⊎ (count_of k s.retries < limit))

  -- each planned agent has a result or a failure
  abbrev pub IsAccounted : State F S → Type 0
  IsAccounted s = (k : String) → contains s.plan k ≡ true → is_finished s k ≡ true

  -- `complete` exactly when no agent failed
  unfoldable pub verdict : State F S → Terminal
  verdict s = elim s.failed [ [] ↦ complete | x ∷ xs ↦ failed_ ]

  abbrev IsDone : List String → State F S → Type 0
  IsDone plan t = (t.plan ≡ plan) × (IsAccounted t × (t.terminal ≡ some (verdict t)))

  idle_settled :
      (run : Runner F S)
      → Echoes run
      → (s : State F S) → (fanned_out run s).pending ≡ []
      → IsAccounted (fanned_out run s)
  unfolding contains
  idle_settled run e s h k planned =
      let (kept, plan) = fan_out-keeps run s in
      let settled = fan_out-settles run e s k (ground (arith, planned, plan)) in
      ground (arith, settled, ap (λ xs. contains xs k) h)

  -- an agent that is unfinished after a fan-out is pending, and was unfinished before
  unfinished_lem :
      (run : Runner F S)
      → Echoes run
      → (s : State F S) (k : String) → contains (fanned_out run s).plan k ≡ true
      → is_finished (fanned_out run s) k ≡ false
      → (contains s.plan k ≡ true)
        × ((is_finished s k ≡ false) × (contains (fanned_out run s).pending k ≡ true))
  unfinished_lem run e s k planned open_ =
      let (kept, plan) = fan_out-keeps run s in
      let here : contains s.plan k ≡ true = ap (λ xs. contains xs k) (sym plan) ∙ planned in
      (
        here,
        (
          elim (Bool-cases (is_finished s k)) [
            | inl f ↦ ground (arith, fan_out_mono run s k f)
            | inr f ↦ f
          ],
          ground (arith, fan_out-settles run e s k here),
        ),
      )

  pass_keeps :
      (run : Runner F S)
      → Echoes run
      → (limit n : ℕ) (s : State F S) → InBudget limit n s
      → InBudget limit (suc n) (retry_node limit (fanned_out run s))
  unfolding retry_node
  pass_keeps run e limit n s inv k planned open_ =
      let s' = fanned_out run s in
      let (before, (same, spent)) = retry_all_lem limit s'.pending s' k open_ in
      let there : contains s'.plan k ≡ true =
        ap (λ xs. contains xs k) (sym (retry_all_plan limit s'.pending s')) ∙ planned in
      let (here, (open_before, pending)) = unfinished_lem run e s k there before in
      let (more, less) = spent pending in
      let (low, high) = inv k here open_before in
      (ground (arith, ap (λ d. count_of k d) ((fan_out-keeps run s).0)), inr less)

  no_retry : (s : State F S) → route_after_fan_out s ≡ to_retry → s.pending ≡ [] → ⊥
  unfolding route_after_fan_out
  no_retry s r idle = ground (arith, r, idle)

  pass_plan :
      (run : Runner F S) (limit : ℕ) (s : State F S)
      → (retry_node limit (fanned_out run s)).plan ≡ s.plan
  unfolding retry_node
  pass_plan run limit s =
      retry_all_plan limit (fanned_out run s).pending (fanned_out run s) ∙ (fan_out-keeps run s).1

  -- the graph ends as it should, or with the exception of a call of its runner
  abbrev pub Finished : Runner F S → List String → Fallible GraphError (State F S) → Type 0
  Finished run plan r =
      ((t : State F S) × (r ≡ ok t) × IsDone plan t)
      ⊎ ((e : String) × Crashes run e × (r ≡ raised (runner_crashed e)))

  replan :
      {run : Runner F S} {r : Fallible GraphError (State F S)} {plan plan' : List String}
      → plan ≡ plan'
      → Finished run plan r
      → Finished run plan' r
  replan e (inl (t, r, (p, done))) = inl (t, r, (p ∙ e, done))
  replan e (inr c) = inr c

  room :
      (run : Runner F S) (limit n : ℕ) (s : State F S)
      → InBudget limit n s
      → n ≤ max 1 limit
      → route_after_fan_out (fanned_out run s) ≡ to_retry
      → suc n ≤ max 1 limit
  room run limit n s inv low r = elim (fan_out-idle run s) [
    | inl idle ↦ absurd (no_retry (fanned_out run s) r idle)
    | inr (k, (planned, open_)) ↦ let got = inv k planned open_ in ground arith
  ]

  stops :
      (run : Runner F S)
      → Echoes run
      → (s : State F S)
      → (route_after_fan_out s ≡ to_retry)
        ⊎ ((s.pending ≡ [])
            × (((route_after_fan_out s ≡ to_failed) × (verdict s ≡ failed_))
                ⊎ ((route_after_fan_out s ≡ to_complete) × (verdict s ≡ complete))))
  unfolding route_after_fan_out verdict
  stops run e s = ground arith

  follow-Finished :
      (run : Runner F S)
      → Echoes run
      → (s : State F S) (plan : List String) (rest : Fallible GraphError (State F S))
      → (fanned_out run s).plan ≡ plan
      → (route_after_fan_out (fanned_out run s) ≡ to_retry → Finished run plan rest)
      → Finished run plan (follow (route_after_fan_out (fanned_out run s)) rest (fanned_out run s))
  unfolding complete_node failed_node verdict
  follow-Finished run e s plan rest p again = elim (stops run e (fanned_out run s)) [
    | inl r ↦ rw r (again r)
    | inr (idle, inl (r, v)) ↦ rw r (
        inl
          (failed_node (fanned_out run s), refl, (p, (idle_settled run e s idle, ap some (sym v)))))
    | inr (idle, inr (r, v)) ↦ rw r (
        inl (
          complete_node (fanned_out run s),
          refl,
          (p, (idle_settled run e s idle, ap some (sym v))),
        ))
  ]

  run_graph-Finished :
      (run : Runner F S)
      → Echoes run
      → (limit steps n : ℕ) (s : State F S) → InBudget limit n s
      → n ≤ max 1 limit
      → 2 * max 1 limit + 2 ≤ 2 * n + steps
      → Finished run s.plan (run_graph run limit steps s)
  unfolding run_graph
  run_graph-Finished run e limit zero n s inv low high = absurd (omega arith)
  run_graph-Finished run e limit (suc zero) n s inv low high = absurd (omega arith)
  run_graph-Finished run e limit (suc (suc steps)) n s inv low high =
      let s' = fanned_out run s in
      let rest = run_graph run limit steps (retry_node limit s') in
      let done = follow-Finished run e s s.plan rest ((fan_out-keeps run s).1) λ r.
        replan (pass_plan run limit s) (
          run_graph-Finished run e limit steps (suc n) (retry_node limit s')
            (pass_keeps run e limit n s inv) (room run limit n s inv low r) (omega arith)) in
      elim (fan_out-IsRun run s) [ inr (x, c, h) ↦ inr (x, c, rw h refl) | inl h ↦ rw h done ]

  accounted_lem :
      (t : State F S) (keys : List String)
      → ((k : String) → contains keys k ≡ true → is_finished t k ≡ true)
      → All (λ k. is_finished t k ≡ true) keys
  unfolding contains
  accounted_lem t [] h = tt
  accounted_lem t (k ∷ keys) h = (
    h k (ground (arith, eq_iff k k, eq_refl k)),
    accounted_lem t keys (λ j i. h j (ground (arith, i))),
  )

  pub review_graph-Finished {ℓ} :
      {W : Type ℓ} ⦃f : Float W⦄ (run : Runner F S) (echoes : Echoes run) (limit : ℕ) (timeout : W)
      (recursion_limit : ℕ) (registered keys : List String)
      → f.le timeout (f.lit 0 0) ≡ false
      → 2 * max 1 limit + 3 ≤ recursion_limit
      → Finished run
          (build_task_plan registered keys)
          (review_graph run (pos limit) timeout recursion_limit registered keys)
  unfolding review_graph build_orchestration_graph plan_node
  review_graph-Finished run echoes limit timeout recursion_limit registered keys positive enough =
      rw positive (
        run_graph-Finished run echoes limit (recursion_limit - 1) 0
          (plan_node registered keys empty_state) (λ k planned open_. (ground arith, inl refl))
          (ground arith) (omega arith))

  -- If the retry limit is not negative, the timeout is positive and LangGraph's recursion limit is at
  -- least twice the retry limit, which counts as one at least, and three, then a run of the graph by a
  -- runner whose outcomes carry the key that it was asked for ends. Either each planned agent then has
  -- a result or a failure, and the terminal is `complete` exactly when none failed; or a call of the
  -- runner raised an exception other than a timeout, and the graph raises it.
  pub review_graph-IsComplete {ℓ} :
      {W : Type ℓ} ⦃f : Float W⦄ (run : Runner F S) (echoes : Echoes run) (limit : ℕ) (timeout : W)
      (recursion_limit : ℕ) (registered keys : List String)
      → f.le timeout (f.lit 0 0) ≡ false
      → 2 * max 1 limit + 3 ≤ recursion_limit
      → ((t : State F S) × (review_graph run (pos limit) timeout recursion_limit registered keys
            ≡ ok t)
          × All (λ k. is_finished t k ≡ true) (build_task_plan registered keys)
          × (t.terminal ≡ some (verdict t)))
        ⊎ ((e : String) × Crashes run e
            × (review_graph run (pos limit) timeout recursion_limit registered keys
                ≡ raised (runner_crashed e)))
  review_graph-IsComplete run echoes limit timeout recursion_limit registered keys positive enough =
      elim (review_graph-Finished run echoes limit timeout recursion_limit registered keys positive
        enough) [
          | inr c ↦ inr c
          | inl (t, r, (plan, (done, v))) ↦ inl (
            t,
            r,
            accounted_lem t (build_task_plan registered keys)
                (λ k h. done k (ap (λ ks. contains ks k) plan ∙ h)),
            v,
          )
        ]
