-- ===== src/Orchestrator/Graph/Nodes.antt =====
-- The fan-out node of backend/app/orchestrator/graph.py: what it does to the agents of the plan.
use mathlib.Core.Path.{ap}
use adaptive_multi_agent_pr.Prelude.{
  ℕ, ◌+◌, ◌≡◌, refl, Bool, true, false, not, ◌&&◌, ◌||◌, String, List, [], ◌∷◌, ◌++◌, map, arith,
  select, ◌==◌, eq_iff, eq_refl, inl, inr, ◌⊎◌,
}
use adaptive_multi_agent_pr.Prelude.Dict.{contains}
use adaptive_multi_agent_pr.Prelude.Fallible.{Fallible, ok, raised, ◌>>=◌}
use adaptive_multi_agent_pr.Orchestrator.Graph.{
  RunnerResult, Reply, timed_out, outcome, crashed, GraphError, runner_crashed, fail,
  classify_outcome, timeout_note, State, Runner, count_of, is_finished, Failure, AgentFailure,
  AgentResult, hard_timeout, permanent, settle, run_targets, fan_out,
}

-- one more entry in a list of records that are looked up by key
pub contains-map-snoc :
    {A : Type 0} (f : A → String) (xs : List A) (y : A) (k : String)
    → contains (map f (xs ++ y ∷ [])) k ≡ (contains (map f xs) k || f y == k)
unfolding contains
contains-map-snoc f [] y k = ground arith
contains-map-snoc f (x ∷ xs) y k = ground (arith, contains-map-snoc f xs y k)

contains-snoc :
    (xs : List String) (y k : String) → contains (xs ++ y ∷ []) k ≡ (contains xs k || y == k)
unfolding contains
contains-snoc [] y k = ground arith
contains-snoc (x ∷ xs) y k = ground (arith, contains-snoc xs y k)

-- a failure recorded for `key`
abbrev pub entry : String → Failure → ℕ → AgentFailure
entry key error attempts = record { agent_key = key; error = error; attempts = attempts }

contains-select :
    (p : String → Bool) (keys : List String) (k : String)
    → contains (select p keys) k ≡ (contains keys k && p k)
unfolding contains
contains-select p [] k = refl
contains-select p (x ∷ keys) k = ground (arith, contains-select p keys k, eq_iff x k)

module _ {F S : Type 0} where
  -- The contract of `AgentRunner`: an outcome carries the key that it was asked for.
  abbrev pub Echoes : Runner F S → Type 0
  Echoes run =
      (calls : List String) (key : String) (o : RunnerResult F S)
      → run calls key ≡ outcome o
      → o.agent_key ≡ key

  -- an agent that needs another pass, or none
  abbrev pub is_settled : State F S → String → Bool
  is_settled s key = is_finished s key || contains s.pending key

  -- A fan-out of a runner that does not crash, as a function of states: the last clause is not reached.
  unfoldable pub settled : String → Reply F S → State F S → State F S
  settled key (outcome o) s = classify_outcome key o s
  settled key timed_out s = fail key hard_timeout (count_of key s.retries + 1) (timeout_note key) s
  settled key (crashed e) s =
      fail key hard_timeout (count_of key s.retries + 1) (timeout_note key) s

  unfoldable pub settled_targets : Runner F S → List String → State F S → State F S
  unfolding settled
  settled_targets run [] s = s
  settled_targets run (key ∷ keys) s =
      settled_targets run keys
        (settled key (run s.calls key) (record s { calls = s.calls ++ key ∷ [] }))

  unfoldable pub fanned_out : Runner F S → State F S → State F S
  unfolding settled_targets
  fanned_out run s =
      settled_targets run (select (λ key. not (is_finished s key)) s.plan)
        (record s { pending = [] })

  -- some call of the runner raises `e`
  abbrev pub Crashes : Runner F S → String → Type 0
  Crashes run e = (calls : List String) × (key : String) × (run calls key ≡ crashed e)

  -- the state, or the exception of a call of the runner
  abbrev pub IsRun : Runner F S → State F S → Fallible GraphError (State F S) → Type 0
  IsRun run s r = (r ≡ ok s) ⊎ ((e : String) × Crashes run e × (r ≡ raised (runner_crashed e)))

  run_targets-IsRun :
      (run : Runner F S) (keys : List String) (s : State F S)
      → IsRun run (settled_targets run keys s) (run_targets run keys s)
  unfolding run_targets settle settled_targets settled
  run_targets-IsRun run [] s = inl refl
  run_targets-IsRun run (key ∷ keys) s =
      given (run s.calls key) refl (λ t. run_targets-IsRun run keys t)
    where
      given :
          (r : Reply F S)
          → run s.calls key ≡ r
          → ((t : State F S) → IsRun run (settled_targets run keys t) (run_targets run keys t))
          → IsRun run
              (settled_targets run keys (settled key r (record s { calls = s.calls ++ key ∷ [] })))
              (settle key r (record s { calls = s.calls ++ key ∷ [] }) >>= λ s'.
                run_targets run keys s')
      given timed_out e rec = rec _
      given (outcome o) e rec = rec _
      given (crashed x) e rec = inr (x, (s.calls, key, e), refl)

  pub fan_out-IsRun :
      (run : Runner F S) (s : State F S) → IsRun run (fanned_out run s) (fan_out run s)
  unfolding fan_out fanned_out
  fan_out-IsRun run s =
      run_targets-IsRun run (select (λ key. not (is_finished s key)) s.plan)
        (record s { pending = [] })

  settle_lem :
      (s : State F S) (key k : String) (r : Reply F S)
      → ((o : RunnerResult F S) → r ≡ outcome o → o.agent_key ≡ key)
      → is_settled (settled key r s) k ≡ (is_settled s k || key == k)
  unfolding settled
  settle_lem s key k timed_out e = ground (
    arith,
    contains-map-snoc (λ (x : AgentFailure). x.agent_key) s.failed
        (entry key hard_timeout (count_of key s.retries + 1)) k,
  )
  settle_lem s key k (crashed x) e = ground (
    arith,
    contains-map-snoc (λ (x : AgentFailure). x.agent_key) s.failed
        (entry key hard_timeout (count_of key s.retries + 1)) k,
  )
  settle_lem s key k (outcome o) e = ground (
    arith,
    e o refl,
    contains-map-snoc (λ (x : AgentFailure). x.agent_key) s.failed
        (entry key (permanent o.error) (count_of key s.retries + 1)) k,
    contains-map-snoc (λ (x : AgentResult F S). x.agent_key) s.results
        (record { agent_key = o.agent_key; findings = o.findings; stats = o.stats }) k,
    contains-snoc s.pending o.agent_key k,
  )

  settle_keeps :
      (s : State F S) (key : String) (r : Reply F S)
      → ((settled key r s).retries ≡ s.retries) × ((settled key r s).plan ≡ s.plan)
  unfolding settled
  settle_keeps s key timed_out = (refl, refl)
  settle_keeps s key (crashed x) = (refl, refl)
  settle_keeps s key (outcome o) = ground arith

  run_targets_lem :
      (run : Runner F S)
      → Echoes run
      → (keys : List String) (s : State F S) (k : String)
      → is_settled (settled_targets run keys s) k ≡ (is_settled s k || contains keys k)
  unfolding settled_targets contains
  run_targets_lem run e [] s k = ground arith
  run_targets_lem run e (key ∷ keys) s k =
      let called : State F S = record s { calls = s.calls ++ key ∷ [] } in
      ground (
        arith,
        run_targets_lem run e keys (settled key (run s.calls key) called) k,
        settle_lem called key k (run s.calls key) (e s.calls key),
      )

  run_targets_keeps :
      (run : Runner F S) (keys : List String) (s : State F S)
      → ((settled_targets run keys s).retries ≡ s.retries)
        × ((settled_targets run keys s).plan ≡ s.plan)
  unfolding settled_targets
  run_targets_keeps run [] s = (refl, refl)
  run_targets_keeps run (key ∷ keys) s =
      let called : State F S = record s { calls = s.calls ++ key ∷ [] } in
      ground (
        arith,
        run_targets_keeps run keys (settled key (run s.calls key) called),
        settle_keeps called key (run s.calls key),
      )

  -- After a fan-out each planned agent is finished or pending.
  pub fan_out-settles :
      (run : Runner F S)
      → Echoes run
      → (s : State F S) (k : String) → contains s.plan k ≡ true
      → is_settled (fanned_out run s) k ≡ true
  unfolding fanned_out contains
  fan_out-settles run e s k h = ground (
    arith,
    run_targets_lem run e (select (λ key. not (is_finished s key)) s.plan)
        (record s { pending = [] }) k,
    contains-select (λ key. not (is_finished s key)) s.plan k,
  )

  pub fan_out-keeps :
      (run : Runner F S) (s : State F S)
      → ((fanned_out run s).retries ≡ s.retries) × ((fanned_out run s).plan ≡ s.plan)
  unfolding fanned_out
  fan_out-keeps run s =
      run_targets_keeps run (select (λ key. not (is_finished s key)) s.plan)
        (record s { pending = [] })

  settle_mono :
      (s : State F S) (key k : String) (r : Reply F S)
      → is_finished s k ≡ true
      → is_finished (settled key r s) k ≡ true
  unfolding settled
  settle_mono s key k timed_out h = ground (
    arith,
    contains-map-snoc (λ (x : AgentFailure). x.agent_key) s.failed
        (entry key hard_timeout (count_of key s.retries + 1)) k,
  )
  settle_mono s key k (crashed x) h = ground (
    arith,
    contains-map-snoc (λ (x : AgentFailure). x.agent_key) s.failed
        (entry key hard_timeout (count_of key s.retries + 1)) k,
  )
  settle_mono s key k (outcome o) h = ground (
    arith,
    contains-map-snoc (λ (x : AgentFailure). x.agent_key) s.failed
        (entry key (permanent o.error) (count_of key s.retries + 1)) k,
    contains-map-snoc (λ (x : AgentResult F S). x.agent_key) s.results
        (record { agent_key = o.agent_key; findings = o.findings; stats = o.stats }) k,
  )

  run_targets_mono :
      (run : Runner F S) (keys : List String) (s : State F S) (k : String)
      → is_finished s k ≡ true
      → is_finished (settled_targets run keys s) k ≡ true
  unfolding settled_targets
  run_targets_mono run [] s k h = h
  run_targets_mono run (key ∷ keys) s k h =
      let called : State F S = record s { calls = s.calls ++ key ∷ [] } in
      run_targets_mono run keys (settled key (run s.calls key) called) k
        (settle_mono called key k (run s.calls key) h)

  -- A finished agent stays finished.
  pub fan_out_mono :
      (run : Runner F S) (s : State F S) (k : String)
      → is_finished s k ≡ true
      → is_finished (fanned_out run s) k ≡ true
  unfolding fanned_out
  fan_out_mono run s k h =
      run_targets_mono run (select (λ key. not (is_finished s key)) s.plan)
        (record s { pending = [] }) k h

  idle_cases :
      (run : Runner F S) (s : State F S) (ks : List String)
      → select (λ key. not (is_finished s key)) s.plan ≡ ks
      → ((settled_targets run ks (record s { pending = [] })).pending ≡ [])
        ⊎ ((k : String) × ((contains s.plan k ≡ true) × (is_finished s k ≡ false)))
  unfolding settled_targets contains
  idle_cases run s [] e = inl refl
  idle_cases run s (k ∷ ks) e = inr (
    k,
    ground (
      arith,
      ap (λ xs. contains xs k) e,
      contains-select (λ key. not (is_finished s key)) s.plan k,
      eq_iff k k,
      eq_refl k,
    ),
  )

  -- Unless an agent of the plan is unfinished, a fan-out leaves nothing pending.
  pub fan_out-idle :
      (run : Runner F S) (s : State F S)
      → ((fanned_out run s).pending ≡ [])
        ⊎ ((k : String) × ((contains s.plan k ≡ true) × (is_finished s k ≡ false)))
  unfolding fanned_out
  fan_out-idle run s = idle_cases run s (select (λ key. not (is_finished s key)) s.plan) refl
