-- ===== src/Orchestrator/Service/Total.antt =====
-- How a run of backend/app/orchestrator/service.py ends, and its path of statuses.
use mathlib.Core.Path.{subst}
use adaptive_multi_agent_pr.Prelude.{
  String, Bool, true, false, ◌≡◌, refl, ap, sym, ◌∙◌, inl, inr, Option, none, some, List, [], ◌∷◌,
  All, arith, ◌==◌, eq_iff, Bool-cases,
}
use adaptive_multi_agent_pr.Prelude.Float.{Float}
use adaptive_multi_agent_pr.Prelude.Dict.{Dict, get, get-put, get-put_self, contains}
use adaptive_multi_agent_pr.Prelude.Fallible.{Fallible, ok, raised}
use adaptive_multi_agent_pr.Agents.Contract.{AgentScope}
use adaptive_multi_agent_pr.Agents.Prompts.{queue_names}
use adaptive_multi_agent_pr.Orchestrator.Graph.{State}
use adaptive_multi_agent_pr.Orchestrator.Iteration.{IterationPlan}
use adaptive_multi_agent_pr.Store.{Store, ReviewStatus, agents_running}
use adaptive_multi_agent_pr.Store.Memory.{sync_agents, set_default, create_review_task}
use adaptive_multi_agent_pr.Orchestrator.Service.{Context}
use adaptive_multi_agent_pr.Orchestrator.Service.Persist.{
  Crash, unknown_agent, Collected, ReviewOutcome, persist, persist_tasks, persist_rest,
  registration, collect, result_of, task_of, task_row,
}
use adaptive_multi_agent_pr.Orchestrator.Service.Running.{registered}
use adaptive_multi_agent_pr.Orchestrator.Service.Blind.{persist_tasks-blind}
use adaptive_multi_agent_pr.Orchestrator.Service.Trail.{trail, trail-IsBlind}
use adaptive_multi_agent_pr.Orchestrator.Service.Traced.{Took, persist_rest-Took}

abbrev pub has {ℓ} : {V : Type ℓ} → Dict V → String → Bool
has d key = elim (get key d) [ none ↦ false | some v ↦ true ]

-- the two lookups of an agent succeed
abbrev pub is_known : Dict String → String → Bool
is_known ids key = elim (registration ids key) [ none ↦ false | some r ↦ true ]

pub queue_names-has : (key : String) → contains registered key ≡ true → has queue_names key ≡ true
unfolding contains get
queue_names-has key h = ground arith

pub known_lem :
    (ids : Dict String) (key : String)
    → has ids key ≡ true
    → has queue_names key ≡ true
    → is_known ids key ≡ true
known_lem ids key h k = ground arith

has-set_default :
    (key j id : String) (o : Option String) (d : Dict String)
    → has d j ≡ true
    → has (set_default key id o d) j ≡ true
has-set_default key j id none d h = ground (arith, get-put key j id d)
has-set_default key j id (some old) d h = h

set_default-has :
    (key id : String) (o : Option String) (d : Dict String)
    → get key d ≡ o
    → has (set_default key id o d) key ≡ true
set_default-has key id none d h = ground (arith, get-put_self key id d)
set_default-has key id (some old) d h = ground (arith, h)

module _ {ℓ} {W : Type ℓ} where
  sync_agents-keeps :
      (fresh : String → String) (keys : List String) (s : Store W) (j : String)
      → has s.agents j ≡ true
      → has (sync_agents fresh keys s).0 j ≡ true
  unfolding sync_agents
  sync_agents-keeps fresh [] s j h = h
  sync_agents-keeps fresh (key ∷ keys) s j h =
      sync_agents-keeps fresh keys
        (record s { agents = set_default key (fresh key) (get key s.agents) s.agents }) j
        (has-set_default key j (fresh key) (get key s.agents) s.agents h)

  -- each agent that was asked for is in the answer
  pub sync_agents-has :
      (fresh : String → String) (keys : List String) (s : Store W) (j : String)
      → contains keys j ≡ true
      → has (sync_agents fresh keys s).0 j ≡ true
  unfolding sync_agents contains
  sync_agents-has fresh [] s j h = ground arith
  sync_agents-has fresh (key ∷ keys) s j h = elim (Bool-cases (key == j)) [
    | inl e ↦
        sync_agents-keeps fresh keys
          (record s { agents = set_default key (fresh key) (get key s.agents) s.agents }) j
          (subst (λ k. has (set_default key (fresh key) (get key s.agents) s.agents) k ≡ true)
            ((eq_iff key j).0 e) (set_default-has key (fresh key) (get key s.agents) s.agents refl))
    | inr e ↦
        sync_agents-has fresh keys
          (record s { agents = set_default key (fresh key) (get key s.agents) s.agents }) j
          (ground (arith, e, h))
  ]

module _ {ℓ} {W : Type ℓ} {D S : Type 0} (rid : String) where
  persist_tasks-ok :
      (ids : Dict String) (final : State D S) (keys : List String) (c : Collected D) (s : Store W)
      → All (λ key. is_known ids key ≡ true) keys
      → (c' : Collected D) × (s' : Store W) × (persist_tasks rid ids final keys c s ≡ (ok c', s'))
  unfolding persist_tasks
  persist_tasks-ok ids final [] c s h = (c, s, refl)
  persist_tasks-ok ids final (key ∷ keys) c s h =
      given (registration ids key) h.0 (λ c' s'. persist_tasks-ok ids final keys c' s' h.1)
    where
      given :
          (o : Option (String × String))
          → (elim o [ none ↦ false | some r ↦ true ]) ≡ true
          → ((c1 : Collected D) (s1 : Store W)
              → (c' : Collected D) × (s' : Store W) × (persist_tasks rid ids final keys c1 s1
                  ≡ (ok c', s')))
          → (c' : Collected D) × (s' : Store W) × ((elim o
                as (λ _. Fallible Crash (Collected D) × Store W) [
                  | none ↦ (raised (unknown_agent key), s)
                  | some (id, queue) ↦
                      persist_tasks rid ids final keys
                        (collect key id (result_of key final.results) (task_of final key) c)
                        (create_review_task (task_row rid id queue (task_of final key)) s)
                ])
              ≡ (ok c', s'))
      given none k rec = cc
      given (some (id, queue)) k rec = rec _ _

module _ {ℓ} {W : Type ℓ} ⦃f : Float W⦄ {D S : Type 0} (ctx : Context W D S) (rid : String) where
  -- an outcome, and the path of steps to its status
  abbrev pub Ends :
      (Option ReviewStatus × List ReviewStatus)
      → ReviewStatus
      → Fallible Crash (ReviewOutcome D) × Store W
      → Type ℓ
  Ends v from r =
      (o : ReviewOutcome D) × (t : Store W) × (r ≡ (ok o, t)) × Took rid v from t o.status

  pub persist-Ends :
      (scope : AgentScope) (ids : Dict String) (final : State D S) (plan : Option IterationPlan)
      (head_sha : Option String) (s : Store W)
      → All (λ key. is_known ids key ≡ true) final.plan
      → Ends (trail rid s) agents_running (persist ctx rid scope ids final plan head_sha s)
  unfolding persist
  persist-Ends scope ids final plan head_sha s h =
      let start : Collected D = record { tasks = []; findings = []; inputs = [] } in
      let (c, s', e) = persist_tasks-ok rid ids final final.plan start s h in
      let r = persist_rest ctx rid scope final plan head_sha c s' in
      let kept : trail rid s' ≡ trail rid s =
        ap (λ p. trail rid p.1) (sym e)
        ∙ persist_tasks-blind rid (trail rid) (trail-IsBlind rid) ids final final.plan start s in
      (
        r.0,
        r.1,
        rw e refl,
        subst (λ v. Took rid v agents_running r.1 r.0.status) kept
            (persist_rest-Took ctx rid scope final plan head_sha c s'),
      )
