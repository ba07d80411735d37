-- ===== src/Orchestrator/Service/Known.antt =====
-- The agents that a run of backend/app/orchestrator/service.py may plan.
use adaptive_multi_agent_pr.Prelude.{
  ℕ, String, Bool, true, false, ◌≡◌, refl, Option, none, some, List, [], ◌∷◌, any, All, arith,
  if◌then◌else◌,
}
use adaptive_multi_agent_pr.Prelude.Int.{ℤ, pos}
use adaptive_multi_agent_pr.Prelude.Dict.{contains}
use adaptive_multi_agent_pr.Agents.Contract.{AgentScope, FileSlice}
use adaptive_multi_agent_pr.Agents.Prompts.{prompt_specs, Registry}
use adaptive_multi_agent_pr.Orchestrator.Graph.{Runner, build_task_plan}
use adaptive_multi_agent_pr.Orchestrator.Graph.Nodes.{Crashes, Echoes}
use adaptive_multi_agent_pr.Orchestrator.Iteration.{
  PreviousFinding, IterationPlan, Resolution, agents_for_categories, category_allowed,
  plan_review_delta, review_loop, removed_set, group_by_path,
}
use adaptive_multi_agent_pr.Orchestrator.Service.Running.{
  registered, targeted, targets_of, Course, full, no_op, iteration, course_of, choose_course,
}

-- every key is that of a registered agent
abbrev pub AllKnown : List String → Type 0
AllKnown keys = All (λ key. contains registered key ≡ true) keys

registered-AllKnown : AllKnown registered
unfolding contains
registered-AllKnown = (refl, (refl, (refl, (refl, (refl, tt)))))

agents_for_categories-All :
    (P : String → Type 0) (categories : List String) (registry : Registry)
    → All (λ p. P p.0) registry
    → All P (agents_for_categories categories registry)
unfolding agents_for_categories
agents_for_categories-All P categories [] h = tt
agents_for_categories-All P categories ((key, allowed) ∷ specs) h =
    kept (any (λ c. category_allowed c allowed) categories)
      (agents_for_categories-All P categories specs h.1)
  where
    kept :
        (b : Bool)
        → All P (agents_for_categories categories specs)
        → All P (
            if b
            then key ∷ agents_for_categories categories specs
            else agents_for_categories categories specs)
    kept true k = (h.0, k)
    kept false k = k

pub build_task_plan-AllKnown :
    (keys : List String) → AllKnown keys → AllKnown (build_task_plan registered keys)
unfolding build_task_plan
build_task_plan-AllKnown [] h = registered-AllKnown
build_task_plan-AllKnown (k ∷ ks) h = h

pub targets_of-AllKnown :
    (plan : IterationPlan) → AllKnown plan.targeted_agents → AllKnown (targets_of plan)
targets_of-AllKnown plan h = given plan.targeted_agents h
  where
    given :
        (keys : List String)
        → AllKnown keys
        → AllKnown (elim keys [ [] ↦ registered | k ∷ ks ↦ k ∷ ks ])
    given [] k = registered-AllKnown
    given (x ∷ xs) k = k

-- an iteration targets registered agents
abbrev pub Aimed : Course → Type 0
Aimed full = Unit
Aimed (no_op plan) = Unit
Aimed (iteration plan) = AllKnown plan.targeted_agents

course_of-Aimed : (plan : IterationPlan) → AllKnown plan.targeted_agents → Aimed (course_of plan)
course_of-Aimed plan h = given plan.resolutions plan.changed_paths
  where
    given :
        (rs : List Resolution) (ps : List String)
        → Aimed (elim rs [
          | [] ↦ full
          | r ∷ rest ↦ elim ps [ [] ↦ no_op plan | p ∷ paths ↦ iteration plan ]
        ])
    given [] ps = tt
    given (r ∷ rs) [] = tt
    given (r ∷ rs) (p ∷ ps) = h

plan_review_delta-AllKnown :
    (previous : List PreviousFinding) (slices : List FileSlice) (gap : ℤ)
    → AllKnown (plan_review_delta previous slices gap prompt_specs).targeted_agents
unfolding plan_review_delta contains
plan_review_delta-AllKnown previous slices gap =
    agents_for_categories-All (λ key. contains registered key ≡ true)
      (review_loop (removed_set slices []) (group_by_path slices []) gap previous ([], [])).1
      prompt_specs (refl, (refl, (refl, (refl, (refl, tt)))))

pub choose_course-Aimed :
    (b : Bool) (previous : Option (List PreviousFinding)) (scope : AgentScope) (gap : ℕ)
    → Aimed (choose_course b previous scope gap)
unfolding choose_course
choose_course-Aimed false previous scope gap = tt
choose_course-Aimed true none scope gap = tt
choose_course-Aimed true (some previous) scope gap =
    course_of-Aimed (plan_review_delta previous scope.changed_files (pos gap) prompt_specs)
      (plan_review_delta-AllKnown previous scope.changed_files (pos gap))

pub targeted-Echoes :
    {D S : Type 0} (keys : List String) (run : Runner D S) → Echoes run → Echoes (targeted keys run)
unfolding targeted
targeted-Echoes keys run e calls key o h = ground (arith, h, e calls key o)

-- a call that crashes the targeted runner crashes the runner that it wraps
pub targeted-Crashes :
    {D S : Type 0} (keys : List String) (run : Runner D S) (e : String)
    → Crashes (targeted keys run) e
    → Crashes run e
unfolding targeted
targeted-Crashes keys run e (calls, key, h) = (calls, key, ground (arith, h))
