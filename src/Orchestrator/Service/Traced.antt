-- ===== src/Orchestrator/Service/Traced.antt =====
-- The path of statuses that a run of backend/app/orchestrator/service.py takes.
use adaptive_multi_agent_pr.Prelude.{
  inl, inr, ℕ, String, Bool, true, false, ◌≡◌, refl, ap, ◌∙◌, Option, none, some, List, [], ◌∷◌,
  ◌++◌,
}
use adaptive_multi_agent_pr.Prelude.Float.{Float}
use adaptive_multi_agent_pr.Prelude.Fallible.{Fallible, ok, raised}
use adaptive_multi_agent_pr.Agents.Contract.{AgentScope}
use adaptive_multi_agent_pr.Orchestrator.Graph.{State}
use adaptive_multi_agent_pr.Orchestrator.Iteration.{IterationPlan}
use adaptive_multi_agent_pr.Orchestrator.Messages.{Diagnosis, DecisionError}
use adaptive_multi_agent_pr.Store.{
  Store, ReviewStatus, iterating, agents_running, failed_, deciding, completed,
}
use adaptive_multi_agent_pr.Store.Reviews.{transition}
use adaptive_multi_agent_pr.Store.Findings.{record_iteration}
use adaptive_multi_agent_pr.Orchestrator.Service.{Context}
use adaptive_multi_agent_pr.Orchestrator.Service.Decide.{decide_findings}
use adaptive_multi_agent_pr.Orchestrator.Service.Consolidating.{
  Consolidation, nothing, broken, done,
}
use adaptive_multi_agent_pr.Orchestrator.Service.Persist.{
  Collected, end_status, end_iteration, close_iteration, split_decision, decide_if, persist_rest,
  completion, is_failed, has_failures, cause_of, append_notes, consolidate_if,
}
use adaptive_multi_agent_pr.Orchestrator.Service.Blind.{
  decide_findings-Decided, append_notes-blind, consolidate_if-blind,
}
use adaptive_multi_agent_pr.Orchestrator.Service.Trail.{
  Step, fail, decide, finish, publish_iteration, Runs, stay, go, Trail, trail, pushes,
  trail-transition, trail-IsBlind, trail-write,
}

-- the status in which the graph's end leaves a review, with the step to it
data Ended : ReviewStatus → Type 0 where
  ended_failed : Ended failed_
  ended_deciding : Ended deciding
  ended_completed : Ended completed

step_to : {st : ReviewStatus} → Ended st → Step agents_running st
step_to ended_failed = fail
step_to ended_deciding = decide
step_to ended_completed = finish

end_status-Ended {ℓ} :
    {W : Type ℓ} (c : Consolidation W) (e : Option DecisionError) (failed : Bool)
    (cause : Option Diagnosis)
    → Ended (end_status c e failed cause).0
unfolding end_status
end_status-Ended (broken e) d failed cause = ended_failed
end_status-Ended nothing (some e) failed cause = ended_failed
end_status-Ended nothing none true cause = ended_failed
end_status-Ended nothing none false cause = ended_completed
end_status-Ended (done summary) (some e) failed cause = ended_failed
end_status-Ended (done summary) none true cause = ended_failed
end_status-Ended (done summary) none false cause = ended_deciding

-- From `a` on, the review `rid` of `t` has taken a path of steps to `b`, beginning where `v` ends.
abbrev pub Took {ℓ} : {W : Type ℓ} → String → Trail → ReviewStatus → Store W → ReviewStatus → Type 0
Took rid v a t b = (path : List ReviewStatus) × Runs a path b × (trail rid t ≡ pushes path v)

module _ {ℓ} {W : Type ℓ} (rid : String) where
  split_decision-trail :
      (d : Fallible DecisionError ℕ × Store W) → trail rid (split_decision d).1 ≡ trail rid d.1
  split_decision-trail (ok n, s) = refl
  split_decision-trail (raised e, s) = refl

  -- one more step before
  pub before :
      {a b c : ReviewStatus} (v : Trail) (t : Store W)
      → Step a b
      → Took rid (some b, v.1 ++ b ∷ []) b t c
      → Took rid v a t c
  before {a} {b} {c} v t st (path, runs, e) = (b ∷ path, go st runs, e)

  end_iteration-Took :
      {st : ReviewStatus} (ended : Ended st) (now at : ℕ) (s : Store W) (v : Trail)
      → trail rid s ≡ v
      → Took rid v st (end_iteration rid st now at s).1 (end_iteration rid st now at s).0
  unfolding end_iteration
  end_iteration-Took ended_failed now at s v h = ([], stay, h)
  end_iteration-Took ended_completed now at s v h = ([], stay, h)
  end_iteration-Took ended_deciding now at s v h = (
    iterating ∷ [],
    go publish_iteration stay,
    trail-transition rid iterating none none (some now) at s ∙ ap (pushes (iterating ∷ [])) h,
  )

  close_iteration-Took :
      (plan : Option IterationPlan) (failures : Bool) (scope : AgentScope)
      (head_sha : Option String) (selected : ℕ) {st : ReviewStatus} (ended : Ended st) (now at : ℕ)
      (s : Store W) (v : Trail)
      → trail rid s ≡ v
      → let r = close_iteration plan failures rid scope head_sha selected st now at s in
        Took rid v st r.1 r.0
  unfolding close_iteration record_iteration
  close_iteration-Took none failures scope head_sha selected ended now at s v h = ([], stay, h)
  close_iteration-Took (some plan) true scope head_sha selected ended now at s v h = ([], stay, h)
  close_iteration-Took (some plan) false scope head_sha selected ended now at s v h =
      end_iteration-Took ended now at _ v h

module _ {ℓ} {W : Type ℓ} ⦃f : Float W⦄ {D S : Type 0} (ctx : Context W D S) (rid : String) where
  decide_if-trail :
      (c : Consolidation W) (failed : Bool) (s : Store W)
      → trail rid (decide_if ctx rid c failed s).1 ≡ trail rid s
  unfolding decide_if
  decide_if-trail (done summary) false s =
      let (s', h, d) = decide_findings-Decided rid (trail rid) (trail-IsBlind rid) ctx summary s in
      split_decision-trail rid (decide_findings ctx rid summary s) ∙ elim d [
        | inl (e, w) ↦ ap (λ p. trail rid p.1) w ∙ h
        | inr (x, w) ↦ ap (λ p. trail rid p.1) w ∙ trail-write rid ctx.trace_append x s' ∙ h
      ]
  decide_if-trail (done summary) true s = refl
  decide_if-trail nothing failed s = refl
  decide_if-trail (broken e) failed s = refl

  pub persist_rest-Took :
      (scope : AgentScope) (final : State D S) (plan : Option IterationPlan)
      (head_sha : Option String) (c : Collected D) (s : Store W)
      → let r = persist_rest ctx rid scope final plan head_sha c s in
        Took rid (trail rid s) agents_running r.1 r.0.status
  unfolding persist_rest
  persist_rest-Took scope final plan head_sha c s =
      let noted = append_notes rid final.notes s in
      let merged = consolidate_if ctx rid scope c.inputs noted in
      let d = decide_if ctx rid merged.0 (is_failed final) merged.1 in
      let e = end_status merged.0 d.0.0 (is_failed final) (cause_of final) in
      let ended = end_status-Ended merged.0 d.0.0 (is_failed final) (cause_of final) in
      let moved = transition rid e.0 e.1 e.1 (completion e.0 (ctx.clock 1)) (ctx.clock 2) d.1 in
      let same =
        decide_if-trail merged.0 (is_failed final) merged.1
        ∙ consolidate_if-blind rid (trail rid) (trail-IsBlind rid) ctx scope c.inputs noted
        ∙ append_notes-blind rid (trail rid) (trail-IsBlind rid) final.notes s in
      before rid (trail rid s) (persist_rest ctx rid scope final plan head_sha c s).1
        (step_to ended)
        (close_iteration-Took rid plan (has_failures final) scope head_sha d.0.1 ended (ctx.clock 1)
          (ctx.clock 3) moved (pushes (e.0 ∷ []) (trail rid s))
          (trail-transition rid e.0 e.1 e.1 (completion e.0 (ctx.clock 1)) (ctx.clock 2) d.1
            ∙ ap (pushes (e.0 ∷ [])) same))
