-- ===== src/Orchestrator/Service/Schedule.antt =====
-- Which findings a run of backend/app/orchestrator/service.py schedules for publication.
use mathlib.Core.Bool.{true≢false}
use adaptive_multi_agent_pr.Prelude.{
  ℕ, String, Bool, true, false, ◌≡◌, refl, ap, sym, ◌∙◌, ◌⊎◌, inl, inr, Option, none, some, List,
  [], ◌∷◌, ◌++◌, map, if◌then◌else◌,
}
use adaptive_multi_agent_pr.Prelude.{◌+◌}
use adaptive_multi_agent_pr.Adaptive.Scoring.{Decision}
use adaptive_multi_agent_pr.Store.Findings.{apply_decision}
use adaptive_multi_agent_pr.Orchestrator.Service.Decide.{
  apply_traced, record_selection, note_selection,
}
use adaptive_multi_agent_pr.Orchestrator.Service.Blind.{Written, write}
use adaptive_multi_agent_pr.Prelude.Float.{Float}
use adaptive_multi_agent_pr.Prelude.Fallible.{Fallible, ok}
use adaptive_multi_agent_pr.Agents.Contract.{AgentScope}
use adaptive_multi_agent_pr.Consolidation.Datatypes.{FindingWrite}
use adaptive_multi_agent_pr.Orchestrator.Graph.{State}
use adaptive_multi_agent_pr.Orchestrator.Iteration.{IterationPlan}
use adaptive_multi_agent_pr.Orchestrator.Messages.{Diagnosis, DecisionError}
use adaptive_multi_agent_pr.Store.{
  Store, FindingRow, FindingStatus, scheduled, ReviewStatus, deciding, iterating, failed_,
  update_first,
}
use adaptive_multi_agent_pr.Store.Reviews.{transition, append_note}
use adaptive_multi_agent_pr.Store.Findings.{
  create_findings, create_finding_group, update_finding_duplicates, new_row, is_row,
  record_iteration,
}
use adaptive_multi_agent_pr.Store.Memory.{
  create_review_task, create_embeddings, upsert_repository_memory,
}
use adaptive_multi_agent_pr.Orchestrator.Service.{Context}
use adaptive_multi_agent_pr.Orchestrator.Service.Decide.{decide_findings}
use adaptive_multi_agent_pr.Orchestrator.Service.Consolidating.{
  Consolidation, nothing, broken, done,
}
use adaptive_multi_agent_pr.Orchestrator.Service.Persist.{
  Collected, end_status, end_iteration, close_iteration, split_decision, decide_if, persist_rest,
  completion, is_failed, has_failures, cause_of, append_notes, consolidate_if, is_over,
}
use adaptive_multi_agent_pr.Orchestrator.Service.Blind.{
  IsBlind, Decided, decide_findings-Decided, append_notes-blind, consolidate_if-blind,
}

abbrev is_waiting : FindingStatus → Bool
is_waiting scheduled = true
is_waiting _ = false

abbrev add_id : Bool → String → List String → List String
add_id true id ids = id ∷ ids
add_id false id ids = ids

abbrev ids_in {ℓ} : {W : Type ℓ} → List (FindingRow W) → List String
ids_in [] = []
ids_in (row ∷ rows) = add_id (is_waiting row.publication_status) row.finding.id (ids_in rows)

-- the ids of the findings that wait for their publication
abbrev pub scheduled_ids {ℓ} : {W : Type ℓ} → Store W → List String
scheduled_ids s = ids_in s.findings

abbrev is_failed_status : ReviewStatus → Bool
is_failed_status failed_ = true
is_failed_status _ = false

module _ {ℓ} {W : Type ℓ} (rid : String) where
  ids_in-append :
      (rows : List (FindingRow W)) (new : List (FindingWrite W))
      → ids_in (rows ++ map (new_row rid) new) ≡ ids_in rows
  unfolding new_row
  ids_in-append [] [] = refl
  ids_in-append [] (x ∷ new) = ids_in-append [] new
  ids_in-append (row ∷ rows) new =
      ap (add_id (is_waiting row.publication_status) row.finding.id) (ids_in-append rows new)

  ids_in-update_first :
      (p : FindingRow W → Bool) (g : String) (rows : List (FindingRow W))
      → ids_in (
          update_first p
            (λ row. record row { finding = record row.finding { duplicate_group = some g } })
            rows)
        ≡ ids_in rows
  unfolding update_first
  ids_in-update_first p g [] = refl
  ids_in-update_first p g (row ∷ rows) = picked (p row) (ids_in-update_first p g rows)
    where
      picked :
          (b : Bool)
          → ids_in (
              update_first p
                (λ r. record r { finding = record r.finding { duplicate_group = some g } })
                rows)
            ≡ ids_in rows
          → ids_in (
              if b
              then record row { finding = record row.finding { duplicate_group = some g } } ∷ rows
              else row
                ∷ update_first p
                    (λ r. record r { finding = record r.finding { duplicate_group = some g } })
                    rows)
            ≡ ids_in (row ∷ rows)
      picked true h = refl
      picked false h = ap (add_id (is_waiting row.publication_status) row.finding.id) h

  duplicates_lem :
      (us : List (String × String)) (s : Store W)
      → scheduled_ids (update_finding_duplicates rid us s) ≡ scheduled_ids s
  unfolding update_finding_duplicates
  duplicates_lem [] s = refl
  duplicates_lem ((id, g) ∷ us) s =
      duplicates_lem us _ ∙ ids_in-update_first (is_row rid id) g s.findings

  scheduled_ids-IsBlind : IsBlind rid (scheduled_ids {W = W})
  unfolding append_note create_review_task create_findings create_finding_group create_embeddings
      upsert_repository_memory
  scheduled_ids-IsBlind = record {
    note = λ n s. refl;
    task = λ t s. refl;
    found = λ rows s. ids_in-append s.findings rows;
    group = λ g s. refl;
    duplicates = duplicates_lem;
    embedded = λ o rows s. refl;
    remembered = λ key snapshot s. refl;
    registered = λ d s. refl;
  }

  end_iteration-findings :
      (status : ReviewStatus) (now at : ℕ) (s : Store W) (b : Bool)
      → scheduled_ids
          (if◌then◌else◌ {A = ReviewStatus × Store W} b
            (status, s)
            (iterating, transition rid iterating none none (some now) at s)).1
        ≡ scheduled_ids s
  unfolding transition
  end_iteration-findings status now at s true = refl
  end_iteration-findings status now at s false = refl

  close_iteration-findings :
      (plan : Option IterationPlan) (failures : Bool) (scope : AgentScope)
      (head_sha : Option String) (selected : ℕ) (status : ReviewStatus) (now at : ℕ) (s : Store W)
      → scheduled_ids (close_iteration plan failures rid scope head_sha selected status now at s).1
        ≡ scheduled_ids s
  unfolding close_iteration end_iteration record_iteration
  close_iteration-findings none failures scope head_sha selected status now at s = refl
  close_iteration-findings (some plan) true scope head_sha selected status now at s = refl
  close_iteration-findings (some plan) false scope head_sha selected status now at s =
      end_iteration-findings status now at _ (is_over status)

  -- a review that waits for its publication does not fail at the end of its iteration
  close_iteration-deciding :
      (plan : Option IterationPlan) (failures : Bool) (scope : AgentScope)
      (head_sha : Option String) (selected : ℕ) (now at : ℕ) (s : Store W)
      → is_failed_status
          (close_iteration plan failures rid scope head_sha selected deciding now at s).0
        ≡ false
  unfolding close_iteration end_iteration
  close_iteration-deciding none failures scope head_sha selected now at s = refl
  close_iteration-deciding (some plan) true scope head_sha selected now at s = refl
  close_iteration-deciding (some plan) false scope head_sha selected now at s = refl

module _ {ℓ} {W : Type ℓ} ⦃f : Float W⦄ {D S : Type 0} (ctx : Context W D S) (rid : String)
    (quiet : (n : ℕ) (d : Decision W) → ctx.trace_append n d ≡ none) where
  -- the step left the scheduled findings, or ended without an error
  abbrev Kept : Store W → (Option DecisionError × ℕ) × Store W → Type 0
  Kept s r = (scheduled_ids r.1 ≡ scheduled_ids s) ⊎ (r.0.0 ≡ none)

  apply_traced-ok :
      (n : ℕ) (ds : List (Decision W)) (s : Store W)
      → (t : Store W) × (apply_traced ctx.trace_append n ds s ≡ (ok tt, t))
  unfolding apply_traced
  apply_traced-ok n [] s = (s, refl)
  apply_traced-ok n (d ∷ ds) s =
      let (t, e) = apply_traced-ok (n + 1) ds (apply_decision d s) in
      (t, rw (quiet n d, apply_traced) e)

  write-ok :
      (w : Written W) (s : Store W)
      → (t : Store W) × (write ctx.trace_append rid w s ≡ (ok w.selection.selected_count, t))
  unfolding record_selection
  write-ok w s =
      let (t, e) = apply_traced-ok 0 w.selection.decisions s in
      (note_selection rid w.selection w.version w.risk_missing w.cold_start w.settings t, rw e refl)

  split_decision-Kept :
      (s : Store W) (d : Fallible DecisionError ℕ × Store W)
      → Decided rid scheduled_ids (scheduled_ids-IsBlind rid) ctx s d
      → Kept s (split_decision d)
  split_decision-Kept s d (s', h, inl (e, w)) =
      inl (ap (λ x. scheduled_ids (split_decision x).1) w ∙ h)
  split_decision-Kept s d (s', h, inr (x, w)) =
      let (t, e) = write-ok x s' in inr (ap (λ y. (split_decision y).0.0) (w ∙ e))

  decide_if-Kept :
      (c : Consolidation W) (failed : Bool) (cause : Option Diagnosis) (s : Store W)
      → let r = decide_if ctx rid c failed s in
        (scheduled_ids r.1 ≡ scheduled_ids s) ⊎ ((end_status c r.0.0 failed cause).0 ≡ deciding)
  unfolding decide_if end_status
  decide_if-Kept (done summary) false cause s =
      elim (split_decision-Kept s (decide_findings ctx rid summary s)
        (decide_findings-Decided rid scheduled_ids (scheduled_ids-IsBlind rid) ctx summary s)) [
          | inl h ↦ inl h
          | inr e ↦ inr (ap (λ x. (end_status (done summary) x false cause).0) e)
        ]
  decide_if-Kept (done summary) true cause s = inl refl
  decide_if-Kept nothing failed cause s = inl refl
  decide_if-Kept (broken e) failed cause s = inl refl

  -- Where the trace raises no exception, a run that ends FAILED, because its agents, the consolidation or the decision failed, schedules no
  -- finding: those that wait for their publication are the ones that waited before its results were
  -- persisted.
  pub persist_rest-scheduled_ids :
      (scope : AgentScope) (final : State D S) (plan : Option IterationPlan)
      (head_sha : Option String) (c : Collected D) (s : Store W)
      → (persist_rest ctx rid scope final plan head_sha c s).0.status ≡ failed_
      → scheduled_ids (persist_rest ctx rid scope final plan head_sha c s).1 ≡ scheduled_ids s
  unfolding persist_rest transition
  persist_rest-scheduled_ids scope final plan head_sha c s failed =
      let noted = append_notes rid final.notes s in
      let merged = consolidate_if ctx rid scope c.inputs noted in
      let d = decide_if ctx rid merged.0 (is_failed final) merged.1 in
      let e = end_status merged.0 d.0.0 (is_failed final) (cause_of final) in
      let moved = transition rid e.0 e.1 e.1 (completion e.0 (ctx.clock 1)) (ctx.clock 2) d.1 in
      elim (decide_if-Kept merged.0 (is_failed final) (cause_of final) merged.1) [
        | inl h ↦
            close_iteration-findings rid plan (has_failures final) scope head_sha d.0.1 e.0
              (ctx.clock 1) (ctx.clock 3) moved
            ∙ h
            ∙ consolidate_if-blind rid scheduled_ids (scheduled_ids-IsBlind rid) ctx scope c.inputs
                noted
            ∙ append_notes-blind rid scheduled_ids (scheduled_ids-IsBlind rid) final.notes s
        | inr k ↦ absurd (
            true≢false (
              sym (ap is_failed_status failed)
              ∙ ap
                  (λ st.
                    is_failed_status
                      (close_iteration plan (has_failures final) rid scope head_sha d.0.1 st
                        (ctx.clock 1) (ctx.clock 3) moved).0)
                  k
              ∙ close_iteration-deciding rid plan (has_failures final) scope head_sha d.0.1
                  (ctx.clock 1) (ctx.clock 3) moved))
      ]
