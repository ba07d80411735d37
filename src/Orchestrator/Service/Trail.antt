-- ===== src/Orchestrator/Service/Trail.antt =====
-- The statuses that a run of backend/app/orchestrator/service.py leaves on its review.
use adaptive_multi_agent_pr.Prelude.{
  ◌+◌, ℕ, String, Bool, true, false, ◌≡◌, refl, ap, sym, ◌∙◌, Option, none, some, List, [], ◌∷◌,
  ◌++◌, map, if◌then◌else◌,
}
use adaptive_multi_agent_pr.Prelude.Dict.{get, get-put_self}
use adaptive_multi_agent_pr.Prelude.Fallible.{Fallible, ok, raised, after}
use adaptive_multi_agent_pr.Adaptive.Scoring.{Decision}
use adaptive_multi_agent_pr.Orchestrator.Iteration.{Resolution}
use adaptive_multi_agent_pr.Orchestrator.Messages.{Diagnosis, Note, DecisionError, bad_trace}
use adaptive_multi_agent_pr.Store.{
  Store, ReviewStatus, ReviewRecord, HistoryEntry, processing, iterating, agents_running, failed_,
  deciding, completed, set_review, review_or_empty, empty_record,
}
use adaptive_multi_agent_pr.Store.Reviews.{transition, append_note, record_decision}
use adaptive_multi_agent_pr.Store.Findings.{
  apply_resolutions, apply_decision, apply_iteration_delta, create_findings, create_finding_group,
  update_finding_duplicates,
}
use adaptive_multi_agent_pr.Store.Memory.{
  create_review_task, create_embeddings, upsert_repository_memory,
}
use adaptive_multi_agent_pr.Orchestrator.Service.Decide.{
  record_selection, apply_traced, note_selection,
}
use adaptive_multi_agent_pr.Orchestrator.Service.Blind.{IsBlind, Written, write}

-- The steps of a review's life that a run may take: those of docs/ARCHITECTURE.md (4.3), where the
-- agents' end leads to DECIDING without CONSOLIDATING, and those that docs/ROADMAP.md (phase 12) adds
-- for iterations: ITERATING before the agents and after the decision, and a round without agents.
pub data Step : ReviewStatus → ReviewStatus → Type 0 where
  iterate : Step processing iterating
  start_agents : Step processing agents_running
  restart_agents : Step iterating agents_running
  skip : Step processing completed
  fail : Step agents_running failed_
  decide : Step agents_running deciding
  finish : Step agents_running completed
  publish_iteration : Step deciding iterating

-- a path of steps, by the statuses after the first
pub data Runs : ReviewStatus → List ReviewStatus → ReviewStatus → Type 0 where
  stay : {a : ReviewStatus} → Runs a [] a
  go :
      {a b c : ReviewStatus} {path : List ReviewStatus}
      → Step a b
      → Runs b path c
      → Runs a (b ∷ path) c

-- the status of a review, and those of its history
abbrev pub Trail : Type 0
Trail = Option ReviewStatus × List ReviewStatus

abbrev pub trail_of {ℓ} : {W : Type ℓ} → ReviewRecord W → Trail
trail_of r = (r.status, map (λ e. e.status) r.status_history)

abbrev pub trail {ℓ} : {W : Type ℓ} → String → Store W → Trail
trail rid s = trail_of (review_or_empty rid s)

-- the trail after further statuses
abbrev pub pushes : List ReviewStatus → Trail → Trail
pushes [] v = v
pushes (p ∷ path) v = pushes path (some p, v.1 ++ p ∷ [])

map-append :
    (xs ys : List HistoryEntry)
    → map (λ e. e.status) (xs ++ ys) ≡ map (λ e. e.status) xs ++ map (λ e. e.status) ys
map-append [] ys = refl
map-append (x ∷ xs) ys = ap (◌∷◌ x.status) (map-append xs ys)

module _ {ℓ} {W : Type ℓ} (rid : String) where
  trail-set_review :
      (r : ReviewRecord W) (s : Store W) → trail rid (set_review rid r s) ≡ trail_of r
  trail-set_review r s =
      ap
        (λ o.
          trail_of {W = W} (elim o as (λ _. ReviewRecord W) [ none ↦ empty_record | some q ↦ q ]))
        (get-put_self rid r s.reviews)

  pub trail-transition :
      (st : ReviewStatus) (a b : Option Diagnosis) (c : Option ℕ) (now : ℕ) (s : Store W)
      → trail rid (transition rid st a b c now s) ≡ pushes (st ∷ []) (trail rid s)
  unfolding transition
  trail-transition st a b c now s =
      trail-set_review _ s
      ∙ ap (λ h. (some st, h)) (map-append (review_or_empty rid s).status_history _)

  pub trail-append_note : (n : Note) (s : Store W) → trail rid (append_note rid n s) ≡ trail rid s
  unfolding append_note
  trail-append_note n s = trail-set_review _ s

  trail-create_group :
      (us : List (String × String)) (s : Store W)
      → trail rid (update_finding_duplicates rid us s) ≡ trail rid s
  unfolding update_finding_duplicates
  trail-create_group [] s = refl
  trail-create_group ((i, g) ∷ us) s = trail-create_group us _

  -- A trail is changed by transitions only.
  pub trail-IsBlind : IsBlind rid (trail {W = W} rid)
  unfolding create_review_task create_findings create_finding_group create_embeddings
      upsert_repository_memory
  trail-IsBlind = record {
    note = trail-append_note;
    task = λ t s. refl;
    found = λ rows s. refl;
    group = λ g s. refl;
    duplicates = trail-create_group;
    embedded = λ o rows s. refl;
    remembered = λ key snapshot s. refl;
    registered = λ d s. refl;
  }

  trail-if :
      (b : Bool) (x y : Store W) (v : Trail)
      → trail rid x ≡ v
      → trail rid y ≡ v
      → trail rid (if b then x else y) ≡ v
  trail-if true x y v h k = h
  trail-if false x y v h k = k

  trail-apply_decision :
      (d : Decision W) (s : Store W) → trail rid (apply_decision d s) ≡ trail rid s
  unfolding apply_decision
  trail-apply_decision d s = trail-if _ _ s (trail rid s) refl refl

  trail-apply_traced :
      (append : ℕ → Decision W → Option String) (n : ℕ) (ds : List (Decision W)) (s : Store W)
      → trail rid (apply_traced append n ds s).1 ≡ trail rid s
  unfolding apply_traced
  trail-apply_traced append n [] s = refl
  trail-apply_traced append n (d ∷ ds) s =
      given (append n d) (trail-apply_traced append (n + 1) ds (apply_decision d s))
    where
      given :
          (o : Option String)
          → trail rid (apply_traced append (n + 1) ds (apply_decision d s)).1
            ≡ trail rid (apply_decision d s)
          → trail rid
              (elim o as (λ _. Fallible DecisionError (Unit {0}) × Store W) [
                | some e ↦ (raised (bad_trace e), s)
                | none ↦ apply_traced append (n + 1) ds (apply_decision d s)
              ]).1
            ≡ trail rid s
      given (some e) rec = refl
      given none rec = rec ∙ trail-apply_decision d s

  trail-record_decision :
      (version : String) (a b c : ℕ) (s : Store W)
      → trail rid (record_decision rid version a b c s) ≡ trail rid s
  unfolding record_decision
  trail-record_decision version a b c s = given (get rid s.reviews) refl
    where
      given :
          (o : Option (ReviewRecord W))
          → get rid s.reviews ≡ o
          → trail rid (elim o as (λ _. Store W) [
            | none ↦ s
            | some r ↦
                set_review rid
                  (record r {
                    arum_version = some version;
                    budget_cap = some a;
                    selected_count = some b;
                    suppressed_count = some c;
                  })
                  s
          ])
            ≡ trail rid s
      given none e = refl
      given (some r) e =
          trail-set_review _ s
          ∙ ap
              (λ p.
                trail_of {W = W}
                  (elim p as (λ _. ReviewRecord W) [ none ↦ empty_record | some q ↦ q ]))
              (sym e)

  trail-note_selection :
      (w : Written W) (s : Store W)
      → trail rid
          (note_selection rid w.selection w.version w.risk_missing w.cold_start w.settings s)
        ≡ trail rid s
  trail-note_selection w s =
      trail-append_note _
        (record_decision rid w.version w.selection.cap w.selection.selected_count _ s)
      ∙ trail-record_decision w.version w.selection.cap w.selection.selected_count _ s

  pub trail-write :
      (append : ℕ → Decision W → Option String) (w : Written W) (s : Store W)
      → trail rid (write append rid w s).1 ≡ trail rid s
  unfolding record_selection
  trail-write append w s =
      given (apply_traced append 0 w.selection.decisions s)
      ∙ trail-apply_traced append 0 w.selection.decisions s
    where
      given :
          (x : Fallible DecisionError (Unit {0}) × Store W)
          → trail rid
              (after x λ u s'. (
                ok w.selection.selected_count,
                note_selection rid w.selection w.version w.risk_missing w.cold_start w.settings s',
              )).1
            ≡ trail rid x.1
      given (ok u, t) = trail-note_selection w t
      given (raised e, t) = refl

  pub trail-apply_iteration_delta :
      (rs : List Resolution) (s : Store W)
      → trail rid (apply_iteration_delta rid rs s) ≡ trail rid s
  unfolding apply_iteration_delta
  trail-apply_iteration_delta [] s = refl
  trail-apply_iteration_delta (r ∷ rs) s =
      trail-append_note _ (record s { findings = apply_resolutions (r ∷ rs) s.findings })
