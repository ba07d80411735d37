-- ===== src/Orchestrator/Service/Decide.antt =====
-- `_decide_findings` of backend/app/orchestrator/service.py.
use adaptive_multi_agent_pr.Prelude.{
  ◌+◌, ℕ, ◌-◌, String, Bool, true, false, Option, none, some, List, [], ◌∷◌, length, ◌==◌,
  if◌then◌else◌,
}
use adaptive_multi_agent_pr.Prelude.Float.{Float}
use adaptive_multi_agent_pr.Prelude.Dict.{Dict}
use adaptive_multi_agent_pr.Prelude.Fallible.{Fallible, ok, raised, ◌>>=◌, Action, after}
use adaptive_multi_agent_pr.Adaptive.Features.{Entry, Value}
use adaptive_multi_agent_pr.Adaptive.Weights.{ArumWeights, load_weights}
use adaptive_multi_agent_pr.Adaptive.Weights as Weights
use adaptive_multi_agent_pr.Adaptive.Scoring.{Decision, rank_decisions}
use adaptive_multi_agent_pr.Adaptive.Selection.{SelectionResult, Thresholds, select_decisions}
use adaptive_multi_agent_pr.Adaptive.Selection as Selection
use adaptive_multi_agent_pr.Consolidation.Datatypes.{ConsolidationSummary}
use adaptive_multi_agent_pr.Consolidation.Consolidate.{Provider}
use adaptive_multi_agent_pr.Store.{Store, ReviewSettings, RepoBudget}
use adaptive_multi_agent_pr.Store.Reviews.{append_note, record_decision}
use adaptive_multi_agent_pr.Store.Findings.{apply_decision}
use adaptive_multi_agent_pr.Store.Memory.{repository_review_settings, review_risk_class}
use adaptive_multi_agent_pr.Orchestrator.Messages.{
  DecisionError, bad_trace, bad_weights, bad_provider, bad_selection, DecisionNote, decided,
}
use adaptive_multi_agent_pr.Orchestrator.Service.{Context, Settings, budget_cap, repo_float}
use adaptive_multi_agent_pr.Orchestrator.Service.Score.{
  refresh_repository_memory, sync_repository_context, candidate_memories, score_candidates,
}

abbrev pub is_none {ℓ} : {A : Type ℓ} → Option A → Bool
is_none none = true
is_none (some a) = false

-- `if repository_id`
abbrev pub is_named : Option String → Bool
is_named none = false
is_named (some id) = if id == "" then false else true

module _ {ℓ} {W : Type ℓ} where
  abbrev pub head_repository : ConsolidationSummary W → Option String
  head_repository summary = elim summary.findings [
    | [] ↦ none
    | row ∷ rows ↦ some row.repository_id
  ]

  abbrev pub settings_for : Option String → Store W → Option (ReviewSettings W)
  settings_for none s = none
  settings_for (some id) s = repository_review_settings id s

  abbrev pub overrides_in : Option (ReviewSettings W) → Option (Dict (Option W))
  overrides_in none = none
  overrides_in (some r) = r.arum_weights

  abbrev budget_in : Option (ReviewSettings W) → Option RepoBudget
  budget_in none = none
  budget_in (some r) = r.review_budget

  abbrev gates_in : Option (ReviewSettings W) → Dict (Value W)
  gates_in none = []
  gates_in (some r) = r.safety_gates

  unfoldable pub thresholds_for : Settings W → Option (ReviewSettings W) → Thresholds W
  unfolding repo_float
  thresholds_for cfg r = record {
    high_confidence = repo_float (gates_in r) "high_confidence" cfg.gates.high_confidence;
    low_confidence = repo_float (gates_in r) "low_confidence" cfg.gates.low_confidence;
    high_redundancy = repo_float (gates_in r) "high_redundancy" cfg.gates.high_redundancy;
  }

  -- the loop over the decisions, from the n-th on: the trace takes each before the store
  unfoldable pub apply_traced :
      (ℕ → Decision W → Option String)
      → ℕ
      → List (Decision W)
      → Action DecisionError (Store W) (Unit {0})
  unfolding apply_decision
  apply_traced append n [] s = (ok tt, s)
  apply_traced append n (d ∷ ds) s = elim (append n d) [
    | some e ↦ (raised (bad_trace e), s)
    | none ↦ apply_traced append (n + 1) ds (apply_decision d s)
  ]

  abbrev pub lift_weights : Weights.Result (ArumWeights W) → Fallible DecisionError (ArumWeights W)
  lift_weights (Weights.ok w) = ok w
  lift_weights (Weights.err e) = raised (bad_weights e)

  abbrev lift_selection :
      Selection.Outcome (SelectionResult W) → Fallible DecisionError (SelectionResult W)
  lift_selection (Selection.ok r) = ok r
  lift_selection (Selection.err e) = raised (bad_selection e)

  -- The note's cap is the selection's: a negative cap raises.
  abbrev decision_note :
      SelectionResult W → String → Bool → Bool → Option (ReviewSettings W) → DecisionNote
  decision_note r version risk_missing cold_start settings = record {
    selected_count = r.selected_count;
    candidates = length r.decisions;
    version = version;
    cap = r.cap;
    mandatory_count = r.mandatory_count;
    protected_count = r.protected_count;
    suppressed_by_gate = r.suppressed_by_gate;
    truncated_by_budget = r.truncated_by_budget;
    risk_missing = risk_missing;
    cold_start = cold_start;
    repo_settings = elim settings [ none ↦ false | some r ↦ r.has_keys ];
  }

  -- what follows the loop
  abbrev pub note_selection :
      String
      → SelectionResult W
      → String
      → Bool
      → Bool
      → Option (ReviewSettings W)
      → Store W
      → Store W
  note_selection review_id r version risk_missing cold_start settings s =
      append_note review_id (decided (decision_note r version risk_missing cold_start settings)) (
        record_decision review_id version r.cap r.selected_count
          (length r.decisions - r.selected_count) s)

  -- What a selection writes. An exception of the trace keeps what was applied before it.
  unfoldable pub record_selection :
      (ℕ → Decision W → Option String)
      → String
      → SelectionResult W
      → String
      → Bool
      → Bool
      → Option (ReviewSettings W)
      → Action DecisionError (Store W) ℕ
  unfolding apply_traced record_decision append_note
  record_selection append review_id r version risk_missing cold_start settings s =
      after (apply_traced append 0 r.decisions s) λ u s'. (
        ok r.selected_count,
        note_selection review_id r version risk_missing cold_start settings s',
      )

module _ {ℓ} {W : Type ℓ} ⦃f : Float W⦄ {D S : Type 0} (ctx : Context W D S) where
  abbrev pub refresh_if : Option String → Action DecisionError (Store W) (Option (Dict (Entry W)))
  refresh_if none s = (ok none, s)
  refresh_if (some id) s = if id == "" then (ok none, s) else refresh_repository_memory ctx id s

  abbrev pub sync_if : Option String → Provider W → Action DecisionError (Store W) Bool
  sync_if none provider s = (ok false, s)
  sync_if (some id) provider s =
      if id == "" then (ok false, s) else sync_repository_context ctx id provider s

  abbrev pub provider_of : Fallible String (Provider W) → Fallible DecisionError (Provider W)
  provider_of (ok provider) = ok provider
  provider_of (raised e) = raised (bad_provider e)

  abbrev id_or_blank : Option String → String
  id_or_blank none = ""
  id_or_blank (some id) = id

  -- the selection of the scored candidates
  unfoldable pub selection_of :
      String
      → ConsolidationSummary W
      → ArumWeights W
      → Option (Dict (Entry W))
      → Provider W
      → Option String
      → Option (ReviewSettings W)
      → Store W
      → Fallible DecisionError (SelectionResult W)
  unfolding candidate_memories score_candidates rank_decisions budget_cap thresholds_for
  selection_of review_id summary weights snapshot provider repository_id settings s =
      candidate_memories ctx summary snapshot provider (id_or_blank repository_id) s >>= λ memories.
      score_candidates ctx review_id summary weights memories >>= λ decisions. lift_selection (
        select_decisions (rank_decisions decisions)
          (budget_cap (review_risk_class review_id s) ctx.settings (budget_in settings))
          (thresholds_for ctx.settings settings))

  -- the number that was selected, and what the selection wrote
  abbrev pub concluded :
      String
      → String
      → Bool
      → Option (ReviewSettings W)
      → Store W
      → Fallible DecisionError (SelectionResult W)
      → Fallible DecisionError ℕ × Store W
  concluded review_id version cold_start settings s (raised e) = (raised e, s)
  concluded review_id version cold_start settings s (ok r) =
      record_selection ctx.trace_append review_id r version
        (is_none (review_risk_class review_id s)) cold_start settings s

  -- the steps of the decision, the last first
  abbrev pub select_synced :
      String
      → ConsolidationSummary W
      → Option (ReviewSettings W)
      → ArumWeights W
      → Option (Dict (Entry W))
      → Provider W
      → Bool
      → Action DecisionError (Store W) ℕ
  select_synced review_id summary settings weights snapshot provider synced s =
      let repository_id = head_repository summary in
      concluded review_id weights.version
        (if is_none repository_id then false else is_none snapshot) settings s
        (selection_of review_id summary weights snapshot provider repository_id settings s)

  abbrev pub sync_provided :
      String
      → ConsolidationSummary W
      → Option (ReviewSettings W)
      → ArumWeights W
      → Option (Dict (Entry W))
      → Provider W
      → Action DecisionError (Store W) ℕ
  sync_provided review_id summary settings weights snapshot provider s =
      after (sync_if (head_repository summary) provider s)
        (select_synced review_id summary settings weights snapshot provider)

  abbrev pub build_remembered :
      String
      → ConsolidationSummary W
      → Option (ReviewSettings W)
      → ArumWeights W
      → Option (Dict (Entry W))
      → Action DecisionError (Store W) ℕ
  build_remembered review_id summary settings weights snapshot s =
      after (provider_of ctx.built_provider, s)
        (sync_provided review_id summary settings weights snapshot)

  abbrev pub refresh_weighed :
      String
      → ConsolidationSummary W
      → Option (ReviewSettings W)
      → ArumWeights W
      → Action DecisionError (Store W) ℕ
  refresh_weighed review_id summary settings weights s =
      after (refresh_if (head_repository summary) s)
        (build_remembered review_id summary settings weights)

  -- Every error but one of the trace is raised before a decision is applied.
  unfoldable pub decide_findings :
      String → ConsolidationSummary W → Action DecisionError (Store W) ℕ
  unfolding record_selection selection_of
  decide_findings review_id summary s =
      let settings = settings_for (head_repository summary) s in
      after
        (lift_weights (load_weights ctx.settings.arum_weights_version (overrides_in settings)), s)
        (refresh_weighed review_id summary settings)
