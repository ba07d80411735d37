-- ===== src/Orchestrator/Service/Blind.antt =====
-- backend/app/orchestrator/service.py, seen through an observation of the store: what each part of a
-- run leaves as it was, if the store's own operations do.
use adaptive_multi_agent_pr.Prelude.{
  length, ℕ, String, Bool, true, false, ◌≡◌, refl, ◌∙◌, Option, none, some, List, [], ◌∷◌, ◌==◌,
  if◌then◌else◌,
}
use adaptive_multi_agent_pr.Prelude.Float.{Float}
use adaptive_multi_agent_pr.Prelude.Dict.{Dict}
use adaptive_multi_agent_pr.Adaptive.Scoring.{Decision}
use adaptive_multi_agent_pr.Prelude.{◌⊎◌, inl, inr}
use adaptive_multi_agent_pr.Prelude.Fallible.{Action, Fallible, ok, raised, after}
use adaptive_multi_agent_pr.Adaptive.Features.{Entry}
use adaptive_multi_agent_pr.Adaptive.Memory.{DecayError}
use adaptive_multi_agent_pr.Adaptive.Feedback.{FeedbackEvent}
use adaptive_multi_agent_pr.Adaptive.Selection.{SelectionResult}
use adaptive_multi_agent_pr.Adaptive.Weights.{load_weights}
use adaptive_multi_agent_pr.Agents.Contract.{AgentScope}
use adaptive_multi_agent_pr.Consolidation.Datatypes.{
  FindingWrite, FindingGroupWrite, EmbeddingWrite, ConsolidationSummary,
}
use adaptive_multi_agent_pr.Consolidation.Consolidate.{
  Provider, EmbeddingsError, DropError, AgentInput,
}
use adaptive_multi_agent_pr.Orchestrator.Graph.{State}
use adaptive_multi_agent_pr.Orchestrator.Graph as G
use adaptive_multi_agent_pr.Orchestrator.Messages.{DecisionError, Note, run, consolidated}
use adaptive_multi_agent_pr.Store.{Store, TaskRow, ReviewSettings}
use adaptive_multi_agent_pr.Store.Reviews.{append_note}
use adaptive_multi_agent_pr.Store.Findings.{
  create_findings, create_finding_group, update_finding_duplicates,
}
use adaptive_multi_agent_pr.Store.Memory.{
  sync_agents, create_review_task, create_embeddings, upsert_repository_memory, review_risk_class,
}
use adaptive_multi_agent_pr.Orchestrator.Service.{Context}
use adaptive_multi_agent_pr.Orchestrator.Service.Score.{
  refresh_repository_memory, sync_repository_context, known_or_built, keep_built, store_standards,
  store_missing,
}
use adaptive_multi_agent_pr.Orchestrator.Service.Consolidating.{
  create_groups, note_dropped, write_summary, settle_summary, group_found, consolidate_with,
  consolidate_findings, grouped_members, chosen_provider,
}
use adaptive_multi_agent_pr.Orchestrator.Service.Decide.{
  decide_findings, record_selection, selection_of, lift_weights, overrides_in, provider_of,
  refresh_weighed, build_remembered, sync_provided, select_synced, head_repository, settings_for,
  is_none, concluded, refresh_if, sync_if,
}
use adaptive_multi_agent_pr.Orchestrator.Service.Persist.{
  Crash, unknown_agent, task_row, task_of, result_of, collect, Collected, append_notes,
  persist_tasks, consolidate_if, registration,
}

-- the values of a selection that is written
pub record Written {ℓ} (W : Type ℓ) : Type ℓ where
  pub selection : SelectionResult W
  pub version : String
  pub risk_missing : Bool
  pub cold_start : Bool
  pub settings : Option (ReviewSettings W)

abbrev pub write {ℓ} :
    {W : Type ℓ}
    → (ℕ → Decision W → Option String)
    → String
    → Written W
    → Action DecisionError (Store W) ℕ
write append rid w s =
    record_selection append rid w.selection w.version w.risk_missing w.cold_start w.settings s

module _ {ℓ κ} {W : Type ℓ} {X : Type κ} (rid : String) (obs : Store W → X) where
  -- what the store's own operations leave as it was
  pub record IsBlind : Type (ℓ ⊔ κ) where
    pub note : (n : Note) (s : Store W) → obs (append_note rid n s) ≡ obs s
    pub task : (t : TaskRow) (s : Store W) → obs (create_review_task t s) ≡ obs s
    pub found :
        (rows : List (FindingWrite W)) (s : Store W) → obs (create_findings rid rows s) ≡ obs s
    pub group : (g : FindingGroupWrite W) (s : Store W) → obs (create_finding_group rid g s) ≡ obs s
    pub duplicates :
        (us : List (String × String)) (s : Store W)
        → obs (update_finding_duplicates rid us s) ≡ obs s
    pub embedded :
        (o : Option String) (rows : List (EmbeddingWrite W)) (s : Store W)
        → obs (create_embeddings o rows s) ≡ obs s
    pub remembered :
        (key : String) (snapshot : Dict (Entry W)) (s : Store W)
        → obs (upsert_repository_memory key snapshot s).1 ≡ obs s
    pub registered : (d : Dict String) (s : Store W) → obs (record s { agents = d }) ≡ obs s

  module _ (blind : IsBlind) where
    pub sync_agents-blind :
        (fresh : String → String) (keys : List String) (s : Store W)
        → obs (sync_agents fresh keys s).1 ≡ obs s
    unfolding sync_agents
    sync_agents-blind fresh [] s = refl
    sync_agents-blind fresh (key ∷ keys) s = sync_agents-blind fresh keys _ ∙ blind.registered _ s

    pub append_notes-blind : (ns : List G.Note) (s : Store W) → obs (append_notes rid ns s) ≡ obs s
    unfolding append_notes
    append_notes-blind [] s = refl
    append_notes-blind (n ∷ ns) s = append_notes-blind ns _ ∙ blind.note (run n) s

    note_dropped-blind : (es : List DropError) (s : Store W) → obs (note_dropped rid es s) ≡ obs s
    unfolding note_dropped
    note_dropped-blind [] s = refl
    note_dropped-blind (e ∷ es) s = blind.note _ s

    create_groups-blind :
        (gs : List (FindingGroupWrite W)) (s : Store W) → obs (create_groups rid gs s) ≡ obs s
    unfolding create_groups
    create_groups-blind [] s = refl
    create_groups-blind (g ∷ gs) s = create_groups-blind gs _ ∙ blind.group g s

    write_summary-blind :
        (summary : ConsolidationSummary W) (lost : ℕ) (s : Store W)
        → obs (write_summary rid summary lost s) ≡ obs s
    unfolding write_summary
    write_summary-blind summary lost s =
        let found = create_findings rid summary.findings s in
        let grouped = create_groups rid summary.groups found in
        let marked = update_finding_duplicates rid (grouped_members summary.findings) grouped in
        blind.note (consolidated (length summary.findings) (length summary.groups) lost)
          (create_embeddings (some rid) summary.embeddings marked)
        ∙ blind.embedded (some rid) summary.embeddings marked
        ∙ blind.duplicates (grouped_members summary.findings) grouped
        ∙ create_groups-blind summary.groups found
        ∙ blind.found summary.findings s

    settle_summary-blind :
        (lost : ℕ) (r : Fallible EmbeddingsError (ConsolidationSummary W)) (s : Store W)
        → obs (settle_summary rid lost r s).1 ≡ obs s
    unfolding settle_summary
    settle_summary-blind lost (raised e) s = refl
    settle_summary-blind lost (ok summary) s = write_summary-blind summary lost s

    module _ {D S : Type 0} where
      pub persist_tasks-blind :
          (ids : Dict String) (final : State D S) (keys : List String) (c : Collected D)
          (s : Store W)
          → obs (persist_tasks rid ids final keys c s).1 ≡ obs s
      unfolding persist_tasks
      persist_tasks-blind ids final [] c s = refl
      persist_tasks-blind ids final (key ∷ keys) c s =
          given (registration ids key) (persist_tasks-blind ids final keys)
        where
          given :
              (o : Option (String × String))
              → ((c' : Collected D) (s' : Store W)
                  → obs (persist_tasks rid ids final keys c' s').1 ≡ obs s')
              → obs
                  (elim o as (λ _. Fallible Crash (Collected D) × Store W) [
                    | none ↦ (raised (unknown_agent key), s)
                    | some (id, queue) ↦
                        persist_tasks rid ids final keys
                          (collect key id (result_of key final.results) (task_of final key) c)
                          (create_review_task (task_row rid id queue (task_of final key)) s)
                  ]).1
                ≡ obs s
          given none rec = refl
          given (some (id, queue)) rec =
              rec _ _ ∙ blind.task (task_row rid id queue (task_of final key)) s

    module _ ⦃f : Float W⦄ {D S : Type 0} (ctx : Context W D S) where
      group_found-blind :
          (provider : Provider W) (lost : ℕ) (xs : List (FindingWrite W)) (s : Store W)
          → obs (group_found ctx rid provider lost xs s).1 ≡ obs s
      group_found-blind provider lost [] s = refl
      group_found-blind provider lost (x ∷ xs) s = settle_summary-blind lost _ s

      consolidate_with-blind :
          (scope : AgentScope) (inputs : List (AgentInput D)) (p : Fallible String (Provider W))
          (s : Store W)
          → obs (consolidate_with ctx rid scope inputs p s).1 ≡ obs s
      consolidate_with-blind scope inputs (raised e) s = refl
      consolidate_with-blind scope inputs (ok provider) s =
          group_found-blind provider _ _ _ ∙ note_dropped-blind _ s

      pub consolidate_if-blind :
          (scope : AgentScope) (inputs : List (AgentInput D)) (s : Store W)
          → obs (consolidate_if ctx rid scope inputs s).1 ≡ obs s
      unfolding consolidate_if consolidate_findings
      consolidate_if-blind scope [] s = refl
      consolidate_if-blind scope (i ∷ is) s =
          consolidate_with-blind scope (i ∷ is) (chosen_provider ctx ctx.embeddings_provider) s

      keep_built-blind :
          (id : String) (b : Fallible DecayError (Dict (Entry W))) (s : Store W)
          → obs (keep_built ctx id b s).1 ≡ obs s
      keep_built-blind id (raised e) s = refl
      keep_built-blind id (ok built) s = blind.remembered id built s

      known_or_built-blind :
          (id : String) (o : Option (Dict (Entry W))) (es : List (FeedbackEvent W)) (s : Store W)
          → obs (known_or_built ctx id o es s).1 ≡ obs s
      known_or_built-blind id (some snapshot) es s = refl
      known_or_built-blind id none [] s = refl
      known_or_built-blind id none (e ∷ es) s = keep_built-blind id _ s

      refresh_if-blind : (o : Option String) (s : Store W) → obs (refresh_if ctx o s).1 ≡ obs s
      unfolding refresh_repository_memory
      refresh_if-blind none s = refl
      refresh_if-blind (some id) s = named (id == "")
        where
          named :
              (b : Bool)
              → obs (if b then (ok none, s) else refresh_repository_memory ctx id s).1 ≡ obs s
          named true = refl
          named false = known_or_built-blind id _ _ s

      store_standards-blind :
          (s : Store W) (r : Fallible DecisionError (List (EmbeddingWrite W)))
          → obs (store_standards ctx s r).1 ≡ obs s
      store_standards-blind s (ok rows) = blind.embedded none rows s
      store_standards-blind s (raised e) = refl

      store_missing-blind :
          (id : String) (provider : Provider W) (ts : List String) (s : Store W)
          → obs (store_missing ctx id provider ts s).1 ≡ obs s
      store_missing-blind id provider [] s = refl
      store_missing-blind id provider (t ∷ ts) s = store_standards-blind s _

      sync_if-blind :
          (o : Option String) (provider : Provider W) (s : Store W)
          → obs (sync_if ctx o provider s).1 ≡ obs s
      unfolding sync_repository_context
      sync_if-blind none provider s = refl
      sync_if-blind (some id) provider s = named (id == "")
        where
          named :
              (b : Bool)
              → obs (if b then (ok false, s) else sync_repository_context ctx id provider s).1
                ≡ obs s
          named true = refl
          named false = store_missing-blind id provider _ s

      -- The decision fails and leaves the observation as it was, or it writes one selection on a
      -- store of which this holds.
      abbrev pub Decided : Store W → Fallible DecisionError ℕ × Store W → Type (ℓ ⊔ κ)
      Decided s d =
          (s' : Store W) × (obs s' ≡ obs s)
          × (((e : DecisionError) × (d ≡ (raised e, s')))
              ⊎ ((w : Written W) × (d ≡ write ctx.trace_append rid w s')))

      after-Decided {ν} :
          {A : Type ν} (x : Fallible DecisionError A × Store W) (s : Store W)
          (k : A → Store W → Fallible DecisionError ℕ × Store W)
          → obs x.1 ≡ obs s
          → ((a : A) (s' : Store W) → obs s' ≡ obs s → Decided s (k a s'))
          → Decided s (after x k)
      after-Decided (ok a, s') s k h g = g a s' h
      after-Decided (raised e, s') s k h g = (s', h, inl (e, refl))

      concluded-Decided :
          (version : String) (cold : Bool) (settings : Option (ReviewSettings W)) (s0 s : Store W)
          (r : Fallible DecisionError (SelectionResult W))
          → obs s ≡ obs s0
          → Decided s0 (concluded ctx rid version cold settings s r)
      concluded-Decided version cold settings s0 s (raised e) h = (s, h, inl (e, refl))
      concluded-Decided version cold settings s0 s (ok r) h = (
        s,
        h,
        inr (
          record {
            selection = r;
            version = version;
            risk_missing = is_none (review_risk_class rid s);
            cold_start = cold;
            settings = settings;
          },
          refl,
        ),
      )

      pub decide_findings-Decided :
          (summary : ConsolidationSummary W) (s : Store W)
          → Decided s (decide_findings ctx rid summary s)
      unfolding decide_findings
      decide_findings-Decided summary s =
          let id = head_repository summary in
          let settings = settings_for id s in
          after-Decided
            (
              lift_weights (load_weights ctx.settings.arum_weights_version (overrides_in settings)),
              s,
            )
            s (refresh_weighed ctx rid summary settings) refl
            λ weights s1 h1.
              after-Decided (refresh_if ctx id s1) s
                (build_remembered ctx rid summary settings weights) (refresh_if-blind id s1 ∙ h1)
                λ snapshot s2 h2.
                  after-Decided (provider_of ctx ctx.built_provider, s2) s
                    (sync_provided ctx rid summary settings weights snapshot) h2
                    λ provider s3 h3.
                      after-Decided (sync_if ctx id provider s3) s
                        (select_synced ctx rid summary settings weights snapshot provider)
                        (sync_if-blind id provider s3 ∙ h3)
                        λ synced s4 h4.
                          concluded-Decided weights.version
                            (if is_none id then false else is_none snapshot) settings s s4
                            (selection_of ctx rid summary weights snapshot provider id settings s4)
                            h4
