-- ===== src/Orchestrator/Service/Consolidating.antt =====
-- `_consolidate_findings` of backend/app/orchestrator/service.py.
use adaptive_multi_agent_pr.Prelude.{
  ℕ, String, Option, none, some, List, [], ◌∷◌, length, ◌==◌, if◌then◌else◌,
}
use adaptive_multi_agent_pr.Prelude.Float.{Float}
use adaptive_multi_agent_pr.Prelude.Fallible.{Fallible, ok, raised}
use adaptive_multi_agent_pr.Consolidation.Datatypes.{
  FindingWrite, FindingGroupWrite, ConsolidationSummary,
}
use adaptive_multi_agent_pr.Consolidation.Consolidate.{
  Provider, EmbeddingsError, DropError, AgentInput, normalise_findings, consolidate_review,
}
use adaptive_multi_agent_pr.Agents.Contract.{AgentScope}
use adaptive_multi_agent_pr.Store.{Store}
use adaptive_multi_agent_pr.Store.Reviews.{append_note}
use adaptive_multi_agent_pr.Store.Findings.{
  create_findings, create_finding_group, update_finding_duplicates,
}
use adaptive_multi_agent_pr.Store.Memory.{create_embeddings}
use adaptive_multi_agent_pr.Orchestrator.Messages.{
  ConsolidationError, provider_failed, detection_failed, dropped, consolidated,
}
use adaptive_multi_agent_pr.Orchestrator.Service.{Context}

-- `(False, None, None)`, `(False, error, None)` and `(True, None, summary)`
pub data Consolidation {ℓ} (W : Type ℓ) : Type ℓ where
  nothing : Consolidation W
  broken : ConsolidationError → Consolidation W
  done : ConsolidationSummary W → Consolidation W

module _ {ℓ} {W : Type ℓ} where
  -- `[(row.id, row.duplicate_group) for row in findings if row.duplicate_group]`
  abbrev pub grouped_members : List (FindingWrite W) → List (String × String)
  grouped_members [] = []
  grouped_members (row ∷ rows) =
      let rest = grouped_members rows in
      elim row.duplicate_group [
        | none ↦ rest
        | some id ↦ if id == "" then rest else (row.id, id) ∷ rest
      ]

  unfoldable pub create_groups : String → List (FindingGroupWrite W) → Store W → Store W
  unfolding create_finding_group
  create_groups review_id [] s = s
  create_groups review_id (g ∷ gs) s =
      create_groups review_id gs (create_finding_group review_id g s)

  unfoldable pub note_dropped : String → List DropError → Store W → Store W
  unfolding append_note
  note_dropped review_id [] s = s
  note_dropped review_id (e ∷ es) s = append_note review_id (dropped (length (e ∷ es)) e) s

  -- the rows of a summary, and the note on it
  unfoldable pub write_summary : String → ConsolidationSummary W → ℕ → Store W → Store W
  unfolding create_findings create_groups update_finding_duplicates create_embeddings append_note
  write_summary review_id summary lost s =
      let found = create_findings review_id summary.findings s in
      let grouped = create_groups review_id summary.groups found in
      let marked = update_finding_duplicates review_id (grouped_members summary.findings) grouped in
      let embedded = create_embeddings (some review_id) summary.embeddings marked in
      append_note review_id (consolidated (length summary.findings) (length summary.groups) lost)
        embedded

  -- how the grouping ended
  unfoldable pub settle_summary :
      String
      → ℕ
      → Fallible EmbeddingsError (ConsolidationSummary W)
      → Store W
      → Consolidation W × Store W
  unfolding write_summary
  settle_summary review_id lost (raised e) s = (broken (detection_failed e), s)
  settle_summary review_id lost (ok summary) s =
      (done summary, write_summary review_id summary lost s)

module _ {ℓ} {W : Type ℓ} ⦃f : Float W⦄ {D S : Type 0} (ctx : Context W D S) where
  -- `ctx.embeddings_provider or build_embeddings_provider(ctx.settings)`
  abbrev pub chosen_provider : Option (Provider W) → Fallible String (Provider W)
  chosen_provider (some provider) = ok provider
  chosen_provider none = ctx.built_provider

  abbrev pub group_found :
      String → Provider W → ℕ → List (FindingWrite W) → Store W → Consolidation W × Store W
  group_found review_id provider lost [] s = (nothing, s)
  group_found review_id provider lost (x ∷ xs) s =
      settle_summary review_id lost
        (consolidate_review ctx.sqrt ctx.content_hash ctx.group_id
          ctx.settings.consolidation_similarity_threshold ctx.settings.consolidation_max_line_gap
          (x ∷ xs) provider)
        s

  abbrev pub consolidate_with :
      String
      → AgentScope
      → List (AgentInput D)
      → Fallible String (Provider W)
      → Store W
      → Consolidation W × Store W
  consolidate_with review_id scope inputs (raised e) s = (broken (provider_failed e), s)
  consolidate_with review_id scope inputs (ok provider) s =
      let r =
        normalise_findings ctx.validate ctx.content_hash ctx.uuid5 scope.review_id
          scope.repository_id inputs in
      group_found review_id provider r.dropped r.findings (note_dropped review_id r.errors s)

  unfoldable pub consolidate_findings :
      String → AgentScope → List (AgentInput D) → Store W → Consolidation W × Store W
  unfolding settle_summary consolidate_review note_dropped normalise_findings
  consolidate_findings review_id scope inputs s =
      consolidate_with review_id scope inputs (chosen_provider ctx.embeddings_provider) s
