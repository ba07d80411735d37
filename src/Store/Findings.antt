-- ===== src/Store/Findings.antt =====
-- The operations of backend/app/orchestrator/persistence.py on findings and iterations.
use adaptive_multi_agent_pr.Prelude.{
  ℕ, ◌+◌, ◌-◌, max, String, Bool, true, false, not, ◌&&◌, Option, none, some, List, [], ◌∷◌, ◌++◌,
  map, length, count, ◌==◌, if◌then◌else◌,
}
use adaptive_multi_agent_pr.Adaptive.Scoring.{Decision}
use adaptive_multi_agent_pr.Consolidation.Datatypes.{FindingWrite, FindingGroupWrite}
use adaptive_multi_agent_pr.Orchestrator.Iteration.{
  Resolution, DeltaAction, keep, is_resolved, is_stale, is_keep,
}
use adaptive_multi_agent_pr.Orchestrator.Iteration as I
use adaptive_multi_agent_pr.Store.{
  FindingStatus, candidate, scheduled, published, suppressed, resolved, stale, FindingRow,
  IterationRow, Store, update_first, update_all,
}
use adaptive_multi_agent_pr.Store.Reviews.{append_note}
use adaptive_multi_agent_pr.Orchestrator.Messages.{delta}

abbrev pub status_of : Bool → FindingStatus
status_of b = if b then scheduled else suppressed

-- The status that an action gives; `none` for `keep`.
unfoldable pub action_status : DeltaAction → Option FindingStatus
action_status I.resolved = some resolved
action_status I.stale = some stale
action_status I.keep = none

unfoldable pub last_iteration : String → List IterationRow → ℕ
last_iteration review_id [] = 0
last_iteration review_id (row ∷ rows) =
    let rest = last_iteration review_id rows in
    if row.review_id == review_id then max row.iteration rest else rest

module _ {ℓ} {W : Type ℓ} where
  unfoldable pub new_row : String → FindingWrite W → FindingRow W
  new_row review_id w = record {
    finding = record w { review_id = review_id; duplicate_group = none };
    publication_status = candidate;
    arum_features = none;
    arum_utility = none;
    arum_version = none;
    github_comment_id = none;
  }

  unfoldable pub create_findings : String → List (FindingWrite W) → Store W → Store W
  unfolding new_row
  create_findings review_id rows s = record s {
    findings = s.findings ++ map (new_row review_id) rows;
  }

  unfoldable pub create_finding_group : String → FindingGroupWrite W → Store W → Store W
  create_finding_group review_id group s = record s {
    finding_groups = s.finding_groups ++ (review_id, group) ∷ [];
  }

  abbrev pub has_id : String → FindingRow W → Bool
  has_id id row = row.finding.id == id

  abbrev pub is_row : String → String → FindingRow W → Bool
  is_row review_id id row = has_id id row && row.finding.review_id == review_id

  unfoldable pub update_finding_duplicates : String → List (String × String) → Store W → Store W
  unfolding update_first
  update_finding_duplicates review_id [] s = s
  update_finding_duplicates review_id ((id, group_id) ∷ updates) s =
      update_finding_duplicates review_id updates (record s {
        findings =
            update_first (is_row review_id id)
              (λ row. record row {
                finding = record row.finding { duplicate_group = some group_id };
              })
              s.findings;
      })

  -- the score of the decision on its own row
  abbrev pub scored : Decision W → FindingRow W → FindingRow W
  scored d row = record row {
    arum_features = some d.features;
    arum_utility = some d.utility;
    arum_version = some d.arum_version;
    publication_status = elim d.selected [ none ↦ row.publication_status | some b ↦ status_of b ];
  }

  -- another member of the decision's group; the code's group ids are not empty
  abbrev pub is_rival : Decision W → String → FindingRow W → Bool
  is_rival d group_id row =
      elim row.finding.duplicate_group [ none ↦ false | some g ↦ g == group_id ]
      && not (has_id d.finding_id row)

  abbrev pub silence : FindingRow W → FindingRow W
  silence row = record row { publication_status = suppressed }

  abbrev has_row : String → List (FindingRow W) → Bool
  has_row id [] = false
  has_row id (row ∷ rows) = let rest = has_row id rows in if has_id id row then true else rest

  -- `decision.selected is not None and decision.group_id`: an empty id is no group
  abbrev silenced_group : Decision W → Option String
  silenced_group d = elim d.selected [
    | none ↦ none
    | some b ↦ elim d.group_id [ none ↦ none | some g ↦ if g == "" then none else some g ]
  ]

  abbrev pub silence_group : Decision W → Option String → List (FindingRow W) → List (FindingRow W)
  silence_group d none rows = rows
  silence_group d (some g) rows = update_all (is_rival d g) silence rows

  unfoldable pub apply_decision : Decision W → Store W → Store W
  unfolding update_first update_all
  apply_decision d s =
      if has_row d.finding_id s.findings
      then record s {
        findings =
            silence_group d (silenced_group d)
              (update_first (has_id d.finding_id) (scored d) s.findings);
      }
      else s

  abbrev pub published_row : Option ℕ → FindingRow W → FindingRow W
  published_row comment_id row = record row {
    publication_status = published;
    github_comment_id = comment_id;
  }

  unfoldable pub mark_findings_published : String → List (String × Option ℕ) → Store W → Store W
  unfolding update_first
  mark_findings_published review_id [] s = s
  mark_findings_published review_id ((id, comment_id) ∷ updates) s =
      mark_findings_published review_id updates (record s {
        findings = update_first (is_row review_id id) (published_row comment_id) s.findings;
      })

  unfoldable pub resolve_feedback_finding :
      String → String → List (FindingRow W) → Option (String × String)
  resolve_feedback_finding review_id id [] = none
  resolve_feedback_finding review_id id (row ∷ rows) =
      let rest = resolve_feedback_finding review_id id rows in
      if is_row review_id id row
      then some (row.finding.repository_id, row.finding.category)
      else rest

  -- `by_id[id]` is the last row of that id.
  abbrev pub update_last :
      String → (FindingRow W → FindingRow W) → List (FindingRow W) → List (FindingRow W)
  update_last id f [] = []
  update_last id f (row ∷ rows) =
      let rest = update_last id f rows in
      if has_row id rows then row ∷ rest else if has_id id row then f row ∷ rows else row ∷ rows

  unfoldable pub apply_resolutions : List Resolution → List (FindingRow W) → List (FindingRow W)
  unfolding action_status
  apply_resolutions [] rows = rows
  apply_resolutions (r ∷ rs) rows = apply_resolutions rs (elim (action_status r.action) [
    | none ↦ rows
    | some status ↦
        update_last r.finding_id (λ row. record row { publication_status = status }) rows
  ])

  unfoldable pub apply_iteration_delta : String → List Resolution → Store W → Store W
  unfolding apply_resolutions append_note
  apply_iteration_delta review_id [] s = s
  apply_iteration_delta review_id (r ∷ rs) s =
      let gone = count is_stale (r ∷ rs) in
      let fixed = count is_resolved (r ∷ rs) in
      append_note review_id (delta fixed gone (length (r ∷ rs) - fixed - gone))
        (record s { findings = apply_resolutions (r ∷ rs) s.findings })

  -- `diff_stats` and `agents_invoked` are opaque JSON, and are left out.
  unfoldable pub record_iteration : String → String → String → ℕ → ℕ → ℕ → Store W → Store W
  unfolding last_iteration
  record_iteration review_id base_sha head_sha published_count resolved_count stale_count s =
      record s {
        iterations =
            s.iterations
            ++ record {
              review_id = review_id;
              iteration = last_iteration review_id s.iterations + 1;
              base_sha = base_sha;
              head_sha = head_sha;
              published_count = published_count;
              resolved_count = resolved_count;
              stale_count = stale_count;
            }
              ∷ [];
      }
