-- ===== src/Store/Payload.antt =====
-- `publication_payload` of backend/app/orchestrator/persistence.py: what the publisher reads.
use adaptive_multi_agent_pr.Prelude.{
  ℕ, String, Bool, true, false, ◌&&◌, Option, none, some, List, map, select, ◌==◌, if◌then◌else◌,
}
use adaptive_multi_agent_pr.Prelude.Float.{Float}
use adaptive_multi_agent_pr.Prelude.Int.{ℤ}
use adaptive_multi_agent_pr.Prelude.Dict.{get}
use adaptive_multi_agent_pr.Prelude.Sort.{sort}
use adaptive_multi_agent_pr.Store.{scheduled, FindingRow, ReviewRecord, Store}
use adaptive_multi_agent_pr.Store.Queue.{item_lt}

-- `evidence` is opaque JSON, and is left out.
pub record PayloadFinding {ℓ} (W : Type ℓ) : Type ℓ where
  pub id : String
  pub file_path : String
  pub line_start : Option ℤ
  pub line_end : Option ℤ
  pub category : String
  pub severity : String
  pub confidence : W
  pub title : String
  pub description : String
  pub suggested_fix : Option String
  pub arum_utility : Option W

pub record Payload {ℓ} (W : Type ℓ) : Type ℓ where
  pub review_id : String
  pub head_sha : String
  pub pr_number : Option ℕ
  pub pr_title : String
  pub repository_full_name : String
  pub findings : List (PayloadFinding W)

-- `x or y`: an empty text is no text
abbrev pub text_or : Option String → String → String
text_or none y = y
text_or (some x) y = if x == "" then y else x

module _ {ℓ} {W : Type ℓ} where
  -- a finding of the review that waits for its publication
  unfoldable pub is_scheduled : String → FindingRow W → Bool
  is_scheduled review_id row =
      row.finding.review_id == review_id
      && elim row.publication_status [ scheduled ↦ true | _ ↦ false ]

  abbrev pub payload_row : FindingRow W → PayloadFinding W
  payload_row row = record {
    id = row.finding.id;
    file_path = row.finding.file_path;
    line_start = row.finding.line_start;
    line_end = row.finding.line_end;
    category = row.finding.category;
    severity = row.finding.severity;
    confidence = row.finding.confidence;
    title = row.finding.title;
    description = row.finding.description;
    suggested_fix = row.finding.suggested_fix;
    arum_utility = row.arum_utility;
  }

  -- `(self.repositories.get(...) or {}).get("full_name")`
  abbrev full_name : Store W → ReviewRecord W → Option String
  full_name s r = elim (get (elim r.repository_id [ none ↦ "" | some id ↦ id ]) s.repositories) [
    | none ↦ none
    | some repo ↦ repo.full_name
  ]

  abbrev pub finding_lt : ⦃f : Float W⦄ → PayloadFinding W → PayloadFinding W → Bool
  finding_lt a b = item_lt a.arum_utility a.id b.arum_utility b.id

  -- the payload of the review whose record is `r`
  unfoldable pub payload_of : ⦃f : Float W⦄ → String → Store W → ReviewRecord W → Payload W
  unfolding is_scheduled item_lt
  payload_of review_id s r = record {
    review_id = review_id;
    head_sha = text_or r.head_sha "";
    pr_number = r.pr_number;
    pr_title = text_or r.pr_title "";
    repository_full_name = text_or (full_name s r) (text_or r.repository_full_name "");
    findings = sort finding_lt (map payload_row (select (is_scheduled review_id) s.findings));
  }

  unfoldable pub publication_payload : ⦃f : Float W⦄ → String → Store W → Option (Payload W)
  unfolding payload_of
  publication_payload review_id s = elim (get review_id s.reviews) [
    | none ↦ none
    | some r ↦ some (payload_of review_id s r)
  ]
