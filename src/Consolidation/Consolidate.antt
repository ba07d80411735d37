-- ===== src/Consolidation/Consolidate.antt =====
-- backend/app/consolidation/consolidate.py: agent answers become candidate findings, and these are
-- embedded and grouped. `validate` is `AgentFinding.model_validate` on a finding's JSON `D`, with the
-- text of its error; `content_hash`, `uuid5` and `group_id` stand for the hashes.
pub mod Distinct
use adaptive_multi_agent_pr.Prelude.{
  ℕ, suc, ◌+◌, String, Bool, true, false, ◌&&◌, ◌||◌, Option, none, some, List, [], ◌∷◌, ◌++◌, map,
  any, length, nat_eq, ◌==◌, if◌then◌else◌,
}
use adaptive_multi_agent_pr.Prelude.Int.{ℤ, leb_ℤ}
use adaptive_multi_agent_pr.Prelude.Float.{Float}
use adaptive_multi_agent_pr.Prelude.Dict.{contains}
use adaptive_multi_agent_pr.Prelude.Decimal.{◌⊕◌, show_ℤ}
use adaptive_multi_agent_pr.Prelude.Fallible.{Fallible, ok, raised, ◌>>=◌}
use adaptive_multi_agent_pr.Agents.Contract.{AgentFinding, severity_value}
use adaptive_multi_agent_pr.Consolidation.Datatypes.{
  FindingWrite, FindingGroupWrite, EmbeddingWrite, ConsolidationSummary,
}
use adaptive_multi_agent_pr.Consolidation.Redundancy.{Grouping, apply_groups}

abbrev pub embedding_dim : ℕ
embedding_dim = 1536

-- `"" if line is None else str(line)`, and `f"{line}"`
abbrev line_text : String → Option ℤ → String
line_text missing none = missing
line_text missing (some n) = show_ℤ n

abbrev pub join_text : String → String → String → String → Option ℤ → Option ℤ → String
join_text category title description file_path line_start line_end =
    category
    ⊕ " | "
    ⊕ title
    ⊕ " | "
    ⊕ description
    ⊕ " | "
    ⊕ file_path
    ⊕ " | "
    ⊕ line_text "" line_start
    ⊕ " | "
    ⊕ line_text "" line_end

-- why an item is dropped
pub data DropError : Type 0 where
  invalid : String → String → DropError
  duplicate : String → String → String → Option ℤ → DropError

-- the agent, the location, the category and the hash
pub record DedupeKey : Type 0 where
  pub agent_key : String
  pub file_path : String
  pub line_start : Option ℤ
  pub line_end : Option ℤ
  pub category : String
  pub hash_key : String

abbrev pub same_line : Option ℤ → Option ℤ → Bool
same_line none none = true
same_line (some a) (some b) = leb_ℤ a b && leb_ℤ b a
same_line _ _ = false

unfoldable pub same_key : DedupeKey → DedupeKey → Bool
same_key a b =
    a.agent_key == b.agent_key
    && a.file_path == b.file_path
    && same_line a.line_start b.line_start
    && same_line a.line_end b.line_end
    && a.category == b.category
    && a.hash_key == b.hash_key

pub record NormalisationResult {ℓ} (W : Type ℓ) : Type ℓ where
  pub findings : List (FindingWrite W)
  pub dropped : ℕ
  pub errors : List DropError

-- what an embeddings provider, and the check of its vectors, may raise
pub data EmbeddingsError : Type 0 where
  provider_error : String → EmbeddingsError
  bad_dimension : ℕ → ℕ → EmbeddingsError
  unpaired : EmbeddingsError

-- `EmbeddingsProvider`: its answer may depend on how many calls it had before.
pub record Provider {ℓ} (W : Type ℓ) : Type ℓ where
  pub model : String
  pub embed_texts : ℕ → List String → Fallible String (List (List W))

module _ {ℓ} {W : Type ℓ} where
  unfoldable pub plain_text : AgentFinding W → String
  plain_text f = join_text f.category f.title f.description f.file_path f.line_start f.line_end

  unfoldable pub embedding_text : FindingWrite W → String
  embedding_text f = join_text f.category f.title f.description f.file_path f.line_start f.line_end

  unfoldable pub total_consumed : NormalisationResult W → ℕ
  total_consumed r = length r.findings + r.dropped

  -- the text that `finding_id` of redundancy.py makes the id of
  unfoldable pub raw_id : String → String → String → AgentFinding W → String
  raw_id review_id agent_key hash f =
      review_id
      ⊕ "|"
      ⊕ agent_key
      ⊕ "|"
      ⊕ hash
      ⊕ "|"
      ⊕ f.category
      ⊕ "|"
      ⊕ f.file_path
      ⊕ "|"
      ⊕ line_text "None" f.line_start
      ⊕ "|"
      ⊕ line_text "None" f.line_end
      ⊕ "|"
      ⊕ severity_value f.severity

  abbrev pub dedupe_key : (String → String) → String → AgentFinding W → DedupeKey
  dedupe_key content_hash agent_key f = record {
    agent_key = agent_key;
    file_path = f.file_path;
    line_start = f.line_start;
    line_end = f.line_end;
    category = f.category;
    hash_key = content_hash (plain_text f);
  }

  abbrev pub written :
      (String → String)
      → (String → String)
      → String
      → String
      → String
      → String
      → AgentFinding W
      → FindingWrite W
  written content_hash uuid5 review_id repository_id agent_key agent_id f = record {
    id = uuid5 (raw_id review_id agent_key (content_hash (plain_text f)) f);
    agent_key = agent_key;
    agent_id = agent_id;
    review_id = review_id;
    repository_id = repository_id;
    file_path = f.file_path;
    line_start = f.line_start;
    line_end = f.line_end;
    category = f.category;
    severity = severity_value f.severity;
    confidence = f.confidence;
    title = f.title;
    description = f.description;
    suggested_fix = f.suggested_fix;
    reason_summary = f.reason_summary;
    duplicate_group = none;
  }

  abbrev pub drop_item : DropError → NormalisationResult W → NormalisationResult W
  drop_item e r = record r { dropped = r.dropped + 1; errors = r.errors ++ e ∷ [] }

-- an agent's key, its id and the JSON of a finding
pub record AgentInput (D : Type 0) : Type 0 where
  pub agent_key : String
  pub agent_id : String
  pub finding : D

module _ {ℓ} {W : Type ℓ} {D : Type 0} (validate : D → Fallible String (AgentFinding W))
    (content_hash uuid5 : String → String) (review_id repository_id : String) where
  -- one item of the loop: the keys seen, and the result so far
  unfoldable pub normalise_item :
      AgentInput D → List DedupeKey × NormalisationResult W → List DedupeKey × NormalisationResult W
  unfolding same_key plain_text raw_id
  normalise_item input (seen, r) = elim (validate input.finding) [
    | raised e ↦ (seen, drop_item (invalid input.agent_key e) r)
    | ok f ↦
        let key = dedupe_key content_hash input.agent_key f in
        if any (same_key key) seen
        then (seen, drop_item (duplicate input.agent_key f.category f.file_path f.line_start) r)
        else (
          key ∷ seen,
          record r {
            findings =
                r.findings
                ++ written content_hash uuid5 review_id repository_id input.agent_key input.agent_id
                    f
                  ∷ [];
          },
        )
  ]

  unfoldable pub normalise_loop :
      List (AgentInput D)
      → List DedupeKey × NormalisationResult W
      → List DedupeKey × NormalisationResult W
  unfolding normalise_item
  normalise_loop [] s = s
  normalise_loop (i ∷ is) s = normalise_loop is (normalise_item i s)

  unfoldable pub normalise_findings : List (AgentInput D) → NormalisationResult W
  unfolding normalise_loop
  normalise_findings inputs =
      (normalise_loop inputs ([], record { findings = []; dropped = 0; errors = [] })).1

module _ {ℓ} {W : Type ℓ} where
  -- the first vector of another dimension, with its index
  unfoldable pub bad_vector : ℕ → List (List W) → Option EmbeddingsError
  bad_vector index [] = none
  bad_vector index (v ∷ vs) =
      let rest = bad_vector (suc index) vs in
      if nat_eq (length v) embedding_dim then rest else some (bad_dimension (length v) index)

  -- Both lists are as long as the findings: `apply_groups` has refused the others.
  abbrev pub embedding_rows :
      (String → String)
      → String
      → List (FindingWrite W)
      → List String
      → List (List W)
      → List (EmbeddingWrite W)
  embedding_rows content_hash model (f ∷ fs) (t ∷ ts) (v ∷ vs) =
      record {
        finding_id = some f.id;
        repository_id = f.repository_id;
        content_hash = content_hash t;
        vector = v;
        model = model;
        resource_type = "finding";
        content_text = none;
      }
      ∷ embedding_rows content_hash model fs ts vs
  embedding_rows content_hash model _ _ _ = []

  -- `frozenset(f.agent_key for f in grouped)`: each key once
  abbrev pub agent_keys_of : List (FindingWrite W) → List String
  agent_keys_of [] = []
  agent_keys_of (f ∷ fs) =
      let rest = agent_keys_of fs in if contains rest f.agent_key then rest else f.agent_key ∷ rest

module _ {ℓ} {W : Type ℓ} ⦃fl : Float W⦄ (sqrt : W → W) (content_hash : String → String)
    (group_id : FindingWrite W → String) (threshold : W) (max_line_gap : ℤ) where
  abbrev summarise : String → List String → List (List W) → Grouping W → ConsolidationSummary W
  summarise model texts vectors g = record {
    findings = g.updated;
    groups = g.groups;
    embeddings = embedding_rows content_hash model g.updated texts vectors;
    agent_keys = agent_keys_of g.updated;
  }

  -- the vectors of the provider, checked and grouped
  unfoldable pub grouped_summary :
      String
      → List (FindingWrite W)
      → List String
      → List (List W)
      → Fallible EmbeddingsError (ConsolidationSummary W)
  unfolding bad_vector apply_groups
  grouped_summary model findings texts vectors = elim (bad_vector 0 vectors) [
    | some e ↦ raised e
    | none ↦ elim (apply_groups sqrt group_id threshold max_line_gap findings vectors) [
      | none ↦ raised unpaired
      | some g ↦ ok (summarise model texts vectors g)
    ]
  ]

  unfoldable pub consolidate_review :
      List (FindingWrite W) → Provider W → Fallible EmbeddingsError (ConsolidationSummary W)
  unfolding grouped_summary embedding_text
  consolidate_review [] provider =
      ok (record { findings = []; groups = []; embeddings = []; agent_keys = [] })
  consolidate_review (f ∷ fs) provider =
      let texts = map embedding_text (f ∷ fs) in
      elim (provider.embed_texts 0 texts) [
        | raised e ↦ raised (provider_error e)
        | ok vectors ↦ grouped_summary provider.model (f ∷ fs) texts vectors
      ]
