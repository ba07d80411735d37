-- ===== src/Agents/Parse.antt =====
-- `parse_batch` of backend/app/agents/contract.py. `loads` is `json.loads`, and `validate` is
-- `AgentFinding.model_validate` on a JSON object `D`, with the text of its error.
pub mod Accepted
use adaptive_multi_agent_pr.Prelude.{
  ℕ, ◌+◌, ◌-◌, String, Bool, true, false, not, ◌&&◌, ◌||◌, Option, none, some, List, [], ◌∷◌, ◌++◌,
  length, take, any, ltb, ◌==◌, if◌then◌else◌,
}
use adaptive_multi_agent_pr.Prelude.Dict.{Dict, get, contains}
use adaptive_multi_agent_pr.Prelude.Text.{append, starts_with, strip_slashes}
use adaptive_multi_agent_pr.Prelude.Fallible.{Fallible, ok, raised}
use adaptive_multi_agent_pr.Agents.Contract.{AgentFinding}

abbrev pub max_findings_per_batch : ℕ
max_findings_per_batch = 100

-- A JSON value, seen down to the items of a list; an item is an object or is none.
pub data Item (D : Type 0) : Type 0 where
  dict : D → Item D
  not_a_dict : Item D

pub data Member (D : Type 0) : Type 0 where
  items : List (Item D) → Member D
  other : Member D

pub data Json (D : Type 0) : Type 0 where
  array : List (Item D) → Json D
  object : Dict (Member D) → Json D
  scalar : Json D

-- the two `AgentOutputError`s, the first with the answer
pub data AgentOutputError : Type 0 where
  bad_json : String → AgentOutputError
  no_findings : AgentOutputError

-- the texts in `errors`
pub data ItemError : Type 0 where
  not_an_object : ItemError
  invalid : String → ItemError
  outside_files : String → ItemError
  outside_categories : String → List String → ItemError
  trimmed : ℕ → ItemError

pub record BatchParseResult {ℓ} (W : Type ℓ) : Type ℓ where
  pub findings : List (AgentFinding W)
  pub raw_count : ℕ
  pub valid_count : ℕ
  pub invalid_count : ℕ
  pub errors : List ItemError

-- `category == base or category.startswith(base + "/")`
abbrev pub is_below : String → String → Bool
is_below category base = category == base || starts_with category (append base "/")

unfoldable pub category_allowed : String → List String → Bool
unfolding strip_slashes append starts_with
category_allowed category allowed = any (λ entry. is_below category (strip_slashes entry)) allowed

unfoldable pub extract_items : {D : Type 0} → Json D → Option (List (Item D))
extract_items (array xs) = some xs
extract_items scalar = none
extract_items (object members) = elim (get "findings" members) [
  | none ↦ none
  | some m ↦ elim m [ items xs ↦ some xs | other ↦ none ]
]

abbrev is_given : List String → Bool
is_given [] = false
is_given (x ∷ xs) = true

module _ {ℓ} {W : Type ℓ} where
  -- what one item adds to the result
  abbrev pub note_item :
      Fallible ItemError (AgentFinding W) → BatchParseResult W → BatchParseResult W
  note_item (raised e) r = record r {
    invalid_count = r.invalid_count + 1;
    errors = r.errors ++ e ∷ [];
  }
  note_item (ok finding) r = record r {
    findings = r.findings ++ finding ∷ [];
    valid_count = r.valid_count + 1;
  }

  -- `overage` is the number of items past the cap: the subtraction stops at 0, where nothing is noted.
  abbrev pub note_overage : ℕ → BatchParseResult W → BatchParseResult W
  note_overage overage r =
      if ltb 0 overage
      then record r {
        invalid_count = r.invalid_count + overage;
        errors = r.errors ++ trimmed overage ∷ [];
      }
      else r

module _ {ℓ} {W : Type ℓ} {D : Type 0} (validate : D → Fallible String (AgentFinding W))
    (changed_paths categories : List String) where
  -- the checks of a finding that the schema has passed
  unfoldable pub check_finding : AgentFinding W → Fallible ItemError (AgentFinding W)
  unfolding category_allowed
  check_finding finding =
      if not (contains changed_paths finding.file_path)
      then raised (outside_files finding.file_path)
      else if is_given categories && not (category_allowed finding.category categories)
      then raised (outside_categories finding.category categories)
      else ok finding

  -- the `try` block
  unfoldable pub parse_item : Item D → Fallible ItemError (AgentFinding W)
  unfolding check_finding
  parse_item not_a_dict = raised not_an_object
  parse_item (dict d) = elim (validate d) [
    | raised e ↦ raised (invalid e)
    | ok finding ↦ check_finding finding
  ]

  unfoldable pub parse_loop : List (Item D) → BatchParseResult W → BatchParseResult W
  unfolding parse_item
  parse_loop [] r = r
  parse_loop (i ∷ is) r = parse_loop is (note_item (parse_item i) r)

  unfoldable pub parse_items : List (Item D) → BatchParseResult W
  unfolding parse_loop
  parse_items is = note_overage (length is - max_findings_per_batch) (
      parse_loop (take max_findings_per_batch is) (record {
        findings = [];
        raw_count = length is;
        valid_count = 0;
        invalid_count = 0;
        errors = [];
      }))

  unfoldable pub parse_batch :
      (String → Option (Json D)) → String → Fallible AgentOutputError (BatchParseResult W)
  unfolding extract_items parse_items
  parse_batch loads content = elim (loads content) [
    | none ↦ raised (bad_json content)
    | some json ↦ elim (extract_items json) [
      | none ↦ raised no_findings
      | some is ↦ ok (parse_items is)
    ]
  ]
