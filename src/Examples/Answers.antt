-- ===== src/Examples/Answers.antt =====
-- Examples for the parser of agent answers, backend/app/agents/contract.py.
use adaptive_multi_agent_pr.Prelude.{
  String, ◌≡◌, refl, Option, none, some, List, [], ◌∷◌, length, take,
}
use adaptive_multi_agent_pr.Prelude.Int.{pos}
use adaptive_multi_agent_pr.Prelude.Dict.{get}
use adaptive_multi_agent_pr.Prelude.Float.{Micros}
use adaptive_multi_agent_pr.Prelude.Fallible.{ok}
use adaptive_multi_agent_pr.Agents.Contract.{AgentFinding, high}
use adaptive_multi_agent_pr.Agents.Parse.{
  Item, dict, not_a_dict, Json, object, items, BatchParseResult, max_findings_per_batch,
  extract_items, parse_batch,
}
use adaptive_multi_agent_pr.Agents.Parse.Accepted.{IsParsed, accepted, parse_batch-IsParsed}

abbrev found_in : String → String → AgentFinding Micros
found_in path category = record {
  file_path = path;
  line_start = some (pos 3);
  line_end = none;
  category = category;
  severity = high;
  confidence = pos 900_000;
  title = "t";
  description = "d";
  suggested_fix = none;
  reason_summary = "r";
  related_categories = [];
}

abbrev answered : List (Item (AgentFinding Micros))
answered =
    dict (found_in "a.py" "security/xss")
    ∷ not_a_dict
    ∷ dict (found_in "other.py" "security/xss")
    ∷ dict (found_in "a.py" "quality")
    ∷ []

abbrev json : Json (AgentFinding Micros)
json = object (("findings", items answered) ∷ [])

abbrev loads : String → Option (Json (AgentFinding Micros))
loads content = some json

parse_batch-IsParsed_example :
    (r : BatchParseResult Micros) × (parse_batch ok ("a.py" ∷ []) ("security" ∷ []) loads "{}"
      ≡ ok r)
    × IsParsed
        ("a.py" ∷ [])
        ("security" ∷ [])
        (accepted ok ("a.py" ∷ []) ("security" ∷ []) (take max_findings_per_batch answered))
        (length answered)
        r
unfolding extract_items get
parse_batch-IsParsed_example =
    parse_batch-IsParsed ok ("a.py" ∷ []) ("security" ∷ []) loads "{}" json answered refl refl
