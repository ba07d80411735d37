-- ===== src/Agents/Prompts.antt =====
-- backend/app/agents/prompts.py: the agents in declaration order, with the categories that they own.
-- The prose of the prompts is left out.
use adaptive_multi_agent_pr.Prelude.{String, List, [], ◌∷◌}

abbrev pub Registry : Type 0
Registry = List (String × List String)

abbrev pub prompt_specs : Registry
prompt_specs =
    (
      "security",
      "security/xss" ∷ "security/sql-injection" ∷ "security/secrets" ∷ "security/authorization"
          ∷ "security/dependency" ∷ "security/crypto" ∷ "security/config" ∷ [],
    )
    ∷ (
      "quality",
      "quality/maintainability" ∷ "quality/duplication" ∷ "quality/error-handling"
          ∷ "quality/complexity" ∷ [],
    )
    ∷ (
      "performance",
      "performance/query" ∷ "performance/loop" ∷ "performance/memory" ∷ "performance/api"
          ∷ "performance/complexity" ∷ [],
    )
    ∷ (
      "architecture",
      "architecture/layering" ∷ "architecture/coupling" ∷ "architecture/dependency"
          ∷ "architecture/scalability" ∷ [],
    )
    ∷ ("standards", "standards/naming" ∷ "standards/formatting" ∷ "standards/convention" ∷ [])
    ∷ []

-- `queue_name` of each agent class
abbrev pub queue_names : List (String × String)
queue_names =
    ("security", "security_queue")
    ∷ ("quality", "quality_queue")
    ∷ ("performance", "performance_queue")
    ∷ ("architecture", "architecture_queue")
    ∷ ("standards", "standards_queue")
    ∷ []
