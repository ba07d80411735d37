-- ===== src/Adaptive/Feedback.antt =====
-- backend/app/adaptive/feedback.py, and the labels of learning.py: what an outcome counts for.
use adaptive_multi_agent_pr.Prelude.{String, Bool, true, false, Option, none, some, if◌then◌else◌}

-- backend/app/models/enums.py
pub data FeedbackOutcome : Type 0 where
  accepted fixed modified rejected dismissed ignored discussion : FeedbackOutcome

-- `outcome.value`
abbrev pub outcome_value : FeedbackOutcome → String
outcome_value accepted = "ACCEPTED"
outcome_value fixed = "FIXED"
outcome_value modified = "MODIFIED"
outcome_value rejected = "REJECTED"
outcome_value dismissed = "DISMISSED"
outcome_value ignored = "IGNORED"
outcome_value discussion = "DISCUSSION"

unfoldable pub is_actionable : FeedbackOutcome → Bool
is_actionable accepted = true
is_actionable fixed = true
is_actionable _ = false

unfoldable pub is_rejective : FeedbackOutcome → Bool
is_rejective rejected = true
is_rejective dismissed = true
is_rejective ignored = true
is_rejective _ = false

pub data Label : Type 0 where
  negative positive : Label

unfoldable pub outcome_label : FeedbackOutcome → Option Label
unfolding is_actionable is_rejective
outcome_label outcome =
    if is_actionable outcome
    then some positive
    else if is_rejective outcome
    then some negative
    else none

-- backend/app/adaptive/memory.py
pub record FeedbackEvent {ℓ} (W : Type ℓ) : Type ℓ where
  pub category : String
  pub outcome : FeedbackOutcome
  pub age_days : W
  pub finding_id : Option String
