-- ===== src/Adaptive/Selection.antt =====
-- backend/app/adaptive/selection.py: safety gates, then the budget filled by rank.
pub mod Closed
pub mod Counts
pub mod Gates
pub mod Rank
use adaptive_multi_agent_pr.Prelude.{
  ℕ, zero, suc, ◌+◌, ◌-◌, String, Bool, true, false, not, ◌&&◌, Option, none, some, List, [], ◌∷◌,
  ◌++◌, count, if◌then◌else◌,
}
use adaptive_multi_agent_pr.Prelude.Int.{ℤ, pos, negsuc}
use adaptive_multi_agent_pr.Prelude.Float.{Float}
use adaptive_multi_agent_pr.Adaptive.Scoring.{
  Decision, Gate, critical, protected, suppressed, rank_decisions,
}

-- `ValueError`
pub data ValueError : Type 0 where
  negative_cap : ValueError
  bad_threshold : String → ValueError

pub data Outcome {ℓ} (A : Type ℓ) : Type ℓ where
  ok : A → Outcome A
  err : ValueError → Outcome A

pub record SelectionResult {ℓ} (W : Type ℓ) : Type ℓ where
  pub decisions : List (Decision W)
  pub cap : ℕ
  pub selected_count : ℕ
  pub mandatory_count : ℕ
  pub protected_count : ℕ
  pub suppressed_by_gate : ℕ
  pub truncated_by_budget : ℕ

-- high_confidence, low_confidence and high_redundancy
pub record Thresholds {ℓ} (W : Type ℓ) : Type ℓ where
  pub high_confidence : W
  pub low_confidence : W
  pub high_redundancy : W

-- The state of the two loops of `select_decisions`: the lists and the counters.
pub record Gated {ℓ} (W : Type ℓ) : Type ℓ where
  pub annotated : List (Decision W)
  pub pending : List (Decision W)
  pub mandatory : ℕ
  pub guarded : ℕ

pub record Filled {ℓ} (W : Type ℓ) : Type ℓ where
  pub annotated : List (Decision W)
  pub selected_count : ℕ
  pub truncated : ℕ

-- `d.safety_gate == GATE_REASON_SUPPRESSED`
abbrev pub is_suppressed : Option Gate → Bool
is_suppressed (some suppressed) = true
is_suppressed _ = false

module _ {ℓ} {W : Type ℓ} where
  unfoldable pub annotate : Decision W → ℕ → Option Gate → Bool → Decision W
  annotate d cap gate chosen = record d {
    budget_cap = some cap;
    safety_gate = gate;
    selected = some chosen;
  }

  -- one pass of the first loop, by the reason found
  unfoldable pub gate_step : ℕ → Decision W → Option Gate → Gated W → Gated W
  unfolding annotate
  gate_step cap d none g = record g { pending = g.pending ++ d ∷ [] }
  gate_step cap d (some critical) g = record g {
    annotated = g.annotated ++ annotate d cap (some critical) true ∷ [];
    mandatory = g.mandatory + 1;
  }
  gate_step cap d (some protected) g = record g {
    annotated = g.annotated ++ annotate d cap (some protected) true ∷ [];
    guarded = g.guarded + 1;
  }
  gate_step cap d (some suppressed) g = record g {
    annotated = g.annotated ++ annotate d cap (some suppressed) false ∷ [];
  }

  -- the second loop, over `pending` with `remaining` slots
  unfoldable pub fill_loop : ℕ → List (Decision W) → ℕ → Filled W → Filled W
  unfolding annotate
  fill_loop cap [] remaining s = s
  fill_loop cap (d ∷ ds) zero s = fill_loop cap ds zero (record s {
    annotated = s.annotated ++ annotate d cap none false ∷ [];
    truncated = s.truncated + 1;
  })
  fill_loop cap (d ∷ ds) (suc remaining) s = fill_loop cap ds remaining (record s {
    annotated = s.annotated ++ annotate d cap none true ∷ [];
    selected_count = s.selected_count + 1;
  })

module _ {ℓ} {W : Type ℓ} ⦃f : Float W⦄ where
  unfoldable pub gate_reason : Thresholds W → Decision W → Option Gate
  gate_reason t d =
      let x = d.features in
      if f.le (f.lit 1 0) x.severity
      then some critical
      else if f.le (f.lit 8 1) x.severity && f.le t.high_confidence x.confidence
      then some protected
      else if f.le x.severity (f.lit 2 1)
          && f.le x.confidence t.low_confidence
          && f.le t.high_redundancy x.redundancy
      then some suppressed
      else none

  unfoldable pub gate_loop : Thresholds W → ℕ → List (Decision W) → Gated W → Gated W
  unfolding gate_reason gate_step
  gate_loop t cap [] g = g
  gate_loop t cap (d ∷ ds) g = gate_loop t cap ds (gate_step cap d (gate_reason t d) g)

  abbrev pub start : Gated W
  start = record { annotated = []; pending = []; mandatory = 0; guarded = 0 }

  -- what follows the first loop: the slots left, the second loop and the result
  unfoldable pub finish : ℕ → Gated W → SelectionResult W
  unfolding fill_loop
  finish cap g =
      let forced = g.mandatory + g.guarded in
      let s =
        fill_loop cap g.pending (cap - forced)
          (record { annotated = g.annotated; selected_count = forced; truncated = 0 }) in
      record {
        decisions = s.annotated;
        cap = cap;
        selected_count = s.selected_count;
        mandatory_count = g.mandatory;
        protected_count = g.guarded;
        suppressed_by_gate = count (λ d. is_suppressed d.safety_gate) s.annotated;
        truncated_by_budget = s.truncated;
      }

  -- `0.0 <= value <= 1.0`
  pub in_unit : W → Bool
  in_unit v = f.le (f.lit 0 0) v && f.le v (f.lit 1 0)

  -- the first threshold outside [0, 1]
  unfoldable pub bad_name : Thresholds W → Option String
  unfolding in_unit
  bad_name t =
      if not (in_unit t.high_confidence)
      then some "high_confidence"
      else if not (in_unit t.low_confidence)
      then some "low_confidence"
      else if not (in_unit t.high_redundancy)
      then some "high_redundancy"
      else none

  unfoldable pub select_decisions :
      List (Decision W) → ℤ → Thresholds W → Outcome (SelectionResult W)
  unfolding gate_loop finish bad_name rank_decisions
  select_decisions decisions (negsuc n) t = err negative_cap
  select_decisions decisions (pos cap) t = elim (bad_name t) [
    | some name ↦ err (bad_threshold name)
    | none ↦ ok (finish cap (gate_loop t cap (rank_decisions decisions) start))
  ]
