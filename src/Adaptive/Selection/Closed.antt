-- ===== src/Adaptive/Selection/Closed.antt =====
-- The two loops of `select_decisions` (backend/app/adaptive/selection.py) in closed form.
use mathlib.Core.List.{append-nil, append_assoc}
use native.Mathlib.Nat.{zero-add}
use adaptive_multi_agent_pr.Prelude.{
  ℕ, zero, suc, ◌+◌, ◌-◌, ◌≡◌, ◌∙◌, Bool, true, false, Option, none, some, List, [], ◌∷◌, ◌++◌,
  arith, count, length, take, drop,
}
use adaptive_multi_agent_pr.Prelude.Float.{Float}
use adaptive_multi_agent_pr.Adaptive.Scoring.{Decision, Gate, critical, protected, suppressed}
use adaptive_multi_agent_pr.Adaptive.Selection.{
  Gated, Filled, Thresholds, SelectionResult, finish, start, is_suppressed, annotate, gate_step,
  gate_reason, gate_loop, fill_loop,
}

-- whether a gate publishes
abbrev pub forces : Gate → Bool
forces suppressed = false
forces _ = true

abbrev pub is_critical : Option Gate → ℕ
is_critical (some critical) = 1
is_critical _ = 0

abbrev pub is_protected : Option Gate → ℕ
is_protected (some protected) = 1
is_protected _ = 0

module _ {ℓ} {W : Type ℓ} where
  -- what one decision adds to each part of the state, by its gate
  abbrev pub verdict : ℕ → Decision W → Option Gate → List (Decision W)
  verdict cap d none = []
  verdict cap d (some g) = annotate d cap (some g) (forces g) ∷ []

  abbrev pub waiting : Decision W → Option Gate → List (Decision W)
  waiting d none = d ∷ []
  waiting d (some g) = []

  abbrev after : Gated W → List (Decision W) → List (Decision W) → ℕ → ℕ → Gated W
  after g a p m k = record {
    annotated = g.annotated ++ a;
    pending = g.pending ++ p;
    mandatory = g.mandatory + m;
    guarded = g.guarded + k;
  }

  after-step :
      (g : Gated W) (cap : ℕ) (d : Decision W) (o : Option Gate) (a p : List (Decision W)) (m k : ℕ)
      → after (gate_step cap d o g) a p m k
        ≡ after g (verdict cap d o ++ a) (waiting d o ++ p) (is_critical o + m) (is_protected o + k)
  unfolding gate_step
  after-step g cap d none a p m k = ground (arith, append_assoc g.pending (d ∷ []) p)
  after-step g cap d (some critical) a p m k =
      ground (arith, append_assoc g.annotated (annotate d cap (some critical) true ∷ []) a)
  after-step g cap d (some protected) a p m k =
      ground (arith, append_assoc g.annotated (annotate d cap (some protected) true ∷ []) a)
  after-step g cap d (some suppressed) a p m k =
      ground (arith, append_assoc g.annotated (annotate d cap (some suppressed) false ∷ []) a)

module _ {ℓ} {W : Type ℓ} ⦃f : Float W⦄ (t : Thresholds W) where
  unfoldable pub gated : ℕ → List (Decision W) → List (Decision W)
  gated cap [] = []
  gated cap (d ∷ ds) = verdict cap d (gate_reason t d) ++ gated cap ds

  unfoldable pub ungated : List (Decision W) → List (Decision W)
  ungated [] = []
  ungated (d ∷ ds) = waiting d (gate_reason t d) ++ ungated ds

  unfoldable pub criticals : List (Decision W) → ℕ
  criticals [] = 0
  criticals (d ∷ ds) = is_critical (gate_reason t d) + criticals ds

  unfoldable pub protecteds : List (Decision W) → ℕ
  protecteds [] = 0
  protecteds (d ∷ ds) = is_protected (gate_reason t d) + protecteds ds

  pub gate_loop-closed :
      (cap : ℕ) (ds : List (Decision W)) (g : Gated W)
      → gate_loop t cap ds g ≡ after g (gated cap ds) (ungated ds) (criticals ds) (protecteds ds)
  unfolding gate_loop gated ungated criticals protecteds
  gate_loop-closed cap [] g = ground (arith, append-nil g.annotated, append-nil g.pending)
  gate_loop-closed cap (d ∷ ds) g =
      gate_loop-closed cap ds (gate_step cap d (gate_reason t d) g)
      ∙ after-step g cap d (gate_reason t d) (gated cap ds) (ungated ds) (criticals ds)
          (protecteds ds)

module _ {ℓ} {W : Type ℓ} where
  unfoldable pub mark : ℕ → Bool → List (Decision W) → List (Decision W)
  mark cap chosen [] = []
  mark cap chosen (d ∷ ds) = annotate d cap none chosen ∷ mark cap chosen ds

  abbrev pub filled : ℕ → List (Decision W) → ℕ → Filled W → Filled W
  filled cap ds n s = record {
    annotated = s.annotated ++ (mark cap true (take n ds) ++ mark cap false (drop n ds));
    selected_count = s.selected_count + length (take n ds);
    truncated = s.truncated + length (drop n ds);
  }

  pub fill_loop-closed :
      (cap : ℕ) (ds : List (Decision W)) (n : ℕ) (s : Filled W)
      → fill_loop cap ds n s ≡ filled cap ds n s
  unfolding fill_loop mark
  fill_loop-closed cap [] zero s = ground (arith, append-nil s.annotated)
  fill_loop-closed cap [] (suc n) s = ground (arith, append-nil s.annotated)
  fill_loop-closed cap (d ∷ ds) zero s =
      fill_loop-closed cap ds zero _
      ∙ ground
          (arith, append_assoc s.annotated (annotate d cap none false ∷ []) (mark cap false ds))
  fill_loop-closed cap (d ∷ ds) (suc n) s =
      fill_loop-closed cap ds n _
      ∙ ground (
        arith,
        append_assoc s.annotated (annotate d cap none true ∷ [])
            (mark cap true (take n ds) ++ mark cap false (drop n ds)),
      )

module _ {ℓ} {W : Type ℓ} ⦃f : Float W⦄ (t : Thresholds W) where
  -- the decisions past the gates, the slots left for them, and the result
  abbrev pub room : ℕ → List (Decision W) → ℕ
  room cap ds = cap - (criticals t ds + protecteds t ds)

  abbrev pub picked : ℕ → List (Decision W) → List (Decision W)
  picked cap ds = take (room cap ds) (ungated t ds)

  abbrev pub dropped : ℕ → List (Decision W) → List (Decision W)
  dropped cap ds = drop (room cap ds) (ungated t ds)

  abbrev pub decided : ℕ → List (Decision W) → List (Decision W)
  decided cap ds =
      gated t cap ds ++ (mark cap true (picked cap ds) ++ mark cap false (dropped cap ds))

  abbrev pub closed : ℕ → List (Decision W) → SelectionResult W
  closed cap ds = record {
    decisions = decided cap ds;
    cap = cap;
    selected_count = criticals t ds + protecteds t ds + length (picked cap ds);
    mandatory_count = criticals t ds;
    protected_count = protecteds t ds;
    suppressed_by_gate = count (λ d. is_suppressed d.safety_gate) (decided cap ds);
    truncated_by_budget = length (dropped cap ds);
  }

  pub finish-closed :
      (cap : ℕ) (ds : List (Decision W)) → finish cap (gate_loop t cap ds start) ≡ closed cap ds
  unfolding finish
  finish-closed cap ds = simp (gate_loop-closed t cap ds, fill_loop-closed, zero-add)
