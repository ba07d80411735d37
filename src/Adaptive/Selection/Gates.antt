-- ===== src/Adaptive/Selection/Gates.antt =====
-- The safety gates of backend/app/adaptive/selection.py and the annotations that follow from them.
use mathlib.Core.List.{Perm, perm_middle, map-append}
use mathlib.Core.List.Perm
use adaptive_multi_agent_pr.Prelude.{
  implies, ◌&&◌, not, ℕ, ◌≡◌, refl, sym, ap, Bool, true, false, Option, none, some, List, [], ◌∷◌,
  ◌++◌, map, arith, All, All-append, take-append-drop, All-take, All-drop,
}
use adaptive_multi_agent_pr.Prelude.Int.{ℤ}
use adaptive_multi_agent_pr.Prelude.Float.{Float}
use adaptive_multi_agent_pr.Prelude.Sort.{sort-perm}
use adaptive_multi_agent_pr.Adaptive.Scoring.{
  Decision, Gate, critical, protected, suppressed, key_lt, rank_decisions,
}
use adaptive_multi_agent_pr.Adaptive.Selection.{
  is_suppressed, SelectionResult, Thresholds, ok, annotate, gate_reason, select_decisions,
}
use adaptive_multi_agent_pr.Adaptive.Selection.Closed.{
  verdict, waiting, gated, ungated, mark, picked, dropped, decided, room,
}
use adaptive_multi_agent_pr.Adaptive.Selection.Counts.{select-closed}

module _ {ℓ} {W : Type ℓ} where
  -- a decision as it came, before its annotation
  abbrev pub bare : Decision W → Decision W
  bare d = record d { budget_cap = none; safety_gate = none; selected = none }

module _ {ℓ} {W : Type ℓ} ⦃f : Float W⦄ (t : Thresholds W) where
  abbrev pub is_selected : Decision W → Bool
  is_selected d = elim d.selected [ none ↦ false | some b ↦ b ]

  -- The annotation of one decision under the cap `cap`: a critical finding is published, so is a
  -- severe one of high confidence; what is unimportant, unsure and redundant is not; and the gate
  -- recorded is the one that the features call for.
  pub record IsJudged (cap : ℕ) (d : Decision W) : Type ℓ where
    pub mandatory : implies (f.le (f.lit 1 0) d.features.severity) (is_selected d) ≡ true
    pub guarded :
        implies
          (f.le (f.lit 8 1) d.features.severity && f.le t.high_confidence d.features.confidence)
          (is_selected d)
        ≡ true
    pub silenced : implies (is_suppressed d.safety_gate) (not (is_selected d)) ≡ true
    pub gate : d.safety_gate ≡ gate_reason t d
    pub capped : d.budget_cap ≡ some cap

  judged :
      (cap : ℕ) (d : Decision W) (g : Option Gate) (b : Bool)
      → gate_reason t d ≡ g
      → (f.le (f.lit 1 0) d.features.severity ≡ true → b ≡ true)
      → (f.le (f.lit 8 1) d.features.severity ≡ true
          → f.le t.high_confidence d.features.confidence ≡ true
          → b ≡ true)
      → (is_suppressed g ≡ true → b ≡ false)
      → IsJudged cap (annotate d cap g b)
  unfolding annotate gate_reason
  judged cap d g b e m h l = record {
    mandatory = ground arith;
    guarded = ground arith;
    silenced = ground (arith, l);
    gate = sym e;
    capped = refl;
  }

  verdict-IsJudged :
      (cap : ℕ) (d : Decision W) (g : Option Gate)
      → gate_reason t d ≡ g
      → All (IsJudged cap) (verdict cap d g)
  unfolding gate_reason
  verdict-IsJudged cap d none e = tt
  verdict-IsJudged cap d (some critical) e =
      (judged cap d (some critical) true e (λ x. refl) (λ x y. refl) (λ x. cc), tt)
  verdict-IsJudged cap d (some protected) e =
      (judged cap d (some protected) true e (λ x. refl) (λ x y. refl) (λ x. cc), tt)
  verdict-IsJudged cap d (some suppressed) e = (
    judged cap d (some suppressed) false e (λ x. ground arith) (λ x y. ground arith) (λ x. refl),
    tt,
  )

  gated-IsJudged : (cap : ℕ) (ds : List (Decision W)) → All (IsJudged cap) (gated t cap ds)
  unfolding gated
  gated-IsJudged cap [] = tt
  gated-IsJudged cap (d ∷ ds) =
      All-append (IsJudged cap) (verdict cap d (gate_reason t d)) (gated t cap ds)
        (verdict-IsJudged cap d (gate_reason t d) refl) (gated-IsJudged cap ds)

  -- no gate holds back or forces what is left
  abbrev pub IsUngated : Decision W → Type 0
  IsUngated d = gate_reason t d ≡ none

  waiting-IsUngated :
      (d : Decision W) (g : Option Gate) → gate_reason t d ≡ g → All IsUngated (waiting d g)
  waiting-IsUngated d none e = (e, tt)
  waiting-IsUngated d (some g) e = tt

  pub ungated-IsUngated : (ds : List (Decision W)) → All IsUngated (ungated t ds)
  unfolding ungated
  ungated-IsUngated [] = tt
  ungated-IsUngated (d ∷ ds) =
      All-append IsUngated (waiting d (gate_reason t d)) (ungated t ds)
        (waiting-IsUngated d (gate_reason t d) refl) (ungated-IsUngated ds)

  mark-IsJudged :
      (cap : ℕ) (b : Bool) (ds : List (Decision W))
      → All IsUngated ds
      → All (IsJudged cap) (mark cap b ds)
  unfolding mark gate_reason
  mark-IsJudged cap b [] h = tt
  mark-IsJudged cap b (d ∷ ds) h =
      let e = h.0 in
      (
        judged cap d none b e (λ x. ground arith) (λ x y. ground arith) (λ x. cc),
        mark-IsJudged cap b ds h.1,
      )

  decided-IsJudged : (cap : ℕ) (ds : List (Decision W)) → All (IsJudged cap) (decided t cap ds)
  decided-IsJudged cap ds =
      let left = ungated-IsUngated ds in
      All-append (IsJudged cap) _ _ (gated-IsJudged cap ds) (
        All-append (IsJudged cap) _ _
          (mark-IsJudged cap true _ (All-take IsUngated (room t cap ds) _ left))
          (mark-IsJudged cap false _ (All-drop IsUngated (room t cap ds) _ left)))

  part :
      (cap : ℕ) (d : Decision W) (g : Option Gate) (gs us ds : List (Decision W))
      → Perm (map bare gs ++ map bare us) (map bare ds)
      → Perm (map bare (verdict cap d g ++ gs) ++ map bare (waiting d g ++ us)) (map bare (d ∷ ds))
  unfolding annotate
  part cap d none gs us ds p =
      Perm.trans (perm_middle (map bare gs) (map bare us)) (Perm.cons (bare d) p)
  part cap d (some g) gs us ds p = Perm.cons (bare d) p

  parts :
      (cap : ℕ) (ds : List (Decision W))
      → Perm (map bare (gated t cap ds) ++ map bare (ungated t ds)) (map bare ds)
  unfolding gated ungated
  parts cap [] = Perm.refl []
  parts cap (d ∷ ds) =
      part cap d (gate_reason t d) (gated t cap ds) (ungated t ds) ds (parts cap ds)

  map-bare-mark :
      (cap : ℕ) (b : Bool) (ds : List (Decision W)) → map bare (mark cap b ds) ≡ map bare ds
  unfolding mark annotate
  map-bare-mark cap b [] = refl
  map-bare-mark cap b (d ∷ ds) = ap (◌∷◌ (bare d)) (map-bare-mark cap b ds)

  decided-perm :
      (cap : ℕ) (ds : List (Decision W)) → Perm (map bare (decided t cap ds)) (map bare ds)
  decided-perm cap ds =
      let us = picked t cap ds in
      let vs = dropped t cap ds in
      simp (map-append, map-bare-mark)
        (rw (← map-append bare us vs)
          (rw (take-append-drop (room t cap ds) (ungated t ds)) (parts cap ds)))

-- If `select_decisions` returns a result, then each decision in it is annotated as its features
-- call for under the cap: one of critical severity is published, one of high severity and high
-- confidence is published, and one that is suppressed by the gate is not. The result holds the
-- decisions that were given, each once.
pub select_decisions-IsJudged {ℓ} :
    {W : Type ℓ} ⦃f : Float W⦄ (ds : List (Decision W)) (c : ℤ) (t : Thresholds W)
    {r : SelectionResult W}
    → select_decisions ds c t ≡ ok r
    → All (IsJudged t r.cap) r.decisions × Perm (map bare r.decisions) (map bare ds)
unfolding rank_decisions
select_decisions-IsJudged ds c t e =
    let (cap, _, _, form) = select-closed ds c t e in
    rw form (
      decided-IsJudged t cap (rank_decisions ds),
      Perm.trans (decided-perm t cap (rank_decisions ds)) (Perm.map bare (sort-perm key_lt ds)),
    )
