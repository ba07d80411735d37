-- ===== src/Adaptive/Selection/Rank.antt =====
-- The order in which `select_decisions` of backend/app/adaptive/selection.py spends the budget.
use adaptive_multi_agent_pr.Prelude.{
  implies, ◌&&◌, not, if◌then◌else◌, ℕ, zero, suc, ◌≡◌, refl, ◌≢◌, Bool, true, false, Option, none,
  some, List, [], ◌∷◌, ◌++◌, arith, take, drop, All, All-append, All-imp, All-intro, All-drop,
}
use adaptive_multi_agent_pr.Prelude.Int.{ℤ}
use adaptive_multi_agent_pr.Prelude.Float.{Float, IsOrdered, ◌≼◌}
use adaptive_multi_agent_pr.Prelude.Text.{text_lt_asym, text_lt_trans}
use adaptive_multi_agent_pr.Prelude.Sort.{IsOrder, IsSorted, sort-IsSorted}
use adaptive_multi_agent_pr.Adaptive.Scoring.{Decision, Gate, key_lt, rank_decisions}
use adaptive_multi_agent_pr.Adaptive.Selection.{
  SelectionResult, Thresholds, ok, annotate, gate_reason, select_decisions,
}
use adaptive_multi_agent_pr.Adaptive.Selection.Closed.{
  verdict, waiting, gated, ungated, mark, picked, dropped, decided, room,
}
use adaptive_multi_agent_pr.Adaptive.Selection.Counts.{select-closed}

module _ {ℓ} {W : Type ℓ} ⦃f : Float W⦄ (laws : IsOrdered W) where
  open laws use {le_trans, le_total, lt-eq-not-le, le-neg}

  key_asym : (a b : Decision W) → key_lt a b ≡ true → key_lt b a ≡ false
  unfolding key_lt
  key_asym a b =
      let x = f.neg a.utility in
      let y = f.neg b.utility in
      ground (
        arith,
        lt-eq-not-le x y,
        lt-eq-not-le y x,
        le_total x y,
        text_lt_asym a.finding_id b.finding_id,
      )

  key_trans : (a b c : Decision W) → key_lt b a ≡ false → key_lt c b ≡ false → key_lt c a ≡ false
  unfolding key_lt
  key_trans a b c =
      let x = f.neg a.utility in
      let y = f.neg b.utility in
      let z = f.neg c.utility in
      ground (
        arith,
        lt-eq-not-le y x,
        lt-eq-not-le z y,
        lt-eq-not-le z x,
        le_trans x y z,
        le_trans y z x,
        le_trans z x y,
        le_trans x z y,
        le_trans z y x,
        le_trans y x z,
        le_total x y,
        le_total y z,
        le_total x z,
        text_lt_trans a.finding_id b.finding_id c.finding_id,
      )

  pub key_order : IsOrder (key_lt {W = W})
  key_order = record { asym = key_asym; trans = key_trans }

  -- What is not ranked above `a` has no higher utility.
  utility-le : (a b : Decision W) → key_lt b a ≡ false → b.utility ≼ a.utility
  unfolding key_lt
  utility-le a b =
      ground (arith, lt-eq-not-le (f.neg b.utility) (f.neg a.utility), le-neg a.utility b.utility)

  -- The ranking is in order: no decision stands behind one of lower utility.
  pub rank_decisions-IsSorted : (ds : List (Decision W)) → IsSorted key_lt (rank_decisions ds)
  unfolding rank_decisions
  rank_decisions-IsSorted = sort-IsSorted key_lt key_order

module _ {ℓ} {W : Type ℓ} ⦃f : Float W⦄ where
  -- `b` is not ranked above `a`
  abbrev NotAbove : Decision W → Decision W → Type 0
  NotAbove a b = key_lt b a ≡ false

  -- If the budget published `a` and cut off `b`, then `b` has no higher utility.
  abbrev pub IsFair : Decision W → Decision W → Type 0
  IsFair a b =
      a.safety_gate ≡ none
      → a.selected ≡ some true
      → b.safety_gate ≡ none
      → b.selected ≡ some false
      → b.utility ≼ a.utility

  waiting-All {κ} :
      (P : Decision W → Type κ) (d : Decision W) (g : Option Gate) → P d → All P (waiting d g)
  waiting-All P d none h = (h, tt)
  waiting-All P d (some g) h = tt

  ungated-All {κ} :
      (P : Decision W → Type κ) (t : Thresholds W) (ds : List (Decision W))
      → All P ds
      → All P (ungated t ds)
  unfolding ungated
  ungated-All P t [] h = tt
  ungated-All P t (d ∷ ds) h =
      All-append P (waiting d (gate_reason t d)) (ungated t ds)
        (waiting-All P d (gate_reason t d) h.0) (ungated-All P t ds h.1)

  waiting-IsSorted :
      (d : Decision W) (g : Option Gate) (us : List (Decision W))
      → All (NotAbove d) us
      → IsSorted key_lt us
      → IsSorted key_lt (waiting d g ++ us)
  waiting-IsSorted d none us h s = (h, s)
  waiting-IsSorted d (some g) us h s = s

  ungated-IsSorted :
      (t : Thresholds W) (ds : List (Decision W))
      → IsSorted key_lt ds
      → IsSorted key_lt (ungated t ds)
  unfolding ungated
  ungated-IsSorted t [] h = tt
  ungated-IsSorted t (d ∷ ds) h =
      waiting-IsSorted d (gate_reason t d) (ungated t ds) (ungated-All (NotAbove d) t ds h.0)
        (ungated-IsSorted t ds h.1)

  -- In a sorted list nothing past the first `n` is above one of them.
  take-drop-NotAbove :
      (n : ℕ) (us : List (Decision W))
      → IsSorted key_lt us
      → All (λ a. All (NotAbove a) (drop n us)) (take n us)
  take-drop-NotAbove zero us h = tt
  take-drop-NotAbove (suc n) [] h = tt
  take-drop-NotAbove (suc n) (u ∷ us) h =
      (All-drop (NotAbove u) n us h.0, take-drop-NotAbove n us h.1)

  verdict-gate :
      (cap : ℕ) (d : Decision W) (g : Option Gate)
      → All (λ e. e.safety_gate ≢ none) (verdict cap d g)
  unfolding annotate
  verdict-gate cap d none = tt
  verdict-gate cap d (some g) = (λ e. ground arith, tt)

  gated-gate :
      (t : Thresholds W) (cap : ℕ) (ds : List (Decision W))
      → All (λ d. d.safety_gate ≢ none) (gated t cap ds)
  unfolding gated
  gated-gate t cap [] = tt
  gated-gate t cap (d ∷ ds) =
      All-append (λ d. d.safety_gate ≢ none) (verdict cap d (gate_reason t d)) (gated t cap ds)
        (verdict-gate cap d (gate_reason t d)) (gated-gate t cap ds)

  mark-All {κ ι} :
      (P : Decision W → Type κ) (Q : Decision W → Type ι) (cap : ℕ) (b : Bool)
      → ((d : Decision W) → P d → Q (annotate d cap none b))
      → (ds : List (Decision W)) → All P ds
      → All Q (mark cap b ds)
  unfolding mark
  mark-All P Q cap b k [] h = tt
  mark-All P Q cap b k (d ∷ ds) h = (k d h.0, mark-All P Q cap b k ds h.1)

  mark-IsFair :
      (cap : ℕ) (laws : IsOrdered W) (us vs : List (Decision W))
      → All (λ a. All (NotAbove a) vs) us
      → All (λ a. All (IsFair a) (mark cap false vs)) (mark cap true us)
  unfolding annotate
  mark-IsFair cap laws us vs =
      mark-All (λ a. All (NotAbove a) vs) (λ a. All (IsFair a) (mark cap false vs)) cap true
        (λ a below.
          mark-All (NotAbove a) (IsFair (annotate a cap none true)) cap false
            (λ b h _ _ _ _. utility-le laws a b h) vs below)
        us

  -- the pairs where `a` was not published, or `b` was not cut off, by the budget
  unpublished :
      (a : Decision W) (ds : List (Decision W)) → a.selected ≢ some true → All (IsFair a) ds
  unpublished a ds h = All-intro (λ b _ e _ _. absurd (h e)) ds

  forced : (a : Decision W) (ds : List (Decision W)) → a.safety_gate ≢ none → All (IsFair a) ds
  forced a ds h = All-intro (λ b e _ _ _. absurd (h e)) ds

  gated-IsFair :
      (a : Decision W) (ds : List (Decision W))
      → All (λ d. d.safety_gate ≢ none) ds
      → All (IsFair a) ds
  gated-IsFair a ds = All-imp (λ b h _ _ e _. absurd (h e)) ds

  mark-selected :
      (cap : ℕ) (b : Bool) (ds : List (Decision W)) → All (λ d. d.selected ≡ some b) (mark cap b ds)
  unfolding mark annotate
  mark-selected cap b [] = tt
  mark-selected cap b (d ∷ ds) = (refl, mark-selected cap b ds)

  picked-IsFair :
      (a : Decision W) (ds : List (Decision W))
      → All (λ d. d.selected ≡ some true) ds
      → All (IsFair a) ds
  picked-IsFair a ds = All-imp (λ b h _ _ _ e. cc) ds

  decided-IsFair :
      (t : Thresholds W) (cap : ℕ) (laws : IsOrdered W) (ds : List (Decision W))
      → IsSorted key_lt ds
      → All (λ a. All (IsFair a) (decided t cap ds)) (decided t cap ds)
  decided-IsFair t cap laws ds sorted =
      let gs = gated t cap ds in
      let us = mark cap true (picked t cap ds) in
      let vs = mark cap false (dropped t cap ds) in
      All-append (λ a. All (IsFair a) (gs ++ (us ++ vs))) gs (us ++ vs)
        (All-imp (λ a h. forced a (gs ++ (us ++ vs)) h) gs (gated-gate t cap ds))
        (All-append (λ a. All (IsFair a) (gs ++ (us ++ vs))) us vs
          (All-imp
            (λ a h. All-append (IsFair a) gs (us ++ vs) (gated-IsFair a gs (gated-gate t cap ds)) (
              All-append (IsFair a) us vs
                (picked-IsFair a us (mark-selected cap true (picked t cap ds))) h))
            us
            (mark-IsFair cap laws (picked t cap ds) (dropped t cap ds)
              (take-drop-NotAbove (room t cap ds) (ungated t ds) (ungated-IsSorted t ds sorted))))
          (All-imp (λ a h. unpublished a (gs ++ (us ++ vs)) (λ e. cc)) vs
            (mark-selected cap false (dropped t cap ds))))

module _ {ℓ} {W : Type ℓ} ⦃f : Float W⦄ where
  -- no gate touched `d`, and the budget published it or not, as `b` says
  abbrev pub is_filled : Bool → Decision W → Bool
  is_filled b d = elim d.safety_gate [
    | some g ↦ false
    | none ↦ elim d.selected [ none ↦ false | some c ↦ if b then c else not c ]
  ]

  -- if the budget published `a` and not `b`, then `b` has no higher utility
  abbrev pub is_fair : Decision W → Decision W → Bool
  is_fair a b = implies (is_filled true a && is_filled false b) (f.le b.utility a.utility)

  is_fair_lem : (a b : Decision W) → IsFair a b → is_fair a b ≡ true
  is_fair_lem a b h = ground (arith, h)

  fair_row :
      (a : Decision W) (ds : List (Decision W))
      → All (IsFair a) ds
      → All (λ b. is_fair a b ≡ true) ds
  fair_row a ds = All-imp (λ b. is_fair_lem a b) ds

  fair_tests :
      (es ds : List (Decision W))
      → All (λ a. All (IsFair a) ds) es
      → All (λ a. All (λ b. is_fair a b ≡ true) ds) es
  fair_tests es ds = All-imp (λ a. fair_row a ds) es

-- If the order of floats is lawful and `select_decisions` returns a result, then for two decisions
-- in it that no gate touched, one that is published and one that is not, the one that is not
-- published has no higher utility.
pub select_decisions-IsFair {ℓ} :
    {W : Type ℓ} ⦃f : Float W⦄ (laws : IsOrdered W) (ds : List (Decision W)) (c : ℤ)
    (t : Thresholds W) {r : SelectionResult W}
    → select_decisions ds c t ≡ ok r
    → All (λ a. All (λ b. is_fair a b ≡ true) r.decisions) r.decisions
select_decisions-IsFair laws ds c t e =
    let (cap, _, _, form) = select-closed ds c t e in
    rw form (
      fair_tests _ _
        (decided-IsFair t cap laws (rank_decisions ds) (rank_decisions-IsSorted laws ds)))
