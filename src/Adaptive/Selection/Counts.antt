-- ===== src/Adaptive/Selection/Counts.antt =====
-- The counters of `select_decisions` of backend/app/adaptive/selection.py.
use adaptive_multi_agent_pr.Prelude.{
  ap, ℕ, zero, suc, ◌+◌, ◌-◌, min, ◌≡◌, refl, Bool, true, false, Option, none, some, List, [], ◌∷◌,
  ◌++◌, arith, length, take, drop, count, count-append, if◌then◌else◌, length-append, Option-cases,
  inl, inr,
}
use adaptive_multi_agent_pr.Prelude.Int.{ℤ, pos, negsuc}
use adaptive_multi_agent_pr.Prelude.Float.{Float}
use adaptive_multi_agent_pr.Prelude.Sort.{length-sort}
use adaptive_multi_agent_pr.Adaptive.Scoring.{key_lt, Decision, rank_decisions}
use adaptive_multi_agent_pr.Adaptive.Selection.{
  SelectionResult, Thresholds, ok, annotate, select_decisions, is_suppressed, bad_name,
}
use adaptive_multi_agent_pr.Adaptive.Selection.Closed.{
  gated, ungated, criticals, protecteds, mark, finish-closed, closed, picked, dropped, room,
}

abbrev pub is_selected : Option Bool → Bool
is_selected (some true) = true
is_selected _ = false

module _ {ℓ} {W : Type ℓ} where
  abbrev pub published : Decision W → Bool
  published d = is_selected d.selected

  abbrev pub silenced : Decision W → Bool
  silenced d = is_suppressed d.safety_gate

  -- how the numbers of a result add up, for `n` candidates
  abbrev pub Accounts : ℕ → SelectionResult W → Type 0
  Accounts n r =
      let forced = r.mandatory_count + r.protected_count in
      (r.selected_count ≡ count published r.decisions)
      × (length r.decisions ≡ n)
      × (r.selected_count + r.suppressed_by_gate + r.truncated_by_budget ≡ n)
      × (r.selected_count ≡ forced + min (r.cap - forced) (n - (forced + r.suppressed_by_gate)))

  count-mark :
      (cap : ℕ) (b : Bool) (ds : List (Decision W))
      → (count published (mark cap b ds) ≡ (if b then length ds else 0))
        × (count silenced (mark cap b ds) ≡ 0)
        × (length (mark cap b ds) ≡ length ds)
  unfolding mark annotate
  count-mark cap b [] = ground arith
  count-mark cap b (d ∷ ds) = ground (arith, count-mark cap b ds)

  length-take-drop :
      (n : ℕ) (ds : List (Decision W))
      → (length (take n ds) ≡ min n (length ds)) × (length (drop n ds) ≡ length ds - n)
  length-take-drop zero ds = omega arith
  length-take-drop (suc n) [] = omega arith
  length-take-drop (suc n) (d ∷ ds) = omega (arith, length-take-drop n ds)

module _ {ℓ} {W : Type ℓ} ⦃f : Float W⦄ (t : Thresholds W) where
  count-gated :
      (cap : ℕ) (ds : List (Decision W))
      → (count published (gated t cap ds) ≡ criticals t ds + protecteds t ds)
        × (length (gated t cap ds)
            ≡ criticals t ds + protecteds t ds + count silenced (gated t cap ds))
        × (length (gated t cap ds) + length (ungated t ds) ≡ length ds)
  unfolding gated ungated criticals protecteds annotate
  count-gated cap [] = ground arith
  count-gated cap (d ∷ ds) = ground (arith, count-gated cap ds)

-- A run that is not refused has a cap and thresholds in range, and the closed form as its result.
pub select-closed {ℓ} :
    {W : Type ℓ} ⦃f : Float W⦄ (ds : List (Decision W)) (c : ℤ) (t : Thresholds W)
    {r : SelectionResult W}
    → select_decisions ds c t ≡ ok r
    → (cap : ℕ) × (c ≡ pos cap) × (bad_name t ≡ none) × (r ≡ closed t cap (rank_decisions ds))
unfolding select_decisions
select-closed ds (negsuc n) t e = cc
select-closed ds (pos cap) t e = elim (Option-cases (bad_name t)) [
  | inl fine ↦ (cap, refl, fine, ground (arith, finish-closed t cap (rank_decisions ds)))
  | inr (name, bad) ↦ ground arith
]

module _ {ℓ} {W : Type ℓ} ⦃f : Float W⦄ (t : Thresholds W) where
  count-closed : (cap : ℕ) (ds : List (Decision W)) → Accounts (length ds) (closed t cap ds)
  count-closed cap ds =
      let us = mark cap true (picked t cap ds) in
      let vs = mark cap false (dropped t cap ds) in
      omega (
        arith,
        count-append published (gated t cap ds) (us ++ vs),
        count-append published us vs,
        count-append silenced (gated t cap ds) (us ++ vs),
        count-append silenced us vs,
        length-append (gated t cap ds) (us ++ vs),
        length-append us vs,
        count-mark cap true (picked t cap ds),
        count-mark cap false (dropped t cap ds),
        length-take-drop (room t cap ds) (ungated t ds),
        count-gated t cap ds,
      )

-- With thresholds in range and a cap that is not negative, `select_decisions` returns a result. Its
-- `selected_count` is the number of decisions that are marked as selected; it returns as many decisions as it was given; each is selected, suppressed by
-- the gate or truncated by the budget; and the selected ones are the mandatory and the protected
-- ones, with as many of the ungated ones as the rest of the cap holds.
pub select_decisions-counts {ℓ} :
    {W : Type ℓ} ⦃f : Float W⦄ (ds : List (Decision W)) (cap : ℕ) (t : Thresholds W)
    → bad_name t ≡ none
    → (r : SelectionResult W) × (select_decisions ds (pos cap) t ≡ ok r)
      × Accounts (length ds) r
      × (r.cap ≡ cap)
unfolding rank_decisions select_decisions
select_decisions-counts ds n t fine =
    let counts : Accounts (length (rank_decisions ds)) (closed t n (rank_decisions ds)) =
      count-closed t n (rank_decisions ds) in
    (
      closed t n (rank_decisions ds),
      rw (fine, select_decisions) (ap ok (finish-closed t n (rank_decisions ds))),
      rw (length-sort key_lt ds) at counts,
      refl,
    )
