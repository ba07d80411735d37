-- ===== src/Adaptive/Weights/Overrides.antt =====
-- `ArumWeights.with_overrides` of backend/app/adaptive/weights.py, seen as an operation on dictionaries.
use adaptive_multi_agent_pr.Prelude.{
  String, ◌≡◌, refl, false, Option, none, some, [], ◌∷◌, arith, eq_iff,
}
use adaptive_multi_agent_pr.Prelude.Float.{Float}
use adaptive_multi_agent_pr.Prelude.Dict.{Dict, get, contains}
use adaptive_multi_agent_pr.Adaptive.Weights.{
  ArumWeights, ok, as_dict, weight_keys, unknown, values, first_bad, merge, with_overrides, checked,
}

module _ {ℓ} {W : Type ℓ} where
  -- the value that an update with `new` leaves at a key
  abbrev pub overridden : Option W → Option W → Option W
  overridden none old = old
  overridden (some v) old = some v

  -- No unknown key is left, so every override is of a known one.
  values-known :
      (o : Dict (Option W)) (k : String)
      → unknown o ≡ []
      → contains weight_keys k ≡ false
      → get k (values o) ≡ none
  unfolding unknown values get
  values-known [] k h e = refl
  values-known ((j, none) ∷ o) k h e = ground (arith, values-known o k)
  values-known ((j, some v) ∷ o) k h e = ground (arith, values-known o k, eq_iff j k)

module _ {ℓ} {W : Type ℓ} ⦃f : Float W⦄ where
  get-merge :
      (w : ArumWeights W) (vs : Dict W) (k : String)
      → (contains weight_keys k ≡ false → get k vs ≡ none)
      → get k (as_dict (merge w vs)) ≡ overridden (get k vs) (get k (as_dict w))
  unfolding merge get contains
  get-merge w vs k h = ground (
    arith,
    eq_iff "w1_severity" k,
    eq_iff "w2_confidence" k,
    eq_iff "w3_agent_agreement" k,
    eq_iff "w4_historical_actionability" k,
    eq_iff "w5_repository_relevance" k,
    eq_iff "w6_context_relevance" k,
    eq_iff "w7_redundancy" k,
    eq_iff "w8_historical_rejection" k,
  )

-- If every override has a known key and none of the values is negative, NaN or infinite, then
-- `with_overrides` returns weights of the same version that, as a dictionary, are the old ones
-- updated with the overrides that are not null.
pub with_overrides-merges {ℓ} :
    {W : Type ℓ} ⦃f : Float W⦄ (w : ArumWeights W) (o : Dict (Option W))
    → unknown o ≡ []
    → first_bad (values o) ≡ none
    → (w' : ArumWeights W) × (with_overrides w o ≡ ok w')
      × (w'.version ≡ w.version)
      × ((k : String) → get k (as_dict w') ≡ overridden (get k (values o)) (get k (as_dict w)))
unfolding with_overrides checked
with_overrides-merges w o known good = (
  merge w (values o),
  rw known (rw good refl),
  refl,
  λ k. get-merge w (values o) k (values-known o k known),
)
