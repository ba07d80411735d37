-- ===== src/Adaptive/Features/Bounds.antt =====
-- The range of the features of backend/app/adaptive/features.py.
use adaptive_multi_agent_pr.Prelude.{
  ℕ, false, ◌||◌, Bool-cases, inl, inr, ltb, ◌≡◌, String, Option, none, some, [], ◌∷◌, arith,
}
use adaptive_multi_agent_pr.Prelude.Float.{
  Float, IsMonotone, IsFractional, IsUnital, IsOrdered, ◌≼◌, fmin, fmax,
}
use adaptive_multi_agent_pr.Prelude.Dict.{get}
use adaptive_multi_agent_pr.Consolidation.Datatypes.{FindingWrite}
use adaptive_multi_agent_pr.Adaptive.Features.{
  ArumFeatures, Snapshot, Value, null, number, junk, Entry, severity_score, clamp01,
  redundancy_term, agreement_base, agent_agreement, variance_threshold, historical_terms,
  extract_features, entry_or, or_empty, parent,
}

module _ {ℓ} {W : Type ℓ} ⦃f : Float W⦄ where
  abbrev pub InUnit : W → Type 0
  InUnit x = (f.lit 0 0 ≼ x) × (x ≼ f.lit 1 0)

  pub record IsNormalised (x : ArumFeatures W) : Type 0 where
    pub severity : InUnit x.severity
    pub agent_agreement : InUnit x.agent_agreement
    pub redundancy : InUnit x.redundancy
    pub confidence : InUnit x.confidence
    pub historical_actionability : InUnit x.historical_actionability
    pub repository_relevance : InUnit x.repository_relevance
    pub context_relevance : InUnit x.context_relevance
    pub historical_rejection : InUnit x.historical_rejection

module _ {ℓ} {W : Type ℓ} ⦃f : Float W⦄ (laws : IsOrdered W) where
  open laws use {le_refl, le_total, lt-eq-not-le, lit_unit}

  pub clamped : (v : W) → InUnit (fmin (fmax v (f.lit 0 0)) (f.lit 1 0))
  clamped v =
      let o = f.lit 0 0 in
      let i = f.lit 1 0 in
      ground (
        arith,
        lt-eq-not-le v o,
        lt-eq-not-le i v,
        lt-eq-not-le i o,
        le_total v o,
        le_total i v,
        le_refl o,
        le_refl i,
        lit_unit 1 0,
      )

  nought-InUnit : InUnit (f.lit 0 0)
  nought-InUnit = lit_unit 0 0 (omega arith)

  clamp01-InUnit : (v : Option (Value W)) → InUnit (clamp01 v)
  unfolding clamp01
  clamp01-InUnit none = nought-InUnit
  clamp01-InUnit (some null) = nought-InUnit
  clamp01-InUnit (some (number v)) = clamped v
  clamp01-InUnit (some junk) = nought-InUnit

  severity_score-InUnit : (s : String) → InUnit (severity_score {W = W} s)
  unfolding severity_score
  severity_score-InUnit s =
      ground
        (arith, lit_unit 1 0, lit_unit 8 1, lit_unit 5 1, lit_unit 2 1, lit_unit 5 2, lit_unit 0 0)

  entry_or-InUnit :
      (e : Option (Entry W)) (other : W × W)
      → InUnit other.0 × InUnit other.1
      → InUnit (entry_or e other).0 × InUnit (entry_or e other).1
  entry_or-InUnit none other h = h
  entry_or-InUnit (some []) other h = h
  entry_or-InUnit (some (p ∷ e)) other h =
      (clamp01-InUnit (get "accepted_share" (p ∷ e)), clamp01-InUnit (get "rejected_share" (p ∷ e)))

  historical_terms-InUnit :
      (memory : Option (Snapshot W)) (category : String)
      → InUnit (historical_terms memory category).0 × InUnit (historical_terms memory category).1
  unfolding historical_terms
  historical_terms-InUnit memory category =
      let categories = (or_empty memory).categories in
      entry_or-InUnit (get category categories) _
        (entry_or-InUnit (get (parent category) categories) _ (nought-InUnit, nought-InUnit))

module _ {ℓ} {W : Type ℓ} ⦃f : Float W⦄ (laws : IsOrdered W) (mono : IsMonotone W)
    (fractions : IsFractional W) (unital : IsUnital W) where
  round-InUnit : (x : W) → InUnit x → InUnit (f.round x 4)
  round-InUnit x h = (
    laws.le_trans _ _ _ (fractions.round_unit 4).0 (mono.round_mono _ _ 4 h.0),
    laws.le_trans _ _ _ (mono.round_mono _ _ 4 h.1) (fractions.round_unit 4).1,
  )

  redundancy_term-InUnit : (n : ℕ) → InUnit (redundancy_term {W = W} n)
  unfolding redundancy_term
  redundancy_term-InUnit n = elim (Bool-cases (ltb n 2)) [
    | inl e ↦ rw e (nought-InUnit laws)
    | inr e ↦
        let over = unital.lit_over n (ground (arith, e)) in
        let q =
          fractions.div_unit (f.lit 1 0) (f.lit n 0) (laws.lit_unit 1 0 (omega arith)).0 over.0
            (ground (arith, over.1)) in
        rw e (unital.sub_unit _ q.0 q.1)
  ]

  agreement_base-InUnit : (m n : ℕ) → InUnit (agreement_base {W = W} m n)
  unfolding agreement_base
  agreement_base-InUnit m n = ground (arith, laws.lit_unit 1 0, laws.lit_unit 5 1)

  -- the smaller of 1 and a value that is not negative
  fmin-InUnit : (x : W) → f.lit 0 0 ≼ x → InUnit (fmin x (f.lit 1 0))
  fmin-InUnit x h = ground (
    arith,
    laws.lt-eq-not-le (f.lit 1 0) x,
    laws.le_total x (f.lit 1 0),
    laws.le_refl (f.lit 1 0),
    laws.lit_unit 1 0,
  )

  fmax-InUnit : (x : W) → InUnit x → InUnit (fmax x (f.lit 0 0))
  fmax-InUnit x h = ground (arith, laws.lt-eq-not-le x (f.lit 0 0), laws.lit_unit 0 0, h.0, h.1)

  discounted-InUnit :
      (base variance threshold : W)
      → InUnit base
      → f.le threshold (f.lit 0 0) ≡ false
      → threshold ≼ variance
      → InUnit (
          f.round
            (fmax
              (f.mul base (
                f.sub (f.lit 1 0) (
                  f.mul
                    (fmin (f.sub (f.div variance threshold) (f.lit 1 0)) (f.lit 1 0))
                    (f.lit 5 1))))
              (f.lit 0 0))
            4)
  discounted-InUnit base variance threshold b h k =
      let over = unital.sub_over _ (unital.div_over variance threshold h k) in
      let share = fmin-InUnit _ over in
      let half = laws.lit_unit 5 1 (omega arith) in
      let discount = unital.mul_unit _ _ share.0 share.1 half.0 half.1 in
      let rest = unital.sub_unit _ discount.0 discount.1 in
      round-InUnit _ (fmax-InUnit _ (unital.mul_unit _ _ b.0 b.1 rest.0 rest.1))

  agent_agreement-InUnit :
      (m n : ℕ) (variance threshold : W) → InUnit (agent_agreement m n variance threshold)
  unfolding agent_agreement
  agent_agreement-InUnit m n variance threshold =
      elim (Bool-cases (f.le variance threshold || f.le threshold (f.lit 0 0))) [
        | inl e ↦ rw e (agreement_base-InUnit m n)
        | inr e ↦ rw e (
            discounted-InUnit (agreement_base m n) variance threshold (agreement_base-InUnit m n)
              (ground (arith, e)) (ground (arith, e, laws.le_total variance threshold)))
      ]

-- Under the laws of floats away from NaN (the order, monotone sums and roundings, and exact bounds 0
-- and 1 of products, quotients and complements), whatever the finding, its group, its variance and the
-- memory snapshot hold (unknown severities, confidences out of range, absent, null or malformed
-- shares), `extract_features` gives eight features in [0, 1].
pub extract_features-IsNormalised {ℓ} :
    {W : Type ℓ} ⦃f : Float W⦄ (laws : IsOrdered W) (mono : IsMonotone W)
    (fractions : IsFractional W) (unital : IsUnital W) (finding : FindingWrite W)
    (members agents : ℕ) (variance : W) (memory : Option (Snapshot W))
    → IsNormalised (extract_features finding members agents variance memory)
unfolding extract_features
extract_features-IsNormalised laws mono fractions unital finding members agents variance memory =
    let shares = historical_terms-InUnit laws memory finding.category in
    record {
      severity = severity_score-InUnit laws finding.severity;
      confidence = clamped laws finding.confidence;
      agent_agreement =
          agent_agreement-InUnit laws mono fractions unital members agents variance
            variance_threshold;
      redundancy = redundancy_term-InUnit laws mono fractions unital members;
      historical_actionability = shares.0;
      repository_relevance = clamp01-InUnit laws (or_empty memory).repository_relevance;
      context_relevance = clamp01-InUnit laws (or_empty memory).context_relevance;
      historical_rejection = shares.1;
    }
