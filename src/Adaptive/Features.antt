-- ===== src/Adaptive/Features.antt =====
-- backend/app/adaptive/features.py: the eight features of a candidate finding.
pub mod Bounds
use adaptive_multi_agent_pr.Prelude.{
  ℕ, String, ◌&&◌, ◌||◌, Option, none, some, List, [], ◌∷◌, map, ltb, leb, if◌then◌else◌,
}
use adaptive_multi_agent_pr.Prelude.Float.{Float, fmin, fmax}
use adaptive_multi_agent_pr.Prelude.Text.{before_last_slash, is_label}
use adaptive_multi_agent_pr.Prelude.Dict.{Dict, get}
use adaptive_multi_agent_pr.Consolidation.Datatypes.{FindingWrite}

pub record ArumFeatures {ℓ} (W : Type ℓ) : Type ℓ where
  pub severity : W
  pub confidence : W
  pub agent_agreement : W
  pub historical_actionability : W
  pub repository_relevance : W
  pub context_relevance : W
  pub redundancy : W
  pub historical_rejection : W

-- A JSON value that `_clamp01` reads: null, a number, or what `float` refuses.
pub data Value {ℓ} (W : Type ℓ) : Type ℓ where
  null : Value W
  number : W → Value W
  junk : Value W

-- One category of the memory snapshot, and the snapshot.
abbrev pub Entry {ℓ} : Type ℓ → Type ℓ
Entry W = Dict (Value W)

pub record Snapshot {ℓ} (W : Type ℓ) : Type ℓ where
  pub categories : Dict (Entry W)
  pub repository_relevance : Option (Value W)
  pub context_relevance : Option (Value W)

-- `category.rsplit("/", 1)[0]`
unfoldable pub parent : String → String
parent category = elim (before_last_slash category) [ none ↦ category | some p ↦ p ]

module _ {ℓ} {W : Type ℓ} ⦃f : Float W⦄ where
  abbrev nought : W
  nought = f.lit 0 0

  abbrev one : W
  one = f.lit 1 0

  unfoldable pub severity_score : String → W
  severity_score severity =
      if is_label severity "critical"
      then f.lit 1 0
      else if is_label severity "high"
      then f.lit 8 1
      else if is_label severity "medium"
      then f.lit 5 1
      else if is_label severity "low"
      then f.lit 2 1
      else if is_label severity "info"
      then f.lit 5 2
      else f.lit 0 0

  unfoldable pub confidence_score : W → W
  confidence_score confidence = fmin (fmax confidence nought) one

  unfoldable pub redundancy_term : ℕ → W
  redundancy_term member_count =
      if ltb member_count 2 then nought else f.sub one (f.div one (f.lit member_count 0))

  -- `max(v)` and `min(v)` of a list that is not empty, from its first element on
  pub maximum : W → List W → W
  maximum best [] = best
  maximum best (x ∷ xs) = maximum (fmax best x) xs

  pub minimum : W → List W → W
  minimum best [] = best
  minimum best (x ∷ xs) = minimum (fmin best x) xs

  spread : W → List W → W
  unfolding maximum minimum
  spread x xs = f.sub (maximum x xs) (minimum x xs)

  pub disagreement_variance : List (FindingWrite W) → W
  unfolding spread severity_score confidence_score
  disagreement_variance [] = nought
  disagreement_variance (m ∷ []) = nought
  disagreement_variance (m ∷ n ∷ ms) =
      let sevs =
        spread (severity_score m.severity) (map (λ k. severity_score k.severity) (n ∷ ms)) in
      let confs =
        spread (confidence_score m.confidence)
          (map (λ k. confidence_score k.confidence) (n ∷ ms)) in
      fmin (f.div (f.add (f.add nought sevs) confs) (f.lit 2 0)) one

  abbrev pub variance_threshold : W
  variance_threshold = f.lit 3 1

  unfoldable pub agreement_base : ℕ → ℕ → W
  agreement_base member_count distinct_agents =
      if leb 2 member_count && leb 2 distinct_agents then f.lit 1 0 else f.lit 5 1

  unfoldable pub agent_agreement : ℕ → ℕ → W → W → W
  unfolding agreement_base
  agent_agreement member_count distinct_agents variance threshold =
      let base = agreement_base member_count distinct_agents in
      if f.le variance threshold || f.le threshold nought
      then base
      else let discount = f.mul (fmin (f.sub (f.div variance threshold) one) one) (f.lit 5 1) in
        f.round (fmax (f.mul base (f.sub one discount)) nought) 4

  unfoldable pub clamp01 : Option (Value W) → W
  clamp01 none = nought
  clamp01 (some null) = nought
  clamp01 (some (number v)) = fmin (fmax v nought) one
  clamp01 (some junk) = nought

  abbrev shares_of : Entry W → W × W
  shares_of e = (clamp01 (get "accepted_share" e), clamp01 (get "rejected_share" e))

  -- an empty entry is falsy, and the next key is tried
  abbrev pub entry_or : Option (Entry W) → W × W → W × W
  entry_or none other = other
  entry_or (some []) other = other
  entry_or (some (p ∷ e)) other = shares_of (p ∷ e)

  unfoldable pub historical_shares : Dict (Entry W) → String → W × W
  unfolding clamp01 parent
  historical_shares categories category =
      entry_or (get category categories)
        (entry_or (get (parent category) categories) (nought, nought))

  -- `memory or {}`
  abbrev pub empty_snapshot : Snapshot W
  empty_snapshot = record { categories = []; repository_relevance = none; context_relevance = none }

  abbrev pub or_empty : Option (Snapshot W) → Snapshot W
  or_empty none = empty_snapshot
  or_empty (some m) = m

  unfoldable pub historical_terms : Option (Snapshot W) → String → W × W
  unfolding historical_shares
  historical_terms memory category = historical_shares (or_empty memory).categories category

  unfoldable pub extract_features :
      FindingWrite W → ℕ → ℕ → W → Option (Snapshot W) → ArumFeatures W
  unfolding historical_terms severity_score confidence_score agent_agreement redundancy_term clamp01
  extract_features finding member_count distinct_agents variance memory =
      let (actionability, rejection) = historical_terms memory finding.category in
      record {
        severity = severity_score finding.severity;
        confidence = confidence_score finding.confidence;
        agent_agreement = agent_agreement member_count distinct_agents variance variance_threshold;
        historical_actionability = actionability;
        repository_relevance = clamp01 (or_empty memory).repository_relevance;
        context_relevance = clamp01 (or_empty memory).context_relevance;
        redundancy = redundancy_term member_count;
        historical_rejection = rejection;
      }
