-- ===== src/Adaptive/Weights.antt =====
-- backend/app/adaptive/weights.py: the versioned weight policy and its per-repository overrides.
-- The text of an error message is not modelled, what it names is.
pub mod Overrides
use adaptive_multi_agent_pr.Prelude.{
  String, Bool, not, ◌||◌, Option, none, some, List, [], ◌∷◌, ◌==◌, if◌then◌else◌,
}
use adaptive_multi_agent_pr.Prelude.Float.{Float, eq}
use adaptive_multi_agent_pr.Prelude.Dict.{Dict, get, contains}

abbrev pub default_weights_version : String
default_weights_version = "v1"

abbrev pub weight_keys : List String
weight_keys =
    "w1_severity" ∷ "w2_confidence" ∷ "w3_agent_agreement" ∷ "w4_historical_actionability"
    ∷ "w5_repository_relevance" ∷ "w6_context_relevance" ∷ "w7_redundancy"
    ∷ "w8_historical_rejection" ∷ []

-- `ArumConfigurationError`
pub data ConfigurationError : Type 0 where
  unknown_keys : List String → ConfigurationError
  bad_weight : String → ConfigurationError
  unknown_version : String → ConfigurationError

pub data Result {ℓ} (A : Type ℓ) : Type ℓ where
  ok : A → Result A
  err : ConfigurationError → Result A

-- the two checks of `with_overrides`, in their order
unfoldable pub checked {ℓ} : {A : Type ℓ} → List String → Option String → A → Result A
checked [] none a = ok a
checked [] (some k) a = err (bad_weight k)
checked (k ∷ ks) bad a = err (unknown_keys (k ∷ ks))

pub record ArumWeights {ℓ} (W : Type ℓ) : Type ℓ where
  pub version : String
  pub w1_severity : W
  pub w2_confidence : W
  pub w3_agent_agreement : W
  pub w4_historical_actionability : W
  pub w5_repository_relevance : W
  pub w6_context_relevance : W
  pub w7_redundancy : W
  pub w8_historical_rejection : W

module _ {ℓ} {W : Type ℓ} where
  -- the weights of `as_dict`, without the version that `with_overrides` pops
  abbrev pub as_dict : ArumWeights W → Dict W
  as_dict w =
      ("w1_severity", w.w1_severity)
      ∷ ("w2_confidence", w.w2_confidence)
      ∷ ("w3_agent_agreement", w.w3_agent_agreement)
      ∷ ("w4_historical_actionability", w.w4_historical_actionability)
      ∷ ("w5_repository_relevance", w.w5_repository_relevance)
      ∷ ("w6_context_relevance", w.w6_context_relevance)
      ∷ ("w7_redundancy", w.w7_redundancy)
      ∷ ("w8_historical_rejection", w.w8_historical_rejection)
      ∷ []

  -- `ArumWeights.as_vector`
  abbrev pub as_vector : ArumWeights W → List W
  as_vector w =
      w.w1_severity ∷ w.w2_confidence ∷ w.w3_agent_agreement ∷ w.w4_historical_actionability
      ∷ w.w5_repository_relevance ∷ w.w6_context_relevance ∷ w.w7_redundancy
      ∷ w.w8_historical_rejection ∷ []

  -- `[k for k in overrides if k not in _WEIGHT_KEYS]`
  unfoldable pub unknown : Dict (Option W) → List String
  unknown [] = []
  unknown ((k, v) ∷ d) = if contains weight_keys k then unknown d else k ∷ unknown d

  -- the comprehension of `values`: an override that is `None` is left out
  unfoldable pub values : Dict (Option W) → Dict W
  values [] = []
  values ((k, none) ∷ d) = values d
  values ((k, some v) ∷ d) = (k, v) ∷ values d

  -- `current.update(values)` at one key
  abbrev pub updated : Dict W → String → W → W
  updated vs k old = elim (get k vs) [ none ↦ old | some v ↦ v ]

module _ {ℓ} {W : Type ℓ} ⦃f : Float W⦄ where
  -- negative, NaN or infinite
  unfoldable pub is_bad : W → Bool
  is_bad v = f.lt v (f.lit 0 0) || not (eq v v) || eq v f.inf || eq v (f.neg f.inf)

  unfoldable pub first_bad : Dict W → Option String
  first_bad [] = none
  first_bad ((k, v) ∷ d) = if is_bad v then some k else first_bad d

  unfoldable pub merge : ArumWeights W → Dict W → ArumWeights W
  merge w vs = record {
    version = w.version;
    w1_severity = updated vs "w1_severity" w.w1_severity;
    w2_confidence = updated vs "w2_confidence" w.w2_confidence;
    w3_agent_agreement = updated vs "w3_agent_agreement" w.w3_agent_agreement;
    w4_historical_actionability =
        updated vs "w4_historical_actionability" w.w4_historical_actionability;
    w5_repository_relevance = updated vs "w5_repository_relevance" w.w5_repository_relevance;
    w6_context_relevance = updated vs "w6_context_relevance" w.w6_context_relevance;
    w7_redundancy = updated vs "w7_redundancy" w.w7_redundancy;
    w8_historical_rejection = updated vs "w8_historical_rejection" w.w8_historical_rejection;
  }

  unfoldable pub with_overrides : ArumWeights W → Dict (Option W) → Result (ArumWeights W)
  unfolding merge unknown values first_bad is_bad checked
  with_overrides w overrides =
      checked (unknown overrides) (first_bad (values overrides)) (merge w (values overrides))

  -- the dataclass's defaults
  unfoldable pub default_weights : ArumWeights W
  default_weights = record {
    version = default_weights_version;
    w1_severity = f.lit 30 2;
    w2_confidence = f.lit 20 2;
    w3_agent_agreement = f.lit 15 2;
    w4_historical_actionability = f.lit 15 2;
    w5_repository_relevance = f.lit 10 2;
    w6_context_relevance = f.lit 10 2;
    w7_redundancy = f.lit 8 2;
    w8_historical_rejection = f.lit 10 2;
  }

  unfoldable pub load_weights : String → Option (Dict (Option W)) → Result (ArumWeights W)
  unfolding default_weights with_overrides
  load_weights version repo_overrides =
      if not (version == default_weights_version)
      then err (unknown_version version)
      else elim repo_overrides [
        | none ↦ ok default_weights
        | some [] ↦ ok default_weights
        | some (o ∷ os) ↦ with_overrides default_weights (o ∷ os)
      ]
