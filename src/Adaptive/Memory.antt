-- ===== src/Adaptive/Memory.antt =====
-- backend/app/adaptive/decay.py and memory.py: the decayed shares of a repository's memory. `exp` is
-- Python's `math.exp`.
pub mod Shares
use adaptive_multi_agent_pr.Prelude.{
  ℕ, String, Bool, true, false, not, ◌||◌, Option, none, some, List, [], ◌∷◌, ◌++◌, map, select,
  length, ◌==◌, if◌then◌else◌,
}
use adaptive_multi_agent_pr.Prelude.Float.{Float, eq}
use adaptive_multi_agent_pr.Prelude.Dict.{Dict, get, put, contains}
use adaptive_multi_agent_pr.Prelude.Text.{text_lt, before_last_slash}
use adaptive_multi_agent_pr.Prelude.Sort.{sort}
use adaptive_multi_agent_pr.Prelude.Fallible.{Fallible, ok, raised, ◌>>=◌}
use adaptive_multi_agent_pr.Adaptive.Features.{Entry, Value, number}
use adaptive_multi_agent_pr.Adaptive.Feedback.{
  FeedbackEvent, FeedbackOutcome, accepted, fixed, rejected, dismissed,
}

-- the two `ValueError`s of `decay_weight`
pub data DecayError : Type 0 where
  negative_age bad_parameters : DecayError

unfoldable pub is_accepted : FeedbackOutcome → Bool
is_accepted accepted = true
is_accepted fixed = true
is_accepted _ = false

unfoldable pub is_rejected : FeedbackOutcome → Bool
is_rejected rejected = true
is_rejected dismissed = true
is_rejected _ = false

-- `d[key].append(x)` on a `defaultdict(list)`
unfoldable pub append_at {ℓ} : {A : Type ℓ} → String → A → Dict (List A) → Dict (List A)
append_at key x d = put key (elim (get key d) [ none ↦ x ∷ [] | some xs ↦ xs ++ x ∷ [] ]) d

-- the category, and its parent if it has one
abbrev pub keys_of : String → List String
keys_of category = category ∷ elim (before_last_slash category) [ none ↦ [] | some p ↦ p ∷ [] ]

-- one of the two dictionaries `accepted` and `rejected`
abbrev pub Shares {ℓ} : Type ℓ → Type ℓ
Shares W = Dict (List (W × Bool))

module _ {ℓ} {W : Type ℓ} ⦃f : Float W⦄ where
  abbrev pub share : W × W → W
  share (total, positive) = if eq total (f.lit 0 0) then f.lit 0 0 else f.div positive total

  -- `3.0 * tau_days if horizon_days is None else horizon_days`
  abbrev pub horizon_of : W → Option W → W
  horizon_of tau_days none = f.mul (f.lit 3 0) tau_days
  horizon_of tau_days (some horizon) = horizon

  -- one key of one event, in both dictionaries
  unfoldable pub add_keys :
      FeedbackEvent W → List String → Shares W × Shares W → Shares W × Shares W
  unfolding append_at is_accepted is_rejected
  add_keys e [] d = d
  add_keys e (key ∷ keys) (acc, rej) = add_keys e keys (
    append_at key (e.age_days, is_accepted e.outcome) acc,
    append_at key (e.age_days, is_rejected e.outcome) rej,
  )

  unfoldable pub is_outside : W → FeedbackEvent W → Bool
  is_outside horizon e = f.lt e.age_days (f.lit 0 0) || f.le horizon e.age_days

  unfoldable pub collect : W → List (FeedbackEvent W) → Shares W × Shares W → Shares W × Shares W
  unfolding add_keys is_outside
  collect horizon [] d = d
  collect horizon (e ∷ es) d =
      collect horizon es (if is_outside horizon e then d else add_keys e (keys_of e.category) d)

  abbrev keys_in : Shares W → List String
  keys_in d = map (λ p. p.0) d

  -- `sorted(set(accepted) | set(rejected))`; the keys of each are distinct
  unfoldable pub categories_of : Shares W × Shares W → List String
  categories_of (acc, rej) =
      sort text_lt (keys_in acc ++ select (λ k. not (contains (keys_in acc) k)) (keys_in rej))

  abbrev pub at : String → Shares W → List (W × Bool)
  at key d = elim (get key d) [ none ↦ [] | some xs ↦ xs ]

module _ {ℓ} {W : Type ℓ} ⦃f : Float W⦄ (exp : W → W) where
  unfoldable pub decay_weight : W → W → W → Fallible DecayError W
  decay_weight age_days tau_days lam =
      if f.lt age_days (f.lit 0 0)
      then raised negative_age
      else if f.le tau_days (f.lit 0 0) || f.lt lam (f.lit 0 0)
      then raised bad_parameters
      else ok (exp (f.div (f.mul (f.neg lam) age_days) tau_days))

  -- the loop of `weighted_share`, from its two sums on
  unfoldable pub sum_weights : W → W → List (W × Bool) → W × W → Fallible DecayError (W × W)
  unfolding decay_weight
  sum_weights tau_days lam [] sums = ok sums
  sum_weights tau_days lam ((age_days, is_positive) ∷ events) (total, positive) =
      decay_weight age_days tau_days lam >>= λ weight.
      sum_weights tau_days lam events
        (f.add total weight, if is_positive then f.add positive weight else positive)

  unfoldable pub weighted_share : W → W → List (W × Bool) → Fallible DecayError W
  unfolding sum_weights
  weighted_share tau_days lam events =
      sum_weights tau_days lam events (f.lit 0 0, f.lit 0 0) >>= λ sums. ok (share sums)

  -- the second loop
  unfoldable pub shares_loop :
      W → W → Shares W × Shares W → List String → Fallible DecayError (Dict (Entry W))
  unfolding weighted_share
  shares_loop tau_days lam d [] = ok []
  shares_loop tau_days lam (acc, rej) (key ∷ keys) =
      weighted_share tau_days lam (at key acc) >>= λ a.
      weighted_share tau_days lam (at key rej) >>= λ r.
      shares_loop tau_days lam (acc, rej) keys >>= λ rest. ok (
        (
          key,
          ("accepted_share", number (f.round a 4)) ∷ ("rejected_share", number (f.round r 4)) ∷ [],
        )
        ∷ rest)

  unfoldable pub aggregate_category_shares :
      List (FeedbackEvent W) → W → W → Option W → Fallible DecayError (Dict (Entry W))
  unfolding collect shares_loop categories_of
  aggregate_category_shares events tau_days lam horizon_days =
      let d = collect (horizon_of tau_days horizon_days) events ([], []) in
      shares_loop tau_days lam d (categories_of d)
