-- ===== src/Adaptive/Memory/Shares.antt =====
-- The shares of backend/app/adaptive/memory.py: their computation and their range.
use mathlib.Core.Path.{subst}
use mathlib.Core.Option.{some-injective}
use adaptive_multi_agent_pr.Prelude.{
  ◌≡◌, refl, String, Bool, true, false, Option, none, some, List, [], ◌∷◌, arith, if◌then◌else◌,
  All, All-append, Bool-cases, Option-cases, inl, inr, ◌==◌,
}
use adaptive_multi_agent_pr.Prelude.Float.{Float, IsOrdered, IsMonotone, IsFractional, ◌≼◌, eq}
use adaptive_multi_agent_pr.Prelude.Dict.{Dict, get, put}
use adaptive_multi_agent_pr.Prelude.Fallible.{ok}
use adaptive_multi_agent_pr.Adaptive.Features.{Entry, number}
use adaptive_multi_agent_pr.Adaptive.Features.Bounds.{InUnit}
use adaptive_multi_agent_pr.Adaptive.Feedback.{FeedbackEvent}
use adaptive_multi_agent_pr.Adaptive.Memory.{
  Shares, append_at, keys_of, decay_weight, sum_weights, share, weighted_share, at, add_keys,
  is_outside, collect, shares_loop, categories_of, horizon_of, aggregate_category_shares,
}

module _ {ℓ} {V : Type ℓ} where
  pub put-All {κ} :
      (P : V → Type κ) (k : String) (v : V) (d : Dict V)
      → P v
      → All (λ p. P p.1) d
      → All (λ p. P p.1) (put k v d)
  unfolding put
  put-All P k v [] h hs = (h, tt)
  put-All P k v ((j, w) ∷ d) h hs = elim (Bool-cases (j == k)) [
    | inl e ↦ rw e (h, hs.1)
    | inr e ↦ rw e (hs.0, put-All P k v d h hs.1)
  ]

  pub get-All {κ} :
      (P : V → Type κ) (k : String) (d : Dict V) (v : V)
      → All (λ p. P p.1) d
      → get k d ≡ some v
      → P v
  unfolding get
  get-All P k [] v hs = λ e. cc
  get-All P k ((j, w) ∷ d) v hs = pick (j == k) (get-All P k d v hs.1)
    where
      pick : (b : Bool) → (get k d ≡ some v → P v) → (if b then some w else get k d) ≡ some v → P v
      pick true rest e = subst P (some-injective w v e) hs.0
      pick false rest e = rest e

module _ {ℓ} {W : Type ℓ} ⦃f : Float W⦄ where
  -- no age is negative
  abbrev IsAged : List (W × Bool) → Type 0
  IsAged xs = All (λ e. f.lt e.0 (f.lit 0 0) ≡ false) xs

  -- an entry holds two shares from 0 to 1
  abbrev pub IsShares : Entry W → Type ℓ
  IsShares entry =
      (a : W) × (r : W) × (entry ≡ ("accepted_share", number a) ∷ ("rejected_share", number r) ∷ [])
      × InUnit a
      × InUnit r

module _ {ℓ} {W : Type ℓ} ⦃f : Float W⦄ where
  or_nil-IsAged :
      (o : Option (List (W × Bool)))
      → ((xs : List (W × Bool)) → o ≡ some xs → IsAged xs)
      → IsAged (elim o [ none ↦ [] | some xs ↦ xs ])
  or_nil-IsAged none h = tt
  or_nil-IsAged (some xs) h = h xs refl

  at-IsAged : (key : String) (d : Shares W) → All (λ p. IsAged p.1) d → IsAged (at key d)
  at-IsAged key d h = or_nil-IsAged (get key d) (λ xs. get-All IsAged key d xs h)

  append_at-IsAged :
      (key : String) (age : W) (b : Bool) (d : Shares W)
      → f.lt age (f.lit 0 0) ≡ false
      → All (λ p. IsAged p.1) d
      → All (λ p. IsAged p.1) (append_at key (age, b) d)
  unfolding append_at
  append_at-IsAged key age b d h hs = elim (Option-cases (get key d)) [
    | inl e ↦ rw e (put-All IsAged key _ d (h, tt) hs)
    | inr (xs, e) ↦
        rw e (put-All IsAged key _ d (All-append _ xs _ (get-All IsAged key d xs hs e) (h, tt)) hs)
  ]

  abbrev BothAged : Shares W × Shares W → Type 0
  BothAged d = All (λ p. IsAged p.1) d.0 × All (λ p. IsAged p.1) d.1

  add_keys-IsAged :
      (e : FeedbackEvent W) (keys : List String) (d : Shares W × Shares W)
      → f.lt e.age_days (f.lit 0 0) ≡ false
      → BothAged d
      → BothAged (add_keys e keys d)
  unfolding add_keys
  add_keys-IsAged e [] d h hs = hs
  add_keys-IsAged e (key ∷ keys) (acc, rej) h hs =
      add_keys-IsAged e keys _ h
        (append_at-IsAged key e.age_days _ acc h hs.0, append_at-IsAged key e.age_days _ rej h hs.1)

  if-BothAged :
      (b : Bool) (c d : Shares W × Shares W)
      → (b ≡ false → BothAged c)
      → BothAged d
      → BothAged (if b then d else c)
  if-BothAged true c d h k = k
  if-BothAged false c d h k = h refl

  is_outside-aged :
      (horizon : W) (e : FeedbackEvent W)
      → is_outside horizon e ≡ false
      → f.lt e.age_days (f.lit 0 0) ≡ false
  unfolding is_outside
  is_outside-aged horizon e h = ground arith

  collect-IsAged :
      (horizon : W) (es : List (FeedbackEvent W)) (d : Shares W × Shares W)
      → BothAged d
      → BothAged (collect horizon es d)
  unfolding collect
  collect-IsAged horizon [] d hs = hs
  collect-IsAged horizon (e ∷ es) d hs = collect-IsAged horizon es _ (
      if-BothAged (is_outside horizon e) _ d
        (λ h. add_keys-IsAged e (keys_of e.category) d (is_outside-aged horizon e h) hs) hs)

module _ {ℓ} {W : Type ℓ} ⦃f : Float W⦄ (order : IsOrdered W) (mono : IsMonotone W)
    (fractions : IsFractional W) (exp : W → W) (exp_pos : (x : W) → f.lit 0 0 ≼ exp x)
    (tau_days lam : W) (tau_pos : f.le tau_days (f.lit 0 0) ≡ false)
    (lam_pos : f.lt lam (f.lit 0 0) ≡ false) where
  decay_weight-ok :
      (age : W)
      → f.lt age (f.lit 0 0) ≡ false
      → (w : W) × (decay_weight exp age tau_days lam ≡ ok w) × (f.lit 0 0 ≼ w)
  unfolding decay_weight
  decay_weight-ok age h =
      (exp (f.div (f.mul (f.neg lam) age) tau_days), rw (h, tau_pos, lam_pos) refl, exp_pos _)

  -- 0 is at most the second sum, and that at most the first
  abbrev InOrder : W × W → Type 0
  InOrder sums = (f.lit 0 0 ≼ sums.1) × (sums.1 ≼ sums.0)

  grows : (x w : W) → f.lit 0 0 ≼ w → x ≼ f.add x w
  grows x w h =
      order.le_trans _ _ _ (fractions.le-add_zero x) (mono.add_mono _ _ _ _ (order.le_refl x) h)

  step-InOrder :
      (b : Bool) (t p w : W)
      → f.lit 0 0 ≼ w
      → InOrder (t, p)
      → InOrder (f.add t w, if b then f.add p w else p)
  step-InOrder true t p w h o =
      (order.le_trans _ _ _ o.0 (grows p w h), mono.add_mono _ _ _ _ o.1 (order.le_refl w))
  step-InOrder false t p w h o = (o.0, order.le_trans _ _ _ o.1 (grows t w h))

  sum_weights-ok :
      (es : List (W × Bool)) (sums : W × W)
      → IsAged es
      → InOrder sums
      → (r : W × W) × (sum_weights exp tau_days lam es sums ≡ ok r) × InOrder r
  unfolding sum_weights
  sum_weights-ok [] sums h o = (sums, refl, o)
  sum_weights-ok ((age, b) ∷ es) (t, p) h o =
      let (w, e, pos) = decay_weight-ok age h.0 in
      let (r, q, o') =
        sum_weights-ok es (f.add t w, if b then f.add p w else p) h.1
          (step-InOrder b t p w pos o) in
      (r, rw e q, o')

  share-InUnit : (r : W × W) → InOrder r → InUnit (share r)
  share-InUnit (t, p) o = elim (Bool-cases (eq t (f.lit 0 0))) [
    | inl e ↦ rw e (order.lit_unit 0 0 (omega arith))
    | inr e ↦ rw e (fractions.div_unit p t o.0 o.1 e)
  ]

  weighted_share-ok :
      (es : List (W × Bool))
      → IsAged es
      → (s : W) × (weighted_share exp tau_days lam es ≡ ok s) × InUnit s
  unfolding weighted_share
  weighted_share-ok es h =
      let (r, e, o) =
        sum_weights-ok es (f.lit 0 0, f.lit 0 0) h (order.le_refl _, order.le_refl _) in
      (share r, rw e refl, share-InUnit r o)

  round-InUnit : (x : W) → InUnit x → InUnit (f.round x 4)
  round-InUnit x h = (
    order.le_trans _ _ _ (fractions.round_unit 4).0 (mono.round_mono _ _ 4 h.0),
    order.le_trans _ _ _ (mono.round_mono _ _ 4 h.1) (fractions.round_unit 4).1,
  )

  shares_loop-ok :
      (acc rej : Shares W) (keys : List String)
      → All (λ p. IsAged p.1) acc
      → All (λ p. IsAged p.1) rej
      → (shares : Dict (Entry W)) × (shares_loop exp tau_days lam (acc, rej) keys ≡ ok shares)
        × All (λ p. IsShares p.1) shares
  unfolding shares_loop
  shares_loop-ok acc rej [] ha hr = ([], refl, tt)
  shares_loop-ok acc rej (key ∷ keys) ha hr =
      let (a, ea, ua) = weighted_share-ok (at key acc) (at-IsAged key acc ha) in
      let (r, er, ur) = weighted_share-ok (at key rej) (at-IsAged key rej hr) in
      let (rest, e, h) = shares_loop-ok acc rej keys ha hr in
      (
        (
          key,
          ("accepted_share", number (f.round a 4)) ∷ ("rejected_share", number (f.round r 4)) ∷ [],
        )
            ∷ rest,
        rw (ea, er, e) refl,
        ((f.round a 4, f.round r 4, refl, round-InUnit a ua, round-InUnit r ur), h),
      )

-- If the decay time is positive, the decay rate not negative and the exponential never negative, and
-- the arithmetic of floats is monotone, then the shares of a repository are computed without an
-- error, whatever its events, and each lies in [0, 1].
pub aggregate_category_shares-IsShares {ℓ} :
    {W : Type ℓ} ⦃f : Float W⦄ (order : IsOrdered W) (mono : IsMonotone W)
    (fractions : IsFractional W) (exp : W → W) (exp_pos : (x : W) → f.lit 0 0 ≼ exp x)
    (tau_days lam : W) (tau_pos : f.le tau_days (f.lit 0 0) ≡ false)
    (lam_pos : f.lt lam (f.lit 0 0) ≡ false) (events : List (FeedbackEvent W))
    (horizon_days : Option W)
    → (shares : Dict (Entry W)) × (aggregate_category_shares exp events tau_days lam horizon_days
        ≡ ok shares)
      × All (λ p. IsShares p.1) shares
unfolding aggregate_category_shares
aggregate_category_shares-IsShares order mono fractions exp exp_pos tau_days lam tau_pos lam_pos
      events horizon_days =
    let d = collect (horizon_of tau_days horizon_days) events ([], []) in
    let aged = collect-IsAged (horizon_of tau_days horizon_days) events ([], []) (tt, tt) in
    shares_loop-ok order mono fractions exp exp_pos tau_days lam tau_pos lam_pos d.0 d.1
      (categories_of d) aged.0 aged.1
