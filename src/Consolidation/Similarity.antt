-- ===== src/Consolidation/Similarity.antt =====
-- backend/app/consolidation/similarity.py: when two findings may be about the same defect. `sqrt` is
-- Python's `math.sqrt`.
pub mod Near
use adaptive_multi_agent_pr.Prelude.{
  ℕ, suc, ◌+◌, min, String, Bool, true, false, ◌||◌, Option, none, some, List, [], ◌∷◌, ◌==◌,
  if◌then◌else◌,
}
use adaptive_multi_agent_pr.Prelude.Int.{ℤ, pos, negsuc, ◌+ℤ◌, ◌-ℤ◌, leb_ℤ}
use adaptive_multi_agent_pr.Prelude.Float.{Float, eq}
use adaptive_multi_agent_pr.Prelude.Text.{append, starts_with}

-- `abs(x)`
abbrev pub abs : ℤ → ℕ
abs (pos n) = n
abs (negsuc n) = suc n

-- `_bounded`: a bound that is missing is the other one
abbrev pub bounded : Option ℤ → Option ℤ → Option (ℤ × ℤ)
bounded none none = none
bounded none (some b) = some (b, b)
bounded (some a) none = some (a, a)
bounded (some a) (some b) = some (a, b)

abbrev pub ranges_close : ℤ → Option (ℤ × ℤ) → Option (ℤ × ℤ) → Bool
ranges_close gap none b = true
ranges_close gap (some a) none = true
ranges_close gap (some (a_low, a_high)) (some (b_low, b_high)) =
    leb_ℤ (pos (min (abs (b_low -ℤ a_high)) (abs (a_low -ℤ b_high)))) (gap +ℤ pos 1)

unfoldable pub line_ranges_close : Option ℤ → Option ℤ → Option ℤ → Option ℤ → ℤ → Bool
line_ranges_close a_start a_end b_start b_end max_line_gap =
    ranges_close max_line_gap (bounded a_start a_end) (bounded b_start b_end)

unfoldable pub categories_aligned : String → String → Bool
categories_aligned a b =
    if a == b then true else starts_with a (append b "/") || starts_with b (append a "/")

module _ {ℓ} {W : Type ℓ} ⦃f : Float W⦄ (sqrt : W → W) where
  -- the three sums of the loop, and whether the vectors have the same length
  abbrev sums : List W → List W → W × W × W → Option (W × W × W)
  sums [] [] s = some s
  sums (x ∷ xs) (y ∷ ys) (dot, norm_a, norm_b) =
      sums xs ys (f.add dot (f.mul x y), f.add norm_a (f.mul x x), f.add norm_b (f.mul y y))
  sums _ _ s = none

  abbrev quotient : W × W × W → W
  quotient (dot, norm_a, norm_b) =
      if eq norm_a (f.lit 0 0) || eq norm_b (f.lit 0 0)
      then f.lit 0 0
      else f.div dot (f.mul (sqrt norm_a) (sqrt norm_b))

  unfoldable pub cosine_similarity : List W → List W → W
  cosine_similarity [] b = f.lit 0 0
  cosine_similarity (x ∷ xs) b = elim (sums (x ∷ xs) b (f.lit 0 0, f.lit 0 0, f.lit 0 0)) [
    | none ↦ f.lit 0 0
    | some s ↦ quotient s
  ]
