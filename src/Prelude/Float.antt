-- ===== src/Prelude/Float.antt =====
-- Python's `float`: the operations that the program uses, and the laws of IEEE 754 that its theorems
-- name. The carrier of a lawful instance leaves out NaN, on which no order law holds.
use Prim.Native.Nat.{ℕ, zero, suc, ◌*◌, ◌/◌, ◌^◌, ◌≤◌}
use mathlib.Core.Path.{◌≡◌, refl}
use mathlib.Core.Logic.{◌⊎◌}
use mathlib.Core.Bool.{Bool, true, false, not, ◌&&◌}
use native.Mathlib.Nat.{le_refl, mul-le-mul}
use native.Mathlib.Omega.{arith}
use adaptive_multi_agent_pr.Prelude.Tests.{if◌then◌else◌}
use adaptive_multi_agent_pr.Prelude.Int.{
  ℤ, pos, negsuc, ◌+ℤ◌, ◌-ℤ◌, leb_ℤ, ltb_ℤ, negate, scaled, +ℤ_parts, -ℤ_parts,
}

pub record Float {ℓ} (W : Type ℓ) : Type ℓ where
  -- the literal m / 10^k, and `float("inf")`
  pub lit : ℕ → ℕ → W
  pub inf : W
  pub le : W → W → Bool
  pub lt : W → W → Bool
  pub neg : W → W
  pub add : W → W → W
  pub sub : W → W → W
  pub mul : W → W → W
  pub div : W → W → W
  -- `round(x, digits)`
  pub round : W → ℕ → W

module _ {ℓ} {W : Type ℓ} ⦃f : Float W⦄ where
  -- `x == y`: what is neither below nor above (0.0 and -0.0 are equal and differ)
  abbrev pub eq : W → W → Bool
  eq x y = f.le x y && f.le y x

  -- Python's `min` and `max` return the first argument on a tie.
  abbrev pub fmin : W → W → W
  fmin x y = if f.lt y x then y else x

  abbrev pub fmax : W → W → W
  fmax x y = if f.lt x y then y else x

  infix 4 ◌≼◌
  abbrev pub ◌≼◌ : W → W → Type 0
  x ≼ y = f.le x y ≡ true

-- The comparisons away from NaN.
pub record IsOrdered {ℓ} (W : Type ℓ) ⦃f : Float W⦄ : Type ℓ where
  pub le_refl : (x : W) → x ≼ x
  pub le_trans : (x y z : W) → x ≼ y → y ≼ z → x ≼ z
  pub le_total : (x y : W) → (x ≼ y) ⊎ (y ≼ x)
  pub lt-eq-not-le : (x y : W) → f.lt x y ≡ not (f.le y x)
  -- a literal of an exact value from 0 to 1 lies there
  pub lit_unit : (m k : ℕ) → m ≤ 10 ^ k → (f.lit 0 0 ≼ f.lit m k) × (f.lit m k ≼ f.lit 1 0)
  pub le-neg : (x y : W) → f.le (f.neg x) (f.neg y) ≡ f.le y x

-- Rounding to nearest is monotone, so each operation is.
pub record IsMonotone {ℓ} (W : Type ℓ) ⦃f : Float W⦄ : Type ℓ where
  pub add_mono : (x y z w : W) → x ≼ y → z ≼ w → f.add x z ≼ f.add y w
  pub sub_mono : (x y z w : W) → x ≼ y → w ≼ z → f.sub x z ≼ f.sub y w
  pub mul_mono : (c x y : W) → f.lit 0 0 ≼ c → x ≼ y → f.mul c x ≼ f.mul c y
  pub round_mono : (x y : W) (n : ℕ) → x ≼ y → f.round x n ≼ f.round y n

-- Sums from 0.0, and quotients and roundings of fractions.
pub record IsFractional {ℓ} (W : Type ℓ) ⦃f : Float W⦄ : Type ℓ where
  pub le-add_zero : (x : W) → x ≼ f.add x (f.lit 0 0)
  pub div_unit :
      (x y : W)
      → f.lit 0 0 ≼ x
      → x ≼ y
      → eq y (f.lit 0 0) ≡ false
      → (f.lit 0 0 ≼ f.div x y) × (f.div x y ≼ f.lit 1 0)
  pub round_unit :
      (n : ℕ) → (f.lit 0 0 ≼ f.round (f.lit 0 0) n) × (f.round (f.lit 1 0) n ≼ f.lit 1 0)

-- Products, complements and quotients against 0 and 1, whose results and bounds are exact.
pub record IsUnital {ℓ} (W : Type ℓ) ⦃f : Float W⦄ : Type ℓ where
  pub mul_unit :
      (x y : W)
      → f.lit 0 0 ≼ x
      → x ≼ f.lit 1 0
      → f.lit 0 0 ≼ y
      → y ≼ f.lit 1 0
      → (f.lit 0 0 ≼ f.mul x y) × (f.mul x y ≼ f.lit 1 0)
  pub sub_unit :
      (x : W)
      → f.lit 0 0 ≼ x
      → x ≼ f.lit 1 0
      → (f.lit 0 0 ≼ f.sub (f.lit 1 0) x) × (f.sub (f.lit 1 0) x ≼ f.lit 1 0)
  pub sub_over : (x : W) → f.lit 1 0 ≼ x → f.lit 0 0 ≼ f.sub x (f.lit 1 0)
  pub div_over : (x y : W) → f.le y (f.lit 0 0) ≡ false → y ≼ x → f.lit 1 0 ≼ f.div x y
  pub lit_over : (n : ℕ) → 1 ≤ n → (f.lit 1 0 ≼ f.lit n 0) × (f.le (f.lit n 0) (f.lit 0 0) ≡ false)

-- The laws can be met: whole millionths.
abbrev pub Micros : Type 0
Micros = ℤ

-- The quotient of numbers in millionths, cut towards zero; 0 for a divisor 0.
unfoldable pub ratio : Micros → Micros → Micros
ratio (pos a) (pos zero) = pos 0
ratio (pos a) (pos (suc b)) = pos (a * 1_000_000 / suc b)
ratio (pos a) (negsuc b) = negate (pos (a * 1_000_000 / suc b))
ratio (negsuc a) (pos zero) = pos 0
ratio (negsuc a) (pos (suc b)) = negate (pos (suc a * 1_000_000 / suc b))
ratio (negsuc a) (negsuc b) = pos (suc a * 1_000_000 / suc b)

instance abbrev pub micros_float : Float Micros
micros_float = record {
  lit = λ m k. pos (m * 1_000_000 / 10 ^ k);
  inf = pos (10 ^ 30);
  le = leb_ℤ;
  lt = ltb_ℤ;
  neg = negate;
  add = ◌+ℤ◌;
  sub = ◌-ℤ◌;
  mul = scaled;
  div = ratio;
  round = λ x n. x;
}

unit_part : (m d : ℕ) → m ≤ d → m * 1_000_000 / d ≤ 1_000_000
unit_part m d h = grind arith

lit_micros :
    (m k : ℕ)
    → m ≤ 10 ^ k
    → (leb_ℤ (pos 0) (pos (m * 1_000_000 / 10 ^ k)) ≡ true)
      × (leb_ℤ (pos (m * 1_000_000 / 10 ^ k)) (pos 1_000_000) ≡ true)
lit_micros m k h = ground (arith, unit_part m (10 ^ k) h)

pub Micros-IsOrdered : IsOrdered Micros
Micros-IsOrdered = record {
  le_refl = λ x. ground arith;
  le_trans = λ x y z h k. ground arith;
  le_total = λ x y. ground arith;
  lt-eq-not-le = λ x y. ground arith;
  lit_unit = lit_micros;
  le-neg = λ x y. ground arith;
}

add_micros :
    (x y z w : Micros) → leb_ℤ x y ≡ true → leb_ℤ z w ≡ true → leb_ℤ (x +ℤ z) (y +ℤ w) ≡ true
add_micros x y z w h k = ground (arith, +ℤ_parts x z, +ℤ_parts y w)

sub_micros :
    (x y z w : Micros) → leb_ℤ x y ≡ true → leb_ℤ w z ≡ true → leb_ℤ (x -ℤ z) (y -ℤ w) ≡ true
sub_micros x y z w h k = ground (arith, -ℤ_parts x z, -ℤ_parts y w)

product_le : (c a b : ℕ) → a ≤ b → c * a / 1_000_000 ≤ c * b / 1_000_000
product_le c a b h = omega (arith, mul-le-mul (le_refl c) h)

mul_micros :
    (c x y : Micros)
    → leb_ℤ (pos 0) c ≡ true
    → leb_ℤ x y ≡ true
    → leb_ℤ (scaled c x) (scaled c y) ≡ true
unfolding scaled
mul_micros (pos c) (pos a) (pos b) h k = ground (arith, product_le c a b (ground arith))
mul_micros (pos c) (pos a) (negsuc b) h k = ground arith
mul_micros (pos c) (negsuc a) (pos b) h k = ground arith
mul_micros (pos c) (negsuc a) (negsuc b) h k =
    ground (arith, product_le c (suc b) (suc a) (ground arith))
mul_micros (negsuc c) x y h k = ground arith

pub Micros-IsMonotone : IsMonotone Micros
Micros-IsMonotone = record {
  add_mono = add_micros;
  sub_mono = sub_micros;
  mul_mono = mul_micros;
  round_mono = λ x y n h. h;
}

quotient_le : (a b : ℕ) → a ≤ suc b → a * 1_000_000 / suc b ≤ 1_000_000
quotient_le a b h = grind arith

ratio_unit :
    (x y : Micros)
    → leb_ℤ (pos 0) x ≡ true
    → leb_ℤ x y ≡ true
    → eq y (pos 0) ≡ false
    → (leb_ℤ (pos 0) (ratio x y) ≡ true) × (leb_ℤ (ratio x y) (pos 1_000_000) ≡ true)
unfolding ratio
ratio_unit (pos a) (pos zero) h k l = ground arith
ratio_unit (pos a) (pos (suc b)) h k l = ground (arith, quotient_le a b (ground arith))
ratio_unit (pos a) (negsuc b) h k l = ground arith
ratio_unit (negsuc a) y h k l = ground arith

le-add_nought : (x : Micros) → leb_ℤ x (x +ℤ pos 0) ≡ true
le-add_nought x = ground (arith, +ℤ_parts x (pos 0))

pub Micros-IsFractional : IsFractional Micros
Micros-IsFractional = record {
  le-add_zero = le-add_nought;
  div_unit = ratio_unit;
  round_unit = λ n. (refl, refl);
}

unit_product : (a b : ℕ) → a ≤ 1_000_000 → b ≤ 1_000_000 → a * b / 1_000_000 ≤ 1_000_000
unit_product a b h k = omega (arith, product_le a b 1_000_000 k)

over_quotient : (a b : ℕ) → suc b ≤ a → 1_000_000 ≤ a * 1_000_000 / suc b
over_quotient a b h = grind arith

mul_unit_micros :
    (x y : Micros)
    → leb_ℤ (pos 0) x ≡ true
    → leb_ℤ x (pos 1_000_000) ≡ true
    → leb_ℤ (pos 0) y ≡ true
    → leb_ℤ y (pos 1_000_000) ≡ true
    → (leb_ℤ (pos 0) (scaled x y) ≡ true) × (leb_ℤ (scaled x y) (pos 1_000_000) ≡ true)
unfolding scaled
mul_unit_micros (pos a) (pos b) h k l m =
    ground (arith, unit_product a b (ground arith) (ground arith))
mul_unit_micros (pos a) (negsuc b) h k l m = ground arith
mul_unit_micros (negsuc a) y h k l m = ground arith

div_over_micros :
    (x y : Micros)
    → leb_ℤ y (pos 0) ≡ false
    → leb_ℤ y x ≡ true
    → leb_ℤ (pos 1_000_000) (ratio x y) ≡ true
unfolding ratio
div_over_micros (pos a) (pos zero) h k = ground arith
div_over_micros (pos a) (pos (suc b)) h k = ground (arith, over_quotient a b (ground arith))
div_over_micros (negsuc a) (pos b) h k = ground arith
div_over_micros x (negsuc b) h k = ground arith

lit_over_micros :
    (n : ℕ)
    → 1 ≤ n
    → (leb_ℤ (pos 1_000_000) (pos (n * 1_000_000 / 10 ^ 0)) ≡ true)
      × (leb_ℤ (pos (n * 1_000_000 / 10 ^ 0)) (pos 0) ≡ false)
lit_over_micros n h = ground arith

pub Micros-IsUnital : IsUnital Micros
Micros-IsUnital = record {
  mul_unit = mul_unit_micros;
  sub_unit = λ x h k. ground (arith, -ℤ_parts (pos 1_000_000) x);
  sub_over = λ x h. ground (arith, -ℤ_parts x (pos 1_000_000));
  div_over = div_over_micros;
  lit_over = lit_over_micros;
}
