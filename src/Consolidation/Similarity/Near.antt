-- ===== src/Consolidation/Similarity/Near.antt =====
-- The tests on lines and categories of backend/app/consolidation/similarity.py.
use adaptive_multi_agent_pr.Prelude.{
  refl, ℕ, suc, ◌-◌, ◌≤◌, ◌<◌, String, ◌≡◌, true, false, Bool, ◌||◌, ◌⊎◌, inl, inr, ◌==◌,
  if◌then◌else◌, leb, some, arith, eq_iff, eq_refl,
}
use adaptive_multi_agent_pr.Prelude.Int.{pos, +ℤ_parts, -ℤ_parts}
use adaptive_multi_agent_pr.Prelude.Text.{
  append, starts_with, starts_with-append, starts_with-split,
}
use adaptive_multi_agent_pr.Consolidation.Similarity.{line_ranges_close, categories_aligned}

-- Two ranges of lines of which the first ends before the second starts are close, in either order,
-- exactly when at most `gap` lines lie strictly between them.
pub line_ranges_close-gap :
    (a_low a_high b_low b_high gap : ℕ)
    → a_low ≤ a_high
    → a_high < b_low
    → b_low ≤ b_high
    → (line_ranges_close
          (some (pos a_low))
          (some (pos a_high))
          (some (pos b_low))
          (some (pos b_high))
          (pos gap)
        ≡ leb (b_low - suc a_high) gap)
      × (line_ranges_close
            (some (pos b_low))
            (some (pos b_high))
            (some (pos a_low))
            (some (pos a_high))
            (pos gap)
          ≡ leb (b_low - suc a_high) gap)
unfolding line_ranges_close
line_ranges_close-gap a_low a_high b_low b_high gap h k l = (
  ground (
    arith,
    -ℤ_parts (pos b_low) (pos a_high),
    -ℤ_parts (pos a_low) (pos b_high),
    +ℤ_parts (pos gap) (pos 1),
  ),
  ground (
    arith,
    -ℤ_parts (pos b_low) (pos a_high),
    -ℤ_parts (pos a_low) (pos b_high),
    +ℤ_parts (pos gap) (pos 1),
  ),
)

-- `a` is `b` with a path below it.
abbrev pub IsUnder : String → String → Type 0
IsUnder a b = (rest : String) × (a ≡ append (append b "/") rest)

-- The alignment of categories is symmetric, a category is aligned with itself and with each category
-- below it, and no others are aligned: of two aligned categories that differ, one is the other, a slash
-- and a rest.
pub categories_aligned_lem :
    (a b path : String)
    → (categories_aligned a b ≡ categories_aligned b a)
      × (categories_aligned a a ≡ true)
      × (categories_aligned (append (append a "/") path) a ≡ true)
      × ((categories_aligned a b ≡ false) ⊎ ((a ≡ b) ⊎ (IsUnder a b ⊎ IsUnder b a)))
unfolding categories_aligned
categories_aligned_lem a b path = (
  ground (arith, eq_iff a b, eq_iff b a),
  ground (arith, eq_refl a),
  ground (arith, starts_with-append (append a "/") path),
  cases (a == b) refl (starts_with a (append b "/")) refl (starts_with b (append a "/")) refl,
)
  where
    cases :
        (x : Bool)
        → (a == b) ≡ x
        → (y : Bool) → starts_with a (append b "/") ≡ y
        → (z : Bool) → starts_with b (append a "/") ≡ z
        → ((if x then true else y || z) ≡ false) ⊎ ((a ≡ b) ⊎ (IsUnder a b ⊎ IsUnder b a))
    cases true e y f z g = inr (inl ((eq_iff a b).0 e))
    cases false e true f z g = inr (inr (inl (starts_with-split a (append b "/") f)))
    cases false e false f true g = inr (inr (inr (starts_with-split b (append a "/") g)))
    cases false e false f false g = inl refl
