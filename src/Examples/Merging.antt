-- ===== src/Examples/Merging.antt =====
-- Examples for backend/app/consolidation.
use adaptive_multi_agent_pr.Prelude.{
  ◌⊎◌, suc, ◌-◌, String, ◌≡◌, refl, true, false, leb, none, some, List, [], ◌∷◌, arith,
}
use adaptive_multi_agent_pr.Prelude.Int.{ℤ, pos, ◌+ℤ◌, ◌-ℤ◌}
use adaptive_multi_agent_pr.Prelude.Float.{Micros, micros_float}
use adaptive_multi_agent_pr.Prelude.Text.{append}
use adaptive_multi_agent_pr.Consolidation.Datatypes.{FindingWrite}
use adaptive_multi_agent_pr.Consolidation.Similarity.{line_ranges_close, categories_aligned}
use adaptive_multi_agent_pr.Consolidation.Similarity.Near.{
  line_ranges_close-gap, categories_aligned_lem, IsUnder,
}
use adaptive_multi_agent_pr.Consolidation.Redundancy.{Grouping, apply_groups}
use adaptive_multi_agent_pr.Consolidation.Redundancy.Groups.{IsSound, apply_groups-IsSound}

abbrev finding : String → ℤ → FindingWrite Micros
finding id line = record {
  id = id;
  agent_key = "security";
  agent_id = "1";
  review_id = "r1";
  repository_id = "repo";
  file_path = "a.py";
  line_start = some line;
  line_end = none;
  category = "security/xss";
  severity = "High";
  confidence = pos 900_000;
  title = "t";
  description = "d";
  suggested_fix = none;
  reason_summary = "r";
  duplicate_group = none;
}

abbrev findings : List (FindingWrite Micros)
findings = finding "a" (pos 3) ∷ finding "b" (pos 4) ∷ finding "c" (pos 80) ∷ []

abbrev vectors : List (List Micros)
vectors = (pos 1_000_000 ∷ []) ∷ (pos 1_000_000 ∷ []) ∷ (pos 1_000_000 ∷ []) ∷ []

apply_groups-IsSound_example :
    (g : Grouping Micros) × (apply_groups
        (λ x. x)
        (λ x. x.id)
        (pos 500_000)
        (pos 2)
        findings
        vectors
      ≡ some g)
    × IsSound g
apply_groups-IsSound_example =
    apply_groups-IsSound (λ x. x) (λ x. x.id) (pos 500_000) (pos 2) findings vectors refl

line_ranges_close-gap_example :
    (line_ranges_close (some (pos 1)) (some (pos 5)) (some (pos 8)) (some (pos 9)) (pos 3)
      ≡ leb (8 - suc 5) 3)
    × (line_ranges_close (some (pos 8)) (some (pos 9)) (some (pos 1)) (some (pos 5)) (pos 3)
        ≡ leb (8 - suc 5) 3)
line_ranges_close-gap_example =
    line_ranges_close-gap 1 5 8 9 3 (ground arith) (ground arith) (ground arith)

categories_aligned_lem_example :
    (categories_aligned "security" "quality" ≡ categories_aligned "quality" "security")
    × (categories_aligned "security" "security" ≡ true)
    × (categories_aligned (append (append "security" "/") "xss") "security" ≡ true)
    × ((categories_aligned "security" "quality" ≡ false)
        ⊎ ((◌≡◌ {A = String} "security" "quality")
            ⊎ (IsUnder "security" "quality" ⊎ IsUnder "quality" "security")))
categories_aligned_lem_example = categories_aligned_lem "security" "quality" "xss"

-- one range deep inside the other does not count as close
nested :
    line_ranges_close (some (pos 1)) (some (pos 100)) (some (pos 40)) (some (pos 60)) (pos 3)
    ≡ false
unfolding line_ranges_close ◌-ℤ◌ ◌+ℤ◌
nested = refl
