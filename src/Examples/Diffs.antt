-- ===== src/Examples/Diffs.antt =====
-- Examples for the diff slicer, backend/app/agents/diff_utils.py.
use adaptive_multi_agent_pr.Prelude.{
  ℕ, ◌≤◌, max, String, ◌≡◌, Option, none, some, List, [], ◌∷◌, length, map, All, ◌==◌,
  if◌then◌else◌, refl,
}
use adaptive_multi_agent_pr.Agents.Diff.{Header, parse_patch}
use adaptive_multi_agent_pr.Agents.Diff.Lines.{hunk_of, sections, parse_patch-sections}
use adaptive_multi_agent_pr.Agents.Diff.Slices.{changed_file_slices}
use adaptive_multi_agent_pr.Agents.Diff.Slices.Windows.{IsSliceOf, changed_file_slices-All}

abbrev same : String → String
same line = line

abbrev match_header : String → Option Header
match_header line =
    if line == "@@ -4,2 +7,3 @@"
    then some (record {
      old_start = 4;
      old_count = some 2;
      new_start = 7;
      new_count = some 3;
      text = line;
    })
    else none

abbrev patch_lines : String → List String
patch_lines patch =
    "@@ -4,2 +7,3 @@" ∷ " kept" ∷ "+new" ∷ "-old" ∷ "+newer" ∷ "@@ broken" ∷ "+lost" ∷ []

abbrev cut : ℕ → String → String
cut n text = text

-- the added lines stand at 8 and 9 of the new file
added_at :
    map (λ h. h.added_lines) (parse_patch same match_header patch_lines "diff") ≡ (8 ∷ 9 ∷ []) ∷ []
unfolding parse_patch
added_at = refl

parse_patch-sections_example :
    parse_patch same match_header patch_lines "diff"
    ≡ map hunk_of (sections same match_header (patch_lines "diff")).1
parse_patch-sections_example = parse_patch-sections same match_header patch_lines "diff"

changed_file_slices-All_example :
    let slices =
      changed_file_slices same match_header patch_lines cut "a.py"
        (some "diff")
        (some "modified")
        6000
        12 in
    (length slices ≤ max 1 12) × All (IsSliceOf "a.py") slices
changed_file_slices-All_example =
    changed_file_slices-All same match_header patch_lines cut "a.py" (some "diff") (some "modified")
      6000 12
