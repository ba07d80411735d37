-- ===== src/Consolidation/Redundancy.antt =====
-- backend/app/consolidation/redundancy.py: the greedy grouping of findings that are about the same
-- defect. `group_id` stands for `_group_id`, a hash of the representative, and `sqrt` for `math.sqrt`.
pub mod Groups
use adaptive_multi_agent_pr.Prelude.{
  ℕ, zero, suc, ◌+◌, String, Bool, true, false, not, ◌&&◌, Option, none, some, List, [], ◌∷◌, ◌++◌,
  map, length, any, select, ltb, nat_eq, ◌==◌, if◌then◌else◌,
}
use adaptive_multi_agent_pr.Prelude.Int.{ℤ, pos, negsuc, leb_ℤ, ltb_ℤ}
use adaptive_multi_agent_pr.Prelude.Float.{Float, eq, fmax}
use adaptive_multi_agent_pr.Prelude.Sort.{sort}
use adaptive_multi_agent_pr.Prelude.Text.{text_lt}
use adaptive_multi_agent_pr.Consolidation.Datatypes.{FindingWrite, FindingGroupWrite}
use adaptive_multi_agent_pr.Consolidation.Similarity.{
  cosine_similarity, categories_aligned, line_ranges_close,
}

abbrev pub redundancy_method_hybrid : String
redundancy_method_hybrid = "hybrid: embedding cosine + category + proximity"

-- a finding with its place in the list and its vector
pub record Item {ℓ} (W : Type ℓ) : Type ℓ where
  pub index : ℕ
  pub finding : FindingWrite W
  pub vector : List W

-- `assigned` holds the places that are true in the code's list.
pub record Grouping {ℓ} (W : Type ℓ) : Type ℓ where
  pub assigned : List ℕ
  pub groups : List (FindingGroupWrite W)
  pub updated : List (FindingWrite W)

-- `assigned[k]`
abbrev pub is_assigned : ℕ → List ℕ → Bool
is_assigned k ks = any (λ j. nat_eq j k) ks

-- a missing line counts as -1
abbrev pub line_key : Option ℤ → ℤ
line_key none = negsuc 0
line_key (some n) = n

module _ {ℓ} {W : Type ℓ} where
  -- the findings and vectors by place; `none` if there are not as many of the one as of the other
  unfoldable pub enumerate : ℕ → List (FindingWrite W) → List (List W) → Option (List (Item W))
  enumerate n [] [] = some []
  enumerate n (x ∷ xs) (v ∷ vs) = elim (enumerate (suc n) xs vs) [
    | none ↦ none
    | some items ↦ some (record { index = n; finding = x; vector = v } ∷ items)
  ]
  enumerate n _ _ = none

  -- `updated[k] = replace(updated[k], duplicate_group=group_id)`
  abbrev pub regroup : ℕ → String → List (FindingWrite W) → List (FindingWrite W)
  regroup k group_id [] = []
  regroup zero group_id (x ∷ xs) = record x { duplicate_group = some group_id } ∷ xs
  regroup (suc k) group_id (x ∷ xs) = x ∷ regroup k group_id xs

  unfoldable pub regroup_all :
      List (Item W) → String → List (FindingWrite W) → List (FindingWrite W)
  regroup_all [] group_id xs = xs
  regroup_all (m ∷ ms) group_id xs = regroup_all ms group_id (regroup m.index group_id xs)

module _ {ℓ} {W : Type ℓ} ⦃f : Float W⦄ where
  -- the tuples (-confidence, file_path, line, id) in their order
  unfoldable pub item_before : Item W → Item W → Bool
  item_before a b =
      let x = a.finding in
      let y = b.finding in
      let s = line_key x.line_start in
      let t = line_key y.line_start in
      if not (eq (f.neg x.confidence) (f.neg y.confidence))
      then f.lt (f.neg x.confidence) (f.neg y.confidence)
      else if not (x.file_path == y.file_path)
      then text_lt x.file_path y.file_path
      else if not (leb_ℤ s t && leb_ℤ t s)
      then ltb_ℤ s t
      else text_lt x.id y.id

module _ {ℓ} {W : Type ℓ} ⦃f : Float W⦄ (sqrt : W → W) (group_id : FindingWrite W → String)
    (threshold : W) (max_line_gap : ℤ) where
  unfoldable pub groupable : Item W → Item W → Bool
  unfolding cosine_similarity categories_aligned line_ranges_close
  groupable a b =
      let x = a.finding in
      let y = b.finding in
      if f.lt (cosine_similarity sqrt a.vector b.vector) threshold
      then false
      else if not (categories_aligned x.category y.category)
      then false
      else if not (x.file_path == y.file_path)
      then false
      else line_ranges_close x.line_start x.line_end y.line_start y.line_end max_line_gap

  -- the members of the group that `i` would lead, after `i`
  abbrev pub joining : Item W → List (Item W) → List ℕ → List (Item W)
  joining i order assigned =
      select
        (λ j. not (nat_eq i.index j.index) && not (is_assigned j.index assigned) && groupable i j)
        order

  abbrev similarities : Item W → List (Item W) → List W
  unfolding cosine_similarity
  similarities a ms = map (λ b. cosine_similarity sqrt a.vector b.vector) ms

  abbrev pairwise : List (Item W) → List (Item W) → List W
  pairwise [] ms = []
  pairwise (a ∷ rest) ms = similarities a ms ++ pairwise rest ms

  -- `max` of a list, from its first element on
  abbrev top : W → List W → W
  top best [] = best
  top best (x ∷ xs) = top (fmax best x) xs

  abbrev highest : List W → W
  highest [] = f.lit 0 0
  highest (x ∷ xs) = top x xs

  unfoldable pub close_group : Item W → List (Item W) → Grouping W → Grouping W
  unfolding cosine_similarity regroup_all
  close_group i members g = record {
    assigned = g.assigned ++ map (λ m. m.index) members;
    groups =
        g.groups
        ++ record {
          id = group_id i.finding;
          representative_finding_id = i.finding.id;
          member_count = length members;
          redundancy_method = redundancy_method_hybrid;
          max_pairwise_similarity = highest (pairwise members members);
        }
          ∷ [];
    updated = regroup_all members (group_id i.finding) g.updated;
  }

  -- one pass of the loop
  unfoldable pub group_step : List (Item W) → Item W → Grouping W → Grouping W
  unfolding groupable close_group
  group_step order i g =
      let members = i ∷ joining i order g.assigned in
      if is_assigned i.index g.assigned
      then g
      else if ltb (length members) 2
      then g
      else close_group i members g

  unfoldable pub group_loop : List (Item W) → List (Item W) → Grouping W → Grouping W
  unfolding group_step
  group_loop order [] g = g
  group_loop order (i ∷ is) g = group_loop order is (group_step order i g)

  -- The grouping of the findings; `none` is the code's ValueError.
  unfoldable pub apply_groups : List (FindingWrite W) → List (List W) → Option (Grouping W)
  unfolding group_loop enumerate item_before
  apply_groups findings vectors = elim (enumerate 0 findings vectors) [
    | none ↦ none
    | some items ↦
        let order = sort item_before items in
        some (group_loop order order (record { assigned = []; groups = []; updated = findings }))
  ]
