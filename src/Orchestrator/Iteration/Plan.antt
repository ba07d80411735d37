-- ===== src/Orchestrator/Iteration/Plan.antt =====
-- The plan of backend/app/orchestrator/iteration.py, described without its loops.
use mathlib.Core.Path.{ap₂}
use mathlib.Core.List.{append-nil, append_assoc}
use adaptive_multi_agent_pr.Prelude.{
  ◌+◌, ◌≡◌, refl, ◌∙◌, Bool, true, false, not, ◌&&◌, ◌||◌, String, List, [], ◌∷◌, ◌++◌, map, arith,
  any, select, count, length, ◌==◌, eq_iff, if◌then◌else◌, Bool-cases, inl, inr,
}
use adaptive_multi_agent_pr.Prelude.Int.{ℤ}
use adaptive_multi_agent_pr.Prelude.Dict.{Dict, get, contains}
use adaptive_multi_agent_pr.Agents.Contract.{FileSlice}
use adaptive_multi_agent_pr.Agents.Prompts.{Registry}
use adaptive_multi_agent_pr.Orchestrator.Iteration.{
  PreviousFinding, Resolution, resolved, stale, keep, file_removed, file_untouched, region_touched,
  changed_elsewhere, is_resolved, is_stale, is_keep, resolved_count, stale_count, keep_count,
  group_by_path, removed_set, overlaps_any_window, resolution, classify, is_named, note_stale,
  review_loop, category_allowed, agents_for_categories, add, plan_review_delta,
}
use adaptive_multi_agent_pr.Orchestrator.Iteration.Regions.{
  of_file, get-group_by_path, is_gone, contains-removed_set,
}

-- What becomes of a finding, read off the slices of its file.
abbrev pub disposed : Bool → List FileSlice → ℤ → PreviousFinding → Resolution
disposed true ws gap p = resolution p resolved file_removed
disposed false [] gap p = resolution p keep file_untouched
disposed false (w ∷ ws) gap p =
    if overlaps_any_window (w ∷ ws) p.line_start p.line_end gap
    then resolution p stale region_touched
    else resolution p keep changed_elsewhere

abbrev pub disposition : List FileSlice → ℤ → PreviousFinding → Resolution
disposition slices gap p = disposed (is_gone p.file_path slices) (of_file p.file_path slices) gap p

pub classify-eq :
    (slices : List FileSlice) (gap : ℤ) (p : PreviousFinding)
    → classify (removed_set slices []) (group_by_path slices []) gap p ≡ disposition slices gap p
unfolding classify contains get
classify-eq slices gap p =
    ground
      (arith, contains-removed_set p.file_path slices [], get-group_by_path p.file_path slices [])

noted : List Resolution → List String → List String
noted [] cs = cs
noted (r ∷ rs) cs = noted rs (note_stale r cs)

review_loop-closed :
    (gone : List String) (d : Dict (List FileSlice)) (gap : ℤ) (ps : List PreviousFinding)
    (rs : List Resolution) (cs : List String)
    → review_loop gone d gap ps (rs, cs) ≡ (
      rs ++ map (classify gone d gap) (select is_named ps),
      noted (map (classify gone d gap) (select is_named ps)) cs,
    )
unfolding review_loop noted
review_loop-closed gone d gap [] rs cs = ground (arith, append-nil rs)
review_loop-closed gone d gap (p ∷ ps) rs cs =
    let r = classify gone d gap p in
    elim (Bool-cases (is_named p)) [
      | inl e ↦ rw e (
          review_loop-closed gone d gap ps (rs ++ r ∷ []) (note_stale r cs)
          ∙ rw (append_assoc rs (r ∷ [])))
      | inr e ↦ rw e (review_loop-closed gone d gap ps rs cs)
    ]

any-snoc :
    (f : String → Bool) (c : String) (cs : List String) → any f (cs ++ c ∷ []) ≡ (any f cs || f c)
any-snoc f c [] = ground arith
any-snoc f c (x ∷ cs) = ground (arith, any-snoc f c cs)

any-contains :
    (f : String → Bool) (c : String) (cs : List String)
    → contains cs c ≡ true
    → f c ≡ true
    → any f cs ≡ true
unfolding contains
any-contains f c [] h k = ground arith
any-contains f c (x ∷ cs) h k = ground (arith, any-contains f c cs, eq_iff x c)

any-add : (f : String → Bool) (c : String) (cs : List String) → any f (add c cs) ≡ (any f cs || f c)
any-add f c cs = ground (arith, any-snoc f c cs, any-contains f c cs)

-- whether a resolution asks for the agents of an allowed category
abbrev pub calls : (String → Bool) → Resolution → Bool
calls f r = is_stale r && not (r.category == "") && f r.category

any-noted :
    (f : String → Bool) (rs : List Resolution) (cs : List String)
    → any f (noted rs cs) ≡ (any f cs || any (calls f) rs)
unfolding noted
any-noted f [] cs = ground arith
any-noted f (r ∷ rs) cs = ground (arith, any-noted f rs (note_stale r cs), any-add f r.category cs)

-- the agents that own the category of a resolution that is stale
abbrev pub owners : List Resolution → Registry → List String
owners rs registry =
    map (λ spec. spec.0) (select (λ spec. any (calls (λ c. category_allowed c spec.1)) rs) registry)

agents-noted :
    (rs : List Resolution) (registry : Registry)
    → agents_for_categories (noted rs []) registry ≡ owners rs registry
unfolding agents_for_categories
agents-noted rs [] = refl
agents-noted rs ((key, allowed) ∷ specs) =
    ground (arith, agents-noted rs specs, any-noted (λ c. category_allowed c allowed) rs [])

counts_add :
    (rs : List Resolution) → count is_resolved rs + count is_stale rs + count is_keep rs ≡ length rs
counts_add [] = omega arith
counts_add (r ∷ rs) = ground (arith, counts_add rs)

map-classify :
    (slices : List FileSlice) (gap : ℤ) (ps : List PreviousFinding)
    → map (classify (removed_set slices []) (group_by_path slices []) gap) ps
      ≡ map (disposition slices gap) ps
map-classify slices gap [] = refl
map-classify slices gap (p ∷ ps) = ap₂ ◌∷◌ (classify-eq slices gap p) (map-classify slices gap ps)

-- The plan of `plan_review_delta` holds one resolution for each previous finding that has an id and
-- a path, in their order, and it is the one that the slices of its file call for; the targeted
-- agents are those of the registry, in its order, that own the category of some stale finding; and
-- the counts of resolved, stale and kept findings add up to the number of resolutions.
pub plan_review_delta-eq :
    (ps : List PreviousFinding) (slices : List FileSlice) (gap : ℤ) (registry : Registry)
    → let plan = plan_review_delta ps slices gap registry in
      (plan.resolutions ≡ map (disposition slices gap) (select is_named ps))
      × (plan.targeted_agents ≡ owners plan.resolutions registry)
      × (resolved_count plan + stale_count plan + keep_count plan ≡ length plan.resolutions)
unfolding plan_review_delta
plan_review_delta-eq ps slices gap registry =
    let gone = removed_set slices [] in
    let d = group_by_path slices [] in
    let named = select is_named ps in
    rw (review_loop-closed gone d gap ps [] []) (
      map-classify slices gap named,
      agents-noted (map (classify gone d gap) named) registry,
      counts_add (map (classify gone d gap) named),
    )
