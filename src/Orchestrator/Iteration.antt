-- ===== src/Orchestrator/Iteration.antt =====
-- backend/app/orchestrator/iteration.py: what a new commit does to the findings of the last review.
-- A row of `previous_findings` stands here as its `str` and `_optional_int` coercions leave it: an
-- absent text is empty, an absent or malformed line is `none`.
pub mod Regions
pub mod Plan
pub mod Kept
use adaptive_multi_agent_pr.Prelude.{
  ℕ, String, Bool, true, false, not, ◌&&◌, ◌||◌, Option, none, some, List, [], ◌∷◌, ◌++◌, map, any,
  select, count, ◌==◌, if◌then◌else◌,
}
use adaptive_multi_agent_pr.Prelude.Int.{ℤ, pos, ◌+ℤ◌, ltb_ℤ}
use adaptive_multi_agent_pr.Prelude.Text.{text_lt, append, starts_with, strip_slashes}
use adaptive_multi_agent_pr.Prelude.Dict.{Dict, get, put, contains}
use adaptive_multi_agent_pr.Prelude.Sort.{sort}
use adaptive_multi_agent_pr.Agents.Contract.{ChangeKind, is_removed, FileSlice}
use adaptive_multi_agent_pr.Agents.Prompts.{Registry}

abbrev pub default_line_gap : ℤ
default_line_gap = pos 0

pub data DeltaAction : Type 0 where
  resolved stale keep : DeltaAction

-- The sentence of a resolution, one for each way to reach it.
pub data Reason : Type 0 where
  file_removed file_untouched region_touched changed_elsewhere : Reason

pub record PreviousFinding : Type 0 where
  pub id : String
  pub file_path : String
  pub category : String
  pub line_start : Option ℤ
  pub line_end : Option ℤ

pub record Resolution : Type 0 where
  pub finding_id : String
  pub action : DeltaAction
  pub file_path : String
  pub category : String
  pub line_start : Option ℤ
  pub line_end : Option ℤ
  pub reason : Reason

pub record IterationPlan : Type 0 where
  pub resolutions : List Resolution
  pub targeted_agents : List String
  pub changed_paths : List String
  pub removed_paths : List String

abbrev pub is_resolved : Resolution → Bool
is_resolved r = elim r.action [ resolved ↦ true | stale ↦ false | keep ↦ false ]

abbrev pub is_stale : Resolution → Bool
is_stale r = elim r.action [ resolved ↦ false | stale ↦ true | keep ↦ false ]

abbrev pub is_keep : Resolution → Bool
is_keep r = elim r.action [ resolved ↦ false | stale ↦ false | keep ↦ true ]

-- the properties `resolved_count`, `stale_count` and `keep_count`
abbrev pub resolved_count : IterationPlan → ℕ
resolved_count p = count is_resolved p.resolutions

abbrev pub stale_count : IterationPlan → ℕ
stale_count p = count is_stale p.resolutions

abbrev pub keep_count : IterationPlan → ℕ
keep_count p = count is_keep p.resolutions

-- `slices_by_path.setdefault(path, []).append(slice)`
abbrev pub or_nil {ℓ} : {A : Type ℓ} → Option (List A) → List A
or_nil none = []
or_nil (some l) = l

unfoldable pub group_by_path : List FileSlice → Dict (List FileSlice) → Dict (List FileSlice)
group_by_path [] d = d
group_by_path (s ∷ ss) d =
    group_by_path ss (put s.file_path (or_nil (get s.file_path d) ++ s ∷ []) d)

-- `set.add`
abbrev pub add : String → List String → List String
add x xs = if contains xs x then xs else xs ++ x ∷ []

unfoldable pub removed_set : List FileSlice → List String → List String
removed_set [] r = r
removed_set (s ∷ ss) r = removed_set ss (if is_removed s.change_kind then add s.file_path r else r)

-- `b if b is not None else a`
abbrev pub last_line : ℤ → Option ℤ → ℤ
last_line start none = start
last_line start (some e) = e

-- the range from `start` to `end_` against one window; one with no start is passed over
unfoldable pub hits : ℤ → ℤ → ℤ → Option ℤ → Option ℤ → Bool
hits start end_ gap none w_end = false
hits start end_ gap (some w_start) w_end =
    not (ltb_ℤ (end_ +ℤ gap) w_start || ltb_ℤ (last_line w_start w_end +ℤ gap) start)

unfoldable pub overlaps_any_window : List FileSlice → Option ℤ → Option ℤ → ℤ → Bool
unfolding hits
overlaps_any_window windows none line_end gap = true
overlaps_any_window windows (some start) line_end gap =
    any (λ w. hits start (last_line start line_end) gap w.new_start w.new_end) windows

abbrev pub resolution : PreviousFinding → DeltaAction → Reason → Resolution
resolution p action why = record {
  finding_id = p.id;
  action = action;
  file_path = p.file_path;
  category = p.category;
  line_start = p.line_start;
  line_end = p.line_end;
  reason = why;
}

-- the disposition of a finding that has an id and a path
unfoldable pub classify : List String → Dict (List FileSlice) → ℤ → PreviousFinding → Resolution
unfolding overlaps_any_window
classify removed by_path gap p =
    if contains removed p.file_path
    then resolution p resolved file_removed
    else elim (get p.file_path by_path) [
      | none ↦ resolution p keep file_untouched
      | some windows ↦
          if overlaps_any_window windows p.line_start p.line_end gap
          then resolution p stale region_touched
          else resolution p keep changed_elsewhere
    ]

unfoldable pub is_named : PreviousFinding → Bool
is_named p = not (p.id == "") && not (p.file_path == "")

-- what `stale_categories` gains from a resolution
abbrev pub note_stale : Resolution → List String → List String
note_stale r cs = if is_stale r && not (r.category == "") then add r.category cs else cs

-- the loop over the previous findings, with its two accumulators
unfoldable pub review_loop :
    List String
    → Dict (List FileSlice)
    → ℤ
    → List PreviousFinding
    → List Resolution × List String
    → List Resolution × List String
unfolding classify is_named
review_loop removed by_path gap [] acc = acc
review_loop removed by_path gap (p ∷ ps) (rs, cs) = review_loop removed by_path gap ps (
    if is_named p
    then (let r = classify removed by_path gap p in (rs ++ r ∷ [], note_stale r cs))
    else (rs, cs))

-- `_category_allowed`
unfoldable pub category_allowed : String → List String → Bool
unfolding strip_slashes append starts_with
category_allowed category [] = false
category_allowed category (entry ∷ allowed) =
    let base = strip_slashes entry in
    category == base || starts_with category (append base "/") || category_allowed category allowed

-- `_agents_for_categories`
unfoldable pub agents_for_categories : List String → Registry → List String
unfolding category_allowed
agents_for_categories categories [] = []
agents_for_categories categories ((key, allowed) ∷ specs) =
    let rest = agents_for_categories categories specs in
    if any (λ c. category_allowed c allowed) categories then key ∷ rest else rest

abbrev keys {ℓ} : {V : Type ℓ} → Dict V → List String
keys = map (λ p. p.0)

unfoldable pub plan_review_delta :
    List PreviousFinding → List FileSlice → ℤ → Registry → IterationPlan
unfolding group_by_path removed_set review_loop agents_for_categories
plan_review_delta previous slices gap registry =
    let by_path = group_by_path slices [] in
    let gone = removed_set slices [] in
    let (resolutions, stale_categories) = review_loop gone by_path gap previous ([], []) in
    record {
      resolutions = resolutions;
      targeted_agents = agents_for_categories stale_categories registry;
      changed_paths = sort text_lt (keys by_path);
      removed_paths = sort text_lt gone;
    }
