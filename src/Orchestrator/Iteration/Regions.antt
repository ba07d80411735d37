-- ===== src/Orchestrator/Iteration/Regions.antt =====
-- Windows, line ranges and paths of backend/app/orchestrator/iteration.py.
use mathlib.Core.List.{append_assoc, Mem, mem-cons_self, mem-cons_of_mem}
use adaptive_multi_agent_pr.Prelude.{
  ◌≡◌, refl, ◌∙◌, ap, ◌&&◌, ◌||◌, Bool, true, false, String, Option, none, some, List, [], ◌∷◌,
  ◌++◌, arith, any, select, ◌==◌, eq_iff, All, Bool-cases, inl, inr,
}
use adaptive_multi_agent_pr.Prelude.Int.{ℤ, pos, ◌+ℤ◌, ◌≤ℤ◌, +ℤ_parts}
use adaptive_multi_agent_pr.Prelude.Dict.{Dict, get, put, get-put, contains}
use adaptive_multi_agent_pr.Agents.Contract.{is_removed, FileSlice}
use adaptive_multi_agent_pr.Orchestrator.Iteration.{
  group_by_path, removed_set, hits, overlaps_any_window, last_line, or_nil, add,
}

-- the slices of one file
abbrev pub of_file : String → List FileSlice → List FileSlice
of_file path = select (λ s. s.file_path == path)

-- `windows` of a path, on top of what the dictionary held
abbrev pub joined : Option (List FileSlice) → List FileSlice → Option (List FileSlice)
joined o [] = o
joined none (s ∷ ss) = some (s ∷ ss)
joined (some l) (s ∷ ss) = some (l ++ s ∷ ss)

joined_step :
    (o : Option (List FileSlice)) (s : FileSlice) (rest : List FileSlice)
    → joined (some (or_nil o ++ s ∷ [])) rest ≡ joined o (s ∷ rest)
joined_step none s [] = refl
joined_step none s (t ∷ rest) = refl
joined_step (some l) s [] = refl
joined_step (some l) s (t ∷ rest) = ap some (append_assoc l (s ∷ []) (t ∷ rest))

-- The dictionary holds under a path the slices of that file, in their order, and nothing else.
pub get-group_by_path :
    (path : String) (ss : List FileSlice) (d : Dict (List FileSlice))
    → get path (group_by_path ss d) ≡ joined (get path d) (of_file path ss)
unfolding group_by_path
get-group_by_path path [] d = refl
get-group_by_path path (s ∷ ss) d =
    let grown = put s.file_path (or_nil (get s.file_path d) ++ s ∷ []) d in
    get-group_by_path path ss grown
    ∙ ground (
      arith,
      get-put s.file_path path (or_nil (get s.file_path d) ++ s ∷ []) d,
      eq_iff s.file_path path,
      joined_step (get path d) s (of_file path ss),
    )

contains-snoc :
    (x p : String) (xs : List String) → contains (xs ++ x ∷ []) p ≡ (contains xs p || x == p)
unfolding contains
contains-snoc x p [] = ground arith
contains-snoc x p (y ∷ xs) = ground (arith, contains-snoc x p xs)

pub contains-add :
    (x p : String) (xs : List String) → contains (add x xs) p ≡ (contains xs p || x == p)
contains-add x p xs = ground (arith, contains-snoc x p xs, eq_iff x p)

-- whether some slice says that the file is gone
abbrev pub is_gone : String → List FileSlice → Bool
is_gone path = any (λ s. is_removed s.change_kind && s.file_path == path)

pub contains-removed_set :
    (path : String) (ss : List FileSlice) (r : List String)
    → contains (removed_set ss r) path ≡ (contains r path || is_gone path ss)
unfolding removed_set
contains-removed_set path [] r = ground arith
contains-removed_set path (s ∷ ss) r = ground (
  arith,
  contains-removed_set path ss (add s.file_path r),
  contains-removed_set path ss r,
  contains-add s.file_path path r,
)

-- the lines from `start` to `end_`
abbrev pub InRange : ℤ → ℤ → ℤ → Type 0
InRange start end_ line = (start ≤ℤ line) × (line ≤ℤ end_)

-- the lines of a window; one with no start has none
abbrev pub Lines : Option ℤ → Option ℤ → ℤ → Type 0
Lines none w_end line = ⊥
Lines (some s) w_end line = InRange s (last_line s w_end) line

missed :
    (start end_ gap line : ℤ) (w_start w_end : Option ℤ)
    → pos 0 ≤ℤ gap
    → hits start end_ gap w_start w_end ≡ false
    → InRange start end_ line
    → ¬ Lines w_start w_end line
unfolding hits
missed start end_ gap line none w_end g h r = λ l. l
missed start end_ gap line (some s) none g h r =
    λ l. ground (arith, +ℤ_parts end_ gap, +ℤ_parts s gap)
missed start end_ gap line (some s) (some e) g h r =
    λ l. ground (arith, +ℤ_parts end_ gap, +ℤ_parts e gap)

-- Windows that do not overlap a range share no line with it.
pub overlaps-none :
    (ws : List FileSlice) (start : ℤ) (line_end : Option ℤ) (gap line : ℤ)
    → pos 0 ≤ℤ gap
    → overlaps_any_window ws (some start) line_end gap ≡ false
    → InRange start (last_line start line_end) line
    → All (λ w. ¬ Lines w.new_start w.new_end line) ws
unfolding overlaps_any_window
overlaps-none [] start line_end gap line g h r = tt
overlaps-none (w ∷ ws) start line_end gap line g h r = (
  missed start (last_line start line_end) gap line w.new_start w.new_end g (ground arith) r,
  overlaps-none ws start line_end gap line g (ground arith) r,
)

-- A range that touches a window: neither ends more than `gap` lines before the other.
abbrev pub Near : ℤ → ℤ → ℤ → Option ℤ → Option ℤ → Type 0
Near start end_ gap none w_end = ⊥
Near start end_ gap (some s) w_end = (s ≤ℤ end_ +ℤ gap) × (start ≤ℤ last_line s w_end +ℤ gap)

near :
    (start end_ gap : ℤ) (w_start w_end : Option ℤ)
    → hits start end_ gap w_start w_end ≡ true
    → Near start end_ gap w_start w_end
unfolding hits
near start end_ gap none w_end h = ground arith
near start end_ gap (some s) w_end h = ground arith

-- An overlap of a range is with some window, at the place `i` of the list.
pub overlaps-some :
    (ws : List FileSlice) (start : ℤ) (line_end : Option ℤ) (gap : ℤ)
    → overlaps_any_window ws (some start) line_end gap ≡ true
    → (w : FileSlice) × Mem w ws × Near start (last_line start line_end) gap w.new_start w.new_end
unfolding overlaps_any_window
overlaps-some [] start line_end gap h = ground arith
overlaps-some (w ∷ ws) start line_end gap h =
    elim (Bool-cases (hits start (last_line start line_end) gap w.new_start w.new_end)) [
      | inl e ↦
          (w, mem-cons_self, near start (last_line start line_end) gap w.new_start w.new_end e)
      | inr e ↦
          let (v, m, n) = overlaps-some ws start line_end gap (ground arith) in
          (v, mem-cons_of_mem w m, n)
    ]
