-- ===== src/Orchestrator/Iteration/Kept.antt =====
-- The findings that backend/app/orchestrator/iteration.py carries forward as they are.
use mathlib.Core.Path.{subst}
use mathlib.Core.Bool.{false≢true}
use adaptive_multi_agent_pr.Prelude.{
  ◌≡◌, refl, sym, Bool, true, false, String, Option, none, some, List, [], ◌∷◌, arith, ◌==◌, All,
  All-imp, Bool-cases, inl, inr,
}
use adaptive_multi_agent_pr.Prelude.Int.{ℤ, pos, ◌≤ℤ◌}
use adaptive_multi_agent_pr.Agents.Contract.{is_removed, FileSlice}
use adaptive_multi_agent_pr.Orchestrator.Iteration.{
  PreviousFinding, keep, group_by_path, removed_set, overlaps_any_window, last_line, classify,
}
use adaptive_multi_agent_pr.Orchestrator.Iteration.Regions.{
  of_file, is_gone, InRange, Lines, overlaps-none,
}
use adaptive_multi_agent_pr.Orchestrator.Iteration.Plan.{disposed, classify-eq}

-- `w` neither removes the file nor has a line in common with the lines from `start` on.
abbrev pub Untouched : Option ℤ → Option ℤ → FileSlice → Type 0
Untouched line_start line_end w =
    (is_removed w.change_kind ≡ false)
    × ((start line : ℤ)
        → line_start ≡ some start
        → InRange start (last_line start line_end) line
        → ¬ Lines w.new_start w.new_end line)

not-gone :
    (path : String) (ss : List FileSlice)
    → is_gone path ss ≡ false
    → All (λ w. is_removed w.change_kind ≡ false) (of_file path ss)
not-gone path [] h = tt
not-gone path (w ∷ ss) h = elim (Bool-cases (w.file_path == path)) [
  | inl e ↦ rw e (ground arith, not-gone path ss (ground arith))
  | inr e ↦ rw e (not-gone path ss (ground arith))
]

both :
    (ws : List FileSlice) (line_start line_end : Option ℤ) (gap : ℤ)
    → pos 0 ≤ℤ gap
    → overlaps_any_window ws line_start line_end gap ≡ false
    → All (λ w. is_removed w.change_kind ≡ false) ws
    → All (Untouched line_start line_end) ws
unfolding overlaps_any_window
both [] line_start line_end gap g h a = tt
both (w ∷ ws) none line_end gap g h a = absurd (ground arith)
both (w ∷ ws) (some s) line_end gap g h a = (
  (
    a.0,
    λ start line e r.
        (overlaps-none (w ∷ ws) start line_end gap line g
          (subst (λ z. overlaps_any_window (w ∷ ws) z line_end gap ≡ false) e h) r).0,
  ),
  both ws (some s) line_end gap g (ground arith) a.1,
)

kept :
    (gone : Bool) (ws : List FileSlice) (gap : ℤ) (p : PreviousFinding)
    → pos 0 ≤ℤ gap
    → (gone ≡ false → All (λ w. is_removed w.change_kind ≡ false) ws)
    → (disposed gone ws gap p).action ≡ keep
    → All (Untouched p.line_start p.line_end) ws × (p.line_start ≡ none → ws ≡ [])
kept true ws gap p g a e = cc
kept false [] gap p g a e = (tt, λ _. refl)
kept false (w ∷ ws) gap p g a e =
    elim (Bool-cases (overlaps_any_window (w ∷ ws) p.line_start p.line_end gap)) [
      | inl o ↦ cc (rw o at e)
      | inr o ↦ (
        both (w ∷ ws) p.line_start p.line_end gap g o (a refl),
        λ n. absurd (unfold overlaps_any_window in false≢true (sym (rw n at o))),
      )
    ]

kept-Untouched :
    (slices : List FileSlice) (gap : ℤ) (p : PreviousFinding)
    → pos 0 ≤ℤ gap
    → (classify (removed_set slices []) (group_by_path slices []) gap p).action ≡ keep
    → All (Untouched p.line_start p.line_end) (of_file p.file_path slices)
kept-Untouched slices gap p g e =
    (kept (is_gone p.file_path slices) (of_file p.file_path slices) gap p g
      (not-gone p.file_path slices) (rw (← classify-eq slices gap p) e)).0

-- If the gap is not negative and `classify` keeps a finding that has a line range, then no slice of
-- its file says that the file is gone, and no line of the range lies in the window of a slice of its
-- file that has line numbers. A slice without line numbers has no window, and keeps no finding back.
pub classify-keep :
    (slices : List FileSlice) (gap : ℤ) (p : PreviousFinding) (start line : ℤ)
    → pos 0 ≤ℤ gap
    → (classify (removed_set slices []) (group_by_path slices []) gap p).action ≡ keep
    → p.line_start ≡ some start
    → InRange start (last_line start p.line_end) line
    → All
        (λ w. (is_removed w.change_kind ≡ false) × (¬ Lines w.new_start w.new_end line))
        (of_file p.file_path slices)
classify-keep slices gap p start line g e at_start inside =
    All-imp (λ w u. (u.0, u.1 start line at_start inside)) (of_file p.file_path slices)
      (kept-Untouched slices gap p g e)
