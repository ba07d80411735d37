-- ===== src/Agents/Diff/Slices/Windows.antt =====
-- The windows of the slices that backend/app/agents/diff_utils.py makes of a diff.
use adaptive_multi_agent_pr.Prelude.{
  ℕ, ◌≤◌, ◌≡◌, refl, ◌⊎◌, inl, inr, String, Bool, true, false, Option, none, some, List, [], ◌∷◌,
  map, take, length, length-take-le, arith, All, max, ◌==◌, if◌then◌else◌,
}
use adaptive_multi_agent_pr.Prelude.Int.{pos}
use adaptive_multi_agent_pr.Agents.Contract.{FileSlice}
use adaptive_multi_agent_pr.Agents.Diff.{Header, Hunk, parse_patch}
use adaptive_multi_agent_pr.Agents.Diff.Slices.{
  last_of, path_only_slice, hunk_slice, changed_file_slices,
}

-- A slice of a file: without a window, or with one that is not empty.
abbrev pub IsSliceOf : String → FileSlice → Type 0
IsSliceOf file_path s =
    (s.file_path ≡ file_path)
    × (((s.new_start ≡ none) × (s.new_end ≡ none))
        ⊎ ((a : ℕ) × (b : ℕ) × (s.new_start ≡ some (pos a)) × (s.new_end ≡ some (pos b)) × (a ≤ b)))

last_of-le : (h : Hunk) → h.new_start ≤ last_of h
unfolding last_of
last_of-le h = ground arith

length-map_lem {ℓ κ} :
    {A : Type ℓ} {B : Type κ} (g : A → B) (xs : List A) → length (map g xs) ≡ length xs
length-map_lem g [] = refl
length-map_lem g (x ∷ xs) = omega (arith, length-map_lem g xs)

module _ (strip : String → String) (match_header : String → Option Header)
    (splitlines : String → List String) (cut : ℕ → String → String) where
  hunk_slices-All :
      (file_path : String) (status : Option String) (m : ℕ) (hs : List Hunk)
      → All
          (IsSliceOf file_path)
          (map (hunk_slice strip match_header splitlines cut file_path status m) hs)
  hunk_slices-All file_path status m [] = tt
  hunk_slices-All file_path status m (h ∷ hs) = (
    (refl, inr (h.new_start, last_of h, refl, refl, last_of-le h)),
    hunk_slices-All file_path status m hs,
  )

  -- A file's diff becomes at most `max_slices` slices, or one if it has no patch. Each is a slice of
  -- the file, and its window, if it has one, does not end before it starts.
  pub changed_file_slices-All :
      (file_path : String) (patch status : Option String) (max_slice_chars max_slices : ℕ)
      → let slices =
          changed_file_slices strip match_header splitlines cut file_path patch status
            max_slice_chars max_slices in
        (length slices ≤ max 1 max_slices) × All (IsSliceOf file_path) slices
  unfolding changed_file_slices path_only_slice
  changed_file_slices-All file_path none status m n = (omega arith, ((refl, inl (refl, refl)), tt))
  changed_file_slices-All file_path (some patch) status m n = given (patch == "")
    where
      given :
          (b : Bool)
          → let slices =
              if b
              then path_only_slice strip match_header splitlines cut file_path status ∷ []
              else map
                  (hunk_slice strip match_header splitlines cut file_path status m)
                  (take n (parse_patch strip match_header splitlines patch)) in
            (length slices ≤ max 1 n) × All (IsSliceOf file_path) slices
      given true = (omega arith, ((refl, inl (refl, refl)), tt))
      given false =
          let hs = parse_patch strip match_header splitlines patch in
          let g = hunk_slice strip match_header splitlines cut file_path status m in
          (
            omega (arith, length-map_lem g (take n hs), length-take-le n hs),
            hunk_slices-All file_path status m (take n hs),
          )
