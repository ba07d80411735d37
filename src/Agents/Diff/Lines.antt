-- ===== src/Agents/Diff/Lines.antt =====
-- The hunks that `parse_patch` of backend/app/agents/diff_utils.py reads, and their line numbers.
use mathlib.Core.List.{append-nil, append_assoc}
use adaptive_multi_agent_pr.Prelude.{
  ℕ, ◌+◌, ◌≡◌, refl, ap, sym, ◌∙◌, String, Option, none, some, List, [], ◌∷◌, ◌++◌, map,
}
use adaptive_multi_agent_pr.Agents.Diff.{
  Header, Hunk, Kind, starts_hunk, bad_header, plus, minus, context, no_newline, ignored, Open,
  hunk_from, flush, add_line, add_if_open, step_line, kind_of, line_loop, parse_patch,
}

-- The numbers in the new file of the lines that are added: an added line and a context line count.
abbrev pub added_from : ℕ → List (Kind × String) → List ℕ
added_from n [] = []
added_from n ((plus, line) ∷ ls) = n ∷ added_from (n + 1) ls
added_from n ((context, line) ∷ ls) = added_from (n + 1) ls
added_from n ((_, line) ∷ ls) = added_from n ls

-- the lines that belong to the body of a hunk
abbrev pub body_of : List (Kind × String) → List String
body_of [] = []
body_of ((plus, line) ∷ ls) = line ∷ body_of ls
body_of ((minus, line) ∷ ls) = line ∷ body_of ls
body_of ((context, line) ∷ ls) = line ∷ body_of ls
body_of ((no_newline, line) ∷ ls) = line ∷ body_of ls
body_of ((_, line) ∷ ls) = body_of ls

-- a header with the lines up to the next header
abbrev pub Section : Type 0
Section = Header × List (Kind × String)

-- the lines before the first header, and the sections; a bad header starts none
abbrev pub add_to_sections :
    Kind → String → List (Kind × String) × List Section → List (Kind × String) × List Section
add_to_sections (starts_hunk h) line (ls, ss) = ([], (h, ls) ∷ ss)
add_to_sections bad_header line (ls, ss) = ([], ss)
add_to_sections kind line (ls, ss) = ((kind, line) ∷ ls, ss)

abbrev pub hunk_of : Section → Hunk
hunk_of (h, ls) = hunk_from h (added_from h.new_start ls) (body_of ls)

module _ (strip : String → String) (match_header : String → Option Header) where
  abbrev pub sections : List String → List (Kind × String) × List Section
  sections [] = ([], [])
  sections (line ∷ lines) = add_to_sections (kind_of strip match_header line) line (sections lines)

-- the hunk that the open one becomes with these lines
abbrev closing : Option Open → List (Kind × String) → List Hunk
closing none ls = []
closing (some o) ls =
    hunk_from o.header (o.added_lines ++ added_from o.new_pos ls) (o.body_lines ++ body_of ls) ∷ []

flush-closing : (o : Option Open) (hunks : List Hunk) → flush o hunks ≡ hunks ++ closing o []
unfolding flush
flush-closing none hunks = sym (append-nil hunks)
flush-closing (some o) hunks =
    sym (λ i.
      hunks ++ hunk_from o.header (append-nil o.added_lines i) (append-nil o.body_lines i) ∷ [])

-- a line of the body, before the other lines
add_if_open-closing :
    (k : Kind) (line : String) (o : Option Open) (ls : List (Kind × String))
    → closing (add_if_open k line o) ls ≡ closing o ((k, line) ∷ ls)
unfolding add_line
add_if_open-closing k line none ls = refl
add_if_open-closing plus line (some o) ls = λ i.
    hunk_from o.header
      (append_assoc o.added_lines (o.new_pos ∷ []) (added_from (o.new_pos + 1) ls) i)
      (append_assoc o.body_lines (line ∷ []) (body_of ls) i)
    ∷ []
add_if_open-closing minus line (some o) ls =
    ap (λ b. hunk_from o.header (o.added_lines ++ added_from o.new_pos ls) b ∷ [])
      (append_assoc o.body_lines (line ∷ []) (body_of ls))
add_if_open-closing context line (some o) ls =
    ap (λ b. hunk_from o.header (o.added_lines ++ added_from (o.new_pos + 1) ls) b ∷ [])
      (append_assoc o.body_lines (line ∷ []) (body_of ls))
add_if_open-closing no_newline line (some o) ls =
    ap (λ b. hunk_from o.header (o.added_lines ++ added_from o.new_pos ls) b ∷ [])
      (append_assoc o.body_lines (line ∷ []) (body_of ls))
add_if_open-closing ignored line (some o) ls = refl
add_if_open-closing bad_header line (some o) ls = refl
add_if_open-closing (starts_hunk h) line (some o) ls = refl

-- all hunks, from the state of the loop and the sections of the lines that are left
abbrev total : List Hunk × Option Open → List (Kind × String) × List Section → List Hunk
total (hunks, o) (ls, ss) = hunks ++ closing o ls ++ map hunk_of ss

step_line-total :
    (k : Kind) (line : String) (hunks : List Hunk) (o : Option Open) (ls : List (Kind × String))
    (ss : List Section)
    → total (step_line k line (hunks, o)) (ls, ss)
      ≡ total (hunks, o) (add_to_sections k line (ls, ss))
unfolding step_line
step_line-total (starts_hunk h) line hunks o ls ss =
    ap (λ x. x ++ hunk_of (h, ls) ∷ [] ++ map hunk_of ss) (flush-closing o hunks)
    ∙ append_assoc (hunks ++ closing o []) (hunk_of (h, ls) ∷ []) (map hunk_of ss)
step_line-total bad_header line hunks o ls ss =
    ap (λ x. x ++ map hunk_of ss) (append-nil (flush o hunks) ∙ flush-closing o hunks)
step_line-total plus line hunks o ls ss =
    ap (λ c. hunks ++ c ++ map hunk_of ss) (add_if_open-closing plus line o ls)
step_line-total minus line hunks o ls ss =
    ap (λ c. hunks ++ c ++ map hunk_of ss) (add_if_open-closing minus line o ls)
step_line-total context line hunks o ls ss =
    ap (λ c. hunks ++ c ++ map hunk_of ss) (add_if_open-closing context line o ls)
step_line-total no_newline line hunks o ls ss =
    ap (λ c. hunks ++ c ++ map hunk_of ss) (add_if_open-closing no_newline line o ls)
step_line-total ignored line hunks o ls ss =
    ap (λ c. hunks ++ c ++ map hunk_of ss) (add_if_open-closing ignored line o ls)

module _ (strip : String → String) (match_header : String → Option Header) where
  line_loop-total :
      (lines : List String) (s : List Hunk × Option Open)
      → total (line_loop strip match_header lines s) ([], [])
        ≡ total s (sections strip match_header lines)
  unfolding line_loop
  line_loop-total [] s = refl
  line_loop-total (line ∷ lines) (hunks, o) =
      let k = kind_of strip match_header line in
      let (ls, ss) = sections strip match_header lines in
      line_loop-total lines (step_line k line (hunks, o)) ∙ step_line-total k line hunks o ls ss

  -- A patch is read as one hunk for each good header, in their order. Its body is the lines up to the
  -- next header, good or bad, and the lines that it adds are numbered from the header's start in the
  -- new file, where added and context lines count, and removed ones do not.
  pub parse_patch-sections :
      (splitlines : String → List String) (patch : String)
      → parse_patch strip match_header splitlines patch
        ≡ map hunk_of (sections strip match_header (splitlines patch)).1
  unfolding parse_patch
  parse_patch-sections splitlines patch =
      let s = line_loop strip match_header (splitlines patch) ([], none) in
      flush-closing s.1 s.0
      ∙ sym (append-nil (s.0 ++ closing s.1 []))
      ∙ line_loop-total (splitlines patch) ([], none)
