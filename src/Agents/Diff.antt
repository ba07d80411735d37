-- ===== src/Agents/Diff.antt =====
-- `parse_patch` of backend/app/agents/diff_utils.py. Python's `str.strip` and `str.splitlines` are
-- parameters, and so is the match of `_HUNK_HEADER`.
pub mod Lines
pub mod Slices
use adaptive_multi_agent_pr.Prelude.{
  ℕ, ◌+◌, String, Bool, true, false, Option, none, some, List, [], ◌∷◌, ◌++◌, if◌then◌else◌,
}
use adaptive_multi_agent_pr.Prelude.Text.{starts_with}
use adaptive_multi_agent_pr.Prelude.Decimal.{◌⊕◌}

-- the groups of the match, and the header's text
pub record Header : Type 0 where
  pub old_start : ℕ
  pub old_count : Option ℕ
  pub new_start : ℕ
  pub new_count : Option ℕ
  pub text : String

pub record Hunk : Type 0 where
  pub old_start : ℕ
  pub new_start : ℕ
  pub old_count : ℕ
  pub new_count : ℕ
  pub added_lines : List ℕ
  pub body : String
  pub header : String

-- the kinds of lines that the loop tells apart
pub data Kind : Type 0 where
  starts_hunk : Header → Kind
  bad_header plus minus context no_newline ignored : Kind

-- a hunk that is being read; the old position is counted and never read, and is left out
pub record Open : Type 0 where
  pub header : Header
  pub new_pos : ℕ
  pub body_lines : List String
  pub added_lines : List ℕ

-- `int(match.group(i) or 1)`
abbrev pub count_or_one : Option ℕ → ℕ
count_or_one none = 1
count_or_one (some n) = n

-- `"\n".join(lines)`
abbrev pub join_lines : List String → String
join_lines [] = ""
join_lines (l ∷ ls) = elim ls [ [] ↦ l | m ∷ ms ↦ l ⊕ "\n" ⊕ join_lines ls ]

abbrev pub hunk_from : Header → List ℕ → List String → Hunk
hunk_from h added_lines body_lines = record {
  old_start = h.old_start;
  new_start = h.new_start;
  old_count = count_or_one h.old_count;
  new_count = count_or_one h.new_count;
  added_lines = added_lines;
  body = join_lines body_lines;
  header = h.text;
}

unfoldable pub flush : Option Open → List Hunk → List Hunk
flush none hunks = hunks
flush (some o) hunks = hunks ++ hunk_from o.header o.added_lines o.body_lines ∷ []

abbrev pub opened : Header → Open
opened h = record { header = h; new_pos = h.new_start; body_lines = []; added_lines = [] }

-- a line of a hunk's body
unfoldable pub add_line : Kind → String → Open → Open
add_line plus line o = record o {
  added_lines = o.added_lines ++ o.new_pos ∷ [];
  new_pos = o.new_pos + 1;
  body_lines = o.body_lines ++ line ∷ [];
}
add_line minus line o = record o { body_lines = o.body_lines ++ line ∷ [] }
add_line context line o = record o {
  new_pos = o.new_pos + 1;
  body_lines = o.body_lines ++ line ∷ [];
}
add_line no_newline line o = record o { body_lines = o.body_lines ++ line ∷ [] }
add_line _ line o = o

abbrev pub add_if_open : Kind → String → Option Open → Option Open
add_if_open kind line none = none
add_if_open kind line (some o) = some (add_line kind line o)

-- one turn of the loop
unfoldable pub step_line : Kind → String → List Hunk × Option Open → List Hunk × Option Open
unfolding flush add_line
step_line (starts_hunk h) line (hunks, open_hunk) = (flush open_hunk hunks, some (opened h))
step_line bad_header line (hunks, open_hunk) = (flush open_hunk hunks, none)
step_line kind line (hunks, open_hunk) = (hunks, add_if_open kind line open_hunk)

module _ (strip : String → String) (match_header : String → Option Header) where
  -- the tests of the loop, in their order
  unfoldable pub kind_of : String → Kind
  unfolding starts_with
  kind_of raw_line =
      if starts_with (strip raw_line) "@@"
      then elim (match_header (strip raw_line)) [ none ↦ bad_header | some h ↦ starts_hunk h ]
      else if starts_with raw_line "+"
      then plus
      else if starts_with raw_line "-"
      then minus
      else if starts_with raw_line " "
      then context
      else if starts_with raw_line "\\"
      then no_newline
      else ignored

  unfoldable pub line_loop : List String → List Hunk × Option Open → List Hunk × Option Open
  unfolding step_line kind_of
  line_loop [] s = s
  line_loop (line ∷ lines) s = line_loop lines (step_line (kind_of line) line s)

  unfoldable pub parse_patch : (String → List String) → String → List Hunk
  unfolding line_loop flush
  parse_patch splitlines patch =
      let (hunks, open_hunk) = line_loop (splitlines patch) ([], none) in flush open_hunk hunks
