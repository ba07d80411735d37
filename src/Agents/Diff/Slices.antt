-- ===== src/Agents/Diff/Slices.antt =====
-- `changed_file_slices` and `file_slices_from_patches` of backend/app/agents/diff_utils.py.
pub mod Windows
use adaptive_multi_agent_pr.Prelude.{
  ℕ, zero, suc, ◌+◌, ◌-◌, String, Bool, true, false, Option, none, some, List, [], ◌∷◌, ◌++◌, map,
  take, ltb, ◌==◌, if◌then◌else◌,
}
use adaptive_multi_agent_pr.Prelude.Int.{pos}
use adaptive_multi_agent_pr.Prelude.Text as Text
use adaptive_multi_agent_pr.Prelude.Text.{is_label}
use adaptive_multi_agent_pr.Prelude.Decimal.{◌⊕◌}
use adaptive_multi_agent_pr.Agents.Contract.{
  ChangeKind, added, modified, removed, renamed, unknown, FileSlice,
}
use adaptive_multi_agent_pr.Agents.Diff.{Header, Hunk, parse_patch}

abbrev pub max_slices_per_file : ℕ
max_slices_per_file = 12

-- `kind.value`
abbrev pub kind_value : ChangeKind → String
kind_value added = "added"
kind_value modified = "modified"
kind_value removed = "removed"
kind_value renamed = "renamed"
kind_value unknown = "unknown"

-- the mapping of `_infer_kind`, on a status without its blanks
abbrev pub kind_named : String → ChangeKind
kind_named status =
    if is_label status "added"
    then added
    else if is_label status "modified"
    then modified
    else if is_label status "removed"
    then removed
    else if is_label status "deleted"
    then removed
    else if is_label status "renamed"
    then renamed
    else if is_label status "copied"
    then renamed
    else unknown

-- the last line of a hunk's window
unfoldable pub last_of : Hunk → ℕ
last_of h = if ltb 0 h.new_count then h.new_start + h.new_count - 1 else h.new_start

-- `strip` is `str.strip`, `cut n` is the slice of the first `n` characters.
module _ (strip : String → String) (match_header : String → Option Header)
    (splitlines : String → List String) (cut : ℕ → String → String) where
  unfoldable pub infer_kind : Option String → ChangeKind
  unfolding is_label
  infer_kind none = unknown
  infer_kind (some status) = if status == "" then unknown else kind_named (strip status)

  unfoldable pub path_only_slice : String → Option String → FileSlice
  unfolding infer_kind
  path_only_slice file_path status = record {
    file_path = file_path;
    patch = "(no diff window supplied; file " ⊕ kind_value (infer_kind status) ⊕ " in this PR)";
    new_start = none;
    new_end = none;
    change_kind = infer_kind status;
    old_path = none;
  }

  abbrev pub hunk_slice : String → Option String → ℕ → Hunk → FileSlice
  hunk_slice file_path status max_slice_chars h = record {
    file_path = file_path;
    patch = h.header ⊕ "\n" ⊕ cut max_slice_chars h.body;
    new_start = some (pos h.new_start);
    new_end = some (pos (last_of h));
    change_kind = infer_kind status;
    old_path = none;
  }

  unfoldable pub changed_file_slices :
      String → Option String → Option String → ℕ → ℕ → List FileSlice
  unfolding path_only_slice parse_patch last_of
  changed_file_slices file_path none status max_slice_chars max_slices =
      path_only_slice file_path status ∷ []
  changed_file_slices file_path (some patch) status max_slice_chars max_slices =
      if patch == ""
      then path_only_slice file_path status ∷ []
      else map (hunk_slice file_path status max_slice_chars)
          (take max_slices (parse_patch strip match_header splitlines patch))

  unfoldable pub file_slices_from_patches :
      List (String × Option String × Option String) → ℕ → List FileSlice
  unfolding changed_file_slices
  file_slices_from_patches [] max_slice_chars = []
  file_slices_from_patches ((file_path, patch, status) ∷ files) max_slice_chars =
      changed_file_slices file_path patch status max_slice_chars max_slices_per_file
      ++ file_slices_from_patches files max_slice_chars
