-- ===== src/Publisher/Render.antt =====
-- The texts of backend/app/publisher/service.py.
use Prim.Native.Char.{code}
use Prim.Native.String.{[], ◌∷◌}
use mathlib.Core.List as L
use adaptive_multi_agent_pr.Prelude.{
  ℕ, zero, ◌+◌, String, ◌||◌, Option, none, some, List, ◌==◌, if◌then◌else◌, nat_eq,
}
use adaptive_multi_agent_pr.Prelude.Int.{ℤ, pos}
use adaptive_multi_agent_pr.Prelude.Text.{append}
use adaptive_multi_agent_pr.Prelude.Decimal.{◌⊕◌, show}
use adaptive_multi_agent_pr.Store.Payload.{PayloadFinding}

pub record CommentWrite : Type 0 where
  pub path : String
  pub line : Option ℤ
  pub body : String

abbrev badge : String
badge = "Adaptive Multi-Agent PR Review"

abbrev degraded_label : String
degraded_label = "off-diff (posted in body)"

-- `a or b` on numbers: 0 counts as missing
abbrev pub line_or : Option ℤ → Option ℤ → Option ℤ
line_or none b = b
line_or (some (pos zero)) b = b
line_or (some n) b = some n

-- the part before the first "/", and the part after it
unfoldable pub partition : String → String × String
partition [] = ([], [])
partition (c ∷ s) =
    let rest = partition s in if nat_eq (code c) b'/' then ([], s) else (c ∷ rest.0, rest.1)

-- `_split_full_name`; `none` is its error
unfoldable pub split_full_name : String → Option (String × String)
unfolding partition
split_full_name name =
    let parts = partition name in if (parts.0 == "") || (parts.1 == "") then none else some parts

module _ {ℓ} {W : Type ℓ} where
  abbrev heading : PayloadFinding W → String
  heading x = "**" ⊕ x.severity ⊕ " — " ⊕ x.title ⊕ "**\n\n"

  -- `_inline_comment`
  unfoldable pub inline_comment : PayloadFinding W → CommentWrite
  unfolding append
  inline_comment x =
      let body = heading x ⊕ x.description in
      record {
        path = x.file_path;
        line = line_or x.line_start x.line_end;
        body = elim x.suggested_fix [
          | none ↦ body
          | some fix ↦ if fix == "" then body else body ⊕ "\n\n**Suggested fix:** " ⊕ fix
        ];
      }

  -- The lines of one finding in the body, each after a line break.
  abbrev body_lines : PayloadFinding W → String
  body_lines x =
      "\n\n---\n\n"
      ⊕ heading x
      ⊕ "\n`"
      ⊕ x.file_path
      ⊕ "`\n\n\n"
      ⊕ x.description
      ⊕ elim x.suggested_fix [
        | none ↦ ""
        | some fix ↦ if fix == "" then "" else "\n**Suggested fix:** " ⊕ fix
      ]
      ⊕ "\n*"
      ⊕ degraded_label
      ⊕ ", finding `"
      ⊕ x.id
      ⊕ "`*"

  abbrev body_of : List (PayloadFinding W) → String
  body_of L.[] = ""
  body_of (L.◌∷◌ x xs) = body_lines x ⊕ body_of xs

  -- `_review_body`
  unfoldable pub review_body : String → List (PayloadFinding W) → String
  unfolding append
  review_body summary xs = "### " ⊕ badge ⊕ "\n" ⊕ summary ⊕ body_of xs

-- the summary of a review with so many inline comments and findings in the body
unfoldable pub summary_text : ℕ → ℕ → String
unfolding append show
summary_text inline body =
    "Automated review of the ARUM-selected findings from **"
    ⊕ badge
    ⊕ "**: "
    ⊕ show (inline + body)
    ⊕ " finding(s), "
    ⊕ show inline
    ⊕ " inline, "
    ⊕ show body
    ⊕ " in body."
