-- ===== src/Publisher/Parts.antt =====
-- The split of the findings in backend/app/publisher/service.py into comments and body.
use adaptive_multi_agent_pr.Prelude.{
  ℕ, ◌+◌, ◌≤◌, ◌≡◌, refl, Bool, Option, none, some, List, [], ◌∷◌, map, arith, take, drop, length,
  count, count-append, take-append-drop, length-take-le, ap, All, sym, ◌∙◌, ◌≢◌,
}
use adaptive_multi_agent_pr.Prelude.Int.{ℤ}
use adaptive_multi_agent_pr.Store.Payload.{PayloadFinding}
use adaptive_multi_agent_pr.Publisher.{Split, split_inline, split_findings}
use adaptive_multi_agent_pr.Publisher.Render.{CommentWrite, inline_comment}

module _ {ℓ} {W : Type ℓ} where
  count-split_inline :
      (p : PayloadFinding W → Bool) (xs : List (PayloadFinding W))
      → count p (map (λ c. c.0) (split_inline xs).0) + count p (split_inline xs).1 ≡ count p xs
  unfolding split_inline
  count-split_inline p [] = refl
  count-split_inline p (x ∷ xs) = ground (arith, count-split_inline p xs)

  length-split_inline : (xs : List (PayloadFinding W)) → length (split_inline xs).0 ≤ length xs
  unfolding split_inline
  length-split_inline [] = omega arith
  length-split_inline (x ∷ xs) = ground (arith, length-split_inline xs)

  -- the comment is the finding's own, and has a line
  abbrev pub IsComment : PayloadFinding W × CommentWrite → Type 0
  IsComment c = (c.1 ≡ inline_comment c.0) × (c.1.line ≢ none)

  -- the step of `split_inline`, on the line of the comment
  add_line :
      (x : PayloadFinding W) (line : Option ℤ)
      → (inline_comment x).line ≡ line
      → (rest : Split W) → All IsComment rest.0
      → All IsComment
          (elim line as (λ _. Split W) [
            | none ↦ (rest.0, x ∷ rest.1)
            | some n ↦ ((x, inline_comment x) ∷ rest.0, rest.1)
          ]).0
  add_line x none e rest h = h
  add_line x (some n) e rest h = ((refl, λ k. ground (arith, sym k ∙ e)), h)

  split_inline-lines : (xs : List (PayloadFinding W)) → All IsComment (split_inline xs).0
  unfolding split_inline
  split_inline-lines [] = tt
  split_inline-lines (x ∷ xs) =
      add_line x (inline_comment x).line refl (split_inline xs) (split_inline-lines xs)

  -- `split_findings` hands each finding either to an inline comment or to the body, and none to
  -- both: a predicate holds of as many findings after the split as before. It makes at most as many
  -- inline comments as the capacity allows, each the comment of its finding, with a line.
  pub split_findings-parts :
      (capacity : ℕ) (xs : List (PayloadFinding W)) (p : PayloadFinding W → Bool)
      → let parts = split_findings capacity xs in
        (count p (map (λ c. c.0) parts.0) + count p parts.1 ≡ count p xs)
        × (length parts.0 ≤ capacity)
        × All IsComment parts.0
  unfolding split_findings
  split_findings-parts capacity xs p = (
    omega (
      arith,
      count-split_inline p (take capacity xs),
      count-append p (split_inline (take capacity xs)).1 (drop capacity xs),
      count-append p (take capacity xs) (drop capacity xs),
      ap (count p) (take-append-drop capacity xs),
    ),
    omega (arith, length-split_inline (take capacity xs), length-take-le capacity xs),
    split_inline-lines (take capacity xs),
  )
