-- ===== src/Publisher.antt =====
-- backend/app/publisher/service.py: one pass of the publisher over a review. The GitHub client is a
-- parameter: its reply may depend on every request made before, the last one first in `sent`. The
-- clock of the store stands still during a pass, and a time is no smaller than the staleness bound.
pub mod Render
pub mod Requests
pub mod Parts
pub mod Ends
pub mod Marks
pub mod Complete
use adaptive_multi_agent_pr.Prelude.{
  ℕ, zero, suc, ◌+◌, ◌-◌, ◌*◌, String, Bool, true, false, Option, none, some, List, [], ◌∷◌, ◌++◌,
  map, length, take, drop, if◌then◌else◌,
}
use adaptive_multi_agent_pr.Prelude.Float.{Float}
use adaptive_multi_agent_pr.Prelude.Int.{ℤ}
use adaptive_multi_agent_pr.Store.{Store}
use adaptive_multi_agent_pr.Store.Payload.{PayloadFinding, Payload, publication_payload}
use adaptive_multi_agent_pr.Store.Findings.{mark_findings_published}
use adaptive_multi_agent_pr.Store.Reviews.{
  claim_review_for_publication, release_review_from_publication, mark_review_published,
}
use adaptive_multi_agent_pr.Publisher.Requests.{
  ReviewWrite, ReviewResult, Request, ApiError, Reply, posted, api_error, crashed, Client,
  PublishOutcome, Cause, no_payload, bad_full_name, github_failed, rejected, unexpected,
  PublishError, Published, done, raised, World, Settings, Target, Pass, request,
}
use adaptive_multi_agent_pr.Publisher.Render.{
  CommentWrite, inline_comment, review_body, summary_text, split_full_name,
}

-- The findings with an inline comment, and those of the body.
abbrev pub Split {ℓ} : Type ℓ → Type ℓ
Split W = List (PayloadFinding W × CommentWrite) × List (PayloadFinding W)

module _ {ℓ} {W : Type ℓ} where
  unfoldable pub split_inline : List (PayloadFinding W) → Split W
  unfolding inline_comment
  split_inline [] = ([], [])
  split_inline (x ∷ xs) =
      let rest = split_inline xs in
      let comment = inline_comment x in
      elim comment.line [ none ↦ (rest.0, x ∷ rest.1) | some n ↦ ((x, comment) ∷ rest.0, rest.1) ]

  unfoldable pub split_findings : ℕ → List (PayloadFinding W) → Split W
  unfolding split_inline
  split_findings capacity xs =
      let parts = split_inline (take capacity xs) in (parts.0, parts.1 ++ drop capacity xs)

  -- `_map_comment_ids`
  unfoldable pub map_comment_ids :
      List (PayloadFinding W × CommentWrite) → List ℕ → List (String × Option ℕ)
  map_comment_ids [] ids = []
  map_comment_ids ((x, c) ∷ inline) [] = (x.id, none) ∷ map_comment_ids inline []
  map_comment_ids ((x, c) ∷ inline) (i ∷ ids) = (x.id, some i) ∷ map_comment_ids inline ids

  -- the review's findings that the body holds
  abbrev pub uncommented : List (PayloadFinding W) → List (String × Option ℕ)
  uncommented xs = map (λ x. (x.id, none)) xs

  abbrev pub send : Request → World W → World W
  send r w = record w { sent = r ∷ w.sent }

  -- what follows a post that GitHub took
  unfoldable pub record_posted : String → ℕ → ℕ → Split W → ReviewResult → World W → Pass W
  unfolding map_comment_ids mark_findings_published mark_review_published
  record_posted rid now clock (inline, body) result w =
      let updates = map_comment_ids inline result.comments ++ uncommented body in
      let marked = mark_findings_published rid updates w.store in
      (
        done (record {
          review_id = rid;
          github_review_id = some result.id;
          posted = length inline;
          degraded = length body;
          already_published = false;
        }),
        record w { store = mark_review_published rid (some result.id) now clock marked },
      )

  abbrev pub fail : Cause → Bool → World W → Pass W
  fail cause retryable w = (raised (record { cause = cause; retryable = retryable }), w)

  abbrev pub release : String → ℕ → World W → World W
  release rid clock w = record w { store = release_review_from_publication rid clock w.store }

  -- what the reply to the post of `_post_body_only` comes to
  unfoldable pub after_body_only :
      String → ℕ → ℕ → List (PayloadFinding W) → World W → Reply → Pass W
  unfolding record_posted
  after_body_only rid now clock findings w (posted result) =
      record_posted rid now clock ([], findings) result w
  after_body_only rid now clock findings w (api_error e) =
      if e.retryable then fail (github_failed e) true w else fail (rejected e) false w
  after_body_only rid now clock findings w crashed = fail unexpected true (release rid clock w)

  -- `_post_body_only`, after GitHub rejected the positions of the comments
  unfoldable pub post_body_only :
      Client → String → ℕ → ℕ → Target → List (PayloadFinding W) → World W → Pass W
  unfolding after_body_only review_body
  post_body_only client rid now clock target findings w =
      let body = review_body "Automated review body (inline comments rejected):" findings in
      let w' = send (request target body []) w in
      after_body_only rid now clock findings w' (client w'.sent)

  -- what the reply to the post with the inline comments comes to
  unfoldable pub after_review :
      Client
      → String
      → ℕ
      → ℕ
      → Target
      → List (PayloadFinding W)
      → Split W
      → World W
      → Reply
      → Pass W
  unfolding record_posted post_body_only
  after_review client rid now clock target findings parts w (posted result) =
      record_posted rid now clock parts result w
  after_review client rid now clock target findings parts w (api_error e) =
      if e.retryable
      then fail (github_failed e) true (release rid clock w)
      else post_body_only client rid now clock target findings w
  after_review client rid now clock target findings parts w crashed =
      fail unexpected true (release rid clock w)

  unfoldable pub post_review :
      Client → String → ℕ → ℕ → ℕ → Target → List (PayloadFinding W) → World W → Pass W
  unfolding split_findings after_review review_body summary_text
  post_review client rid capacity now clock target findings w =
      let parts = split_findings capacity findings in
      let body = review_body (summary_text (length parts.0) (length parts.1)) parts.1 in
      let w' = send (request target body (map (λ x. x.1) parts.0)) w in
      after_review client rid now clock target findings parts w' (client w'.sent)

  -- a pass over findings that are not empty, once the name of the repository is read
  unfoldable pub publish_findings :
      Settings → Client → ℕ → ℕ → Payload W → Option (String × String) → Option ℕ → World W → Pass W
  unfolding post_review
  publish_findings cfg client now clock p none number w =
      fail (bad_full_name p.repository_full_name) false w
  publish_findings cfg client now clock p (some (owner, repo)) none w =
      fail unexpected true (release p.review_id clock w)
  publish_findings cfg client now clock p (some (owner, repo)) (some number) w =
      post_review client p.review_id cfg.max_comments_per_review now clock
        (record { owner = owner; repo = repo; number = number; commit_id = p.head_sha }) p.findings
        w

  unfoldable pub publish_payload : Settings → Client → ℕ → ℕ → Payload W → World W → Pass W
  unfolding publish_findings split_full_name mark_review_published
  publish_payload cfg client now clock p w = elim p.findings [
    | [] ↦ (
      done (record {
        review_id = p.review_id;
        github_review_id = none;
        posted = 0;
        degraded = 0;
        already_published = false;
      }),
      record w { store = mark_review_published p.review_id none now clock w.store },
    )
    | x ∷ xs ↦
        publish_findings cfg client now clock p (split_full_name p.repository_full_name) p.pr_number
          w
  ]

  unfoldable pub publish_claimed :
      Settings → Client → String → ℕ → ℕ → World W → Option (Payload W) → Pass W
  unfolding publish_payload
  publish_claimed cfg client rid now clock w none = fail (no_payload rid) false w
  publish_claimed cfg client rid now clock w (some p) = publish_payload cfg client now clock p w

module _ {ℓ} {W : Type ℓ} ⦃f : Float W⦄ where
  unfoldable pub publish_review : Settings → Client → String → ℕ → ℕ → World W → Pass W
  unfolding claim_review_for_publication publication_payload publish_claimed
  publish_review cfg client rid now clock w =
      let cutoff = now - cfg.claim_stale_seconds * 1_000_000 in
      let (claimed, s) = claim_review_for_publication rid cutoff clock w.store in
      let w' = record w { store = s } in
      if claimed then publish_claimed cfg client rid now clock w' (publication_payload rid s) else (
        done (record {
          review_id = rid;
          github_review_id = none;
          posted = 0;
          degraded = 0;
          already_published = true;
        }),
        w',
      )
