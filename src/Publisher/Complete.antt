-- ===== src/Publisher/Complete.antt =====
-- The findings of a review after a pass of backend/app/publisher/service.py.
use mathlib.Core.Path.{subst}
use adaptive_multi_agent_pr.Prelude.{
  ℕ, ◌-◌, ◌*◌, String, ◌≡◌, refl, Bool, true, false, not, ◌||◌, implies, if◌then◌else◌, Option,
  none, some, List, [], ◌∷◌, ◌++◌, map, length, arith, All, All-imp, All-intro, ap, sym,
}
use adaptive_multi_agent_pr.Prelude.Dict.{contains}
use adaptive_multi_agent_pr.Prelude.Float.{Float}
use adaptive_multi_agent_pr.Store.{FindingRow, Store}
use adaptive_multi_agent_pr.Store.Payload.{
  PayloadFinding, Payload, is_scheduled, payload_of, publication_payload,
}
use adaptive_multi_agent_pr.Store.Findings.{mark_findings_published}
use adaptive_multi_agent_pr.Store.Reviews.{
  claim_review_for_publication, mark_review_published, transition, append_note,
}
use adaptive_multi_agent_pr.Store.Claims.{claim_leaves}
use adaptive_multi_agent_pr.Publisher.Requests.{
  Published, done, raised, Cause, github_failed, rejected, unexpected, World, Pass, request,
  Settings, Client, Target, Reply, posted, api_error, crashed, ReviewResult,
}
use adaptive_multi_agent_pr.Publisher.{
  fail, release, send, Split, split_findings, map_comment_ids, uncommented, record_posted,
  after_body_only, post_body_only, after_review, post_review, publish_findings, publish_payload,
  publish_claimed, publish_review,
}
use adaptive_multi_agent_pr.Publisher.Render.{review_body, summary_text}
use adaptive_multi_agent_pr.Publisher.Marks.{
  IsDistinct, Covers, mark_findings_published-All, contains-updates, contains-split_findings,
  payload_of-Covers,
}

abbrev is_done : Published → Bool
is_done p = elim p [ done o ↦ true | raised e ↦ false ]

module _ {ℓ} {W : Type ℓ} where
  -- After an outcome, no finding of the review is scheduled.
  abbrev pub IsClean : String → Pass W → Type 0
  IsClean rid (result, w) =
      All (λ row. implies (is_done result) (not (is_scheduled rid row)) ≡ true) w.store.findings

  -- the findings `xs` are all that is scheduled
  abbrev Ready : String → List (PayloadFinding W) → World W → Type 0
  Ready rid xs w = IsDistinct w.store.findings × Covers rid (map (λ x. x.id) xs) w.store.findings

  mark_review_published_keeps :
      (rid : String) (id : Option ℕ) (now clock : ℕ) (s : Store W)
      → (mark_review_published rid id now clock s).findings ≡ s.findings
  unfolding mark_review_published transition append_note
  mark_review_published_keeps rid id now clock s = ground arith

  claim_keeps :
      (rid : String) (cutoff now : ℕ) (s : Store W)
      → (claim_review_for_publication rid cutoff now s).1.findings ≡ s.findings
  unfolding claim_review_for_publication
  claim_keeps rid cutoff now s = ground arith

  clean_rows :
      (rid : String) (rows : List (FindingRow W))
      → All (λ row. is_scheduled rid row ≡ false) rows
      → All (λ row. implies true (not (is_scheduled rid row)) ≡ true) rows
  clean_rows rid = All-imp (λ row h. ground (arith, h))

  fail-IsClean :
      (rid : String) (cause : Cause) (b : Bool) (w : World W) → IsClean rid (fail cause b w)
  fail-IsClean rid cause b w = All-intro (λ row. refl) w.store.findings

  if-IsClean :
      (rid : String) (b : Bool) (x y : Pass W)
      → IsClean rid x
      → IsClean rid y
      → IsClean rid (if b then x else y)
  if-IsClean rid true x y h k = h
  if-IsClean rid false x y h k = k

  record_posted-IsClean :
      (rid : String) (now clock : ℕ) (parts : Split W) (result : ReviewResult)
      (xs : List (PayloadFinding W)) (w : World W)
      → ((k : String)
          → (contains (map (λ c. c.0.id) parts.0) k || contains (map (λ x. x.id) parts.1) k)
            ≡ contains (map (λ x. x.id) xs) k)
      → Ready rid xs w
      → IsClean rid (record_posted rid now clock parts result w)
  unfolding record_posted
  record_posted-IsClean rid now clock (inline, body) result xs w whole (d, covers) =
      let updates = map_comment_ids inline result.comments ++ uncommented body in
      subst (All (λ row. implies true (not (is_scheduled rid row)) ≡ true))
        (sym (
          mark_review_published_keeps rid (some result.id) now clock
            (mark_findings_published rid updates w.store)))
        (clean_rows rid _ (
          mark_findings_published-All rid updates w.store d (
            All-imp
              (λ row h. ground (
                arith,
                h,
                whole row.finding.id,
                contains-updates inline body result.comments row.finding.id,
              ))
              w.store.findings covers)))

  after_body_only-IsClean :
      (rid : String) (now clock : ℕ) (xs : List (PayloadFinding W)) (w : World W) (reply : Reply)
      → Ready rid xs w
      → IsClean rid (after_body_only rid now clock xs w reply)
  unfolding after_body_only contains
  after_body_only-IsClean rid now clock xs w (posted result) ready =
      record_posted-IsClean rid now clock ([], xs) result xs w (λ k. refl) ready
  after_body_only-IsClean rid now clock xs w (api_error e) ready =
      if-IsClean rid e.retryable (fail (github_failed e) true w) (fail (rejected e) false w)
        (fail-IsClean rid (github_failed e) true w) (fail-IsClean rid (rejected e) false w)
  after_body_only-IsClean rid now clock xs w crashed ready =
      fail-IsClean rid unexpected true (release rid clock w)

  after_review-IsClean :
      (client : Client) (rid : String) (capacity now clock : ℕ) (t : Target)
      (xs : List (PayloadFinding W)) (w : World W) (reply : Reply)
      → Ready rid xs w
      → IsClean rid (after_review client rid now clock t xs (split_findings capacity xs) w reply)
  unfolding after_review post_body_only
  after_review-IsClean client rid capacity now clock t xs w (posted result) ready =
      record_posted-IsClean rid now clock (split_findings capacity xs) result xs w
        (contains-split_findings capacity xs) ready
  after_review-IsClean client rid capacity now clock t xs w (api_error e) ready =
      if-IsClean rid e.retryable (fail (github_failed e) true (release rid clock w))
        (post_body_only client rid now clock t xs w)
        (fail-IsClean rid (github_failed e) true (release rid clock w))
        (after_body_only-IsClean rid now clock xs _ _ ready)
  after_review-IsClean client rid capacity now clock t xs w crashed ready =
      fail-IsClean rid unexpected true (release rid clock w)

  post_review-IsClean :
      (client : Client) (rid : String) (capacity now clock : ℕ) (t : Target)
      (xs : List (PayloadFinding W)) (w : World W)
      → Ready rid xs w
      → IsClean rid (post_review client rid capacity now clock t xs w)
  unfolding post_review
  post_review-IsClean client rid capacity now clock t xs w ready =
      let parts : Split W = split_findings capacity xs in
      let body = review_body (summary_text (length parts.0) (length parts.1)) parts.1 in
      let w' : World W = send (request t body (map (λ x. x.1) parts.0)) w in
      after_review-IsClean client rid capacity now clock t xs w' (client w'.sent) ready

  publish_findings-IsClean :
      (cfg : Settings) (client : Client) (now clock : ℕ) (p : Payload W)
      (name : Option (String × String)) (number : Option ℕ) (w : World W)
      → Ready p.review_id p.findings w
      → IsClean p.review_id (publish_findings cfg client now clock p name number w)
  unfolding publish_findings
  publish_findings-IsClean cfg client now clock p none number w ready =
      All-intro (λ row. refl) w.store.findings
  publish_findings-IsClean cfg client now clock p (some (owner, repo)) none w ready =
      fail-IsClean p.review_id unexpected true (release p.review_id clock w)
  publish_findings-IsClean cfg client now clock p (some (owner, repo)) (some number) w ready =
      post_review-IsClean client p.review_id cfg.max_comments_per_review now clock
        (record { owner = owner; repo = repo; number = number; commit_id = p.head_sha }) p.findings
        w ready

  publish_payload-IsClean :
      (cfg : Settings) (client : Client) (now clock : ℕ) (p : Payload W)
      (xs : List (PayloadFinding W)) (w : World W)
      → p.findings ≡ xs
      → Ready p.review_id p.findings w
      → IsClean p.review_id (publish_payload cfg client now clock p w)
  unfolding publish_payload contains
  publish_payload-IsClean cfg client now clock p [] w e ready =
      rw (e, publish_payload)
        (subst (All (λ row. implies true (not (is_scheduled p.review_id row)) ≡ true))
          (sym (mark_review_published_keeps p.review_id none now clock w.store))
          (clean_rows p.review_id _ (
            All-imp
              (λ row h. ground (
                arith,
                h,
                ap (λ ys. contains (map (λ (x : PayloadFinding W). x.id) ys) row.finding.id) e,
              ))
              w.store.findings ready.1)))
  publish_payload-IsClean cfg client now clock p (x ∷ xs) w e ready =
      rw (e, publish_payload)
        (publish_findings-IsClean cfg client now clock p _ p.pr_number w ready)

module _ {ℓ} {W : Type ℓ} ⦃f : Float W⦄ where
  -- If no two findings have the same id and the claim of the review succeeds, then a pass that ends
  -- with an outcome leaves no finding of the review scheduled.
  pub publish_review-IsClean :
      (cfg : Settings) (client : Client) (rid : String) (now clock : ℕ) (w : World W)
      → IsDistinct w.store.findings
      → (claim_review_for_publication rid
          (now - cfg.claim_stale_seconds * 1_000_000)
          clock
          w.store).0
        ≡ true
      → IsClean rid (publish_review cfg client rid now clock w)
  unfolding publish_review publish_claimed publication_payload payload_of
  publish_review-IsClean cfg client rid now clock w d claimed =
      let cutoff = now - cfg.claim_stale_seconds * 1_000_000 in
      let s : Store W = (claim_review_for_publication rid cutoff clock w.store).1 in
      let (r, (at_key, _)) = claim_leaves rid cutoff clock w.store claimed in
      let w' : World W = record w { store = s } in
      let p : Payload W = payload_of rid s r in
      rw (claimed, publish_review)
        (rw (at_key, publication_payload)
          (publish_payload-IsClean cfg client now clock p p.findings w' refl (
            subst IsDistinct (sym (claim_keeps rid cutoff clock w.store)) d,
            payload_of-Covers rid s r,
          )))
