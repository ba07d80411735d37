-- ===== src/Examples/Posting.antt =====
-- Examples for backend/app/publisher and the store's claims.
use adaptive_multi_agent_pr.Prelude.{
  ◌+◌, ◌≤◌, String, ◌≡◌, refl, true, ◌==◌, leb, Option, none, some, List, [], ◌∷◌, length, map, All,
  count,
}
use adaptive_multi_agent_pr.Prelude.Int.{ℤ, pos}
use adaptive_multi_agent_pr.Prelude.Dict.{get}
use adaptive_multi_agent_pr.Prelude.Float.{Micros, micros_float}
use adaptive_multi_agent_pr.Store.{
  Store, empty_store, FindingRow, scheduled, ReviewRecord, empty_record, ReviewStatus, deciding,
  publishing,
}
use adaptive_multi_agent_pr.Store.Reviews.{
  claim_review_for_publication, release_review_from_publication,
}
use adaptive_multi_agent_pr.Store.Queue.{list_reviews_pending_publication}
use adaptive_multi_agent_pr.Store.Payload.{PayloadFinding}
use adaptive_multi_agent_pr.Store.Claims.{
  claim_review_for_publication-IsExclusive, list_reviews_pending_publication-All,
}
use adaptive_multi_agent_pr.Publisher.Requests.{Settings, Client, posted}
use adaptive_multi_agent_pr.Publisher.{split_findings, publish_review}
use adaptive_multi_agent_pr.Publisher.Parts.{IsComment, split_findings-parts}
use adaptive_multi_agent_pr.Publisher.Complete.{IsClean, publish_review-IsClean}
use adaptive_multi_agent_pr.Publisher.Ends.{Ends}

abbrev at_status : ReviewStatus → ReviewRecord Micros
at_status status = record empty_record { status = some status }

abbrev store : Store Micros
store = record empty_store {
  reviews =
      ("r1", at_status deciding)
      ∷ ("r2", record (at_status publishing) { claimed_at = some 900 })
      ∷ [];
}

claim_review_for_publication-IsExclusive_example :
    let s' = (claim_review_for_publication "r1" 500 1000 store).1 in
    ((claim_review_for_publication "r1" 700 1200 s').0 ≡ leb 1000 700)
    × ((claim_review_for_publication "r1" 700 1200 (release_review_from_publication "r1" 1100 s')).0
        ≡ true)
unfolding claim_review_for_publication get
claim_review_for_publication-IsExclusive_example =
    claim_review_for_publication-IsExclusive "r1" 500 1000 store refl 700 1200 1100

list_reviews_pending_publication-All_example :
    let keys = list_reviews_pending_publication 5 950 store in
    All (λ key. (claim_review_for_publication key 950 1000 store).0 ≡ true) keys × (length keys ≤ 5)
unfolding get
list_reviews_pending_publication-All_example =
    list_reviews_pending_publication-All 5 950 1000 store (refl, (refl, tt))

abbrev found_at : String → Option ℤ → PayloadFinding Micros
found_at id line = record {
  id = id;
  file_path = "a.py";
  line_start = line;
  line_end = none;
  category = "security/xss";
  severity = "High";
  confidence = pos 900_000;
  title = "t";
  description = "d";
  suggested_fix = some "fix";
  arum_utility = none;
}

abbrev found : List (PayloadFinding Micros)
found = found_at "a" (some (pos 3)) ∷ found_at "b" none ∷ found_at "c" (some (pos 9)) ∷ []

split_findings-parts_example :
    let parts = split_findings 2 found in
    (count (λ x. x.id == "b") (map (λ c. c.0) parts.0) + count (λ x. x.id == "b") parts.1
      ≡ count (λ x. x.id == "b") found)
    × (length parts.0 ≤ 2)
    × All IsComment parts.0
split_findings-parts_example = split_findings-parts 2 found (λ x. x.id == "b")

abbrev settings : Settings
settings = record { claim_stale_seconds = 300; max_comments_per_review = 20 }

abbrev github : Client
github sent = posted (record { id = length sent; comments = [] })

abbrev row_of : String → Option ℤ → FindingRow Micros
row_of id line = record {
  finding = record {
    id = id;
    agent_key = "security";
    agent_id = "1";
    review_id = "r1";
    repository_id = "repo";
    file_path = "a.py";
    line_start = line;
    line_end = none;
    category = "security/xss";
    severity = "High";
    confidence = pos 900_000;
    title = "t";
    description = "d";
    suggested_fix = none;
    reason_summary = "r";
    duplicate_group = none;
  };
  publication_status = scheduled;
  arum_features = none;
  arum_utility = some (pos 500_000);
  arum_version = none;
  github_comment_id = none;
}

abbrev full_store : Store Micros
full_store = record empty_store {
  reviews =
      (
        "r1",
        record (at_status deciding) { repository_full_name = some "octo/app"; pr_number = some 7 },
      )
      ∷ [];
  findings = row_of "a" (some (pos 3)) ∷ row_of "b" none ∷ [];
}

publish_review-IsClean_example :
    IsClean "r1"
      (publish_review settings github "r1" 1000 1000 (record { store = full_store; sent = [] }))
unfolding claim_review_for_publication get
publish_review-IsClean_example =
    publish_review-IsClean settings github "r1" 1000 1000 (record { store = full_store; sent = [] })
      ((refl, tt), (tt, tt)) refl
