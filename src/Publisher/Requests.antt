-- ===== src/Publisher/Requests.antt =====
-- What backend/app/publisher/service.py exchanges with the GitHub client (github/schemas.py), and the
-- results of a pass.
use adaptive_multi_agent_pr.Prelude.{ℕ, String, Bool, Option, List}
use adaptive_multi_agent_pr.Store.{Store}
use adaptive_multi_agent_pr.Publisher.Render.{CommentWrite}

-- backend/app/github/schemas.py, less the fields that the publisher does not read
pub record ReviewWrite : Type 0 where
  pub commit_id : String
  pub event : String
  pub body : String
  pub comments : List CommentWrite

pub record ReviewResult : Type 0 where
  pub id : ℕ
  pub comments : List ℕ

pub record Request : Type 0 where
  pub owner : String
  pub repo : String
  pub number : ℕ
  pub write : ReviewWrite

pub record ApiError : Type 0 where
  pub status_code : ℕ
  pub retryable : Bool

pub data Reply : Type 0 where
  posted : ReviewResult → Reply
  api_error : ApiError → Reply
  -- any other exception
  crashed : Reply

abbrev pub Client : Type 0
Client = List Request → Reply

pub record PublishOutcome : Type 0 where
  pub review_id : String
  pub github_review_id : Option ℕ
  pub posted : ℕ
  pub degraded : ℕ
  pub already_published : Bool

pub data Cause : Type 0 where
  no_payload : String → Cause
  bad_full_name : String → Cause
  github_failed rejected : ApiError → Cause
  unexpected : Cause

pub record PublishError : Type 0 where
  pub cause : Cause
  pub retryable : Bool

pub data Published : Type 0 where
  done : PublishOutcome → Published
  raised : PublishError → Published

pub record World {ℓ} (W : Type ℓ) : Type ℓ where
  pub store : Store W
  pub sent : List Request

-- `publisher_claim_stale_seconds` and `publisher_max_comments_per_review`, neither of which is
-- negative
pub record Settings : Type 0 where
  pub claim_stale_seconds : ℕ
  pub max_comments_per_review : ℕ

-- what a post needs of the pull request
pub record Target : Type 0 where
  pub owner : String
  pub repo : String
  pub number : ℕ
  pub commit_id : String

-- an attempt's end: the result and the world
abbrev pub Pass {ℓ} : Type ℓ → Type ℓ
Pass W = Published × World W

abbrev pub request : Target → String → List CommentWrite → Request
request t body comments = record {
  owner = t.owner;
  repo = t.repo;
  number = t.number;
  write = record { commit_id = t.commit_id; event = "COMMENT"; body = body; comments = comments };
}
