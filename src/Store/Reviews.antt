-- ===== src/Store/Reviews.antt =====
-- The operations of backend/app/orchestrator/persistence.py on a review: its life cycle and the claim
-- of its publication.
use adaptive_multi_agent_pr.Prelude.{
  ℕ, String, Bool, true, false, Option, none, some, [], ◌∷◌, ◌++◌, leb, if◌then◌else◌,
}
use adaptive_multi_agent_pr.Prelude.Dict.{get}
use adaptive_multi_agent_pr.Store.{
  ReviewStatus, deciding, iterating, publishing, published_, ReviewRecord, Store, set_review,
  review_or_empty,
}
use adaptive_multi_agent_pr.Orchestrator.Messages.{Diagnosis, Note, text}

-- `x if x is not None else y`
abbrev or_old {ℓ} : {A : Type ℓ} → Option A → Option A → Option A
or_old none old = old
or_old (some x) old = some x

module _ {ℓ} {W : Type ℓ} where
  unfoldable pub transition :
      String → ReviewStatus → Option Diagnosis → Option Diagnosis → Option ℕ → ℕ → Store W → Store W
  transition key status failure_reason root_cause completed_at now s =
      let r = review_or_empty key s in
      set_review key
        (record r {
          status = some status;
          failure_reason = or_old failure_reason r.failure_reason;
          root_cause = or_old root_cause r.root_cause;
          completed_at = or_old completed_at r.completed_at;
          status_history =
              r.status_history ++ record { status = status; from = r.status; at = now } ∷ [];
        })
        s

  unfoldable pub append_note : String → Note → Store W → Store W
  append_note key note s =
      let r = review_or_empty key s in
      set_review key (record r { supervisor_notes = r.supervisor_notes ++ note ∷ [] }) s

  unfoldable pub record_decision : String → String → ℕ → ℕ → ℕ → Store W → Store W
  record_decision key version cap selected suppressed s = elim (get key s.reviews) [
    | none ↦ s
    | some r ↦
        set_review key
          (record r {
            arum_version = some version;
            budget_cap = some cap;
            selected_count = some selected;
            suppressed_count = some suppressed;
          })
          s
  ]

  -- Whether a claim may start: `claimed_at` counts for a review that is being published.
  unfoldable pub may_claim : ReviewRecord W → ℕ → Bool
  may_claim r claim_stale_before = elim r.status [
    | some deciding ↦ true
    | some iterating ↦ true
    | some publishing ↦ elim r.claimed_at [ none ↦ false | some t ↦ leb t claim_stale_before ]
    | _ ↦ false
  ]

  abbrev pub claimed_record : ℕ → ReviewRecord W → ReviewRecord W
  claimed_record now r = record r {
    status = some publishing;
    claimed_at = some now;
    status_history =
        r.status_history ++ record { status = publishing; from = r.status; at = now } ∷ [];
  }

  abbrev pub released_record : ℕ → ReviewRecord W → ReviewRecord W
  released_record now r = record r {
    status = some deciding;
    claimed_at = none;
    status_history =
        r.status_history ++ record { status = deciding; from = some publishing; at = now } ∷ [];
  }

  -- The answer, and the store after it.
  unfoldable pub claim_review_for_publication : String → ℕ → ℕ → Store W → Bool × Store W
  unfolding may_claim
  claim_review_for_publication key claim_stale_before now s = elim (get key s.reviews) [
    | none ↦ (false, s)
    | some r ↦
        if may_claim r claim_stale_before
        then (true, set_review key (claimed_record now r) s)
        else (false, s)
  ]

  -- `record.get("status") == PUBLISHING`
  abbrev pub is_publishing : ReviewRecord W → Bool
  is_publishing r = elim r.status [ some publishing ↦ true | _ ↦ false ]

  unfoldable pub release_review_from_publication : String → ℕ → Store W → Store W
  release_review_from_publication key now s = elim (get key s.reviews) [
    | none ↦ s
    | some r ↦ if is_publishing r then set_review key (released_record now r) s else s
  ]

  -- `now` is the time of the transition, which `mark_review_published` does not pass on.
  unfoldable pub mark_review_published : String → Option ℕ → ℕ → ℕ → Store W → Store W
  unfolding transition append_note
  mark_review_published key github_review_id published_at now s = elim (get key s.reviews) [
    | none ↦ s
    | some r ↦
        let marked =
          set_review key
            (record r { github_review_id = github_review_id; published_at = some published_at })
            s in
        let moved = transition key published_ none none (some published_at) now marked in
        append_note key (text "publisher: PR review posted to GitHub.") moved
  ]

  unfoldable pub review_repository : String → Store W → Option String
  review_repository key s = elim (get key s.reviews) [ none ↦ none | some r ↦ r.repository_id ]
