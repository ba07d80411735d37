-- ===== src/Store/Claims.antt =====
-- The claim of a review for its publication, and the scan that offers reviews to claim, in
-- backend/app/orchestrator/persistence.py.
use adaptive_multi_agent_pr.Prelude.{
  ℕ, ◌≤◌, length, length-map, length-take-le, sym, ◌∙◌, eq_refl, String, ◌≡◌, refl, true, none,
  some, List, [], ◌∷◌, map, arith, take, select, leb, All, All-imp, All-take, Bool-cases,
  Option-cases, inl, inr, eq_iff,
}
use adaptive_multi_agent_pr.Prelude.Dict.{Dict, get, get-put_self}
use adaptive_multi_agent_pr.Prelude.Float.{Float}
use adaptive_multi_agent_pr.Prelude.Sort.{sort, sort-All}
use adaptive_multi_agent_pr.Store.{publishing, deciding, ReviewRecord, Store}
use adaptive_multi_agent_pr.Store.Reviews.{
  claimed_record, released_record, may_claim, claim_review_for_publication,
  release_review_from_publication,
}
use adaptive_multi_agent_pr.Store.Queue.{is_pending, review_lt, list_reviews_pending_publication}

module _ {ℓ} {V : Type ℓ} where
  -- no key stands twice
  abbrev pub IsKeyed : Dict V → Type ℓ
  IsKeyed [] = Unit
  IsKeyed ((k, v) ∷ d) = (get k d ≡ none) × IsKeyed d

module _ {ℓ} {W : Type ℓ} where
  claim_lem :
      (key : String) (cutoff now : ℕ) (s : Store W) (r : ReviewRecord W)
      → get key s.reviews ≡ some r
      → (claim_review_for_publication key cutoff now s).0 ≡ may_claim r cutoff
  unfolding claim_review_for_publication
  claim_lem key cutoff now s r e = ground (arith, e)

  pub claim_leaves :
      (key : String) (cutoff now : ℕ) (s : Store W)
      → (claim_review_for_publication key cutoff now s).0 ≡ true
      → (r : ReviewRecord W) × ((get key (claim_review_for_publication key cutoff now s).1.reviews
            ≡ some r)
          × ((r.status ≡ some publishing) × (r.claimed_at ≡ some now)))
  unfolding claim_review_for_publication
  claim_leaves key cutoff now s h = elim (Option-cases (get key s.reviews)) [
    | inl e ↦ absurd (ground (arith, e))
    | inr (r, e) ↦ (
      claimed_record now r,
      (ground (arith, e, get-put_self key (claimed_record now r) s.reviews), (refl, refl)),
    )
  ]

  pub release_leaves :
      (key : String) (now : ℕ) (s : Store W) (r : ReviewRecord W)
      → get key s.reviews ≡ some r
      → r.status ≡ some publishing
      → (q : ReviewRecord W) × ((get key (release_review_from_publication key now s).reviews
            ≡ some q)
          × (q.status ≡ some deciding))
  unfolding release_review_from_publication
  release_leaves key now s r e p = (
    released_record now r,
    (ground (arith, e, p, get-put_self key (released_record now r) s.reviews), refl),
  )

  -- Once a worker has claimed a review at `now`, a second claim succeeds exactly when its staleness
  -- bound is not before `now`, and after a release it succeeds with any bound.
  pub claim_review_for_publication-IsExclusive :
      (key : String) (cutoff now : ℕ) (s : Store W)
      → (claim_review_for_publication key cutoff now s).0 ≡ true
      → (cutoff' now' later : ℕ)
      → let s' = (claim_review_for_publication key cutoff now s).1 in
        ((claim_review_for_publication key cutoff' now' s').0 ≡ leb now cutoff')
        × ((claim_review_for_publication key cutoff' now'
              (release_review_from_publication key later s')).0
            ≡ true)
  unfolding may_claim
  claim_review_for_publication-IsExclusive key cutoff now s h cutoff' now' later =
      let s' = (claim_review_for_publication key cutoff now s).1 in
      let (r, (e, (p, t))) = claim_leaves key cutoff now s h in
      let (q, (e', p')) = release_leaves key later s' r e p in
      (
        ground (arith, claim_lem key cutoff' now' s' r e, p, t),
        ground (
          arith,
          claim_lem key cutoff' now' (release_review_from_publication key later s') q e',
          p',
        ),
      )

  get-entries : (d : Dict (ReviewRecord W)) → IsKeyed d → All (λ item. get item.0 d ≡ some item.1) d
  unfolding get
  get-entries [] h = tt
  get-entries ((k, r) ∷ d) h = (
    ground (arith, eq_iff k k, eq_refl k),
    All-imp (λ item e. ground (arith, e, eq_iff k item.0, h.0)) d (get-entries d h.1),
  )

module _ {ℓ} {W : Type ℓ} ⦃f : Float W⦄ where
  pending-may_claim :
      (cutoff : ℕ) (item : String × ReviewRecord W)
      → is_pending cutoff item ≡ may_claim item.1 cutoff
  unfolding is_pending may_claim
  pending-may_claim cutoff (key, r) = ground arith

  All-pending :
      (cutoff now : ℕ) (s : Store W) (d : Dict (ReviewRecord W))
      → All (λ item. get item.0 s.reviews ≡ some item.1) d
      → All
          (λ item. (claim_review_for_publication item.0 cutoff now s).0 ≡ true)
          (select (is_pending cutoff) d)
  All-pending cutoff now s [] h = tt
  All-pending cutoff now s (item ∷ d) h = elim (Bool-cases (is_pending cutoff item)) [
    | inl e ↦ rw e (
      claim_lem item.0 cutoff now s item.1 h.0 ∙ sym (pending-may_claim cutoff item) ∙ e,
      All-pending cutoff now s d h.1,
    )
    | inr e ↦ rw e (All-pending cutoff now s d h.1)
  ]

  All-map :
      (P : String → Type 0) (items : List (String × ReviewRecord W))
      → All (λ item. P item.0) items
      → All P (map (λ item. item.0) items)
  All-map P [] h = tt
  All-map P (item ∷ items) h = (h.0, All-map P items h.1)

  -- If no review id stands twice in the store, then each review that the scan for pending
  -- publications lists can be claimed with the same staleness bound, and it lists at most as many
  -- as its limit.
  pub list_reviews_pending_publication-All :
      (limit cutoff now : ℕ) (s : Store W)
      → IsKeyed s.reviews
      → let keys = list_reviews_pending_publication limit cutoff s in
        All (λ key. (claim_review_for_publication key cutoff now s).0 ≡ true) keys
        × (length keys ≤ limit)
  unfolding list_reviews_pending_publication
  list_reviews_pending_publication-All limit cutoff now s keyed =
      let found = select (is_pending cutoff) s.reviews in
      let claims : String → Type 0 =
        λ key. (claim_review_for_publication key cutoff now s).0 ≡ true in
      (
        All-map claims (take limit (sort review_lt found)) (
            All-take (λ item. claims item.0) limit (sort review_lt found)
              (sort-All review_lt (λ item. claims item.0) found
                (All-pending cutoff now s s.reviews (get-entries s.reviews keyed)))),
        omega (
          arith,
          length-map (λ (item : String × ReviewRecord W). item.0)
              (take limit (sort review_lt found)),
          length-take-le limit (sort review_lt found),
        ),
      )
