-- ===== src/Store/Queue.antt =====
-- The reviews that wait for their publication, in the order in which the beat takes them.
use adaptive_multi_agent_pr.Prelude.{
  ℕ, String, Bool, true, false, Option, none, some, List, map, take, leb, select, if◌then◌else◌,
}
use adaptive_multi_agent_pr.Prelude.Float.{Float, eq}
use adaptive_multi_agent_pr.Prelude.Sort.{sort}
use adaptive_multi_agent_pr.Prelude.Text.{text_lt}
use adaptive_multi_agent_pr.Store.{deciding, iterating, publishing, ReviewRecord, Store}

module _ {ℓ} {W : Type ℓ} ⦃f : Float W⦄ where
  -- `x or 0.0`
  abbrev pub or_zero : Option W → W
  or_zero none = f.lit 0 0
  or_zero (some x) = if eq x (f.lit 0 0) then f.lit 0 0 else x

  -- the tuples (-(score or 0.0), id) in their order
  unfoldable pub item_lt : Option W → String → Option W → String → Bool
  item_lt x i y j =
      let a = f.neg (or_zero x) in
      let b = f.neg (or_zero y) in if eq a b then text_lt i j else f.lt a b

  -- `claim_stale_before` is the time at which a claim that no worker ended counts as lost.
  unfoldable pub is_pending : ℕ → String × ReviewRecord W → Bool
  is_pending claim_stale_before (key, r) = elim r.status [
    | some deciding ↦ true
    | some iterating ↦ true
    | some publishing ↦ elim r.claimed_at [ none ↦ false | some t ↦ leb t claim_stale_before ]
    | _ ↦ false
  ]

  abbrev pub review_lt : String × ReviewRecord W → String × ReviewRecord W → Bool
  review_lt (i, r) (j, q) = item_lt r.priority_score i q.priority_score j

  unfoldable pub list_reviews_pending_publication : ℕ → ℕ → Store W → List String
  unfolding is_pending item_lt
  list_reviews_pending_publication limit claim_stale_before s =
      map (λ item. item.0)
        (take limit (sort review_lt (select (is_pending claim_stale_before) s.reviews)))
