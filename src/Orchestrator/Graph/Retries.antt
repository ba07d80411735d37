-- ===== src/Orchestrator/Graph/Retries.antt =====
-- The retry node of backend/app/orchestrator/graph.py: what it leaves of an unfinished agent.
use adaptive_multi_agent_pr.Prelude.{
  ℕ, ◌+◌, ◌≤◌, ◌<◌, ◌≡◌, refl, Bool, true, false, ◌&&◌, ◌||◌, String, List, [], leb, ◌∷◌, arith,
  ◌==◌, eq_iff, if◌then◌else◌, ◌∙◌,
}
use adaptive_multi_agent_pr.Prelude.Dict.{get-put, contains}
use adaptive_multi_agent_pr.Orchestrator.Graph.{
  State, count_of, is_finished, AgentFailure, exhausted, retry_one, retry_all,
}
use adaptive_multi_agent_pr.Orchestrator.Graph.Nodes.{contains-map-snoc, entry}

-- the step of `retry_all_lem`, on the numbers and the tests alone
spend_lem :
    {now was inside : Bool} {c0 c1 c2 limit : ℕ} (b : Bool)
    → now ≡ (was || (b && leb limit (c0 + 1)))
    → now ≡ false
    → c1 ≡ (if b then c0 + 1 else c0)
    → (inside ≡ false → c2 ≡ c1)
    → (inside ≡ true → (c1 + 1 ≤ c2) × (c2 < limit))
    → (was ≡ false)
      × (((if b then true else inside) ≡ false → c2 ≡ c0)
          × ((if b then true else inside) ≡ true → (c0 + 1 ≤ c2) × (c2 < limit)))
spend_lem {inside = true} b e n c kept spent =
    let got = spent refl in (ground arith, ((λ a. ground arith), λ a. ground arith))
spend_lem {inside = false} b e n c kept spent =
    let got = kept refl in (ground arith, ((λ a. ground arith), λ a. ground arith))

module _ {F S : Type 0} where
  retry_one_lem :
      (limit : ℕ) (key : String) (s : State F S) (k : String)
      → (is_finished (retry_one limit key s) k
          ≡ (is_finished s k || (key == k && leb limit (count_of k s.retries + 1))))
        × (count_of k (retry_one limit key s).retries
            ≡ (if key == k then count_of k s.retries + 1 else count_of k s.retries))
  unfolding retry_one
  retry_one_lem limit key s k = ground (
    arith,
    contains-map-snoc (λ (x : AgentFailure). x.agent_key) s.failed
        (entry key (exhausted (count_of key s.retries + 1)) (count_of key s.retries + 1)) k,
    get-put key k (count_of key s.retries + 1) s.retries,
    eq_iff key k,
  )

  retry_one_plan :
      (limit : ℕ) (key : String) (s : State F S) → (retry_one limit key s).plan ≡ s.plan
  unfolding retry_one
  retry_one_plan limit key s = ground arith

  pub retry_all_plan :
      (limit : ℕ) (keys : List String) (s : State F S) → (retry_all limit keys s).plan ≡ s.plan
  unfolding retry_all
  retry_all_plan limit [] s = refl
  retry_all_plan limit (key ∷ keys) s =
      retry_all_plan limit keys (retry_one limit key s) ∙ retry_one_plan limit key s

  -- What the retry node leaves of an agent that is still unfinished.
  pub retry_all_lem :
      (limit : ℕ) (keys : List String) (s : State F S) (k : String)
      → is_finished (retry_all limit keys s) k ≡ false
      → (is_finished s k ≡ false)
        × ((contains keys k ≡ false
              → count_of k (retry_all limit keys s).retries ≡ count_of k s.retries)
            × (contains keys k ≡ true
                → (count_of k s.retries + 1 ≤ count_of k (retry_all limit keys s).retries)
                  × (count_of k (retry_all limit keys s).retries < limit)))
  unfolding retry_all contains
  retry_all_lem limit [] s k h = (h, ((λ e. refl), λ e. ground (arith, e)))
  retry_all_lem limit (key ∷ keys) s k h =
      let (before, (kept, spent)) = retry_all_lem limit keys (retry_one limit key s) k h in
      let (open_, counted) = retry_one_lem limit key s k in
      spend_lem (key == k) open_ before counted kept spent
