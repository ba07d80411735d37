-- ===== src/Adaptive/Rag/Top.antt =====
-- What the retrieval of backend/app/adaptive/rag.py returns.
use adaptive_multi_agent_pr.Prelude.{
  ◌⊎◌, zero, sym, if◌then◌else◌, ℕ, suc, ◌≤◌, ◌≡◌, refl, ap, Bool, true, false, not, ◌&&◌, List, [],
  ◌∷◌, ◌++◌, String, arith, eq_iff, take, drop, All, All-imp, All-take, Bool-cases, inl, inr,
  length, length-take-le, take-append-drop,
}
use adaptive_multi_agent_pr.Prelude.Float.{Float, IsOrdered, ◌≼◌, fmax, fmin}
use adaptive_multi_agent_pr.Prelude.Text.{text_lt_asym, text_lt_trans, text_lt_connected}
use adaptive_multi_agent_pr.Prelude.Sort.{
  IsOrder, IsSorted, sort, sort-IsSorted, sort-All, sort-All_rev, sort-perm, take-IsSorted,
  IsSorted-take-drop,
}
use mathlib.Core.List.{Perm, Mem, mem-cons_self}
use mathlib.Core.List.Perm
use mathlib.Core.Path.{subst}
use adaptive_multi_agent_pr.Adaptive.Features.Bounds.{InUnit, clamped}
use adaptive_multi_agent_pr.Consolidation.Similarity.{cosine_similarity}
use adaptive_multi_agent_pr.Adaptive.Rag.{
  EmbeddingRow, RagHit, Filter, or_blank, pair_lt, above, scored_hits, top_k_similar, best_cosine,
  max_relevance, passes, hit_of,
}

pair_lt_asym : (a b c d : String) → pair_lt a b c d ≡ true → pair_lt c d a b ≡ false
unfolding pair_lt
pair_lt_asym a b c d = ground (arith, text_lt_asym a c, text_lt_asym b d, eq_iff a c, eq_iff c a)

pair_lt_trans :
    (a b c d e g : String)
    → pair_lt c d a b ≡ false
    → pair_lt e g c d ≡ false
    → pair_lt e g a b ≡ false
unfolding pair_lt
pair_lt_trans a b c d e g = ground (
  arith,
  text_lt_trans a c e,
  text_lt_trans b d g,
  text_lt_trans c e c,
  text_lt_trans e c a,
  text_lt_connected a c,
  text_lt_connected c e,
  text_lt_asym a c,
  text_lt_asym c e,
  eq_iff a c,
  eq_iff c a,
  eq_iff c e,
  eq_iff e c,
  eq_iff e a,
  eq_iff a e,
)

module _ {ℓ} {W : Type ℓ} ⦃f : Float W⦄ (laws : IsOrdered W) where
  open laws use {le_refl, le_trans, le_total, lt-eq-not-le, lit_unit}

  above_asym : (a b : RagHit W) → above a b ≡ true → above b a ≡ false
  unfolding above
  above_asym a b =
      let x = a.cosine in
      let y = b.cosine in
      ground (
        arith,
        lt-eq-not-le x y,
        lt-eq-not-le y x,
        le_total x y,
        pair_lt_asym (or_blank b.finding_id) (or_blank b.content_text) (or_blank a.finding_id)
            (or_blank a.content_text),
      )

  above_trans : (a b c : RagHit W) → above b a ≡ false → above c b ≡ false → above c a ≡ false
  unfolding above
  above_trans a b c =
      let x = a.cosine in
      let y = b.cosine in
      let z = c.cosine in
      ground (
        arith,
        lt-eq-not-le x y,
        lt-eq-not-le y z,
        lt-eq-not-le x z,
        le_trans x y z,
        le_trans y z x,
        le_trans z x y,
        le_trans x z y,
        le_trans z y x,
        le_trans y x z,
        le_total x y,
        le_total y z,
        le_total x z,
        pair_lt_trans (or_blank c.finding_id) (or_blank c.content_text) (or_blank b.finding_id)
            (or_blank b.content_text) (or_blank a.finding_id) (or_blank a.content_text),
      )

  above_order : IsOrder (above {W = W})
  above_order = record { asym = above_asym; trans = above_trans }

  -- a hit that is not above another has no larger cosine
  cosine-not-lt : (a b : RagHit W) → above b a ≡ false → f.lt a.cosine b.cosine ≡ false
  unfolding above
  cosine-not-lt a b = ground (arith, lt-eq-not-le a.cosine b.cosine)

  -- the first of a sorted list is the best
  best_cosine-head :
      (c : W) (hs : List (RagHit W)) → All (λ h. f.lt c h.cosine ≡ false) hs → best_cosine c hs ≡ c
  unfolding best_cosine
  best_cosine-head c [] h = refl
  best_cosine-head c (x ∷ xs) h = rw h.0 (best_cosine-head c xs h.1)

  clamp_mono :
      (x y : W)
      → f.lt y x ≡ false
      → fmin (fmax x (f.lit 0 0)) (f.lit 1 0) ≼ fmin (fmax y (f.lit 0 0)) (f.lit 1 0)
  clamp_mono x y =
      let o = f.lit 0 0 in
      let i = f.lit 1 0 in
      ground (
        arith,
        lt-eq-not-le y x,
        lt-eq-not-le x o,
        lt-eq-not-le y o,
        lt-eq-not-le i x,
        lt-eq-not-le i y,
        lt-eq-not-le i o,
        le_total x o,
        le_total y o,
        le_total i x,
        le_total i y,
        le_refl o,
        le_refl i,
        le_trans x y o,
        le_trans i x y,
        le_trans o x y,
        le_trans x y i,
        lit_unit 1 0,
      )

  abbrev cut : W → W
  cut c = fmin (fmax c (f.lit 0 0)) (f.lit 1 0)

  head_bounds :
      (x : RagHit W) (xs : List (RagHit W)) (r : W)
      → r ≡ cut x.cosine
      → All (λ y. f.lt x.cosine y.cosine ≡ false) xs
      → InUnit r × All (λ hit. cut hit.cosine ≼ r) (x ∷ xs)
  head_bounds x xs r e below = (
    rw e (clamped laws x.cosine),
    (rw e (le_refl _), All-imp (λ y hy. rw e (clamp_mono y.cosine x.cosine hy)) xs below),
  )

  sorted_relevance :
      (ys : List (RagHit W)) (k : ℕ)
      → IsSorted above ys
      → InUnit (max_relevance (take (suc k) ys))
        × All (λ hit. cut hit.cosine ≼ max_relevance (take (suc k) ys)) ys
  unfolding max_relevance
  sorted_relevance [] k h = (lit_unit 0 0 (omega arith), tt)
  sorted_relevance (x ∷ xs) k h =
      let below = All-imp (λ y hy. cosine-not-lt x y hy) xs h.0 in
      head_bounds x xs _ (ap cut (best_cosine-head x.cosine (take k xs) (All-take _ k xs below)))
        below

module _ {ℓ} {W : Type ℓ} ⦃f : Float W⦄ where
  -- `kept` are the best hits of `hits`, at most `k` of them, best first; `rest` is what was cut off.
  pub record IsTop (k : ℕ) (threshold : W) (hits kept rest : List (RagHit W)) : Type ℓ where
    pub at_most : length kept ≤ k
    -- nothing is cut off unless there are `k`
    pub full : (length kept ≡ k) ⊎ (rest ≡ [])
    pub ordered : IsSorted above kept
    pub all_kept : Perm (kept ++ rest) hits
    pub none_better : All (λ hit. All (λ other. above other hit ≡ false) rest) kept
    pub close_enough : All (λ hit. f.lt hit.cosine threshold ≡ false) kept

  scored_hits-All :
      (sqrt : W → W) (query : List W) (threshold : W) (q : Filter) (rows : List (EmbeddingRow W))
      → All (λ hit. f.lt hit.cosine threshold ≡ false) (scored_hits sqrt query threshold q rows)
  unfolding scored_hits
  scored_hits-All sqrt query threshold q [] = tt
  scored_hits-All sqrt query threshold q (row ∷ rows) =
      kept_if (passes q row) (hit_of row (cosine_similarity sqrt query row.vector)) _
        (scored_hits-All sqrt query threshold q rows)
    where
      kept_if :
          (b : Bool) (hit : RagHit W) (rest : List (RagHit W))
          → All (λ h. f.lt h.cosine threshold ≡ false) rest
          → All
              (λ h. f.lt h.cosine threshold ≡ false)
              (if b && not (f.lt hit.cosine threshold) then hit ∷ rest else rest)
      kept_if false hit rest h = h
      kept_if true hit rest h = elim (Bool-cases (f.lt hit.cosine threshold)) [
        | inl e ↦ rw e h
        | inr e ↦ rw e (e, h)
      ]

take-full {ℓ} : {A : Type ℓ} (k : ℕ) (xs : List A) → (length (take k xs) ≡ k) ⊎ (drop k xs ≡ [])
take-full zero xs = inl (omega arith)
take-full (suc k) [] = inr refl
take-full (suc k) (x ∷ xs) = elim (take-full k xs) [
  | inl e ↦ inl (omega (arith, e))
  | inr e ↦ inr e
]

module _ {ℓ} {W : Type ℓ} ⦃f : Float W⦄ where
  -- some hit has the similarity `r`, cut to [0, 1], or there is no hit and `r` is 0
  abbrev pub Attained : W → List (RagHit W) → Type ℓ
  Attained r hits =
      ((hit : RagHit W) × Mem hit hits × (r ≡ fmin (fmax hit.cosine (f.lit 0 0)) (f.lit 1 0)))
      ⊎ ((hits ≡ []) × (r ≡ f.lit 0 0))

  Attained-perm :
      (r : W) (ys hits : List (RagHit W)) → Perm ys hits → Attained r ys → Attained r hits
  Attained-perm r ys hits p (inl (hit, m, e)) = inl (hit, (Perm.mem_iff p).0 m, e)
  Attained-perm r ys hits p (inr (e, z)) =
      inr (sym (Perm.nil-eq (subst (λ zs. Perm zs hits) e p)), z)

  sorted-Attained :
      (laws : IsOrdered W) (ys : List (RagHit W)) (k : ℕ)
      → IsSorted above ys
      → Attained (max_relevance (take (suc k) ys)) ys
  unfolding max_relevance
  sorted-Attained laws [] k h = inr (refl, refl)
  sorted-Attained laws (x ∷ xs) k h = inl (
    x,
    mem-cons_self,
    ap (cut laws) (
        best_cosine-head laws x.cosine (take k xs)
          (All-take _ k xs (All-imp (λ y hy. cosine-not-lt laws x y hy) xs h.0))),
  )

-- Away from NaN, the retrieval returns `k` of the hits, which are the rows that pass its filter and are
-- not below the threshold, or all of them if there are fewer; best first, and every hit that it leaves
-- out is not above any that it returns.
pub top_k_similar-IsTop {ℓ} :
    {W : Type ℓ} ⦃f : Float W⦄ (laws : IsOrdered W) (sqrt : W → W) (query : List W)
    (rows : List (EmbeddingRow W)) (k : ℕ) (threshold : W) (q : Filter)
    → (rest : List (RagHit W)) × IsTop k threshold
        (scored_hits sqrt query threshold q rows)
        (top_k_similar sqrt query rows k threshold q)
        rest
unfolding top_k_similar
top_k_similar-IsTop laws sqrt query rows k threshold q =
    let hits = scored_hits sqrt query threshold q rows in
    let ranked = sort above hits in
    let ordered = sort-IsSorted above (above_order laws) hits in
    (
      drop k ranked,
      record {
        at_most = length-take-le k ranked;
        full = take-full k ranked;
        ordered = take-IsSorted above k ranked ordered;
        all_kept = rw (take-append-drop k ranked) (sort-perm above hits);
        none_better = IsSorted-take-drop above k ranked ordered;
        close_enough =
            All-take _ k ranked
              (sort-All above _ hits (scored_hits-All sqrt query threshold q rows));
      },
    )

-- Away from NaN, where at least one hit is asked for, the relevance of the retrieved hits lies in
-- [0, 1], no row that passes the filter and the threshold has a larger similarity, cut to [0, 1], and
-- one of these rows has that similarity, or there is none and the relevance is 0.
pub max_relevance-top_k_similar {ℓ} :
    {W : Type ℓ} ⦃f : Float W⦄ (laws : IsOrdered W) (sqrt : W → W) (query : List W)
    (rows : List (EmbeddingRow W)) (k : ℕ) (threshold : W) (q : Filter)
    → InUnit (max_relevance (top_k_similar sqrt query rows (suc k) threshold q))
      × All
          (λ hit.
            fmin (fmax hit.cosine (f.lit 0 0)) (f.lit 1 0)
            ≼ max_relevance (top_k_similar sqrt query rows (suc k) threshold q))
          (scored_hits sqrt query threshold q rows)
      × Attained
          (max_relevance (top_k_similar sqrt query rows (suc k) threshold q))
          (scored_hits sqrt query threshold q rows)
unfolding top_k_similar
max_relevance-top_k_similar laws sqrt query rows k threshold q =
    let hits = scored_hits sqrt query threshold q rows in
    let r =
      sorted_relevance laws (sort above hits) k (sort-IsSorted above (above_order laws) hits) in
    (
      r.0,
      sort-All_rev above _ hits r.1,
      Attained-perm _ (sort above hits) hits (sort-perm above hits)
          (sorted-Attained laws (sort above hits) k (sort-IsSorted above (above_order laws) hits)),
    )
