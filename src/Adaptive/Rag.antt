-- ===== src/Adaptive/Rag.antt =====
-- backend/app/adaptive/rag.py: the ranking of embeddings for the relevance features. `sqrt` is
-- Python's `math.sqrt`.
pub mod Top
use adaptive_multi_agent_pr.Prelude.{
  ℕ, String, Bool, true, false, not, ◌&&◌, Option, none, some, List, [], ◌∷◌, take, ◌==◌,
  if◌then◌else◌,
}
use adaptive_multi_agent_pr.Prelude.Float.{Float, eq, fmin, fmax}
use adaptive_multi_agent_pr.Prelude.Dict.{contains}
use adaptive_multi_agent_pr.Prelude.Text.{text_lt}
use adaptive_multi_agent_pr.Prelude.Sort.{sort}
use adaptive_multi_agent_pr.Consolidation.Similarity.{cosine_similarity}

abbrev rag_resource_kinds : List String
rag_resource_kinds = "finding" ∷ "standard" ∷ "decision" ∷ "comment" ∷ []

pub record EmbeddingRow {ℓ} (W : Type ℓ) : Type ℓ where
  pub id : String
  pub repository_id : String
  pub resource_type : String
  pub content_hash : String
  pub vector : List W
  pub model : String
  pub finding_id : Option String
  pub file_path : Option String
  pub status : Option String
  pub content_text : Option String

pub record RagHit {ℓ} (W : Type ℓ) : Type ℓ where
  pub repository_id : String
  pub resource_type : String
  pub cosine : W
  pub finding_id : Option String
  pub content_text : Option String

-- the keyword arguments, less `k` and the threshold
pub record Filter : Type 0 where
  pub resource_types : Option (List String)
  pub file_path : Option String
  pub statuses : Option (List String)

-- `s or ""`
abbrev pub or_blank : Option String → String
or_blank none = ""
or_blank (some s) = s

-- `status in wanted`, where the status may be None
abbrev is_wanted : List String → Option String → Bool
is_wanted wanted none = false
is_wanted wanted (some status) = contains wanted status

module _ {ℓ} {W : Type ℓ} where
  -- the three `continue` tests before the similarity
  unfoldable pub passes : Filter → EmbeddingRow W → Bool
  passes q row =
      contains (elim q.resource_types [ none ↦ rag_resource_kinds | some kinds ↦ kinds ])
        row.resource_type
      && elim q.file_path [ none ↦ true | some path ↦ or_blank row.file_path == path ]
      && elim q.statuses [ none ↦ true | some wanted ↦ is_wanted wanted row.status ]

  abbrev pub hit_of : EmbeddingRow W → W → RagHit W
  hit_of row similarity = record {
    repository_id = row.repository_id;
    resource_type = row.resource_type;
    cosine = similarity;
    finding_id = row.finding_id;
    content_text = row.content_text;
  }

-- the order of pairs of strings
unfoldable pub pair_lt : String → String → String → String → Bool
pair_lt a b c d = if a == c then text_lt b d else text_lt a c

module _ {ℓ} {W : Type ℓ} ⦃f : Float W⦄ where
  -- the key of `a` is above that of `b`: what `reverse=True` puts first
  unfoldable pub above : RagHit W → RagHit W → Bool
  unfolding pair_lt
  above a b =
      if eq a.cosine b.cosine
      then pair_lt (or_blank b.finding_id) (or_blank b.content_text) (or_blank a.finding_id)
          (or_blank a.content_text)
      else f.lt b.cosine a.cosine

  unfoldable pub scored_hits :
      (W → W) → List W → W → Filter → List (EmbeddingRow W) → List (RagHit W)
  unfolding passes
  scored_hits sqrt query threshold q [] = []
  scored_hits sqrt query threshold q (row ∷ rows) =
      let similarity = cosine_similarity sqrt query row.vector in
      let rest = scored_hits sqrt query threshold q rows in
      if passes q row && not (f.lt similarity threshold) then hit_of row similarity ∷ rest else rest

  unfoldable pub top_k_similar :
      (W → W) → List W → List (EmbeddingRow W) → ℕ → W → Filter → List (RagHit W)
  unfolding scored_hits above
  top_k_similar sqrt query rows k threshold q =
      take k (sort above (scored_hits sqrt query threshold q rows))

  -- `max(hit.cosine for hit in hits)`, from the first on
  unfoldable pub best_cosine : W → List (RagHit W) → W
  best_cosine best [] = best
  best_cosine best (h ∷ hs) = best_cosine (fmax best h.cosine) hs

  unfoldable pub max_relevance : List (RagHit W) → W
  unfolding best_cosine
  max_relevance [] = f.lit 0 0
  max_relevance (h ∷ hs) = fmin (fmax (best_cosine h.cosine hs) (f.lit 0 0)) (f.lit 1 0)
