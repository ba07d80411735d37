-- ===== src/Consolidation/Consolidate/Distinct.antt =====
-- What `normalise_findings` of backend/app/consolidation/consolidate.py keeps and counts.
use mathlib.Core.Path.{subst}
use adaptive_multi_agent_pr.Prelude.{
  sym, ℕ, suc, ◌+◌, ◌≡◌, refl, ap, ◌∙◌, String, false, List, [], ◌∷◌, ◌++◌, any, length,
  length-append, arith, if◌then◌else◌, Bool-cases, inl, inr,
}
use adaptive_multi_agent_pr.Prelude.Fallible.{Fallible, ok, raised}
use adaptive_multi_agent_pr.Agents.Contract.{AgentFinding}
use adaptive_multi_agent_pr.Consolidation.Datatypes.{FindingWrite}
use adaptive_multi_agent_pr.Consolidation.Consolidate.{
  DedupeKey, NormalisationResult, AgentInput, same_key, plain_text, embedding_text, total_consumed,
  dedupe_key, written, drop_item, normalise_item, normalise_loop, normalise_findings, invalid,
  duplicate, DropError,
}

-- No key is that of a later one in the list.
abbrev pub IsDistinct : List DedupeKey → Type 0
IsDistinct [] = Unit
IsDistinct (k ∷ ks) = (any (same_key k) ks ≡ false) × IsDistinct ks

module _ {ℓ} {W : Type ℓ} where
  -- the key of a row that was written, from its own fields
  abbrev pub row_key : (String → String) → FindingWrite W → DedupeKey
  row_key content_hash f = record {
    agent_key = f.agent_key;
    file_path = f.file_path;
    line_start = f.line_start;
    line_end = f.line_end;
    category = f.category;
    hash_key = content_hash (embedding_text f);
  }

  -- the keys of the rows, the last row's first
  abbrev pub keys_back : (String → String) → List (FindingWrite W) → List DedupeKey → List DedupeKey
  keys_back content_hash [] ks = ks
  keys_back content_hash (f ∷ fs) ks = keys_back content_hash fs (row_key content_hash f ∷ ks)

  keys_back-append :
      (content_hash : String → String) (fs : List (FindingWrite W)) (f : FindingWrite W)
      (ks : List DedupeKey)
      → keys_back content_hash (fs ++ f ∷ []) ks
        ≡ row_key content_hash f ∷ keys_back content_hash fs ks
  keys_back-append content_hash [] f ks = refl
  keys_back-append content_hash (x ∷ fs) f ks = keys_back-append content_hash fs f _

  pub record IsNormalised (content_hash : String → String) (n : ℕ) (r : NormalisationResult W)
      : Type 0 where
    pub consumed : total_consumed r ≡ n
    pub explained : length r.errors ≡ r.dropped
    pub distinct : IsDistinct (keys_back content_hash r.findings [])

  -- the same, with the keys that the loop has seen
  abbrev Seen : (String → String) → ℕ → List DedupeKey × NormalisationResult W → Type 0
  Seen content_hash n (seen, r) =
      (seen ≡ keys_back content_hash r.findings [])
      × IsDistinct seen
      × (length r.findings + r.dropped ≡ n)
      × (length r.errors ≡ r.dropped)

module _ {ℓ} {W : Type ℓ} {D : Type 0} (validate : D → Fallible String (AgentFinding W))
    (content_hash uuid5 : String → String) (review_id repository_id : String) where
  drop_item-Seen :
      (e : DropError) (n : ℕ) (seen : List DedupeKey) (r : NormalisationResult W)
      → Seen content_hash n (seen, r)
      → Seen content_hash (suc n) (seen, drop_item e r)
  drop_item-Seen e n seen r (k, d, c, x) =
      (k, d, omega arith, omega (arith, length-append r.errors (e ∷ [])))

  keep-Seen :
      (i : AgentInput D) (f : AgentFinding W) (n : ℕ) (seen : List DedupeKey)
      (r : NormalisationResult W)
      → any (same_key (dedupe_key content_hash i.agent_key f)) seen ≡ false
      → Seen content_hash n (seen, r)
      → Seen content_hash (suc n) (
        dedupe_key content_hash i.agent_key f ∷ seen,
        record r {
          findings =
              r.findings
              ++ written content_hash uuid5 review_id repository_id i.agent_key i.agent_id f ∷ [];
        },
      )
  unfolding plain_text embedding_text
  keep-Seen i f n seen r new (k, d, c, x) =
      let row = written content_hash uuid5 review_id repository_id i.agent_key i.agent_id f in
      (
        ap (λ ks. row_key content_hash row ∷ ks) k
            ∙ sym (keys_back-append content_hash r.findings row []),
        (new, d),
        omega (arith, length-append r.findings (row ∷ [])),
        x,
      )

  normalise_item-Seen :
      (i : AgentInput D) (n : ℕ) (seen : List DedupeKey) (r : NormalisationResult W)
      → Seen content_hash n (seen, r)
      → Seen content_hash
          (suc n)
          (normalise_item validate content_hash uuid5 review_id repository_id i (seen, r))
  unfolding normalise_item
  normalise_item-Seen i n seen r h = given (validate i.finding)
    where
      given :
          (v : Fallible String (AgentFinding W))
          → Seen {W = W} content_hash (suc n) (elim v [
            | raised e ↦ (seen, drop_item (invalid i.agent_key e) r)
            | ok f ↦
                if any (same_key (dedupe_key content_hash i.agent_key f)) seen
                then (seen, drop_item (duplicate i.agent_key f.category f.file_path f.line_start) r)
                else (
                  dedupe_key content_hash i.agent_key f ∷ seen,
                  record r {
                    findings =
                        r.findings
                        ++ written content_hash uuid5 review_id repository_id i.agent_key i.agent_id
                            f
                          ∷ [];
                  },
                )
          ])
      given (raised e) = drop_item-Seen (invalid i.agent_key e) n seen r h
      given (ok f) =
          elim (Bool-cases (any (same_key (dedupe_key content_hash i.agent_key f)) seen)) [
            | inl e ↦ rw e (
                drop_item-Seen (duplicate i.agent_key f.category f.file_path f.line_start) n seen r
                  h)
            | inr e ↦ rw e (keep-Seen i f n seen r e h)
          ]

  normalise_loop-Seen :
      (is : List (AgentInput D)) (n : ℕ) (s : List DedupeKey × NormalisationResult W)
      → Seen content_hash n s
      → Seen content_hash
          (length is + n)
          (normalise_loop validate content_hash uuid5 review_id repository_id is s)
  unfolding normalise_loop
  normalise_loop-Seen [] n s h = subst (λ m. Seen content_hash m s) (omega arith) h
  normalise_loop-Seen (i ∷ is) n s h =
      subst
        (λ m. Seen content_hash m (
          normalise_loop validate content_hash uuid5 review_id repository_id is
            (normalise_item validate content_hash uuid5 review_id repository_id i s)))
        (omega arith) (normalise_loop-Seen is (suc n) _ (normalise_item-Seen i n s.0 s.1 h))

  -- Every finding that the agents gave is kept or counted as dropped with an error; the same agent is
  -- never credited twice with one text at one place.
  pub normalise_findings-IsNormalised :
      (inputs : List (AgentInput D))
      → IsNormalised content_hash
          (length inputs)
          (normalise_findings validate content_hash uuid5 review_id repository_id inputs)
  unfolding normalise_findings total_consumed
  normalise_findings-IsNormalised inputs =
      let (k, d, c, x) =
        normalise_loop-Seen inputs 0 ([], record { findings = []; dropped = 0; errors = [] })
          (refl, tt, refl, refl) in
      record { consumed = omega arith; explained = x; distinct = subst IsDistinct k d }
