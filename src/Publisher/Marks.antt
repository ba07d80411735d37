-- ===== src/Publisher/Marks.antt =====
-- The rows that `mark_findings_published` touches, and the ids that backend/app/publisher/service.py
-- gives it.
use adaptive_multi_agent_pr.Prelude.{
  ℕ, String, ◌≡◌, refl, Bool, true, false, ◌||◌, ◌==◌, eq_iff, eq_refl, implies, Option, List, [],
  ◌∷◌, ◌++◌, map, arith, select, take, drop, take-append-drop, All, All-imp, All-imp_both,
  Bool-cases, inl, inr, ap, ◌∙◌,
}
use adaptive_multi_agent_pr.Prelude.Dict.{contains}
use adaptive_multi_agent_pr.Prelude.Float.{Float}
use adaptive_multi_agent_pr.Prelude.Sort.{sort, insert}
use adaptive_multi_agent_pr.Store.{FindingRow, ReviewRecord, Store, update_first}
use adaptive_multi_agent_pr.Store.Findings.{is_row, published_row, mark_findings_published}
use adaptive_multi_agent_pr.Store.Payload.{
  PayloadFinding, is_scheduled, payload_row, finding_lt, payload_of,
}
use adaptive_multi_agent_pr.Publisher.{map_comment_ids, uncommented, split_inline, split_findings}
use adaptive_multi_agent_pr.Publisher.Render.{CommentWrite}

contains-append :
    (xs ys : List String) (k : String) → contains (xs ++ ys) k ≡ (contains xs k || contains ys k)
unfolding contains
contains-append [] ys k = refl
contains-append (x ∷ xs) ys k = ground (arith, contains-append xs ys k)

module _ {ℓ} {A : Type ℓ} (f : A → String) where
  contains-map-append :
      (xs ys : List A) (k : String)
      → contains (map f (xs ++ ys)) k ≡ (contains (map f xs) k || contains (map f ys) k)
  unfolding contains
  contains-map-append [] ys k = refl
  contains-map-append (x ∷ xs) ys k = ground (arith, contains-map-append xs ys k)

  contains-map-insert :
      (lt : A → A → Bool) (x : A) (xs : List A) (k : String)
      → contains (map f (insert lt x xs)) k ≡ contains (map f (x ∷ xs)) k
  unfolding contains insert
  contains-map-insert lt x [] k = refl
  contains-map-insert lt x (y ∷ xs) k = ground (arith, contains-map-insert lt x xs k)

  contains-map-sort :
      (lt : A → A → Bool) (xs : List A) (k : String)
      → contains (map f (sort lt xs)) k ≡ contains (map f xs) k
  unfolding contains sort
  contains-map-sort lt [] k = refl
  contains-map-sort lt (x ∷ xs) k =
      ground (arith, contains-map-insert lt x (sort lt xs) k, contains-map-sort lt xs k)

module _ {ℓ} {W : Type ℓ} where
  -- no two rows have the same id
  abbrev pub IsDistinct : List (FindingRow W) → Type 0
  IsDistinct [] = Unit
  IsDistinct (row ∷ rows) =
      All (λ q. (q.finding.id == row.finding.id) ≡ false) rows × IsDistinct rows

  -- each scheduled row of the review has one of the ids
  abbrev pub Covers : String → List String → List (FindingRow W) → Type 0
  Covers rid ids rows =
      All (λ row. implies (is_scheduled rid row) (contains ids row.finding.id) ≡ true) rows

  abbrev ids_of : List (PayloadFinding W) → List String
  ids_of xs = map (λ x. x.id) xs

  abbrev inline_ids : List (PayloadFinding W × CommentWrite) → List String
  inline_ids cs = map (λ c. c.0.id) cs

  All-update_first :
      (rid id : String) (c : Option ℕ) (key : String) (rows : List (FindingRow W))
      → All (λ q. (q.finding.id == key) ≡ false) rows
      → All
          (λ q. (q.finding.id == key) ≡ false)
          (update_first (is_row rid id) (published_row c) rows)
  unfolding update_first
  All-update_first rid id c key [] h = tt
  All-update_first rid id c key (row ∷ rows) h = elim (Bool-cases (is_row rid id row)) [
    | inl e ↦ rw (e, update_first) (h.0, h.1)
    | inr e ↦ rw (e, update_first) (h.0, All-update_first rid id c key rows h.1)
  ]

  update_first-IsDistinct :
      (rid id : String) (c : Option ℕ) (rows : List (FindingRow W))
      → IsDistinct rows
      → IsDistinct (update_first (is_row rid id) (published_row c) rows)
  unfolding update_first
  update_first-IsDistinct rid id c [] h = tt
  update_first-IsDistinct rid id c (row ∷ rows) h = elim (Bool-cases (is_row rid id row)) [
    | inl e ↦ rw (e, update_first) (h.0, h.1)
    | inr e ↦
        rw (e, update_first)
          (
            All-update_first rid id c row.finding.id rows h.0,
            update_first-IsDistinct rid id c rows h.1,
          )
  ]

  -- Once the row of `id` is published, the other ids cover what is scheduled.
  update_first-Covers :
      (rid id : String) (c : Option ℕ) (ids : List String) (rows : List (FindingRow W))
      → IsDistinct rows
      → Covers rid (id ∷ ids) rows
      → Covers rid ids (update_first (is_row rid id) (published_row c) rows)
  unfolding update_first contains is_scheduled
  update_first-Covers rid id c ids [] d h = tt
  update_first-Covers rid id c ids (row ∷ rows) d h = elim (Bool-cases (is_row rid id row)) [
    | inl e ↦
        rw (e, update_first)
          (
            ground arith,
            All-imp_both
                (λ q apart covered. ground (
                  arith,
                  apart,
                  covered,
                  eq_iff row.finding.id id,
                  eq_iff id q.finding.id,
                  eq_iff q.finding.id row.finding.id,
                ))
                rows d.0 h.1,
          )
    | inr e ↦
        rw (e, update_first)
          (
            ground (arith, h.0, e, eq_iff row.finding.id id, eq_iff id row.finding.id),
            update_first-Covers rid id c ids rows d.1 h.1,
          )
  ]

  -- Publishing ids that cover the review leaves none of its rows scheduled.
  pub mark_findings_published-All :
      (rid : String) (updates : List (String × Option ℕ)) (s : Store W)
      → IsDistinct s.findings
      → Covers rid (map (λ u. u.0) updates) s.findings
      → All (λ row. is_scheduled rid row ≡ false) (mark_findings_published rid updates s).findings
  unfolding mark_findings_published contains
  mark_findings_published-All rid [] s d h =
      All-imp (λ row covered. ground (arith, covered)) s.findings h
  mark_findings_published-All rid ((id, c) ∷ updates) s d h =
      mark_findings_published-All rid updates _ (update_first-IsDistinct rid id c s.findings d)
        (update_first-Covers rid id c (map (λ u. u.0) updates) s.findings d h)

  map-map_comment_ids :
      (inline : List (PayloadFinding W × CommentWrite)) (ids : List ℕ)
      → map (λ u. u.0) (map_comment_ids inline ids) ≡ inline_ids inline
  unfolding map_comment_ids
  map-map_comment_ids [] ids = refl
  map-map_comment_ids ((x, c) ∷ inline) [] = ap (◌∷◌ x.id) (map-map_comment_ids inline [])
  map-map_comment_ids ((x, c) ∷ inline) (i ∷ ids) = ap (◌∷◌ x.id) (map-map_comment_ids inline ids)

  map-uncommented : (xs : List (PayloadFinding W)) → map (λ u. u.0) (uncommented xs) ≡ ids_of xs
  map-uncommented [] = refl
  map-uncommented (x ∷ xs) = ap (◌∷◌ x.id) (map-uncommented xs)

  -- the ids that a post publishes
  pub contains-updates :
      (inline : List (PayloadFinding W × CommentWrite)) (body : List (PayloadFinding W))
      (ids : List ℕ) (k : String)
      → contains (map (λ u. u.0) (map_comment_ids inline ids ++ uncommented body)) k
        ≡ (contains (inline_ids inline) k || contains (ids_of body) k)
  contains-updates inline body ids k =
      contains-map-append (λ (u : String × Option ℕ). u.0) (map_comment_ids inline ids)
        (uncommented body) k
      ∙ ground (
        arith,
        ap (λ xs. contains xs k) (map-map_comment_ids inline ids),
        ap (λ xs. contains xs k) (map-uncommented body),
      )

  contains-split_inline :
      (xs : List (PayloadFinding W)) (k : String)
      → (contains (inline_ids (split_inline xs).0) k || contains (ids_of (split_inline xs).1) k)
        ≡ contains (ids_of xs) k
  unfolding split_inline contains
  contains-split_inline [] k = refl
  contains-split_inline (x ∷ xs) k = ground (arith, contains-split_inline xs k)

  pub contains-split_findings :
      (capacity : ℕ) (xs : List (PayloadFinding W)) (k : String)
      → (contains (inline_ids (split_findings capacity xs).0) k
          || contains (ids_of (split_findings capacity xs).1) k)
        ≡ contains (ids_of xs) k
  unfolding split_findings
  contains-split_findings capacity xs k = ground (
    arith,
    contains-split_inline (take capacity xs) k,
    contains-map-append (λ (x : PayloadFinding W). x.id) (split_inline (take capacity xs)).1
        (drop capacity xs) k,
    contains-map-append (λ (x : PayloadFinding W). x.id) (take capacity xs) (drop capacity xs) k,
    ap (λ ys. contains (ids_of ys) k) (take-append-drop capacity xs),
  )

  contains-payload_row :
      (p : FindingRow W → Bool) (rows : List (FindingRow W)) (ids : List String)
      → ((k : String)
          → contains (ids_of (map payload_row (select p rows))) k ≡ true
          → contains ids k ≡ true)
      → All (λ row. implies (p row) (contains ids row.finding.id) ≡ true) rows
  unfolding contains
  contains-payload_row p [] ids h = tt
  contains-payload_row p (row ∷ rows) ids h = elim (Bool-cases (p row)) [
    | inl e ↦ (
      ground (
        arith,
        e,
        h row.finding.id,
        eq_iff row.finding.id row.finding.id,
        eq_refl row.finding.id,
      ),
      contains-payload_row p rows ids (λ k c. h k (ground (arith, e, c))),
    )
    | inr e ↦
        (ground (arith, e), contains-payload_row p rows ids (λ k c. h k (ground (arith, e, c))))
  ]

module _ {ℓ} {W : Type ℓ} ⦃f : Float W⦄ where
  -- The payload lists every scheduled row of the review.
  pub payload_of-Covers :
      (rid : String) (s : Store W) (r : ReviewRecord W)
      → Covers rid (map (λ x. x.id) (payload_of rid s r).findings) s.findings
  unfolding payload_of
  payload_of-Covers rid s r = contains-payload_row (is_scheduled rid) s.findings _ (λ k c.
      contains-map-sort (λ (x : PayloadFinding W). x.id) finding_lt
        (map payload_row (select (is_scheduled rid) s.findings)) k
      ∙ c)
