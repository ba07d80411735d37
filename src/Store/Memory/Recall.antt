-- ===== src/Store/Memory/Recall.antt =====
-- What the store of backend/app/orchestrator/persistence.py remembers of memory and feedback.
use adaptive_multi_agent_pr.Prelude.{
  ℕ, ◌+◌, ◌≡◌, refl, ap, ◌∙◌, String, Bool, true, false, ◌||◌, Option, none, some, List, [], ◌∷◌,
  ◌++◌, any, ◌==◌, if◌then◌else◌, Bool-cases, inl, inr, eq_refl,
}
use adaptive_multi_agent_pr.Prelude.Dict.{Dict, get, get-put, get-put_self}
use adaptive_multi_agent_pr.Adaptive.Features.{Entry}
use adaptive_multi_agent_pr.Store.{Store, MemoryRow, FeedbackRow}
use adaptive_multi_agent_pr.Store.Memory.{
  FeedbackWrite, feedback_identity, create_feedback, get_repository_memory,
  upsert_repository_memory, to_row, version_of,
}

or_true : (b : Bool) → (b || true) ≡ true
or_true true = refl
or_true false = refl

any-append_row :
    (rows : List FeedbackRow) (row : FeedbackRow)
    → any (λ r. r.id == row.id) (rows ++ row ∷ []) ≡ true
any-append_row [] row = rw (eq_refl row.id) refl
any-append_row (r ∷ rows) row = rw (any-append_row rows row) (or_true (r.id == row.id))

module _ {ℓ} {W : Type ℓ} where
  abbrev memory_of : Option (MemoryRow W) → Option (Dict (Entry W))
  memory_of none = none
  memory_of (some m) = some m.categories

  memory_of-if :
      (b : Bool) (m : MemoryRow W) (o : Option (MemoryRow W))
      → memory_of (if b then some m else o) ≡ (if b then some m.categories else memory_of o)
  memory_of-if true m o = refl
  memory_of-if false m o = refl

  -- What is written to a repository's memory is what is read from it, the memory of each other
  -- repository is kept, and each write raises the version that the next write returns by one.
  pub get_repository_memory-upsert_repository_memory :
      (key other : String) (snapshot next : Dict (Entry W)) (s : Store W)
      → let written = upsert_repository_memory key snapshot s in
        (get_repository_memory key written.1 ≡ some snapshot)
        × (get_repository_memory other written.1
            ≡ (if key == other then some snapshot else get_repository_memory other s))
        × ((upsert_repository_memory key next written.1).0 ≡ written.0 + 1)
  unfolding get_repository_memory upsert_repository_memory
  get_repository_memory-upsert_repository_memory key other snapshot next s =
      let m : MemoryRow W = record {
        categories = snapshot;
        version = version_of (get key s.memory) + 1;
      } in
      (
        ap memory_of (get-put_self key m s.memory),
        ap memory_of (get-put key other m s.memory)
            ∙ memory_of-if (key == other) m (get other s.memory),
        ap (λ o. version_of o + 1) (get-put_self key m s.memory),
      )

  -- A feedback that is sent again adds no row: after the first time its row is there, and the store
  -- and the id stay as they are, whenever the call comes.
  pub create_feedback-create_feedback :
      (digest : String → String) (w : FeedbackWrite) (now later : ℕ) (s : Store W)
      → let once = create_feedback digest w now s in
        (create_feedback digest w later once.1 ≡ once)
        × (any (λ row. row.id == once.0) once.1.feedback ≡ true)
  unfolding create_feedback
  create_feedback-create_feedback digest w now later s =
      let id = feedback_identity digest w in
      elim (Bool-cases (any (λ row. row.id == id) s.feedback)) [
        | inl e ↦ rw (e, e) (refl, refl)
        | inr e ↦
            let there = any-append_row s.feedback (to_row w id now) in rw (e, there) (refl, refl)
      ]
