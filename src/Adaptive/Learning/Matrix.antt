-- ===== src/Adaptive/Learning/Matrix.antt =====
-- What `labelled_matrix` of backend/app/adaptive/learning.py builds of the decision trace.
use adaptive_multi_agent_pr.Prelude.{
  ℕ, suc, ◌+◌, ◌-◌, ◌≤◌, ◌≡◌, refl, ap, String, Bool, true, false, Option, none, some, List, [],
  ◌∷◌, arith, nat_eq, All, all, length, ◌&&◌, map,
}
use adaptive_multi_agent_pr.Prelude.Dict.{Dict, get}
use adaptive_multi_agent_pr.Prelude.Fallible.{Fallible, ok, raised, ◌>>=◌}
use adaptive_multi_agent_pr.Adaptive.Feedback.{Label}
use adaptive_multi_agent_pr.Adaptive.Learning.{
  missing, add_record, TraceRow, TrainingMatrix, Counts, MatrixError, vector_of, label_of, usable,
  records_of, check_rows, build_training_matrix, labelled_matrix,
}

nat_eq_refl : (n : ℕ) → nat_eq n n ≡ true
nat_eq_refl n = ground arith

module _ {ℓ} {W : Type ℓ} where
  abbrev pub has_key : Dict W → String → Bool
  has_key d name = elim (get name d) [ none ↦ false | some x ↦ true ]

  -- the row's features name every header
  abbrev pub is_complete : List String → TraceRow W → Bool
  is_complete headers row = elim row.features [
    | none ↦ true
    | some features ↦ all (has_key features) headers
  ]

  abbrev pub add_label : Option (Label × Dict W) → List Label → List Label
  add_label none rest = rest
  add_label (some (label, features)) rest = label ∷ rest

  -- the labels of the rows that have both a label and features
  abbrev pub labels_in : Dict Label → List (TraceRow W) → List Label
  labels_in labels [] = []
  labels_in labels (row ∷ rows) =
      add_label (usable (label_of labels row) row.features) (labels_in labels rows)

  -- `vs` holds for each of the dictionaries, in order, the values of the headers, in order
  abbrev pub AreRows : List String → List (Dict W) → List (List W) → Type ℓ
  AreRows headers [] [] = Unit
  AreRows headers (d ∷ ds) (v ∷ vs) =
      (map (λ name. get name d) headers ≡ map some v) × AreRows headers ds vs
  AreRows headers [] (v ∷ vs) = (v ∷ vs) ≡ []
  AreRows headers (d ∷ ds) [] = (d ∷ ds) ≡ []

  abbrev pub add_features : Option (Label × Dict W) → List (Dict W) → List (Dict W)
  add_features none rest = rest
  add_features (some (label, features)) rest = features ∷ rest

  -- the features of the rows that have both a label and features
  abbrev pub features_in : Dict Label → List (TraceRow W) → List (Dict W)
  features_in labels [] = []
  features_in labels (row ∷ rows) =
      add_features (usable (label_of labels row) row.features) (features_in labels rows)

  pub record IsMatrix (rows : List (TraceRow W)) (labels : Dict Label) (headers : List String)
      (m : TrainingMatrix W) (c : Counts) : Type ℓ where
    pub headers_kept : m.headers ≡ headers
    pub labels_kept : m.y ≡ labels_in labels rows
    pub rows_kept : AreRows headers (features_in labels rows) m.X
    pub rectangular : All (λ v. length v ≡ length headers) m.X
    pub paired : length m.X ≡ length m.y
    pub counted : c.labelled ≡ length m.y
    pub accounted : c.labelled + c.unlabelled ≡ c.traces
    pub all_read : c.traces ≡ length rows

  vector_of-ok :
      (names : List String) (features : Dict W)
      → all (has_key features) names ≡ true
      → (v : List W) × (vector_of names features ≡ ok v)
        × (length v ≡ length names)
        × (map (λ n. get n features) names ≡ map some v)
  unfolding vector_of
  vector_of-ok [] features h = ([], refl, refl, refl)
  vector_of-ok (name ∷ names) features h =
      given (get name features) refl h (vector_of-ok names features)
    where
      given :
          (o : Option W)
          → get name features ≡ o
          → ((elim o [ none ↦ false | some x ↦ true ]) && all (has_key features) names) ≡ true
          → (all (has_key features) names ≡ true
              → (v : List W) × (vector_of names features ≡ ok v)
                × (length v ≡ length names)
                × (map (λ n. get n features) names ≡ map some v))
          → (v : List W) × ((elim o [
            | none ↦ raised (missing name)
            | some x ↦ vector_of names features >>= λ xs. ok (x ∷ xs)
          ])
              ≡ ok v)
            × (length v ≡ length (name ∷ names))
            × ((get name features ∷ map (λ n. get n features) names) ≡ map some v)
      given none q k rec = cc
      given (some x) q k rec =
          let (v, e, l, m) = rec k in (x ∷ v, rw e refl, ap suc l, λ i. q i ∷ m i)

  -- what a list of records makes of itself, for at most `n` rows with the labels `ls`
  abbrev Made : List String → List (Dict W) → List Label → ℕ → List (List W × Label) → Type ℓ
  Made headers ds ls n records =
      (xs : List (List W)) × (check_rows (length headers) records ≡ ok (xs, ls))
      × All (λ v. length v ≡ length headers) xs
      × (length xs ≡ length records)
      × (length ls ≡ length records)
      × (length records ≤ n)
      × AreRows headers ds xs

  abbrev Built :
      List String
      → List (Dict W)
      → List Label
      → ℕ
      → Fallible MatrixError (List (List W × Label))
      → Type ℓ
  Built headers ds ls n built =
      (records : List (List W × Label)) × (built ≡ ok records) × Made headers ds ls n records

  add_record-Built :
      (headers : List String) (label : Option Label) (features : Option (Dict W))
      (ds : List (Dict W)) (ls : List Label) (n : ℕ)
      (rest : Fallible MatrixError (List (List W × Label)))
      → elim features [ none ↦ true | some fs ↦ all (has_key fs) headers ] ≡ true
      → Built headers ds ls n rest
      → Built headers
          (add_features (usable label features) ds)
          (add_label (usable label features) ls)
          (suc n)
          (add_record headers (usable label features) rest)
  unfolding add_record check_rows
  add_record-Built headers none features ds ls n rest h (records, e, (xs, ec, w, lx, ll, le, ar)) =
      (records, e, (xs, ec, w, lx, ll, omega arith, ar))
  add_record-Built headers (some l) none ds ls n rest h (records, e, (xs, ec, w, lx, ll, le, ar)) =
      (records, e, (xs, ec, w, lx, ll, omega arith, ar))
  add_record-Built headers (some l) (some fs) ds ls n rest h
        (records, e, (xs, ec, w, lx, ll, le, ar)) =
      let (v, ev, lv, mv) = vector_of-ok headers fs h in
      (
        (v, l) ∷ records,
        rw (ev, e) refl,
        (
          v ∷ xs,
          rw (lv, nat_eq_refl (length headers), ec) refl,
          (lv, w),
          ap suc lx,
          ap suc ll,
          omega arith,
          (mv, ar),
        ),
      )

  records_of-Built :
      (labels : Dict Label) (headers : List String) (rows : List (TraceRow W))
      → All (λ row. is_complete headers row ≡ true) rows
      → Built headers
          (features_in labels rows)
          (labels_in labels rows)
          (length rows)
          (records_of labels headers rows)
  unfolding records_of check_rows
  records_of-Built labels headers [] h = ([], refl, ([], refl, tt, refl, refl, omega arith, tt))
  records_of-Built labels headers (row ∷ rows) h =
      add_record-Built headers (label_of labels row) row.features (features_in labels rows)
        (labels_in labels rows) (length rows) (records_of labels headers rows) h.0
        (records_of-Built labels headers rows h.1)

  -- If the features of every row of the trace name all headers, then the matrix is built: it has one
  -- row for each trace row with a label and features, in their order, which holds the values of the
  -- headers in theirs, with that label, and the counters account for every trace row.
  pub labelled_matrix-IsMatrix :
      (rows : List (TraceRow W)) (labels : Dict Label) (headers : List String)
      → All (λ row. is_complete headers row ≡ true) rows
      → (m : TrainingMatrix W) × (c : Counts) × (labelled_matrix rows labels headers ≡ ok (m, c))
        × IsMatrix rows labels headers m c
  unfolding labelled_matrix build_training_matrix
  labelled_matrix-IsMatrix rows labels headers h =
      let (records, e, (xs, ec, w, lx, ll, le, ar)) = records_of-Built labels headers rows h in
      (
        record { headers = headers; X = xs; y = labels_in labels rows },
        record {
          traces = length rows;
          labelled = length records;
          unlabelled = length rows - length records;
        },
        rw (e, ec) refl,
        record {
          headers_kept = refl;
          labels_kept = refl;
          rows_kept = ar;
          rectangular = w;
          paired = omega arith;
          counted = omega arith;
          accounted = omega arith;
          all_read = refl;
        },
      )
