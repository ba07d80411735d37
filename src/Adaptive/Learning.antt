-- ===== src/Adaptive/Learning.antt =====
-- backend/app/adaptive/learning.py: the labels and the matrix of the calibration, with `TrainingMatrix`
-- and `build_training_matrix` of training.py.
pub mod Labels
pub mod Matrix
use adaptive_multi_agent_pr.Prelude.{
  ℕ, suc, ◌-◌, String, Bool, true, false, Option, none, some, List, [], ◌∷◌, length, nat_eq, ◌==◌,
  if◌then◌else◌,
}
use adaptive_multi_agent_pr.Prelude.Dict.{Dict, get, put}
use adaptive_multi_agent_pr.Prelude.Fallible.{Fallible, ok, raised, ◌>>=◌}
use adaptive_multi_agent_pr.Adaptive.Feedback.{FeedbackEvent, Label, outcome_label}

-- `labels[finding_id] = label`, if there is a label
abbrev pub set_label : String → Option Label → Dict Label → Dict Label
set_label id none labels = labels
set_label id (some label) labels = put id label labels

-- one event with a finding: `finding_id in labels` keeps the label that is there
abbrev pub note_label : Option Label → String → Option Label → Dict Label → Dict Label
note_label (some old) id label labels = labels
note_label none id label labels = set_label id label labels

-- An event without a finding id (None or the empty string) is skipped.
unfoldable pub label_event {ℓ} : {W : Type ℓ} → FeedbackEvent W → Dict Label → Dict Label
label_event e labels = elim e.finding_id [
  | none ↦ labels
  | some id ↦
      if id == "" then labels else note_label (get id labels) id (outcome_label e.outcome) labels
]

-- the loop of `feedback_labels`
unfoldable pub label_loop {ℓ} : {W : Type ℓ} → List (FeedbackEvent W) → Dict Label → Dict Label
unfolding label_event
label_loop [] labels = labels
label_loop (e ∷ es) labels = label_loop es (label_event e labels)

unfoldable pub feedback_labels {ℓ} : {W : Type ℓ} → List (FeedbackEvent W) → Dict Label
unfolding label_loop
feedback_labels events = label_loop events []

-- a row of the decision trace; `features` is `none` where it is not a mapping
pub record TraceRow {ℓ} (W : Type ℓ) : Type ℓ where
  pub finding_id : Option String
  pub features : Option (Dict W)

pub record TrainingMatrix {ℓ} (W : Type ℓ) : Type ℓ where
  pub headers : List String
  pub X : List (List W)
  pub y : List Label

pub record Counts : Type 0 where
  pub traces : ℕ
  pub labelled : ℕ
  pub unlabelled : ℕ

-- a `KeyError`, and the `ValueError` of `build_training_matrix`
pub data MatrixError : Type 0 where
  missing : String → MatrixError
  bad_width : ℕ → ℕ → MatrixError

module _ {ℓ} {W : Type ℓ} where
  -- `tuple(float(features[name]) for name in headers)`
  unfoldable pub vector_of : List String → Dict W → Fallible MatrixError (List W)
  vector_of [] features = ok []
  vector_of (name ∷ names) features =
      let rest = vector_of names features in
      elim (get name features) [
        | none ↦ raised (missing name)
        | some x ↦ rest >>= λ xs. ok (x ∷ xs)
      ]

  -- `labels_by_finding.get(str(row.get("finding_id") or ""))`
  unfoldable pub label_of : Dict Label → TraceRow W → Option Label
  label_of labels row = get (elim row.finding_id [ none ↦ "" | some id ↦ id ]) labels

  -- the row's label and features, if it has both
  abbrev pub usable : Option Label → Option (Dict W) → Option (Label × Dict W)
  usable none features = none
  usable (some label) none = none
  usable (some label) (some features) = some (label, features)

  -- one row: the error of its vector comes before those of the rows after it
  unfoldable pub add_record :
      List String
      → Option (Label × Dict W)
      → Fallible MatrixError (List (List W × Label))
      → Fallible MatrixError (List (List W × Label))
  unfolding vector_of
  add_record headers none rest = rest
  add_record headers (some (label, features)) rest =
      vector_of headers features >>= λ v. rest >>= λ records. ok ((v, label) ∷ records)

  unfoldable pub records_of :
      Dict Label → List String → List (TraceRow W) → Fallible MatrixError (List (List W × Label))
  unfolding add_record label_of
  records_of labels headers [] = ok []
  records_of labels headers (row ∷ rows) =
      add_record headers (usable (label_of labels row) row.features)
        (records_of labels headers rows)

  unfoldable pub check_rows :
      ℕ → List (List W × Label) → Fallible MatrixError (List (List W) × List Label)
  check_rows width [] = ok ([], [])
  check_rows width ((v, label) ∷ records) =
      let rest = check_rows width records in
      if nat_eq (length v) width
      then (rest >>= λ r. ok (v ∷ r.0, label ∷ r.1))
      else raised (bad_width (length v) width)

  unfoldable pub build_training_matrix :
      List (List W × Label) → List String → Fallible MatrixError (TrainingMatrix W)
  unfolding check_rows
  build_training_matrix records headers = check_rows (length headers) records >>= λ r.
      ok (record { headers = headers; X = r.0; y = r.1 })

  -- The error that comes first is raised: rows are read before the matrix is built.
  unfoldable pub labelled_matrix :
      List (TraceRow W)
      → Dict Label
      → List String
      → Fallible MatrixError (TrainingMatrix W × Counts)
  unfolding records_of build_training_matrix
  labelled_matrix rows labels headers = records_of labels headers rows >>= λ records.
      build_training_matrix records headers >>= λ matrix. ok (
        matrix,
        record {
          traces = length rows;
          labelled = length records;
          unlabelled = length rows - length records;
        },
      )
