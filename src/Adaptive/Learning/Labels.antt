-- ===== src/Adaptive/Learning/Labels.antt =====
-- What `feedback_labels` of backend/app/adaptive/learning.py makes of the events.
use adaptive_multi_agent_pr.Prelude.{
  ◌≡◌, refl, String, Option, none, some, List, [], ◌∷◌, ◌==◌, eq_iff, if◌then◌else◌, ◌&&◌, not,
  Bool-cases, ap, sym, ◌∙◌, inl, inr,
}
use adaptive_multi_agent_pr.Prelude.Dict.{Dict, get, get-put}
use adaptive_multi_agent_pr.Adaptive.Feedback.{FeedbackEvent, Label, outcome_label}
use adaptive_multi_agent_pr.Adaptive.Learning.{
  feedback_labels, label_loop, label_event, set_label, note_label,
}

-- the label that one event gives to a finding
abbrev pub label_for {ℓ} : {W : Type ℓ} → String → FeedbackEvent W → Option Label
label_for id e = elim e.finding_id [
  | none ↦ none
  | some k ↦ if not (k == "") && k == id then outcome_label e.outcome else none
]

-- the first label that an event gives to a finding
abbrev pub first_label {ℓ} : {W : Type ℓ} → String → List (FeedbackEvent W) → Option Label
first_label id [] = none
first_label id (e ∷ es) = elim (label_for id e) [ none ↦ first_label id es | some l ↦ some l ]

abbrev or_else : Option Label → Option Label → Option Label
or_else none other = other
or_else (some l) other = some l

or_else-none : (o : Option Label) → or_else o none ≡ o
or_else-none none = refl
or_else-none (some l) = refl

or_else_assoc : (a b c : Option Label) → or_else (or_else a b) c ≡ or_else a (or_else b c)
or_else_assoc none b c = refl
or_else_assoc (some l) b c = refl

get-set_label :
    (k id : String) (label : Option Label) (labels : Dict Label)
    → get k labels ≡ none
    → get id (set_label k label labels) ≡ or_else (get id labels) (if k == id then label else none)
get-set_label k id none labels h = elim (Bool-cases (k == id)) [
  | inl e ↦ rw (e, or_else-none (get id labels)) refl
  | inr e ↦ rw (e, or_else-none (get id labels)) refl
]
get-set_label k id (some l) labels h = elim (Bool-cases (k == id)) [
  | inl e ↦ rw (get-put k id l labels, e, ap (λ i. get i labels) (sym ((eq_iff k id).0 e)), h) refl
  | inr e ↦ rw (get-put k id l labels, e, or_else-none (get id labels)) refl
]

get-note_label :
    (old : Option Label) (k id : String) (label : Option Label) (labels : Dict Label)
    → get k labels ≡ old
    → get id (note_label old k label labels)
      ≡ or_else (get id labels) (if k == id then label else none)
get-note_label none k id label labels h = get-set_label k id label labels h
get-note_label (some l) k id label labels h = elim (Bool-cases (k == id)) [
  | inl e ↦ rw (e, ap (λ i. get i labels) (sym ((eq_iff k id).0 e)), h) refl
  | inr e ↦ rw (e, or_else-none (get id labels)) refl
]

module _ {ℓ} {W : Type ℓ} where
  get-label_event :
      (id : String) (e : FeedbackEvent W) (labels : Dict Label)
      → get id (label_event e labels) ≡ or_else (get id labels) (label_for id e)
  unfolding label_event
  get-label_event id e labels = given e.finding_id
    where
      given :
          (o : Option String)
          → get id (elim o [
            | none ↦ labels
            | some k ↦
                if k == ""
                then labels
                else note_label (get k labels) k (outcome_label e.outcome) labels
          ])
            ≡ or_else (get id labels) (elim o [
              | none ↦ none
              | some k ↦ if not (k == "") && k == id then outcome_label e.outcome else none
            ])
      given none = sym (or_else-none (get id labels))
      given (some k) = elim (Bool-cases (k == "")) [
        | inl h ↦ rw (h, or_else-none (get id labels)) refl
        | inr h ↦ rw h (get-note_label (get k labels) k id (outcome_label e.outcome) labels refl)
      ]

  get-label_loop :
      (id : String) (es : List (FeedbackEvent W)) (labels : Dict Label)
      → get id (label_loop es labels) ≡ or_else (get id labels) (first_label id es)
  unfolding label_loop
  get-label_loop id [] labels = sym (or_else-none (get id labels))
  get-label_loop id (e ∷ es) labels =
      get-label_loop id es (label_event e labels)
      ∙ ap (λ o. or_else o (first_label id es)) (get-label_event id e labels)
      ∙ or_else_assoc (get id labels) (label_for id e) (first_label id es)
      ∙ ap (or_else (get id labels)) (first (label_for id e))
    where
      first :
          (o : Option Label)
          → or_else o (first_label id es) ≡ elim o [ none ↦ first_label id es | some l ↦ some l ]
      first none = refl
      first (some l) = refl

  -- Each finding has the label of the first event that names it and has a label: later events, events
  -- without a finding id, and neutral outcomes change no label.
  pub get-feedback_labels :
      (id : String) (events : List (FeedbackEvent W))
      → get id (feedback_labels events) ≡ first_label id events
  unfolding feedback_labels get
  get-feedback_labels id events = get-label_loop id events []
