-- ===== src/Agents/Parse/Accepted.antt =====
-- What `parse_batch` of backend/app/agents/contract.py keeps, drops and counts.
use adaptive_multi_agent_pr.Prelude.{
  ℕ, zero, suc, ◌+◌, ◌-◌, ◌≤◌, ◌≡◌, refl, ap, sym, ◌∙◌, String, Bool, true, false, not, ◌&&◌,
  Option, none, some, List, [], ◌∷◌, ◌++◌, length, take, arith, All, length-append, length-take-le,
  Bool-cases, inl, inr, ltb, map, ◌||◌, All-append, if◌then◌else◌,
}
use mathlib.Core.List.{append-nil, append_assoc}
use mathlib.Core.Path.{subst}
use adaptive_multi_agent_pr.Prelude.Dict.{contains}
use adaptive_multi_agent_pr.Prelude.Fallible.{Fallible, ok, raised}
use adaptive_multi_agent_pr.Agents.Contract.{AgentFinding}
use adaptive_multi_agent_pr.Agents.Parse.{
  Json, Item, ItemError, BatchParseResult, max_findings_per_batch, category_allowed, extract_items,
  check_finding, parse_item, parse_loop, note_item, note_overage, parse_items, parse_batch,
  is_given, dict, not_a_dict, outside_files, outside_categories, invalid, trimmed, AgentOutputError,
  bad_json, no_findings,
}

length-take_sub {ℓ} :
    {A : Type ℓ} (n : ℕ) (xs : List A) → length (take n xs) + (length xs - n) ≡ length xs
length-take_sub zero xs = omega arith
length-take_sub (suc n) [] = omega arith
length-take_sub (suc n) (x ∷ xs) = omega (arith, length-take_sub n xs)

module _ {ℓ} {W : Type ℓ} where
  -- the values, in order, and the errors
  abbrev pub values_of : List (Fallible ItemError (AgentFinding W)) → List (AgentFinding W)
  values_of [] = []
  values_of (raised e ∷ rs) = values_of rs
  values_of (ok x ∷ rs) = x ∷ values_of rs

  -- A kept finding is in a changed file, and its category belongs to the agent, if the agent has any.
  abbrev pub IsKept : List String → List String → AgentFinding W → Type 0
  IsKept changed_paths categories x =
      (contains changed_paths x.file_path ≡ true)
      × ((not (is_given categories) || category_allowed x.category categories) ≡ true)

  pub record IsParsed (changed_paths categories : List String) (accepted : List (AgentFinding W))
      (n : ℕ) (r : BatchParseResult W) : Type ℓ where
    pub in_order : r.findings ≡ accepted
    pub kept : All (IsKept changed_paths categories) r.findings
    pub bounded : length r.findings ≤ max_findings_per_batch
    pub read : r.raw_count ≡ n
    pub valid : r.valid_count ≡ length r.findings
    pub accounted : r.valid_count + r.invalid_count ≡ r.raw_count
    pub noted :
        length r.errors + (n - max_findings_per_batch)
        ≡ r.invalid_count + (if ltb 0 (n - max_findings_per_batch) then 1 else 0)

  -- the counters, after `n` items
  abbrev Counted : List String → List String → ℕ → BatchParseResult W → Type 0
  Counted changed_paths categories n r =
      (r.valid_count ≡ length r.findings)
      × (r.valid_count + r.invalid_count ≡ n)
      × (length r.errors ≡ r.invalid_count)
      × All (IsKept changed_paths categories) r.findings

  -- a result with its checks: what is kept of it meets them
  abbrev Checked : List String → List String → Fallible ItemError (AgentFinding W) → Type 0
  Checked changed_paths categories (raised e) = Unit
  Checked changed_paths categories (ok x) = IsKept changed_paths categories x

module _ {ℓ} {W : Type ℓ} {D : Type 0} (validate : D → Fallible String (AgentFinding W))
    (changed_paths categories : List String) where
  check_finding-Checked :
      (x : AgentFinding W)
      → Checked changed_paths categories (check_finding validate changed_paths categories x)
  unfolding check_finding
  check_finding-Checked x =
      given (contains changed_paths x.file_path) (is_given categories)
        (category_allowed x.category categories) refl refl
    where
      given :
          (a b c : Bool)
          → contains changed_paths x.file_path ≡ a
          → (not (is_given categories) || category_allowed x.category categories) ≡ (not b || c)
          → Checked changed_paths categories (
              if not a
              then raised (outside_files x.file_path)
              else if b && not c
              then raised (outside_categories x.category categories)
              else ok x)
      given false b c h k = tt
      given true false c h k = (h, k)
      given true true false h k = tt
      given true true true h k = (h, k)

  parse_item-Checked :
      (i : Item D)
      → Checked changed_paths categories (parse_item validate changed_paths categories i)
  unfolding parse_item
  parse_item-Checked not_a_dict = tt
  parse_item-Checked (dict d) = given (validate d)
    where
      given :
          (v : Fallible String (AgentFinding W))
          → Checked changed_paths categories (elim v [
            | raised e ↦ raised (invalid e)
            | ok x ↦ check_finding validate changed_paths categories x
          ])
      given (raised e) = tt
      given (ok x) = check_finding-Checked x

  note_item-Counted :
      (v : Fallible ItemError (AgentFinding W)) (n : ℕ) (r : BatchParseResult W)
      → Checked changed_paths categories v
      → Counted changed_paths categories n r
      → Counted changed_paths categories (suc n) (note_item v r)
  note_item-Counted (raised e) n r c (v, a, e', k) =
      (v, omega arith, omega (arith, length-append r.errors (e ∷ [])), k)
  note_item-Counted (ok x) n r c (v, a, e', k) = (
    omega (arith, length-append r.findings (x ∷ [])),
    omega arith,
    e',
    All-append _ r.findings (x ∷ []) k (c, tt),
  )

  parse_loop-Counted :
      (is : List (Item D)) (n : ℕ) (r : BatchParseResult W)
      → Counted changed_paths categories n r
      → Counted changed_paths categories
          (length is + n)
          (parse_loop validate changed_paths categories is r)
  unfolding parse_loop
  parse_loop-Counted [] n r h = subst (λ m. Counted changed_paths categories m r) (omega arith) h
  parse_loop-Counted (i ∷ is) n r h =
      subst
        (λ m.
          Counted changed_paths categories m
            (parse_loop validate changed_paths categories (i ∷ is) r))
        (omega arith)
        (parse_loop-Counted is (suc n) _ (
          note_item-Counted (parse_item validate changed_paths categories i) n r
            (parse_item-Checked i) h))

  -- the findings that the checks let through, in their order
  abbrev pub accepted : List (Item D) → List (AgentFinding W)
  accepted is = values_of (map (parse_item validate changed_paths categories) is)

  note_item-findings :
      (v : Fallible ItemError (AgentFinding W)) (vs : List (Fallible ItemError (AgentFinding W)))
      (r : BatchParseResult W)
      → (note_item v r).findings ++ values_of vs ≡ r.findings ++ values_of (v ∷ vs)
  note_item-findings (raised e) vs r = refl
  note_item-findings (ok x) vs r = append_assoc r.findings (x ∷ []) (values_of vs)

  parse_loop-findings :
      (is : List (Item D)) (r : BatchParseResult W)
      → ((parse_loop validate changed_paths categories is r).findings ≡ r.findings ++ accepted is)
        × ((parse_loop validate changed_paths categories is r).raw_count ≡ r.raw_count)
  unfolding parse_loop
  parse_loop-findings [] r = (sym (append-nil r.findings), refl)
  parse_loop-findings (i ∷ is) r =
      let v = parse_item validate changed_paths categories i in
      let h = parse_loop-findings is (note_item v r) in
      (
        h.0 ∙ note_item-findings v (map (parse_item validate changed_paths categories) is) r,
        h.1 ∙ same_raw v r,
      )
    where
      same_raw :
          (v : Fallible ItemError (AgentFinding W)) (r : BatchParseResult W)
          → (note_item v r).raw_count ≡ r.raw_count
      same_raw (raised e) r = refl
      same_raw (ok x) r = refl

  note_overage-IsParsed :
      (m n : ℕ) (xs : List (AgentFinding W)) (r : BatchParseResult W)
      → Counted changed_paths categories m r
      → m + (n - max_findings_per_batch) ≡ n
      → m ≤ max_findings_per_batch
      → r.findings ≡ xs
      → r.raw_count ≡ n
      → IsParsed changed_paths categories xs n (note_overage (n - max_findings_per_batch) r)
  note_overage-IsParsed m n xs r (v, a, e, k) total small order raw =
      elim (Bool-cases (ltb 0 (n - max_findings_per_batch))) [
        | inl b ↦ rw b (record {
          in_order = order;
          kept = k;
          bounded = omega arith;
          read = raw;
          valid = v;
          accounted = omega arith;
          noted =
              rw b
                (omega (arith, length-append r.errors (trimmed (n - max_findings_per_batch) ∷ [])));
        })
        | inr b ↦ rw b (record {
          in_order = order;
          kept = k;
          bounded = omega arith;
          read = raw;
          valid = v;
          accounted = ground arith;
          noted = rw b (ground arith);
        })
      ]

  abbrev read_items : Option (List (Item D)) → Fallible AgentOutputError (BatchParseResult W)
  read_items none = raised no_findings
  read_items (some is) = ok (parse_items validate changed_paths categories is)

  -- An answer that is JSON with a list of findings is parsed. The result holds the findings that the
  -- checks let through among the first 100 items, in their order, each in a changed file and of the
  -- agent's categories; every item is counted as valid or invalid, and each dropped item has its error,
  -- with one error for all items past the cap.
  pub parse_batch-IsParsed :
      (loads : String → Option (Json D)) (content : String) (json : Json D) (is : List (Item D))
      → loads content ≡ some json
      → extract_items json ≡ some is
      → (r : BatchParseResult W) × (parse_batch validate changed_paths categories loads content
          ≡ ok r)
        × IsParsed changed_paths categories
            (accepted (take max_findings_per_batch is))
            (length is)
            r
  unfolding parse_batch parse_items
  parse_batch-IsParsed loads content json is h k =
      let start : BatchParseResult W = record {
        findings = [];
        raw_count = length is;
        valid_count = 0;
        invalid_count = 0;
        errors = [];
      } in
      let first = take max_findings_per_batch is in
      let r = parse_loop validate changed_paths categories first start in
      let (order, raw) = parse_loop-findings first start in
      (
        note_overage (length is - max_findings_per_batch) r,
        ap
              (λ o. elim o as (λ _. Fallible AgentOutputError (BatchParseResult W)) [
                | none ↦ raised (bad_json content)
                | some j ↦ read_items (extract_items j)
              ])
              h
            ∙ ap read_items k,
        note_overage-IsParsed (length first + 0) (length is) (accepted first) r
            (parse_loop-Counted first 0 start (refl, refl, refl, tt))
            (omega (arith, length-take_sub max_findings_per_batch is))
            (omega (arith, length-take-le max_findings_per_batch is)) order raw,
      )
