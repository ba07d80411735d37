-- ===== src/Consolidation/Redundancy/Groups.antt =====
-- The groups that backend/app/consolidation/redundancy.py forms.
use adaptive_multi_agent_pr.Prelude.{
  ℕ, suc, ◌+◌, ◌≤◌, String, ◌≡◌, refl, true, false, some, List, [], ◌∷◌, ◌++◌, map, length, count,
  count-append, length-append, length-map, ltb, leb, nat_eq, arith, All, All-append, Bool-cases,
  Option-cases, ap, inl, inr, if◌then◌else◌,
}
use adaptive_multi_agent_pr.Prelude.Int.{ℤ}
use adaptive_multi_agent_pr.Prelude.Float.{Float}
use adaptive_multi_agent_pr.Prelude.Sort.{sort, count-sort}
use adaptive_multi_agent_pr.Consolidation.Datatypes.{FindingWrite, FindingGroupWrite}
use adaptive_multi_agent_pr.Consolidation.Redundancy.{
  Item, Grouping, is_assigned, enumerate, item_before, joining, close_group, group_step, group_loop,
  apply_groups,
}

-- how often a place stands in a list
abbrev pub times : ℕ → List ℕ → ℕ
times k ks = count (λ j. nat_eq j k) ks

times-assigned : (k : ℕ) (ks : List ℕ) → is_assigned k ks ≡ false → times k ks ≡ 0
times-assigned k [] h = refl
times-assigned k (j ∷ ks) h = ground (arith, times-assigned k ks)

assigned-times : (k : ℕ) (ks : List ℕ) → is_assigned k ks ≡ true → 1 ≤ times k ks
assigned-times k [] h = ground arith
assigned-times k (j ∷ ks) h = ground (arith, assigned-times k ks)

module _ {ℓ} {W : Type ℓ} where
  -- the sizes of the groups, added up
  abbrev pub members_total : List (FindingGroupWrite W) → ℕ
  members_total [] = 0
  members_total (g ∷ gs) = g.member_count + members_total gs

  members_total-append :
      (gs hs : List (FindingGroupWrite W))
      → members_total (gs ++ hs) ≡ members_total gs + members_total hs
  members_total-append [] hs = omega arith
  members_total-append (g ∷ gs) hs = omega (arith, members_total-append gs hs)

  times-enumerate :
      (k n : ℕ) (xs : List (FindingWrite W)) (vs : List (List W)) (items : List (Item W))
      → enumerate n xs vs ≡ some items
      → (count (λ m. nat_eq m.index k) items ≤ 1)
        × (count (λ m. nat_eq m.index k) items ≤ (if leb n k then 1 else 0))
  unfolding enumerate
  times-enumerate k n [] [] items e = ground (arith, e)
  times-enumerate k n [] (v ∷ vs) items e = ground (arith, e)
  times-enumerate k n (x ∷ xs) [] items e = ground (arith, e)
  times-enumerate k n (x ∷ xs) (v ∷ vs) items e = elim (Option-cases (enumerate (suc n) xs vs)) [
    | inl h ↦ ground (arith, e, h)
    | inr (rest, h) ↦ ground (arith, e, h, times-enumerate k (suc n) xs vs rest h)
  ]

same_assigned : (j k : ℕ) (ks : List ℕ) → nat_eq j k ≡ true → is_assigned j ks ≡ is_assigned k ks
same_assigned j k ks h = ap (λ i. is_assigned i ks) (ground (arith, h))

-- The groups are disjoint, of two members at least, and hold all that is assigned.
pub record IsSound {ℓ} {W : Type ℓ} (g : Grouping W) : Type ℓ where
  pub disjoint : (k : ℕ) → times k g.assigned ≤ 1
  pub total : members_total g.groups ≡ length g.assigned
  pub sizes : All (λ x. 2 ≤ x.member_count) g.groups

module _ {ℓ} {W : Type ℓ} ⦃f : Float W⦄ (sqrt : W → W) (group_id : FindingWrite W → String)
    (threshold : W) (max_line_gap : ℤ) where
  abbrev joined : Item W → List (Item W) → List ℕ → List ℕ
  joined i order assigned =
      map (λ m. m.index) (joining sqrt group_id threshold max_line_gap i order assigned)

  -- No place joins twice, and neither the leader nor an assigned place joins.
  times-joined :
      (i : Item W) (order : List (Item W)) (assigned : List ℕ) (k : ℕ)
      → (times k (joined i order assigned) ≤ count (λ m. nat_eq m.index k) order)
        × ((nat_eq i.index k ≡ true → times k (joined i order assigned) ≡ 0)
            × (is_assigned k assigned ≡ true → times k (joined i order assigned) ≡ 0))
  times-joined i [] assigned k = (ground arith, ((λ h. refl), λ h. refl))
  times-joined i (j ∷ order) assigned k =
      let (few, (lead, old)) = times-joined i order assigned k in
      elim (Bool-cases (nat_eq j.index k)) [
        | inl e ↦
            let same = same_assigned j.index k assigned e in
            (
              ground (arith, e, few),
              (λ h. ground (arith, e, h, lead h), λ h. ground (arith, e, h, same, old h)),
            )
        | inr e ↦ (
          ground (arith, e, few),
          (λ h. ground (arith, e, h, lead h), λ h. ground (arith, e, h, old h)),
        )
      ]

  once_more :
      (order : List (Item W)) (i : Item W) (g : Grouping W)
      → ((k : ℕ) → count (λ m. nat_eq m.index k) order ≤ 1)
      → is_assigned i.index g.assigned ≡ false
      → ((k : ℕ) → times k g.assigned ≤ 1)
      → (k : ℕ) → times k (g.assigned ++ i.index ∷ joined i order g.assigned) ≤ 1
  once_more order i g once fresh disjoint k =
      let (few, (lead, old)) = times-joined i order g.assigned k in
      let sum = count-append (λ j. nat_eq j k) g.assigned (i.index ∷ joined i order g.assigned) in
      elim (Bool-cases (is_assigned k g.assigned)) [
        | inl a ↦ elim (Bool-cases (nat_eq i.index k)) [
          | inl e ↦ absurd (ground (arith, same_assigned i.index k g.assigned e, fresh, a))
          | inr e ↦ ground (arith, sum, e, old a, disjoint k)
        ]
        | inr a ↦ elim (Bool-cases (nat_eq i.index k)) [
          | inl e ↦ ground (arith, sum, e, lead e, times-assigned k g.assigned a)
          | inr e ↦ ground (arith, sum, e, few, once k, times-assigned k g.assigned a)
        ]
      ]

  close_group-IsSound :
      (order : List (Item W)) (i : Item W) (g : Grouping W)
      → ((k : ℕ) → count (λ m. nat_eq m.index k) order ≤ 1)
      → is_assigned i.index g.assigned ≡ false
      → 2 ≤ suc (length (joining sqrt group_id threshold max_line_gap i order g.assigned))
      → IsSound g
      → IsSound (
          close_group sqrt group_id threshold max_line_gap i
            (i ∷ joining sqrt group_id threshold max_line_gap i order g.assigned)
            g)
  unfolding close_group
  close_group-IsSound order i g once fresh large sound =
      let members = i ∷ joining sqrt group_id threshold max_line_gap i order g.assigned in
      record {
        disjoint = once_more order i g once fresh sound.disjoint;
        total = omega (
          arith,
          sound.total,
          members_total-append g.groups _,
          length-append g.assigned (map (λ m. m.index) members),
          length-map (λ (m : Item W). m.index) members,
        );
        sizes = All-append (λ x. 2 ≤ x.member_count) g.groups _ sound.sizes (large, tt);
      }

  group_step-IsSound :
      (order : List (Item W)) (i : Item W) (g : Grouping W)
      → ((k : ℕ) → count (λ m. nat_eq m.index k) order ≤ 1)
      → IsSound g
      → IsSound (group_step sqrt group_id threshold max_line_gap order i g)
  unfolding group_step
  group_step-IsSound order i g once sound =
      let members = i ∷ joining sqrt group_id threshold max_line_gap i order g.assigned in
      elim (Bool-cases (is_assigned i.index g.assigned)) [
        | inl a ↦ rw (a, group_step) sound
        | inr a ↦ elim (Bool-cases (ltb (length members) 2)) [
          | inl b ↦ rw (a, group_step) (rw b sound)
          | inr b ↦
              rw (a, group_step)
                (rw b (close_group-IsSound order i g once a (ground (arith, b)) sound))
        ]
      ]

  group_loop-IsSound :
      (order is : List (Item W)) (g : Grouping W)
      → ((k : ℕ) → count (λ m. nat_eq m.index k) order ≤ 1)
      → IsSound g
      → IsSound (group_loop sqrt group_id threshold max_line_gap order is g)
  unfolding group_loop
  group_loop-IsSound order [] g once sound = sound
  group_loop-IsSound order (i ∷ is) g once sound =
      group_loop-IsSound order is _ once (group_step-IsSound order i g once sound)

enumerate-some {ℓ} :
    {W : Type ℓ} (n : ℕ) (xs : List (FindingWrite W)) (vs : List (List W))
    → length xs ≡ length vs
    → (items : List (Item W)) × (enumerate n xs vs ≡ some items)
unfolding enumerate
enumerate-some n [] [] e = ([], refl)
enumerate-some n [] (v ∷ vs) e = ground (arith, e)
enumerate-some n (x ∷ xs) [] e = ground (arith, e)
enumerate-some n (x ∷ xs) (v ∷ vs) e =
    let (items, h) = enumerate-some (suc n) xs vs (ground (arith, e)) in
    (record { index = n; finding = x; vector = v } ∷ items, ground (arith, h))

-- With one vector for each finding, `apply_groups` succeeds, whatever the similarities: no finding
-- is in two groups, each group has two members at least, and the member counts add up to the
-- number of findings that are in a group.
pub apply_groups-IsSound {ℓ} :
    {W : Type ℓ} ⦃f : Float W⦄ (sqrt : W → W) (group_id : FindingWrite W → String) (threshold : W)
    (max_line_gap : ℤ) (findings : List (FindingWrite W)) (vectors : List (List W))
    → length findings ≡ length vectors
    → (g : Grouping W) × (apply_groups sqrt group_id threshold max_line_gap findings vectors
        ≡ some g)
      × IsSound g
unfolding apply_groups
apply_groups-IsSound sqrt group_id threshold max_line_gap findings vectors e =
    let (items, h) = enumerate-some 0 findings vectors e in
    (
      group_loop sqrt group_id threshold max_line_gap (sort item_before items)
          (sort item_before items) (record { assigned = []; groups = []; updated = findings }),
      rw (h, apply_groups) refl,
      group_loop-IsSound sqrt group_id threshold max_line_gap (sort item_before items)
          (sort item_before items) _
          (λ k. ground (
            arith,
            count-sort item_before (λ m. nat_eq m.index k) items,
            times-enumerate k 0 findings vectors items h,
          ))
          (record { disjoint = λ k. ground arith; total = refl; sizes = tt }),
    )
