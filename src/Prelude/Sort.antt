-- ===== src/Prelude/Sort.antt =====
-- `sorted(xs, key=...)`: a stable sort by the order `lt` of the keys.
use Prim.Native.Nat.{ℕ, zero, suc}
use mathlib.Core.Path.{◌≡◌, refl}
use mathlib.Core.Logic.{inl, inr}
use mathlib.Core.Bool.{Bool, true, false}
use mathlib.Core.List.{List, [], ◌∷◌, Perm}
use mathlib.Core.List.Perm
use native.Mathlib.Omega.{arith}
use adaptive_multi_agent_pr.Prelude.Tests.{if◌then◌else◌, Bool-cases}
use adaptive_multi_agent_pr.Prelude.Lists.{
  All, All-imp, All-take, All-drop, count, length, take, drop,
}

module _ {ℓ} {A : Type ℓ} (lt : A → A → Bool) where
  -- before the first element that is not below `x`, so equal keys keep their order
  unfoldable pub insert : A → List A → List A
  insert x [] = x ∷ []
  insert x (y ∷ ys) = let rest = insert x ys in if lt y x then y ∷ rest else x ∷ y ∷ ys

  unfoldable pub sort : List A → List A
  unfolding insert
  sort [] = []
  sort (x ∷ xs) = insert x (sort xs)

  -- No element is below one that stands before it.
  abbrev pub IsSorted : List A → Type ℓ
  IsSorted [] = Unit
  IsSorted (x ∷ xs) = All (λ y. lt y x ≡ false) xs × IsSorted xs

  insert-perm : (x : A) (ys : List A) → Perm (insert x ys) (x ∷ ys)
  unfolding insert
  insert-perm x [] = Perm.refl (x ∷ [])
  insert-perm x (y ∷ ys) = elim (Bool-cases (lt y x)) [
    | inl e ↦ rw e (Perm.trans (Perm.cons y (insert-perm x ys)) (Perm.swap x y ys))
    | inr e ↦ rw e (Perm.refl (x ∷ y ∷ ys))
  ]

  pub sort-perm : (xs : List A) → Perm (sort xs) xs
  unfolding sort
  sort-perm [] = Perm.refl []
  sort-perm (x ∷ xs) = Perm.trans (insert-perm x (sort xs)) (Perm.cons x (sort-perm xs))

  count-insert : (p : A → Bool) (x : A) (ys : List A) → count p (insert x ys) ≡ count p (x ∷ ys)
  unfolding insert
  count-insert p x [] = refl
  count-insert p x (y ∷ ys) = ground (arith, count-insert p x ys)

  pub count-sort : (p : A → Bool) (xs : List A) → count p (sort xs) ≡ count p xs
  unfolding sort
  count-sort p [] = refl
  count-sort p (x ∷ xs) = ground (arith, count-insert p x (sort xs), count-sort p xs)

  length-insert : (x : A) (ys : List A) → length (insert x ys) ≡ length (x ∷ ys)
  unfolding insert
  length-insert x [] = refl
  length-insert x (y ∷ ys) = ground (arith, length-insert x ys)

  pub length-sort : (xs : List A) → length (sort xs) ≡ length xs
  unfolding sort
  length-sort [] = refl
  length-sort (x ∷ xs) = ground (arith, length-insert x (sort xs), length-sort xs)

  insert-All {κ} : (P : A → Type κ) (x : A) (ys : List A) → P x → All P ys → All P (insert x ys)
  unfolding insert
  insert-All P x [] h hs = (h, tt)
  insert-All P x (y ∷ ys) h hs = elim (Bool-cases (lt y x)) [
    | inl e ↦ rw e (hs.0, insert-All P x ys h hs.1)
    | inr e ↦ rw e (h, (hs.0, hs.1))
  ]

  pub sort-All {κ} : (P : A → Type κ) (xs : List A) → All P xs → All P (sort xs)
  unfolding sort
  sort-All P [] h = tt
  sort-All P (x ∷ xs) h = insert-All P x (sort xs) h.0 (sort-All P xs h.1)

  insert-All_rev {κ} : (P : A → Type κ) (x : A) (ys : List A) → All P (insert x ys) → P x × All P ys
  unfolding insert
  insert-All_rev P x [] h = h
  insert-All_rev P x (y ∷ ys) h =
      unsplit (lt y x) (insert x ys) (λ k. let r = insert-All_rev P x ys k in (r.0, r.1)) h
    where
      unsplit :
          (b : Bool) (xs : List A)
          → (All P xs → P x × All P ys)
          → All P (if b then y ∷ xs else x ∷ y ∷ ys)
          → P x × All P (y ∷ ys)
      unsplit true xs g k = (let r = g k.1 in (r.0, (k.0, r.1)))
      unsplit false xs g k = k

  pub sort-All_rev {κ} : (P : A → Type κ) (xs : List A) → All P (sort xs) → All P xs
  unfolding sort
  sort-All_rev P [] h = tt
  sort-All_rev P (x ∷ xs) h = let r = insert-All_rev P x (sort xs) h in (r.0, sort-All_rev P xs r.1)

  -- What stands behind a cut of a sorted list is below nothing before it.
  pub IsSorted-take-drop :
      (n : ℕ) (xs : List A)
      → IsSorted xs
      → All (λ x. All (λ y. lt y x ≡ false) (drop n xs)) (take n xs)
  IsSorted-take-drop zero xs h = tt
  IsSorted-take-drop (suc n) [] h = tt
  IsSorted-take-drop (suc n) (x ∷ xs) h =
      (All-drop (λ y. lt y x ≡ false) n xs h.0, IsSorted-take-drop n xs h.1)

  pub take-IsSorted : (n : ℕ) (xs : List A) → IsSorted xs → IsSorted (take n xs)
  take-IsSorted zero xs h = tt
  take-IsSorted (suc n) [] h = tt
  take-IsSorted (suc n) (x ∷ xs) h =
      (All-take (λ y. lt y x ≡ false) n xs h.0, take-IsSorted n xs h.1)

  -- The keys' order is asymmetric, and "not below" is transitive.
  pub record IsOrder : Type ℓ where
    pub asym : (a b : A) → lt a b ≡ true → lt b a ≡ false
    pub trans : (a b c : A) → lt b a ≡ false → lt c b ≡ false → lt c a ≡ false

  module _ (order : IsOrder) where
    insert-IsSorted : (x : A) (ys : List A) → IsSorted ys → IsSorted (insert x ys)
    unfolding insert
    insert-IsSorted x [] h = (tt, tt)
    insert-IsSorted x (y ∷ ys) h = elim (Bool-cases (lt y x)) [
      | inl e ↦
          rw e
            (insert-All (λ z. lt z y ≡ false) x ys (order.asym y x e) h.0, insert-IsSorted x ys h.1)
      | inr e ↦ rw e ((e, All-imp (λ z hz. order.trans x y z e hz) ys h.0), (h.0, h.1))
    ]

    pub sort-IsSorted : (xs : List A) → IsSorted (sort xs)
    unfolding sort
    sort-IsSorted [] = tt
    sort-IsSorted (x ∷ xs) = insert-IsSorted x (sort xs) (sort-IsSorted xs)
