-- ===== src/Prelude/Sorted.antt =====
-- What a stable sort returns: the same elements, in order.
use Prim.Native.Nat.{suc}
use mathlib.Core.Bool.{Bool, true, false}
use mathlib.Core.List.{List, [], ◌∷◌}
use mathlib.Core.Logic.{◌⊎◌, inl, inr, ◌↔◌}
use mathlib.Core.Path.{◌≡◌, refl, sym, ap, subst, ◌∙◌}
use native.Mathlib.Omega.{arith}
use photo_swipe.Prelude.Tests.{Bool-cases}
use photo_swipe.Prelude.Lists.{length}
use photo_swipe.Prelude.Sort.{insert_sorted, sort_stable}

module _ {A : Type 0} where
  -- The places at which `x` stands in a list.
  abbrev pub In : A → List A → Type 0
  In x [] = ⊥
  In x (y ∷ ys) = (x ≡ y) ⊎ In x ys

  abbrev pub All : (A → Type 0) → List A → Type 0
  All P [] = Unit
  All P (x ∷ xs) = P x × All P xs

  pub All-In : (P : A → Type 0) (xs : List A) → ((x : A) → In x xs → P x) → All P xs
  All-In P [] h = tt
  All-In P (x ∷ xs) h = (h x (inl refl), All-In P xs λ y i. h y (inr i))

  pub In-All : (P : A → Type 0) (xs : List A) (x : A) → All P xs → In x xs → P x
  In-All P [] x h i = elim i [ ]
  In-All P (y ∷ ys) x (p, h) (inl e) = subst P (sym e) p
  In-All P (y ∷ ys) x (p, h) (inr i) = In-All P ys x h i

  -- A filter by `Q` that keeps the head, and one that drops it.
  pub In-kept :
      (Q : A → Type 0) (x y : A) (xs ys : List A)
      → Q y
      → In x ys ↔ (In x xs × Q x)
      → ((x ≡ y) ⊎ In x ys) ↔ (((x ≡ y) ⊎ In x xs) × Q x)
  In-kept Q x y xs ys q (to, from) = (
    λ i. elim i [ inl e ↦ (inl e, subst Q (sym e) q) | inr j ↦ let (k, h) = to j in (inr k, h) ],
    λ (i, h). elim i [ inl e ↦ inl e | inr j ↦ inr (from (j, h)) ],
  )

  pub In-dropped :
      (Q : A → Type 0) (x y : A) (xs ys : List A)
      → ¬ Q y
      → In x ys ↔ (In x xs × Q x)
      → In x ys ↔ (((x ≡ y) ⊎ In x xs) × Q x)
  In-dropped Q x y xs ys off (to, from) = (
    λ i. let (k, h) = to i in (inr k, h),
    λ (i, h). elim i [ inl e ↦ absurd (off (subst Q e h)) | inr j ↦ from (j, h) ],
  )

  -- `x` stands at a place before one of `y`.
  abbrev pub Before : A → A → List A → Type 0
  Before x y [] = ⊥
  Before x y (z ∷ zs) = ((x ≡ z) × In y zs) ⊎ Before x y zs

  pub Before-In : (x y : A) (zs : List A) → Before x y zs → In x zs × In y zs
  Before-In x y [] b = elim b [ ]
  Before-In x y (z ∷ zs) (inl (e, i)) = (inl e, inr i)
  Before-In x y (z ∷ zs) (inr b) = let (i, j) = Before-In x y zs b in (inr i, inr j)

  -- Two elements of a list stand in one order or the other.
  pub In-Before :
      (x y : A) (zs : List A) → In x zs → In y zs → (x ≡ y) ⊎ (Before x y zs ⊎ Before y x zs)
  In-Before x y [] i j = elim i [ ]
  In-Before x y (z ∷ zs) (inl e) (inl e') = inl (e ∙ sym e')
  In-Before x y (z ∷ zs) (inl e) (inr j) = inr (inl (inl (e, j)))
  In-Before x y (z ∷ zs) (inr i) (inl e') = inr (inr (inl (e', i)))
  In-Before x y (z ∷ zs) (inr i) (inr j) = elim (In-Before x y zs i j) [
    | inl e ↦ inl e
    | inr (inl b) ↦ inr (inl (inr b))
    | inr (inr b) ↦ inr (inr (inr b))
  ]

module _ {A : Type 0} (less : A → A → Bool) where
  -- No element is less than one before it.
  abbrev pub IsSorted : List A → Type 0
  IsSorted [] = Unit
  IsSorted (x ∷ xs) = All (λ y. less y x ≡ false) xs × IsSorted xs

  pub Before-less : (x y : A) (zs : List A) → IsSorted zs → Before x y zs → less y x ≡ false
  Before-less x y [] s b = elim b [ ]
  Before-less x y (z ∷ zs) (a, s) (inl (e, i)) =
      subst (λ w. less y w ≡ false) (sym e) (In-All _ zs y a i)
  Before-less x y (z ∷ zs) (a, s) (inr b) = Before-less x y zs s b

  length-insert_sorted : (x : A) (xs : List A) → length (insert_sorted less x xs) ≡ suc (length xs)
  unfolding insert_sorted
  length-insert_sorted x [] = refl
  length-insert_sorted x (y ∷ ys) = ground (arith, length-insert_sorted x ys)

  pub length-sort_stable : (xs : List A) → length (sort_stable less xs) ≡ length xs
  unfolding sort_stable
  length-sort_stable [] = refl
  length-sort_stable (x ∷ xs) =
      length-insert_sorted x (sort_stable less xs) ∙ ap suc (length-sort_stable xs)

  insert_past :
      (x y : A) (ys : List A)
      → less y x ≡ true
      → insert_sorted less x (y ∷ ys) ≡ y ∷ insert_sorted less x ys
  unfolding insert_sorted
  insert_past x y ys e = rw e refl

  insert_here :
      (x y : A) (ys : List A) → less y x ≡ false → insert_sorted less x (y ∷ ys) ≡ x ∷ y ∷ ys
  unfolding insert_sorted
  insert_here x y ys e = rw e refl

  In-insert_sorted : (z x : A) (xs : List A) → In z (insert_sorted less x xs) ↔ ((z ≡ x) ⊎ In z xs)
  unfolding insert_sorted
  In-insert_sorted z x [] = (λ i. i, λ i. i)
  In-insert_sorted z x (y ∷ ys) = elim (Bool-cases (less y x)) [
    | inl e ↦
        subst (λ l. In z l ↔ ((z ≡ x) ⊎ In z (y ∷ ys))) (sym (insert_past x y ys e))
          (ground (arith, In-insert_sorted z x ys))
    | inr e ↦
        subst (λ l. In z l ↔ ((z ≡ x) ⊎ In z (y ∷ ys))) (sym (insert_here x y ys e))
          (λ i. i, λ i. i)
  ]

  pub In-sort_stable : (z : A) (xs : List A) → In z (sort_stable less xs) ↔ In z xs
  unfolding sort_stable
  In-sort_stable z [] = (λ i. i, λ i. i)
  In-sort_stable z (x ∷ xs) =
      ground (arith, In-insert_sorted z x (sort_stable less xs), In-sort_stable z xs)

  module _ (asym : (x y : A) → less x y ≡ true → less y x ≡ false)
      (through : (x y z : A) → less x y ≡ false → less y z ≡ false → less x z ≡ false) where
    insert_sorted-IsSorted :
        (x : A) (xs : List A) → IsSorted xs → IsSorted (insert_sorted less x xs)
    unfolding insert_sorted
    insert_sorted-IsSorted x [] s = (tt, tt)
    insert_sorted-IsSorted x (y ∷ ys) (a, s) = elim (Bool-cases (less y x)) [
      | inl e ↦ subst IsSorted (sym (insert_past x y ys e)) (
        All-In _ (insert_sorted less x ys) (λ z i. elim ((In-insert_sorted z x ys).0 i) [
          | inl q ↦ ap (λ w. less w y) q ∙ asym y x e
          | inr j ↦ In-All _ ys z a j
        ]),
        insert_sorted-IsSorted x ys s,
      )
      | inr e ↦
          subst IsSorted (sym (insert_here x y ys e))
            ((e, All-In _ ys λ z i. through z y x (In-All _ ys z a i) e), (a, s))
    ]

    pub sort_stable-IsSorted : (xs : List A) → IsSorted (sort_stable less xs)
    unfolding sort_stable
    sort_stable-IsSorted [] = tt
    sort_stable-IsSorted (x ∷ xs) =
        insert_sorted-IsSorted x (sort_stable less xs) (sort_stable-IsSorted xs)
