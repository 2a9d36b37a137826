-- ===== src/Prelude/Lists.antt =====
-- Lists measured by native numbers, the ends of a list, and tests on lists of texts.
use Prim.Native.Nat.{ℕ, zero, suc, ◌+◌, ◌-◌, ◌≤◌, min}
use Prim.Native.String.{String}
use mathlib.Core.Bool.{Bool, false, ◌||◌}
use mathlib.Core.List.{List, [], ◌∷◌, ◌++◌}
use mathlib.Core.Option.{Option, none, some}
use mathlib.Core.Path.{◌≡◌, refl, ap}
use mathlib.Core.Logic.{inl, inr}
use photo_swipe.Prelude.Tests.{Option-cases}
use native.Mathlib.Omega.{arith}
use text.Mathlib.Text.{◌==◌ as str_eq}

module _ {ℓ} {A : Type ℓ} where
  abbrev pub length : List A → ℕ
  length [] = 0
  length (x ∷ xs) = suc (length xs)

  abbrev pub drop : ℕ → List A → List A
  drop zero xs = xs
  drop (suc n) [] = []
  drop (suc n) (x ∷ xs) = drop n xs

  abbrev pub take : ℕ → List A → List A
  take zero xs = []
  take (suc n) [] = []
  take (suc n) (x ∷ xs) = x ∷ take n xs

  -- s[:len(s)-1] and s[len(s)-1] of a slice, if it is not empty.
  unfoldable pub split_last : List A → Option (List A × A)
  split_last [] = none
  split_last (x ∷ xs) = elim (split_last xs) [
    | none ↦ some ([], x)
    | some (front, y) ↦ some (x ∷ front, y)
  ]

  pub length-append : (xs ys : List A) → length (xs ++ ys) ≡ length xs + length ys
  length-append [] ys = omega arith
  length-append (x ∷ xs) ys = omega (arith, length-append xs ys)

  pub length-drop : (n : ℕ) (xs : List A) → length (drop n xs) ≡ length xs - n
  length-drop zero xs = omega arith
  length-drop (suc n) [] = omega arith
  length-drop (suc n) (x ∷ xs) = omega (arith, length-drop n xs)

  pub length-take : (n : ℕ) (xs : List A) → length (take n xs) ≡ min n (length xs)
  length-take zero xs = omega arith
  length-take (suc n) [] = omega arith
  length-take (suc n) (x ∷ xs) = omega (arith, length-take n xs)

  pub drop-append : (n : ℕ) (xs ys : List A) → n ≤ length xs → drop n (xs ++ ys) ≡ drop n xs ++ ys
  drop-append zero xs ys h = refl
  drop-append (suc n) [] ys h = absurd (omega arith)
  drop-append (suc n) (x ∷ xs) ys h = drop-append n xs ys (omega arith)

  pub split_last-append : (xs : List A) (x : A) → split_last (xs ++ x ∷ []) ≡ some (xs, x)
  unfolding split_last
  split_last-append [] x = refl
  split_last-append (y ∷ xs) x = rw (split_last-append xs x, split_last)

  pub split_last-nil : split_last [] ≡ none
  unfolding split_last
  split_last-nil = refl

  pub split_last-none : (xs : List A) → split_last xs ≡ none → xs ≡ []
  unfolding split_last
  split_last-none [] h = refl
  split_last-none (x ∷ xs) h = elim (Option-cases (split_last xs)) [
    | inl e ↦ cc (ap (snoc x) e)
    | inr (p, e) ↦ cc (ap (snoc x) e)
  ]
    where
      snoc : A → Option (List A × A) → Option (List A × A)
      snoc y o = elim o [ none ↦ some ([], y) | some (front, z) ↦ some (y ∷ front, z) ]

  pub split_last_inv :
      (xs front : List A) (x : A) → split_last xs ≡ some (front, x) → xs ≡ front ++ x ∷ []
  unfolding split_last
  split_last_inv [] front x h = cc
  split_last_inv (y ∷ xs) front x h = elim (Option-cases (split_last xs)) [
    | inl e ↦ ground (arith, split_last-none xs)
    | inr ((f, z), e) ↦ ground (arith, split_last_inv xs f z e)
  ]

abbrev pub mem : String → List String → Bool
mem x [] = false
mem x (y ∷ ys) = str_eq y x || mem x ys
