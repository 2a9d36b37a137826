-- ===== src/Prelude/Map.antt =====
-- Go's maps with string keys, as association lists. The order of the list stands for the order in
-- which a `range` loop happens to visit the map.
use Prim.Native.String.{String}
use mathlib.Core.Bool.{true, false}
use mathlib.Core.Logic.{inl, inr}
use mathlib.Core.Option
use mathlib.Core.List.{List, [], ◌∷◌}
use mathlib.Core.Option.{Option, none, some}
use mathlib.Core.Path.{◌≡◌, refl, ap, ◌∙◌}
use native.Mathlib.Omega.{arith}
use text.Mathlib.Text.{◌==◌ as str_eq}
use text.Mathlib.TextEquality.{eq_iff}
use text.Mathlib.TextPositions.{eq_refl}
use photo_swipe.Prelude.Tests.{if◌then◌else◌, Bool-cases, Option-cases}

abbrev pub Map {ℓ} : Type ℓ → Type ℓ
Map V = List (String × V)

module _ {ℓ} {V : Type ℓ} where
  -- v, ok := m[key]
  unfoldable pub lookup : String → Map V → Option V
  lookup key [] = none
  lookup key ((held, v) ∷ rest) = if str_eq held key then some v else lookup key rest

  -- m[key] = v
  unfoldable pub insert : String → V → Map V → Map V
  insert key v [] = (key, v) ∷ []
  insert key v ((held, w) ∷ rest) =
      if str_eq held key then (held, v) ∷ rest else (held, w) ∷ insert key v rest

  -- delete(m, k)
  unfoldable pub delete : String → Map V → Map V
  delete k [] = []
  delete k ((j, v) ∷ m) = let rest = delete k m in if str_eq j k then rest else (j, v) ∷ rest

  -- if v, ok := m[k]; ok { m[k] = f(v) }
  unfoldable pub modify : String → (V → V) → Map V → Map V
  modify k f m = elim (lookup k m) [ none ↦ m | some v ↦ insert k (f v) m ]

  pub lookup-insert :
      (at key : String) (v : V) (m : Map V)
      → lookup key (insert at v m) ≡ (if str_eq at key then some v else lookup key m)
  unfolding lookup insert
  lookup-insert at key v [] = refl
  lookup-insert at key v ((held, w) ∷ rest) =
      ground (arith, lookup-insert at key v rest, eq_iff held at, eq_iff held key, eq_iff at key)

  pub lookup-insert_self : (k : String) (v : V) (m : Map V) → lookup k (insert k v m) ≡ some v
  lookup-insert_self k v m = simp (lookup-insert, eq_refl)

  pub lookup-delete :
      (k j : String) (m : Map V) → lookup j (delete k m) ≡ (if str_eq k j then none else lookup j m)
  unfolding lookup delete
  lookup-delete k j [] = ground arith
  lookup-delete k j ((i, w) ∷ m) =
      ground (arith, eq_iff k j, eq_iff i k, eq_iff i j, lookup-delete k j m)

  -- The later of two writes to a key stays.
  pub insert-insert : (k : String) (v w : V) (m : Map V) → insert k w (insert k v m) ≡ insert k w m
  unfolding insert
  insert-insert k v w [] = ground (arith, eq_refl k)
  insert-insert k v w ((i, u) ∷ m) = ground (arith, eq_iff i k, insert-insert k v w m)

  -- Writing back what is there changes nothing.
  pub insert-lookup : (k : String) (v : V) (m : Map V) → lookup k m ≡ some v → insert k v m ≡ m
  unfolding insert lookup
  insert-lookup k v [] h = ground arith
  insert-lookup k v ((i, u) ∷ m) h = ground (arith, insert-lookup k v m)

  -- Writes to two keys that are both there can be swapped.
  pub insert-swap :
      (k j : String) (v w u : V) (m : Map V)
      → str_eq k j ≡ false
      → lookup j m ≡ some u
      → insert k v (insert j w m) ≡ insert j w (insert k v m)
  unfolding insert lookup
  insert-swap k j v w u [] ne h = ground arith
  insert-swap k j v w u ((i, x) ∷ m) ne h =
      ground (arith, eq_iff k j, eq_iff i k, eq_iff i j, insert-swap k j v w u m)

module _ {ℓ} {V : Type ℓ} where
  pub lookup_eq : (k j : String) (m : Map V) → str_eq k j ≡ true → lookup k m ≡ lookup j m
  lookup_eq k j m e = ap (λ i. lookup i m) ((eq_iff k j).0 e)

  pub lookup-modify :
      (k j : String) (f : V → V) (m : Map V)
      → lookup j (modify k f m) ≡ Option.map (λ v. if str_eq k j then f v else v) (lookup j m)
  unfolding modify
  lookup-modify k j f m = elim (Option-cases (lookup k m)) [
    | inl e ↦ rw (e, modify) (ground (arith, lookup_eq k j m))
    | inr (v, e) ↦ rw (e, modify) (rw (lookup-insert k j (f v) m) (ground (arith, lookup_eq k j m)))
  ]

-- No key stands in the list twice, as in every Go map.
module _ {ℓ} {V : Type ℓ} where
  abbrev pub IsUnique : Map V → Type ℓ
  IsUnique [] = Unit
  IsUnique ((k, v) ∷ m) = (lookup k m ≡ none) × IsUnique m

  pub insert-IsUnique : (k : String) (v : V) (m : Map V) → IsUnique m → IsUnique (insert k v m)
  unfolding insert lookup
  insert-IsUnique k v [] u = (refl, tt)
  insert-IsUnique k v ((j, w) ∷ m) (fresh, u) = elim (Bool-cases (str_eq j k)) [
    | inl e ↦ rw (e, insert) (fresh, u)
    | inr e ↦
        rw (e, insert)
          (lookup-insert k j v m ∙ ground (arith, eq_iff j k, eq_iff k j), insert-IsUnique k v m u)
  ]

  pub delete-IsUnique : (k : String) (m : Map V) → IsUnique m → IsUnique (delete k m)
  unfolding delete lookup
  delete-IsUnique k [] u = tt
  delete-IsUnique k ((j, w) ∷ m) (fresh, u) = elim (Bool-cases (str_eq j k)) [
    | inl e ↦ rw (e, delete) (delete-IsUnique k m u)
    | inr e ↦ rw (e, delete) (lookup-delete k j m ∙ ground arith, delete-IsUnique k m u)
  ]

  pub modify-IsUnique : (k : String) (f : V → V) (m : Map V) → IsUnique m → IsUnique (modify k f m)
  unfolding modify
  modify-IsUnique k f m u = elim (Option-cases (lookup k m)) [
    | inl e ↦ rw (e, modify) u
    | inr (v, e) ↦ rw (e, modify) (insert-IsUnique k (f v) m u)
  ]
