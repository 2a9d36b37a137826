-- ===== src/Prelude/Text.antt =====
-- The order of texts, as `<` on Go's strings has it.
use Prim.Native.Nat.{Ordering}
use Prim.Native.String.{String, compare}
use Prim.Native.String.compare
use mathlib.Core.Bool.{Bool, true, false}
use mathlib.Core.Logic.{inl, inr}
use mathlib.Core.Path.{◌≡◌, ap, ◌∙◌}
use native.Mathlib.Omega.{arith}
use text.Mathlib.Text.{◌==◌ as str_eq}
use text.Mathlib.TextEquality.{eq_iff}
use photo_swipe.Prelude.Tests.{Bool-cases}

abbrev pub str_lt : String → String → Bool
str_lt s t = elim (compare s t) [ Ordering.lt ↦ true | _ ↦ false ]

pub str_lt_irrefl : (s : String) → str_lt s s ≡ false
str_lt_irrefl String.[] = ground (arith, compare.nil-nil)
str_lt_irrefl (String.◌∷◌ c s) = ground (arith, compare.cons-cons c c s s, str_lt_irrefl s)

pub str_lt_trans : (s t u : String) → str_lt s t ≡ true → str_lt t u ≡ true → str_lt s u ≡ true
str_lt_trans s String.[] String.[] p q = ground (arith, compare.nil-nil)
str_lt_trans String.[] String.[] (String.◌∷◌ e u) p q = ground (arith, compare.nil-cons e u)
str_lt_trans (String.◌∷◌ c s) String.[] u p q = ground (arith, compare.cons-nil c s)
str_lt_trans s (String.◌∷◌ d t) String.[] p q = ground (arith, compare.cons-nil d t)
str_lt_trans String.[] (String.◌∷◌ d t) (String.◌∷◌ e u) p q = ground (arith, compare.nil-cons e u)
str_lt_trans (String.◌∷◌ c s) (String.◌∷◌ d t) (String.◌∷◌ e u) p q = ground (
  arith,
  compare.cons-cons c d s t,
  compare.cons-cons d e t u,
  compare.cons-cons c e s u,
  str_lt_trans s t u,
)

-- Of two different texts one is the lesser.
pub str_lt_total : (s t : String) → str_eq s t ≡ false → str_lt s t ≡ false → str_lt t s ≡ true
str_lt_total String.[] String.[] p q = ground (arith, compare.nil-nil)
str_lt_total String.[] (String.◌∷◌ d t) p q = ground (arith, compare.nil-cons d t)
str_lt_total (String.◌∷◌ c s) String.[] p q = ground (arith, compare.nil-cons c s)
str_lt_total (String.◌∷◌ c s) (String.◌∷◌ d t) p q =
    ground (arith, compare.cons-cons c d s t, compare.cons-cons d c t s, str_lt_total s t)

pub str_lt_asym : (s t : String) → str_lt s t ≡ true → str_lt t s ≡ false
str_lt_asym s t h = elim (Bool-cases (str_lt t s)) [
  | inl e ↦ absurd (ground (arith, str_lt_trans s t s h e, str_lt_irrefl s))
  | inr e ↦ e
]

-- The order is a weak one.
pub str_lt_through : (s t u : String) → str_lt s t ≡ false → str_lt t u ≡ false → str_lt s u ≡ false
str_lt_through s t u h k = elim (Bool-cases (str_eq s t)) [
  | inl e ↦ ap (λ x. str_lt x u) ((eq_iff s t).0 e) ∙ k
  | inr e ↦ elim (Bool-cases (str_lt s u)) [
    | inl l ↦ absurd (ground (arith, str_lt_trans t s u (str_lt_total s t e h) l))
    | inr l ↦ l
  ]
]
