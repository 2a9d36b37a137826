-- ===== src/Dhash/Distance.antt =====
-- The distance of two fingerprints is a metric.
use Prim.Native.Nat.{bit_xor, differ}
use photo_swipe.Prelude.{
  ℕ, zero, suc, ◌+◌, ◌/◌, ◌%◌, ◌^◌, ◌≤◌, ◌<◌, ◌-◌, ◌≡◌, refl, sym, ap, ap₂, ◌∙◌, arith, ◌↔◌,
}
use photo_swipe.Dhash.{Hash, ones_count, distance}
use photo_swipe.Dhash.Xor.{bit_xor_step}

-- In how many of their lowest `n` bits two words differ.
unfoldable pub hamming : ℕ → ℕ → ℕ → ℕ
hamming zero a b = 0
hamming (suc n) a b = differ (a % 2) (b % 2) + hamming n (a / 2) (b / 2)

differ_lem : (x y : ℕ) → differ x y ≡ x - y + (y - x)
differ_lem zero y = omega arith
differ_lem (suc x) zero = omega arith
differ_lem (suc x) (suc y) = omega (arith, differ_lem x y)

ones_count-bit_xor : (n a b : ℕ) → ones_count n (bit_xor a b) ≡ hamming n a b
unfolding ones_count hamming
ones_count-bit_xor zero a b = refl
ones_count-bit_xor (suc n) a b =
    ap₂ (λ x y. x + y) (omega (arith, bit_xor_step a b, differ_lem (a % 2) (b % 2)))
      (ap (ones_count n) (omega (arith, bit_xor_step a b, differ_lem (a % 2) (b % 2)))
        ∙ ones_count-bit_xor n (a / 2) (b / 2))

hamming_comm : (n a b : ℕ) → hamming n a b ≡ hamming n b a
unfolding hamming
hamming_comm zero a b = refl
hamming_comm (suc n) a b =
    omega (
      arith,
      hamming_comm n (a / 2) (b / 2),
      differ_lem (a % 2) (b % 2),
      differ_lem (b % 2) (a % 2),
    )

hamming-triangle : (n a b c : ℕ) → hamming n a c ≤ hamming n a b + hamming n b c
unfolding hamming
hamming-triangle zero a b c = omega arith
hamming-triangle (suc n) a b c = omega (
  arith,
  hamming-triangle n (a / 2) (b / 2) (c / 2),
  differ_lem (a % 2) (b % 2),
  differ_lem (b % 2) (c % 2),
  differ_lem (a % 2) (c % 2),
)

hamming-le : (n a b : ℕ) → hamming n a b ≤ n
unfolding hamming
hamming-le zero a b = omega arith
hamming-le (suc n) a b = omega (arith, hamming-le n (a / 2) (b / 2), differ_lem (a % 2) (b % 2))

hamming_self : (n a : ℕ) → hamming n a a ≡ 0
unfolding hamming
hamming_self zero a = refl
hamming_self (suc n) a = omega (arith, hamming_self n (a / 2), differ_lem (a % 2) (a % 2))

hamming-zero : (n a b : ℕ) → a < 2 ^ n → b < 2 ^ n → hamming n a b ≡ 0 → a ≡ b
unfolding hamming
hamming-zero zero a b p q h = omega arith
hamming-zero (suc n) a b p q h =
    let halves = hamming-zero n (a / 2) (b / 2) (omega arith) (omega arith) (omega arith) in
    omega (arith, halves, differ_lem (a % 2) (b % 2))

-- A fingerprint of two 64-bit words, as Go's types have them.
abbrev pub IsHash : Hash → Type 0
IsHash a = (a.h < 2 ^ 64) × (a.v < 2 ^ 64)

distance_lem : (a b : Hash) → distance a b ≡ hamming 64 a.h b.h + hamming 64 a.v b.v
unfolding distance
distance_lem a b =
    ap₂ (λ x y. x + y) (ones_count-bit_xor 64 a.h b.h) (ones_count-bit_xor 64 a.v b.v)

pub distance_comm : (a b : Hash) → distance a b ≡ distance b a
distance_comm a b =
    omega
      (arith, distance_lem a b, distance_lem b a, hamming_comm 64 a.h b.h, hamming_comm 64 a.v b.v)

-- The distance of fingerprints of two 64-bit words is symmetric, at most 128, no longer than the
-- way over a third one, and 0 exactly if the two are the same.
pub distance-IsMetric :
    (a b c : Hash)
    → IsHash a
    → IsHash b
    → (distance a b ≡ distance b a)
      × (distance a b ≤ 128)
      × (distance a c ≤ distance a b + distance b c)
      × ((distance a b ≡ 0) ↔ (a ≡ b))
distance-IsMetric a b c (ah, av) (bh, bv) = (
  distance_comm a b,
  omega (arith, distance_lem a b, hamming-le 64 a.h b.h, hamming-le 64 a.v b.v),
  omega (
    arith,
    distance_lem a b,
    distance_lem b c,
    distance_lem a c,
    hamming-triangle 64 a.h b.h c.h,
    hamming-triangle 64 a.v b.v c.v,
  ),
  (
    λ e.
        ap₂ (λ h v. record { h = h; v = v })
          (hamming-zero 64 a.h b.h ah bh (omega (arith, distance_lem a b)))
          (hamming-zero 64 a.v b.v av bv (omega (arith, distance_lem a b))),
    λ e.
        ap (distance a) (sym e)
        ∙ distance_lem a a
        ∙ omega (arith, hamming_self 64 a.h, hamming_self 64 a.v),
  ),
)
