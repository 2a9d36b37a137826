-- ===== src/Dhash/Examples.antt =====
-- The theorems on fingerprints, at concrete ones.
use photo_swipe.Prelude.{ℕ, zero, suc, ◌+◌, ◌^◌, ◌≤◌, ◌<◌, ◌≡◌, ◌↔◌, refl, arith}
use photo_swipe.Dhash.{Hash, compute, distance}
use photo_swipe.Dhash.Written.{digit}
use photo_swipe.Dhash.Planes.{digit-compute}
use photo_swipe.Dhash.Distance.{distance-IsMetric}

abbrev first : Hash
first = record { h = 0xff; v = 0 }

abbrev second : Hash
second = record { h = 0xf0; v = 1 }

abbrev third : Hash
third = record { h = 0; v = 3 }

five_bits : distance first second ≡ 5
unfolding distance
five_bits = refl

distance-IsMetric_example :
    (distance first second ≡ distance second first)
    × (distance first second ≤ 128)
    × (distance first third ≤ distance first second + distance second third)
    × ((distance first second ≡ 0) ↔ (first ≡ second))
distance-IsMetric_example =
    distance-IsMetric first second third (omega arith, omega arith) (omega arith, omega arith)

-- A picture whose left column is brighter than the rest.
abbrev spot : ℕ → ℕ → ℕ
spot zero y = 9
spot (suc x) y = y

digit-compute_example :
    ((compute spot).h < 2 ^ 64)
    × ((compute spot).v < 2 ^ 64)
    × (digit 24 (compute spot).h ≡ 1)
    × (digit 3 (compute spot).v ≡ 0)
digit-compute_example = digit-compute spot 0 3 (omega arith) (omega arith)
