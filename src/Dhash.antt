-- ===== src/Dhash.antt =====
-- internal/dhash/dhash.go: the fingerprint of a picture, two words of 64 bits, and the distance of
-- two fingerprints. The 9 by 9 grey picture that the resampling library draws is an argument: `gray
-- x y` is its pixel in column x of row y.
pub mod Xor
pub mod Distance
pub mod Written
pub mod Planes
pub mod Examples
use Prim.Native.Nat.{bit_or, bit_xor}
use photo_swipe.Prelude.{
  ℕ, zero, suc, ◌+◌, ◌*◌, ◌/◌, ◌%◌, ◌^◌, Bool, ◌&&◌, ltb, ◌==◌, if◌then◌else◌,
}

pub record Hash : Type 0 where
  pub h : ℕ
  pub v : ℕ

-- Zero
unfoldable pub is_zero_hash : Hash → Bool
is_zero_hash a = a.h == 0 && a.v == 0

-- A word under construction: the word, and the bit that comes next.
abbrev pub Word : Type 0
Word = ℕ × ℕ

-- if left > right { word |= bit }; bit <<= 1
unfoldable pub put : ℕ → ℕ → Word → Word
put left right (word, bit) = (if ltb right left then bit_or word bit else word, bit * 2 % 2 ^ 64)

-- The inner loop of Compute from index i on, `n` rounds: `pixel i` and its neighbour `pixel (i +
-- 1)`, or those in two columns or rows.
unfoldable pub line : (ℕ → ℕ) → (ℕ → ℕ) → ℕ → ℕ → Word → Word
unfolding put
line pixel neighbour i zero w = w
line pixel neighbour i (suc n) w = line pixel neighbour (i + 1) n (put (pixel i) (neighbour i) w)

-- for y := 0; y < 8; y++: each pixel and its right neighbour, row by row
unfoldable pub across : (ℕ → ℕ → ℕ) → ℕ → ℕ → Word → Word
unfolding line
across gray y zero w = w
across gray y (suc n) w = across gray (y + 1) n (line (λ x. gray x y) (λ x. gray (x + 1) y) 0 8 w)

-- for x := 0; x < 8; x++: each pixel and its lower neighbour, column by column
unfoldable pub down : (ℕ → ℕ → ℕ) → ℕ → ℕ → Word → Word
unfolding line
down gray x zero w = w
down gray x (suc n) w = down gray (x + 1) n (line (λ y. gray x y) (λ y. gray x (y + 1)) 0 8 w)

-- Compute, on the grey picture.
unfoldable pub compute : (ℕ → ℕ → ℕ) → Hash
unfolding across down
compute gray = record { h = (across gray 0 8 (0, 1)).0; v = (down gray 0 8 (0, 1)).0 }

-- bits.OnesCount64, on the lowest `n` bits
unfoldable pub ones_count : ℕ → ℕ → ℕ
ones_count zero x = 0
ones_count (suc n) x = x % 2 + ones_count n (x / 2)

unfoldable pub distance : Hash → Hash → ℕ
unfolding ones_count
distance a b = ones_count 64 (bit_xor a.h b.h) + ones_count 64 (bit_xor a.v b.v)
