-- ===== src/Dhash/Planes.antt =====
-- What the bits of a fingerprint say of the picture.
use photo_swipe.Prelude.{
  ℕ, zero, suc, ◌+◌, ◌*◌, ◌/◌, ◌%◌, ◌^◌, ◌≤◌, ◌<◌, ◌≡◌, refl, sym, ap, ap₂, ◌∙◌, arith, subst,
}
use photo_swipe.Dhash.{Word, put, line, across, down, compute}
use photo_swipe.Dhash.Written.{
  digit, one_if_brighter, Written, Extends, put-Extends, Extends-chain, Extends-nil,
  Extends-Written,
}

line-Extends :
    (pixel neighbour : ℕ → ℕ) (i n k : ℕ) (w : Word)
    → k + n ≤ 64
    → Written k w
    → Extends k n
        (λ j. one_if_brighter (pixel (i + j)) (neighbour (i + j)))
        w
        (line pixel neighbour i n w)
unfolding line
line-Extends pixel neighbour i zero k w h written = Extends-nil k _ w written
line-Extends pixel neighbour i (suc n) k w h written =
    let bits : ℕ → ℕ = λ j. one_if_brighter (pixel (i + j)) (neighbour (i + j)) in
    let at : ℕ → ℕ = λ m. one_if_brighter (pixel m) (neighbour m) in
    let one =
      put-Extends k (pixel i) (neighbour i) bits w (omega arith) (ap at (omega arith)) written in
    let w' = put (pixel i) (neighbour i) w in
    let rest =
      line-Extends pixel neighbour (i + 1) n (k + 1) w' (omega arith)
        (Extends-Written k 1 bits w w' one) in
    subst (λ m. Extends k m bits w (line pixel neighbour (i + 1) n w')) (omega arith)
      (Extends-chain k 1 n bits _ bits w w' _ one rest (λ j p. refl) λ j p. ap at (omega arith))

-- The loops of Compute over rows and over columns, `p` and `q` being what is compared.
lines : (ℕ → ℕ → ℕ) → (ℕ → ℕ → ℕ) → ℕ → ℕ → Word → Word
lines p q y zero w = w
lines p q y (suc n) w = lines p q (y + 1) n (line (p y) (q y) 0 8 w)

across-lines :
    (gray : ℕ → ℕ → ℕ) (y n : ℕ) (w : Word)
    → across gray y n w ≡ lines (λ r x. gray x r) (λ r x. gray (x + 1) r) y n w
unfolding across lines
across-lines gray y zero w = refl
across-lines gray y (suc n) w = across-lines gray (y + 1) n _

down-lines :
    (gray : ℕ → ℕ → ℕ) (x n : ℕ) (w : Word)
    → down gray x n w ≡ lines gray (λ c y. gray c (y + 1)) x n w
unfolding down lines
down-lines gray x zero w = refl
down-lines gray x (suc n) w = down-lines gray (x + 1) n _

-- Bit `m` of a plane.
cell : (ℕ → ℕ → ℕ) → (ℕ → ℕ → ℕ) → ℕ → ℕ
cell p q m = one_if_brighter (p (m / 8) (m % 8)) (q (m / 8) (m % 8))

lines-Extends :
    (p q : ℕ → ℕ → ℕ) (y n : ℕ) (w : Word)
    → y + n ≤ 8
    → Written (8 * y) w
    → Extends (8 * y) (8 * n) (λ j. cell p q (8 * y + j)) w (lines p q y n w)
unfolding lines cell
lines-Extends p q y zero w h written = Extends-nil (8 * y) _ w written
lines-Extends p q y (suc n) w h written =
    let bits : ℕ → ℕ = λ j. cell p q (8 * y + j) in
    let w' = line (p y) (q y) 0 8 w in
    let one = line-Extends (p y) (q y) 0 8 (8 * y) w (omega arith) written in
    let rest =
      lines-Extends p q (y + 1) n w' (omega arith)
        (subst (λ m. Written m w') (omega arith) (Extends-Written (8 * y) 8 _ w w' one)) in
    let rest' =
      subst (λ m. Extends m (8 * n) (λ j. cell p q (8 * (y + 1) + j)) w' (lines p q (y + 1) n w'))
        (next_line y) rest in
    subst (λ m. Extends (8 * y) m bits w (lines p q (y + 1) n w')) (omega arith)
      (Extends-chain (8 * y) 8 (8 * n) _ _ bits w w' _ one rest'
        (λ j h. ap₂ (λ a b. one_if_brighter (p a b) (q a b)) (omega arith) (omega arith))
        λ j h. ap (cell p q) (omega arith))
  where
    next_line : (y : ℕ) → 8 * (y + 1) ≡ 8 * y + 8
    next_line y = omega arith

-- The planes of the fingerprint of a picture are words of 64 bits. Bit 8 y + x of the first says
-- whether pixel (x, y) is brighter than its right neighbour, and bit 8 x + y of the second whether
-- it is brighter than its lower one.
pub digit-compute :
    (gray : ℕ → ℕ → ℕ) (x y : ℕ)
    → x < 8
    → y < 8
    → let hash = compute gray in
      (hash.h < 2 ^ 64)
      × (hash.v < 2 ^ 64)
      × (digit (8 * y + x) hash.h ≡ one_if_brighter (gray x y) (gray (x + 1) y))
      × (digit (8 * x + y) hash.v ≡ one_if_brighter (gray x y) (gray x (y + 1)))
unfolding compute Extends cell
digit-compute gray x y hx hy =
    let (written, _, bits) =
      subst (Extends 0 64 _ (0, 1)) (sym (across-lines gray 0 8 (0, 1)))
        (lines-Extends (λ r x. gray x r) (λ r x. gray (x + 1) r) 0 8 (0, 1) (omega arith) start) in
    let (written', _, bits') =
      subst (Extends 0 64 _ (0, 1)) (sym (down-lines gray 0 8 (0, 1)))
        (lines-Extends gray (λ c y. gray c (y + 1)) 0 8 (0, 1) (omega arith) start) in
    (
      written.0,
      written'.0,
      ap (λ m. digit m (across gray 0 8 (0, 1)).0) (omega arith)
          ∙ bits (8 * y + x) (omega arith)
          ∙ at (λ r x. gray x r) (λ r x. gray (x + 1) r) y x hx,
      ap (λ m. digit m (down gray 0 8 (0, 1)).0) (omega arith)
          ∙ bits' (8 * x + y) (omega arith)
          ∙ at gray (λ c y. gray c (y + 1)) x y hy,
    )
  where
    start : Written 0 (0, 1)
    start = (omega arith, refl)

    at :
        (p q : ℕ → ℕ → ℕ) (y x : ℕ)
        → x < 8
        → cell p q (0 + (8 * y + x)) ≡ one_if_brighter (p y x) (q y x)
    at p q y x h = ap₂ (λ a b. one_if_brighter (p a b) (q a b)) (omega arith) (omega arith)
