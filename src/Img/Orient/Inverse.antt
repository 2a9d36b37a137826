-- ===== src/Img/Orient/Inverse.antt =====
-- Turning an image back gives the image with its colours converted.
use photo_swipe.Prelude.{
  ℕ, zero, suc, ◌+◌, ◌≤◌, ◌<◌, ◌≡◌, ap, ap₂, ◌∙◌, sym, ◌&&◌, ltb, leb, ◌==◌, arith, if◌then◌else◌,
}
use photo_swipe.Img.Orient.{Image, target, target_size, set_pixel, row, rows, apply_orientation}

-- The orientation that undoes another: 6 and 8 are quarter turns, the others undo themselves.
abbrev pub turned_back : ℕ → ℕ
turned_back o = if o == 6 then 8 else if o == 8 then 6 else o

module _ (o sw sh x y : ℕ) (known : 2 ≤ o) (known' : o ≤ 8) (xs : x < sw) (ys : y < sh) where
  -- Every pixel lands inside the new image.
  target_bounds :
      ((target o sw sh x y).0 < (target_size o sw sh).0)
      × ((target o sw sh x y).1 < (target_size o sw sh).1)
  unfolding target target_size
  target_bounds = ground arith

  -- From there the opposite turn takes it back to its place.
  target_back :
      target
        (turned_back o)
        (target_size o sw sh).0
        (target_size o sw sh).1
        (target o sw sh x y).0
        (target o sw sh x y).1
      ≡ (x, y)
  unfolding target target_size
  target_back = ground arith

-- Two pixels never land on the same place.
target_injective :
    (o sw sh x y x' y' : ℕ)
    → 2 ≤ o
    → o ≤ 8
    → x < sw
    → y < sh
    → x' < sw
    → y' < sh
    → target o sw sh x y ≡ target o sw sh x' y'
    → (x ≡ x') × (y ≡ y')
target_injective o sw sh x y x' y' k k' xs ys xs' ys' e =
    let back = λ (p : ℕ × ℕ).
      target (turned_back o) (target_size o sw sh).0 (target_size o sw sh).1 p.0 p.1 in
    let same : ◌≡◌ {A = ℕ × ℕ} (x, y) (x', y') =
      sym (target_back o sw sh x y k k' xs ys)
      ∙ ap back e
      ∙ target_back o sw sh x' y' k k' xs' ys' in
    (ap (λ (p : ℕ × ℕ). p.0) same, ap (λ (p : ℕ × ℕ). p.1) same)

same_place :
    (o sw sh x y x' y' : ℕ)
    → 2 ≤ o
    → o ≤ 8
    → x < sw
    → y < sh
    → x' < sw
    → y' < sh
    → ((target o sw sh x y).0 == (target o sw sh x' y').0
        && (target o sw sh x y).1 == (target o sw sh x' y').1)
      ≡ (x == x' && y == y')
same_place o sw sh x y x' y' k k' xs ys xs' ys' =
    let inj = target_injective o sw sh x y x' y' k k' xs ys xs' ys' in
    tests (target o sw sh x y) (target o sw sh x' y') inj (λ e f. ap₂ (target o sw sh) e f)
  where
    tests :
        (p q : ℕ × ℕ)
        → (p ≡ q → (x ≡ x') × (y ≡ y'))
        → (x ≡ x' → y ≡ y' → p ≡ q)
        → (p.0 == q.0 && p.1 == q.1) ≡ (x == x' && y == y')
    tests (a, b) (c, d) inj put = ground arith

abbrev pixel {ℓ} : {P : Type ℓ} → (ℕ → ℕ → P) → ℕ × ℕ → P
pixel at p = at p.0 p.1

module _ {P : Type 0} (rgba : P → P) (o sw sh : ℕ) (src : ℕ → ℕ → P) (k : 2 ≤ o) (k' : o ≤ 8) where
  pixel-set :
      (x y a b : ℕ) (dst : ℕ → ℕ → P) (p : P)
      → x < sw
      → y < sh
      → a < sw
      → b < sh
      → pixel (set_pixel rgba (target o sw sh x y) p dst) (target o sw sh a b)
        ≡ (if a == x && b == y then rgba p else pixel dst (target o sw sh a b))
  unfolding set_pixel
  pixel-set x y a b dst p xs ys al bl =
      ap (λ t. if t then rgba p else pixel dst (target o sw sh a b))
        (same_place o sw sh a b x y k k' al bl xs ys)

  pixel-row :
      (y x n a b : ℕ) (dst : ℕ → ℕ → P)
      → x + n ≤ sw
      → y < sh
      → a < sw
      → b < sh
      → pixel (row rgba o sw sh src y x n dst) (target o sw sh a b) ≡ (
          if b == y && leb x a && ltb a (x + n)
          then rgba (src a b)
          else pixel dst (target o sw sh a b))
  unfolding row
  pixel-row y x zero a b dst h ys al bl = ground arith
  pixel-row y x (suc n) a b dst h ys al bl =
      pixel-row y (x + 1) n a b _ (omega arith) ys al bl
      ∙ ground (arith, pixel-set x y a b dst (src x y))

  pixel-rows :
      (y n a b : ℕ) (dst : ℕ → ℕ → P)
      → y + n ≤ sh
      → a < sw
      → b < sh
      → pixel (rows rgba o sw sh src y n dst) (target o sw sh a b)
        ≡ (if leb y b && ltb b (y + n) then rgba (src a b) else pixel dst (target o sw sh a b))
  unfolding rows
  pixel-rows y zero a b dst h al bl = ground arith
  pixel-rows y (suc n) a b dst h al bl =
      pixel-rows (y + 1) n a b _ (omega arith) al bl ∙ ground (arith, pixel-row y 0 sw a b dst)

  -- A drawn image has every pixel of the source, converted, at its target.
  pixel-apply_orientation :
      (blank : P) (a b : ℕ)
      → a < sw
      → b < sh
      → pixel
          (apply_orientation rgba blank (record { width = sw; height = sh; at = src }) o).at
          (target o sw sh a b)
        ≡ rgba (src a b)
  unfolding apply_orientation
  pixel-apply_orientation blank a b al bl = ground (arith, pixel-rows 0 sh a b (λ _ _. blank))

size-apply_orientation :
    {P : Type 0} (rgba : P → P) (blank : P) (src : Image P) (o : ℕ)
    → 2 ≤ o
    → o ≤ 8
    → ((apply_orientation rgba blank src o).width ≡ (target_size o src.width src.height).0)
      × ((apply_orientation rgba blank src o).height ≡ (target_size o src.width src.height).1)
unfolding apply_orientation
size-apply_orientation rgba blank src o k k' = ground arith

turned_back_bounds : (o : ℕ) → 2 ≤ o → o ≤ 8 → (2 ≤ turned_back o) × (turned_back o ≤ 8)
turned_back_bounds o k k' = ground arith

target_size_back :
    (o w h : ℕ)
    → 2 ≤ o
    → o ≤ 8
    → let (dw, dh) = target_size o w h in target_size (turned_back o) dw dh ≡ (w, h)
unfolding target_size
target_size_back o w h k k' = ground arith

-- For each of the orientations 2 to 8, turning an image and then turning the result back gives an
-- image of the old size, whose pixels are the old ones with their colour in an image.RGBA. Such a
-- colour stays as it is when it is converted again.
pub apply_orientation_back :
    {P : Type 0} (rgba : P → P) (blank : P) (src : Image P) (o x y : ℕ)
    → ((p : P) → rgba (rgba p) ≡ rgba p)
    → 2 ≤ o
    → o ≤ 8
    → x < src.width
    → y < src.height
    → let back =
        apply_orientation rgba blank (apply_orientation rgba blank src o) (turned_back o) in
      (back.width ≡ src.width) × (back.height ≡ src.height) × (back.at x y ≡ rgba (src.at x y))
apply_orientation_back {P} rgba blank src o x y converted k k' xs ys = (
  size.0 ∙ ap₂ (λ w h. (target_size b w h).0) mid.0 mid.1 ∙ ap (λ (p : ℕ × ℕ). p.0) round,
  size.1 ∙ ap₂ (λ w h. (target_size b w h).1) mid.0 mid.1 ∙ ap (λ (p : ℕ × ℕ). p.1) round,
  ap (pixel (apply_orientation rgba blank turned b).at) (sym home)
      ∙ pixel-apply_orientation rgba b turned.width turned.height turned.at range.0 range.1 blank
          place.0 place.1 (rw mid.0 inside.0) (rw mid.1 inside.1)
      ∙ ap rgba (pixel-apply_orientation rgba o src.width src.height src.at k k' blank x y xs ys)
      ∙ converted (src.at x y),
)
  where
    b : ℕ
    b = turned_back o

    turned : Image P
    turned = apply_orientation rgba blank src o

    mid :
        (turned.width ≡ (target_size o src.width src.height).0)
        × (turned.height ≡ (target_size o src.width src.height).1)
    mid = size-apply_orientation rgba blank src o k k'

    range : (2 ≤ b) × (b ≤ 8)
    range = turned_back_bounds o k k'

    size :
        ((apply_orientation rgba blank turned b).width
          ≡ (target_size b turned.width turned.height).0)
        × ((apply_orientation rgba blank turned b).height
            ≡ (target_size b turned.width turned.height).1)
    size = size-apply_orientation rgba blank turned b range.0 range.1

    round :
        target_size b (target_size o src.width src.height).0 (target_size o src.width src.height).1
        ≡ (src.width, src.height)
    round = target_size_back o src.width src.height k k'

    place : ℕ × ℕ
    place = target o src.width src.height x y

    inside :
        (place.0 < (target_size o src.width src.height).0)
        × (place.1 < (target_size o src.width src.height).1)
    inside = target_bounds o src.width src.height x y k k' xs ys

    home : target b turned.width turned.height place.0 place.1 ≡ (x, y)
    home =
        ap₂ (λ w h. target b w h place.0 place.1) mid.0 mid.1
        ∙ target_back o src.width src.height x y k k' xs ys
