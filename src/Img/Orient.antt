-- ===== src/Img/Orient.antt =====
-- internal/img/exif.go: ApplyOrientation. An image is its size and its pixels by coordinates from
-- the corner `b.Min`; what lies outside is never read. `rgba` is color.RGBAModel, which takes a
-- colour to one that an image.RGBA can hold.
pub mod Inverse
use photo_swipe.Prelude.{
  ℕ, zero, suc, ◌+◌, ◌-◌, ◌≡◌, Bool, true, false, ◌&&◌, ◌||◌, ltb, leb, ◌==◌, if◌then◌else◌,
}

pub record Image {ℓ} (P : Type ℓ) : Type ℓ where
  pub width : ℕ
  pub height : ℕ
  pub at : ℕ → ℕ → P

-- The `switch orientation` in the loops: where pixel (x, y) of a `sw` by `sh` image goes.
unfoldable pub target : ℕ → ℕ → ℕ → ℕ → ℕ → ℕ × ℕ
target orientation sw sh x y =
    if orientation == 2
    then (sw - 1 - x, y)
    else if orientation == 3
    then (sw - 1 - x, sh - 1 - y)
    else if orientation == 4
    then (x, sh - 1 - y)
    else if orientation == 5
    then (y, x)
    else if orientation == 6
    then (sh - 1 - y, x)
    else if orientation == 7
    then (sh - 1 - y, sw - 1 - x)
    else if orientation == 8
    then (y, sw - 1 - x)
    else (0, 0)

-- dw, dh
unfoldable pub target_size : ℕ → ℕ → ℕ → ℕ × ℕ
target_size orientation sw sh = if leb 5 orientation then (sh, sw) else (sw, sh)

module _ {ℓ} {P : Type ℓ} (rgba : P → P) where
  -- dst.Set(nx, ny, px), which converts the colour to that of an image.RGBA
  unfoldable pub set_pixel : ℕ × ℕ → P → (ℕ → ℕ → P) → ℕ → ℕ → P
  set_pixel (nx, ny) px dst x y = if x == nx && y == ny then rgba px else dst x y

  -- for x := x0; x < x0 + n; x++
  unfoldable pub row : ℕ → ℕ → ℕ → (ℕ → ℕ → P) → ℕ → ℕ → ℕ → (ℕ → ℕ → P) → ℕ → ℕ → P
  unfolding set_pixel target
  row orientation sw sh src y x zero dst = dst
  row orientation sw sh src y x (suc n) dst =
      row orientation sw sh src y (x + 1) n (set_pixel (target orientation sw sh x y) (src x y) dst)

  -- for y := y0; y < y0 + n; y++
  unfoldable pub rows : ℕ → ℕ → ℕ → (ℕ → ℕ → P) → ℕ → ℕ → (ℕ → ℕ → P) → ℕ → ℕ → P
  unfolding row
  rows orientation sw sh src y zero dst = dst
  rows orientation sw sh src y (suc n) dst =
      rows orientation sw sh src (y + 1) n (row orientation sw sh src y 0 sw dst)

  -- `blank` is the pixel of a new image.
  unfoldable pub apply_orientation : P → Image P → ℕ → Image P
  unfolding rows target_size
  apply_orientation blank src orientation =
      if leb orientation 1 || ltb 8 orientation
      then src
      else let (dw, dh) = target_size orientation src.width src.height in
        record {
          width = dw;
          height = dh;
          at = rows orientation src.width src.height src.at 0 src.height (λ _ _. blank);
        }
