-- ===== src/Img/Raw/Preview.antt =====
-- What ExtractPreview returns, for any content of the file.
use photo_swipe.Prelude.{ℕ, ◌*◌, ◌^◌, ◌≤◌, ◌≡◌, List, ◌∷◌, length, drop, take}
use photo_swipe.Img.Raw.{Found, preview}
use photo_swipe.Img.Raw.Held.{Held}

-- A preview is a part of the file, of two bytes to 100 MiB, that begins with the marker of a JPEG.
pub record IsJpegOf (file buf : List ℕ) : Type 0 where
  pub part : (off : ℕ) × (buf ≡ take (length buf) (drop off file))
  pub several : 2 ≤ length buf
  pub bounded : length buf ≤ 100 * 2 ^ 20
  pub soi : (rest : List ℕ) × (buf ≡ 0xff ∷ 0xd8 ∷ rest)

abbrev pub Sound : List ℕ → Found → Type 0
Sound file (preview buf) = IsJpegOf file buf
Sound file _ = Unit
