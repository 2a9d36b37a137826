-- ===== src/Img/Examples.antt =====
-- The theorems on image files, at small inputs.
use photo_swipe.Prelude.{ℕ, ◌≡◌, refl, ◌+◌, ◌*◌, ◌/◌, Option, none, some, List, [], ◌∷◌, arith}
use photo_swipe.Prelude.Int.{pos}
use photo_swipe.Store.Photo.{Time}
use photo_swipe.Img.Exif.{read_exif_file, slice, uint16, uint32}
use photo_swipe.Prelude.Sort.{sort_stable}
use photo_swipe.Img.Raw.{extract_preview, preview}
use photo_swipe.Img.Orient.{Image, apply_orientation}
use photo_swipe.Img.Orient.Inverse.{turned_back, apply_orientation_back}

abbrev no_time : List ℕ → Option Time
no_time _ = none

-- A big-endian TIFF whose one entry is the tag Orientation with the value 6.
abbrev turned_tiff : List ℕ
turned_tiff =
    77 ∷ 77 ∷ 0 ∷ 42 ∷ 0 ∷ 0 ∷ 0 ∷ 8 ∷ 0 ∷ 1 ∷ 1 ∷ 18 ∷ 0 ∷ 3 ∷ 0 ∷ 0 ∷ 0 ∷ 1 ∷ 0 ∷ 6 ∷ 0 ∷ 0 ∷ []

reads_orientation :
    read_exif_file no_time (some turned_tiff)
    ≡ some (record { orientation = 6; date_time_original = pos 0 })
unfolding read_exif_file slice uint16 uint32
reads_orientation = refl

abbrev wide : Image ℕ
wide = record { width = 3; height = 2; at = λ x y. x + 10 * y }

-- Colours lose their last bit.
abbrev coarse : ℕ → ℕ
coarse c = c / 2 * 2

coarse_again : (c : ℕ) → coarse (coarse c) ≡ coarse c
coarse_again c = omega arith

apply_orientation_back_example :
    let back = apply_orientation coarse 98 (apply_orientation coarse 98 wide 6) (turned_back 6) in
    (back.width ≡ 3) × (back.height ≡ 2) × (back.at 1 1 ≡ 10)
apply_orientation_back_example =
    apply_orientation_back coarse 98 wide 6 1 1 coarse_again (omega arith) (omega arith)
      (omega arith) (omega arith)

-- A RAW file whose one directory points at four bytes, FF D8 1 2.
abbrev raw_file : List ℕ
raw_file =
    73 ∷ 73 ∷ 42 ∷ 0 ∷ 8 ∷ 0 ∷ 0 ∷ 0 ∷ 2 ∷ 0 ∷ 1 ∷ 2 ∷ 4 ∷ 0 ∷ 1 ∷ 0 ∷ 0 ∷ 0 ∷ 38 ∷ 0 ∷ 0 ∷ 0 ∷ 2
    ∷ 2 ∷ 4 ∷ 0 ∷ 1 ∷ 0 ∷ 0 ∷ 0 ∷ 4 ∷ 0 ∷ 0 ∷ 0 ∷ 0 ∷ 0 ∷ 0 ∷ 0 ∷ 255 ∷ 216 ∷ 1 ∷ 2 ∷ []

finds_preview : extract_preview raw_file ≡ some (preview (255 ∷ 216 ∷ 1 ∷ 2 ∷ []))
unfolding extract_preview slice uint16 uint32 sort_stable
finds_preview = refl
