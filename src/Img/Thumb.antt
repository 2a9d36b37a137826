-- ===== src/Img/Thumb.antt =====
-- internal/img/thumb.go: thumbnails and their cache on the disk. The image codecs, the resampling
-- library and time.Parse are parameters.
pub mod Bounds
pub mod Cache
use photo_swipe.Prelude.{
  ℕ, suc, mem, not, ◌*◌, ◌/◌, String, Bool, true, false, ◌&&◌, Option, none, some, List, [], ◌∷◌,
  leb, if◌then◌else◌,
}
use Prim.Native.String.{◌++◌ as ◌⧺◌}
use photo_swipe.Prelude.Int.{ℤ, pos, pos_part, leb_ℤ, ltb_ℤ}
use photo_swipe.Prelude.Map.{lookup, insert}
use photo_swipe.Store.Photo.{Time}
use photo_swipe.Img.Exif.{ExifInfo, no_info, read_exif_file}
use photo_swipe.Img.Orient.{Image, apply_orientation}
use photo_swipe.Img.Trash.{Paths, Answers, Disk, mkdir_all}

abbrev pub max_side : ℕ
max_side = 1600

abbrev pub cache_dir : String
cache_dir = ".thumbs"

-- `rgba` is the colour of a pixel in an image.RGBA, `copy` draws the picture again at its size, `shrink` at another, and `encode` fails where the
-- JPEG encoder or the temporary file does.
pub record Codecs : Type 0 where
  pub content : String → Option (List ℕ)
  pub parse_time : List ℕ → Option Time
  pub decode : String → Option (Image ℕ)
  pub rgba : ℕ → ℕ
  pub copy : Image ℕ → Image ℕ
  pub shrink : ℕ → ℕ → Image ℕ → Image ℕ
  pub encode : Image ℕ → Option String

-- nw, nh
unfoldable pub shrunk_size : ℕ → ℕ → ℕ → ℕ × ℕ
shrunk_size sw sh side = if leb sh sw then (side, sh * side / sw) else (sw * side / sh, side)

unfoldable pub scale_to : Codecs → Image ℕ → ℕ → Image ℕ
unfolding shrunk_size
scale_to codecs src side =
    if leb src.width side && leb src.height side
    then codecs.copy src
    else let (nw, nh) = shrunk_size src.width src.height side in codecs.shrink nw nh src

-- The orientation that ReadExifFile finds; it always returns.
unfoldable pub oriented_as : Codecs → String → ℕ
oriented_as codecs src = elim (read_exif_file codecs.parse_time (codecs.content src)) [
  | none ↦ no_info.orientation
  | some info ↦ info.orientation
]

-- The thumbnail before it is encoded; `none` where the picture cannot be decoded.
unfoldable pub thumb_of : Codecs → String → ℕ → Option (Image ℕ)
unfolding scale_to apply_orientation oriented_as
thumb_of codecs src side = elim (codecs.decode src) [
  | none ↦ none
  | some im ↦
      some (scale_to codecs (apply_orientation codecs.rgba 0 im (oriented_as codecs src)) side)
]

-- A cache miss: the thumbnail is written beside its place and renamed, then opened and sent.
unfoldable pub make_thumb :
    Codecs → Paths → Answers → String → String → String → ℕ → Disk → Option String × Disk
unfolding thumb_of mkdir_all
make_thumb codecs paths os src dir path side disk = elim (thumb_of codecs src side) [
  | none ↦ (none, disk)
  | some thumb ↦ elim (mkdir_all paths os dir disk) [
    | none ↦ (none, disk)
    | some disk' ↦ elim (codecs.encode thumb) [
      | none ↦ (none, disk')
      | some bytes ↦
          if os.rename_ok "tmp" path && not (mem path disk'.dirs)
          then (
            if os.reopen_ok path && os.copy_ok path then some bytes else none,
            record disk' { files = insert path bytes disk'.files },
          )
          else (none, disk')
    ]
  ]
]

-- maxSide, at most ThumbnailMaxSide
abbrev pub clamped : ℤ → ℕ
clamped side = if ltb_ℤ (pos max_side) side then max_side else pos_part side

-- cachePath
abbrev pub cache_path : Paths → String → String → ℕ → String
cache_path paths photo_dir id side =
    paths.join (paths.join photo_dir cache_dir) (id ⧺ "-" ⧺ paths.decimal side ⧺ ".jpg")

-- What is sent, or `none` for an error, and the disk with the cache. A directory can be opened, but
-- not copied.
unfoldable pub serve_thumb :
    Codecs → Paths → Answers → String → String → String → ℤ → Disk → Option String × Disk
unfolding make_thumb
serve_thumb codecs paths os src photo_dir id side disk =
    let dir = paths.join photo_dir cache_dir in
    let path = cache_path paths photo_dir id (clamped side) in
    if leb_ℤ side (pos 0)
    then (none, disk)
    else if not (os.open_ok path)
    then make_thumb codecs paths os src dir path (clamped side) disk
    else elim (lookup path disk.files) [
      | some bytes ↦ (if os.copy_ok path then some bytes else none, disk)
      | none ↦
          if mem path disk.dirs
          then (none, disk)
          else make_thumb codecs paths os src dir path (clamped side) disk
    ]
