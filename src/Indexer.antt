-- ===== src/Indexer.antt =====
-- internal/indexer/indexer.go: the background loop that hashes the photos, one round at a time. The
-- picture that a file decodes to, the grey picture that the resampling library draws of it, and
-- time.Parse are parameters.
pub mod Fates
pub mod Left
pub mod Rounds
mod Examples
use photo_swipe.Prelude.{
  ℕ, zero, suc, String, Bool, true, false, Option, none, some, List, [], ◌∷◌, if◌then◌else◌,
}
use photo_swipe.Store.Photo.{Photo, Time, is_zero}
use photo_swipe.Store.State.{Store, Env, Result, ok, err, unreadable}
use photo_swipe.Store.Photos.{next_unhashed, set_capture_time, set_hash, mark_hash_failed}
use photo_swipe.Img.Exif.{ExifInfo, no_info, read_exif_file}
use photo_swipe.Img.Orient.{Image, apply_orientation}
use photo_swipe.Dhash.{Hash, compute}

-- What a round meets outside the program. `content` has the bytes of a file, `rgba` the colour
-- of a pixel in an image.RGBA, and `draw` the grey values of the small picture.
pub record Tools : Type 0 where
  pub env : Env
  pub path_of : String → String
  pub content : String → Option (List ℕ)
  pub parse_time : List ℕ → Option Time
  pub decode : String → Option (Image ℕ)
  pub rgba : ℕ → ℕ
  pub draw : Image ℕ → ℕ → ℕ → ℕ

-- ReadExifFile, which always returns.
unfoldable pub exif_of : Tools → String → ExifInfo
exif_of tools path = elim (read_exif_file tools.parse_time (tools.content path)) [
  | none ↦ no_info
  | some info ↦ info
]

-- if !exif.DateTimeOriginal.IsZero(), with the error dropped
unfoldable pub capture : Tools → String → Time → Store → Store
unfolding set_capture_time
capture tools id t s = if is_zero t then s else (set_capture_time tools.env id t s).1

unfoldable pub hash_one : Tools → Photo → Store → Result (Unit {0}) × Store
unfolding exif_of capture set_hash apply_orientation compute
hash_one tools p s =
    let path = tools.path_of p.path in
    let exif = exif_of tools path in
    let s' = capture tools p.id exif.date_time_original s in
    elim (tools.decode path) [
      | none ↦ (err unreadable, s')
      | some im ↦
          let hash = compute (tools.draw (apply_orientation tools.rgba 0 im exif.orientation)) in
          set_hash tools.env p.id hash.h hash.v s'
    ]

-- The end of a round: a photo that cannot be hashed is marked, so that the loop goes on.
abbrev pub settled : Tools → String → Result (Unit {0}) × Store → Store
settled tools id (ok _, s) = s
settled tools id (err _, s) = (mark_hash_failed tools.env id s).1

-- A round of the loop in run; `none` where it waits for work.
unfoldable pub index_round : Tools → Store → Option Store
unfolding next_unhashed hash_one mark_hash_failed
index_round tools s = elim (next_unhashed s) [
  | none ↦ none
  | some p ↦ some (settled tools p.id (hash_one tools p s))
]

-- The rounds until there is no work or `tools` ends.
unfoldable pub index_rounds : List Tools → Store → Store
unfolding index_round
index_rounds [] s = s
index_rounds (tools ∷ rest) s = elim (index_round tools s) [
  | none ↦ s
  | some s' ↦ index_rounds rest s'
]
