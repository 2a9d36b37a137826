-- ===== src/Img/Exif.antt =====
-- internal/img/exif.go: the JPEG and TIFF walk. A byte slice is a list of numbers; `none` is Go's
-- panic on an index or a slice out of range. `int` has 64 bits, so what a `uint32` turns into is
-- never negative. `time.Parse` is a parameter.
pub mod Safety
pub mod Loop
use photo_swipe.Prelude.{
  ◌>>=◌, ℕ, zero, suc, ◌+◌, ◌-◌, ◌*◌, ◌^◌, ◌≡◌, Bool, true, false, not, ◌&&◌, ◌||◌, Option, none,
  some, List, [], ◌∷◌, length, drop, take, ltb, leb, ◌==◌, if◌then◌else◌,
}
use photo_swipe.Store.Photo.{Time, zero_time}

-- s[a:b]
unfoldable pub slice : ℕ → ℕ → List ℕ → Option (List ℕ)
slice a b s = if leb a b && leb b (length s) then some (take (b - a) (drop a s)) else none

pub data ByteOrder : Type 0 where
  little_endian big_endian : ByteOrder

unfoldable pub uint16 : ByteOrder → List ℕ → Option ℕ
uint16 little_endian (a ∷ b ∷ _) = some (a + 256 * b)
uint16 big_endian (a ∷ b ∷ _) = some (256 * a + b)
uint16 _ _ = none

unfoldable pub uint32 : ByteOrder → List ℕ → Option ℕ
uint32 little_endian (a ∷ b ∷ c ∷ d ∷ _) = some (a + 256 * (b + 256 * (c + 256 * d)))
uint32 big_endian (a ∷ b ∷ c ∷ d ∷ _) = some (d + 256 * (c + 256 * (b + 256 * a)))
uint32 _ _ = none

pub record ExifInfo : Type 0 where
  pub orientation : ℕ
  pub date_time_original : Time

abbrev pub no_info : ExifInfo
no_info = record { orientation = 0; date_time_original = zero_time }

pub data ExifError : Type 0 where
  truncated_header bad_byte_order bad_magic : ExifError
  not_a_jpeg bad_marker no_exif bad_length unexpected_eof : ExifError

pub data Parsed : Type 0 where
  found : ExifInfo → Parsed
  failed : ExifError → Parsed

-- How a round of readExif ends: with the result of the function, or with the bytes that are left.
pub data Next : Type 0 where
  ended : Option Parsed → Next
  go_on : List ℕ → Next

pub data Scan : Type 0 where
  stopped : Option Parsed → Scan
  out_of_fuel : Scan

unfoldable pub same_bytes : List ℕ → List ℕ → Bool
same_bytes [] [] = true
same_bytes (a ∷ s) (b ∷ t) = a == b && same_bytes s t
same_bytes _ _ = false

abbrev pub exif_header : List ℕ
exif_header = 69 ∷ 120 ∷ 105 ∷ 102 ∷ 0 ∷ 0 ∷ []

-- The loop that cuts trailing zero bytes and spaces.
unfoldable pub trim : List ℕ → List ℕ
trim [] = []
trim (c ∷ s) = elim (trim s) [
  | [] ↦ if c == 0 || c == 32 then [] else c ∷ []
  | d ∷ rest ↦ c ∷ d ∷ rest
]

module _ (parse_time : List ℕ → Option Time) where
  -- The text of tag 0x9003: inline, or elsewhere in the file if it lies within.
  unfoldable pub date_text : List ℕ → ByteOrder → ℕ → List ℕ → Option (List ℕ)
  date_text tiff bo count val = if leb count 4 then slice 0 count val else (do
    str_off ← uint32 bo val
    if leb (str_off + count) (length tiff) then slice str_off (str_off + count) tiff else some [])

  unfoldable pub with_date : List ℕ → ExifInfo → ExifInfo
  with_date s info = elim (parse_time (trim s)) [
    | none ↦ info
    | some t ↦ record info { date_time_original = t }
  ]

  -- The `switch tag` of walkIFD: the info and the sub-IFD offset so far.
  unfoldable pub visit_tag :
      List ℕ → ByteOrder → ℕ → ℕ → ℕ → List ℕ → ExifInfo × ℕ → Option (ExifInfo × ℕ)
  unfolding date_text with_date
  visit_tag tiff bo tag ftype count val (info, sub_ifd) =
      if tag == 0x0112
      then if ftype == 3 && count == 1
        then (do
          bytes ← slice 0 2 val
          orientation ← uint16 bo bytes
          some (record info { orientation = orientation }, sub_ifd))
        else some (info, sub_ifd)
      else if tag == 0x8769
      then if ftype == 4 && count == 1
        then (do sub ← uint32 bo val; some (info, sub))
        else some (info, sub_ifd)
      else if tag == 0x9003
      then if ftype == 2 && leb 19 count
        then (do s ← date_text tiff bo count val; some (with_date s info, sub_ifd))
        else some (info, sub_ifd)
      else some (info, sub_ifd)

  unfoldable pub visit_entry : List ℕ → ByteOrder → ℕ → ExifInfo × ℕ → Option (ExifInfo × ℕ)
  unfolding visit_tag
  visit_entry tiff bo e acc = do
    tag_bytes ← slice e (e + 2) tiff
    tag ← uint16 bo tag_bytes
    type_bytes ← slice (e + 2) (e + 4) tiff
    ftype ← uint16 bo type_bytes
    count_bytes ← slice (e + 4) (e + 8) tiff
    count ← uint32 bo count_bytes
    val ← slice (e + 8) (e + 12) tiff
    visit_tag tiff bo tag ftype count val acc

  -- for i := 0; i < n; i++, with `left` rounds to go
  unfoldable pub visit_entries : ℕ → ℕ → List ℕ → ByteOrder → ExifInfo × ℕ → Option (ExifInfo × ℕ)
  unfolding visit_entry
  visit_entries zero e tiff bo acc = some acc
  visit_entries (suc left) e tiff bo acc = do
    acc' ← visit_entry tiff bo e acc
    visit_entries left (e + 12) tiff bo acc'

  unfoldable pub walk_ifd : List ℕ → ℕ → ByteOrder → ExifInfo → Option (ExifInfo × ℕ)
  unfolding visit_entries
  walk_ifd tiff off bo info = if ltb (length tiff) (off + 2) then some (info, 0) else (do
    count_bytes ← slice off (off + 2) tiff
    n ← uint16 bo count_bytes
    if ltb (length tiff) (off + 2 + n * 12)
        then some (info, 0)
        else visit_entries n (off + 2) tiff bo (info, 0))

  -- 'I', 'I' or 'M', 'M'; the second byte is only looked at where the first one fits.
  unfoldable pub byte_order : List ℕ → Option (Option ByteOrder)
  byte_order [] = none
  byte_order (a ∷ []) = if a == b'I' || a == b'M' then none else some none
  byte_order (a ∷ b ∷ _) =
      if a == b'I' && b == b'I'
      then some (some little_endian)
      else if a == b'M' && b == b'M'
      then some (some big_endian)
      else some none

  -- The part of parseExif behind the test of the length.
  unfoldable pub parse_ifds : List ℕ → ByteOrder → Option Parsed
  unfolding walk_ifd
  parse_ifds tiff bo = do
    magic_bytes ← slice 2 4 tiff
    magic ← uint16 bo magic_bytes
    if not (magic == 0x2a) then some (failed bad_magic) else (do
      off_bytes ← slice 4 8 tiff
      ifd0 ← uint32 bo off_bytes
      (info, sub_ifd) ← walk_ifd tiff ifd0 bo no_info
      if ltb 0 sub_ifd
          then (do (info', _) ← walk_ifd tiff sub_ifd bo info; some (found info'))
          else some (found info))

  unfoldable pub parse_exif : List ℕ → Option Parsed
  unfolding parse_ifds byte_order
  parse_exif tiff =
      if ltb (length tiff) 8 then some (failed truncated_header) else elim (byte_order tiff) [
        | none ↦ none
        | some found_order ↦ elim found_order [
          | none ↦ some (failed bad_byte_order)
          | some bo ↦ parse_ifds tiff bo
        ]
      ]

  -- marker == 0xE1 && len(seg) >= 6 && string(seg[:6]) == "Exif\x00\x00"
  unfoldable pub opens_exif : ℕ → List ℕ → Option Bool
  opens_exif marker seg =
      if marker == 0xe1
      then if leb 6 (length seg)
        then (do head ← slice 0 6 seg; some (same_bytes head exif_header))
        else some false
      else some false

  -- A segment of `seg_len` bytes, of which `r` holds the first: "Exif\x00\x00" opens the TIFF part.
  unfoldable pub segment : ℕ → ℕ → List ℕ → Next
  unfolding opens_exif parse_exif
  segment marker seg_len r =
      if ltb (length r) seg_len
      then ended (some (failed unexpected_eof))
      else let seg = take seg_len r in
        elim (opens_exif marker seg) [
          | none ↦ ended none
          | some opens ↦
              if opens
              then ended (do tiff ← slice 6 (length seg) seg; parse_exif tiff)
              else go_on (drop seg_len r)
        ]

  unfoldable pub after_marker : ℕ → List ℕ → Next
  unfolding segment
  after_marker marker r =
      if marker == 0x01 || (leb 0xd0 marker && leb marker 0xd7)
      then go_on r
      else if marker == 0xda || marker == 0xd9
      then ended (some (failed no_exif))
      else elim r [
        | [] ↦ ended (some (failed unexpected_eof))
        | hi ∷ more ↦ elim more [
          | [] ↦ ended (some (failed unexpected_eof))
          | lo ∷ rest ↦
              let len = 256 * hi + lo in
              if ltb len 2 || ltb (2 ^ 20 + 2) len
              then ended (some (failed bad_length))
              else segment marker (len - 2) rest
        ]
      ]

  -- One round of the loop of readExif over the bytes that are left.
  unfoldable pub round : List ℕ → Next
  unfolding after_marker
  round (mark ∷ marker ∷ r) =
      if not (mark == 0xff) then ended (some (failed bad_marker)) else after_marker marker r
  round _ = ended (some (failed unexpected_eof))

  unfoldable pub scan : ℕ → List ℕ → Scan
  unfolding round
  scan zero r = out_of_fuel
  scan (suc fuel) r = elim (round r) [ ended p ↦ stopped p | go_on r' ↦ scan fuel r' ]

  -- readExif; every round takes at least two bytes.
  unfoldable pub read_exif : List ℕ → Scan
  unfolding scan
  read_exif (a ∷ b ∷ r) =
      if not (a == 0xff) || not (b == 0xd8)
      then stopped (some (failed not_a_jpeg))
      else scan (suc (length r)) r
  read_exif _ = stopped (some (failed unexpected_eof))

  -- The second attempt of ReadExifFile, on the first MiB of the file.
  unfoldable pub read_head : List ℕ → Option ExifInfo
  unfolding parse_exif
  read_head bytes = elim (parse_exif (take (2 ^ 20) bytes)) [
    | none ↦ none
    | some p ↦ elim p [ found info ↦ some info | failed _ ↦ some no_info ]
  ]

  -- ReadExifFile on the content of a file, `none` where it cannot be opened. A loop without end,
  -- like a panic, is `none` here.
  unfoldable pub read_exif_file : Option (List ℕ) → Option ExifInfo
  unfolding read_exif read_head
  read_exif_file none = some no_info
  read_exif_file (some bytes) = elim (read_exif bytes) [
    | out_of_fuel ↦ none
    | stopped r ↦ elim r [
      | none ↦ none
      | some p ↦ elim p [ found info ↦ some info | failed _ ↦ read_head bytes ]
    ]
  ]
