-- ===== src/Img/Raw.antt =====
-- internal/img/raw.go: the largest JPEG preview in a RAW file of the TIFF family. A file is a list
-- of bytes, and ReadAt fails where it reaches behind the last. `none` is Go's panic on an index or
-- a slice out of range, and the end of the fuel.
pub mod Held
pub mod Walk
pub mod Preview
use photo_swipe.Prelude.{
  ◌>>=◌, ℕ, zero, suc, ◌+◌, ◌*◌, ◌^◌, Bool, true, false, not, ◌&&◌, ◌||◌, Option, none, some, List,
  [], ◌∷◌, ◌++◌, length, drop, take, ltb, leb, ◌==◌, if◌then◌else◌,
}
use photo_swipe.Prelude.Sort.{sort_stable}
use photo_swipe.Img.Exif.{slice, ByteOrder, little_endian, big_endian, uint16, uint32}

pub record Region : Type 0 where
  pub off : ℕ
  pub size : ℕ

-- What one directory says of its images.
pub record Tags : Type 0 where
  pub compression : ℕ
  pub strip_off : ℕ
  pub strip_len : ℕ
  pub jpeg_off : ℕ
  pub jpeg_len : ℕ

abbrev pub no_tags : Tags
no_tags = record { compression = 0; strip_off = 0; strip_len = 0; jpeg_off = 0; jpeg_len = 0 }

pub data Found : Type 0 where
  preview : List ℕ → Found
  short_file not_tiff bad_tiff_magic no_preview : Found

-- out[i] = bo.Uint32(buf[i*4:]), for `left` numbers
unfoldable pub offsets_in : ByteOrder → ℕ → List ℕ → Option (List ℕ)
offsets_in bo zero buf = some []
offsets_in bo (suc left) buf = do
  off ← uint32 bo buf
  rest ← offsets_in bo left (drop 4 buf)
  some (off ∷ rest)

unfoldable pub read_offsets : List ℕ → ByteOrder → ℕ → List ℕ → Option (List ℕ)
unfolding offsets_in
read_offsets file bo count val =
    if count == 0 || ltb 16 count
    then some []
    else if count == 1
    then (do off ← uint32 bo val; some (off ∷ []))
    else (do
      at ← uint32 bo val
      if ltb (length file) (at + count * 4)
          then some []
          else offsets_in bo count (take (count * 4) (drop at file)))

-- The closure `scalar`: a SHORT stands at the left of the field.
unfoldable pub scalar : ByteOrder → ℕ → List ℕ → Option ℕ
scalar bo ftype val =
    if ftype == 3 then (do bytes ← slice 0 2 val; uint16 bo bytes) else uint32 bo val

-- The `switch tag`: the tags, and the directories to visit.
unfoldable pub read_tag :
    List ℕ → ByteOrder → ℕ → ℕ → ℕ → List ℕ → Tags × List ℕ → Option (Tags × List ℕ)
unfolding scalar read_offsets
read_tag file bo tag ftype count val (t, more) =
    if tag == 0x0103
    then (do bytes ← slice 0 2 val; c ← uint16 bo bytes; some (record t { compression = c }, more))
    else if tag == 0x0111
    then if count == 1
      then (do v ← scalar bo ftype val; some (record t { strip_off = v }, more))
      else some (t, more)
    else if tag == 0x0117
    then if count == 1
      then (do v ← scalar bo ftype val; some (record t { strip_len = v }, more))
      else some (t, more)
    else if tag == 0x0201
    then (do v ← scalar bo ftype val; some (record t { jpeg_off = v }, more))
    else if tag == 0x0202
    then (do v ← scalar bo ftype val; some (record t { jpeg_len = v }, more))
    else if tag == 0x014a
    then (do offs ← read_offsets file bo count val; some (t, more ++ offs))
    else some (t, more)

unfoldable pub read_entry : List ℕ → ByteOrder → List ℕ → Tags × List ℕ → Option (Tags × List ℕ)
unfolding read_tag
read_entry file bo e acc = do
  tag_bytes ← slice 0 2 e
  tag ← uint16 bo tag_bytes
  type_bytes ← slice 2 4 e
  ftype ← uint16 bo type_bytes
  count_bytes ← slice 4 8 e
  count ← uint32 bo count_bytes
  val ← slice 8 12 e
  read_tag file bo tag ftype count val acc

-- for i := 0; i < n; i++, with `left` rounds to go from the byte `at` of the entries
unfoldable pub read_entries :
    ℕ → ℕ → List ℕ → ByteOrder → List ℕ → Tags × List ℕ → Option (Tags × List ℕ)
unfolding read_entry
read_entries zero at file bo entries acc = some acc
read_entries (suc left) at file bo entries acc = do
  e ← slice at (at + 12) entries
  acc' ← read_entry file bo e acc
  read_entries left (at + 12) file bo entries acc'

abbrev pub one_region : Bool → ℕ → ℕ → List Region
one_region b off size =
    if b && ltb 0 off && ltb 0 size then record { off = off; size = size } ∷ [] else []

unfoldable pub regions_of : Tags → List Region
regions_of t =
    one_region true t.jpeg_off t.jpeg_len ++ one_region (t.compression == 6) t.strip_off t.strip_len

-- The entries of a directory, `n` of them, with the bytes that could be read of the pointer behind.
unfoldable pub read_dir : List ℕ → ByteOrder → ℕ → List ℕ → Option (List Region × List ℕ)
unfolding read_entries regions_of
read_dir file bo n entries = do
  (t, more) ← read_entries n 0 file bo entries (no_tags, [])
  if leb (n * 12 + 4) (length entries)
      then (do
        bytes ← slice (n * 12) (n * 12 + 4) entries
        next ← uint32 bo bytes
        some (regions_of t, more ++ next ∷ []))
      else some (regions_of t, more)

-- The body of the loop for a directory that is not visited yet; `continue` gives nothing.
unfoldable pub visit_dir : List ℕ → ByteOrder → ℕ → Option (List Region × List ℕ)
unfolding read_dir
visit_dir file bo off = if ltb (length file) (off + 2) then some ([], []) else (do
  count_bytes ← slice off (off + 2) file
  n ← uint16 bo count_bytes
  let entries = take (n * 12 + 4) (drop (off + 2) file) in
      if n == 0 || ltb 4096 n
      then some ([], [])
      else if ltb (length entries) (n * 12)
      then some ([], [])
      else read_dir file bo n entries)

abbrev pub has : ℕ → List ℕ → Bool
has x [] = false
has x (y ∷ ys) = y == x || has x ys

-- for len(queue) > 0 && len(visited) < 64
unfoldable pub walk : ℕ → List ℕ → ByteOrder → List ℕ → List ℕ → List Region → Option (List Region)
unfolding visit_dir
walk zero file bo visited queue jpegs = none
walk (suc rounds) file bo visited [] jpegs = some jpegs
walk (suc rounds) file bo visited (off ∷ queue) jpegs = elim (leb 64 (length visited)) [
  | true ↦ some jpegs
  | false ↦ elim (off == 0 || has off visited) [
    | true ↦ walk rounds file bo visited queue jpegs
    | false ↦ visit_dir file bo off >>= λ found.
        walk rounds file bo (off ∷ visited) (queue ++ found.1) (jpegs ++ found.0)
  ]
]

-- buf[0] == 0xFF && buf[1] == 0xD8
unfoldable pub is_soi : List ℕ → Option Bool
is_soi (a ∷ b ∷ _) = some (a == 0xff && b == 0xd8)
is_soi _ = none

unfoldable pub first_jpeg : List ℕ → List Region → Option Found
unfolding is_soi
first_jpeg file [] = some no_preview
first_jpeg file (r ∷ regions) =
    let rest = first_jpeg file regions in
    let buf = take r.size (drop r.off file) in
    if ltb r.size 2 || ltb (100 * 2 ^ 20) r.size
    then rest
    else if ltb (length file) (r.off + r.size)
    then rest
    else (do soi ← is_soi buf; if soi then some (preview buf) else rest)

-- No directory adds more than 65,537 to the queue, and no more than 64 are visited.
abbrev pub all_rounds : ℕ
all_rounds = 64 * 65538 + 2

-- sort.Slice leaves regions of one size in some order, which is here that in which they were found.
unfoldable pub by_size : List Region → List Region
by_size = sort_stable (λ r s. ltb s.size r.size)

unfoldable pub order_of : List ℕ → Option ByteOrder
order_of (a ∷ b ∷ _) =
    if a == b'I' && b == b'I'
    then some little_endian
    else if a == b'M' && b == b'M'
    then some big_endian
    else none
order_of _ = none

unfoldable pub preview_of : List ℕ → ByteOrder → Option Found
unfolding walk by_size first_jpeg
preview_of file bo = do
  magic_bytes ← slice 2 4 file
  magic ← uint16 bo magic_bytes
  if not (magic == 0x2a) then some bad_tiff_magic else (do
    off_bytes ← slice 4 8 file
    ifd0 ← uint32 bo off_bytes
    jpegs ← walk all_rounds file bo [] (ifd0 ∷ []) []
    first_jpeg file (by_size jpegs))

-- ExtractPreview on the bytes of the file
unfoldable pub extract_preview : List ℕ → Option Found
unfolding preview_of order_of
extract_preview file =
    if ltb (length file) 8
    then some short_file
    else elim (order_of file) [ none ↦ some not_tiff | some bo ↦ preview_of file bo ]
