-- ===== src/Img/Exif/Safety.antt =====
-- No file content makes the EXIF reader panic or loop for ever.
use photo_swipe.Prelude.{
  ◌>>=◌, ℕ, zero, suc, ◌+◌, ◌-◌, ◌*◌, ◌≤◌, ◌≡◌, refl, Bool, true, false, Option, none, some, List,
  [], ◌∷◌, arith, length, drop, take, length-take, length-drop, ltb, leb, ◌==◌, if◌then◌else◌, ◌&&◌,
  not,
}
use photo_swipe.Store.Photo.{Time}
use photo_swipe.Img.Exif.{
  slice, ByteOrder, little_endian, big_endian, uint16, uint32, ExifInfo, failed, date_text,
  visit_tag, visit_entry, visit_entries, walk_ifd, parse_ifds, parse_exif, byte_order, no_info,
  bad_byte_order,
}

-- The computation returns.
abbrev pub Returns {ℓ} : {A : Type ℓ} → Option A → Type 0
Returns none = ⊥
Returns (some a) = Unit

pub Returns-bind :
    {A B : Type 0} (m : Option A) (f : A → Option B)
    → Returns m
    → ((a : A) → m ≡ some a → Returns (f a))
    → Returns (m >>= f)
Returns-bind none f h k = elim h [ ]
Returns-bind (some a) f h k = k a refl

Returns-if :
    {A : Type 0} (b : Bool) (m n : Option A)
    → (b ≡ true → Returns m)
    → (b ≡ false → Returns n)
    → Returns (if b then m else n)
Returns-if true m n h k = h refl
Returns-if false m n h k = k refl

pub Returns-slice : (a b : ℕ) (s : List ℕ) → a ≤ b → b ≤ length s → Returns (slice a b s)
unfolding slice
Returns-slice a b s h k = ground arith

length-slice : (a b : ℕ) (s t : List ℕ) → slice a b s ≡ some t → length t + a ≡ b
unfolding slice
length-slice a b s t h =
    ground (arith, length-take (b - a) (drop a s), length-drop a s, some-length)
  where
    some-length : leb a b && leb b (length s) ≡ true → length t ≡ length (take (b - a) (drop a s))
    some-length e = ground arith

Returns-uint16 : (bo : ByteOrder) (s : List ℕ) → 2 ≤ length s → Returns (uint16 bo s)
unfolding uint16
Returns-uint16 little_endian (a ∷ b ∷ s) h = tt
Returns-uint16 big_endian (a ∷ b ∷ s) h = tt
Returns-uint16 _ [] h = absurd (omega arith)
Returns-uint16 _ (a ∷ []) h = absurd (omega arith)

Returns-uint32 : (bo : ByteOrder) (s : List ℕ) → 4 ≤ length s → Returns (uint32 bo s)
unfolding uint32
Returns-uint32 little_endian (a ∷ b ∷ c ∷ d ∷ s) h = tt
Returns-uint32 big_endian (a ∷ b ∷ c ∷ d ∷ s) h = tt
Returns-uint32 _ [] h = absurd (omega arith)
Returns-uint32 _ (a ∷ []) h = absurd (omega arith)
Returns-uint32 _ (a ∷ b ∷ []) h = absurd (omega arith)
Returns-uint32 _ (a ∷ b ∷ c ∷ []) h = absurd (omega arith)

Returns-read16 :
    {B : Type 0} (bo : ByteOrder) (a b : ℕ) (s : List ℕ) (f : ℕ → Option B)
    → a + 2 ≡ b
    → b ≤ length s
    → ((v : ℕ) → Returns (f v))
    → Returns (slice a b s >>= λ t. uint16 bo t >>= f)
Returns-read16 bo a b s f e h k =
    Returns-bind (slice a b s) _ (Returns-slice a b s (omega arith) h) λ t at.
      Returns-bind (uint16 bo t) f (Returns-uint16 bo t (omega (arith, length-slice a b s t at)))
        (λ v _. k v)

Returns-read32 :
    {B : Type 0} (bo : ByteOrder) (a b : ℕ) (s : List ℕ) (f : ℕ → Option B)
    → a + 4 ≡ b
    → b ≤ length s
    → ((v : ℕ) → Returns (f v))
    → Returns (slice a b s >>= λ t. uint32 bo t >>= f)
Returns-read32 bo a b s f e h k =
    Returns-bind (slice a b s) _ (Returns-slice a b s (omega arith) h) λ t at.
      Returns-bind (uint32 bo t) f (Returns-uint32 bo t (omega (arith, length-slice a b s t at)))
        (λ v _. k v)

module _ (parse_time : List ℕ → Option Time) where
  Returns-date_text :
      (tiff : List ℕ) (bo : ByteOrder) (count : ℕ) (val : List ℕ)
      → length val ≡ 4
      → Returns (date_text parse_time tiff bo count val)
  unfolding date_text
  Returns-date_text tiff bo count val four =
      Returns-if (leb count 4) _ _ (λ h. Returns-slice 0 count val (omega arith) (ground arith))
        λ _. Returns-bind (uint32 bo val) _ (Returns-uint32 bo val (omega arith)) λ off _.
          Returns-if (leb (off + count) (length tiff)) _ _
            (λ h. Returns-slice off (off + count) tiff (omega arith) (ground arith)) (λ _. tt)

  Returns-visit_tag :
      (tiff : List ℕ) (bo : ByteOrder) (tag ftype count : ℕ) (val : List ℕ) (acc : ExifInfo × ℕ)
      → length val ≡ 4
      → Returns (visit_tag parse_time tiff bo tag ftype count val acc)
  unfolding visit_tag
  Returns-visit_tag tiff bo tag ftype count val (info, sub) four =
      Returns-if (tag == 0x0112) _ _
        (λ _.
          Returns-if (ftype == 3 && count == 1) _ _
            (λ _. Returns-read16 bo 0 2 val _ refl (omega arith) (λ v. tt)) (λ _. tt))
        λ _.
          Returns-if (tag == 0x8769) _ _
            (λ _.
              Returns-if (ftype == 4 && count == 1) _ _
                (λ _.
                  Returns-bind (uint32 bo val) _ (Returns-uint32 bo val (omega arith)) (λ _ _. tt))
                (λ _. tt))
            λ _.
              Returns-if (tag == 0x9003) _ _
                (λ _.
                  Returns-if (ftype == 2 && leb 19 count) _ _
                    (λ _.
                      Returns-bind (date_text parse_time tiff bo count val) _
                        (Returns-date_text tiff bo count val four) (λ _ _. tt))
                    (λ _. tt))
                (λ _. tt)

  Returns-visit_entry :
      (tiff : List ℕ) (bo : ByteOrder) (e : ℕ) (acc : ExifInfo × ℕ)
      → e + 12 ≤ length tiff
      → Returns (visit_entry parse_time tiff bo e acc)
  unfolding visit_entry
  Returns-visit_entry tiff bo e acc h = Returns-read16 bo e (e + 2) tiff _ refl (omega arith) λ tag.
      Returns-read16 bo (e + 2) (e + 4) tiff _ (omega arith) (omega arith) λ ftype.
        Returns-read32 bo (e + 4) (e + 8) tiff _ (omega arith) (omega arith) λ count.
          Returns-bind (slice (e + 8) (e + 12) tiff) _
            (Returns-slice (e + 8) (e + 12) tiff (omega arith) (omega arith))
            λ val at.
              Returns-visit_tag tiff bo tag ftype count val acc
                (omega (arith, length-slice (e + 8) (e + 12) tiff val at))

  Returns-visit_entries :
      (left e : ℕ) (tiff : List ℕ) (bo : ByteOrder) (acc : ExifInfo × ℕ)
      → e + left * 12 ≤ length tiff
      → Returns (visit_entries parse_time left e tiff bo acc)
  unfolding visit_entries
  Returns-visit_entries zero e tiff bo acc h = tt
  Returns-visit_entries (suc left) e tiff bo acc h =
      Returns-bind (visit_entry parse_time tiff bo e acc) _
        (Returns-visit_entry tiff bo e acc (omega arith))
        (λ acc' _. Returns-visit_entries left (e + 12) tiff bo acc' (omega arith))

  Returns-walk_ifd :
      (tiff : List ℕ) (off : ℕ) (bo : ByteOrder) (info : ExifInfo)
      → Returns (walk_ifd parse_time tiff off bo info)
  unfolding walk_ifd
  Returns-walk_ifd tiff off bo info =
      Returns-if (ltb (length tiff) (off + 2)) _ _ (λ _. tt)
        λ h. Returns-read16 bo off (off + 2) tiff _ refl (ground arith) λ n.
          Returns-if (ltb (length tiff) (off + 2 + n * 12)) _ _ (λ _. tt)
            (λ k. Returns-visit_entries n (off + 2) tiff bo (info, 0) (ground arith))

  Returns-parse_ifds :
      (tiff : List ℕ) (bo : ByteOrder) → 8 ≤ length tiff → Returns (parse_ifds parse_time tiff bo)
  unfolding parse_ifds
  Returns-parse_ifds tiff bo h = Returns-read16 bo 2 4 tiff _ refl (omega arith) λ magic.
      Returns-if (not (magic == 0x2a)) _ _ (λ _. tt)
        λ _. Returns-read32 bo 4 8 tiff _ refl (omega arith) λ ifd0.
          Returns-bind (walk_ifd parse_time tiff ifd0 bo no_info) _
            (Returns-walk_ifd tiff ifd0 bo no_info)
            λ r _.
              Returns-if (ltb 0 r.1) _ _
                (λ _.
                  Returns-bind (walk_ifd parse_time tiff r.1 bo r.0) _
                    (Returns-walk_ifd tiff r.1 bo r.0) (λ _ _. tt))
                (λ _. tt)

  Returns-byte_order : (tiff : List ℕ) → 2 ≤ length tiff → Returns (byte_order parse_time tiff)
  unfolding byte_order
  Returns-byte_order [] h = absurd (omega arith)
  Returns-byte_order (a ∷ []) h = absurd (omega arith)
  Returns-byte_order (a ∷ b ∷ tiff) h =
      Returns-if (a == b'I' && b == b'I') _ _ (λ _. tt)
        (λ _. Returns-if (a == b'M' && b == b'M') _ _ (λ _. tt) (λ _. tt))

  -- The TIFF part of any content is parsed or refused, and no index leaves the slice.
  pub Returns-parse_exif : (tiff : List ℕ) → Returns (parse_exif parse_time tiff)
  unfolding parse_exif
  Returns-parse_exif tiff =
      Returns-if (ltb (length tiff) 8) _ _ (λ _. tt)
        λ h. at (byte_order parse_time tiff) (Returns-byte_order tiff (ground arith)) (ground arith)
    where
      at :
          (o : Option (Option ByteOrder))
          → Returns o
          → 8 ≤ length tiff
          → Returns (elim o [
            | none ↦ none
            | some found_order ↦ elim found_order [
              | none ↦ some (failed bad_byte_order)
              | some bo ↦ parse_ifds parse_time tiff bo
            ]
          ])
      at none h k = h
      at (some none) h k = tt
      at (some (some bo)) h k = Returns-parse_ifds tiff bo k
